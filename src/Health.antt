-- ===== src/Health.antt =====
-- internal/health: the status behind the probes (status.go), and the probes (server.go).
pub mod Laws
pub mod Server
pub mod Lifecycle
use tee_relay_client.Base.{
  ℕ, suc, ◌+◌, ◌-◌, ◌*◌, ◌≤◌, ◌<◌, Bool, true, false, not, List, [], ◌∷◌, ltb, Option, none, some,
  if◌then◌else◌, Error, new, Result, ok, err,
}
use tee_relay_client.Base.Int.{ℤ, pos, negsuc, ltb_ℤ, ◌-ℤ◌, pos_part, neg_part}

-- A `time.Time` is its nanoseconds since the Unix epoch; the zero Time is the first instant of
-- the year 1.
abbrev pub zero_time : ℤ
zero_time = negsuc 62135596799999999999

-- `t.IsZero()`
unfoldable pub is_zero : ℤ → Bool
is_zero t = if ltb_ℤ t zero_time then false else not (ltb_ℤ zero_time t)

abbrev pub max_duration : ℕ
max_duration = 9223372036854775807

unfoldable pub saturate : ℤ → ℤ
saturate d =
    if ltb_ℤ (pos max_duration) d
    then pos max_duration
    else if ltb_ℤ d (negsuc max_duration)
    then negsuc max_duration
    else d

-- `t.Sub(u)` saturates at the greatest and the least Duration.
unfoldable pub sub : ℤ → ℤ → ℤ
sub t u = saturate (t -ℤ u)

-- The struct `Status` without its clock, whose reading is an argument; a nil Status is `none`.
pub record Status : Type 0 where
  pub started : Bool
  pub block : ℕ
  pub block_time : ℤ
  pub max_lag : ℤ

unfoldable pub new_status : ℤ → Status
new_status max_lag = record {
  started = false;
  block = 0;
  block_time = zero_time;
  max_lag = max_lag;
}

unfoldable pub set_started : Option Status → Option Status
set_started none = none
set_started (some s) = some (record s { started = true })

unfoldable pub set_indexer : ℕ → ℤ → Option Status → Option Status
set_indexer block block_time none = none
set_indexer block block_time (some s) = some (record s { block = block; block_time = block_time })

abbrev pub err_startup_not_finished : Error
err_startup_not_finished = new "startup not finished yet"

abbrev pub err_no_indexer_state : Error
err_no_indexer_state = new "no indexer state observed yet"

abbrev pub err_indexer_stale : Error
err_indexer_stale = new "indexer block too old"

unfoldable pub startup : Option Status → Result (Unit {0})
startup none = err err_startup_not_finished
startup (some s) = if s.started then ok tt else err err_startup_not_finished

-- `max(d, 0)`
abbrev pub max_zero : ℤ → ℤ
max_zero (pos n) = pos n
max_zero (negsuc n) = pos 0

unfoldable pub ready : Option Status → ℤ → Result (Unit {0})
ready none now = err err_startup_not_finished
ready (some s) now =
    let age = max_zero (sub now s.block_time) in
    if not s.started
    then err err_startup_not_finished
    else if is_zero s.block_time
    then err err_no_indexer_state
    else if ltb_ℤ s.max_lag age
    then err err_indexer_stale
    else ok tt
