-- ===== src/Collector/Damper.antt =====
-- internal/collector/damper.go: the damping of repeated failures in the log.
pub mod Laws
use tee_relay_client.Base.{
  ℕ, zero, suc, ◌+◌, ◌-◌, ◌*◌, ◌≤◌, ◌<◌, Bool, true, false, leb, List, [], ◌∷◌, ◌++◌, ◌==◌, nat_eq,
  ◌≡◌, ◌≢◌, refl, Option, none, some, if◌then◌else◌, arith,
}

-- A line of the log: an Error with the failures so far (at the first failure none is printed), a
-- Debug line, and the Info line of a recovery.
pub data Line : Type 0 where
  error_first debug_failed : Line
  error_summary info_recovered : ℕ → Line

-- Times are nanoseconds of a monotonic clock.
pub record Damper : Type 0 where
  pub failures : ℕ
  pub first : ℕ
  pub last_err : ℕ

unfoldable pub new_damper : Damper
new_damper = record { failures = 0; first = 0; last_err = 0 }

abbrev pub summary_interval : ℕ
summary_interval = 300000000000

-- `fail`. The clock is read up to twice: `now`, and `later` after the summary was written.
unfoldable pub fail : ℕ → ℕ → Damper → Damper × Line
fail now later d =
    let d' = record d { failures = d.failures + 1 } in
    if d'.failures == 1
    then (record d' { first = now; last_err = now }, error_first)
    else if leb summary_interval (now - d'.last_err)
    then (record d' { last_err = later }, error_summary d'.failures)
    else (d', debug_failed)

-- `ok`
unfoldable pub recover : Damper → Damper × Option Line
recover d =
    if d.failures == 0
    then (d, none)
    else (record d { failures = 0 }, some (info_recovered d.failures))
