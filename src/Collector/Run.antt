-- ===== src/Collector/Run.antt =====
-- internal/collector/collector.go: `New`, `Run`, the start of `instructionsListener`, and
-- `reportState`.
use tee_relay_client.Base.{
  ℕ, suc, ◌-◌, ◌*◌, ◌+◌, ltb, false, Bool-cases, List, [], ◌∷◌, ◌∙◌, ap, inl, inr, refl, ◌<◌, Bool,
  true, Bytes, Option, some, Result, ok, err, panic, wrapped, then_do, if◌then◌else◌, ◌≡◌, ◌≢◌, ◌↔◌,
  arith,
}
use tee_relay_client.Base.Int.{ℤ, pos, negsuc, ◌-ℤ◌, ◌≤ℤ◌}
use tee_relay_client.Health.{Status, set_indexer, zero_time, max_duration, ready}
use tee_relay_client.Health.Laws.{ready_lem}
use tee_relay_client.Collector.Window.{to_int64, two_63, two_64}
use tee_relay_client.Collector.Listener.{
  State, Listener, Tick, start, send, received, observed, round, rounds,
}
use tee_relay_client.Collector.Listener.Complete.{round_cases, rounds_open}
use tee_relay_client.Instruction.{Log}

-- The struct `Collector` without its database and its status.
pub record Collector : Type 0 where
  pub flare_tee_manager : Bytes
  pub start_interval : ℤ

unfoldable pub new_collector : Bytes → ℤ → Collector
new_collector flare_tee_manager start_interval = record {
  flare_tee_manager = flare_tee_manager;
  start_interval = start_interval;
}

-- `database.SyncParams`; durations are seconds.
pub record SyncParams : Type 0 where
  pub retries : ℕ
  pub out_of_sync_tolerance : ℕ
  pub max_sleep_time : ℕ
  pub min_sleep_time : ℕ

unfoldable pub sync_params : SyncParams
sync_params = record {
  retries = 30;
  out_of_sync_tolerance = 30;
  max_sleep_time = 600;
  min_sleep_time = 5;
}

-- `Run`: `wait_to_sync` is go-flare-common's `WaitCIndexerToSync`. The value is the interval that
-- the goroutine of the listener is started with.
unfoldable pub run_collector : (SyncParams → Result (Unit {0})) → Collector → Result ℤ
run_collector wait_to_sync c =
    then_do (wrapped "waiting for indexer to sync" (wait_to_sync sync_params))
      λ u. ok c.start_interval

-- How the listener's goroutine begins: it returns, it panics, which ends the relay, or it listens.
pub data Beginning : Type 0 where
  returned panicked : Beginning
  listening : Listener → Beginning

-- The first fetch of the state: an error after the context was cancelled is no fault.
unfoldable pub begin : ℤ → (cancelled : Bool) → Result State → Beginning
begin start_interval cancelled (ok state) = listening (start state start_interval)
begin start_interval cancelled (err e) = if cancelled then returned else panicked
begin start_interval cancelled panic = panicked

-- The seconds from the first year to 1970, which `time.Unix` adds.
abbrev unix_to_internal : ℕ
unix_to_internal = 62135596800

-- `time.Unix(seconds, 0)`: the sum with the seconds from the first year wraps around at 2 ^ 63.
unfoldable pub unix_time : ℤ → ℤ
unix_time (pos n) =
    if ltb (n + unix_to_internal) two_63
    then pos (n * 1000000000)
    else negsuc ((two_64 - n) * 1000000000 - 1)
unix_time (negsuc n) = negsuc (suc n * 1000000000 - 1)

-- `reportState`
unfoldable pub report_state : Option Status → State → Option Status
report_state status state =
    set_indexer state.index (unix_time (to_int64 state.block_timestamp)) status

ready-report_state :
    (s : Status) (state : State) (lag now : ℕ)
    → s.started ≡ true
    → s.max_lag ≡ pos lag
    → lag < max_duration
    → state.block_timestamp < two_63
    → (ready (report_state (some s) state) (pos now) ≡ ok tt) ↔ (
        (state.block_timestamp + unix_to_internal < two_63)
        × (pos now -ℤ pos (state.block_timestamp * 1000000000) ≤ℤ pos lag))
unfolding report_state set_indexer unix_time to_int64
ready-report_state s state lag now b e h small =
    let n = state.block_timestamp in
    elim (Bool-cases (ltb (n + unix_to_internal) two_63)) [
      | inl fits ↦
          let t = n * 1000000000 in
          let same : unix_time (to_int64 n) ≡ pos t = ground arith in
          let u = record s { block = state.index; block_time = pos t } in
          let (there, back) = ready_lem u lag (pos now) e h in
          let real : (pos t) ≢ zero_time = λ z. ground arith in
          rw same (λ r. (ground arith, (there r).2), λ l. back (b, real, l.1))
      | inr wraps ↦
          let t = negsuc ((two_64 - n) * 1000000000 - 1) in
          let same : unix_time (to_int64 n) ≡ t = ground arith in
          let u = record s { block = state.index; block_time = t } in
          let (there, back) = ready_lem u lag (pos now) e h in
          rw same (λ r. absurd (ground (arith, (there r).2)), λ l. absurd (ground (arith, l)))
    ]

-- The last state that the database answered.
abbrev pub answered : Result State → State → State
answered (ok state) last = state
answered (err e) last = last
answered panic last = last

abbrev pub last_answer : List Tick → State → State
last_answer [] last = last
last_answer (t ∷ ts) last = last_answer ts (answered t.state last)

received-reported :
    (t : Tick) (s : Listener) (r : Result (List Log)) → (received t s r).reported ≡ s.reported
unfolding received send
received-reported t s (ok []) = refl
received-reported t s (ok (log ∷ logs)) = ground arith
received-reported t s (err e) = refl
received-reported t s panic = refl

observed-reported :
    (t : Tick) (s : Listener) (r : Result State) → (observed t s r).reported ≡ answered r s.reported
unfolding observed
observed-reported t s (ok state) = received-reported t _ _
observed-reported t s (err e) = refl
observed-reported t s panic = refl

rounds-reported :
    (ts : List Tick) (s : Listener)
    → (rounds ts s).closed ≡ false
    → (rounds ts s).reported ≡ last_answer ts s.reported
unfolding rounds
rounds-reported [] s o = refl
rounds-reported (t ∷ ts) s o = elim (round_cases t s) [
  | inl closed ↦ absurd (closed (rounds_open ts (round t s) o))
  | inr e ↦
      rounds-reported ts (round t s) o
      ∙ ap (last_answer ts) (ap (λ (u : Listener). u.reported) e ∙ observed-reported t s t.state)
]

-- After rounds of the collector's loop, which has not returned, and for the status of a started
-- relay with a tolerated lag that is not negative and below the greatest Duration, a time after
-- 1970, and a last timestamp that fits int64: what the collector reported lets `Ready` pass
-- exactly while the timestamp of the last state that the database answered, if any, and else of
-- the one before those rounds, is one that `time.Unix` does not wrap around and is at most the
-- lag before now. Failed queries do not refresh it.
pub ready-rounds :
    (s : Status) (ts : List Tick) (l : Listener) (lag now : ℕ)
    → s.started ≡ true
    → s.max_lag ≡ pos lag
    → lag < max_duration
    → (rounds ts l).closed ≡ false
    → (last_answer ts l.reported).block_timestamp < two_63
    → let timestamp = (last_answer ts l.reported).block_timestamp in
      (ready (report_state (some s) (rounds ts l).reported) (pos now) ≡ ok tt) ↔ (
        (timestamp + unix_to_internal < two_63)
        × (pos now -ℤ pos (timestamp * 1000000000) ≤ℤ pos lag))
ready-rounds s ts l lag now b e h o small =
    let same = rounds-reported ts l o in
    rw same (ready-report_state s (last_answer ts l.reported) lag now b e h small)
