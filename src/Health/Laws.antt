-- ===== src/Health/Laws.antt =====
-- When the probes pass.
use tee_relay_client.Base.{
  ℕ, ◌<◌, Bool, true, false, List, [], ◌∷◌, Option, none, some, ◌≡◌, ◌≢◌, ◌↔◌, refl, ok, arith,
}
use tee_relay_client.Base.Int.{ℤ, pos, ltb_ℤ, ◌-ℤ◌, ◌≤ℤ◌}
use tee_relay_client.Health.{
  zero_time, is_zero, max_duration, max_zero, saturate, sub, Status, set_started, set_indexer,
  startup, ready,
}

is_zero_lem : (t : ℤ) → (is_zero t ≡ true) ↔ (t ≡ zero_time)
unfolding is_zero
is_zero_lem t = (λ h. ground arith, λ h. ground arith)

stale_lem :
    (lag : ℕ) (d : ℤ)
    → lag < max_duration
    → (ltb_ℤ (pos lag) (max_zero (saturate d)) ≡ false) ↔ (d ≤ℤ pos lag)
unfolding saturate
stale_lem lag d h = (λ r. ground arith, λ r. ground arith)

not_zero : (b : Bool) → b ≢ true → b ≡ false
not_zero true h = absurd (h refl)
not_zero false h = refl

-- With a tolerated lag that is not negative and below the greatest Duration: `Ready` passes
-- exactly when the pipeline was started, an indexer block was observed, and the block's time is
-- at most the lag before now.
pub ready_lem :
    (s : Status) (lag : ℕ) (now : ℤ)
    → s.max_lag ≡ pos lag
    → lag < max_duration
    → (ready (some s) now ≡ ok tt)
      ↔ ((s.started ≡ true) × (s.block_time ≢ zero_time) × (now -ℤ s.block_time ≤ℤ pos lag))
unfolding ready sub
ready_lem s lag now e h =
    let zero' = is_zero_lem s.block_time in
    let stale = stale_lem lag (now -ℤ s.block_time) h in
    (
      λ r. (ground arith, λ z. ground (arith, zero'.1 z), stale.0 (ground arith)),
      λ (b, z, l).
          let fresh = stale.1 l in
          let set : is_zero s.block_time ≡ false =
            not_zero (is_zero s.block_time) (λ q. z (zero'.0 q)) in
          ground arith,
    )

-- What the pipeline reports.
pub data Report : Type 0 where
  started : Report
  indexer : ℕ → ℤ → Report

abbrev report : Report → Option Status → Option Status
report started s = set_started s
report (indexer block block_time) s = set_indexer block block_time s

unfoldable pub reports : List Report → Option Status → Option Status
reports [] s = s
reports (r ∷ rs) s = reports rs (report r s)

startup_latched_from :
    (rs : List Report) (s : Status) → s.started ≡ true → startup (reports rs (some s)) ≡ ok tt
unfolding reports set_started set_indexer startup
startup_latched_from [] s h = ground arith
startup_latched_from (started ∷ rs) s h = startup_latched_from rs (record s { started = true }) refl
startup_latched_from (indexer b t ∷ rs) s h =
    startup_latched_from rs (record s { block = b; block_time = t }) h

-- After the pipeline was started, `Startup` passes whatever is reported later.
pub startup_latched :
    (rs : List Report) (s : Status) → startup (reports rs (set_started (some s))) ≡ ok tt
unfolding set_started
startup_latched rs s = startup_latched_from rs (record s { started = true }) refl

-- Without a status every report is dropped, and no probe but the liveness probe passes.
pub nil_status :
    (rs : List Report) (now : ℤ)
    → (reports rs none ≡ none) × (startup none ≢ ok tt) × (ready none now ≢ ok tt)
unfolding reports set_started set_indexer startup ready
nil_status [] now = (refl, λ e. cc, λ e. cc)
nil_status (started ∷ rs) now = nil_status rs now
nil_status (indexer b t ∷ rs) now = nil_status rs now
