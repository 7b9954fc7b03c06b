-- ===== src/Collector/Damper/Laws.antt =====
-- What an episode of failures writes to the log.
use tee_relay_client.Base.{
  ℕ, ◌+◌, ◌≤◌, List, [], ◌∷◌, length, ◌==◌, nat_eq, ◌≡◌, ◌≢◌, ◌⊎◌, inl, inr, refl, none, some,
  if◌then◌else◌, arith,
}
use tee_relay_client.Collector.Damper.{
  Line, error_first, debug_failed, error_summary, info_recovered, Damper, fail, recover,
  summary_interval,
}

-- The two readings of the clock for each of several failures in a row.
abbrev pub Times : Type 0
Times = List (ℕ × ℕ)

unfoldable pub fails : Times → Damper → Damper
fails [] d = d
fails ((now, later) ∷ ts) d = fails ts (fail now later d).0

-- The lines of the failures, each with its time.
unfoldable pub lines : Times → Damper → List (ℕ × Line)
lines [] d = []
lines ((now, later) ∷ ts) d = (now, (fail now later d).1) ∷ lines ts (fail now later d).0

-- The clock never goes back.
abbrev pub Clocked : ℕ → Times → Type 0
Clocked t [] = Unit
Clocked t ((now, later) ∷ ts) = (t ≤ now) × (now ≤ later) × Clocked later ts

-- After an Error line at `t` no Error line comes before the summary interval is over, and none of
-- them is another first one.
abbrev pub Damped : ℕ → List (ℕ × Line) → Type 0
Damped t [] = Unit
Damped t ((now, error_first) ∷ ls) = ⊥
Damped t ((now, error_summary n) ∷ ls) = (t + summary_interval ≤ now) × Damped now ls
Damped t ((now, debug_failed) ∷ ls) = Damped t ls
Damped t ((now, info_recovered n) ∷ ls) = Damped t ls

Damped-mono : (s t : ℕ) (ls : List (ℕ × Line)) → s ≤ t → Damped t ls → Damped s ls
Damped-mono s t [] h d = tt
Damped-mono s t ((now, error_first) ∷ ls) h d = d
Damped-mono s t ((now, error_summary n) ∷ ls) h d = (omega arith, d.1)
Damped-mono s t ((now, debug_failed) ∷ ls) h d = Damped-mono s t ls h d
Damped-mono s t ((now, info_recovered n) ∷ ls) h d = Damped-mono s t ls h d

-- A failure that is not the first: a summary when the interval is over, and else a Debug line.
fail_again :
    (now later : ℕ) (d : Damper)
    → d.failures ≢ 0
    → (fail now later d ≡ (
      record d { failures = d.failures + 1; last_err = later },
      error_summary (d.failures + 1),
    ))
        × (d.last_err + summary_interval ≤ now)
      ⊎ (fail now later d ≡ (record d { failures = d.failures + 1 }, debug_failed))
unfolding fail
fail_again now later d h = ground arith

lines-Damped_during :
    (ts : Times) (t : ℕ) (d : Damper)
    → d.failures ≢ 0
    → d.last_err ≤ t
    → Clocked t ts
    → Damped d.last_err (lines ts d)
unfolding lines
lines-Damped_during [] t d p q c = tt
lines-Damped_during ((now, later) ∷ ts) t d p q (c0, c1, cs) = elim (fail_again now later d p) [
  | inl (e, h) ↦
      let u : Damper = record d { failures = d.failures + 1; last_err = later } in
      let next = lines-Damped_during ts later u (omega arith) (omega arith) cs in
      simp e (h, Damped-mono now later (lines ts u) c1 next)
  | inr e ↦ simp e (
      lines-Damped_during ts later (record d { failures = d.failures + 1 }) (omega arith)
        (omega arith) cs)
]

-- On a clock that does not go back, and from a damper without failures: of failures in a row the
-- first is an Error line, and every later Error line comes at least the summary interval after
-- the one before.
pub lines-Damped :
    (now later : ℕ) (ts : Times) (d : Damper)
    → d.failures ≡ 0
    → now ≤ later
    → Clocked later ts
    → let d' = (fail now later d).0 in
      ((fail now later d).1 ≡ error_first) × Damped now (lines ts d')
unfolding fail
lines-Damped now later ts d p q c =
    let first : fail now later d
        ≡ (record d { failures = 1; first = now; last_err = now }, error_first) =
      ground arith in
    simp first (refl, lines-Damped_during ts later _ (omega arith) q c)

fails-failures : (ts : Times) (d : Damper) → (fails ts d).failures ≡ d.failures + length ts
unfolding fails fail
fails-failures [] d = omega arith
fails-failures ((now, later) ∷ ts) d = ground (arith, fails-failures ts (fail now later d).0)

-- From a damper without failures: a recovery after failures in a row writes one Info line with
-- their number and resets the count; after none, or a second time, it writes nothing.
pub recover-fails :
    (ts : Times) (d : Damper)
    → d.failures ≡ 0
    → let (d', line) = recover (fails ts d) in
      (line ≡ (if length ts == 0 then none else some (info_recovered (length ts))))
      × (d'.failures ≡ 0)
      × ((recover d').1 ≡ none)
unfolding recover
recover-fails ts d h = ground (arith, fails-failures ts d)
