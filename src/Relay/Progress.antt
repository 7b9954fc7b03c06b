-- ===== src/Relay/Progress.antt =====
-- The steps that are left until nothing is on its way, and the steps that can be taken.
use mathlib.Core.List.{Perm}
use tee_relay_client.Base.{
  ℕ, suc, ◌+◌, ◌≤◌, ◌<◌, List, [], ◌∷◌, ◌++◌, length, length-append, total, total-append,
  Option-cases, ◌≡◌, ◌⊎◌, ◌↔◌, inl, inr, refl, ap, ◌∙◌, Option, none, some, arith,
}
use tee_relay_client.Instruction.{Instr, Log}
use tee_relay_client.Sender.{fan_out}
use tee_relay_client.Relay.Defs.{
  routing, processing, sending, Job, Relay, Progress, receive, handle, emit, give_up, take, post,
  Runs, begun, next, progress, Move, collect, idle_relay, IsIdle, IsOpen,
}
use tee_relay_client.Relay.Delivery.{Progress-collected, in_order, Runs-in_order}

module _ (starts : Log → List Job) (work : Job → Option Instr) where
  -- The steps that are still to be taken for an instruction, a job, a log and a batch.
  abbrev pub instr_steps : Instr → ℕ
  instr_steps ib = suc (length (fan_out ib))

  abbrev outcome_steps : Option Instr → ℕ
  outcome_steps none = 1
  outcome_steps (some ib) = suc (instr_steps ib)

  pub outcome_steps_pos : (o : Option Instr) → 1 ≤ outcome_steps o
  outcome_steps_pos none = omega arith
  outcome_steps_pos (some ib) = omega arith

  abbrev pub job_steps : Job → ℕ
  job_steps job = outcome_steps (work job)

  abbrev pub log_steps : Log → ℕ
  log_steps log = suc (total job_steps (starts log))

  abbrev pub batch_steps : List Log → ℕ
  batch_steps logs = suc (total log_steps logs)

  abbrev pub steps_left : Relay → ℕ
  steps_left s =
      total batch_steps s.c_to_r
      + total log_steps s.batch
      + total job_steps s.running
      + total instr_steps s.r_to_s
      + length s.posting

  pub total_middle :
      {A : Type 0} (f : A → ℕ) (before after : List A) (x : A)
      → total f (before ++ (x ∷ after)) ≡ f x + total f (before ++ after)
  total_middle f before after x =
      omega (arith, total-append f before (x ∷ after), total-append f before after)

  length_middle :
      {A : Type 0} (before after : List A) (x : A)
      → length (before ++ (x ∷ after)) ≡ suc (length (before ++ after))
  length_middle before after x =
      omega (arith, length-append before (x ∷ after), length-append before after)

  pub Progress-steps_left :
      {s t : Relay} → Progress starts work s t → steps_left s ≡ suc (steps_left t)
  Progress-steps_left {s} {t} (routing (receive logs rest o b e u)) = rw (u, b, e) (omega arith)
  Progress-steps_left {s} {t} (routing (handle log logs b u)) =
      rw (u, b) (omega (arith, total-append job_steps s.running (starts log)))
  Progress-steps_left {s} {t} (processing (emit before after job ib r w l u)) =
      rw (u, r)
        (omega (
          arith,
          total_middle job_steps before after job,
          ap outcome_steps w,
          total-append instr_steps s.r_to_s (ib ∷ []),
        ))
  Progress-steps_left {s} {t} (processing (give_up before after job r w u)) =
      rw (u, r) (omega (arith, total_middle job_steps before after job, ap outcome_steps w))
  Progress-steps_left {s} {t} (sending (take ib rest o e u)) =
      rw (u, e) (omega (arith, length-append s.posting (fan_out ib)))
  Progress-steps_left {s} {t} (sending (post before after d e u)) =
      rw (u, e) (omega (arith, length_middle before after d))

  Progress-IsOpen : {s t : Relay} → Progress starts work s t → IsOpen s → IsOpen t
  Progress-IsOpen (routing (receive logs rest o b e u)) i =
      rw u (record { router = i.router; sender = i.sender })
  Progress-IsOpen (routing (handle log logs b u)) i =
      rw u (record { router = i.router; sender = i.sender })
  Progress-IsOpen (processing (emit before after job ib r w l u)) i =
      rw u (record { router = i.router; sender = i.sender })
  Progress-IsOpen (processing (give_up before after job r w u)) i =
      rw u (record { router = i.router; sender = i.sender })
  Progress-IsOpen (sending (take ib rest o e u)) i =
      rw u (record { router = i.router; sender = i.sender })
  Progress-IsOpen (sending (post before after d e u)) i =
      rw u (record { router = i.router; sender = i.sender })

  abbrev pub Progresses : Relay → Type 0
  Progresses s = (t : Relay) × Progress starts work s t

  pub list_cases : {A : Type 0} (l : List A) → (l ≡ []) ⊎ ((x : A) × (xs : List A) × (l ≡ x ∷ xs))
  list_cases [] = inl refl
  list_cases (x ∷ xs) = inr (x, xs, refl)

  -- Either the sender has an instruction to take, or a processor at the front can end.
  job_Progress :
      (s : Relay) (job : Job) (jobs : List Job)
      → s.running ≡ job ∷ jobs
      → s.r_to_s ≡ []
      → Progresses s
  job_Progress s job jobs e empty = elim (Option-cases (work job)) [
    | inl w ↦ (_, processing (give_up [] jobs job e w refl))
    | inr (ib, w) ↦ (_, processing (emit [] jobs job ib e w (rw empty (omega arith)) refl))
  ]

  -- No deadlock, whatever the channels hold.
  pub progress_or_IsIdle : (s : Relay) → IsOpen s → IsIdle s ⊎ Progresses s
  progress_or_IsIdle s o = elim (list_cases s.posting) [
    | inr (d, rest, e) ↦ inr (_, sending (post [] rest d e refl))
    | inl p ↦ elim (list_cases s.r_to_s) [
      | inr (ib, rest, e) ↦ inr (_, sending (take ib rest o.sender e refl))
      | inl q ↦ elim (list_cases s.running) [
        | inr (job, jobs, e) ↦ inr (job_Progress s job jobs e q)
        | inl r ↦ elim (list_cases s.batch) [
          | inr (log, logs, e) ↦ inr (_, routing (handle log logs e refl))
          | inl b ↦ elim (list_cases s.c_to_r) [
            | inr (logs, rest, e) ↦ inr (_, routing (receive logs rest o.router b e refl))
            | inl c ↦ inl (record { channels = (c, q); no_batch = b; no_goroutine = (r, p) })
          ]
        ]
      ]
    ]
  ]

  -- A number of steps of progress.
  pub data Advances (s : Relay) : ℕ → Relay → Type 0 where
    none_yet : Advances s 0 s
    one_more :
        {n : ℕ} {t u : Relay} → Advances s n t → Progress starts work t u → Advances s (suc n) u

  Advances-IsOpen : {s t : Relay} {n : ℕ} → Advances s n t → IsOpen s → IsOpen t
  Advances-IsOpen none_yet o = o
  Advances-IsOpen (one_more a p) o = Progress-IsOpen p (Advances-IsOpen a o)

  Advances-steps_left : {s t : Relay} {n : ℕ} → Advances s n t → n + steps_left t ≡ steps_left s
  Advances-steps_left none_yet = omega arith
  Advances-steps_left (one_more a p) = omega (arith, Advances-steps_left a, Progress-steps_left p)

  IsIdle-steps_left : (s : Relay) → IsIdle s → steps_left s ≡ 0
  IsIdle-steps_left s i =
      rw (i.channels.0, i.channels.1, i.no_batch, i.no_goroutine.0, i.no_goroutine.1) refl

  -- From a relay whose loops run, and whatever order its goroutines take: no more steps of
  -- progress are taken than `steps_left`, which counts the batches, logs, jobs, instructions and
  -- posts on their way; nothing is on its way any more exactly when that many were taken; and
  -- before that another step can be taken, so the full channels never block the relay for good.
  pub steps_left-Advances :
      {s t : Relay} {n : ℕ}
      → IsOpen s
      → Advances s n t
      → (n ≤ steps_left s) × ((n ≡ steps_left s) ↔ IsIdle t) × (IsIdle t ⊎ Progresses t)
  steps_left-Advances {s} {t} {n} o a =
      let left = Advances-steps_left a in
      elim (progress_or_IsIdle t (Advances-IsOpen a o)) [
        | inl i ↦ (omega arith, (λ e. i, λ j. omega (arith, IsIdle-steps_left t i)), inl i)
        | inr (u, p) ↦ (
          omega arith,
          (
            λ e. absurd (omega (arith, Progress-steps_left p)),
            λ i. omega (arith, IsIdle-steps_left t i),
          ),
          inr (u, p),
        )
      ]

  Move-IsOpen : {s t : Relay} → Move starts work s t → IsOpen s → IsOpen t
  Move-IsOpen (progress p) o = Progress-IsOpen p o
  Move-IsOpen (collect logs nonempty room u) o =
      rw u (record { router = o.router; sender = o.sender })

  pub Runs-IsOpen : {s t : Relay} → Runs starts work s t → IsOpen s → IsOpen t
  Runs-IsOpen begun o = o
  Runs-IsOpen (next r m) o = Move-IsOpen m (Runs-IsOpen r o)

  Advances-Runs :
      {r s t : Relay} {n : ℕ} → Runs starts work r s → Advances s n t → Runs starts work r t
  Advances-Runs q none_yet = q
  Advances-Runs q (one_more a p) = next (Advances-Runs q a) (progress p)

  Advances-collected : {s t : Relay} {n : ℕ} → Advances s n t → t.collected ≡ s.collected
  Advances-collected none_yet = refl
  Advances-collected (one_more a p) = Progress-collected starts work p ∙ Advances-collected a

  -- From every state that a relay which is not cancelled reaches, and whatever steps of progress
  -- its goroutines take next: either fewer than `steps_left` were taken and there is a further
  -- one to take, or that many were, nothing is on its way, and what was posted is a permutation
  -- of what handling the logs collected so far one after the other posts.
  pub Runs-delivers :
      {s t : Relay} {n : ℕ}
      → Runs starts work idle_relay s
      → Advances s n t
      → ((n < steps_left s) × Progresses t)
        ⊎ ((n ≡ steps_left s) × IsIdle t × Perm t.posted (in_order starts work s.collected))
  unfolding idle_relay
  Runs-delivers {s} {t} {n} r a =
      let open' = Runs-IsOpen r (record { router = refl; sender = refl }) in
      let left = Advances-steps_left a in
      elim (progress_or_IsIdle t (Advances-IsOpen a open')) [
        | inl i ↦ inr (
          omega (arith, IsIdle-steps_left t i),
          i,
          rw (← Advances-collected a) (Runs-in_order starts work (Advances-Runs r a) i),
        )
        | inr (u, p) ↦ inl (omega (arith, Progress-steps_left p), (u, p))
      ]
