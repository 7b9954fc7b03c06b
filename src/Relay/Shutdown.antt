-- ===== src/Relay/Shutdown.antt =====
-- A relay whose context is cancelled: the steps that are left until all loops have returned.
use tee_relay_client.Base.{
  ℕ, suc, ◌+◌, ◌≤◌, ◌<◌, true, List, [], Bool-cases, ◌≡◌, ◌⊎◌, inl, inr, refl, Option, arith,
  if◌then◌else◌,
}
use tee_relay_client.Instruction.{Instr, Log}
use tee_relay_client.Relay.Defs.{
  routing, processing, sending, Job, Relay, Progress, receive, handle, emit, give_up, take, post,
  Stop, close_router, close_sender, abandon, finish,
}
use tee_relay_client.Relay.Progress.{
  steps_left, Progress-steps_left, job_steps, total_middle, list_cases, outcome_steps_pos,
}

-- Both loops and all goroutines have returned.
pub record HasStopped (s : Relay) : Type 0 where
  pub router : (s.router_closed ≡ true) × (s.batch ≡ [])
  pub sender : s.sender_closed ≡ true
  pub no_goroutine : (s.running ≡ []) × (s.posting ≡ [])

module _ (starts : Log → List Job) (work : Job → Option Instr) where
  -- The steps that are still to be taken, with the two loops' returns.
  abbrev pub stops_left : Relay → ℕ
  stops_left s =
      steps_left starts work s
      + (if s.router_closed then 0 else 1)
      + (if s.sender_closed then 0 else 1)

  Progress-closed :
      {s t : Relay}
      → Progress starts work s t
      → (t.router_closed ≡ s.router_closed) × (t.sender_closed ≡ s.sender_closed)
  Progress-closed (routing (receive logs rest o b e u)) = rw u (refl, refl)
  Progress-closed (routing (handle log logs b u)) = rw u (refl, refl)
  Progress-closed (processing (emit before after job ib r w l u)) = rw u (refl, refl)
  Progress-closed (processing (give_up before after job r w u)) = rw u (refl, refl)
  Progress-closed (sending (take ib rest o e u)) = rw u (refl, refl)
  Progress-closed (sending (post before after d e u)) = rw u (refl, refl)

  Stop-stops_left : {s t : Relay} → Stop starts work s t → stops_left t < stops_left s
  Stop-stops_left {s} {t} (close_router o b u) = rw (u, o) (omega arith)
  Stop-stops_left {s} {t} (close_sender o u) = rw (u, o) (omega arith)
  Stop-stops_left {s} {t} (abandon before after job r u) =
      rw (u, r)
        (omega (
          arith,
          total_middle starts work (job_steps starts work) before after job,
          outcome_steps_pos starts work (work job),
        ))
  Stop-stops_left {s} {t} (finish p) =
      let (r, q) = Progress-closed p in rw (r, q) (omega (arith, Progress-steps_left starts work p))

  pub data Stops (s : Relay) : ℕ → Relay → Type 0 where
    not_stopped : Stops s 0 s
    one_stop : {n : ℕ} {t u : Relay} → Stops s n t → Stop starts work t u → Stops s (suc n) u

  stop_or_stopped : (s : Relay) → HasStopped s ⊎ ((t : Relay) × Stop starts work s t)
  stop_or_stopped s = elim (list_cases starts work s.posting) [
    | inr (d, rest, e) ↦ inr (_, finish (sending (post [] rest d e refl)))
    | inl p ↦ elim (list_cases starts work s.running) [
      | inr (job, jobs, e) ↦ inr (_, abandon [] jobs job e refl)
      | inl r ↦ elim (list_cases starts work s.batch) [
        | inr (log, logs, e) ↦ inr (_, finish (routing (handle log logs e refl)))
        | inl b ↦ elim (Bool-cases s.router_closed) [
          | inr o ↦ inr (_, close_router o b refl)
          | inl c ↦ elim (Bool-cases s.sender_closed) [
            | inr o ↦ inr (_, close_sender o refl)
            | inl d ↦ inl (record { router = (c, b); sender = d; no_goroutine = (r, p) })
          ]
        ]
      ]
    ]
  ]

  Stops-stops_left : {s t : Relay} {n : ℕ} → Stops s n t → n + stops_left t ≤ stops_left s
  Stops-stops_left not_stopped = omega arith
  Stops-stops_left (one_stop a p) = omega (arith, Stops-stops_left a, Stop-stops_left p)

  -- After the context is cancelled, and the collector has returned, in whatever order the router,
  -- the sender, the processors and the posts take their steps: there are at most `stops_left` of
  -- them, and until both loops and all goroutines have returned another one can be taken.
  pub stops_left-Stops :
      {s t : Relay} {n : ℕ}
      → Stops s n t
      → (n ≤ stops_left s) × (HasStopped t ⊎ ((u : Relay) × Stop starts work t u))
  stops_left-Stops {s} {t} a = (omega (arith, Stops-stops_left a), stop_or_stopped t)
