-- ===== src/Collector/Listener/Batches.antt =====
-- The batches that a round sends: at most one, which is not empty.
use tee_relay_client.Base.{
  Bool, true, false, Bool-cases, List, [], ◌∷◌, ◌++◌, ◌≡◌, ◌≢◌, inl, inr, refl, Result, ok, err,
  panic, arith,
}
use tee_relay_client.Instruction.{Log}
use tee_relay_client.Collector.Listener.{State, Listener, Tick, send, received, observed, round}

-- What a round does to the batches that were sent.
pub data Batch (before after : List (List Log)) : Type 0 where
  no_batch : after ≡ before → Batch before after
  one_batch : (logs : List Log) → logs ≢ [] → after ≡ before ++ (logs ∷ []) → Batch before after

send-Batch :
    (cancelled : Bool) (logs : List Log) (u : Listener) → Batch u.sent (send cancelled logs u).sent
unfolding send
send-Batch cancelled [] u = no_batch refl
send-Batch true (log ∷ logs) u = no_batch refl
send-Batch false (log ∷ logs) u = one_batch (log ∷ logs) (λ e. cc) refl

received-Batch :
    (t : Tick) (u : Listener) (r : Result (List Log)) → Batch u.sent (received t u r).sent
unfolding received
received-Batch t u (ok logs) = send-Batch t.cancelled_at_send logs _
received-Batch t u (err e) = no_batch refl
received-Batch t u panic = no_batch refl

observed-Batch : (t : Tick) (u : Listener) (r : Result State) → Batch u.sent (observed t u r).sent
unfolding observed
observed-Batch t u (ok state) = received-Batch t _ _
observed-Batch t u (err e) = no_batch refl
observed-Batch t u panic = no_batch refl

pub round-Batch : (t : Tick) (s : Listener) → Batch s.sent (round t s).sent
unfolding round
round-Batch t s = elim (Bool-cases s.closed) [
  | inl e ↦ no_batch (ground arith)
  | inr e ↦ elim (Bool-cases t.cancelled) [
    | inl c ↦ no_batch (ground arith)
    | inr c ↦ simp (e, c) (observed-Batch t s t.state)
  ]
]
