-- ===== src/Fdc/Queues/Retries.antt =====
-- What the attempts at one instruction amount to. The queue hands the instruction to the wrapped
-- handler again after an error; meanwhile other instructions are sent and calls are made.
use tee_relay_client.Base.{
  ℕ, List, [], ◌∷◌, ◌++◌, ◌+◌, ◌≡◌, ◌≢◌, inl, inr, refl, ap, ok, panic, arith,
}
use tee_relay_client.Instruction.{Instr, World}
use tee_relay_client.Processor.{Env}
use tee_relay_client.Fdc.Handler.{FdcLib, FdcHandler, handle}
use tee_relay_client.Fdc.Handler.Parts.{fixed_message}
use tee_relay_client.Fdc.Handler.Laws.{Rejected, handle_ok, handle_again, Delivered-out}
use tee_relay_client.Fdc.Queues.{wrap_handle}

module _ (env : Env) (lib : FdcLib) (h : FdcHandler) where
  -- The guard keeps the world, and success.
  pub wrap_handle_lem :
      (w : World)
      → ((wrap_handle env lib h w).1 ≡ (handle env lib h w).1)
        × ((wrap_handle env lib h w).0 ≡ ok tt → (handle env lib h w).0 ≡ ok tt)
        × ((wrap_handle env lib h w).0 ≢ ok tt → (handle env lib h w).0 ≢ ok tt)
  unfolding wrap_handle
  wrap_handle_lem w = (ground arith, λ e. ground arith, λ n e. ground arith)

  -- A panic of the handler does not leave `wrapHandle`.
  pub wrap_handle-ne-panic : (w : World) → (wrap_handle env lib h w).0 ≢ panic
  unfolding wrap_handle
  wrap_handle-ne-panic w = ground arith

  -- Failed attempts, and what happens between them.
  pub data Attempts (w : World) : World → Type 0 where
    start : Attempts w w
    wait :
        {u : World} (tick : ℕ) (out : List Instr)
        → Attempts w u
        → Attempts w (record u { tick = tick; out = out })
    attempt :
        {u : World}
        → Attempts w u
        → (wrap_handle env lib h u).0 ≢ ok tt
        → Attempts w (wrap_handle env lib h u).1

  -- An instruction that carries a verified response keeps it through any number of failed
  -- attempts, and no verifier is asked.
  pub Attempts_keep :
      {w u : World}
      → fixed_message w ≢ []
      → Attempts w u
      → (fixed_message u ≡ fixed_message w) × (u.asked ≡ w.asked)
  Attempts_keep again start = (refl, refl)
  Attempts_keep again (wait tick out a) = Attempts_keep again a
  Attempts_keep {w} again (attempt {u = u} a failed) =
      let (same, quiet) = Attempts_keep again a in
      let nonempty : fixed_message u ≢ [] = rw same again in
      let (quiet', same') = handle_again env lib h u nonempty in ground (arith, wrap_handle_lem u)

  not-Rejected : (u : World) → fixed_message u ≢ [] → ¬ Rejected env lib h u (handle env lib h u).1
  not-Rejected u nonempty r =
      let (quiet, _) = handle_again env lib h u nonempty in
      let more : (handle env lib h u).1.asked ≡ u.asked + 1 =
        ap (λ (v : World). v.asked) r.nothing_else in
      omega arith

  -- After any number of failed attempts at an instruction that carries a verified response, an
  -- attempt that succeeds sends exactly one instruction, which carries that response, and no
  -- verifier was asked.
  pub Attempts_deliver :
      {w u : World}
      → fixed_message w ≢ []
      → Attempts w u
      → (wrap_handle env lib h u).0 ≡ ok tt
      → let u' = (wrap_handle env lib h u).1 in
        (u'.out ≡ u.out ++ (u'.ib ∷ []))
        × (fixed_message u' ≡ fixed_message w)
        × (u'.asked ≡ w.asked)
  Attempts_deliver {w} {u} again a done =
      let (same, quiet) = Attempts_keep again a in
      let nonempty : fixed_message u ≢ [] = rw same again in
      let (quiet', same') = handle_again env lib h u nonempty in
      let (after, fine, _) = wrap_handle_lem u in
      elim (handle_ok env lib h u (fine done)) [
        | inl d ↦ (rw after (Delivered-out env lib h u _ d), ground arith, ground arith)
        | inr r ↦ absurd (not-Rejected u nonempty r)
      ]
