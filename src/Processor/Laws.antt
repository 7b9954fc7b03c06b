-- ===== src/Processor/Laws.antt =====
-- What the end of every processor guarantees.
use tee_relay_client.Base.{[], ◌∷◌, ◌++◌, String, ◌≡◌, ◌≢◌, inl, inr, ok, Result-cases, arith}
use tee_relay_client.Instruction.{World, sign}
use tee_relay_client.Instruction.Signing.{Signed, sign-Signed, sign_keeps, sign_out}
use tee_relay_client.Processor.{Env, Processor, sign_and_emit}

module _ (env : Env) (b : Processor) where
  -- From `w`, the instruction was signed for each of its tees and sent, and nothing else was.
  pub record Emitted (w w' : World) : Type 0 where
    pub mid : World
    pub signed : Signed env.hash_for_signing b.signer b.chain_id w mid
    pub ib_kept : w'.ib ≡ mid.ib
    pub out_grown : w'.out ≡ w.out ++ (w'.ib ∷ [])
    pub asked_kept : w'.asked ≡ w.asked

  pub sign_and_emit-Emitted :
      (text : String) (w : World)
      → (sign_and_emit text env b w).0 ≡ ok tt
      → Emitted w (sign_and_emit text env b w).1
  unfolding sign_and_emit
  sign_and_emit-Emitted text w h =
      elim (Result-cases (sign env.hash_for_signing b.signer b.chain_id w).0) [
        | inl (u, e) ↦ record {
          mid = (sign env.hash_for_signing b.signer b.chain_id w).1;
          signed = sign-Signed env.hash_for_signing b.signer b.chain_id w (ground arith);
          ib_kept = ground arith;
          out_grown = ground (arith, sign_out env.hash_for_signing b.signer b.chain_id w);
          asked_kept = ground (arith, sign_out env.hash_for_signing b.signer b.chain_id w);
        }
        | inr bad ↦ absurd (ground arith)
      ]

  -- A run that fails sends nothing.
  pub sign_and_emit_failed :
      (text : String) (w : World)
      → (sign_and_emit text env b w).0 ≢ ok tt
      → (sign_and_emit text env b w).1.out ≡ w.out
  unfolding sign_and_emit
  sign_and_emit_failed text w h =
      ground (arith, sign_out env.hash_for_signing b.signer b.chain_id w)

  -- Whatever the end does, of the instruction it changes the signatures at most, and it asks no
  -- verifier.
  pub sign_and_emit_keeps :
      (text : String) (w : World)
      → let w' = (sign_and_emit text env b w).1 in
        (w'.ib ≡ record w.ib { signatures = w'.ib.signatures }) × (w'.asked ≡ w.asked)
  unfolding sign_and_emit
  sign_and_emit_keeps text w = ground (
    arith,
    sign_keeps env.hash_for_signing b.signer b.chain_id w,
    sign_out env.hash_for_signing b.signer b.chain_id w,
  )
