-- ===== src/Processor/Success.antt =====
-- When the end of a processor succeeds.
use tee_relay_client.Base.{
  ◌+◌, true, false, List, Bytes, String, ◌≡◌, ◌↔◌, inl, inr, ok, Result-cases, arith,
}
use tee_relay_client.Instruction.{World, hashes_for_signing, sign}
use tee_relay_client.Processor.{Env, Processor, sign_and_emit}

module _ (env : Env) (b : Processor) where
  -- All that the end of a processor needs: the hashes, the signer's answer, the channel, and a
  -- context that is not cancelled when it sends.
  pub record CanEmit (w : World) : Type 0 where
    pub hashes : List Bytes
    pub hashed : hashes_for_signing env.hash_for_signing b.chain_id w.ib ≡ ok hashes
    pub sigs : List Bytes
    pub answer : b.signer.sign w.tick hashes ≡ ok sigs
    pub channel : b.out_set ≡ true
    pub running : env.cancelled (w.tick + 1) ≡ false

  CanEmit-sign_and_emit :
      (text : String) (w : World) → CanEmit w → (sign_and_emit text env b w).0 ≡ ok tt
  unfolding sign_and_emit sign
  CanEmit-sign_and_emit text w c = ground (arith, c.hashed, c.answer, c.channel, c.running)

  sign_and_emit-CanEmit :
      (text : String) (w : World) → (sign_and_emit text env b w).0 ≡ ok tt → CanEmit w
  unfolding sign_and_emit sign
  sign_and_emit-CanEmit text w h =
      elim (Result-cases (hashes_for_signing env.hash_for_signing b.chain_id w.ib)) [
        | inr bad ↦ absurd (ground arith)
        | inl (hashes, e) ↦ elim (Result-cases (b.signer.sign w.tick hashes)) [
          | inr bad ↦ absurd (ground arith)
          | inl (sigs, k) ↦ record {
            hashes = hashes;
            hashed = e;
            sigs = sigs;
            answer = k;
            channel = ground arith;
            running = ground arith;
          }
        ]
      ]

  -- The end of a processor succeeds exactly if all hashes of the instruction can be had, the
  -- signer answers for them, the out channel is set, and the context is not cancelled when it
  -- sends.
  pub sign_and_emit_lem :
      (text : String) (w : World) → ((sign_and_emit text env b w).0 ≡ ok tt) ↔ CanEmit w
  sign_and_emit_lem text w = (sign_and_emit-CanEmit text w, CanEmit-sign_and_emit text w)
