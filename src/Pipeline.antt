-- ===== src/Pipeline.antt =====
-- From the end of a processor (internal/router/processors) through the signing of an instruction
-- (internal/router/instructions, pkg/signer) to what the sender (internal/sender) posts.
use tee_relay_client.Base.{
  ℕ, Bool, List, [], ◌∷◌, ◌++◌, length, Bytes, bytes, String, ◌≡◌, ◌∙◌, sym, subst, refl, Result,
  ok, err, panic,
}
use tee_relay_client.Signer.{Key, new_local}
use tee_relay_client.Signer.Laws.{SignedBy, new_local-sign, new_local-SignsEach}
use tee_relay_client.Instruction.{TeeMachine, Data, World, Instr}
use tee_relay_client.Instruction.Signing.{HashedFor, Signed, Signed-length}
use tee_relay_client.Processor.{Env, Processor, sign_and_emit}
use tee_relay_client.Processor.Laws.{Emitted, sign_and_emit-Emitted}
use tee_relay_client.Sender.{Delivery, fan_out}
use tee_relay_client.Sender.Laws.{deliveries, fan_out-deliveries}

module _ (hash_for_signing : ℕ → Data → Result Bytes) (k : Key) (chain_id : ℕ) where
  -- Each tee, in the list's order, is posted the instruction with its own id at its own URL, with
  -- the key's signature of the hash of exactly that payload.
  abbrev pub Authentic : Data → List TeeMachine → List (Result Delivery) → Type 0
  Authentic d [] [] = Unit
  Authentic d [] (r ∷ sent) = ⊥
  Authentic d (tee ∷ tees) [] = ⊥
  Authentic d (tee ∷ tees) (err e ∷ sent) = ⊥
  Authentic d (tee ∷ tees) (panic ∷ sent) = ⊥
  Authentic d (tee ∷ tees) (ok m ∷ sent) =
      (m.url_endpoint ≡ tee.url ++ bytes "/instruction")
      × (m.message.payload ≡ record d { tee_id = tee.tee_id })
      × ((hash : Bytes) × (hash_for_signing chain_id m.message.payload ≡ ok hash)
          × (k.sign_hash hash ≡ ok m.message.signature))
      × Authentic d tees sent

  deliveries-Authentic :
      (d : Data) (tees : List TeeMachine) (hashes sigs : List Bytes)
      → HashedFor hash_for_signing chain_id d tees hashes
      → SignedBy k hashes sigs
      → Authentic d tees (deliveries d tees sigs)
  deliveries-Authentic d [] hashes sigs h g = tt
  deliveries-Authentic d (tee ∷ tees) [] sigs h g = absurd h
  deliveries-Authentic d (tee ∷ tees) (x ∷ hashes) [] h g = absurd g
  deliveries-Authentic d (tee ∷ tees) (x ∷ hashes) (s ∷ sigs) h g =
      (refl, refl, (x, h.0, g.0), deliveries-Authentic d tees hashes sigs h.1 g.1)

  pub Signed-Authentic :
      (w mid : World) (ib : Instr)
      → Signed hash_for_signing (new_local k) chain_id w mid
      → ib ≡ mid.ib
      → Authentic w.ib.general_data w.ib.tees (fan_out ib)
  Signed-Authentic w mid ib d e =
      let same : length ib.signatures ≡ length ib.tees =
        rw e
          (Signed-length hash_for_signing (new_local k) chain_id w mid (new_local-SignsEach k) d) in
      let sent : fan_out ib ≡ deliveries w.ib.general_data w.ib.tees d.sigs =
        fan_out-deliveries ib same ∙ (rw (e, d.after)) in
      subst (Authentic w.ib.general_data w.ib.tees) (sym sent) (
        deliveries-Authentic w.ib.general_data w.ib.tees d.hashes d.sigs d.hashed
          (new_local-sign k w.tick d.hashes d.sigs d.answer))

-- With the local signer, when a processor hands an instruction to the sender, the sender posts to
-- every tee, in order and at its URL, the payload with the tee's own id and the private key's
-- signature of the hash of that payload; no delivery fails or panics in its preparation.
pub sign_and_emit-Authentic :
    (text : String) (env : Env) (k : Key) (chain_id : ℕ) (out_set : Bool) (w : World)
    → let b : Processor = record { chain_id = chain_id; signer = new_local k; out_set = out_set } in
      (sign_and_emit text env b w).0 ≡ ok tt
      → let w' = (sign_and_emit text env b w).1 in
        (w'.out ≡ w.out ++ (w'.ib ∷ []))
        × Authentic env.hash_for_signing k chain_id w.ib.general_data w.ib.tees (fan_out w'.ib)
sign_and_emit-Authentic text env k chain_id out_set w h =
    let b : Processor = record { chain_id = chain_id; signer = new_local k; out_set = out_set } in
    let sent : Emitted env b w (sign_and_emit text env b w).1 =
      sign_and_emit-Emitted env b text w h in
    (
      sent.out_grown,
      Signed-Authentic env.hash_for_signing k chain_id w sent.mid (sign_and_emit text env b w).1.ib
          sent.signed sent.ib_kept,
    )
