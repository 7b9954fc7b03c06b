-- ===== src/Instruction/Signing.antt =====
-- What is signed: for each tee, the instruction's data with that tee's id.
use tee_relay_client.Base.{
  ℕ, ◌+◌, List, [], ◌∷◌, length, Bytes, ◌≡◌, ◌≢◌, ◌∙◌, refl, subst, inl, inr, ok, Result-cases,
  then_do-eq-ok, wrapped-eq-ok, Result, arith,
}
use tee_relay_client.Signer.{Signer}
use tee_relay_client.Signer.Laws.{SignsEach}
use tee_relay_client.Instruction.{
  TeeMachine, Data, Instr, World, hash_loop, hashes_for_signing, sign,
}

-- The data that the tee is sent, and that its signature is about.
abbrev pub data_for : Data → TeeMachine → Data
data_for d tee = record d { tee_id = tee.tee_id }

module _ (hash_for_signing : ℕ → Data → Result Bytes) where
  -- `hashes` holds at each place the hash of `d` for the tee at that place.
  abbrev pub HashedFor : ℕ → Data → List TeeMachine → List Bytes → Type 0
  HashedFor chain_id d [] [] = Unit
  HashedFor chain_id d [] (h ∷ hashes) = ⊥
  HashedFor chain_id d (tee ∷ tees) [] = ⊥
  HashedFor chain_id d (tee ∷ tees) (h ∷ hashes) =
      (hash_for_signing chain_id (data_for d tee) ≡ ok h) × HashedFor chain_id d tees hashes

  length-HashedFor :
      (chain_id : ℕ) (d : Data) (tees : List TeeMachine) (hashes : List Bytes)
      → HashedFor chain_id d tees hashes
      → length hashes ≡ length tees
  length-HashedFor chain_id d [] [] h = refl
  length-HashedFor chain_id d [] (x ∷ hashes) h = absurd h
  length-HashedFor chain_id d (tee ∷ tees) [] h = absurd h
  length-HashedFor chain_id d (tee ∷ tees) (x ∷ hashes) h =
      omega (arith, length-HashedFor chain_id d tees hashes h.1)

  -- The id that the copy carries from the round before does not matter.
  HashedFor-data_for :
      (chain_id : ℕ) (d : Data) (tee : TeeMachine) (tees : List TeeMachine) (hashes : List Bytes)
      → HashedFor chain_id (data_for d tee) tees hashes
      → HashedFor chain_id d tees hashes
  HashedFor-data_for chain_id d tee [] [] h = tt
  HashedFor-data_for chain_id d tee [] (x ∷ hashes) h = h
  HashedFor-data_for chain_id d tee (u ∷ tees) [] h = h
  HashedFor-data_for chain_id d tee (u ∷ tees) (x ∷ hashes) h =
      (h.0, HashedFor-data_for chain_id d tee tees hashes h.1)

  hash_loop-HashedFor :
      (chain_id : ℕ) (d : Data) (tees : List TeeMachine) (hashes : List Bytes)
      → hash_loop hash_for_signing chain_id d tees ≡ ok hashes
      → HashedFor chain_id d tees hashes
  unfolding hash_loop
  hash_loop-HashedFor chain_id d [] [] h = tt
  hash_loop-HashedFor chain_id d [] (x ∷ hashes) h = cc
  hash_loop-HashedFor chain_id d (tee ∷ tees) hashes h =
      let (x, first, h') = then_do-eq-ok _ _ h in
      let (rest, others, e) = then_do-eq-ok _ _ h' in
      let same : x ∷ rest ≡ hashes = cc in
      subst (HashedFor chain_id d (tee ∷ tees)) same (
        wrapped-eq-ok _ _ first,
        HashedFor-data_for chain_id d tee tees rest
            (hash_loop-HashedFor chain_id (data_for d tee) tees rest others),
      )

  pub hashes_for_signing-HashedFor :
      (chain_id : ℕ) (ib : Instr) (hashes : List Bytes)
      → hashes_for_signing hash_for_signing chain_id ib ≡ ok hashes
      → HashedFor chain_id ib.general_data ib.tees hashes
  unfolding hashes_for_signing
  hashes_for_signing-HashedFor chain_id ib hashes h =
      hash_loop-HashedFor chain_id ib.general_data ib.tees hashes h

  -- A successful `Sign`: the hashes that were signed, and the signer's answer.
  pub record Signed (s : Signer) (chain_id : ℕ) (w w' : World) : Type 0 where
    pub hashes : List Bytes
    pub sigs : List Bytes
    pub hashed : HashedFor chain_id w.ib.general_data w.ib.tees hashes
    pub answer : s.sign w.tick hashes ≡ ok sigs
    pub after : w' ≡ record w { ib = record w.ib { signatures = sigs }; tick = w.tick + 1 }

  pub sign-Signed :
      (s : Signer) (chain_id : ℕ) (w : World)
      → (sign hash_for_signing s chain_id w).0 ≡ ok tt
      → Signed s chain_id w (sign hash_for_signing s chain_id w).1
  unfolding sign
  sign-Signed s chain_id w h =
      elim (Result-cases (hashes_for_signing hash_for_signing chain_id w.ib)) [
        | inl (hashes, e) ↦ elim (Result-cases (s.sign w.tick hashes)) [
          | inl (sigs, answer) ↦ record {
            hashes = hashes;
            sigs = sigs;
            hashed = hashes_for_signing-HashedFor chain_id w.ib hashes e;
            answer = answer;
            after = ground arith;
          }
          | inr bad ↦ absurd (ground arith)
        ]
        | inr bad ↦ absurd (ground arith)
      ]

  -- A `Sign` that fails leaves the instruction as it was.
  pub sign_failed :
      (s : Signer) (chain_id : ℕ) (w : World)
      → (sign hash_for_signing s chain_id w).0 ≢ ok tt
      → (sign hash_for_signing s chain_id w).1.ib ≡ w.ib
  unfolding sign
  sign_failed s chain_id w h = ground arith

  -- `Sign` changes the signatures at most.
  pub sign_keeps :
      (s : Signer) (chain_id : ℕ) (w : World)
      → let w' = (sign hash_for_signing s chain_id w).1 in
        w'.ib ≡ record w.ib { signatures = w'.ib.signatures }
  unfolding sign
  sign_keeps s chain_id w = ground arith

  -- `Sign` sends nothing, and asks no verifier.
  pub sign_out :
      (s : Signer) (chain_id : ℕ) (w : World)
      → ((sign hash_for_signing s chain_id w).1.out ≡ w.out)
        × ((sign hash_for_signing s chain_id w).1.asked ≡ w.asked)
  unfolding sign
  sign_out s chain_id w = ground arith

  -- With a signer that keeps its contract, there is one signature for each tee.
  pub Signed-length :
      (s : Signer) (chain_id : ℕ) (w w' : World)
      → SignsEach s
      → Signed s chain_id w w'
      → length w'.ib.signatures ≡ length w'.ib.tees
  Signed-length s chain_id w w' each d = rw d.after (
      each w.tick d.hashes d.sigs d.answer
      ∙ length-HashedFor chain_id w.ib.general_data w.ib.tees d.hashes d.hashed)
