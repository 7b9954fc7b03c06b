-- ===== src/Signer/Laws.antt =====
-- Both signers answer each hash with one signature.
use tee_relay_client.Base.{
  ℕ, ◌≡◌, refl, subst, List, [], ◌∷◌, length, Bytes, ok, then_do-eq-ok, wrapped-eq-ok, arith,
}
use tee_relay_client.Signer.{Signer, Key, SignerServer, sign_loop, new_local, new_remote}

-- The contract that the processors rely on.
abbrev pub SignsEach : Signer → Type 0
SignsEach s =
    (t : ℕ) (hashes sigs : List Bytes) → s.sign t hashes ≡ ok sigs → length sigs ≡ length hashes

-- `sigs` holds at each place the key's signature of the hash at that place.
abbrev pub SignedBy : Key → List Bytes → List Bytes → Type 0
SignedBy k [] [] = Unit
SignedBy k [] (g ∷ sigs) = ⊥
SignedBy k (h ∷ hashes) [] = ⊥
SignedBy k (h ∷ hashes) (g ∷ sigs) = (k.sign_hash h ≡ ok g) × SignedBy k hashes sigs

sign_loop-SignedBy :
    (k : Key) (hashes sigs : List Bytes) → sign_loop k hashes ≡ ok sigs → SignedBy k hashes sigs
unfolding sign_loop
sign_loop-SignedBy k [] [] h = tt
sign_loop-SignedBy k [] (g ∷ sigs) h = cc
sign_loop-SignedBy k (x ∷ hashes) sigs h =
    let (g, first, h') = then_do-eq-ok _ _ h in
    let (rest, others, e) = then_do-eq-ok _ _ h' in
    let same : g ∷ rest ≡ sigs = cc in
    subst (SignedBy k (x ∷ hashes)) same
      (wrapped-eq-ok _ _ first, sign_loop-SignedBy k hashes rest others)

-- When the local signer succeeds, the signature at each place is the private key's signature of
-- the hash at that place, and there is one for each hash.
pub new_local-sign :
    (k : Key) (t : ℕ) (hashes sigs : List Bytes)
    → (new_local k).sign t hashes ≡ ok sigs
    → SignedBy k hashes sigs
unfolding new_local
new_local-sign k t hashes sigs h = sign_loop-SignedBy k hashes sigs h

length-SignedBy :
    (k : Key) (hashes sigs : List Bytes) → SignedBy k hashes sigs → length sigs ≡ length hashes
length-SignedBy k [] [] h = refl
length-SignedBy k [] (g ∷ sigs) h = absurd h
length-SignedBy k (x ∷ hashes) [] h = absurd h
length-SignedBy k (x ∷ hashes) (g ∷ sigs) h = omega (arith, length-SignedBy k hashes sigs h.1)

pub new_local-SignsEach : (k : Key) → SignsEach (new_local k)
new_local-SignsEach k t hashes sigs h =
    length-SignedBy k hashes sigs (new_local-sign k t hashes sigs h)

-- Whatever the server replies, the signatures that the remote signer accepts are as many as the
-- hashes it sent.
pub length-new_remote :
    (s : SignerServer) (t : ℕ) (hashes sigs : List Bytes)
    → (new_remote s).sign t hashes ≡ ok sigs
    → length sigs ≡ length hashes
unfolding new_remote
length-new_remote s t hashes sigs h = ground arith

pub new_remote-SignsEach : (s : SignerServer) → SignsEach (new_remote s)
new_remote-SignsEach s = length-new_remote s
