-- ===== src/Signer.antt =====
-- pkg/signer: the interface of a signer, and its local and remote implementations.
pub mod Laws
use tee_relay_client.Base.{
  ℕ, suc, ◌+◌, ◌*◌, Bool, false, List, [], ◌∷◌, length, take, Bytes, ◌==◌, nat_eq, if◌then◌else◌,
  Error, new, wrap, Result, ok, err, panic, wrapped, then_do,
}

-- A public key as tee-node prints it: two 32-byte coordinates.
pub record PublicKey : Type 0 where
  pub x : Bytes
  pub y : Bytes

-- Each call is given the number of the external calls made so far: what a server answers may
-- differ from one call to the next.
pub record Signer : Type 0 where
  pub sign : ℕ → List Bytes → Result (List Bytes)
  pub decrypt : ℕ → Bytes → Result Bytes
  pub identify : ℕ → Result PublicKey

-- tee-node's `utils.Sign`, `utils.Decrypt` and `types.PubKeyToStruct` at the private key.
pub record Key : Type 0 where
  pub sign_hash : Bytes → Result Bytes
  pub decrypt_cipher : Bytes → Result Bytes
  pub public : PublicKey

unfoldable pub sign_loop : Key → List Bytes → Result (List Bytes)
sign_loop k [] = ok []
sign_loop k (hash ∷ hashes) =
    then_do (wrapped "signing hash" (k.sign_hash hash))
      λ sig. then_do (sign_loop k hashes) λ signatures. ok (sig ∷ signatures)

unfoldable pub local_sign : Key → List Bytes → Result (List Bytes)
unfolding sign_loop
local_sign k hashes = sign_loop k hashes

unfoldable pub local_decrypt : Key → Bytes → Result Bytes
local_decrypt k cipher = wrapped "decrypting" (k.decrypt_cipher cipher)

unfoldable pub local_identify : Key → Result PublicKey
local_identify k = ok k.public

unfoldable pub new_local : Key → Signer
unfolding local_sign local_decrypt local_identify
new_local k = record {
  sign = λ t hashes. local_sign k hashes;
  decrypt = λ t cipher. local_decrypt k cipher;
  identify = λ t. local_identify k;
}

-- The HTTP calls of the remote signer: the response limit in bytes, then the payload; the status and
-- body that an attempt at the identity gets, go-flare-common's `retry.Execute` over the attempts,
-- and the JSON decoder.
pub record SignerServer : Type 0 where
  pub post_sign : ℕ → ℕ → List Bytes → Result (List Bytes)
  pub post_decrypt : ℕ → ℕ → Bytes → Result Bytes
  pub do_id : ℕ → ℕ → Result (ℕ × Bytes)
  pub execute : (ℕ → Result Bytes) → Result Bytes
  pub decode_id : Bytes → Result PublicKey

abbrev pub bytes_per_signature : ℕ
bytes_per_signature = 140

unfoldable pub remote_sign : SignerServer → ℕ → List Bytes → Result (List Bytes)
remote_sign s t hashes =
    then_do
      (wrapped "post call rejected"
        (s.post_sign (50 + bytes_per_signature * length hashes) t hashes))
      λ signatures.
        if length hashes == length signatures
        then ok signatures
        else err (new "wrong number of signatures")

unfoldable pub remote_decrypt : SignerServer → ℕ → Bytes → Result Bytes
remote_decrypt s t cipher =
    wrapped "post call rejected" (s.post_decrypt (10 * (length cipher + 1)) t cipher)

-- The closure of `idCallFactory`, at what `client.Do` gives: the body, or the error for a status that
-- is not 200.
unfoldable pub id_call : Result (ℕ × Bytes) → Result Bytes
id_call response =
    then_do response
      λ (status, body). if status == 200 then ok body else err (new "unsuccessful status code")

unfoldable pub remote_identify : SignerServer → ℕ → Result PublicKey
remote_identify s t =
    then_do (s.execute (λ attempt. id_call (s.do_id t attempt)))
      λ body. wrapped "decoding identify response" (s.decode_id (take 200 body))

unfoldable pub new_remote : SignerServer → Signer
unfolding remote_sign remote_decrypt remote_identify
new_remote s = record {
  sign = remote_sign s;
  decrypt = remote_decrypt s;
  identify = remote_identify s;
}
