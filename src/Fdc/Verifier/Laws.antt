-- ===== src/Fdc/Verifier/Laws.antt =====
-- What a validated response guarantees.
use tee_relay_client.Base.{
  ℕ, ◌+◌, ◌≤◌, [], ◌∷◌, length, length-append, length-take, take, Bytes, bytes, bytes_eq, nat_eq,
  ◌≡◌, ◌↔◌, ◌≢◌, ◌⊎◌, inl, inr, ap, Result, ok, Result-cases, arith,
}
use tee_relay_client.Fdc.Verifier.{
  VerifierResponse, status_verified, status_retry, status_rejected, truncate_text, max_message_len,
  validate_response,
}

-- The text is unchanged up to the cap, and at most three bytes longer than it.
pub truncate_text_lem :
    (s : Bytes) (n : ℕ)
    → (length s ≤ n → truncate_text s n ≡ s) × (length (truncate_text s n) ≤ n + 3)
unfolding truncate_text
truncate_text_lem s n =
    (λ h. ground arith, ground (arith, length-append (take n s) (bytes "..."), length-take n s))

abbrev first_byte : Bytes → ℕ
first_byte [] = 0
first_byte (b ∷ s) = b

pub retry_ne_verified : status_retry ≢ status_verified
unfolding status_retry status_verified
retry_ne_verified h =
    let e : first_byte status_retry ≡ first_byte status_verified = ap first_byte h in omega arith

abbrev third_byte : Bytes → ℕ
third_byte (a ∷ b ∷ c ∷ s) = c
third_byte s = 0

pub retry_ne_rejected : status_retry ≢ status_rejected
unfolding status_retry status_rejected
retry_ne_rejected h =
    let e : third_byte status_retry ≡ third_byte status_rejected = ap third_byte h in omega arith

pub rejected_ne_verified : status_rejected ≢ status_verified
unfolding status_rejected status_verified
rejected_ne_verified h =
    let e : first_byte status_rejected ≡ first_byte status_verified = ap first_byte h in omega arith

module _ (check_size : Bytes → Result (Unit {0})) where
  -- The wire contract: what `validateResponse` lets through.
  abbrev pub Allowed : VerifierResponse → Type 0
  Allowed r =
      (r.status ≡ status_verified) × (r.response_body ≢ []) × (check_size r.response_body ≡ ok tt)
      ⊎ (r.status ≡ status_retry)
      ⊎ (r.status ≡ status_rejected)

  -- The response that is let through: the status and the body as received, the message capped.
  abbrev pub capped : VerifierResponse → VerifierResponse
  capped r = record r { message = truncate_text r.message max_message_len }

  -- A response that `validateResponse` lets through obeys the wire contract, and is the received
  -- one with its message capped.
  pub validate_response_sound :
      (r r' : VerifierResponse)
      → validate_response check_size r ≡ ok r'
      → Allowed r × (r' ≡ capped r)
  unfolding validate_response
  validate_response_sound r r' h = elim (Result-cases (check_size r.response_body)) [
    | inl (tt, e) ↦ ground arith
    | inr bad ↦ ground arith
  ]

  -- `validateResponse` lets every response through that obeys the wire contract.
  pub validate_response_accepts :
      (r : VerifierResponse) → Allowed r → validate_response check_size r ≡ ok (capped r)
  unfolding validate_response
  validate_response_accepts r h = elim h [
    | inl (v, body, fits) ↦ ground arith
    | inr (inl v) ↦ ground (arith, retry_ne_verified)
    | inr (inr v) ↦ ground (arith, rejected_ne_verified)
  ]

  -- `validateResponse` gives a response exactly if the received one obeys the wire contract, and
  -- what it gives is the received one with its message capped.
  pub validate_response_lem :
      (r r' : VerifierResponse)
      → (validate_response check_size r ≡ ok r') ↔ (Allowed r × (r' ≡ capped r))
  validate_response_lem r r' =
      (validate_response_sound r r', λ (a, e). rw e (validate_response_accepts r a))
