-- ===== src/Fdc/Verifier.antt =====
-- internal/router/processors/fdc_verifier.go: the verifier's answer and its validation.
pub mod Laws
use tee_relay_client.Base.{
  ℕ, Bool, true, false, ◌||◌, List, [], ◌∷◌, ◌++◌, length, take, Bytes, bytes, bytes_eq, nat_eq,
  ◌==◌, leb, Option, none, some, if◌then◌else◌, Error, new, wrap, Result, ok, err, panic, wrapped,
  then_do,
}

-- A VerifierStatus is a string: the three values of the protocol, and whatever else arrives.
unfoldable pub status_verified : Bytes
status_verified = bytes "VERIFIED"

unfoldable pub status_retry : Bytes
status_retry = bytes "RETRY"

unfoldable pub status_rejected : Bytes
status_rejected = bytes "REJECTED"

pub record VerifierResponse : Type 0 where
  pub status : Bytes
  pub response_body : Bytes
  pub message : Bytes

-- The decoded attestation request: its header's fields and its body.
pub record Request : Type 0 where
  pub attestation_type : Bytes
  pub source_id : Bytes
  pub request_body : Bytes

-- The JSON object of a response, its body still raw JSON. A key that is absent leaves no bytes.
pub record RawResponse : Type 0 where
  pub status : Bytes
  pub response_body : Bytes
  pub message : Bytes

-- `json.Unmarshal` into the aux struct, and into `hexutil.Bytes`.
module _ (unmarshal_aux : Bytes → Result RawResponse) (unmarshal_hex : Bytes → Result Bytes) where
  unfoldable pub unmarshal_json : Bytes → Result VerifierResponse
  unmarshal_json b = then_do (unmarshal_aux b) λ aux.
      if length aux.response_body == 0 || aux.response_body == bytes "null"
      then ok (record { status = aux.status; response_body = []; message = aux.message })
      else then_do (unmarshal_hex aux.response_body)
          λ body. ok (record { status = aux.status; response_body = body; message = aux.message })

abbrev pub max_message_len : ℕ
max_message_len = 1024

-- `truncateText`
unfoldable pub truncate_text : Bytes → ℕ → Bytes
truncate_text s n = if leb (length s) n then s else take n s ++ bytes "..."

abbrev pub err_empty_response_body : Error
err_empty_response_body = new "VERIFIED verifier response with empty response body"

abbrev pub err_response_body_too_big : Error
err_response_body_too_big = new "verifier response body exceeds the instruction size limit"

abbrev pub err_unknown_status : Error
err_unknown_status = new "unknown verifier status"

-- tee-node's `constraints.CheckSize` of a PROVE instruction with this AdditionalFixedMessage.
module _ (check_size : Bytes → Result (Unit {0})) where
  -- `fmt.Errorf("%w: %d bytes", ErrResponseBodyTooBig, …)` for any error of the check.
  abbrev size_error : Result (Unit {0}) → Result (Unit {0})
  size_error (ok u) = ok u
  size_error (err e) = err err_response_body_too_big
  size_error panic = panic

  unfoldable pub validate_response : VerifierResponse → Result VerifierResponse
  validate_response r =
      let res = record r { message = truncate_text r.message max_message_len } in
      if res.status == status_verified
      then (if length res.response_body == 0
          then err err_empty_response_body
          else then_do (size_error (check_size res.response_body)) λ u. ok res)
      else if res.status == status_retry || res.status == status_rejected
      then ok res
      else err err_unknown_status

  -- `(v *Verifier) Response`: `post` is the POST with retries to the verifier's URL.
  unfoldable pub response :
      (ℕ → Request → Result VerifierResponse) → ℕ → Request → Result VerifierResponse
  unfolding validate_response
  response post t request = then_do (post t request) validate_response
