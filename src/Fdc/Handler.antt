-- ===== src/Fdc/Handler.antt =====
-- internal/router/processors/fdc_handler.go: the handling of a queued instruction.
pub mod Parts
pub mod Laws
pub mod Carried
pub mod Success
use tee_relay_client.Base.{
  ℕ, ◌+◌, Bool, true, false, not, ◌||◌, List, [], ◌∷◌, ◌++◌, length, replicate, drop, Bytes,
  bytes_eq, nat_eq, ◌==◌, copy, Option, none, some, if◌then◌else◌, Error, new, wrap, Result, ok,
  err, panic, wrapped, then_do, or_err, Go, ◌>>=◌, ◌>>◌, pure, fail, fail_if, lift, gets, modify,
  wrapping,
}
use tee_relay_client.Base.Dict.{Dict, lookup}
use tee_relay_client.Instruction.{Data, Instr, World}
use tee_relay_client.Processor.{Env, Processor, sign_and_emit}
use tee_relay_client.Fdc.Verifier.{
  VerifierResponse, Request, status_verified, status_retry, status_rejected, err_unknown_status,
}

-- `Response` of a verifier: it answers by the time of the call.
abbrev pub Responder : Type 0
Responder = ℕ → Request → Result VerifierResponse

-- tee-node's `fdc` package.
pub record FdcLib : Type 0 where
  pub decode_request : Bytes → Result Request
  -- `HashMessage` at a chain id, a request, the response body, the cosigners, their threshold and
  -- the timestamp.
  pub hash_message : ℕ → Request → Bytes → List Bytes → ℕ → ℕ → Result Bytes
  pub chain_bound_hash : ℕ → Bytes → Bytes

pub record FdcHandler : Type 0 where
  pub base : Processor
  pub verifiers : Dict Bytes Responder

-- `AttTypeAndSourceID`: two copies into a 64-byte array, `res[:32]` and `res[32:]`.
unfoldable pub att_type_and_source_id : Request → Bytes
att_type_and_source_id header =
    copy (replicate 32 0) header.attestation_type ++ copy (replicate 32 0) header.source_id

unfoldable pub att_type_and_source_id_base : FdcLib → Instr → Result Bytes
att_type_and_source_id_base lib b =
    then_do (wrapped "decoding fdc request" (lib.decode_request b.general_data.original_message))
      λ full_request. ok (att_type_and_source_id full_request)

-- One call of the verifier's `Response`.
abbrev pub ask_verifier : Responder → Request → Go World VerifierResponse
ask_verifier v request w = (
  wrapped "getting attestation response" (v w.tick request),
  record w { tick = w.tick + 1; asked = w.asked + 1 },
)

abbrev pub set_fixed_message : Bytes → World → World
set_fixed_message body w = record w {
  ib = record w.ib { general_data = record w.ib.general_data { additional_fixed_message = body } };
}

abbrev pub set_variable_message : Bytes → World → World
set_variable_message sig w = record w {
  ib = record w.ib {
    general_data = record w.ib.general_data { additional_variable_message = sig };
  };
}

-- The `switch` on the status and the assignment behind it. The value says whether the handler goes
-- on: it returns nil at once on REJECTED.
unfoldable pub take_verdict : VerifierResponse → Go World Bool
take_verdict res =
    if res.status == status_verified
    then modify (set_fixed_message res.response_body) >> pure true
    else if res.status == status_retry
    then fail (new "verifier status RETRY")
    else if res.status == status_rejected
    then pure false
    else fail err_unknown_status

-- The `if len(ib.GeneralData.AdditionalFixedMessage) == 0` block.
unfoldable pub verified_response : Responder → Request → Go World Bool
verified_response v request w =
    if length w.ib.general_data.additional_fixed_message == 0
    then (ask_verifier v request >>= take_verdict) w
    else (ok true, w)

-- `if len(signature) != 1`, then `signature[0]`.
abbrev pub only_signature : List Bytes → Result Bytes
only_signature (sig ∷ []) = ok sig
only_signature _ = err (new "expected 1 signature")

module _ (env : Env) (lib : FdcLib) where
  -- The message hash and its signature by the signer.
  unfoldable pub sign_response : Processor → Request → Go World Bytes
  sign_response b request = do
    ib ← gets (λ (w : World). w.ib)
    message_hash ← lift (
        wrapped "hashing fdc message" (
          lib.hash_message b.chain_id request ib.general_data.additional_fixed_message
            ib.event.cosigners ib.event.cosigners_threshold ib.general_data.timestamp))
    signatures ← (λ w. (
      wrapped "signing response"
          (b.signer.sign w.tick (lib.chain_bound_hash b.chain_id message_hash ∷ [])),
      record w { tick = w.tick + 1 },
    ))
    lift (only_signature signatures)

  unfoldable pub finish : Processor → Request → Go World (Unit {0})
  finish b request = do
    sig ← sign_response b request
    modify (set_variable_message sig)
    sign_and_emit "signing instruction" env b

  -- `(h *FDCHandler) Handle`
  unfoldable pub handle : FdcHandler → Go World (Unit {0})
  handle h = do
    ib ← gets (λ (w : World). w.ib)
    full_request ←
        lift (wrapped "decoding request" (lib.decode_request ib.general_data.original_message))
    v ← lift (
        or_err (lookup (att_type_and_source_id full_request) h.verifiers)
          (new "no verifier for type"))
    go_on ← verified_response v full_request
    if go_on then finish h.base full_request else pure tt
