-- ===== src/Fdc/Handler/Parts.antt =====
-- The parts of `Handle`, one by one.
use tee_relay_client.Base.{
  ℕ, ◌+◌, true, false, List, [], ◌∷◌, Bytes, bytes_eq, ◌≡◌, ◌≢◌, inl, inr, ok, Result-cases, arith,
}
use tee_relay_client.Instruction.{World}
use tee_relay_client.Processor.{Env, Processor}
use tee_relay_client.Processor.Laws.{
  Emitted, sign_and_emit-Emitted, sign_and_emit_failed, sign_and_emit_keeps,
}
use tee_relay_client.Fdc.Verifier.{VerifierResponse, Request, status_verified, status_rejected}
use tee_relay_client.Fdc.Handler.{
  Responder, FdcLib, take_verdict, verified_response, set_fixed_message, set_variable_message,
  only_signature, sign_response, finish,
}

abbrev pub fixed_message : World → Bytes
fixed_message w = w.ib.general_data.additional_fixed_message

-- The verifier answered the request at this time with the status.
abbrev pub Answered : Responder → Request → ℕ → Bytes → VerifierResponse → Type 0
Answered v request t status res = (v t request ≡ ok res) × (res.status ≡ status)

module _ (v : Responder) (request : Request) (w : World) where
  -- A response that was verified before is used again: nothing is asked.
  pub verified_response_again : fixed_message w ≢ [] → verified_response v request w ≡ (ok true, w)
  unfolding verified_response take_verdict
  verified_response_again h = ground arith

  -- Going on means that the verifier confirmed the request, and that its body is stored.
  pub verified_response-true :
      fixed_message w ≡ []
      → (verified_response v request w).0 ≡ ok true
      → (res : VerifierResponse) × Answered v request w.tick status_verified res
        × ((verified_response v request w).1
            ≡ set_fixed_message res.response_body
                (record w { tick = w.tick + 1; asked = w.asked + 1 }))
  unfolding verified_response take_verdict
  verified_response-true empty h = elim (Result-cases (v w.tick request)) [
    | inl (res, e) ↦ (res, ground arith, ground arith)
    | inr bad ↦ absurd (ground arith)
  ]

  pub verified_response-false :
      (verified_response v request w).0 ≡ ok false
      → (res : VerifierResponse) × Answered v request w.tick status_rejected res
        × ((verified_response v request w).1 ≡ record w { tick = w.tick + 1; asked = w.asked + 1 })
  unfolding verified_response take_verdict
  verified_response-false h = elim (Result-cases (v w.tick request)) [
    | inl (res, e) ↦ (res, ground arith, ground arith)
    | inr bad ↦ absurd (ground arith)
  ]

  -- Without a verdict to go on with, the instruction is as it was.
  pub verified_response_stopped :
      (verified_response v request w).0 ≢ ok true → (verified_response v request w).1.ib ≡ w.ib
  unfolding verified_response take_verdict
  verified_response_stopped h = ground arith

  pub verified_response_out : (verified_response v request w).1.out ≡ w.out
  unfolding verified_response take_verdict
  verified_response_out = ground arith

-- The signer's signature of the chain-bound digest of the message, at a time of the world.
pub record ResponseSigned (lib : FdcLib) (b : Processor) (request : Request) (w : World)
    (sig : Bytes) : Type 0 where
  pub message_hash : Bytes
  pub hashed :
      lib.hash_message b.chain_id request
        (fixed_message w)
        w.ib.event.cosigners
        w.ib.event.cosigners_threshold
        w.ib.general_data.timestamp
      ≡ ok message_hash
  pub answer :
      b.signer.sign w.tick (lib.chain_bound_hash b.chain_id message_hash ∷ []) ≡ ok (sig ∷ [])

only_signature_lem :
    (sigs : List Bytes) {sig : Bytes} → only_signature sigs ≡ ok sig → sigs ≡ sig ∷ []
only_signature_lem [] h = cc
only_signature_lem (x ∷ []) h = cc
only_signature_lem (x ∷ y ∷ sigs) h = cc

module _ (env : Env) (lib : FdcLib) (b : Processor) (request : Request) (w : World) where
  pub sign_response_keeps :
      let w' = (sign_response env lib b request w).1 in
      (w'.ib ≡ w.ib) × (w'.out ≡ w.out) × (w'.asked ≡ w.asked)
  unfolding sign_response
  sign_response_keeps = ground arith

  pub sign_response_ok :
      {sig : Bytes}
      → (sign_response env lib b request w).0 ≡ ok sig
      → ResponseSigned lib b request w sig
        × ((sign_response env lib b request w).1 ≡ record w { tick = w.tick + 1 })
  unfolding sign_response
  sign_response_ok {sig} h =
      elim (Result-cases (
        lib.hash_message b.chain_id request (fixed_message w) w.ib.event.cosigners
          w.ib.event.cosigners_threshold w.ib.general_data.timestamp)) [
            | inl (m, hashed) ↦
                elim (Result-cases
                  (b.signer.sign w.tick (lib.chain_bound_hash b.chain_id m ∷ []))) [
                    | inl (sigs, answer) ↦
                        let one : sigs ≡ sig ∷ [] = only_signature_lem sigs (ground arith) in
                        (
                          record { message_hash = m; hashed = hashed; answer = rw one at answer },
                          ground arith,
                        )
                    | inr bad ↦ absurd (ground arith)
                  ]
            | inr bad ↦ absurd (ground arith)
          ]

  pub finish_keeps :
      let w' = (finish env lib b request w).1 in
      (w'.ib.event ≡ w.ib.event)
      × (w'.ib.tees ≡ w.ib.tees)
      × (fixed_message w' ≡ fixed_message w)
      × (w'.asked ≡ w.asked)
  unfolding finish
  finish_keeps = elim (Result-cases (sign_response env lib b request w).0) [
    | inl (sig, e) ↦ ground (
      arith,
      sign_response_keeps,
      sign_and_emit_keeps env b "signing instruction"
          (set_variable_message sig (sign_response env lib b request w).1),
    )
    | inr bad ↦ ground (arith, sign_response_keeps)
  ]

  pub finish_failed :
      (finish env lib b request w).0 ≢ ok tt → (finish env lib b request w).1.out ≡ w.out
  unfolding finish
  finish_failed h = elim (Result-cases (sign_response env lib b request w).0) [
    | inl (sig, e) ↦ ground (
      arith,
      sign_response_keeps,
      sign_and_emit_failed env b "signing instruction"
          (set_variable_message sig (sign_response env lib b request w).1),
    )
    | inr bad ↦ ground (arith, sign_response_keeps)
  ]

  -- A `finish` that succeeds has signed the response, put its signature into the instruction, and
  -- signed and sent the instruction.
  pub finish_ok :
      (finish env lib b request w).0 ≡ ok tt
      → (sig : Bytes) × ResponseSigned lib b request w sig
        × Emitted env b
            (set_variable_message sig (record w { tick = w.tick + 1 }))
            (finish env lib b request w).1
  unfolding finish
  finish_ok h = elim (Result-cases (sign_response env lib b request w).0) [
    | inl (sig, e) ↦
        let (signed, after) = sign_response_ok e in
        (
          sig,
          signed,
          ground (
            arith,
            sign_and_emit-Emitted env b "signing instruction"
                (set_variable_message sig (record w { tick = w.tick + 1 })),
          ),
        )
    | inr bad ↦ absurd (ground arith)
  ]
