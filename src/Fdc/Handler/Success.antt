-- ===== src/Fdc/Handler/Success.antt =====
-- When a call of `Handle` succeeds.
use tee_relay_client.Base.{
  ◌+◌, true, false, [], Bytes, bytes_eq, ◌≡◌, ◌≢◌, ◌↔◌, inl, inr, refl, ap, ◌∙◌, Result, ok,
  Result-cases, Bool, arith,
}
use tee_relay_client.Instruction.{World}
use tee_relay_client.Processor.{Env, Processor}
use tee_relay_client.Processor.Success.{CanEmit, sign_and_emit_lem}
use tee_relay_client.Fdc.Verifier.{VerifierResponse, Request, status_verified, status_rejected}
use tee_relay_client.Fdc.Verifier.Laws.{rejected_ne_verified, retry_ne_rejected}
use tee_relay_client.Fdc.Handler.{
  FdcLib, FdcHandler, verified_response, take_verdict, set_variable_message, sign_response, finish,
  handle, set_fixed_message,
}
use tee_relay_client.Fdc.Handler.Parts.{
  fixed_message, ResponseSigned, sign_response_ok, verified_response_again, verified_response-true,
  verified_response-false,
}
use tee_relay_client.Fdc.Handler.Laws.{
  Selected, Verdict, asked_once, judge, handle_judged, handle_unjudged, handle_unselected,
  list_cases,
}

module _ (env : Env) (lib : FdcLib) (b : Processor) (request : Request) where
  -- The response's signature can be had, and then the instruction can be sent.
  pub record CanFinish (w : World) : Type 0 where
    pub sig : Bytes
    pub response_signed : ResponseSigned lib b request w sig
    pub emit : CanEmit env b (set_variable_message sig (record w { tick = w.tick + 1 }))

  sign_response_signed :
      (w : World) (sig : Bytes)
      → ResponseSigned lib b request w sig
      → sign_response env lib b request w ≡ (ok sig, record w { tick = w.tick + 1 })
  unfolding sign_response
  sign_response_signed w sig r = ground (arith, r.hashed, r.answer)

  finish_lem : (w : World) → ((finish env lib b request w).0 ≡ ok tt) ↔ CanFinish w
  unfolding finish
  finish_lem w = (
    λ h. elim (Result-cases (sign_response env lib b request w).0) [
      | inr bad ↦ absurd (ground arith)
      | inl (sig, e) ↦
          let (signed, after) = sign_response_ok env lib b request w e in
          record {
            sig = sig;
            response_signed = signed;
            emit = (sign_and_emit_lem env b "signing instruction" _).0 (ground arith);
          }
    ],
    λ c. ground (
      arith,
      sign_response_signed w c.sig c.response_signed,
      (sign_and_emit_lem env b "signing instruction"
            (set_variable_message c.sig (record w { tick = w.tick + 1 }))).1
          c.emit,
    ),
  )

module _ (env : Env) (lib : FdcLib) (h : FdcHandler) where
  -- A response of an earlier attempt, or the selected verifier's answer: rejected, or verified and
  -- then signed and sent.
  pub data CanHandle (w : World) : Type 0 where
    again :
        (s : Selected env lib h w)
        → fixed_message w ≢ []
        → CanFinish env lib h.base s.request w
        → CanHandle w
    verified :
        (s : Selected env lib h w) (res : VerifierResponse)
        → fixed_message w ≡ []
        → Verdict env lib h w s status_verified res
        → CanFinish env lib h.base s.request
            (set_fixed_message res.response_body (asked_once env lib h w))
        → CanHandle w
    rejected :
        (s : Selected env lib h w) (res : VerifierResponse)
        → fixed_message w ≡ []
        → Verdict env lib h w s status_rejected res
        → CanHandle w

  judge_verified :
      (w : World) (s : Selected env lib h w) (res : VerifierResponse)
      → fixed_message w ≡ []
      → Verdict env lib h w s status_verified res
      → judge env lib h w s
        ≡ (ok true, set_fixed_message res.response_body (asked_once env lib h w))
  unfolding verified_response take_verdict
  judge_verified w s res empty v = ground arith

  judge_rejected :
      (w : World) (s : Selected env lib h w) (res : VerifierResponse)
      → fixed_message w ≡ []
      → Verdict env lib h w s status_rejected res
      → (judge env lib h w s).0 ≡ ok false
  unfolding verified_response take_verdict
  judge_rejected w s res empty v = ground (arith, rejected_ne_verified, retry_ne_rejected)

  judged_finish :
      (w mid : World) (s : Selected env lib h w)
      → judge env lib h w s ≡ (ok true, mid)
      → ((handle env lib h w).0 ≡ ok tt) ↔ CanFinish env lib h.base s.request mid
  judged_finish w mid s e =
      let run : handle env lib h w ≡ finish env lib h.base s.request (judge env lib h w s).1 =
        handle_judged env lib h w s true (ap (λ (x : Result Bool × World). x.0) e) in
      let same : handle env lib h w ≡ finish env lib h.base s.request mid =
        run ∙ ap (λ (x : Result Bool × World). finish env lib h.base s.request x.1) e in
      rw same (finish_lem env lib h.base s.request mid)

  CanHandle-handle : (w : World) → CanHandle w → (handle env lib h w).0 ≡ ok tt
  CanHandle-handle w (again s nonempty c) =
      (judged_finish w w s (verified_response_again s.verifier s.request w nonempty)).1 c
  CanHandle-handle w (verified s res empty v c) =
      (judged_finish w _ s (judge_verified w s res empty v)).1 c
  CanHandle-handle w (rejected s res empty v) =
      rw (handle_judged env lib h w s false (judge_rejected w s res empty v)) refl

  judged-CanHandle :
      (w : World) (s : Selected env lib h w)
      → fixed_message w ≡ []
      → (handle env lib h w).0 ≡ ok tt
      → CanHandle w
  judged-CanHandle w s empty done = elim (Result-cases (judge env lib h w s).0) [
    | inr bad ↦ absurd ((handle_unjudged env lib h w s bad).0 done)
    | inl (false, e) ↦
        let (res, v, _) = verified_response-false s.verifier s.request w e in rejected s res empty v
    | inl (true, e) ↦
        let (res, v, _) = verified_response-true s.verifier s.request w empty e in
        verified s res empty v ((judged_finish w _ s (judge_verified w s res empty v)).0 done)
  ]

  handle-CanHandle : (w : World) → (handle env lib h w).0 ≡ ok tt → CanHandle w
  handle-CanHandle w done = elim (handle_unselected env lib h w) [
    | inr (failed, _) ↦ absurd (failed done)
    | inl s ↦ elim (list_cases (fixed_message w)) [
      | inl empty ↦ judged-CanHandle w s empty done
      | inr nonempty ↦
          again s nonempty
            ((judged_finish w w s (verified_response_again s.verifier s.request w nonempty)).0 done)
    ]
  ]

  -- `Handle` returns without an error exactly if the instruction's request decodes and selects a
  -- verifier, and either the instruction carries a response of an earlier attempt, or that
  -- verifier now answers VERIFIED or REJECTED, where for a response that is not REJECTED its hash
  -- and its signature can be had, and then the instruction can be signed and sent.
  pub handle_lem : (w : World) → ((handle env lib h w).0 ≡ ok tt) ↔ CanHandle w
  handle_lem w = (handle-CanHandle w, CanHandle-handle w)
