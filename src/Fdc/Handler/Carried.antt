-- ===== src/Fdc/Handler/Carried.antt =====
-- What a call of `Handle` may change of the instruction, also where it fails.
use tee_relay_client.Base.{
  ℕ, some, bytes_eq, Bool, true, false, List, Bytes, ◌≡◌, ◌⊎◌, inl, inr, refl, ap, Result, ok,
  Result-cases, arith,
}
use tee_relay_client.Base.Dict.{lookup}
use tee_relay_client.Instruction.{Instr, World}
use tee_relay_client.Processor.{Env, Processor}
use tee_relay_client.Processor.Laws.{sign_and_emit_keeps}
use tee_relay_client.Fdc.Verifier.{VerifierResponse, Request, status_verified}
use tee_relay_client.Fdc.Handler.{
  att_type_and_source_id, Responder, FdcLib, FdcHandler, set_variable_message, finish,
  sign_response, handle,
}
use tee_relay_client.Fdc.Handler.Parts.{
  fixed_message, Answered, verified_response_again, verified_response_stopped,
  verified_response-true, sign_response_keeps,
}
use tee_relay_client.Fdc.Handler.Laws.{
  Selected, list_cases, judge, handle_judged, handle_unjudged, handle_unselected,
}

-- The instruction with other messages and signatures.
abbrev pub with_messages : Bytes → Bytes → List Bytes → Instr → Instr
with_messages fixed variable signatures ib = record ib {
  general_data = record ib.general_data {
    additional_fixed_message = fixed;
    additional_variable_message = variable;
  };
  signatures = signatures;
}

-- Of the instruction, the messages and the signatures at most are new.
abbrev pub Carries : Instr → Instr → Type 0
Carries ib ib' =
    ib'
    ≡ with_messages ib'.general_data.additional_fixed_message
        ib'.general_data.additional_variable_message ib'.signatures ib

pub Carries-trans : (a b c : Instr) → Carries a b → Carries b c → Carries a c
Carries-trans a b c p q = ground arith

module _ (env : Env) (lib : FdcLib) (b : Processor) (request : Request) (w : World) where
  finish-Carries :
      Carries w.ib (finish env lib b request w).1.ib
      × (fixed_message (finish env lib b request w).1 ≡ fixed_message w)
  unfolding finish
  finish-Carries = elim (Result-cases (sign_response env lib b request w).0) [
    | inl (sig, e) ↦ ground (
      arith,
      sign_response_keeps env lib b request w,
      sign_and_emit_keeps env b "signing instruction"
          (set_variable_message sig (sign_response env lib b request w).1),
    )
    | inr bad ↦ ground (arith, sign_response_keeps env lib b request w)
  ]

module _ (env : Env) (lib : FdcLib) (h : FdcHandler) where
  -- The verifier that the instruction's request selects confirmed it with this response.
  pub record Confirmed (ib : Instr) (body : Bytes) : Type 0 where
    pub request : Request
    pub decoded : lib.decode_request ib.general_data.original_message ≡ ok request
    pub verifier : Responder
    pub listed : lookup (att_type_and_source_id request) h.verifiers ≡ some verifier
    pub time : ℕ
    pub res : VerifierResponse
    pub answered : Answered verifier request time status_verified res
    pub stored : body ≡ res.response_body

  -- The fixed message is the one that was there, or a confirmation.
  abbrev pub Kept : World → World → Type 0
  Kept w w' =
      Carries w.ib w'.ib
      × ((fixed_message w' ≡ fixed_message w) ⊎ Confirmed w.ib (fixed_message w'))

  Kept-refl : (w w' : World) → w'.ib ≡ w.ib → Kept w w'
  Kept-refl w w' e = rw e (refl, inl refl)

  judge-Kept : (w : World) (s : Selected env lib h w) → Kept w (judge env lib h w s).1
  judge-Kept w s = elim (list_cases (fixed_message w)) [
    | inr again ↦ Kept-refl w (judge env lib h w s).1 (
        ap (λ (x : Result Bool × World). x.1.ib)
          (verified_response_again s.verifier s.request w again))
    | inl empty ↦ elim (Result-cases (judge env lib h w s).0) [
      | inl (true, e) ↦
          let (res, answered, after) = verified_response-true s.verifier s.request w empty e in
          rw after (
            refl,
            inr (record {
              request = s.request;
              decoded = s.decoded;
              verifier = s.verifier;
              listed = s.listed;
              time = w.tick;
              res = res;
              answered = answered;
              stored = refl;
            }),
          )
      | inl (false, e) ↦
          Kept-refl w (judge env lib h w s).1
            (verified_response_stopped s.verifier s.request w (λ q. ground arith))
      | inr bad ↦
          Kept-refl w (judge env lib h w s).1
            (verified_response_stopped s.verifier s.request w (λ q. ground arith))
    ]
  ]

  -- Whatever a call of `Handle` comes to, of the instruction it changes the two additional
  -- messages and the signatures at most, and its fixed message is the one that was there before,
  -- or the response with which the verifier that the instruction's request selects confirmed that
  -- request.
  pub handle-Kept : (w : World) → Kept w (handle env lib h w).1
  handle-Kept w = elim (handle_unselected env lib h w) [
    | inr (_, same) ↦ Kept-refl w (handle env lib h w).1 (ap (λ (u : World). u.ib) same)
    | inl s ↦
        let (carried, source) = judge-Kept w s in
        let mid = (judge env lib h w s).1 in
        elim (Result-cases (judge env lib h w s).0) [
          | inl (true, e) ↦
              let (c, f) = finish-Carries env lib h.base s.request mid in
              rw (handle_judged env lib h w s true e) (
                Carries-trans w.ib mid.ib (finish env lib h.base s.request mid).1.ib carried c,
                rw f source,
              )
          | inl (false, e) ↦ rw (handle_judged env lib h w s false e) (carried, source)
          | inr bad ↦ rw ((handle_unjudged env lib h w s bad).1) (carried, source)
        ]
  ]
