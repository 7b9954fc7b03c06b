-- ===== src/Fdc/Handler/Laws.antt =====
-- The outcomes of one call of `Handle`.
use tee_relay_client.Base.{
  ◌+◌, Bool, true, false, [], ◌∷◌, ◌++◌, Bytes, bytes_eq, ◌≡◌, ◌≢◌, ◌⊎◌, inl, inr, ap, ◌∙◌, refl,
  some, Option-cases, Result, ok, err, panic, Result-cases, Error, if◌then◌else◌, arith, nat_eq,
}
use tee_relay_client.Base.Dict.{lookup}
use tee_relay_client.Instruction.{World}
use tee_relay_client.Processor.{Env}
use tee_relay_client.Processor.Laws.{Emitted}
use tee_relay_client.Fdc.Verifier.{VerifierResponse, Request, status_verified, status_rejected}
use tee_relay_client.Fdc.Handler.{
  Responder, FdcLib, FdcHandler, att_type_and_source_id, verified_response, set_fixed_message,
  set_variable_message, finish, handle,
}
use tee_relay_client.Fdc.Handler.Parts.{
  fixed_message, Answered, verified_response_again, verified_response-true, verified_response-false,
  verified_response_out, ResponseSigned, finish_keeps, finish_failed, finish_ok,
}

pub list_cases : (l : Bytes) → (l ≡ []) ⊎ (l ≢ [])
list_cases [] = inl refl
list_cases (x ∷ l) = inr (λ e. cc)

module _ (env : Env) (lib : FdcLib) (h : FdcHandler) where
  -- The instruction's request, and the verifier that its header selects.
  pub record Selected (w : World) : Type 0 where
    pub request : Request
    pub decoded : lib.decode_request w.ib.general_data.original_message ≡ ok request
    pub verifier : Responder
    pub listed : lookup (att_type_and_source_id request) h.verifiers ≡ some verifier

  -- The selected verifier answered with the status at the time of `w`.
  abbrev pub Verdict : (w : World) → Selected w → Bytes → VerifierResponse → Type 0
  Verdict w s status res = Answered s.verifier s.request w.tick status res

  abbrev pub asked_once : World → World
  asked_once w = record w { tick = w.tick + 1; asked = w.asked + 1 }

  -- `mid` carries a verified response: the one of an earlier attempt, or the verifier's answer.
  abbrev pub Verified : (w : World) → Selected w → World → Type 0
  Verified w s mid =
      (fixed_message w ≢ []) × (mid ≡ w)
      ⊎ ((res : VerifierResponse) × Verdict w s status_verified res
          × (mid ≡ set_fixed_message res.response_body (asked_once w)))

  pub record Delivered (w w' : World) : Type 0 where
    pub selected : Selected w
    pub mid : World
    pub verified : Verified w selected mid
    pub sig : Bytes
    pub response_signed : ResponseSigned lib h.base selected.request mid sig
    pub emitted :
        Emitted env h.base (set_variable_message sig (record mid { tick = mid.tick + 1 })) w'

  pub record Rejected (w w' : World) : Type 0 where
    pub selected : Selected w
    pub res : VerifierResponse
    pub verdict : Verdict w selected status_rejected res
    pub nothing_else : w' ≡ asked_once w

  -- What `Handle` does once the verifier is selected.
  abbrev pub judge : (w : World) → Selected w → Result Bool × World
  judge w s = verified_response s.verifier s.request w

  pub judge_true :
      (w : World) (s : Selected w) → (judge w s).0 ≡ ok true → Verified w s (judge w s).1
  judge_true w s e = elim (list_cases (fixed_message w)) [
    | inl empty ↦ inr (verified_response-true s.verifier s.request w empty e)
    | inr again ↦ inl (again, rw (verified_response_again s.verifier s.request w again))
  ]

  pub handle_judged :
      (w : World) (s : Selected w) (go_on : Bool)
      → (judge w s).0 ≡ ok go_on
      → handle env lib h w
        ≡ (if go_on then finish env lib h.base s.request (judge w s).1 else (ok tt, (judge w s).1))
  unfolding handle
  handle_judged w s true e = ground arith
  handle_judged w s false e = ground arith

  pub handle_unjudged :
      (w : World) (s : Selected w)
      → ((e : Error) × ((judge w s).0 ≡ err e)) ⊎ ((judge w s).0 ≡ panic)
      → ((handle env lib h w).0 ≢ ok tt) × ((handle env lib h w).1 ≡ (judge w s).1)
  unfolding handle
  handle_unjudged w s bad = (ground arith, ground arith)

  -- An instruction with no request to decode or no verifier fails at once.
  pub handle_unselected :
      (w : World) → Selected w ⊎ ((handle env lib h w).0 ≢ ok tt) × ((handle env lib h w).1 ≡ w)
  unfolding handle
  handle_unselected w =
      elim (Result-cases (lib.decode_request w.ib.general_data.original_message)) [
        | inl (request, e) ↦
            elim (Option-cases (lookup (att_type_and_source_id request) h.verifiers)) [
              | inl absent ↦ inr (ground arith, ground arith)
              | inr (v, listed) ↦
                  inl (record { request = request; decoded = e; verifier = v; listed = listed })
            ]
        | inr bad ↦ inr (ground arith, ground arith)
      ]

  handle_ok_judged :
      (w : World) (s : Selected w) (go_on : Bool)
      → (judge w s).0 ≡ ok go_on
      → (handle env lib h w).0 ≡ ok tt
      → Delivered w (handle env lib h w).1 ⊎ Rejected w (handle env lib h w).1
  handle_ok_judged w s false e done =
      let (res, verdict, after) = verified_response-false s.verifier s.request w e in
      inr (record {
        selected = s;
        res = res;
        verdict = verdict;
        nothing_else = rw (handle_judged w s false e) after;
      })
  handle_ok_judged w s true e done =
      let run = handle_judged w s true e in
      let (sig, signed, emitted) =
        finish_ok env lib h.base s.request (judge w s).1 (rw run at done) in
      inl (record {
        selected = s;
        mid = (judge w s).1;
        verified = judge_true w s e;
        sig = sig;
        response_signed = signed;
        emitted = rw run emitted;
      })

  -- A run of `Handle` without an error either sent the instruction, with the signature of the
  -- verified response in it, or did nothing because the verifier rejected the request.
  pub handle_ok :
      (w : World)
      → (handle env lib h w).0 ≡ ok tt
      → Delivered w (handle env lib h w).1 ⊎ Rejected w (handle env lib h w).1
  handle_ok w done = elim (handle_unselected w) [
    | inr (failed, _) ↦ absurd (failed done)
    | inl s ↦ elim (Result-cases (judge w s).0) [
      | inl (go_on, e) ↦ handle_ok_judged w s go_on e done
      | inr bad ↦ absurd ((handle_unjudged w s bad).0 done)
    ]
  ]

  -- A run of `Handle` that fails or panics sends nothing.
  pub handle_failed :
      (w : World) → (handle env lib h w).0 ≢ ok tt → (handle env lib h w).1.out ≡ w.out
  handle_failed w failed = elim (handle_unselected w) [
    | inr (_, same) ↦ ap (λ (u : World). u.out) same
    | inl s ↦
        let kept = verified_response_out s.verifier s.request w in
        elim (Result-cases (judge w s).0) [
          | inl (true, e) ↦
              let run = handle_judged w s true e in
              rw run
                (finish_failed env lib h.base s.request (judge w s).1 (rw run at failed) ∙ kept)
          | inl (false, e) ↦ rw (handle_judged w s false e) kept
          | inr bad ↦ rw (handle_unjudged w s bad).1 kept
        ]
  ]

  -- On an instruction that carries a verified response, `Handle` asks no verifier and keeps the
  -- response, whether it succeeds or fails.
  pub handle_again :
      (w : World)
      → fixed_message w ≢ []
      → ((handle env lib h w).1.asked ≡ w.asked)
        × (fixed_message (handle env lib h w).1 ≡ fixed_message w)
  handle_again w again = elim (handle_unselected w) [
    | inr (_, same) ↦ ground arith
    | inl s ↦
        let reused = verified_response_again s.verifier s.request w again in
        ground (
          arith,
          reused,
          handle_judged w s true (ap (λ (r : Result Bool × World). r.0) reused),
          finish_keeps env lib h.base s.request w,
        )
  ]

  -- A delivery sends the instruction as it stands at the end, and nothing else.
  pub Delivered-out : (w w' : World) → Delivered w w' → w'.out ≡ w.out ++ (w'.ib ∷ [])
  Delivered-out w w' d = elim d.verified [
    | inl (_, same) ↦ ground (arith, d.emitted.out_grown)
    | inr (res, _, after) ↦ ground (arith, d.emitted.out_grown)
  ]
