-- ===== src/Relay/Work/Fitting.antt =====
-- What the FDC queue sends where the configured verifiers validate what their servers answer
-- (internal/router/processors/fdc_verifier.go).
use tee_relay_client.Base.{
  ℕ, List, [], ◌∷◌, ◌++◌, All, Bytes, bytes_eq, nat_eq, ◌==◌, some, Result, ok, Result-cases,
  Bool-cases, ◌≡◌, ◌≢◌, ◌⊎◌, inl, inr, refl, sym, subst, ap, ◌∙◌, arith,
}
use tee_relay_client.Base.Dict.{Dict, lookup, insert, lookup-insert}
use tee_relay_client.Instruction.{Instr, World}
use tee_relay_client.Processor.{Env, Processor}
use tee_relay_client.Fdc.Verifier.{
  VerifierResponse, Request, response, status_verified, validate_response,
}
use tee_relay_client.Fdc.Verifier.Laws.{
  Allowed, validate_response_sound, retry_ne_verified, rejected_ne_verified,
}
use tee_relay_client.Fdc.Handler.{Responder, FdcLib, FdcHandler}
use tee_relay_client.Fdc.Handler.Parts.{fixed_message}
use tee_relay_client.Fdc.Handler.Carried.{Confirmed}
use tee_relay_client.Fdc.Queues.{VerifierConfig, FdcConfig, Fdc, new_fdc, handler_loop, wrap_handle}
use tee_relay_client.Fdc.Queues.Setup.{handler_loop-Round}
use tee_relay_client.Fdc.Queues.Served.{new_fdc_loops}
use tee_relay_client.Relay.Work.{Queued}
use tee_relay_client.Relay.Work.Ends.{Silent}
use tee_relay_client.Relay.Work.Attempts.{queue_end}

module _ (check_size : Bytes → Result (Unit {0})) where
  -- A `Verifier`: it posts, and validates what it gets.
  abbrev pub Validates : Responder → Type 0
  Validates v = (post : ℕ → Request → Result VerifierResponse) × (v ≡ response check_size post)

  -- A message that the tee does not reject for its size.
  abbrev pub Fits : Bytes → Type 0
  Fits body = (body ≢ []) × (check_size body ≡ ok tt)

  Allowed-Fits :
      (r : VerifierResponse)
      → Allowed check_size r
      → r.status ≡ status_verified
      → Fits r.response_body
  Allowed-Fits r (inl (v, body, fits)) e = (body, fits)
  Allowed-Fits r (inr (inl s)) e = absurd (retry_ne_verified (sym s ∙ e))
  Allowed-Fits r (inr (inr s)) e = absurd (rejected_ne_verified (sym s ∙ e))

  Validates-Fits :
      (v : Responder) (t : ℕ) (request : Request) (res : VerifierResponse)
      → Validates v
      → v t request ≡ ok res
      → res.status ≡ status_verified
      → Fits res.response_body
  unfolding response
  Validates-Fits v t request res (post, same) h e = elim (Result-cases (post t request)) [
    | inr bad ↦ absurd (ground arith)
    | inl (r, p) ↦
        let valid : validate_response check_size r ≡ ok res = ground arith in
        let (a, c) = validate_response_sound check_size r res valid in
        let s : r.status ≡ status_verified = ground arith in
        let (body, fits) = Allowed-Fits r a s in rw c (body, fits)
  ]

  -- Each verifier of a handler.
  abbrev AllValidate : Dict Bytes Responder → Type 0
  AllValidate verifiers = (id : Bytes) (v : Responder) → lookup id verifiers ≡ some v → Validates v

  module _ (env : Env) (lib : FdcLib) (h : FdcHandler) where
    Confirmed-Fits :
        (ib : Instr) (body : Bytes)
        → AllValidate h.verifiers
        → Confirmed env lib h ib body
        → Fits body
    Confirmed-Fits ib body all f = rw f.stored (
        Validates-Fits f.verifier f.time f.request f.res (all _ f.verifier f.listed) f.answered.0
          f.answered.1)

  module _ (hash : Bytes → Result Bytes) where
    -- Each configured verifier.
    abbrev pub AllConfigured : Dict Bytes VerifierConfig → Type 0
    AllConfigured = All (λ (entry : Bytes × VerifierConfig). Validates entry.1.server)

    insert-AllValidate :
        (id : Bytes) (v : Responder) (d : Dict Bytes Responder)
        → Validates v
        → AllValidate d
        → AllValidate (insert id v d)
    insert-AllValidate id v d p all j u l = elim (Bool-cases (j == id)) [
      | inl e ↦ let same : v ≡ u = ground (arith, lookup-insert j id v d) in subst Validates same p
      | inr e ↦ all j u (ground (arith, lookup-insert j id v d))
    ]

    handler_loop-AllValidate :
        (rest : List (Bytes × VerifierConfig)) (seen : Dict Bytes Bytes)
        (verifiers out : Dict Bytes Responder)
        → handler_loop hash seen verifiers rest ≡ ok out
        → AllConfigured rest
        → AllValidate verifiers
        → AllValidate out
    unfolding handler_loop
    handler_loop-AllValidate [] seen verifiers out h c all =
        let same : verifiers ≡ out = ground arith in subst AllValidate same all
    handler_loop-AllValidate ((name, v) ∷ rest) seen verifiers out h (p, c) all =
        let r = handler_loop-Round hash seen verifiers name v rest out h in
        handler_loop-AllValidate rest _ _ out r.went_on c
          (insert-AllValidate r.identifier v.server verifiers p all)

    nothing-AllValidate : AllValidate []
    unfolding lookup
    nothing-AllValidate id v l = absurd cc

    -- With what `NewFDC` made of a configuration it accepted, in which each verifier posts and
    -- validates as `Verifier` does: whatever attempts the queue makes at an instruction without a
    -- fixed message, it ends with nothing sent, or with exactly that instruction sent, whose
    -- fixed message is not empty and within the tee's size limit.
    pub new_fdc-Fits :
        {P Q : Type 0} (new_queue : P → Bytes → Q) (cfg : FdcConfig P) (base : Processor)
        (f : Fdc Q) (env : Env) (lib : FdcLib) {w v : World}
        → new_fdc new_queue hash (some cfg) base ≡ ok f
        → AllConfigured cfg.verifiers
        → fixed_message w ≡ []
        → Queued (wrap_handle env lib f.handler) w v
        → Silent w v ⊎ (v.out ≡ w.out ++ (v.ib ∷ [])) × Fits (fixed_message v)
    new_fdc-Fits new_queue cfg base f env lib {w} {v} made c empty q =
        let (loop, _) = new_fdc_loops hash new_queue cfg base f made in
        let all =
          handler_loop-AllValidate cfg.verifiers [] [] f.handler.verifiers loop c
            nothing-AllValidate in
        elim (queue_end env lib f.handler {w = w} empty refl refl q) [
          | inl quiet ↦ inl quiet
          | inr s ↦ inr (
            s.emitted.out_grown ∙ ap (λ out. out ++ (v.ib ∷ [])) s.mid_out,
            subst Fits (sym s.message_kept)
                (Confirmed-Fits env lib f.handler w.ib (fixed_message s.mid) all s.confirmed),
          )
        ]
