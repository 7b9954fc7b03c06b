-- ===== src/Relay/Work/Attempts.antt =====
-- What the attempts of the FDC queue at an instruction come to (internal/router/processors/
-- fdc_queue.go and fdc_handler.go).
use tee_relay_client.Base.{
  ℕ, [], ◌+◌, Bytes, bytes_eq, ok, ◌≡◌, ◌≢◌, ◌⊎◌, inl, inr, ap, sym, ◌∙◌, arith, subst,
}
use tee_relay_client.Instruction.{Instr, World}
use tee_relay_client.Processor.{Env}
use tee_relay_client.Processor.Laws.{Emitted}
use tee_relay_client.Fdc.Verifier.{Request}
use tee_relay_client.Fdc.Handler.{FdcLib, FdcHandler, handle, set_variable_message}
use tee_relay_client.Fdc.Handler.Parts.{fixed_message, ResponseSigned}
use tee_relay_client.Fdc.Handler.Laws.{Delivered, handle_ok, handle_failed}
use tee_relay_client.Fdc.Handler.Carried.{Carries, Carries-trans, Confirmed, handle-Kept}
use tee_relay_client.Fdc.Queues.{wrap_handle}
use tee_relay_client.Fdc.Queues.Retries.{wrap_handle_lem}
use tee_relay_client.Relay.Work.{Queued, dropped, done, again}
use tee_relay_client.Relay.Work.Ends.{Silent}

module _ (env : Env) (lib : FdcLib) (h : FdcHandler) where
  -- The instruction that was sent carries, as its fixed message, the response of a verifier that
  -- confirmed its request, and, as its variable message, the signature of that response.
  pub record ResponseSent (w w' : World) : Type 0 where
    pub carried : Carries w.ib w'.ib
    pub mid : World
    pub mid_out : mid.out ≡ w.out
    pub confirmed : Confirmed env lib h w.ib (fixed_message mid)
    pub sig : Bytes
    pub response_signed : ResponseSigned lib h.base confirmed.request mid sig
    pub emitted :
        Emitted env h.base (set_variable_message sig (record mid { tick = mid.tick + 1 })) w'
    pub message_kept : fixed_message w' ≡ fixed_message mid

  -- What the attempts at an instruction have come to at `u`.
  record Pending (w u : World) : Type 0 where
    carried : Carries w.ib u.ib
    response : (fixed_message u ≡ []) ⊎ Confirmed env lib h w.ib (fixed_message u)
    quiet : Silent w u

  Confirmed-Carries :
      (ib ib' : Instr) (body : Bytes)
      → Carries ib ib'
      → Confirmed env lib h ib' body
      → Confirmed env lib h ib body
  Confirmed-Carries ib ib' body c f = record {
    request = f.request;
    decoded = ground arith;
    verifier = f.verifier;
    listed = f.listed;
    time = f.time;
    res = f.res;
    answered = f.answered;
    stored = f.stored;
  }

  handle-Pending :
      (w u : World)
      → Pending w u
      → let u' = (handle env lib h u).1 in
        Carries w.ib u'.ib × ((fixed_message u' ≡ []) ⊎ Confirmed env lib h w.ib (fixed_message u'))
  handle-Pending w u p =
      let u' : World = (handle env lib h u).1 in
      let (c, kept) = handle-Kept env lib h u in
      (
        Carries-trans w.ib u.ib u'.ib p.carried c,
        elim kept [
          | inr f ↦ inr (Confirmed-Carries w.ib u.ib (fixed_message u') p.carried f)
          | inl same ↦ elim p.response [ inl empty ↦ inl (same ∙ empty) | inr f ↦ inr (rw same f) ]
        ],
      )

  attempt-Pending :
      (w u : World) (tick : ℕ)
      → Pending w u
      → (wrap_handle env lib h u).0 ≢ ok tt
      → Pending w (record (wrap_handle env lib h u).1 { tick = tick })
  attempt-Pending w u tick p failed =
      let (after, _, bad) = wrap_handle_lem env lib h u in
      let (c, r) = handle-Pending w u p in
      rw after (record {
        carried = c;
        response = r;
        quiet = handle_failed env lib h u (bad failed) ∙ p.quiet;
      })

  Emitted-message :
      (sig : Bytes) (v w' : World)
      → Emitted env h.base (set_variable_message sig v) w'
      → fixed_message w' ≡ fixed_message v
  Emitted-message sig v w' e = ground (arith, e.ib_kept, e.signed.after)

  -- Two attempts at an instruction decode the same request.
  same_request :
      (ib ib' : Instr) {x y : Request}
      → Carries ib ib'
      → lib.decode_request ib.general_data.original_message ≡ ok x
      → lib.decode_request ib'.general_data.original_message ≡ ok y
      → y ≡ x
  same_request ib ib' c p q = ground arith

  -- The response that a delivery sends is the verifier's answer at this attempt or an earlier one.
  Delivered-Confirmed :
      (w u u' : World)
      → Pending w u
      → (d : Delivered env lib h u u')
      → Confirmed env lib h w.ib (fixed_message d.mid) × (d.mid.out ≡ u.out)
  Delivered-Confirmed w u u' p d = elim d.verified [
    | inl (nonempty, same) ↦ elim p.response [
      | inl empty ↦ absurd (nonempty empty)
      | inr f ↦ (subst (λ x. Confirmed env lib h w.ib (fixed_message x)) (sym same) f, ground arith)
    ]
    | inr (res, verdict, after) ↦ (
      Confirmed-Carries w.ib u.ib (fixed_message d.mid) p.carried (record {
        request = d.selected.request;
        decoded = d.selected.decoded;
        verifier = d.selected.verifier;
        listed = d.selected.listed;
        time = u.tick;
        res = res;
        answered = verdict;
        stored = ground arith;
      }),
      ground arith,
    )
  ]

  Delivered-ResponseSent :
      (w u u' : World)
      → Pending w u
      → Carries w.ib u'.ib
      → Delivered env lib h u u'
      → ResponseSent w u'
  Delivered-ResponseSent w u u' p c d =
      let (f, out) = Delivered-Confirmed w u u' p d in
      let same = same_request w.ib u.ib p.carried f.decoded d.selected.decoded in
      record {
        carried = c;
        mid = d.mid;
        mid_out = out ∙ p.quiet;
        confirmed = f;
        sig = d.sig;
        response_signed =
            subst (λ x. ResponseSigned lib h.base x d.mid d.sig) same d.response_signed;
        emitted = d.emitted;
        message_kept = Emitted-message d.sig (record d.mid { tick = d.mid.tick + 1 }) u' d.emitted;
      }

  attempts_end :
      {w u v : World}
      → Pending w u
      → Queued (wrap_handle env lib h) u v
      → Silent w v ⊎ ResponseSent w v
  attempts_end p (dropped _) = inl p.quiet
  attempts_end {w} p (again u x _ later failed after q) =
      attempts_end (rw after (attempt-Pending w u later p failed)) q
  attempts_end {w} p (done u v fine after) =
      let (same, ends, _) = wrap_handle_lem env lib h u in
      let u' : World = (handle env lib h u).1 in
      rw (after, same)
        (elim (handle_ok env lib h u (ends fine)) [
          | inl d ↦ inr (Delivered-ResponseSent w u u' p (handle-Pending w u p).0 d)
          | inr r ↦ inl (ap (λ (x : World). x.out) r.nothing_else ∙ p.quiet)
        ])

  -- An instruction without a fixed message, as the parser makes it.
  pub queue_end :
      {w u v : World}
      → fixed_message w ≡ []
      → u.ib ≡ w.ib
      → u.out ≡ w.out
      → Queued (wrap_handle env lib h) u v
      → Silent w v ⊎ ResponseSent w v
  queue_end {w} {u} empty same quiet q =
      attempts_end
        (record {
          carried = ground (arith, same);
          response = inl (ground (arith, same, empty));
          quiet = quiet;
        })
        q
