-- ===== src/Backup/Restore/Direct/Success.antt =====
-- When a KEY_DIRECT_RESTORE succeeds.
use tee_relay_client.Base.{
  Bool, length, Bytes, nat_eq, ◌≡◌, ◌↔◌, inl, inr, refl, ok, Result-cases, arith,
}
use tee_relay_client.Instruction.{World}
use tee_relay_client.Processor.{Env, Processor}
use tee_relay_client.Processor.Success.{CanEmit, sign_and_emit_lem}
use tee_relay_client.Fdc.Handler.{set_fixed_message}
use tee_relay_client.Backup.Defs.{DirectRequest, HttpResponse, ActionResponse, BackupLib}
use tee_relay_client.Backup.Consistency.{
  Genuine, check_consistency_direct_lem, validate_action_response_direct_lem,
}
use tee_relay_client.Backup.Restore.{
  fetch, limited_body, genuine_response, check_envelope, process_direct_restore, result_url,
  size_limit_direct_restore,
}
use tee_relay_client.Backup.Restore.Parts.{Limited, limited_body_lem}
use tee_relay_client.Backup.Restore.Direct.{
  Envelope, check_envelope-Envelope, genuine_response-Genuine,
}

module _ (env : Env) (lib : BackupLib) (base : Processor) (unsafe : Bool) where
  -- A direct restore: the response can be fetched, and passes all checks.
  pub record CanRestoreDirect (w : World) : Type 0 where
    pub req : DirectRequest
    pub one_tee : length w.ib.tees ≡ 1
    pub decoded : lib.parse_direct_restore w.ib.general_data ≡ ok req
    pub resp : HttpResponse
    pub fetched : (fetch env lib base unsafe (result_url env lib base unsafe req) w).0 ≡ ok resp
    pub body : Bytes
    pub limited : Limited size_limit_direct_restore resp body
    pub action : ActionResponse
    pub action_decoded : lib.decode_action_response body ≡ ok action
    pub genuine : Genuine lib action base.chain_id req.source_tee_id req.backup_instruction_id
    pub envelope : Envelope env lib base unsafe req action.result.payload
    pub emit : CanEmit env base (
        set_fixed_message action.result.payload
          (fetch env lib base unsafe (result_url env lib base unsafe req) w).1)

  Envelope-check_envelope :
      (req : DirectRequest) (envelope : Bytes)
      → Envelope env lib base unsafe req envelope
      → check_envelope env lib base unsafe req envelope ≡ ok tt
  unfolding check_envelope
  Envelope-check_envelope req envelope e = ground (
    arith,
    e.unmarshalled,
    e.hashed,
    e.signed,
    e.same_backup,
    (check_consistency_direct_lem req.backup_id req.backup_id).1 refl,
  )

  Genuine-genuine_response :
      (req : DirectRequest) (body : Bytes) (action : ActionResponse)
      → lib.decode_action_response body ≡ ok action
      → Genuine lib action base.chain_id req.source_tee_id req.backup_instruction_id
      → genuine_response env lib base unsafe req body ≡ ok action
  unfolding genuine_response
  Genuine-genuine_response req body action d g = ground (
    arith,
    (validate_action_response_direct_lem lib action base.chain_id req.source_tee_id
          req.backup_instruction_id).1
        g,
  )

  CanRestoreDirect-process_direct_restore :
      (w : World) → CanRestoreDirect w → (process_direct_restore env lib base unsafe w).0 ≡ ok tt
  unfolding process_direct_restore
  CanRestoreDirect-process_direct_restore w c =
      let u = (fetch env lib base unsafe (result_url env lib base unsafe c.req) w).1 in
      ground (
        arith,
        c.one_tee,
        c.decoded,
        c.fetched,
        (limited_body_lem size_limit_direct_restore c.resp c.body).1 c.limited,
        Genuine-genuine_response c.req c.body c.action c.action_decoded c.genuine,
        Envelope-check_envelope c.req c.action.result.payload c.envelope,
        (sign_and_emit_lem env base "signing" (set_fixed_message c.action.result.payload u)).1
            c.emit,
      )

  process_direct_restore-CanRestoreDirect :
      (w : World) → (process_direct_restore env lib base unsafe w).0 ≡ ok tt → CanRestoreDirect w
  unfolding process_direct_restore
  process_direct_restore-CanRestoreDirect w h =
      elim (Result-cases (lib.parse_direct_restore w.ib.general_data)) [
        | inr bad ↦ absurd (ground arith)
        | inl (req, e) ↦
            let url = result_url env lib base unsafe req in
            let u = (fetch env lib base unsafe url w).1 in
            elim (Result-cases (fetch env lib base unsafe url w).0) [
              | inr bad ↦ absurd (ground arith)
              | inl (resp, k) ↦ elim (Result-cases (limited_body size_limit_direct_restore resp)) [
                | inr bad ↦ absurd (ground arith)
                | inl (body, l) ↦
                    elim (Result-cases (genuine_response env lib base unsafe req body)) [
                      | inr bad ↦ absurd (ground arith)
                      | inl (action, g) ↦
                          let (d, genuine) =
                            genuine_response-Genuine env lib base unsafe req body action g in
                          record {
                            req = req;
                            one_tee = ground arith;
                            decoded = e;
                            resp = resp;
                            fetched = k;
                            body = body;
                            limited = (limited_body_lem size_limit_direct_restore resp body).0 l;
                            action = action;
                            action_decoded = d;
                            genuine = genuine;
                            envelope =
                                check_envelope-Envelope env lib base unsafe req
                                  action.result.payload (ground arith);
                            emit =
                                (sign_and_emit_lem env base "signing"
                                    (set_fixed_message action.result.payload u)).0
                                  (ground arith);
                          }
                    ]
              ]
            ]
      ]

  -- A KEY_DIRECT_RESTORE returns without an error exactly if it is for one tee, its request
  -- parses, the response can be fetched with status 200 and its body, read as far as the size
  -- limit, is genuine, its envelope is signed by the source tee for the requested backup, and the
  -- instruction can be signed and sent.
  pub process_direct_restore_lem :
      (w : World) → ((process_direct_restore env lib base unsafe w).0 ≡ ok tt) ↔ CanRestoreDirect w
  process_direct_restore_lem w =
      (process_direct_restore-CanRestoreDirect w, CanRestoreDirect-process_direct_restore w)
