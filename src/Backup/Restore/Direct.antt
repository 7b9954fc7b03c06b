-- ===== src/Backup/Restore/Direct.antt =====
-- What a KEY_DIRECT_RESTORE that goes through has checked, and what it sends.
pub mod Success
use tee_relay_client.Base.{Bool, length, Bytes, nat_eq, ◌≡◌, ◌≢◌, inl, inr, ok, Result-cases, arith}
use tee_relay_client.Instruction.{World}
use tee_relay_client.Processor.{Env, Processor}
use tee_relay_client.Processor.Laws.{Emitted, sign_and_emit-Emitted, sign_and_emit_failed}
use tee_relay_client.Fdc.Handler.{set_fixed_message}
use tee_relay_client.Backup.Defs.{
  DirectRequest, HttpResponse, ActionResponse, SignedBackup, BackupLib,
}
use tee_relay_client.Backup.Consistency.{
  Genuine, check_consistency_direct_lem, validate_action_response_direct_lem,
}
use tee_relay_client.Backup.Restore.{
  fetch, limited_body, genuine_response, check_envelope, process_direct_restore, result_url,
  size_limit_direct_restore,
}
use tee_relay_client.Backup.Restore.Parts.{fetch_keeps}

module _ (env : Env) (lib : BackupLib) (base : Processor) (unsafe : Bool) where
  -- The envelope is signed by the source tee, and is a backup of the requested id.
  pub record Envelope (req : DirectRequest) (envelope : Bytes) : Type 0 where
    pub skdb : SignedBackup
    pub unmarshalled : lib.unmarshal_signed_backup envelope ≡ ok skdb
    pub hash : Bytes
    pub hashed :
        lib.payload_hash lib.tee_key_direct_backup base.chain_id (lib.keccak256 skdb.payload)
        ≡ ok hash
    pub signed : lib.verify_signature hash skdb.tee_signature req.source_tee_id ≡ ok tt
    pub same_backup : lib.unmarshal_payload skdb.payload ≡ ok req.backup_id

  pub check_envelope-Envelope :
      (req : DirectRequest) (envelope : Bytes)
      → check_envelope env lib base unsafe req envelope ≡ ok tt
      → Envelope req envelope
  unfolding check_envelope
  check_envelope-Envelope req envelope h =
      elim (Result-cases (lib.unmarshal_signed_backup envelope)) [
        | inr bad ↦ absurd (ground arith)
        | inl (skdb, e) ↦
            elim (Result-cases (
              lib.payload_hash lib.tee_key_direct_backup base.chain_id
                (lib.keccak256 skdb.payload))) [
                  | inr bad ↦ absurd (ground arith)
                  | inl (hash, k) ↦ elim (Result-cases (lib.unmarshal_payload skdb.payload)) [
                    | inr bad ↦ absurd (ground arith)
                    | inl (id, l) ↦ record {
                      skdb = skdb;
                      unmarshalled = e;
                      hash = hash;
                      hashed = k;
                      signed = ground arith;
                      same_backup =
                          ground (arith, (check_consistency_direct_lem id req.backup_id).0);
                    }
                  ]
                ]
      ]

  pub genuine_response-Genuine :
      (req : DirectRequest) (body : Bytes) (resp : ActionResponse)
      → genuine_response env lib base unsafe req body ≡ ok resp
      → (lib.decode_action_response body ≡ ok resp)
        × Genuine lib resp base.chain_id req.source_tee_id req.backup_instruction_id
  unfolding genuine_response
  genuine_response-Genuine req body resp h = elim (Result-cases (lib.decode_action_response body)) [
    | inr bad ↦ absurd (ground arith)
    | inl (r, e) ↦
        let same : r ≡ resp = ground arith in
        (
          ground arith,
          rw (← same) (
              (validate_action_response_direct_lem lib r base.chain_id req.source_tee_id
                  req.backup_instruction_id).0
                (ground arith)),
        )
  ]

  -- All that was checked, and what was sent: the envelope as the source tee's response holds it.
  pub record Restored (w w' : World) : Type 0 where
    pub req : DirectRequest
    pub decoded : lib.parse_direct_restore w.ib.general_data ≡ ok req
    pub one_tee : length w.ib.tees ≡ 1
    pub resp : HttpResponse
    pub fetched : (fetch env lib base unsafe (result_url env lib base unsafe req) w).0 ≡ ok resp
    pub body : Bytes
    pub limited : limited_body size_limit_direct_restore resp ≡ ok body
    pub action : ActionResponse
    pub action_decoded : lib.decode_action_response body ≡ ok action
    pub genuine : Genuine lib action base.chain_id req.source_tee_id req.backup_instruction_id
    pub envelope : Envelope req action.result.payload
    pub mid : World
    pub mid_ib : mid.ib ≡ (set_fixed_message action.result.payload w).ib
    pub mid_out : mid.out ≡ w.out
    pub emitted : Emitted env base mid w'

  -- A KEY_DIRECT_RESTORE without an error is for one tee, and sent the envelope of a response
  -- that was fetched within the size limit, is genuine, and whose envelope the source tee signed
  -- for the requested backup.
  pub process_direct_restore_ok :
      (w : World)
      → (process_direct_restore env lib base unsafe w).0 ≡ ok tt
      → Restored w (process_direct_restore env lib base unsafe w).1
  unfolding process_direct_restore
  process_direct_restore_ok w h = elim (Result-cases (lib.parse_direct_restore w.ib.general_data)) [
    | inr bad ↦ absurd (ground arith)
    | inl (req, e) ↦
        let url = result_url env lib base unsafe req in
        let (kept, quiet) = fetch_keeps env lib base unsafe url w in
        let u = (fetch env lib base unsafe url w).1 in
        elim (Result-cases (fetch env lib base unsafe url w).0) [
          | inr bad ↦ absurd (ground arith)
          | inl (resp, k) ↦ elim (Result-cases (limited_body size_limit_direct_restore resp)) [
            | inr bad ↦ absurd (ground arith)
            | inl (body, l) ↦ elim (Result-cases (genuine_response env lib base unsafe req body)) [
              | inr bad ↦ absurd (ground arith)
              | inl (action, g) ↦
                  let (d, genuine) = genuine_response-Genuine req body action g in
                  record {
                    req = req;
                    decoded = e;
                    one_tee = ground arith;
                    resp = resp;
                    fetched = k;
                    body = body;
                    limited = l;
                    action = action;
                    action_decoded = d;
                    genuine = genuine;
                    envelope = check_envelope-Envelope req action.result.payload (ground arith);
                    mid = set_fixed_message action.result.payload u;
                    mid_ib = ground arith;
                    mid_out = quiet;
                    emitted = ground (
                      arith,
                      sign_and_emit-Emitted env base "signing"
                          (set_fixed_message action.result.payload u),
                    );
                  }
            ]
          ]
        ]
  ]

  -- A KEY_DIRECT_RESTORE that fails or panics sends nothing.
  pub process_direct_restore_failed :
      (w : World)
      → (process_direct_restore env lib base unsafe w).0 ≢ ok tt
      → (process_direct_restore env lib base unsafe w).1.out ≡ w.out
  unfolding process_direct_restore
  process_direct_restore_failed w h =
      elim (Result-cases (lib.parse_direct_restore w.ib.general_data)) [
        | inr bad ↦ ground arith
        | inl (req, e) ↦
            let url = result_url env lib base unsafe req in
            let (kept, quiet) = fetch_keeps env lib base unsafe url w in
            elim (Result-cases (fetch env lib base unsafe url w).0) [
              | inr bad ↦ ground arith
              | inl (resp, k) ↦ elim (Result-cases (limited_body size_limit_direct_restore resp)) [
                | inr bad ↦ ground arith
                | inl (body, l) ↦
                    elim (Result-cases (genuine_response env lib base unsafe req body)) [
                      | inr bad ↦ ground arith
                      | inl (action, g) ↦ ground (
                        arith,
                        sign_and_emit_failed env base "signing" (
                            set_fixed_message action.result.payload
                              (fetch env lib base unsafe url w).1),
                      )
                    ]
              ]
            ]
      ]
