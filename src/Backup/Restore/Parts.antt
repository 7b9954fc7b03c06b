-- ===== src/Backup/Restore/Parts.antt =====
-- The steps of a KEY_DATA_PROVIDER_RESTORE: the checked backup, and the forwarding of a plaintext.
use tee_relay_client.Base.{
  ◌+◌, Bool, List, Bytes, ℕ, take, nat_eq, ◌↔◌, ◌≡◌, ◌≢◌, inl, inr, ok, Result-cases, arith,
}
use tee_relay_client.Signer.{PublicKey}
use tee_relay_client.Instruction.{World, TeeMachine}
use tee_relay_client.Processor.{Env, Processor}
use tee_relay_client.Processor.Laws.{Emitted, sign_and_emit-Emitted, sign_and_emit_failed}
use tee_relay_client.Fdc.Handler.{set_variable_message}
use tee_relay_client.Backup.Defs.{
  RestoreRequest, BackupResponse, HttpResponse, WalletBackup, BackupLib, PublicKey_eq,
}
use tee_relay_client.Backup.Consistency.{Consistent, check_consistency, check_consistency_lem}
use tee_relay_client.Backup.Restore.{fetch, limited_body, checked_backup, forward}

-- The body as far as the size limit, of a response with status 200.
abbrev pub Limited : ℕ → HttpResponse → Bytes → Type 0
Limited limit resp body = (resp.status_code ≡ 200) × (body ≡ take limit resp.body)

pub limited_body_lem :
    (limit : ℕ) (resp : HttpResponse) (body : Bytes)
    → (limited_body limit resp ≡ ok body) ↔ Limited limit resp body
unfolding limited_body
limited_body_lem limit resp body = (λ h. ground arith, λ l. ground (arith, l.0, l.1))

module _ (env : Env) (lib : BackupLib) (base : Processor) (unsafe : Bool) where
  -- The wallet backup in the body is what was asked for, and passes its own check.
  pub record CheckedBackup (request : RestoreRequest) (tees : List TeeMachine) (body : Bytes)
      (wb : WalletBackup) : Type 0 where
    pub response : BackupResponse
    pub decoded : lib.decode_backup_response body ≡ ok response
    pub consistent : Consistent lib request response.backup_id tees
    pub parsed : lib.unmarshal_wallet_backup response.wallet_backup ≡ ok wb
    pub checked : lib.check_wallet_backup base.chain_id wb ≡ ok tt
    pub same_wallet : lib.id_equal response.backup_id wb.wallet_backup_id ≡ ok tt

  pub checked_backup-CheckedBackup :
      (request : RestoreRequest) (tees : List TeeMachine) (body : Bytes) (wb : WalletBackup)
      → checked_backup env lib base unsafe request tees body ≡ ok wb
      → CheckedBackup request tees body wb
  unfolding checked_backup
  checked_backup-CheckedBackup request tees body wb h =
      elim (Result-cases (lib.decode_backup_response body)) [
        | inl (response, e) ↦
            elim (Result-cases (check_consistency lib request response.backup_id tees)) [
              | inl (tt, c) ↦
                  elim (Result-cases (lib.unmarshal_wallet_backup response.wallet_backup)) [
                    | inl (wb', k) ↦ record {
                      response = response;
                      decoded = e;
                      consistent = (check_consistency_lem lib request response.backup_id tees).0 c;
                      parsed = ground arith;
                      checked = ground arith;
                      same_wallet = ground arith;
                    }
                    | inr bad ↦ absurd (ground arith)
                  ]
              | inr bad ↦ absurd (ground arith)
            ]
        | inr bad ↦ absurd (ground arith)
      ]

  pub fetch_keeps :
      (url : Bytes) (w : World)
      → let w' = (fetch env lib base unsafe url w).1 in (w'.ib ≡ w.ib) × (w'.out ≡ w.out)
  unfolding fetch
  fetch_keeps url w = ground arith

  -- The plaintext was encrypted to the request's tee, and the instruction signed and sent with it.
  pub record Forwarded (request : RestoreRequest) (pt : Bytes) (w w' : World) : Type 0 where
    pub tee_pk : PublicKey
    pub tee_key : lib.parse_pub_key request.tee_public_key ≡ ok tee_pk
    pub cipher : Bytes
    pub encrypted : lib.encrypt w.tick pt tee_pk ≡ ok cipher
    pub emitted : Emitted env base (set_variable_message cipher (record w { tick = w.tick + 1 })) w'

  pub forward-Forwarded :
      (request : RestoreRequest) (pt : Bytes) (w : World)
      → (forward env lib base unsafe request pt w).0 ≡ ok tt
      → Forwarded request pt w (forward env lib base unsafe request pt w).1
  unfolding forward
  forward-Forwarded request pt w h =
      elim (Result-cases (lib.parse_pub_key request.tee_public_key)) [
        | inl (tee_pk, e) ↦ elim (Result-cases (lib.encrypt w.tick pt tee_pk)) [
          | inl (cipher, k) ↦ record {
            tee_pk = tee_pk;
            tee_key = e;
            cipher = cipher;
            encrypted = k;
            emitted = ground (
              arith,
              sign_and_emit-Emitted env base "signing"
                  (set_variable_message cipher (record w { tick = w.tick + 1 })),
            );
          }
          | inr bad ↦ absurd (ground arith)
        ]
        | inr bad ↦ absurd (ground arith)
      ]

  pub forward_failed :
      (request : RestoreRequest) (pt : Bytes) (w : World)
      → (forward env lib base unsafe request pt w).0 ≢ ok tt
      → (forward env lib base unsafe request pt w).1.out ≡ w.out
  unfolding forward
  forward_failed request pt w h = elim (Result-cases (lib.parse_pub_key request.tee_public_key)) [
    | inl (tee_pk, e) ↦ elim (Result-cases (lib.encrypt w.tick pt tee_pk)) [
      | inl (cipher, k) ↦ ground (
        arith,
        sign_and_emit_failed env base "signing"
            (set_variable_message cipher (record w { tick = w.tick + 1 })),
      )
      | inr bad ↦ ground arith
    ]
    | inr bad ↦ ground arith
  ]
