-- ===== src/Backup/Restore/DataProvider.antt =====
-- What a KEY_DATA_PROVIDER_RESTORE that goes through has checked, and what it sends.
pub mod Success
use tee_relay_client.Base.{
  ◌+◌, Bool, false, Bytes, contains, none, some, ◌≡◌, ◌≢◌, ◌⊎◌, inl, inr, ok, Result-cases, arith,
}
use tee_relay_client.Signer.{PublicKey}
use tee_relay_client.Instruction.{World}
use tee_relay_client.Processor.{Env, Processor}
use tee_relay_client.Fdc.Handler.{set_fixed_message}
use tee_relay_client.Backup.Defs.{
  RestoreRequest, HttpResponse, WalletBackup, BackupLib, PublicKey_eq,
}
use tee_relay_client.Backup.Splits.{index_of, plaintext_for_tee}
use tee_relay_client.Backup.Splits.Laws.{
  Composed, plaintext_for_tee-Composed, plaintext_for_tee_keeps, plaintext_for_tee-none,
}
use tee_relay_client.Backup.Restore.{
  fetch, limited_body, checked_backup, set_meta_data, restore_from, process_data_provider_restore,
  size_limit_data_provider_restore,
}
use tee_relay_client.Backup.Restore.Parts.{
  CheckedBackup, checked_backup-CheckedBackup, fetch_keeps, Forwarded, forward-Forwarded,
  forward_failed,
}

module _ (env : Env) (lib : BackupLib) (base : Processor) (unsafe : Bool) where
  -- The signer is an owner of the backup, and its splits went to the tee.
  pub record Sent (request : RestoreRequest) (wb : WalletBackup) (w w' : World) : Type 0 where
    pub meta : Bytes
    pub meta_data : lib.marshal_meta_data wb.meta_data ≡ ok meta
    pub pk : PublicKey
    pub identified : base.signer.identify w.tick ≡ ok pk
    pub pt : Bytes
    pub composed :
        Composed lib base wb
          (w.tick + 1)
          pt
          (index_of wb.provider_encrypted_parts.owners_public_keys pk)
          (index_of wb.admin_encrypted_parts.owners_public_keys pk)
    pub mid : World
    pub mid_ib : mid.ib ≡ (set_fixed_message meta w).ib
    pub mid_out : mid.out ≡ w.out
    pub forwarded : Forwarded env lib base unsafe request pt mid w'

  -- The signer owns no part of the backup, and nothing was sent.
  pub record NotOwner (wb : WalletBackup) (w w' : World) : Type 0 where
    pub pk : PublicKey
    pub identified : base.signer.identify w.tick ≡ ok pk
    pub not_provider : contains wb.provider_encrypted_parts.owners_public_keys pk ≡ false
    pub not_admin : contains wb.admin_encrypted_parts.owners_public_keys pk ≡ false
    pub nothing_sent : w'.out ≡ w.out

  restore_from_ok :
      (request : RestoreRequest) (wb : WalletBackup) (w : World)
      → (restore_from env lib base unsafe request wb w).0 ≡ ok tt
      → let w' = (restore_from env lib base unsafe request wb w).1 in
        Sent request wb w w' ⊎ NotOwner wb w w'
  unfolding restore_from set_meta_data
  restore_from_ok request wb w h = elim (Result-cases (lib.marshal_meta_data wb.meta_data)) [
    | inr bad ↦ absurd (ground arith)
    | inl (meta, e) ↦ elim (Result-cases (base.signer.identify w.tick)) [
      | inr bad ↦ absurd (ground arith)
      | inl (pk, k) ↦
          let v : World = record (set_fixed_message meta w) { tick = w.tick + 1 } in
          let (kept, quiet) = plaintext_for_tee_keeps lib base wb pk v in
          elim (Result-cases (plaintext_for_tee lib base wb pk v).0) [
            | inr bad ↦ absurd (ground arith)
            | inl (none, l) ↦
                let (p, a) = (plaintext_for_tee-none lib base wb pk v).0 l in
                inr (record {
                  pk = pk;
                  identified = k;
                  not_provider = p;
                  not_admin = a;
                  nothing_sent = ground arith;
                })
            | inl (some pt, l) ↦ inl (record {
              meta = meta;
              meta_data = e;
              pk = pk;
              identified = k;
              pt = pt;
              composed = plaintext_for_tee-Composed lib base wb pk v pt l;
              mid = (plaintext_for_tee lib base wb pk v).1;
              mid_ib = kept;
              mid_out = quiet;
              forwarded = ground (
                arith,
                forward-Forwarded env lib base unsafe request pt
                    (plaintext_for_tee lib base wb pk v).1,
              );
            })
          ]
    ]
  ]

  restore_from_failed :
      (request : RestoreRequest) (wb : WalletBackup) (w : World)
      → (restore_from env lib base unsafe request wb w).0 ≢ ok tt
      → (restore_from env lib base unsafe request wb w).1.out ≡ w.out
  unfolding restore_from set_meta_data
  restore_from_failed request wb w h = elim (Result-cases (lib.marshal_meta_data wb.meta_data)) [
    | inr bad ↦ ground arith
    | inl (meta, e) ↦ elim (Result-cases (base.signer.identify w.tick)) [
      | inr bad ↦ ground arith
      | inl (pk, k) ↦
          let v : World = record (set_fixed_message meta w) { tick = w.tick + 1 } in
          let (kept, quiet) = plaintext_for_tee_keeps lib base wb pk v in
          elim (Result-cases (plaintext_for_tee lib base wb pk v).0) [
            | inr bad ↦ ground arith
            | inl (none, l) ↦ ground arith
            | inl (some pt, l) ↦ ground (
              arith,
              forward_failed env lib base unsafe request pt (plaintext_for_tee lib base wb pk v).1,
            )
          ]
    ]
  ]

  -- The backup that was restored from: fetched within the size limit, and checked.
  pub record Obtained (w : World) (request : RestoreRequest) (wb : WalletBackup) : Type 0 where
    pub decoded : lib.parse_data_provider_restore w.ib.general_data ≡ ok request
    pub resp : HttpResponse
    pub fetched : (fetch env lib base unsafe request.backup_url w).0 ≡ ok resp
    pub body : Bytes
    pub limited : limited_body size_limit_data_provider_restore resp ≡ ok body
    pub backup : CheckedBackup env lib base unsafe request w.ib.tees body wb

  -- A KEY_DATA_PROVIDER_RESTORE without an error is of a backup that was fetched within the size
  -- limit and passed every check: the signer's splits of it went, encrypted, to the request's
  -- tee, or the signer owns none of them and nothing was sent.
  pub process_data_provider_restore_ok :
      (w : World)
      → (process_data_provider_restore env lib base unsafe w).0 ≡ ok tt
      → let w' = (process_data_provider_restore env lib base unsafe w).1 in
        (request : RestoreRequest) × (wb : WalletBackup) × (u : World) × Obtained w request wb
        × (u.ib ≡ w.ib)
        × (u.out ≡ w.out)
        × (Sent request wb u w' ⊎ NotOwner wb u w')
  unfolding process_data_provider_restore
  process_data_provider_restore_ok w h =
      elim (Result-cases (lib.parse_data_provider_restore w.ib.general_data)) [
        | inr bad ↦ absurd (ground arith)
        | inl (request, e) ↦
            let (kept, quiet) = fetch_keeps env lib base unsafe request.backup_url w in
            elim (Result-cases (fetch env lib base unsafe request.backup_url w).0) [
              | inr bad ↦ absurd (ground arith)
              | inl (resp, k) ↦
                  elim (Result-cases (limited_body size_limit_data_provider_restore resp)) [
                    | inr bad ↦ absurd (ground arith)
                    | inl (body, l) ↦
                        elim (Result-cases
                          (checked_backup env lib base unsafe request w.ib.tees body)) [
                            | inr bad ↦ absurd (ground arith)
                            | inl (wb, c) ↦
                                let u = (fetch env lib base unsafe request.backup_url w).1 in
                                (
                                  request,
                                  wb,
                                  u,
                                  record {
                                    decoded = e;
                                    resp = resp;
                                    fetched = k;
                                    body = body;
                                    limited = l;
                                    backup =
                                        checked_backup-CheckedBackup env lib base unsafe request
                                          w.ib.tees body wb c;
                                  },
                                  kept,
                                  quiet,
                                  ground (arith, restore_from_ok request wb u),
                                )
                          ]
                  ]
            ]
      ]

  -- A KEY_DATA_PROVIDER_RESTORE that fails or panics sends nothing.
  pub process_data_provider_restore_failed :
      (w : World)
      → (process_data_provider_restore env lib base unsafe w).0 ≢ ok tt
      → (process_data_provider_restore env lib base unsafe w).1.out ≡ w.out
  unfolding process_data_provider_restore
  process_data_provider_restore_failed w h =
      elim (Result-cases (lib.parse_data_provider_restore w.ib.general_data)) [
        | inr bad ↦ ground arith
        | inl (request, e) ↦
            let (kept, quiet) = fetch_keeps env lib base unsafe request.backup_url w in
            elim (Result-cases (fetch env lib base unsafe request.backup_url w).0) [
              | inr bad ↦ ground arith
              | inl (resp, k) ↦
                  elim (Result-cases (limited_body size_limit_data_provider_restore resp)) [
                    | inr bad ↦ ground arith
                    | inl (body, l) ↦
                        elim (Result-cases
                          (checked_backup env lib base unsafe request w.ib.tees body)) [
                            | inr bad ↦ ground arith
                            | inl (wb, c) ↦ ground (
                              arith,
                              restore_from_failed request wb
                                  (fetch env lib base unsafe request.backup_url w).1,
                            )
                          ]
                  ]
            ]
      ]
