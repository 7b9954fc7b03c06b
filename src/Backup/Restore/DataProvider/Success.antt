-- ===== src/Backup/Restore/DataProvider/Success.antt =====
-- When a KEY_DATA_PROVIDER_RESTORE succeeds.
use tee_relay_client.Base.{
  ◌+◌, Bool, List, Bytes, nat_eq, none, some, ◌≡◌, ◌⊎◌, ◌↔◌, inl, inr, ok, Result-cases, arith,
}
use tee_relay_client.Signer.{PublicKey}
use tee_relay_client.Instruction.{World, TeeMachine}
use tee_relay_client.Processor.{Env, Processor}
use tee_relay_client.Processor.Success.{CanEmit, sign_and_emit_lem}
use tee_relay_client.Fdc.Handler.{set_fixed_message, set_variable_message}
use tee_relay_client.Backup.Defs.{RestoreRequest, HttpResponse, WalletBackup, BackupLib}
use tee_relay_client.Backup.Consistency.{check_consistency_lem}
use tee_relay_client.Backup.Splits.{plaintext_for_tee}
use tee_relay_client.Backup.Restore.{
  fetch, limited_body, checked_backup, set_meta_data, forward, restore_from,
  process_data_provider_restore, size_limit_data_provider_restore,
}
use tee_relay_client.Backup.Restore.Parts.{
  Limited, limited_body_lem, CheckedBackup, checked_backup-CheckedBackup,
}

module _ (env : Env) (lib : BackupLib) (base : Processor) (unsafe : Bool) where
  -- The plaintext can be encrypted to the tee, and then the instruction can be sent.
  pub record CanForward (request : RestoreRequest) (pt : Bytes) (w : World) : Type 0 where
    pub tee_pk : PublicKey
    pub tee_key : lib.parse_pub_key request.tee_public_key ≡ ok tee_pk
    pub cipher : Bytes
    pub encrypted : lib.encrypt w.tick pt tee_pk ≡ ok cipher
    pub emit : CanEmit env base (set_variable_message cipher (record w { tick = w.tick + 1 }))

  forward_lem :
      (request : RestoreRequest) (pt : Bytes) (w : World)
      → ((forward env lib base unsafe request pt w).0 ≡ ok tt) ↔ CanForward request pt w
  unfolding forward
  forward_lem request pt w = (
    λ h. elim (Result-cases (lib.parse_pub_key request.tee_public_key)) [
      | inr bad ↦ absurd (ground arith)
      | inl (tee_pk, e) ↦ elim (Result-cases (lib.encrypt w.tick pt tee_pk)) [
        | inr bad ↦ absurd (ground arith)
        | inl (cipher, k) ↦ record {
          tee_pk = tee_pk;
          tee_key = e;
          cipher = cipher;
          encrypted = k;
          emit =
              (sign_and_emit_lem env base "signing"
                  (set_variable_message cipher (record w { tick = w.tick + 1 }))).0
                (ground arith);
        }
      ]
    ],
    λ c. ground (
      arith,
      c.tee_key,
      c.encrypted,
      (sign_and_emit_lem env base "signing"
            (set_variable_message c.cipher (record w { tick = w.tick + 1 }))).1
          c.emit,
    ),
  )

  -- The world in which the splits are put together.
  abbrev identified_at : Bytes → World → World
  identified_at meta w = record (set_fixed_message meta w) { tick = w.tick + 1 }

  -- From the checked backup on: the signer owns no part of it, or the plaintext of its splits can be
  -- forwarded.
  pub record CanRestoreFrom (request : RestoreRequest) (wb : WalletBackup) (w : World)
      : Type 0 where
    pub meta : Bytes
    pub meta_data : lib.marshal_meta_data wb.meta_data ≡ ok meta
    pub pk : PublicKey
    pub identified : base.signer.identify w.tick ≡ ok pk
    pub part :
        ((plaintext_for_tee lib base wb pk (identified_at meta w)).0 ≡ ok none)
        ⊎ ((pt : Bytes) × ((plaintext_for_tee lib base wb pk (identified_at meta w)).0
              ≡ ok (some pt))
            × CanForward request pt (plaintext_for_tee lib base wb pk (identified_at meta w)).1)

  restore_from_lem :
      (request : RestoreRequest) (wb : WalletBackup) (w : World)
      → ((restore_from env lib base unsafe request wb w).0 ≡ ok tt) ↔ CanRestoreFrom request wb w
  unfolding restore_from set_meta_data
  restore_from_lem request wb w = (
    λ h. elim (Result-cases (lib.marshal_meta_data wb.meta_data)) [
      | inr bad ↦ absurd (ground arith)
      | inl (meta, e) ↦ elim (Result-cases (base.signer.identify w.tick)) [
        | inr bad ↦ absurd (ground arith)
        | inl (pk, k) ↦
            let v = identified_at meta w in
            elim (Result-cases (plaintext_for_tee lib base wb pk v).0) [
              | inr bad ↦ absurd (ground arith)
              | inl (none, l) ↦ record {
                meta = meta;
                meta_data = e;
                pk = pk;
                identified = k;
                part = inl l;
              }
              | inl (some pt, l) ↦
                  let go =
                    (forward_lem request pt (plaintext_for_tee lib base wb pk v).1).0
                      (ground arith) in
                  record {
                    meta = meta;
                    meta_data = e;
                    pk = pk;
                    identified = k;
                    part = inr (pt, l, go);
                  }
            ]
      ]
    ],
    λ c. elim c.part [
      | inl l ↦ ground (arith, c.meta_data, c.identified)
      | inr (pt, l, f) ↦ ground (
        arith,
        c.meta_data,
        c.identified,
        (forward_lem request pt (plaintext_for_tee lib base wb c.pk (identified_at c.meta w)).1).1
            f,
      )
    ],
  )

  CheckedBackup-checked_backup :
      (request : RestoreRequest) (tees : List TeeMachine) (body : Bytes) (wb : WalletBackup)
      → CheckedBackup env lib base unsafe request tees body wb
      → checked_backup env lib base unsafe request tees body ≡ ok wb
  unfolding checked_backup
  CheckedBackup-checked_backup request tees body wb c = ground (
    arith,
    c.decoded,
    c.parsed,
    c.checked,
    c.same_wallet,
    (check_consistency_lem lib request c.response.backup_id tees).1 c.consistent,
  )

  -- A restore of a data provider: the backup can be fetched, and passes all checks.
  pub record CanRestore (w : World) : Type 0 where
    pub request : RestoreRequest
    pub decoded : lib.parse_data_provider_restore w.ib.general_data ≡ ok request
    pub resp : HttpResponse
    pub fetched : (fetch env lib base unsafe request.backup_url w).0 ≡ ok resp
    pub body : Bytes
    pub limited : Limited size_limit_data_provider_restore resp body
    pub wb : WalletBackup
    pub backup : CheckedBackup env lib base unsafe request w.ib.tees body wb
    pub rest : CanRestoreFrom request wb (fetch env lib base unsafe request.backup_url w).1

  process_data_provider_restore-CanRestore :
      (w : World) → (process_data_provider_restore env lib base unsafe w).0 ≡ ok tt → CanRestore w
  unfolding process_data_provider_restore
  process_data_provider_restore-CanRestore w h =
      elim (Result-cases (lib.parse_data_provider_restore w.ib.general_data)) [
        | inr bad ↦ absurd (ground arith)
        | inl (request, e) ↦
            let u = (fetch env lib base unsafe request.backup_url w).1 in
            elim (Result-cases (fetch env lib base unsafe request.backup_url w).0) [
              | inr bad ↦ absurd (ground arith)
              | inl (resp, k) ↦
                  elim (Result-cases (limited_body size_limit_data_provider_restore resp)) [
                    | inr bad ↦ absurd (ground arith)
                    | inl (body, l) ↦
                        elim (Result-cases
                          (checked_backup env lib base unsafe request w.ib.tees body)) [
                            | inr bad ↦ absurd (ground arith)
                            | inl (wb, c) ↦ record {
                              request = request;
                              decoded = e;
                              resp = resp;
                              fetched = k;
                              body = body;
                              limited =
                                  (limited_body_lem size_limit_data_provider_restore resp body).0 l;
                              wb = wb;
                              backup =
                                  checked_backup-CheckedBackup env lib base unsafe request w.ib.tees
                                    body wb c;
                              rest = (restore_from_lem request wb u).0 (ground arith);
                            }
                          ]
                  ]
            ]
      ]

  CanRestore-process_data_provider_restore :
      (w : World) → CanRestore w → (process_data_provider_restore env lib base unsafe w).0 ≡ ok tt
  unfolding process_data_provider_restore
  CanRestore-process_data_provider_restore w c = ground (
    arith,
    c.decoded,
    c.fetched,
    (limited_body_lem size_limit_data_provider_restore c.resp c.body).1 c.limited,
    CheckedBackup-checked_backup c.request w.ib.tees c.body c.wb c.backup,
    (restore_from_lem c.request c.wb (fetch env lib base unsafe c.request.backup_url w).1).1 c.rest,
  )

  -- A KEY_DATA_PROVIDER_RESTORE returns without an error exactly if its request parses, the
  -- backup can be fetched with status 200 and its body, read as far as the size limit, passes
  -- every check, its metadata can be marshalled and the signer identified, and the signer owns no
  -- part of it or its plaintext can be put together, encrypted to the tee, signed and sent.
  pub process_data_provider_restore_lem :
      (w : World) → ((process_data_provider_restore env lib base unsafe w).0 ≡ ok tt) ↔ CanRestore w
  process_data_provider_restore_lem w =
      (process_data_provider_restore-CanRestore w, CanRestore-process_data_provider_restore w)
