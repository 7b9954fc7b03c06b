-- ===== src/Relay/Work/Ends.antt =====
-- How each of the three processors ends: it has sent nothing, or the instruction it signed.
use tee_relay_client.Base.{
  Bool, bytes_eq, nat_eq, true, false, Result, ok, err, panic, ◌≡◌, ◌≢◌, ◌⊎◌, inl, inr, refl, ◌∙◌,
  ◌==◌, Bool-cases, arith,
}
use tee_relay_client.Instruction.{World}
use tee_relay_client.Processor.{Env, Processor, sign_and_emit}
use tee_relay_client.Processor
use tee_relay_client.Processor.Laws.{Emitted, sign_and_emit-Emitted, sign_and_emit_failed}
use tee_relay_client.Backup.Defs.{BackupLib, RestoreRequest, WalletBackup}
use tee_relay_client.Backup.Restore.{
  process_data_provider_restore, process_direct_restore, Commands,
}
use tee_relay_client.Backup.Restore
use tee_relay_client.Backup.Restore.DataProvider.{
  Sent, Obtained, process_data_provider_restore_ok, process_data_provider_restore_failed,
}
use tee_relay_client.Backup.Restore.Direct.{
  Restored, process_direct_restore_ok, process_direct_restore_failed,
}

-- Nothing was sent.
abbrev pub Silent : World → World → Type 0
Silent w w' = w'.out ≡ w.out

pub ok_or_not : (r : Result (Unit {0})) → (r ≡ ok tt) ⊎ (r ≢ ok tt)
ok_or_not (ok tt) = inl refl
ok_or_not (err e) = inr (λ q. cc)
ok_or_not panic = inr (λ q. cc)

module _ (env : Env) (b : Processor) where
  process_set :
      (w : World) → b.out_set ≡ true → Processor.process env b w ≡ sign_and_emit "signing" env b w
  unfolding Processor.process
  process_set w on = ground arith

  process_unset : (w : World) → b.out_set ≡ false → Silent w (Processor.process env b w).1
  unfolding Processor.process
  process_unset w off = ground arith

  pub process_end :
      (w : World) → let w' = (Processor.process env b w).1 in Silent w w' ⊎ Emitted env b w w'
  process_end w = elim (Bool-cases b.out_set) [
    | inr off ↦ inl (process_unset w off)
    | inl on ↦ rw (process_set w on) (elim (ok_or_not (sign_and_emit "signing" env b w).0) [
      | inl e ↦ inr (sign_and_emit-Emitted env b "signing" w e)
      | inr bad ↦ inl (sign_and_emit_failed env b "signing" w bad)
    ])
  ]

  module _ (lib : BackupLib) (unsafe : Bool) where
    -- The restore that was sent: the signer's part of a backup, or a direct backup's envelope.
    pub data RestoreSent (w w' : World) : Type 0 where
      part :
          (request : RestoreRequest) (wb : WalletBackup) (u : World)
          → Obtained env lib b unsafe w request wb
          → u.ib ≡ w.ib
          → u.out ≡ w.out
          → Sent env lib b unsafe request wb u w'
          → RestoreSent w w'
      direct : Restored env lib b unsafe w w' → RestoreSent w w'

    data_provider_end :
        (w : World)
        → let w' = (process_data_provider_restore env lib b unsafe w).1 in
          Silent w w' ⊎ RestoreSent w w'
    data_provider_end w = elim (ok_or_not (process_data_provider_restore env lib b unsafe w).0) [
      | inr bad ↦ inl (process_data_provider_restore_failed env lib b unsafe w bad)
      | inl e ↦
          let (request, wb, u, o, i, q, r) =
            process_data_provider_restore_ok env lib b unsafe w e in
          elim r [ inl s ↦ inr (part request wb u o i q s) | inr n ↦ inl (n.nothing_sent ∙ q) ]
    ]

    direct_end :
        (w : World)
        → let w' = (process_direct_restore env lib b unsafe w).1 in Silent w w' ⊎ RestoreSent w w'
    direct_end w = elim (ok_or_not (process_direct_restore env lib b unsafe w).0) [
      | inr bad ↦ inl (process_direct_restore_failed env lib b unsafe w bad)
      | inl e ↦ inr (direct (process_direct_restore_ok env lib b unsafe w e))
    ]

    pub restore_end :
        (c : Commands) (w : World)
        → let w' = (Restore.process env lib b unsafe c w).1 in Silent w w' ⊎ RestoreSent w w'
    unfolding Restore.process
    restore_end c w =
        let command = c.hash_to_command w.ib.event.op_command in
        elim (Bool-cases (command == c.key_data_provider_restore)) [
          | inl first ↦ rw first (data_provider_end w)
          | inr other ↦ elim (Bool-cases (command == c.key_direct_restore)) [
            | inl second ↦ rw (other, second) (direct_end w)
            | inr neither ↦ rw (other, neither) (inl refl)
          ]
        ]
