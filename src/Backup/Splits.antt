-- ===== src/Backup/Splits.antt =====
-- The key splits that the signer owns, decrypted for the tee.
pub mod Laws
use Prim.Native.String.{String}
use tee_relay_client.Base.{
  ℕ, zero, suc, ◌+◌, List, [], ◌∷◌, Bytes, ◌==◌, Option, none, some, if◌then◌else◌, Error, new,
  Result, ok, err, panic, wrapped, replaced, then_do, index, Go, ◌>>=◌, ◌>>◌, pure, fail, lift,
}
use tee_relay_client.Signer.{PublicKey}
use tee_relay_client.Instruction.{World, ask}
use tee_relay_client.Processor.{Processor}
use tee_relay_client.Backup.Defs.{
  BackupId, EncryptedParts, WalletBackup, KeySplit, BackupLib, PublicKey_eq,
}

-- `slices.Index`, with `none` for -1.
unfoldable pub index_of : List PublicKey → PublicKey → Option ℕ
index_of [] pk = none
index_of (key ∷ keys) pk =
    let rest = index_of keys pk in
    if key == pk then some 0 else elim rest [ none ↦ none | some i ↦ some (suc i) ]

module _ (lib : BackupLib) (base : Processor) where
  -- `decryptKeySplit`
  unfoldable pub decrypt_key_split : Bytes → Go World KeySplit
  decrypt_key_split cipher = do
    plaintext ← ask (λ t. wrapped "decrypting" (base.signer.decrypt t cipher))
    key_split ← lift (wrapped "unmarshaling key split" (lib.unmarshal_key_split plaintext))
    lift (wrapped "verifying key split signature" (lib.verify_key_split base.chain_id key_split))
    pure key_split

  -- `if wb.WalletBackupID.Equal(&keySplit.WalletBackupID) != nil { return …, errors.New(text) }`
  abbrev pub same_wallet : WalletBackup → KeySplit → String → Result (Unit {0})
  same_wallet wb split text =
      then_do (replaced text (lib.id_equal wb.wallet_backup_id split.wallet_backup_id)) λ u. ok tt

  -- A part's split at the owner's place: `Splits[index]`, decrypted and compared.
  unfoldable pub own_split : WalletBackup → EncryptedParts → ℕ → String → Go World KeySplit
  own_split wb parts i text = do
    cipher ← lift (index parts.splits i)
    split ← decrypt_key_split cipher
    lift (same_wallet wb split text)
    pure split

  abbrev pub provider_split : WalletBackup → ℕ → Go World KeySplit
  provider_split wb i =
      own_split wb wb.provider_encrypted_parts i "invalid wallet id in provider's key split"

  abbrev pub admin_split : WalletBackup → ℕ → Go World KeySplit
  admin_split wb i =
      own_split wb wb.admin_encrypted_parts i "invalid wallet id in admin's key split"

  -- The four cases of the `switch`.
  unfoldable pub plaintext_by : WalletBackup → Option ℕ → Option ℕ → Go World (Option Bytes)
  plaintext_by wb (some i) (some j) = do
    first ← provider_split wb i
    second ← admin_split wb j
    res ← lift (lib.marshal_key_splits first second)
    pure (some res)
  plaintext_by wb (some i) none = do
    split ← provider_split wb i
    res ← lift (lib.marshal_key_split split)
    pure (some res)
  plaintext_by wb none (some j) = do
    split ← admin_split wb j
    res ← lift (lib.marshal_key_split split)
    pure (some res)
  plaintext_by wb none none = pure none

  -- `plaintextForTEE`
  unfoldable pub plaintext_for_tee : WalletBackup → PublicKey → Go World (Option Bytes)
  plaintext_for_tee wb pk =
      plaintext_by wb (index_of wb.provider_encrypted_parts.owners_public_keys pk)
        (index_of wb.admin_encrypted_parts.owners_public_keys pk)
