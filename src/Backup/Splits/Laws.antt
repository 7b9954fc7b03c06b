-- ===== src/Backup/Splits/Laws.antt =====
-- What the plaintext for a tee is made of.
use Prim.Native.String.{String}
use tee_relay_client.Base.{
  ℕ, zero, suc, ◌+◌, ◌<◌, false, List, [], ◌∷◌, length, Bytes, contains, Option, none, some, ◌≡◌,
  ◌↔◌, inl, inr, refl, ok, Result-cases, index, arith,
}
use tee_relay_client.Signer.{PublicKey}
use tee_relay_client.Instruction.{World}
use tee_relay_client.Processor.{Processor}
use tee_relay_client.Backup.Defs.{EncryptedParts, WalletBackup, KeySplit, BackupLib, PublicKey_eq}
use tee_relay_client.Backup.Splits.{
  index_of, decrypt_key_split, own_split, provider_split, admin_split, plaintext_by,
  plaintext_for_tee,
}

index_of-none :
    (keys : List PublicKey) (pk : PublicKey)
    → (index_of keys pk ≡ none) ↔ (contains keys pk ≡ false)
unfolding index_of
index_of-none [] pk = (λ h. refl, λ h. refl)
index_of-none (key ∷ keys) pk =
    let ih = index_of-none keys pk in (λ h. ground (arith, ih.0), λ h. ground (arith, ih.1))

index_of-some :
    (keys : List PublicKey) (pk : PublicKey) (i : ℕ)
    → index_of keys pk ≡ some i
    → (i < length keys) × (index keys i ≡ ok pk)
unfolding index_of
index_of-some [] pk i h = cc
index_of-some (key ∷ keys) pk zero h = (omega arith, ground arith)
index_of-some (key ∷ keys) pk (suc i) h = ground (arith, index_of-some keys pk i)

-- `slices.Index` gives a place of the key in the list, or none exactly when it is not there.
pub index_of_lem :
    (keys : List PublicKey) (pk : PublicKey)
    → ((index_of keys pk ≡ none) ↔ (contains keys pk ≡ false))
      × ((i : ℕ) → index_of keys pk ≡ some i → (i < length keys) × (index keys i ≡ ok pk))
index_of_lem keys pk = (index_of-none keys pk, index_of-some keys pk)

module _ (lib : BackupLib) (base : Processor) where
  -- Nothing that the relay answers for is changed: only the calls are counted.
  own_split_keeps :
      (wb : WalletBackup) (parts : EncryptedParts) (i : ℕ) (text : String) (w : World)
      → let w' = (own_split lib base wb parts i text w).1 in (w'.ib ≡ w.ib) × (w'.out ≡ w.out)
  unfolding own_split decrypt_key_split
  own_split_keeps wb parts i text w = ground arith

  provider_split_keeps :
      (wb : WalletBackup) (i : ℕ) (w : World)
      → let w' = (provider_split lib base wb i w).1 in (w'.ib ≡ w.ib) × (w'.out ≡ w.out)
  provider_split_keeps wb i w = own_split_keeps wb wb.provider_encrypted_parts i _ w

  admin_split_keeps :
      (wb : WalletBackup) (i : ℕ) (w : World)
      → let w' = (admin_split lib base wb i w).1 in (w'.ib ≡ w.ib) × (w'.out ≡ w.out)
  admin_split_keeps wb i w = own_split_keeps wb wb.admin_encrypted_parts i _ w

  plaintext_by_keeps :
      (wb : WalletBackup) (o p : Option ℕ) (w : World)
      → let w' = (plaintext_by lib base wb o p w).1 in (w'.ib ≡ w.ib) × (w'.out ≡ w.out)
  unfolding plaintext_by
  plaintext_by_keeps wb (some i) (some j) w = ground (
    arith,
    provider_split_keeps wb i w,
    admin_split_keeps wb j (provider_split lib base wb i w).1,
  )
  plaintext_by_keeps wb (some i) none w = ground (arith, provider_split_keeps wb i w)
  plaintext_by_keeps wb none (some j) w = ground (arith, admin_split_keeps wb j w)
  plaintext_by_keeps wb none none w = (refl, refl)

  pub plaintext_for_tee_keeps :
      (wb : WalletBackup) (pk : PublicKey) (w : World)
      → let w' = (plaintext_for_tee lib base wb pk w).1 in (w'.ib ≡ w.ib) × (w'.out ≡ w.out)
  unfolding plaintext_for_tee
  plaintext_for_tee_keeps wb pk w = plaintext_by_keeps wb _ _ w

  -- A split of the backup's part, decrypted by the signer, of the same wallet, with the key
  -- split's signature verified.
  pub record OwnSplit (wb : WalletBackup) (parts : EncryptedParts) (i : ℕ) (t : ℕ)
      (split : KeySplit) : Type 0 where
    pub cipher : Bytes
    pub listed : index parts.splits i ≡ ok cipher
    pub plaintext : Bytes
    pub decrypted : base.signer.decrypt t cipher ≡ ok plaintext
    pub parsed : lib.unmarshal_key_split plaintext ≡ ok split
    pub verified : lib.verify_key_split base.chain_id split ≡ ok tt
    pub same_wallet : lib.id_equal wb.wallet_backup_id split.wallet_backup_id ≡ ok tt

  own_split-OwnSplit :
      (wb : WalletBackup) (parts : EncryptedParts) (i : ℕ) (text : String) (w : World)
      (split : KeySplit)
      → (own_split lib base wb parts i text w).0 ≡ ok split
      → OwnSplit wb parts i w.tick split
        × ((own_split lib base wb parts i text w).1 ≡ record w { tick = w.tick + 1 })
  unfolding own_split decrypt_key_split
  own_split-OwnSplit wb parts i text w split h = elim (Result-cases (index parts.splits i)) [
    | inl (cipher, e) ↦ elim (Result-cases (base.signer.decrypt w.tick cipher)) [
      | inl (plaintext, k) ↦ elim (Result-cases (lib.unmarshal_key_split plaintext)) [
        | inl (s, l) ↦ (
          record {
            cipher = cipher;
            listed = e;
            plaintext = plaintext;
            decrypted = k;
            parsed = ground arith;
            verified = ground arith;
            same_wallet = ground arith;
          },
          ground arith,
        )
        | inr bad ↦ absurd (ground arith)
      ]
      | inr bad ↦ absurd (ground arith)
    ]
    | inr bad ↦ absurd (ground arith)
  ]

  -- The plaintext is the marshalled pair of the splits that the signer owns, or the one split.
  abbrev pub Composed : WalletBackup → ℕ → Bytes → Option ℕ → Option ℕ → Type 0
  Composed wb t pt (some i) (some j) =
      (first : KeySplit) × (second : KeySplit) × OwnSplit wb wb.provider_encrypted_parts i t first
      × OwnSplit wb wb.admin_encrypted_parts j (t + 1) second
      × (lib.marshal_key_splits first second ≡ ok pt)
  Composed wb t pt (some i) none =
      (split : KeySplit) × OwnSplit wb wb.provider_encrypted_parts i t split
      × (lib.marshal_key_split split ≡ ok pt)
  Composed wb t pt none (some j) =
      (split : KeySplit) × OwnSplit wb wb.admin_encrypted_parts j t split
      × (lib.marshal_key_split split ≡ ok pt)
  Composed wb t pt none none = ⊥

  plaintext_by-Composed :
      (wb : WalletBackup) (o p : Option ℕ) (w : World) (pt : Bytes)
      → (plaintext_by lib base wb o p w).0 ≡ ok (some pt)
      → Composed wb w.tick pt o p
  unfolding plaintext_by
  plaintext_by-Composed wb (some i) (some j) w pt h =
      elim (Result-cases (provider_split lib base wb i w).0) [
        | inl (first, e) ↦
            let (own, after) = own_split-OwnSplit wb wb.provider_encrypted_parts i _ w first e in
            elim (Result-cases (admin_split lib base wb j (record w { tick = w.tick + 1 })).0) [
              | inl (second, k) ↦ (
                first,
                second,
                own,
                (own_split-OwnSplit wb wb.admin_encrypted_parts j _ _ second k).0,
                ground arith,
              )
              | inr bad ↦ absurd (ground arith)
            ]
        | inr bad ↦ absurd (ground arith)
      ]
  plaintext_by-Composed wb (some i) none w pt h =
      elim (Result-cases (provider_split lib base wb i w).0) [
        | inl (split, e) ↦
            let (own, _) = own_split-OwnSplit wb wb.provider_encrypted_parts i _ w split e in
            (split, own, ground arith)
        | inr bad ↦ absurd (ground arith)
      ]
  plaintext_by-Composed wb none (some j) w pt h =
      elim (Result-cases (admin_split lib base wb j w).0) [
        | inl (split, e) ↦
            let (own, _) = own_split-OwnSplit wb wb.admin_encrypted_parts j _ w split e in
            (split, own, ground arith)
        | inr bad ↦ absurd (ground arith)
      ]
  plaintext_by-Composed wb none none w pt h = absurd (ground arith)

  -- A plaintext that `plaintextForTEE` gives is the splits at the places where the signer's key
  -- is listed as a provider and as an administrator, each decrypted by the signer, of the
  -- backup's wallet, and with its signature verified.
  pub plaintext_for_tee-Composed :
      (wb : WalletBackup) (pk : PublicKey) (w : World) (pt : Bytes)
      → (plaintext_for_tee lib base wb pk w).0 ≡ ok (some pt)
      → Composed wb w.tick pt
          (index_of wb.provider_encrypted_parts.owners_public_keys pk)
          (index_of wb.admin_encrypted_parts.owners_public_keys pk)
  unfolding plaintext_for_tee
  plaintext_for_tee-Composed wb pk w pt h = plaintext_by-Composed wb _ _ w pt h

  plaintext_by-none :
      (wb : WalletBackup) (o p : Option ℕ) (w : World)
      → ((plaintext_by lib base wb o p w).0 ≡ ok none) ↔ ((o ≡ none) × (p ≡ none))
  unfolding plaintext_by
  plaintext_by-none wb (some i) (some j) w =
      (λ h. absurd (ground arith), λ h. absurd (ground arith))
  plaintext_by-none wb (some i) none w = (λ h. absurd (ground arith), λ h. absurd (ground arith))
  plaintext_by-none wb none (some j) w = (λ h. absurd (ground arith), λ h. absurd (ground arith))
  plaintext_by-none wb none none w = (λ h. (refl, refl), λ h. refl)

  -- `plaintextForTEE` gives no plaintext and no error exactly when the signer's key is in neither
  -- list of owners.
  pub plaintext_for_tee-none :
      (wb : WalletBackup) (pk : PublicKey) (w : World)
      → ((plaintext_for_tee lib base wb pk w).0 ≡ ok none) ↔ (
          (contains wb.provider_encrypted_parts.owners_public_keys pk ≡ false)
          × (contains wb.admin_encrypted_parts.owners_public_keys pk ≡ false))
  unfolding plaintext_for_tee
  plaintext_for_tee-none wb pk w =
      let by =
        plaintext_by-none wb (index_of wb.provider_encrypted_parts.owners_public_keys pk)
          (index_of wb.admin_encrypted_parts.owners_public_keys pk) w in
      let provider = index_of-none wb.provider_encrypted_parts.owners_public_keys pk in
      let admin = index_of-none wb.admin_encrypted_parts.owners_public_keys pk in
      (λ h. (provider.0 (by.0 h).0, admin.0 (by.0 h).1), λ h. by.1 (provider.1 h.0, admin.1 h.1))
