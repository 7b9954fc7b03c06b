-- ===== src/Backup/Consistency.antt =====
-- The comparisons of a backup's identity with the request, and of an action response with what is
-- expected of it.
use Prim.Native.String.{String}
use tee_relay_client.Base.{
  ℕ, Bool, List, [], ◌∷◌, length, Bytes, bytes_eq, nat_eq, ◌==◌, ◌≡◌, ◌↔◌, refl, inl, inr,
  if◌then◌else◌, new, Result, ok, err, wrapped, then_do, Result-cases, index, arith,
}
use tee_relay_client.Signer.{PublicKey}
use tee_relay_client.Instruction.{TeeMachine}
use tee_relay_client.Backup.Defs.{BackupId, RestoreRequest, ActionResponse, BackupLib}

-- A `case` of the switch: its condition fails the check.
abbrev mismatch : Bool → String → Result (Unit {0}) → Result (Unit {0})
mismatch same text rest = if same then rest else err (new text)

-- `checkConsistencyDirect`
unfoldable pub check_consistency_direct : BackupId → BackupId → Result (Unit {0})
check_consistency_direct received requested =
    mismatch (received.tee_id == requested.tee_id) "tee IDs do not match" (
      mismatch (received.wallet_id == requested.wallet_id) "wallet IDs do not match" (
        mismatch (received.key_id == requested.key_id) "key IDs do not match" (
          mismatch (received.public_key == requested.public_key) "public keys do not match" (
            mismatch (received.key_type == requested.key_type) "key types do not match" (
              mismatch (received.signing_algo == requested.signing_algo)
                "signing algos do not match"
                (mismatch (received.reward_epoch_id == requested.reward_epoch_id)
                  "reward epochs do not match"
                  (mismatch (received.random_nonce == requested.random_nonce)
                    "random nonces do not match" (ok tt))))))))

-- `checkConsistencyDirect` passes exactly when the two backup ids are the same.
pub check_consistency_direct_lem :
    (received requested : BackupId)
    → (check_consistency_direct received requested ≡ ok tt) ↔ (received ≡ requested)
unfolding check_consistency_direct
check_consistency_direct_lem received requested = (λ h. ground arith, λ e. ground arith)

-- The cases of `checkConsistency` on the fields of the backup id.
unfoldable pub check_backup_ids : BackupId → BackupId → Result (Unit {0})
check_backup_ids requested id =
    mismatch (requested.tee_id == id.tee_id) "teeID in the request does not match" (
      mismatch (requested.wallet_id == id.wallet_id) "walletID in the request does not match" (
        mismatch (requested.key_id == id.key_id) "keyID in the request does not match" (
          mismatch (requested.public_key == id.public_key) "publicKey in the request does not match"
            (mismatch (requested.key_type == id.key_type) "keyType in the request does not match" (
              mismatch (requested.signing_algo == id.signing_algo)
                "signingAlgo in the request does not match"
                (mismatch (requested.reward_epoch_id == id.reward_epoch_id)
                  "rewardEpochID in the request does not match"
                  (mismatch (requested.random_nonce == id.random_nonce)
                    "randomNonce in the request does not match" (ok tt))))))))

check_backup_ids_lem :
    (requested id : BackupId) → (check_backup_ids requested id ≡ ok tt) ↔ (requested ≡ id)
unfolding check_backup_ids
check_backup_ids_lem requested id = (λ h. ground arith, λ e. ground arith)

module _ (lib : BackupLib) where
  -- `checkConsistency`
  unfoldable pub check_consistency : RestoreRequest → BackupId → List TeeMachine → Result (Unit {0})
  check_consistency request id tees =
      then_do (wrapped "parsing TEE public key" (lib.parse_pub_key request.tee_public_key)) λ pk.
        mismatch (length tees == 1) "restore can only be requested on one tee per instruction" (
          then_do (index tees 0) λ tee.
            mismatch (lib.pubkey_to_address pk == tee.tee_id)
              "provided public key does not match the destination tee"
              (check_backup_ids request.backup_id id))

  -- The request is for one tee, whose id belongs to the request's key, and for this backup.
  pub record Consistent (request : RestoreRequest) (id : BackupId) (tees : List TeeMachine)
      : Type 0 where
    pub pk : PublicKey
    pub parsed : lib.parse_pub_key request.tee_public_key ≡ ok pk
    pub tee : TeeMachine
    pub only : tees ≡ tee ∷ []
    pub addressed : lib.pubkey_to_address pk ≡ tee.tee_id
    pub same_backup : request.backup_id ≡ id

  check_consistency-Consistent :
      (request : RestoreRequest) (id : BackupId) (tees : List TeeMachine)
      → check_consistency request id tees ≡ ok tt
      → Consistent request id tees
  unfolding check_consistency
  check_consistency-Consistent request id [] h = absurd (ground arith)
  check_consistency-Consistent request id (tee ∷ t ∷ tees) h = absurd (ground arith)
  check_consistency-Consistent request id (tee ∷ []) h =
      elim (Result-cases (lib.parse_pub_key request.tee_public_key)) [
        | inl (pk, e) ↦ record {
          pk = pk;
          parsed = e;
          tee = tee;
          only = refl;
          addressed = ground arith;
          same_backup = ground (arith, check_backup_ids_lem request.backup_id id);
        }
        | inr bad ↦ absurd (ground arith)
      ]

  Consistent-check_consistency :
      (request : RestoreRequest) (id : BackupId) (tees : List TeeMachine)
      → Consistent request id tees
      → check_consistency request id tees ≡ ok tt
  unfolding check_consistency
  Consistent-check_consistency request id tees c =
      rw (c.only, c.parsed)
        (ground (arith, c.addressed, (check_backup_ids_lem request.backup_id id).1 c.same_backup))

  -- `checkConsistency` passes exactly when the instruction is for one tee, the request's key
  -- parses and has that tee's id as its address, and all fields of the request's backup id are
  -- those of the given one.
  pub check_consistency_lem :
      (request : RestoreRequest) (id : BackupId) (tees : List TeeMachine)
      → (check_consistency request id tees ≡ ok tt) ↔ Consistent request id tees
  check_consistency_lem request id tees =
      (check_consistency-Consistent request id tees, Consistent-check_consistency request id tees)

  -- `validateActionResponseDirect`
  unfoldable pub validate_action_response_direct :
      ActionResponse → ℕ → Bytes → Bytes → Result (Unit {0})
  validate_action_response_direct resp chain_id source_tee expected =
      then_do
        (wrapped "retrieving action result signing hash"
          (lib.payload_hash lib.tee_action_result chain_id (lib.result_hash resp.result)))
        λ hash. then_do (lib.verify_signature hash resp.signature source_tee) λ u.
          mismatch (resp.result.status == 1) "response has status" (
            mismatch (resp.result.submission_tag == lib.threshold) "response has submission tag" (
              mismatch (resp.result.id == expected) "response has unexpected ID" (
                mismatch (resp.result.op_type == lib.wallet_hash) "response has op type" (
                  mismatch (resp.result.op_command == lib.key_direct_backup_hash)
                    "response has op command" (ok tt)))))

  -- A successful threshold KEY_DIRECT_BACKUP of the expected id, signed by the source tee.
  pub record Genuine (resp : ActionResponse) (chain_id : ℕ) (source_tee expected : Bytes)
      : Type 0 where
    pub hash : Bytes
    pub hashed :
        lib.payload_hash lib.tee_action_result chain_id (lib.result_hash resp.result) ≡ ok hash
    pub signed : lib.verify_signature hash resp.signature source_tee ≡ ok tt
    pub succeeded : resp.result.status ≡ 1
    pub tagged : resp.result.submission_tag ≡ lib.threshold
    pub identified : resp.result.id ≡ expected
    pub typed : resp.result.op_type ≡ lib.wallet_hash
    pub commanded : resp.result.op_command ≡ lib.key_direct_backup_hash

  validate_action_response_direct-Genuine :
      (resp : ActionResponse) (chain_id : ℕ) (source_tee expected : Bytes)
      → validate_action_response_direct resp chain_id source_tee expected ≡ ok tt
      → Genuine resp chain_id source_tee expected
  unfolding validate_action_response_direct
  validate_action_response_direct-Genuine resp chain_id source_tee expected h =
      elim (Result-cases
        (lib.payload_hash lib.tee_action_result chain_id (lib.result_hash resp.result))) [
          | inl (hash, e) ↦
              elim (Result-cases (lib.verify_signature hash resp.signature source_tee)) [
                | inl (tt, k) ↦ record {
                  hash = hash;
                  hashed = e;
                  signed = k;
                  succeeded = ground arith;
                  tagged = ground arith;
                  identified = ground arith;
                  typed = ground arith;
                  commanded = ground arith;
                }
                | inr bad ↦ absurd (ground arith)
              ]
          | inr bad ↦ absurd (ground arith)
        ]

  Genuine-validate_action_response_direct :
      (resp : ActionResponse) (chain_id : ℕ) (source_tee expected : Bytes)
      → Genuine resp chain_id source_tee expected
      → validate_action_response_direct resp chain_id source_tee expected ≡ ok tt
  unfolding validate_action_response_direct
  Genuine-validate_action_response_direct resp chain_id source_tee expected g = ground arith

  -- `validateActionResponseDirect` passes exactly for a response that the source tee signed for
  -- this chain, with status 1, the threshold tag, the expected id, and the type and command of a
  -- direct backup.
  pub validate_action_response_direct_lem :
      (resp : ActionResponse) (chain_id : ℕ) (source_tee expected : Bytes)
      → (validate_action_response_direct resp chain_id source_tee expected ≡ ok tt)
        ↔ Genuine resp chain_id source_tee expected
  validate_action_response_direct_lem resp chain_id source_tee expected = (
    validate_action_response_direct-Genuine resp chain_id source_tee expected,
    Genuine-validate_action_response_direct resp chain_id source_tee expected,
  )
