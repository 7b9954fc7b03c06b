-- ===== src/Backup/Defs.antt =====
-- The data of the restore flows, and what the relay takes from other modules for them.
use tee_relay_client.Base.{ℕ, Bool, List, Bytes, Eq, bytes_eq, bytes_dec, Result}
use tee_relay_client.Signer.{PublicKey}
use tee_relay_client.Instruction.{Data}

-- `WalletBackupID` of tee-node, and the contract's `BackupId`: the same fields.
pub record BackupId : Type 0 where
  pub tee_id : Bytes
  pub wallet_id : Bytes
  pub key_id : ℕ
  pub public_key : Bytes
  pub key_type : Bytes
  pub signing_algo : Bytes
  pub reward_epoch_id : ℕ
  pub random_nonce : Bytes

-- The request of KEY_DATA_PROVIDER_RESTORE.
pub record RestoreRequest : Type 0 where
  pub tee_public_key : PublicKey
  pub backup_id : BackupId
  pub backup_url : Bytes

-- The request of KEY_DIRECT_RESTORE.
pub record DirectRequest : Type 0 where
  pub source_tee_id : Bytes
  pub source_proxy_url : Bytes
  pub backup_instruction_id : Bytes
  pub backup_id : BackupId

pub record HttpResponse : Type 0 where
  pub status_code : ℕ
  pub content_type : Bytes
  pub body : Bytes

-- The answer of the backup server, with the wallet backup still in JSON.
pub record BackupResponse : Type 0 where
  pub backup_id : BackupId
  pub wallet_backup : Bytes

pub record EncryptedParts : Type 0 where
  pub owners_public_keys : List PublicKey
  pub splits : List Bytes

pub record WalletBackup : Type 0 where
  pub wallet_backup_id : BackupId
  pub meta_data : Bytes
  pub provider_encrypted_parts : EncryptedParts
  pub admin_encrypted_parts : EncryptedParts

pub record KeySplit : Type 0 where
  pub wallet_backup_id : BackupId
  pub rest : Bytes

pub record ActionResult : Type 0 where
  pub id : Bytes
  pub submission_tag : Bytes
  pub status : ℕ
  pub op_type : Bytes
  pub op_command : Bytes
  pub payload : Bytes
  pub rest : Bytes

pub record ActionResponse : Type 0 where
  pub result : ActionResult
  pub signature : Bytes

-- `SignedKeyDirectBackup`
pub record SignedBackup : Type 0 where
  pub payload : Bytes
  pub tee_signature : Bytes

-- What tee-node, go-flare-common, go-ethereum and the network do for the restore flows. A call
-- whose answer can change from one time to the next is given the time.
pub record BackupLib : Type 0 where
  pub parse_data_provider_restore : Data → Result RestoreRequest
  pub parse_direct_restore : Data → Result DirectRequest
  -- `safeurl.Validate`
  pub validate_url : ℕ → Bytes → Result (Unit {0})
  -- `http.NewRequestWithContext`
  pub new_request : Bytes → Result (Unit {0})
  -- `client.Do` of a GET; `true` for the plain client of `allowUnsafeURLs`.
  pub http_get : Bool → ℕ → Bytes → Result HttpResponse
  pub decode_backup_response : Bytes → Result BackupResponse
  pub unmarshal_wallet_backup : Bytes → Result WalletBackup
  pub check_wallet_backup : ℕ → WalletBackup → Result (Unit {0})
  -- `WalletBackupID.Equal`
  pub id_equal : BackupId → BackupId → Result (Unit {0})
  pub marshal_meta_data : Bytes → Result Bytes
  pub parse_pub_key : PublicKey → Result PublicKey
  pub pubkey_to_address : PublicKey → Bytes
  pub encrypt : ℕ → Bytes → PublicKey → Result Bytes
  pub unmarshal_key_split : Bytes → Result KeySplit
  pub verify_key_split : ℕ → KeySplit → Result (Unit {0})
  pub marshal_key_split : KeySplit → Result Bytes
  pub marshal_key_splits : KeySplit → KeySplit → Result Bytes
  pub decode_action_response : Bytes → Result ActionResponse
  pub result_hash : ActionResult → Bytes
  -- `signing.NewPayload(tag, chainID, hash).Hash()`
  pub payload_hash : Bytes → ℕ → Bytes → Result Bytes
  pub tee_action_result : Bytes
  pub tee_key_direct_backup : Bytes
  pub verify_signature : Bytes → Bytes → Bytes → Result (Unit {0})
  pub threshold : Bytes
  pub wallet_hash : Bytes
  pub key_direct_backup_hash : Bytes
  pub unmarshal_signed_backup : Bytes → Result SignedBackup
  -- The `BackupID` of the unmarshalled `KeyDirectBackupPayload`.
  pub unmarshal_payload : Bytes → Result BackupId
  pub keccak256 : Bytes → Bytes
  pub hash_hex : Bytes → Bytes

unfoldable pub PublicKey_dec : Discrete PublicKey
unfolding bytes_dec
PublicKey_dec = hlevel bytes_dec

instance abbrev pub PublicKey_eq : Eq PublicKey
PublicKey_eq = record { dec = PublicKey_dec }
