-- ===== src/Tests/Backup.antt =====
-- The restore flows at sample requests, with libraries that answer every call.
use tee_relay_client.Base.{
  false, [], ◌∷◌, bytes, bytes_dec, nat_eq, bytes_eq, ◌==◌, if◌then◌else◌, none, some, ◌+◌, ◌≡◌,
  ◌≢◌, ◌⊎◌, ◌↔◌, refl, new, ok, err,
}
use native.Mathlib.Decide.{ℕ_discrete}
use tee_relay_client.Signer.{new_local, local_sign, sign_loop, local_decrypt, local_identify}
use tee_relay_client.Instruction.{World, sign, hashes_for_signing, hash_loop}
use tee_relay_client.Processor.{sign_and_emit, emit}
use tee_relay_client.Backup.Defs.{
  HttpResponse, BackupId, RestoreRequest, DirectRequest, WalletBackup, KeySplit, ActionResponse,
  BackupLib, PublicKey_dec, PublicKey_eq,
}
use tee_relay_client.Backup.Consistency.{
  check_consistency_direct, check_backup_ids, check_consistency, check_consistency_lem, Consistent,
  validate_action_response_direct, validate_action_response_direct_lem, Genuine,
}
use tee_relay_client.Backup.Splits.{
  index_of, decrypt_key_split, own_split, plaintext_by, plaintext_for_tee,
}
use tee_relay_client.Backup.Splits.Laws.{Composed, plaintext_for_tee-Composed}
use tee_relay_client.Backup.Restore.{
  limited_body, fetch, checked_backup, set_meta_data, forward, restore_from,
  process_data_provider_restore, genuine_response, check_envelope, process_direct_restore,
}
use tee_relay_client.Backup.Restore.Guarded.{Downloaded, fetch_lem}
use tee_relay_client.Backup.Restore.DataProvider.{
  Obtained, Sent, NotOwner, process_data_provider_restore_ok, process_data_provider_restore_failed,
}
use tee_relay_client.Backup.Restore.Direct.{Restored, process_direct_restore_ok}
use tee_relay_client.Backup.Restore.DataProvider.Success.{
  CanRestore, process_data_provider_restore_lem,
}
use tee_relay_client.Backup.Restore.Direct.Success.{CanRestoreDirect, process_direct_restore_lem}
use tee_relay_client.Tests.Samples.{test_pk, test_env, test_base, machine_a, test_world, world_with}

abbrev test_id : BackupId
test_id = record {
  tee_id = 3 ∷ [];
  wallet_id = 4 ∷ [];
  key_id = 5;
  public_key = [];
  key_type = [];
  signing_algo = [];
  reward_epoch_id = 6;
  random_nonce = [];
}

abbrev test_request : RestoreRequest
test_request = record {
  tee_public_key = test_pk;
  backup_id = test_id;
  backup_url = bytes "http://c";
}

abbrev test_direct : DirectRequest
test_direct = record {
  source_tee_id = 3 ∷ [];
  source_proxy_url = bytes "http://d/";
  backup_instruction_id = 8 ∷ [];
  backup_id = test_id;
}

-- The signer is the second provider, and no administrator.
abbrev test_backup : WalletBackup
test_backup = record {
  wallet_backup_id = test_id;
  meta_data = 1 ∷ [];
  provider_encrypted_parts = record {
    owners_public_keys = record { x = []; y = [] } ∷ test_pk ∷ [];
    splits = (1 ∷ []) ∷ (2 ∷ []) ∷ [];
  };
  admin_encrypted_parts = record { owners_public_keys = []; splits = [] };
}

abbrev test_split : KeySplit
test_split = record { wallet_backup_id = test_id; rest = [] }

abbrev test_action : ActionResponse
test_action = record {
  result = record {
    id = 8 ∷ [];
    submission_tag = 1 ∷ [];
    status = 1;
    op_type = 2 ∷ [];
    op_command = 3 ∷ [];
    payload = 9 ∷ [];
    rest = [];
  };
  signature = [];
}

abbrev pub test_lib : BackupLib
test_lib = record {
  parse_data_provider_restore = λ d. ok test_request;
  parse_direct_restore = λ d. ok test_direct;
  validate_url = λ t url. ok tt;
  new_request = λ url. ok tt;
  http_get = λ unsafe t url. ok (record { status_code = 200; content_type = []; body = 1 ∷ [] });
  decode_backup_response = λ body. ok (record { backup_id = test_id; wallet_backup = body });
  unmarshal_wallet_backup = λ body. ok test_backup;
  check_wallet_backup = λ chain_id wb. ok tt;
  id_equal = λ i j. if i.wallet_id == j.wallet_id then ok tt else err (new "fields do not match");
  marshal_meta_data = λ m. ok m;
  parse_pub_key = λ pk. ok pk;
  pubkey_to_address = λ pk. pk.x;
  encrypt = λ t plain pk. ok plain;
  unmarshal_key_split = λ plain. ok test_split;
  verify_key_split = λ chain_id s. ok tt;
  marshal_key_split = λ s. ok (7 ∷ []);
  marshal_key_splits = λ s u. ok (7 ∷ 7 ∷ []);
  decode_action_response = λ body. ok test_action;
  result_hash = λ r. r.id;
  payload_hash = λ tag chain_id hash. ok hash;
  tee_action_result = [];
  tee_key_direct_backup = [];
  verify_signature = λ hash sig tee. ok tt;
  threshold = 1 ∷ [];
  wallet_hash = 2 ∷ [];
  key_direct_backup_hash = 3 ∷ [];
  unmarshal_signed_backup = λ envelope. ok (record { payload = envelope; tee_signature = [] });
  unmarshal_payload = λ payload. ok test_id;
  keccak256 = λ b. b;
  hash_hex = λ b. b;
}

-- The only tee of the restores has the id that belongs to the request's key.
abbrev pub restoring : World
restoring = world_with (machine_a ∷ []) []

process_data_provider_restore_ok_example :
    let w' = (process_data_provider_restore test_env test_lib test_base false restoring).1 in
    (request : RestoreRequest) × (wb : WalletBackup) × (u : World) × Obtained test_env test_lib
      test_base false restoring request wb
    × (u.ib ≡ restoring.ib)
    × (u.out ≡ restoring.out)
    × (Sent test_env test_lib test_base false request wb u w'
        ⊎ NotOwner test_env test_lib test_base false wb u w')
unfolding process_data_provider_restore limited_body fetch checked_backup set_meta_data forward
    restore_from check_consistency check_backup_ids plaintext_for_tee plaintext_by own_split
    decrypt_key_split index_of PublicKey_dec local_decrypt local_identify sign_and_emit emit sign
    hashes_for_signing hash_loop new_local local_sign sign_loop bytes_dec ℕ_discrete
process_data_provider_restore_ok_example =
    process_data_provider_restore_ok test_env test_lib test_base false restoring refl

-- Two tees, where a restore is for one.
process_data_provider_restore_failed_example :
    (process_data_provider_restore test_env test_lib test_base false test_world).1.out ≡ []
unfolding process_data_provider_restore limited_body fetch checked_backup set_meta_data forward
    restore_from check_consistency check_backup_ids plaintext_for_tee plaintext_by own_split
    decrypt_key_split index_of PublicKey_dec local_decrypt local_identify sign_and_emit emit sign
    hashes_for_signing hash_loop new_local local_sign sign_loop bytes_dec ℕ_discrete
process_data_provider_restore_failed_example =
    process_data_provider_restore_failed test_env test_lib test_base false test_world (λ e. cc)

process_direct_restore_ok_example :
    Restored test_env test_lib test_base false restoring
      (process_direct_restore test_env test_lib test_base false restoring).1
unfolding process_direct_restore limited_body fetch genuine_response check_envelope
    check_consistency_direct validate_action_response_direct sign_and_emit emit sign
    hashes_for_signing hash_loop new_local local_sign sign_loop bytes_dec ℕ_discrete
process_direct_restore_ok_example =
    process_direct_restore_ok test_env test_lib test_base false restoring refl

check_consistency_lem_example :
    (check_consistency test_lib test_request test_id (machine_a ∷ []) ≡ ok tt)
    ↔ Consistent test_lib test_request test_id (machine_a ∷ [])
check_consistency_lem_example = check_consistency_lem test_lib test_request test_id (machine_a ∷ [])

validate_action_response_direct_lem_example :
    (validate_action_response_direct test_lib test_action 14 (3 ∷ []) (8 ∷ []) ≡ ok tt)
    ↔ Genuine test_lib test_action 14 (3 ∷ []) (8 ∷ [])
validate_action_response_direct_lem_example =
    validate_action_response_direct_lem test_lib test_action 14 (3 ∷ []) (8 ∷ [])

plaintext_for_tee-Composed_example :
    Composed test_lib test_base test_backup 0 (7 ∷ []) (some 1) none
unfolding plaintext_for_tee plaintext_by own_split decrypt_key_split index_of PublicKey_dec
    new_local local_decrypt bytes_dec ℕ_discrete
plaintext_for_tee-Composed_example =
    plaintext_for_tee-Composed test_lib test_base test_backup test_pk restoring (7 ∷ []) refl

process_data_provider_restore_lem_example :
    ((process_data_provider_restore test_env test_lib test_base false restoring).0 ≡ ok tt)
    ↔ CanRestore test_env test_lib test_base false restoring
process_data_provider_restore_lem_example =
    process_data_provider_restore_lem test_env test_lib test_base false restoring

process_direct_restore_lem_example :
    ((process_direct_restore test_env test_lib test_base false restoring).0 ≡ ok tt)
    ↔ CanRestoreDirect test_env test_lib test_base false restoring
process_direct_restore_lem_example =
    process_direct_restore_lem test_env test_lib test_base false restoring

-- A download of any URL by the safe client.
fetch_lem_example :
    let response : HttpResponse = record { status_code = 200; content_type = []; body = 1 ∷ [] } in
    let w = restoring in
    (((fetch test_env test_lib test_base false (1 ∷ []) w).0 ≡ ok response)
      ↔ Downloaded test_env test_lib test_base false (1 ∷ []) w response)
    × (false ≡ false
        → test_lib.validate_url w.tick (1 ∷ []) ≢ ok tt
        → (fetch test_env test_lib test_base false (1 ∷ []) w).1 ≡ record w { tick = w.tick + 1 })
fetch_lem_example = fetch_lem test_env test_lib test_base false (1 ∷ []) restoring _
