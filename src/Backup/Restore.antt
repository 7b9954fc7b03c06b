-- ===== src/Backup/Restore.antt =====
-- The two restore flows, and `Process`, which chooses between them.
pub mod Parts
pub mod Guarded
pub mod DataProvider
pub mod Direct
use Prim.Native.String.{String}
use tee_relay_client.Base.{
  ℕ, zero, suc, ◌+◌, Bool, true, false, not, List, [], ◌∷◌, ◌++◌, length, take, Bytes, bytes,
  bytes_eq, nat_eq, ◌==◌, Option, none, some, if◌then◌else◌, Error, new, wrap, Result, ok, err,
  panic, wrapped, replaced, then_do, Go, ◌>>=◌, ◌>>◌, pure, fail, fail_if, lift, gets, modify,
  wrapping,
}
use tee_relay_client.Signer.{PublicKey, Signer}
use tee_relay_client.Instruction.{Data, Instr, TeeMachine, World, ask}
use tee_relay_client.Processor.{Env, Processor, sign_and_emit}
use tee_relay_client.Fdc.Handler.{set_fixed_message, set_variable_message}
use tee_relay_client.Backup.Defs.{
  BackupId, RestoreRequest, DirectRequest, HttpResponse, BackupResponse, WalletBackup,
  ActionResponse, SignedBackup, BackupLib,
}
use tee_relay_client.Backup.Consistency.{
  check_consistency, check_consistency_direct, validate_action_response_direct,
}
use tee_relay_client.Backup.Splits.{plaintext_for_tee}

abbrev pub size_limit_data_provider_restore : ℕ
size_limit_data_provider_restore = 2097152

abbrev pub size_limit_direct_restore : ℕ
size_limit_direct_restore = 102400

-- The body as far as its `io.LimitedReader` reads, or the error for a status that is not 200.
unfoldable pub limited_body : ℕ → HttpResponse → Result Bytes
limited_body limit resp =
    if resp.status_code == 200
    then ok (take limit resp.body)
    else err (new "request responded with code")

-- `strings.TrimRight(s, "/")`
unfoldable pub trim_slashes : Bytes → Bytes
trim_slashes [] = []
trim_slashes (c ∷ s) = elim (trim_slashes s) [
  | [] ↦ if c == 47 then [] else c ∷ []
  | d ∷ t ↦ c ∷ d ∷ t
]

-- `op.KeyDataProviderRestore` and `op.KeyDirectRestore`, and `op.HashToOPCommand`.
pub record Commands : Type 0 where
  pub hash_to_command : Bytes → Bytes
  pub key_data_provider_restore : Bytes
  pub key_direct_restore : Bytes

module _ (env : Env) (lib : BackupLib) (base : Processor) (allow_unsafe_urls : Bool) where
  -- Validation of the URL against SSRF, and the GET by the matching client. Both flows do this, with
  -- texts of their own around an error.
  unfoldable pub fetch : Bytes → Go World HttpResponse
  fetch url = do
    if allow_unsafe_urls
        then pure tt
        else ask (λ t. wrapped "validating URL" (lib.validate_url t url))
    lift (wrapped "creating request" (lib.new_request url))
    ask (λ t. wrapped "fetching" (lib.http_get allow_unsafe_urls t url))

  -- From the decoding of the response to the comparison of the ids.
  unfoldable pub checked_backup : RestoreRequest → List TeeMachine → Bytes → Result WalletBackup
  checked_backup request tees body =
      then_do (wrapped "decoding backup response" (lib.decode_backup_response body)) λ response.
        then_do
          (wrapped "backup package inconsistent with the request"
            (check_consistency lib request response.backup_id tees))
          λ u.
            then_do
              (wrapped "unmarshaling wallet backup"
                (lib.unmarshal_wallet_backup response.wallet_backup))
              λ wb.
                then_do
                  (wrapped "checking wallet backup" (lib.check_wallet_backup base.chain_id wb))
                  λ u.
                    then_do
                      (replaced "backup package wallet id does not match"
                        (lib.id_equal response.backup_id wb.wallet_backup_id))
                      λ u. ok wb

  abbrev marshalled : Result Bytes → Bytes
  marshalled (ok m) = m
  marshalled (err e) = []
  marshalled panic = []

  -- The assignment `ib.GeneralData.AdditionalFixedMessage, err = json.Marshal(…)`.
  unfoldable pub set_meta_data : WalletBackup → Go World (Unit {0})
  set_meta_data wb w =
      let r = wrapped "marshaling wallet backup metadata" (lib.marshal_meta_data wb.meta_data) in
      (then_do r (λ m. ok tt), set_fixed_message (marshalled r) w)

  -- The encryption for the tee, and the end.
  unfoldable pub forward : RestoreRequest → Bytes → Go World (Unit {0})
  forward request pt = do
    tee_pk ← lift (wrapped "parsing TEE public key" (lib.parse_pub_key request.tee_public_key))
    cipher ← ask (λ t. wrapped "encrypting for TEE" (lib.encrypt t pt tee_pk))
    modify (set_variable_message cipher)
    sign_and_emit "signing" env base

  abbrev pub forward_some : RestoreRequest → Option Bytes → Go World (Unit {0})
  forward_some request none = pure tt
  forward_some request (some pt) = forward request pt

  -- `processDataProviderRestore`, from the checked backup on.
  unfoldable pub restore_from : RestoreRequest → WalletBackup → Go World (Unit {0})
  restore_from request wb = do
    set_meta_data wb
    pk ← ask (λ t. wrapped "identifying signer" (base.signer.identify t))
    pt ← plaintext_for_tee lib base wb pk
    forward_some request pt

  -- `processDataProviderRestore`
  unfoldable pub process_data_provider_restore : Go World (Unit {0})
  process_data_provider_restore = do
    ib ← gets (λ (w : World). w.ib)
    request ←
        lift (wrapped "decoding restore request" (lib.parse_data_provider_restore ib.general_data))
    resp ← fetch request.backup_url
    body ← lift (limited_body size_limit_data_provider_restore resp)
    wb ← lift (checked_backup request ib.tees body)
    restore_from request wb

  -- The response of the source proxy, checked against the request.
  unfoldable pub genuine_response : DirectRequest → Bytes → Result ActionResponse
  genuine_response req body =
      then_do (wrapped "decoding action response" (lib.decode_action_response body)) λ resp.
        then_do
          (wrapped "validating backup action response" (
            validate_action_response_direct lib resp base.chain_id req.source_tee_id
              req.backup_instruction_id))
          λ u. ok resp

  -- The checks of the envelope in the response's data.
  unfoldable pub check_envelope : DirectRequest → Bytes → Result (Unit {0})
  check_envelope req envelope =
      then_do (wrapped "unmarshaling SignedKeyDirectBackup" (lib.unmarshal_signed_backup envelope))
        λ skdb.
          then_do
            (wrapped "retrieving SignedKeyDirectBackup Payload hash" (
              lib.payload_hash lib.tee_key_direct_backup base.chain_id
                (lib.keccak256 skdb.payload)))
            λ hash.
              then_do
                (wrapped "verifying SignedKeyDirectBackup signature against source TEE"
                  (lib.verify_signature hash skdb.tee_signature req.source_tee_id))
                λ u.
                  then_do
                    (wrapped "unmarshaling KeyDirectBackupPayload"
                      (lib.unmarshal_payload skdb.payload))
                    λ id. wrapped "checking consistency" (check_consistency_direct id req.backup_id)

  -- `strings.TrimRight(req.SourceProxyUrl, "/") + "/action/result/" + backupActionID.Hex()`
  abbrev pub result_url : DirectRequest → Bytes
  result_url req =
      trim_slashes req.source_proxy_url
      ++ (bytes "/action/result/" ++ lib.hash_hex req.backup_instruction_id)

  -- `processDirectRestore`
  unfoldable pub process_direct_restore : Go World (Unit {0})
  process_direct_restore = do
    ib ← gets (λ (w : World). w.ib)
    fail_if (not (length ib.tees == 1)) (new "direct restore is only possible to one destination")
    req ←
        lift (wrapped "decoding direct restore request" (lib.parse_direct_restore ib.general_data))
    resp ← fetch (result_url req)
    body ← lift (limited_body size_limit_direct_restore resp)
    action ← lift (genuine_response req body)
    modify (set_fixed_message action.result.payload)
    lift (check_envelope req action.result.payload)
    sign_and_emit "signing" env base

  -- `(b *Backup) Process`
  unfoldable pub process : Commands → Go World (Unit {0})
  process c w =
      let command = c.hash_to_command w.ib.event.op_command in
      if command == c.key_data_provider_restore
      then process_data_provider_restore w
      else if command == c.key_direct_restore
      then process_direct_restore w
      else fail (new "backup processor: unsupported op command") w
