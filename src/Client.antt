-- ===== src/Client.antt =====
-- internal/client/client.go: the assembly of the relay from its configuration, with `NewRouter` of
-- internal/router/router.go and `PrivateKeyFromEnv` of pkg/config/config.go.
pub mod Laws
use tee_relay_client.Base.{
  ℕ, Bool, true, false, List, [], ◌∷◌, length, Bytes, bytes, bytes_eq, nat_eq, ◌==◌, Option, none,
  some, if◌then◌else◌, Error, new, Result, ok, err, wrapped, then_do, or_err,
}
use tee_relay_client.Base.Dict.{Dict}
use tee_relay_client.Base.Int.{ℤ}
use tee_relay_client.Signer.{PublicKey, Signer, Key, SignerServer, new_local, new_remote}
use tee_relay_client.Processor.{Processor, new_base, set_out}
use tee_relay_client.Fdc.Handler.{FdcHandler}
use tee_relay_client.Fdc.Queues.{Fdc, FdcConfig, new_fdc}
use tee_relay_client.Router.{Filterer, new_filterer}
use tee_relay_client.Config.{Config}
use tee_relay_client.Config.Credentials.{Credentials, Url, check}

-- The struct `Signer` of pkg/config.
pub record SignerConfig : Type 0 where
  pub credentials : Credentials
  pub local : Bool
  pub private_key_variable : Bytes

-- `strings.CutPrefix(s, "0x")` for a given second character.
unfoldable pub cut_prefix : ℕ → Bytes → Bytes
cut_prefix x [] = []
cut_prefix x (c ∷ []) = c ∷ []
cut_prefix x (c ∷ d ∷ s) = if c == 48 then (if d == x then s else c ∷ d ∷ s) else c ∷ d ∷ s

-- The environment, go-ethereum's `HexToECDSA` and key functions, `url.Parse`, the server at some
-- credentials, and go-flare-common's hash of a string.
pub record ClientLib : Type 0 where
  pub lookup_env : Bytes → Option Bytes
  pub hex_to_ecdsa : Bytes → Result Key
  pub parse_url : Bytes → Result Url
  pub server_at : Credentials → SignerServer
  pub parse_pub_key : PublicKey → Result PublicKey
  pub pubkey_to_address : PublicKey → Bytes
  pub string_to_common_hash : Bytes → Result Bytes

-- The struct `Router`: the backup processor is the base with the flag that the client keeps too.
pub record Router (Q : Type 0) : Type 0 where
  pub filterer : Filterer
  pub base_processor : Processor
  pub fdc_processor : Fdc Q

-- The struct `Client`, of whose collector it holds what is watched, and from where.
pub record Client (Q : Type 0) : Type 0 where
  pub flare_tee_manager : Bytes
  pub start_interval : ℤ
  pub signer : Signer
  pub router : Router Q
  pub allow_unsafe_urls : Bool

module _ (lib : ClientLib) where
  -- `PrivateKeyFromEnv`
  unfoldable pub private_key_from_env : Bytes → Result Key
  private_key_from_env variable_name =
      let name = if length variable_name == 0 then bytes "PRIVATE_KEY" else variable_name in
      then_do (or_err (lib.lookup_env name) (new "private key not set"))
        λ sk. lib.hex_to_ecdsa (cut_prefix 88 (cut_prefix 120 sk))

  -- `setSigner`
  unfoldable pub set_signer : SignerConfig → Result Signer
  set_signer cfg =
      if cfg.local
      then (then_do
          (wrapped "loading private key from env" (private_key_from_env cfg.private_key_variable))
          λ k. ok (new_local k))
      else then_do (wrapped "checking signer credentials" (check lib.parse_url cfg.credentials))
          λ u. ok (new_remote (lib.server_at cfg.credentials))

  module _ {P Q : Type 0} (new_queue : P → Bytes → Q) where
    -- `NewRouter`
    unfoldable pub new_router : Signer → ℕ → FdcConfig P → Filterer → Result (Router Q)
    new_router signer chain_id fdc_cfg filterer =
        let base = new_base chain_id signer in
        then_do
          (wrapped "creating FDC processor"
            (new_fdc new_queue lib.string_to_common_hash (some fdc_cfg) base))
          λ fdc. ok (record { filterer = filterer; base_processor = base; fdc_processor = fdc })

    -- `newWithDB`
    unfoldable pub new_with_db : Config → SignerConfig → FdcConfig P → Result (Client Q)
    new_with_db cfg signer_cfg fdc_cfg =
        then_do (wrapped "could not set signer" (set_signer signer_cfg)) λ sgnr.
          then_do
            (wrapped "could not set filterer"
              (new_filterer lib.parse_pub_key lib.pubkey_to_address cfg.is_cosigner sgnr 0))
            λ filterer.
              then_do
                (wrapped "could not create router" (new_router sgnr cfg.chain_id fdc_cfg filterer))
                λ r. ok (record {
                  flare_tee_manager = cfg.flare_tee_manager;
                  start_interval = cfg.start_interval;
                  signer = sgnr;
                  router = r;
                  allow_unsafe_urls = cfg.allow_unsafe_urls;
                })

-- `SetOut` of the router: the FDC handler holds the same base processor.
unfoldable pub router_set_out : {Q : Type 0} → Router Q → Router Q
router_set_out r = record r {
  base_processor = set_out r.base_processor;
  fdc_processor = record r.fdc_processor {
    handler = record r.fdc_processor.handler { base = set_out r.fdc_processor.handler.base };
  };
}
