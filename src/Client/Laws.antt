-- ===== src/Client/Laws.antt =====
-- What the assembled relay consists of.
use tee_relay_client.Base.{
  Bool, true, false, Bytes, some, ok, Result-cases, Bool-cases, ◌≡◌, String, ◌⊎◌, inl, inr, refl,
  arith,
}
use tee_relay_client.Signer.{PublicKey, Signer, Key, new_local, new_remote}
use tee_relay_client.Signer.Laws.{SignsEach, new_local-SignsEach, new_remote-SignsEach}
use tee_relay_client.Processor.{new_base, Env, set_out, sign_and_emit}
use tee_relay_client.Fdc.Queues.{FdcConfig, new_fdc}
use tee_relay_client.Router.{Filterer, provider, cosigner, new_filterer}
use tee_relay_client.Config.{Config}
use tee_relay_client.Config.Credentials.{check, Usable, check_lem}
use tee_relay_client.Instruction.{World}
use tee_relay_client.Instruction.Signing.{Signed-length}
use tee_relay_client.Processor.Laws.{Emitted, sign_and_emit-Emitted}
use tee_relay_client.Sender.{fan_out}
use tee_relay_client.Sender.Laws.{deliveries, fan_out-deliveries}
use tee_relay_client.Client.{
  SignerConfig, ClientLib, Client, router_set_out, private_key_from_env, set_signer, new_router,
  new_with_db,
}

module _ (lib : ClientLib) where
  -- The signer is the configured one: the key of the environment, or a server that can be reached.
  abbrev pub SignerOf : SignerConfig → Signer → Type 0
  SignerOf cfg s =
      (cfg.local ≡ true)
        × ((k : Key) × (private_key_from_env lib cfg.private_key_variable ≡ ok k)
            × (s ≡ new_local k))
      ⊎ (cfg.local ≡ false)
        × Usable lib.parse_url cfg.credentials
        × (s ≡ new_remote (lib.server_at cfg.credentials))

  set_signer-SignerOf :
      (cfg : SignerConfig) (s : Signer) → set_signer lib cfg ≡ ok s → SignerOf cfg s
  unfolding set_signer
  set_signer-SignerOf cfg s h = elim (Bool-cases cfg.local) [
    | inl l ↦ elim (Result-cases (private_key_from_env lib cfg.private_key_variable)) [
      | inl (k, e) ↦ inl (l, (k, e, ground arith))
      | inr bad ↦ absurd (ground arith)
    ]
    | inr l ↦ elim (Result-cases (check lib.parse_url cfg.credentials)) [
      | inl (tt, e) ↦ inr (l, (check_lem lib.parse_url cfg.credentials).0 e, ground arith)
      | inr bad ↦ absurd (ground arith)
    ]
  ]

  pub SignerOf-SignsEach : (cfg : SignerConfig) (s : Signer) → SignerOf cfg s → SignsEach s
  SignerOf-SignsEach cfg s (inl (l, (k, e, same))) = rw same (new_local-SignsEach k)
  SignerOf-SignsEach cfg s (inr (l, u, same)) =
      rw same (new_remote-SignsEach (lib.server_at cfg.credentials))

  -- A data provider processes all instructions, and a cosigner those that name its signer's address.
  abbrev pub FiltererOf : Bool → Signer → Filterer → Type 0
  FiltererOf false s f = f ≡ provider
  FiltererOf true s f =
      (id : PublicKey) × (pk : PublicKey) × (s.identify 0 ≡ ok id)
      × (lib.parse_pub_key id ≡ ok pk)
      × (f ≡ cosigner (lib.pubkey_to_address pk))

  new_filterer-FiltererOf :
      (is_cosigner : Bool) (s : Signer) (f : Filterer)
      → new_filterer lib.parse_pub_key lib.pubkey_to_address is_cosigner s 0 ≡ ok f
      → FiltererOf is_cosigner s f
  unfolding new_filterer
  new_filterer-FiltererOf false s f h = ground arith
  new_filterer-FiltererOf true s f h = elim (Result-cases (s.identify 0)) [
    | inl (id, e) ↦ elim (Result-cases (lib.parse_pub_key id)) [
      | inl (pk, k) ↦ (id, pk, e, k, ground arith)
      | inr bad ↦ absurd (ground arith)
    ]
    | inr bad ↦ absurd (ground arith)
  ]

  module _ {P Q : Type 0} (new_queue : P → Bytes → Q) (cfg : Config) (signer_cfg : SignerConfig)
      (fdc_cfg : FdcConfig P) where
    pub record Assembled (c : Client Q) : Type 0 where
      pub signer : SignerOf signer_cfg c.signer
      pub filterer : FiltererOf cfg.is_cosigner c.signer c.router.filterer
      pub base : c.router.base_processor ≡ new_base cfg.chain_id c.signer
      pub queues :
          new_fdc new_queue lib.string_to_common_hash (some fdc_cfg) c.router.base_processor
          ≡ ok c.router.fdc_processor
      pub watched :
          (c.flare_tee_manager ≡ cfg.flare_tee_manager) × (c.start_interval ≡ cfg.start_interval)
      pub urls : c.allow_unsafe_urls ≡ cfg.allow_unsafe_urls

    pub new_with_db-Assembled :
        (c : Client Q) → new_with_db lib new_queue cfg signer_cfg fdc_cfg ≡ ok c → Assembled c
    unfolding new_with_db new_router
    new_with_db-Assembled c h = elim (Result-cases (set_signer lib signer_cfg)) [
      | inr bad ↦ absurd (ground arith)
      | inl (s, e) ↦
          elim (Result-cases
            (new_filterer lib.parse_pub_key lib.pubkey_to_address cfg.is_cosigner s 0)) [
              | inr bad ↦ absurd (ground arith)
              | inl (f, k) ↦
                  elim (Result-cases (
                    new_fdc new_queue lib.string_to_common_hash (some fdc_cfg)
                      (new_base cfg.chain_id s))) [
                        | inr bad ↦ absurd (ground arith)
                        | inl (fdc, l) ↦
                            let made : Client Q = record {
                              flare_tee_manager = cfg.flare_tee_manager;
                              start_interval = cfg.start_interval;
                              signer = s;
                              router = record {
                                filterer = f;
                                base_processor = new_base cfg.chain_id s;
                                fdc_processor = fdc;
                              };
                              allow_unsafe_urls = cfg.allow_unsafe_urls;
                            } in
                            let same : made ≡ c = ground arith in
                            rw (← same) (record {
                              signer = set_signer-SignerOf signer_cfg s e;
                              filterer = new_filterer-FiltererOf cfg.is_cosigner s f k;
                              base = refl;
                              queues = l;
                              watched = (refl, refl);
                              urls = refl;
                            })
                      ]
            ]
    ]

    -- The signer of the running processors keeps its contract.
    running-SignsEach :
        (c : Client Q) → Assembled c → SignsEach (router_set_out c.router).base_processor.signer
    unfolding router_set_out set_out new_base
    running-SignsEach c a = rw a.base (SignerOf-SignsEach signer_cfg c.signer a.signer)

    -- In a relay that `newWithDB` assembled, with the local or the remote signer: when a
    -- processor's end succeeds on an instruction, the sender prepares, without an error or a
    -- panic, for each tee the payload with the tee's own id and a signature of its own.
    pub new_with_db-deliveries :
        (c : Client Q) (text : String) (env : Env) (w : World)
        → new_with_db lib new_queue cfg signer_cfg fdc_cfg ≡ ok c
        → (sign_and_emit text env (router_set_out c.router).base_processor w).0 ≡ ok tt
        → let ib = (sign_and_emit text env (router_set_out c.router).base_processor w).1.ib in
          fan_out ib ≡ deliveries ib.general_data ib.tees ib.signatures
    new_with_db-deliveries c text env w made done =
        let b = (router_set_out c.router).base_processor in
        let d : Emitted env b w (sign_and_emit text env b w).1 =
          sign_and_emit-Emitted env b text w done in
        let each = running-SignsEach c (new_with_db-Assembled c made) in
        fan_out-deliveries (sign_and_emit text env b w).1.ib (
          rw d.ib_kept
            (Signed-length env.hash_for_signing b.signer b.chain_id w d.mid each d.signed))
