-- ===== src/Relay/Assembly.antt =====
-- The assembled relay (internal/client): its router's handling of a log, and its signer.
use mathlib.Core.List.{Memᴰ}
use mathlib.Core.List.Memᴰ
use tee_relay_client.Base.{
  true, [], ◌∷◌, Bytes, Option, some, Result, ok, err, panic, ◌≡◌, inl, inr, refl, subst, arith,
  ◌⊎◌, sym, false,
}
use tee_relay_client.Signer.{Key, Signer, new_remote}
use tee_relay_client.Instruction.{Event, Instr, Log, World, parse_instruction, event_to_data}
use tee_relay_client.Processor.{Env, Processor, new_base, set_out}
use tee_relay_client.Fdc.Queues.{Fdc, FdcConfig, new_fdc, new_fdc_handler}
use tee_relay_client.Router.{
  OpLib, Kind, base_processor, fdc_processor, backup_processor, Filterer, Handled, filtered_out,
  started, handle, keep_started, handle_batch,
}
use tee_relay_client.Sender.{Delivery, fan_out}
use tee_relay_client.Config.{Config}
use tee_relay_client.Client.{SignerConfig, ClientLib, Client, private_key_from_env, router_set_out}
use tee_relay_client.Client.Laws.{SignerOf, SignerOf-SignsEach, Assembled}
use tee_relay_client.Relay.Defs.{Job, jobs_of}
use tee_relay_client.Relay.Work.Vouched.{signer_of, LastAct}
use tee_relay_client.Relay.Work.Posts.{
  PostTo, LastAct-PostTo, Signature, new_local-Signature, PostTo-map,
}
use tee_relay_client.Signer.Laws.{SignsEach}
use tee_relay_client.Config.Credentials.{Usable}

module _ (op : OpLib) {ChainLog : Type 0} (convert : Log → Result ChainLog)
    (parse : ChainLog → Result Event) where
  -- An instruction as it is parsed has no message of its own yet.
  pub parse_instruction_empty :
      (log : Log) (ib : Instr)
      → parse_instruction convert parse log ≡ ok ib
      → ib.general_data.additional_fixed_message ≡ []
  unfolding parse_instruction event_to_data
  parse_instruction_empty log ib h = ground arith

  kept :
      (r : Result (Handled op)) (job : Job)
      → Memᴰ job (jobs_of (keep_started op convert parse r (ok [])))
      → r ≡ ok (started job.0 job.1)
  kept (ok filtered_out) job m = absurd (Memᴰ.not-nil m)
  kept (ok (started k ib)) job m = let same = Memᴰ.eq_of_singleton m in rw same refl
  kept (err e) job m = absurd (Memᴰ.not-nil m)
  kept panic job m = absurd (Memᴰ.not-nil m)

  pub started_by :
      (f : Option Filterer) (log : Log) (job : Job)
      → Memᴰ job (jobs_of (handle_batch op convert parse f (log ∷ [])))
      → handle op convert parse f log ≡ ok (started job.0 job.1)
  unfolding handle_batch
  started_by f log job m = kept (handle op convert parse f log) job m

-- The signer and the chain of the running processors.
module _ (lib : ClientLib) {P Q : Type 0} (new_queue : P → Bytes → Q) (cfg : Config)
    (signer_cfg : SignerConfig) (fdc_cfg : FdcConfig P) (c : Client Q) where
  -- The signature of the configured private key, or the answer of the configured server.
  abbrev pub ConfiguredSignature : Bytes → Bytes → Type 0
  ConfiguredSignature hash sig =
      (signer_cfg.local ≡ true)
        × ((k : Key) × (private_key_from_env lib signer_cfg.private_key_variable ≡ ok k)
            × (k.sign_hash hash ≡ ok sig))
      ⊎ (signer_cfg.local ≡ false)
        × Usable lib.parse_url signer_cfg.credentials
        × Signature (new_remote (lib.server_at signer_cfg.credentials)) hash sig

  SignerOf-ConfiguredSignature :
      (s : Signer) (hash sig : Bytes)
      → SignerOf lib signer_cfg s
      → Signature s hash sig
      → ConfiguredSignature hash sig
  SignerOf-ConfiguredSignature s hash sig (inl (l, (k, e, same))) g =
      inl (l, (k, e, new_local-Signature k hash sig (subst (λ x. Signature x hash sig) same g)))
  SignerOf-ConfiguredSignature s hash sig (inr (off, usable, same)) g =
      inr (off, usable, subst (λ x. Signature x hash sig) same g)

  new_fdc_base :
      (hash : Bytes → Result Bytes) (base : Processor) (f : Fdc Q)
      → new_fdc new_queue hash (some fdc_cfg) base ≡ ok f
      → f.handler.base ≡ base
  unfolding new_fdc new_fdc_handler
  new_fdc_base hash base f h = ground arith

  -- Each of the three processors has the client's signer and the configured chain.
  Assembled-signer_of :
      (kind : Kind)
      → Assembled lib new_queue cfg signer_cfg fdc_cfg c
      → let b = signer_of (router_set_out c.router) kind in
        (b.signer ≡ c.signer) × (b.chain_id ≡ cfg.chain_id)
  unfolding router_set_out set_out new_base
  Assembled-signer_of kind a =
      let fdc =
        new_fdc_base lib.string_to_common_hash c.router.base_processor c.router.fdc_processor
          a.queues in
      elim kind [
        | base_processor ↦ ground (arith, a.base)
        | fdc_processor ↦ ground (arith, a.base, fdc)
        | backup_processor ↦ ground (arith, a.base)
      ]

  -- What any of them sends.
  pub LastAct-ConfiguredSignature :
      (env : Env) (kind : Kind) (w w' : World) (r : Result Delivery)
      → Assembled lib new_queue cfg signer_cfg fdc_cfg c
      → LastAct env (signer_of (router_set_out c.router) kind) w w'
      → Memᴰ r (fan_out w'.ib)
      → PostTo env.hash_for_signing ConfiguredSignature cfg.chain_id w'.ib r
  LastAct-ConfiguredSignature env kind w w' r a last m =
      let b = signer_of (router_set_out c.router) kind in
      let (signer, chain) = Assembled-signer_of kind a in
      let each : SignsEach b.signer =
        subst SignsEach (sym signer) (SignerOf-SignsEach lib signer_cfg c.signer a.signer) in
      subst (λ n. PostTo env.hash_for_signing ConfiguredSignature n w'.ib r) chain
        (PostTo-map env.hash_for_signing (Signature b.signer) ConfiguredSignature b.chain_id w'.ib r
          (λ hash sig g.
            SignerOf-ConfiguredSignature c.signer hash sig a.signer
              (subst (λ s. Signature s hash sig) signer g))
          (LastAct-PostTo env b w w' r each last m))
