-- ===== src/Relay/Provenance.antt =====
-- The origin of what the relay posts: from the configuration (internal/client) and the collected
-- logs, through the router and the processors, to the sender.
use mathlib.Core.List.{Memᴰ}
use tee_relay_client.Base.{
  ℕ, List, [], ◌∷◌, All, All-All, Bytes, Option, some, Result, ok, Go, ◌≡◌, subst,
}
use tee_relay_client.Instruction.{Event, Instr, Log, World, parse_instruction}
use tee_relay_client.Processor.{Env}
use tee_relay_client.Fdc.Handler.{FdcLib}
use tee_relay_client.Fdc.Queues.{FdcConfig}
use tee_relay_client.Backup.Defs.{BackupLib}
use tee_relay_client.Router.{OpLib, Kind, route, handle_batch}
use tee_relay_client.Router.Laws.{Concerns, handle_started}
use tee_relay_client.Sender.{Delivery, fan_out}
use tee_relay_client.Config.{Config}
use tee_relay_client.Client.{SignerConfig, ClientLib, Client, new_with_db, router_set_out}
use tee_relay_client.Client.Laws.{new_with_db-Assembled}
use tee_relay_client.Relay.Defs.{Job, jobs_of, Relay, Runs, idle_relay}
use tee_relay_client.Relay.Shutdown.{Stops}
use tee_relay_client.Relay.Traced.{Traced}
use tee_relay_client.Relay.Traced.Laws.{Stops-Traced}
use tee_relay_client.Relay.Work.{entered, Queued, work, processed}
use tee_relay_client.Relay.Work.Vouched.{Vouched, Vouched-LastAct, signer_of, work-Vouched, LastAct}
use tee_relay_client.Relay.Work.Posts.{PostTo}
use tee_relay_client.Relay.Assembly.{
  parse_instruction_empty, started_by, ConfiguredSignature, LastAct-ConfiguredSignature,
}

-- The assembled relay: its client, and what it is built on.
module _ (env : Env) (fdc_lib : FdcLib) (backup_lib : BackupLib) (op : OpLib) {ChainLog : Type 0}
    (convert : Log → Result ChainLog) (parse : ChainLog → Result Event) {Q : Type 0}
    (add : Q → Instr → ℕ → Result (Unit {0})) (dequeue : Go World (Unit {0}) → World → World)
    (clock : Kind × Instr → ℕ) (c : Client Q) where
  -- The work of the processors, whose out channel is set.
  abbrev pub jobs : Job → Option Instr
  jobs =
      work env fdc_lib backup_lib op c.allow_unsafe_urls add dequeue (router_set_out c.router) clock

  abbrev runs_of : Job → World
  runs_of =
      processed env fdc_lib backup_lib op c.allow_unsafe_urls add dequeue (router_set_out c.router)
        clock

  -- A panic ends the process, and no job follows it.
  abbrev pub routed_to : Log → List Job
  routed_to log = jobs_of (handle_batch op convert parse (some c.router.filterer) (log ∷ []))

  -- Where a post comes from.
  pub record Provenance (Signs : Bytes → Bytes → Type 0) (chain_id : ℕ) (logs : List Log)
      (r : Result Delivery) : Type 0 where
    pub log : Log
    pub log_in : Memᴰ log logs
    pub ib : Instr
    pub parsed : parse_instruction convert parse log ≡ ok ib
    pub concerned : Concerns op convert parse (some c.router.filterer) ib.event
    pub kind : Kind
    pub routed : route op ib.event ≡ ok kind
    pub final : World
    pub vouched :
        Vouched env fdc_lib backup_lib c.allow_unsafe_urls
          (router_set_out c.router)
          kind
          (entered (clock (kind, ib)) ib)
          final
    pub post : PostTo env.hash_for_signing Signs chain_id final.ib r

  module _ (attempts : (f : Go World (Unit {0})) (w : World) → Queued f w (dequeue f w))
      (Signs : Bytes → Bytes → Type 0) (chain_id : ℕ)
      (sends : (kind : Kind) (w w' : World) (r : Result Delivery)
        → LastAct env (signer_of (router_set_out c.router) kind) w w'
        → Memᴰ r (fan_out w'.ib)
        → PostTo env.hash_for_signing Signs chain_id w'.ib r) where
    Traced-Provenance :
        (logs : List Log) (r : Result Delivery)
        → Traced routed_to jobs logs r
        → Provenance Signs chain_id logs r
    Traced-Provenance logs r t =
        let h = t.handed_on in
        let (kind, ib) = h.job in
        let (parsed, concerned, routed) =
          (handle_started op convert parse (some c.router.filterer) h.started.log kind ib).0 (
            started_by op convert parse (some c.router.filterer) h.started.log (kind, ib)
              h.started.job_in) in
        let (vouched, same) =
          work-Vouched env fdc_lib backup_lib op c.allow_unsafe_urls add dequeue
            (router_set_out c.router) clock attempts (kind, ib) t.ib
            (parse_instruction_empty op convert parse h.started.log ib parsed) h.handed_on in
        let final = runs_of (kind, ib) in
        record {
          log = h.started.log;
          log_in = h.started.log_in;
          ib = ib;
          parsed = parsed;
          concerned = concerned;
          kind = kind;
          routed = routed;
          final = final;
          vouched = vouched;
          post =
              sends kind (entered (clock (kind, ib)) ib) final r
                (Vouched-LastAct env fdc_lib backup_lib c.allow_unsafe_urls
                  (router_set_out c.router) vouched)
                (subst (λ x. Memᴰ r (fan_out x)) same t.post_in);
        }

    -- Every post of a run, and of the shutdown after it.
    all_posts :
        {s t : Relay} {n : ℕ}
        → Runs routed_to jobs idle_relay s
        → Stops routed_to jobs s n t
        → All (Provenance Signs chain_id t.collected) t.posted
    all_posts {t = t} r a =
        All-All (Traced routed_to jobs t.collected) (Provenance Signs chain_id t.collected) t.posted
          (Traced-Provenance t.collected) (Stops-Traced routed_to jobs r a)

  -- Where go-flare-common's queue does nothing but make attempts: in a relay that `newWithDB`
  -- assembled, at every moment of its run and of the shutdown after it, and in whatever order its
  -- goroutines take their steps, each post that was made comes from a log that was collected.
  -- That log parses to an instruction that concerns the filter and is routed to a processor; the
  -- instruction was vouched for by that processor, that is signed by the base processor,
  -- confirmed by the verifier that its request selects and its response signed, or restored from
  -- a backup that passed every check; and the post goes to one of its tees, at the tee's own URL,
  -- with the tee's own id and, of the hash of just that data, the signature of the configured
  -- private key or the one that the configured remote signer answered for it.
  pub new_with_db-Provenance :
      (client_lib : ClientLib) {P : Type 0} (new_queue : P → Bytes → Q) (cfg : Config)
      (signer_cfg : SignerConfig) (fdc_cfg : FdcConfig P) {s t : Relay} {n : ℕ}
      → new_with_db client_lib new_queue cfg signer_cfg fdc_cfg ≡ ok c
      → ((f : Go World (Unit {0})) (w : World) → Queued f w (dequeue f w))
      → Runs routed_to jobs idle_relay s
      → Stops routed_to jobs s n t
      → All
          (Provenance
            (ConfiguredSignature client_lib new_queue cfg signer_cfg fdc_cfg c)
            cfg.chain_id
            t.collected)
          t.posted
  new_with_db-Provenance client_lib new_queue cfg signer_cfg fdc_cfg made attempts r a =
      let assembled = new_with_db-Assembled client_lib new_queue cfg signer_cfg fdc_cfg c made in
      all_posts attempts (ConfiguredSignature client_lib new_queue cfg signer_cfg fdc_cfg c)
        cfg.chain_id
        (λ kind w w' d last m.
          LastAct-ConfiguredSignature client_lib new_queue cfg signer_cfg fdc_cfg c env kind w w' d
            assembled last m)
        r a
