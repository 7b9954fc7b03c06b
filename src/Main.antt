-- ===== src/Main.antt =====
-- cmd/main/main.go: `main` up to its wait for a signal, with `Client.Run` and `Client.New` of
-- internal/client/client.go. It is what the main goroutine does: a panic of a goroutine that it
-- started, as that of a listener whose first query of the state fails, ends the process.
pub mod Parts
pub mod Start
pub mod Launch
use tee_relay_client.Base.{
  ℕ, Bool, true, false, not, List, [], ◌∷◌, ◌++◌, length, Bytes, bytes_eq, nat_eq, ◌==◌, Option,
  none, some, if◌then◌else◌, Error, new, Result, ok, err, panic, wrapped, then_do, Go, ◌>>=◌, ◌>>◌,
  pure, lift, modify, wrapping,
}
use tee_relay_client.Base.Int.{ℤ, pos, ltb_ℤ}
use tee_relay_client.Config.{Config, HealthConfig, default_health_port}
use tee_relay_client.Config.Load.{Environment, load_config}
use tee_relay_client.Fdc.Queues.{FdcConfig}
use tee_relay_client.Fdc.Queues.Loops.{Loop, start_queues}
use tee_relay_client.Health.{Status, new_status, set_started}
use tee_relay_client.Health.Lifecycle.{Server, listen, start, close}
use tee_relay_client.Sender.{Transport, new_transport}
use tee_relay_client.Client.{SignerConfig, ClientLib, Client, new_with_db}
use tee_relay_client.Collector.Run.{SyncParams, Collector, new_collector, run_collector}

-- What `main` logs as a warning.
pub data Warning : Type 0 where
  unsafe_urls retired_cutover health_disabled : Warning
  port_not_default : ℤ → Warning

-- The goroutines that it starts: the listener of the collector at its start interval, the loops of
-- the queues, the loop of the router, and the one of the sender with its transport.
pub data Part : Type 0 where
  collector : ℤ → Part
  queue : Loop → Part
  router : Part
  sender : Transport → Part

pub data Act : Type 0 where
  notified : Act
  warned : Warning → Act
  spawned : Part → Act

-- What was done so far, the status behind the probes and the health server; nil is `none`.
pub record Process : Type 0 where
  pub acts : List Act
  pub status : Option Status
  pub server : Option Server

unfoldable pub new_process : Process
new_process = record { acts = []; status = none; server = none }

-- The sections of the file that `Config` leaves out: the signer's, the FDC's, whether there is a
-- retired block.
pub record Sections (P : Type 0) : Type 0 where
  pub signer : SignerConfig
  pub fdc : FdcConfig P
  pub relay_cutover : Bool

-- The standard library's texts and listening, the database's connection and its synchronization.
pub record Outside : Type 0 where
  pub join_host_port : Bytes → Bytes → Bytes
  pub itoa : ℤ → Bytes
  pub bind : Bytes → Result (Unit {0})
  pub connect : Result (Unit {0})
  pub wait_to_sync : SyncParams → Result (Unit {0})

-- `healthWarning`
unfoldable pub health_warning : HealthConfig → Option Warning
health_warning h =
    if h.disabled
    then some health_disabled
    else if ltb_ℤ h.port (pos default_health_port)
    then some (port_not_default h.port)
    else if ltb_ℤ (pos default_health_port) h.port
    then some (port_not_default h.port)
    else none

abbrev pub when_some : Option Warning → List Act
when_some none = []
when_some (some w) = warned w ∷ []

abbrev pub when : Bool → Act → List Act
when true a = a ∷ []
when false a = []

-- The three warnings at the start.
unfoldable pub warnings : Bool → Config → List Act
warnings relay_cutover cfg =
    when cfg.allow_unsafe_urls (warned unsafe_urls)
    ++ (when relay_cutover (warned retired_cutover) ++ when_some (health_warning cfg.health))

abbrev pub do_all : List Act → Go Process (Unit {0})
do_all acts = modify λ p. record p { acts = p.acts ++ acts }

abbrev pub act : Act → Go Process (Unit {0})
act a = do_all (a ∷ [])

-- `if err != nil { logger.Panicf(...) }`
abbrev pub panicking {ℓ} : {A : Type ℓ} → Result A → Result A
panicking (ok a) = ok a
panicking (err e) = panic
panicking panic = panic

abbrev pub must : {A : Type 0} → Go Process A → Go Process A
must m p = let (r, q) = m p in (panicking r, q)

abbrev pub queue_loops : List Loop → List Act
queue_loops [] = []
queue_loops (l ∷ ls) = spawned (queue l) ∷ queue_loops ls

module _ (o : Outside) where
  -- `Address` of the section `Health`
  unfoldable pub address : HealthConfig → Bytes
  address h = o.join_host_port [] (o.itoa h.port)

  -- `Client.Run`: the loops of the queues are started by the router's `Run`.
  unfoldable pub run : {Q : Type 0} → Client Q → Go Process (Unit {0})
  run c =
      wrapping "starting collector" (
        lift (run_collector o.wait_to_sync (new_collector c.flare_tee_manager c.start_interval))
        >>= λ interval. act (spawned (collector interval)))
      >> do_all (queue_loops (start_queues c.router.fdc_processor.queues))
      >> act (spawned router)
      >> act (spawned (sender (new_transport c.allow_unsafe_urls)))
      >> modify (λ p. record p { status = set_started p.status })

  -- The health server, unless it is disabled.
  unfoldable pub start_health : HealthConfig → Go Process (Unit {0})
  start_health h =
      if h.disabled
      then pure tt
      else modify (λ p. record p { status = some (new_status h.max_indexer_lag) })
        >> must (lift (listen (o.bind (address h))))
        >>= λ hs. modify λ p. record p { server = some (start hs) }

  module _ (env : Environment) (read_to : Config → Result Config) (lib : ClientLib) {P Q : Type 0}
      (new_queue : P → Bytes → Q) (sections : Sections P) where
    -- `New`
    unfoldable pub new_client : Config → Result (Client Q)
    new_client cfg =
        then_do (wrapped "could not connect to database" o.connect)
          λ u. new_with_db lib new_queue cfg sections.signer sections.fdc

    -- `main` up to the wait for a signal.
    unfoldable pub start_up : Go Process (Unit {0})
    start_up = must (lift (load_config env read_to)) >>= λ cfg.
        act notified
        >> do_all (warnings sections.relay_cutover cfg)
        >> start_health cfg.health
        >> must (lift (new_client cfg))
        >>= λ cl. must (run cl)
