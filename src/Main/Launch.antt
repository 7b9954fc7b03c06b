-- ===== src/Main/Launch.antt =====
-- What the main goroutine has started when it comes to wait for a signal.
use tee_relay_client.Base.{
  List, true, false, some, ◌∷◌, ◌++◌, Bytes, Result, ok, ◌≡◌, ◌≢◌, inl, inr, refl, sym, subst,
  arith,
}
use tee_relay_client.Config.{Config, HealthConfig}
use tee_relay_client.Config.Load.{Environment}
use tee_relay_client.Config.Load.Laws.{Loaded, load_config-Loaded}
use tee_relay_client.Client.{ClientLib, Client}
use tee_relay_client.Client.Laws.{Assembled, new_with_db-Assembled}
use tee_relay_client.Health.{Status, new_status, set_started, zero_time}
use tee_relay_client.Health.Lifecycle.{Server}
use tee_relay_client.Main.{
  notified, warned, unsafe_urls, retired_cutover, Act, when, when_some, health_warning, Process,
  new_process, Sections, Outside, warnings, start_up,
}
use tee_relay_client.Main.Parts.{
  pipeline, HealthWarned, health_warning-HealthWarned, probed, probed-acts,
}
use tee_relay_client.Main.Start.{
  Prepared, Refused, configured, launched, start_up-cases, start_up-Prepared,
}

-- The health server serves the probes of a status of a started relay with the configured lag.
pub record Serving (h : HealthConfig) (p : Process) : Type 0 where
  pub status : Status
  pub has_status : p.status ≡ some status
  pub started : status.started ≡ true
  pub lag : status.max_lag ≡ h.max_indexer_lag
  pub server : Server
  pub has_server : p.server ≡ some server
  pub bound : server.bound ≡ true
  pub registered : server.registered ≡ true

module _ (o : Outside) (env : Environment) (read_to : Config → Result Config) (lib : ClientLib)
    {P Q : Type 0} (new_queue : P → Bytes → Q) (sections : Sections P) where
  -- The relay's pipeline was started behind the warnings, and the probes are served unless the
  -- health server is disabled.
  pub record Launched (cfg : Config) (c : Client Q) (r : Result (Unit {0})) (p : Process)
      : Type 0 where
    pub returned : r ≡ ok tt
    pub valid : Loaded env read_to cfg
    pub assembled : Assembled lib new_queue cfg sections.signer sections.fdc c
    pub health : List Act
    pub health_warned : HealthWarned cfg.health health
    pub done :
        p.acts
        ≡ (notified ∷ when cfg.allow_unsafe_urls (warned unsafe_urls)
            ++ (when sections.relay_cutover (warned retired_cutover) ++ health))
          ++ pipeline c
    pub served : cfg.health.disabled ≡ false → Serving cfg.health p

  launched-Serving :
      (cfg : Config) (c : Client Q)
      → cfg.health.disabled ≡ false
      → Serving cfg.health (launched o env read_to lib new_queue sections cfg c)
  unfolding probed set_started new_status
  launched-Serving cfg c h = record {
    status = record {
      started = true;
      block = 0;
      block_time = zero_time;
      max_lag = cfg.health.max_indexer_lag;
    };
    has_status = ground arith;
    started = refl;
    lag = refl;
    server = record { bound = true; registered = true; shut_down = false };
    has_server = ground arith;
    bound = refl;
    registered = refl;
  }

  launched-acts :
      (cfg : Config) (c : Client Q)
      → (launched o env read_to lib new_queue sections cfg c).acts
        ≡ (configured o env read_to lib new_queue sections cfg).acts ++ pipeline c
  launched-acts cfg c =
      rw (probed-acts o cfg.health (configured o env read_to lib new_queue sections cfg)) refl

  launched-Launched :
      (cfg : Config) (c : Client Q)
      → Prepared o env read_to lib new_queue sections cfg c
      → Launched cfg c (ok tt) (launched o env read_to lib new_queue sections cfg c)
  unfolding warnings
  launched-Launched cfg c q = record {
    returned = refl;
    valid = load_config-Loaded env read_to cfg q.loaded;
    assembled = new_with_db-Assembled lib new_queue cfg sections.signer sections.fdc c q.made;
    health = when_some (health_warning cfg.health);
    health_warned = health_warning-HealthWarned cfg.health;
    done = launched-acts cfg c;
    served = launched-Serving cfg c;
  }

  -- Where the configuration loads, the health server is disabled or its port can be bound, the
  -- database connects, the client can be assembled and the indexer is in sync: the main goroutine
  -- comes to wait for a signal, unless a panic of a goroutine that it started ends the process.
  -- Then its configuration passed every check, its client is assembled as that configuration
  -- says, and behind the warnings, of unsafe URLs, of the retired block, and of health endpoints
  -- that are disabled or not at port 8080, it has started the listener at the configured
  -- interval, the two loops of each queue, the router, and the sender with a transport that is
  -- the safe one unless the client allows unsafe URLs. Unless it is disabled, the health server
  -- is bound and serves the probes of a started relay with the configured lag.
  pub start_up-Launched :
      (cfg : Config) (c : Client Q)
      → Prepared o env read_to lib new_queue sections cfg c
      → let (r, p) = start_up o env read_to lib new_queue sections new_process in Launched cfg c r p
  start_up-Launched cfg c q =
      subst (λ x. Launched cfg c x.0 x.1)
        (sym (start_up-Prepared o env read_to lib new_queue sections cfg c q))
        (launched-Launched cfg c q)

  -- Where the main goroutine does not come to wait for a signal, and no other goroutine ended the
  -- process, it panicked, none of the pipeline's goroutines was started, and `Startup` does not
  -- pass.
  pub start_up-Refused :
      (start_up o env read_to lib new_queue sections new_process).0 ≢ ok tt
      → let (r, p) = start_up o env read_to lib new_queue sections new_process in Refused r p
  start_up-Refused h = elim (start_up-cases o env read_to lib new_queue sections) [
    | inl (cfg, c, q, up) ↦ absurd (h (start_up-Launched cfg c q).returned)
    | inr r ↦ r
  ]
