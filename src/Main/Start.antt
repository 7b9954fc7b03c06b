-- ===== src/Main/Start.antt =====
-- The start of the relay: it is all prepared, or `main` panics before the pipeline.
use tee_relay_client.Base.{
  [], ◌∷◌, ◌++◌, Bytes, nat_eq, none, Result, ok, err, panic, Result-cases, ◌≡◌, ◌≢◌, ◌⊎◌, inl, inr,
  refl, ap, sym, subst, ◌∙◌, Go, ◌>>=◌, ◌>>◌, lift, arith,
}
use tee_relay_client.Config.{Config, HealthConfig}
use tee_relay_client.Config.Load.{Environment, load_config}
use tee_relay_client.Health.{startup, new_status, set_started}
use tee_relay_client.Client.{ClientLib, Client, new_with_db}
use tee_relay_client.Collector.Run.{sync_params}
use tee_relay_client.Main.{
  notified, Process, new_process, Sections, Outside, warnings, run, start_health, new_client,
  start_up, panicking, act, do_all, must,
}
use tee_relay_client.Main.Parts.{
  parts, pipeline, parts-warnings, Bindable, probed, probed-acts, start_health-Bindable,
  start_health-cases, run-synced, run-cases,
}

pub bind_ok :
    {S A B : Type 0} (m : Go S A) (f : A → Go S B) (s : S) {a : A} {t : S}
    → m s ≡ (ok a, t)
    → (m >>= f) s ≡ f a t
bind_ok {S} {A} {B} m f s e =
    ap
      (λ x. elim x.0 as (λ q. Result B × S) [
        | ok a ↦ f a x.1
        | err e' ↦ (err e', x.1)
        | panic ↦ (panic, x.1)
      ])
      e

pub bind_panic :
    {S A B : Type 0} (m : Go S A) (f : A → Go S B) (s : S) {t : S}
    → m s ≡ (panic, t)
    → (m >>= f) s ≡ (panic, t)
bind_panic {S} {A} {B} m f s e =
    ap
      (λ x. elim x.0 as (λ q. Result B × S) [
        | ok a ↦ f a x.1
        | err e' ↦ (err e', x.1)
        | panic ↦ (panic, x.1)
      ])
      e

-- A panic before any goroutine of the pipeline, with a startup probe that does not pass.
pub record Refused (r : Result (Unit {0})) (p : Process) : Type 0 where
  pub panicked : r ≡ panic
  pub nothing_runs : parts p.acts ≡ []
  pub not_started : startup p.status ≢ ok tt

module _ (o : Outside) (env : Environment) (read_to : Config → Result Config) (lib : ClientLib)
    {P Q : Type 0} (new_queue : P → Bytes → Q) (sections : Sections P) where
  -- Everything that the start depends on has succeeded.
  pub record Prepared (cfg : Config) (c : Client Q) : Type 0 where
    pub loaded : load_config env read_to ≡ ok cfg
    pub bindable : Bindable o cfg.health
    pub connected : o.connect ≡ ok tt
    pub made : new_with_db lib new_queue cfg sections.signer sections.fdc ≡ ok c
    pub synced : o.wait_to_sync sync_params ≡ ok tt

  -- The process when the configuration has been read, and when the pipeline was started.
  abbrev pub configured : Config → Process
  configured cfg = record {
    acts = notified ∷ warnings sections.relay_cutover cfg;
    status = none;
    server = none;
  }

  abbrev pub launched : Config → Client Q → Process
  launched cfg c =
      let p = probed o cfg.health (configured cfg) in
      record p { acts = p.acts ++ pipeline c; status = set_started p.status }

  -- The client that is assembled, or a panic.
  client_must :
      (cfg : Config) (p : Process)
      → ((c : Client Q) × (o.connect ≡ ok tt)
          × (new_with_db lib new_queue cfg sections.signer sections.fdc ≡ ok c)
          × (must (lift (new_client o env read_to lib new_queue sections cfg)) p ≡ (ok c, p)))
        ⊎ (must (lift (new_client o env read_to lib new_queue sections cfg)) p ≡ (panic, p))
  unfolding new_client
  client_must cfg p = elim (Result-cases o.connect) [
    | inr (inl (e, x)) ↦ inr (rw x refl)
    | inr (inr x) ↦ inr (rw x refl)
    | inl (u, x) ↦
        elim (Result-cases (new_with_db lib new_queue cfg sections.signer sections.fdc)) [
          | inr (inl (e, y)) ↦ inr (rw (x, y) refl)
          | inr (inr y) ↦ inr (rw (x, y) refl)
          | inl (c, y) ↦ inl (c, x, y, rw (x, y) refl)
        ]
  ]

  -- Up to the health server.
  abbrev before_client : Config → Go Process (Unit {0})
  before_client cfg =
      act notified >> do_all (warnings sections.relay_cutover cfg) >> start_health o cfg.health

  Refused-at :
      (cfg : Config) (m : Go Process (Unit {0})) (p : Process)
      → m new_process ≡ (panic, p)
      → p.acts ≡ (configured cfg).acts
      → startup p.status ≢ ok tt
      → Refused (m new_process).0 (m new_process).1
  Refused-at cfg m p e a n =
      subst (λ x. Refused x.0 x.1) (sym e)
        (record {
          panicked = refl;
          nothing_runs = ap parts a ∙ parts-warnings sections.relay_cutover cfg;
          not_started = n;
        })

  unstarted :
      (h : HealthConfig) (p : Process)
      → startup p.status ≢ ok tt
      → startup (probed o h p).status ≢ ok tt
  unfolding probed startup new_status
  unstarted h p n = ground arith

  abbrev make_client : Config → Go Process (Client Q)
  make_client cfg = must (lift (new_client o env read_to lib new_queue sections cfg))

  abbrev launch : Client Q → Go Process (Unit {0})
  launch cl = must (run o cl)

  -- From the configuration on.
  abbrev with_config : Config → Go Process (Unit {0})
  with_config cfg = before_client cfg >> make_client cfg >>= launch

  made_by :
      (cfg : Config) (p : Process) (r : Result (Client Q))
      → before_client cfg new_process ≡ (ok tt, p)
      → make_client cfg p ≡ (r, p)
      → (before_client cfg >> make_client cfg) new_process ≡ (r, p)
  made_by cfg p r b k = bind_ok (before_client cfg) (λ u. make_client cfg) new_process b ∙ k

  with_config-cases :
      (cfg : Config)
      → ((c : Client Q) × Bindable o cfg.health
          × (o.connect ≡ ok tt)
          × (new_with_db lib new_queue cfg sections.signer sections.fdc ≡ ok c)
          × (o.wait_to_sync sync_params ≡ ok tt)
          × (with_config cfg new_process ≡ (ok tt, launched cfg c)))
        ⊎ Refused (with_config cfg new_process).0 (with_config cfg new_process).1
  unfolding new_process startup new_status
  with_config-cases cfg = elim (start_health-cases o cfg.health (configured cfg)) [
    | inr h ↦ inr (
        Refused-at cfg (with_config cfg) _
          (bind_panic (before_client cfg >> make_client cfg) launch new_process
            (bind_panic (before_client cfg) (λ u. make_client cfg) new_process h))
          refl (λ e. cc))
    | inl h ↦
        let p = probed o cfg.health (configured cfg) in
        let start : before_client cfg new_process ≡ (ok tt, p) =
          start_health-Bindable o cfg.health (configured cfg) h in
        elim (client_must cfg p) [
          | inr k ↦ inr (
              Refused-at cfg (with_config cfg) p
                (bind_panic (before_client cfg >> make_client cfg) launch new_process
                  (made_by cfg p panic start k))
                (probed-acts o cfg.health (configured cfg))
                (unstarted cfg.health (configured cfg) (λ e. cc)))
          | inl (c, x, y, k) ↦
              let up =
                bind_ok (before_client cfg >> make_client cfg) launch new_process
                  (made_by cfg p (ok c) start k) in
              elim (run-cases o c p) [
                | inr z ↦ inr (
                    Refused-at cfg (with_config cfg) p (up ∙ z)
                      (probed-acts o cfg.health (configured cfg))
                      (unstarted cfg.health (configured cfg) (λ e. cc)))
                | inl z ↦
                    inl (c, h, x, y, z, up ∙ ap (λ q. (panicking q.0, q.1)) (run-synced o c p z))
              ]
        ]
  ]

  -- Either it is all prepared, and the pipeline is started, or nothing is.
  pub start_up-cases :
      ((cfg : Config) × (c : Client Q) × Prepared cfg c
        × (start_up o env read_to lib new_queue sections new_process ≡ (ok tt, launched cfg c)))
      ⊎ (let (r, p) = start_up o env read_to lib new_queue sections new_process in Refused r p)
  unfolding start_up new_process startup new_status
  start_up-cases = elim (Result-cases (load_config env read_to)) [
    | inr (inl (e, x)) ↦
        inr (rw x (record { panicked = refl; nothing_runs = refl; not_started = λ e. cc }))
    | inr (inr x) ↦
        inr (rw x (record { panicked = refl; nothing_runs = refl; not_started = λ e. cc }))
    | inl (cfg, l) ↦ elim (with_config-cases cfg) [
      | inl (c, h, x, y, z, done) ↦ inl (
        cfg,
        c,
        record { loaded = l; bindable = h; connected = x; made = y; synced = z },
        rw l done,
      )
      | inr r ↦ inr (rw l r)
    ]
  ]

  pub start_up-Prepared :
      (cfg : Config) (c : Client Q)
      → Prepared cfg c
      → start_up o env read_to lib new_queue sections new_process ≡ (ok tt, launched cfg c)
  unfolding start_up new_client new_process
  start_up-Prepared cfg c q =
      let p = probed o cfg.health (configured cfg) in
      let start = start_health-Bindable o cfg.health (configured cfg) q.bindable in
      let up =
        bind_ok (before_client cfg >> make_client cfg) launch new_process
          (made_by cfg p (ok c) start (rw (q.connected, q.made) refl)) in
      rw q.loaded (up ∙ ap (λ r. (panicking r.0, r.1)) (run-synced o c p q.synced))
