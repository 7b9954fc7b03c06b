-- ===== src/Main/Parts.antt =====
-- The parts of `main`: the goroutines it starts, the health server and `Client.Run`.
use mathlib.Core.List.{append_assoc}
use tee_relay_client.Base.{
  Bool, true, false, List, [], ◌∷◌, ◌++◌, nat_eq, Bytes, ◌≢◌, Bool-cases, if◌then◌else◌, Option,
  none, some, ok, panic, Result-cases, ◌≡◌, ◌⊎◌, inl, inr, refl, ap, subst, arith,
}
use tee_relay_client.Config.{Config, HealthConfig, default_health_port}
use tee_relay_client.Fdc.Queues.Loops.{start_queues, process_out, drains, dequeues}
use tee_relay_client.Health.{new_status, set_started}
use tee_relay_client.Health.Lifecycle.{listen, start}
use tee_relay_client.Sender.{new_transport, default_transport, safe_transport}
use tee_relay_client.Base.Dict.{Dict}
use tee_relay_client.Base.Int.{ℤ, pos, ltb_ℤ}
use tee_relay_client.Client.{Client}
use tee_relay_client.Collector.Run.{sync_params, run_collector, new_collector}
use tee_relay_client.Main.{
  Part, collector, queue, router, sender, Act, notified, warned, spawned, Process, Outside,
  health_disabled, port_not_default, health_warning, when_some, when, warnings, queue_loops,
  address, run, start_health, must, Warning, unsafe_urls, retired_cutover,
}

-- The goroutines among what was done.
abbrev pub parts : List Act → List Part
parts [] = []
parts (spawned p ∷ acts) = p ∷ parts acts
parts (notified ∷ acts) = parts acts
parts (warned w ∷ acts) = parts acts

-- The goroutines of the queues, two for each.
abbrev pub serving : {Q : Type 0} → Dict Bytes Q → List Act
serving [] = []
serving ((name, q) ∷ rest) =
    spawned (queue (drains name)) ∷ spawned (queue (dequeues name)) ∷ serving rest

-- The goroutines of a relay's pipeline, in the order of their start.
abbrev pub pipeline : {Q : Type 0} → Client Q → List Act
pipeline c =
    spawned (collector c.start_interval) ∷ serving c.router.fdc_processor.queues
    ++ (spawned router
        ∷ spawned (sender (if c.allow_unsafe_urls then default_transport else safe_transport))
        ∷ [])

serving-start_queues :
    {Q : Type 0} (queues : Dict Bytes Q) → queue_loops (start_queues queues) ≡ serving queues
unfolding start_queues process_out
serving-start_queues [] = refl
serving-start_queues ((name, q) ∷ rest) =
    ap (λ r. spawned (queue (drains name)) ∷ spawned (queue (dequeues name)) ∷ r)
      (serving-start_queues rest)

-- What is to be warned of about the section `Health`.
pub data HealthWarned (h : HealthConfig) : List Act → Type 0 where
  off : h.disabled ≡ true → HealthWarned h (warned health_disabled ∷ [])
  moved :
      h.disabled ≡ false
      → h.port ≢ pos 8080
      → HealthWarned h (warned (port_not_default h.port) ∷ [])
  usual : h.disabled ≡ false → h.port ≡ pos 8080 → HealthWarned h []

port_order :
    (p q : ℤ)
    → (ltb_ℤ p q ≡ true) × (p ≢ q)
      ⊎ (ltb_ℤ p q ≡ false) × (ltb_ℤ q p ≡ true) × (p ≢ q)
      ⊎ (ltb_ℤ p q ≡ false) × (ltb_ℤ q p ≡ false) × (p ≡ q)
port_order p q = elim (Bool-cases (ltb_ℤ p q)) [
  | inl l ↦ inl (l, λ e. ground arith)
  | inr l ↦ elim (Bool-cases (ltb_ℤ q p)) [
    | inl g ↦ inr (inl (l, g, λ e. ground arith))
    | inr g ↦ inr (inr (l, g, ground arith))
  ]
]

pub health_warning-HealthWarned : (h : HealthConfig) → HealthWarned h (when_some (health_warning h))
unfolding health_warning
health_warning-HealthWarned h = elim (Bool-cases h.disabled) [
  | inl d ↦
      let same : some health_disabled ≡ health_warning h = ground arith in
      subst (λ w. HealthWarned h (when_some w)) same (off d)
  | inr d ↦ elim (port_order h.port (pos default_health_port)) [
    | inl (l, n) ↦
        let same : some (port_not_default h.port) ≡ health_warning h = simp (d, l) refl in
        subst (λ w. HealthWarned h (when_some w)) same (moved d n)
    | inr (inl (l, g, n)) ↦
        let same : some (port_not_default h.port) ≡ health_warning h = simp (d, l, g) refl in
        subst (λ w. HealthWarned h (when_some w)) same (moved d n)
    | inr (inr (l, g, e)) ↦
        let same : none ≡ health_warning h = simp (d, l, g) refl in
        subst (λ w. HealthWarned h (when_some w)) same (usual d e)
  ]
]

parts-append : (a b : List Act) → parts (a ++ b) ≡ parts a ++ parts b
parts-append [] b = refl
parts-append (spawned p ∷ a) b = ap (λ r. p ∷ r) (parts-append a b)
parts-append (notified ∷ a) b = parts-append a b
parts-append (warned w ∷ a) b = parts-append a b

parts-when : (b : Bool) (w : Warning) → parts (when b (warned w)) ≡ []
parts-when true w = refl
parts-when false w = refl

parts-when_some : (w : Option Warning) → parts (when_some w) ≡ []
parts-when_some none = refl
parts-when_some (some w) = refl

pub parts-warnings : (b : Bool) (cfg : Config) → parts (warnings b cfg) ≡ []
unfolding warnings
parts-warnings b cfg =
    rw
      (
        parts-append (when cfg.allow_unsafe_urls (warned unsafe_urls))
            (when b (warned retired_cutover) ++ when_some (health_warning cfg.health)),
        parts-append (when b (warned retired_cutover)) (when_some (health_warning cfg.health)),
        parts-when cfg.allow_unsafe_urls unsafe_urls,
        parts-when b retired_cutover,
        parts-when_some (health_warning cfg.health),
      )
      refl

module _ (o : Outside) where
  -- The health server is disabled, or its port can be bound.
  abbrev pub Bindable : HealthConfig → Type 0
  Bindable h = (h.disabled ≡ true) ⊎ (o.bind (o.join_host_port [] (o.itoa h.port)) ≡ ok tt)

  -- The status and the server that the probes have when the pipeline is started.
  unfoldable pub probed : HealthConfig → Process → Process
  probed h p = if h.disabled then p else record p {
    status = some (new_status h.max_indexer_lag);
    server = some (record { bound = true; registered = true; shut_down = false });
  }

  pub probed-acts : (h : HealthConfig) (p : Process) → (probed h p).acts ≡ p.acts
  unfolding probed
  probed-acts h p = ground arith

  pub start_health-Bindable :
      (h : HealthConfig) (p : Process) → Bindable h → start_health o h p ≡ (ok tt, probed h p)
  unfolding start_health probed listen start address
  start_health-Bindable h p (inl d) = simp d refl
  start_health-Bindable h p (inr s) = elim (Bool-cases h.disabled) [
    | inl d ↦ simp d refl
    | inr d ↦ simp (d, s) refl
  ]

  pub start_health-cases :
      (h : HealthConfig) (p : Process)
      → Bindable h
        ⊎ (start_health o h p ≡ (panic, record p { status = some (new_status h.max_indexer_lag) }))
  unfolding start_health listen address
  start_health-cases h p = elim (Bool-cases h.disabled) [
    | inl d ↦ inl (inl d)
    | inr d ↦ elim (Result-cases (o.bind (o.join_host_port [] (o.itoa h.port)))) [
      | inl (u, e) ↦ inl (inr e)
      | inr (inl (e, x)) ↦ inr (simp (d, x) refl)
      | inr (inr x) ↦ inr (simp (d, x) refl)
    ]
  ]

  pub run-synced :
      {Q : Type 0} (c : Client Q) (p : Process)
      → o.wait_to_sync sync_params ≡ ok tt
      → run o c p ≡ (ok tt, record p { acts = p.acts ++ pipeline c; status = set_started p.status })
  unfolding run run_collector new_collector new_transport
  run-synced c p s =
      rw (s, serving-start_queues c.router.fdc_processor.queues) (simp append_assoc refl)

  pub run-cases :
      {Q : Type 0} (c : Client Q) (p : Process)
      → (o.wait_to_sync sync_params ≡ ok tt) ⊎ (must (run o c) p ≡ (panic, p))
  unfolding run run_collector new_collector
  run-cases c p = elim (Result-cases (o.wait_to_sync sync_params)) [
    | inl (u, e) ↦ inl e
    | inr (inl (e, x)) ↦ inr (rw x refl)
    | inr (inr x) ↦ inr (rw x refl)
  ]
