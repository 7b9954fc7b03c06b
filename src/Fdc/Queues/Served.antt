-- ===== src/Fdc/Queues/Served.antt =====
-- What `NewFDC` sets up for each configured verifier, and that nothing else is set up.
use tee_relay_client.Base.{
  ℕ, zero, suc, true, List, [], ◌∷◌, get_elem?, Bytes, bytes_eq, nat_eq, Option, none, some,
  Option-cases, ◌≡◌, ◌⊎◌, inl, inr, refl, ◌∙◌, Result, ok, Result-cases, arith,
}
use tee_relay_client.Base.Dict.{Dict, lookup, insert, lookup-insert, is_some}
use tee_relay_client.Instruction.{Instr, World}
use tee_relay_client.Processor.{Env, Processor}
use tee_relay_client.Fdc.Handler.{
  Responder, FdcLib, att_type_and_source_id, att_type_and_source_id_base,
}
use tee_relay_client.Fdc.Handler.Laws.{Selected}
use tee_relay_client.Fdc.Queues.{
  VerifierConfig, Fdc, FdcConfig, identifier_of, handler_loop, queue_loop, make_queues, new_fdc,
  new_fdc_handler, process,
}
use tee_relay_client.Fdc.Queues.Setup.{
  handler_loop-Round, handler_loop-Absent, handler_loop-kept, queue_loop-kept,
}

some_of : {A : Type 0} (o : Option A) → is_some o ≡ true → (a : A) × (o ≡ some a)
some_of none h = cc
some_of (some a) h = (a, refl)

module _ (hash : Bytes → Result Bytes) where
  -- The entry's identifier is the given one, and its queue too.
  abbrev Entry : Bytes → Bytes → List (Bytes × VerifierConfig) → Type 0
  Entry id queue [] = ⊥
  Entry id queue ((name, v) ∷ rest) =
      ((identifier_of hash v ≡ ok id) × (v.queue_name ≡ queue)) ⊎ Entry id queue rest

  -- Where an entry of the list is in the list.
  Entry-at :
      (id queue : Bytes) (rest : List (Bytes × VerifierConfig))
      → Entry id queue rest
      → (i : ℕ) × (name : Bytes) × (v : VerifierConfig) × (get_elem? rest i ≡ some (name, v))
        × (identifier_of hash v ≡ ok id)
        × (v.queue_name ≡ queue)
  Entry-at id queue [] h = absurd h
  Entry-at id queue ((name, v) ∷ rest) (inl (e, q)) = (0, name, v, refl, e, q)
  Entry-at id queue ((n, u) ∷ rest) (inr h) =
      let (i, name, v, at', e, q) = Entry-at id queue rest h in (suc i, name, v, at', e, q)

module _ (hash : Bytes → Result Bytes) {Q : Type 0} where
  -- The verifier is reached by its identifier, and through the queue that its configuration names.
  pub record Served (f : Fdc Q) (v : VerifierConfig) : Type 0 where
    pub identifier : Bytes
    pub identified : identifier_of hash v ≡ ok identifier
    pub verifier : lookup identifier f.handler.verifiers ≡ some v.server
    pub queue_named : lookup identifier f.id_to_queue_name ≡ some v.queue_name
    pub queue_exists : is_some (lookup v.queue_name f.queues) ≡ true

  queue_loop-Entry :
      (queues : Dict Bytes Q) (rest : List (Bytes × VerifierConfig)) (names out : Dict Bytes Bytes)
      (id queue : Bytes)
      → queue_loop hash queues names rest ≡ ok out
      → lookup id out ≡ some queue
      → (lookup id names ≡ some queue) ⊎ Entry hash id queue rest
  unfolding queue_loop
  queue_loop-Entry queues [] names out id queue h l = inl (ground arith)
  queue_loop-Entry queues ((name, v) ∷ rest) names out id queue h l =
      elim (Result-cases (identifier_of hash v)) [
        | inl (i, e) ↦ ground (
          arith,
          queue_loop-Entry queues rest (insert i v.queue_name names) out id queue,
          lookup-insert id i v.queue_name names,
        )
        | inr bad ↦ absurd (ground arith)
      ]

  queue_loop_head :
      (queues : Dict Bytes Q) (name : Bytes) (v : VerifierConfig)
      (rest : List (Bytes × VerifierConfig)) (names out : Dict Bytes Bytes) (id : Bytes)
      → identifier_of hash v ≡ ok id
      → queue_loop hash queues names ((name, v) ∷ rest) ≡ ok out
      → (is_some (lookup v.queue_name queues) ≡ true)
        × (queue_loop hash queues (insert id v.queue_name names) rest ≡ ok out)
  unfolding queue_loop
  queue_loop_head queues name v rest names out id e h = ground arith

  loops-Served :
      (f : Fdc Q) (i : ℕ) (rest : List (Bytes × VerifierConfig)) (seen names : Dict Bytes Bytes)
      (verifiers : Dict Bytes Responder) {name : Bytes} {v : VerifierConfig}
      → handler_loop hash seen verifiers rest ≡ ok f.handler.verifiers
      → queue_loop hash f.queues names rest ≡ ok f.id_to_queue_name
      → get_elem? rest i ≡ some (name, v)
      → Served f v
  loops-Served f i [] seen names verifiers h k g = cc
  loops-Served f zero ((n, u) ∷ rest) seen names verifiers {name} {v} h k g =
      let r = handler_loop-Round hash seen verifiers n u rest _ h in
      let (exists, k') = queue_loop_head f.queues n u rest names _ r.identifier r.identified k in
      let absent =
        handler_loop-Absent hash rest _ _ _ r.identifier r.went_on
          (ground (arith, lookup-insert r.identifier r.identifier n seen)) in
      let same : u ≡ v = cc in
      rw (← same) (record {
        identifier = r.identifier;
        identified = r.identified;
        verifier =
            handler_loop-kept hash rest _ _ _ r.identifier r.went_on absent
            ∙ ground (arith, lookup-insert r.identifier r.identifier u.server verifiers);
        queue_named =
            queue_loop-kept hash f.queues rest _ _ r.identifier k' absent
            ∙ ground (arith, lookup-insert r.identifier r.identifier u.queue_name names);
        queue_exists = exists;
      })
  loops-Served f (suc i) ((n, u) ∷ rest) seen names verifiers h k g =
      let r = handler_loop-Round hash seen verifiers n u rest _ h in
      let (exists, k') = queue_loop_head f.queues n u rest names _ r.identifier r.identified k in
      loops-Served f i rest _ _ _ r.went_on k' g

  -- Both loops of `NewFDC` succeeded, over the same verifiers.
  pub new_fdc_loops :
      {P : Type 0} (new_queue : P → Bytes → Q) (cfg : FdcConfig P) (base : Processor) (f : Fdc Q)
      → new_fdc new_queue hash (some cfg) base ≡ ok f
      → (handler_loop hash [] [] cfg.verifiers ≡ ok f.handler.verifiers)
        × (queue_loop hash f.queues [] cfg.verifiers ≡ ok f.id_to_queue_name)
  unfolding new_fdc new_fdc_handler
  new_fdc_loops new_queue cfg base f h =
      elim (Result-cases (handler_loop hash [] [] cfg.verifiers)) [
        | inl (vs, e) ↦
            elim (Result-cases
              (queue_loop hash (make_queues new_queue cfg.queues) [] cfg.verifiers)) [
                | inl (names, k) ↦ ground arith
                | inr bad ↦ absurd (ground arith)
              ]
        | inr bad ↦ absurd (ground arith)
      ]

  -- In a configuration that `NewFDC` accepts, each verifier is served by its own server and its
  -- own queue, which exists: no other entry took its place.
  pub new_fdc-Served :
      {P : Type 0} (new_queue : P → Bytes → Q) (cfg : FdcConfig P) (base : Processor) (f : Fdc Q)
      (i : ℕ) (name : Bytes) (v : VerifierConfig)
      → new_fdc new_queue hash (some cfg) base ≡ ok f
      → get_elem? cfg.verifiers i ≡ some (name, v)
      → Served f v
  new_fdc-Served new_queue cfg base f i name v h g =
      let (k, l) = new_fdc_loops new_queue cfg base f h in
      loops-Served f i cfg.verifiers [] [] [] k l g

  new_fdc_complete_some :
      {P : Type 0} (new_queue : P → Bytes → Q) (cfg : FdcConfig P) (base : Processor) (f : Fdc Q)
      (id queue : Bytes)
      → new_fdc new_queue hash (some cfg) base ≡ ok f
      → lookup id f.id_to_queue_name ≡ some queue
      → (is_some (lookup queue f.queues) ≡ true) × (is_some (lookup id f.handler.verifiers) ≡ true)
  unfolding lookup
  new_fdc_complete_some new_queue cfg base f id queue h l =
      let (k, m) = new_fdc_loops new_queue cfg base f h in
      elim (queue_loop-Entry f.queues cfg.verifiers [] _ id queue m l) [
        | inl none_yet ↦ absurd (ground arith)
        | inr entry ↦
            let (i, name, v, at', e, q) = Entry-at hash id queue cfg.verifiers entry in
            let s = loops-Served f i cfg.verifiers [] [] [] k m at' in
            (rw (← q) s.queue_exists, ground (arith, e, s.identified, s.verifier))
      ]

  new_fdc_nil :
      {P : Type 0} (new_queue : P → Bytes → Q) (base : Processor) (f : Fdc Q) (id : Bytes)
      → new_fdc new_queue hash none base ≡ ok f
      → lookup id f.id_to_queue_name ≡ none
  unfolding new_fdc new_fdc_handler handler_loop lookup
  new_fdc_nil new_queue base f id h = ground arith

  -- An identifier that has a queue's name has the queue, and a verifier.
  pub new_fdc_complete :
      {P : Type 0} (new_queue : P → Bytes → Q) (cfg : Option (FdcConfig P)) (base : Processor)
      (f : Fdc Q) (id queue : Bytes)
      → new_fdc new_queue hash cfg base ≡ ok f
      → lookup id f.id_to_queue_name ≡ some queue
      → (is_some (lookup queue f.queues) ≡ true) × (is_some (lookup id f.handler.verifiers) ≡ true)
  new_fdc_complete new_queue none base f id queue h l =
      absurd (ground (arith, new_fdc_nil new_queue base f id h))
  new_fdc_complete new_queue (some cfg) base f id queue h l =
      new_fdc_complete_some new_queue cfg base f id queue h l

  -- With what `NewFDC` made of a configuration it accepted: for an instruction that `Process`
  -- queued, `Handle` decodes the request and finds a verifier.
  pub process-Selected :
      {P : Type 0} (new_queue : P → Bytes → Q) (cfg : Option (FdcConfig P)) (base : Processor)
      (f : Fdc Q) (add : Q → Instr → ℕ → Result (Unit {0})) (lib : FdcLib) (env : Env) (w : World)
      → new_fdc new_queue hash cfg base ≡ ok f
      → (process add lib f w).0 ≡ ok tt
      → Selected env lib f.handler w
  unfolding process att_type_and_source_id_base
  process-Selected new_queue cfg base f add lib env w h done =
      elim (Result-cases (lib.decode_request w.ib.general_data.original_message)) [
        | inr bad ↦ absurd (ground arith)
        | inl (request, e) ↦
            elim (Option-cases (lookup (att_type_and_source_id request) f.id_to_queue_name)) [
              | inl absent ↦ absurd (ground arith)
              | inr (queue, l) ↦
                  let (_, verifier) = new_fdc_complete new_queue cfg base f _ queue h l in
                  let (v, listed) =
                    some_of (lookup (att_type_and_source_id request) f.handler.verifiers)
                      verifier in
                  record { request = request; decoded = e; verifier = v; listed = listed }
            ]
      ]
