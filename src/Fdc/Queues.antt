-- ===== src/Fdc/Queues.antt =====
-- internal/router/processors/fdc.go and fdc_queue.go: the configuration of queues and verifiers,
-- the way of an instruction into a queue, and the guard around its handler.
pub mod Setup
pub mod Served
pub mod Retries
pub mod Matched
pub mod Loops
use tee_relay_client.Base.{
  ℕ, ◌+◌, Bool, true, false, not, ◌||◌, ltb, List, [], ◌∷◌, ◌++◌, length, replicate, copy, Bytes,
  bytes_eq, nat_eq, ◌==◌, Option, none, some, if◌then◌else◌, Error, new, wrap, Result, ok, err,
  panic, wrapped, then_do, or_err, Go, ◌>>=◌, ◌>>◌, fail, lift, gets, wrapping,
}
use tee_relay_client.Base.Dict.{Dict, lookup, insert, is_some}
use tee_relay_client.Instruction.{Data, Instr, World, ask}
use tee_relay_client.Processor.{Env, Processor}
use tee_relay_client.Fdc.Handler.{
  Responder, FdcLib, FdcHandler, att_type_and_source_id_base, handle,
}

-- The configuration of a verifier (pkg/config): its server, and what its server's check says.
pub record VerifierConfig : Type 0 where
  pub att_type : Bytes
  pub source_id : Bytes
  pub queue_name : Bytes
  pub server_check : Result (Unit {0})
  pub server : Responder

-- go-flare-common's `convert.StringToCommonHash`.
module _ (string_to_common_hash : Bytes → Result Bytes) where
  -- `JoinAttTypeAndSourceID` of pkg/config: `copy(x[0:32], …)` and `copy(x[32:], …)`.
  unfoldable pub join_att_type_and_source_id : Bytes → Bytes → Result Bytes
  join_att_type_and_source_id att_type source_id =
      then_do (wrapped "att type" (string_to_common_hash att_type)) λ at'.
        then_do (wrapped "source ID" (string_to_common_hash source_id))
          λ si. ok (copy (replicate 32 0) at' ++ copy (replicate 32 0) si)

  abbrev pub identifier_of : VerifierConfig → Result Bytes
  identifier_of v = wrapped "invalid verifier" (join_att_type_and_source_id v.att_type v.source_id)

  -- The loop of `NewFDCHandler`, over the configured verifiers in the map's order. The keys of
  -- `seen` are those of `verifiers`.
  unfoldable pub handler_loop :
      Dict Bytes Bytes
      → Dict Bytes Responder
      → List (Bytes × VerifierConfig)
      → Result (Dict Bytes Responder)
  handler_loop seen verifiers [] = ok verifiers
  handler_loop seen verifiers ((name, v) ∷ rest) =
      let next = λ (identifier : Bytes).
        handler_loop (insert identifier name seen) (insert identifier v.server verifiers) rest in
      if length v.att_type == 0 || length v.source_id == 0
      then err (new "verifier: empty type or source")
      else then_do (identifier_of v) λ identifier.
        if is_some (lookup identifier seen)
        then err (new "verifiers both serve the type and source")
        else then_do (wrapped "invalid verifier server" v.server_check) λ u. next identifier

  unfoldable pub new_fdc_handler : Processor → Dict Bytes VerifierConfig → Result FdcHandler
  new_fdc_handler base configured =
      then_do (handler_loop [] [] configured)
        λ verifiers. ok (record { base = base; verifiers = verifiers })

  -- The second loop of `NewFDC`, over the same verifiers: each identifier gets its queue's name.
  unfoldable pub queue_loop :
      {Q : Type 0}
      → Dict Bytes Q
      → Dict Bytes Bytes
      → List (Bytes × VerifierConfig)
      → Result (Dict Bytes Bytes)
  queue_loop queues names [] = ok names
  queue_loop queues names ((name, v) ∷ rest) = then_do (identifier_of v) λ identifier.
      let next = queue_loop queues (insert identifier v.queue_name names) rest in
      if is_some (lookup v.queue_name queues) then next else err (new "undefined queue")

-- The struct `FDC` over the queues of go-flare-common's `priority` package.
pub record Fdc (Q : Type 0) : Type 0 where
  pub id_to_queue_name : Dict Bytes Bytes
  pub queues : Dict Bytes Q
  pub handler : FdcHandler

-- The section `[fdc]` of the configuration: `params` are the queues' parameters.
pub record FdcConfig (P : Type 0) : Type 0 where
  pub queues : Dict Bytes P
  pub verifiers : Dict Bytes VerifierConfig

module _ {P Q : Type 0} (new_queue : P → Bytes → Q) where
  -- `for name := range cfg.Queues { queues[name] = NewQueue(cfg.Queues[name], name) }`
  unfoldable pub make_queues : Dict Bytes P → Dict Bytes Q
  make_queues [] = []
  make_queues ((name, params) ∷ rest) = insert name (new_queue params name) (make_queues rest)

  unfoldable pub new_fdc :
      (Bytes → Result Bytes) → Option (FdcConfig P) → Processor → Result (Fdc Q)
  new_fdc hash none base =
      then_do (wrapped "creating FDC handler" (new_fdc_handler hash base []))
        λ handler. ok (record { id_to_queue_name = []; queues = []; handler = handler })
  new_fdc hash (some cfg) base =
      then_do (wrapped "creating FDC handler" (new_fdc_handler hash base cfg.verifiers)) λ handler.
        let queues = make_queues cfg.queues in
        then_do (queue_loop hash queues [] cfg.verifiers)
          λ names. ok (record { id_to_queue_name = names; queues = queues; handler = handler })

-- The priority queue's `Add`, at the time of the call.
module _ {Q : Type 0} (add : Q → Instr → ℕ → Result (Unit {0})) (lib : FdcLib) where
  -- `(f *FDC) Process`
  unfoldable pub process : Fdc Q → Go World (Unit {0})
  process f = do
    ib ← gets (λ (w : World). w.ib)
    id ←
        lift
          (wrapped "extracting attestation type and source ID" (att_type_and_source_id_base lib ib))
    queue_name ← lift (or_err (lookup id f.id_to_queue_name) (new "no queue for"))
    q ← lift (or_err (lookup queue_name f.queues) (new "no such queue for"))
    ask (λ t. wrapped "adding to queue" (add q ib t))

-- `(w Weight) Less`: the earlier item has the higher priority.
abbrev pub less : ℕ → ℕ → Bool
less w t = ltb t w

-- `wrapHandle`: an error is decorated, and a panic becomes an error.
unfoldable pub wrap_handle : Env → FdcLib → FdcHandler → Go World (Unit {0})
wrap_handle env lib h w =
    let (r, w') = handle env lib h w in
    elim r [
      | ok u ↦ (ok u, w')
      | err e ↦ (err (wrap "instruction" e), w')
      | panic ↦ (err (new "instruction: recovered panic"), w')
    ]
