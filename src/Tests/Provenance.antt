-- ===== src/Tests/Provenance.antt =====
-- An FDC request through an assembled relay: from its log to the post.
use tee_relay_client.Base.{
  ℕ, true, false, List, All, [], ◌∷◌, Bytes, bytes_dec, Option, some, Result, ok, err, panic, Go,
  ◌≡◌, refl, sym, ap, arith,
}
use tee_relay_client.Base.Dict.{lookup, insert}
use native.Mathlib.Decide.{ℕ_discrete}
use tee_relay_client.Base.Int.{pos}
use tee_relay_client.Signer.{new_local, local_sign, sign_loop}
use tee_relay_client.Instruction.{
  Event, Instr, Log, World, zero_address, sign, hashes_for_signing, hash_loop, parse_instruction,
  parse_tee_instructions_sent, event_to_data, remove_duplicates, dedup_loop, TeeMachine_dec,
}
use tee_relay_client.Processor.{new_base, set_out, sign_and_emit, emit}
use tee_relay_client.Fdc.Verifier.{status_verified}
use tee_relay_client.Fdc.Handler.{
  handle, att_type_and_source_id, att_type_and_source_id_base, verified_response, take_verdict,
  finish, sign_response,
}
use tee_relay_client.Fdc.Queues
use tee_relay_client.Fdc.Queues.{
  new_fdc, new_fdc_handler, handler_loop, queue_loop, make_queues, join_att_type_and_source_id,
  wrap_handle,
}
use tee_relay_client.Router
use tee_relay_client.Router.{
  Kind, fdc_processor, provider, new_filterer, handle_batch, route, inst_class,
}
use tee_relay_client.Sender.{fan_out}
use tee_relay_client.Client.{
  Client, cut_prefix, private_key_from_env, set_signer, new_router, new_with_db, router_set_out,
}
use tee_relay_client.Relay.Defs.{
  routing, processing, sending, Job, Relay, idle_relay, receive, handle as handles, emit as emits,
  take, post, Runs, begun, next, collect, progress, close_sender,
}
use tee_relay_client.Relay.Shutdown.{Stops, not_stopped, one_stop}
use tee_relay_client.Relay.Work.{Queued, dropped, done, again, processed, work}
use tee_relay_client.Relay.Assembly.{ConfiguredSignature}
use tee_relay_client.Relay.Provenance.{jobs, routed_to, Provenance, new_with_db-Provenance}
use tee_relay_client.Tests.Samples.{test_key, test_env, test_event, machine_a}
use tee_relay_client.Tests.Fdc.{test_config, test_fdc, named, test_lib as fdc_lib}
use tee_relay_client.Tests.Backup.{test_lib as backup_lib}
use tee_relay_client.Tests.Client.{local_key, test_lib as client_lib}
use tee_relay_client.Tests.Config.{loaded}
use tee_relay_client.Tests.Router.{test_op}

-- The configured key, one queue and one verifier.
abbrev fdc_client : Client Bytes
fdc_client = record {
  flare_tee_manager = loaded.flare_tee_manager;
  start_interval = pos 100;
  signer = new_local test_key;
  router = record {
    filterer = provider;
    base_processor = new_base 14 (new_local test_key);
    fdc_processor = record test_fdc {
      handler = record {
        base = new_base 14 (new_local test_key);
        verifiers = test_fdc.handler.verifiers;
      };
    };
  };
  allow_unsafe_urls = false;
}

made : new_with_db client_lib named loaded local_key test_config ≡ ok fdc_client
unfolding new_with_db set_signer private_key_from_env cut_prefix new_router new_filterer new_fdc
    new_fdc_handler handler_loop queue_loop make_queues join_att_type_and_source_id lookup insert
    new_base bytes_dec ℕ_discrete
made = refl

abbrev request_event : Event
request_event = record test_event {
  tee_machines = machine_a ∷ [];
  op_type = 9 ∷ [];
  op_command = 8 ∷ [];
}

abbrev parse : Log → Result Event
parse log = ok request_event

abbrev request_log : Log
request_log = record { timestamp = 100; topic2 = []; payload = 1 ∷ [] }

-- The instruction as it is parsed, and as it is sent.
abbrev instr_with : Bytes → Bytes → List Bytes → Instr
instr_with fixed variable signatures = record {
  event = request_event;
  tees = machine_a ∷ [];
  general_data = record {
    instruction_id = 5 ∷ [];
    tee_id = zero_address;
    timestamp = 100;
    reward_epoch_id = 3;
    op_type = 9 ∷ [];
    op_command = 8 ∷ [];
    cosigners = [];
    cosigners_threshold = 0;
    original_message = 4 ∷ [];
    additional_fixed_message = fixed;
    additional_variable_message = variable;
  };
  signatures = signatures;
}

abbrev request : Instr
request = instr_with [] [] []

abbrev answer : Instr
answer = instr_with (8 ∷ 9 ∷ []) (7 ∷ 14 ∷ 8 ∷ 9 ∷ []) ((7 ∷ 14 ∷ 1 ∷ []) ∷ [])

-- One attempt at each queued instruction.
abbrev one_attempt : Go World (Unit {0}) → World → World
one_attempt f w = (f w).1

attempted :
    (f : Go World (Unit {0})) (w : World) (r : Result (Unit {0}))
    → (f w).0 ≡ r
    → Queued f w (one_attempt f w)
attempted f w (ok tt) e = done w _ e refl
attempted f w (err c) e = again w _ _ (f w).1.tick (λ q. cc) refl (dropped _)
attempted f w panic e = again w _ _ (f w).1.tick (λ q. cc) refl (dropped _)

abbrev always : Kind × Instr → ℕ
always job = 0

abbrev added : Bytes → Instr → ℕ → Result (Unit {0})
added q ib t = ok tt

abbrev fdc_jobs : Job → Option Instr
fdc_jobs =
    jobs test_env fdc_lib backup_lib test_op (λ log. ok log) parse added one_attempt always
      fdc_client

abbrev fdc_starts : Log → List Job
fdc_starts =
    routed_to test_env fdc_lib backup_lib test_op (λ log. ok log) parse added one_attempt always
      fdc_client

answers : fdc_jobs (fdc_processor, request) ≡ some answer
unfolding work processed Queues.process att_type_and_source_id_base att_type_and_source_id
    router_set_out set_out new_base wrap_handle handle verified_response take_verdict finish
    sign_response sign_and_emit emit sign hashes_for_signing hash_loop new_local local_sign
    sign_loop lookup bytes_dec ℕ_discrete status_verified
answers = refl

routes : fdc_starts request_log ≡ (fdc_processor, request) ∷ []
unfolding handle_batch Router.handle parse_instruction parse_tee_instructions_sent event_to_data
    remove_duplicates dedup_loop TeeMachine_dec route inst_class Router.filter bytes_dec ℕ_discrete
routes = refl

abbrev listened : Relay
listened = record idle_relay { c_to_r = (request_log ∷ []) ∷ []; collected = request_log ∷ [] }

abbrev posted : Relay
posted = record listened { c_to_r = []; posted = fan_out answer }

abbrev closed : Relay
closed = record posted { sender_closed = true }

posting_run : Runs fdc_starts fdc_jobs idle_relay posted
unfolding idle_relay fan_out
posting_run =
    next
      (next
        (next
          (next
            (next (next begun (collect (request_log ∷ []) (λ e. cc) (omega arith) refl))
              (progress (routing (receive (request_log ∷ []) [] refl refl refl refl))))
            (progress (
              routing (
                handles request_log [] refl
                  (ap (λ js. record listened { c_to_r = []; running = js }) (sym routes))))))
          (progress (
            processing
              (emits [] [] (fdc_processor, request) answer refl answers (omega arith) refl))))
        (progress (sending (take answer [] refl refl refl))))
      (progress (sending (post [] [] _ refl refl)))

closing : Stops fdc_starts fdc_jobs posted 1 closed
unfolding idle_relay
closing = one_stop not_stopped (close_sender refl refl)

new_with_db-Provenance_example :
    All
      (Provenance test_env fdc_lib backup_lib test_op
        (λ log. ok log)
        parse
        added
        one_attempt
        always
        fdc_client
        (ConfiguredSignature client_lib named loaded local_key test_config fdc_client)
        14
        (request_log ∷ []))
      (fan_out answer)
new_with_db-Provenance_example =
    new_with_db-Provenance test_env fdc_lib backup_lib test_op (λ log. ok log) parse added
      one_attempt always fdc_client client_lib named loaded local_key test_config made
      (λ f w. attempted f w (f w).0 refl) posting_run closing
