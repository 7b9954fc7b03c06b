-- ===== src/Tests/Whole.antt =====
-- A relay that watches a chain with one log.
use mathlib.Core.List.{Subset, Perm}
use tee_relay_client.Base.{
  flat_map, ◌<◌, ◌≡◌, ◌⊎◌, List, bytes_dec, [], ◌∷◌, refl, none, Result, ok, arith,
}
use native.Mathlib.Decide.{ℕ_discrete}
use tee_relay_client.Instruction.{Event, Log, parse_instruction, parse_tee_instructions_sent}
use tee_relay_client.Collector.Window.{window_start, to_int64}
use tee_relay_client.Collector.Damper.{new_damper, fail, recover}
use tee_relay_client.Collector.Listener.{Tick, start, send, received, observed, round, rounds}
use tee_relay_client.Relay.Defs.{
  Job, routing, processing, sending, receive, handle, emit, take, post, Relay, idle_relay, IsIdle,
}
use tee_relay_client.Relay.Progress.{Advances, Progresses, steps_left, none_yet, one_more}
use tee_relay_client.Relay.Whole.{starts}
use tee_relay_client.Relay.Delivery.{job_posts}
use tee_relay_client.Relay.System.{
  System, Turn, quiet, sends, Together, begin, turn, started_at, Turn-or_Progresses,
}
use tee_relay_client.Relay.System.Coverage.{system-covered, system_complete}
use tee_relay_client.Collector.Listener.Coverage.{all_sent}
use tee_relay_client.Collector.Listener.Complete.{IsRanged, AllTruthful, rounds-complete}
use tee_relay_client.Tests.Samples.{test_event}
use tee_relay_client.Tests.Collector.{
  test_log, one_log, one_log-IsIndexed, failing, answering, fresh, fresh-AllHonest,
}
use tee_relay_client.Tests.Router.{test_op}
use tee_relay_client.Tests.Relay.{answered, signed}
use tee_relay_client.Sender.{fan_out}
use tee_relay_client.Router
use tee_relay_client.Router.{handle_batch, route, inst_class}

-- Every log parses to the sample event.
abbrev parse : Log → Result Event
parse log = ok test_event

abbrev listened : Relay
listened = record idle_relay { c_to_r = (test_log ∷ []) ∷ []; collected = test_log ∷ [] }

abbrev router_starts : Log → List Job
router_starts = starts test_op (λ log. ok log) parse none answered

abbrev done : Relay
done = record listened { c_to_r = []; posted = fan_out signed }

way : Advances router_starts answered listened 5 done
unfolding idle_relay fan_out handle_batch Router.handle parse_instruction
    parse_tee_instructions_sent route inst_class bytes_dec ℕ_discrete
way =
    one_more
      (one_more
        (one_more
          (one_more (one_more none_yet (routing (receive (test_log ∷ []) [] refl refl refl refl)))
            (routing (handle test_log [] refl refl)))
          (processing (emit [] [] _ signed refl refl (omega arith) refl)))
        (sending (take signed [] refl refl refl)))
      (sending (post [] [] _ refl refl))

-- The rounds and the relay's work together.
abbrev begun_at : System
begun_at = started_at router_starts answered fresh

abbrev after : List Tick → System
after ts = record { listener = rounds ts fresh; relay = listened }

together :
    Together router_starts answered begun_at
      (failing ∷ answering ∷ [])
      (after (failing ∷ answering ∷ []))
unfolding idle_relay start window_start to_int64 rounds round observed received send recover
    new_damper fail ℕ_discrete
together =
    turn answering (turn failing begin (quiet refl refl) refl)
      (sends (test_log ∷ []) (λ e. cc) refl (omega arith) refl) refl

system-covered_example :
    ((5 < steps_left router_starts answered listened) × Progresses router_starts answered done)
    ⊎ ((5 ≡ steps_left router_starts answered listened)
        × IsIdle done
        × (jobs : List Job) × (handle_batch test_op (λ log. ok log) parse none (test_log ∷ [])
            ≡ ok jobs)
        × Perm (fan_out signed) (flat_map (job_posts router_starts answered) jobs))
unfolding idle_relay start window_start to_int64 rounds round observed received send recover
    new_damper fail ℕ_discrete
system-covered_example =
    system-covered test_op (λ log. ok log) parse none answered one_log fresh one_log-IsIndexed
      (λ log h. cc) (λ log h. cc) refl refl fresh-AllHonest together way

-- The database goes back before it answers.
abbrev behind : Tick
behind = record answering { state = ok (record { index = 1; block_timestamp = 0 }) }

together_behind :
    Together router_starts answered begun_at
      (behind ∷ answering ∷ [])
      (after (behind ∷ answering ∷ []))
unfolding idle_relay start window_start to_int64 rounds round observed received send recover
    new_damper fail ℕ_discrete
together_behind =
    turn answering (turn behind begin (quiet refl refl) refl)
      (sends (test_log ∷ []) (λ e. cc) refl (omega arith) refl) refl

one_log-IsRanged : IsRanged one_log
one_log-IsRanged = record { adjoins = one_log-IsIndexed.adjoins; empty = λ a b h. ground arith }

behind-AllTruthful : AllTruthful one_log (behind ∷ answering ∷ [])
behind-AllTruthful = (λ a b logs e. cc, (λ a b logs e. cc, tt))

system_complete_example :
    ((5 < steps_left router_starts answered listened) × Progresses router_starts answered done)
    ⊎ ((5 ≡ steps_left router_starts answered listened)
        × IsIdle done
        × (jobs : List Job) × (handle_batch test_op (λ log. ok log) parse none (test_log ∷ [])
            ≡ ok jobs)
        × Subset (flat_map (job_posts router_starts answered) jobs) (fan_out signed))
unfolding idle_relay start window_start to_int64 rounds round observed received send recover
    new_damper fail ℕ_discrete
system_complete_example =
    system_complete test_op (λ log. ok log) parse none answered one_log fresh one_log-IsRanged
      (λ log h. cc) (λ log h. cc) refl behind-AllTruthful refl together_behind way

Turn-or_Progresses_example :
    ((u : System) × Turn answering (after (behind ∷ answering ∷ [])) u)
    ⊎ Progresses router_starts answered listened
Turn-or_Progresses_example = Turn-or_Progresses router_starts answered answering together_behind

rounds-complete_example : Subset (test_log ∷ []) (all_sent (rounds (behind ∷ answering ∷ []) fresh))
unfolding start window_start to_int64 rounds round observed received send recover new_damper fail
    ℕ_discrete
rounds-complete_example =
    rounds-complete one_log one_log-IsRanged (behind ∷ answering ∷ []) fresh behind-AllTruthful refl
