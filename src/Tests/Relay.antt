-- ===== src/Tests/Relay.antt =====
-- A relay whose jobs are the base processor's: one log, from its collection to the post.
use mathlib.Core.List.{Perm}
use tee_relay_client.Base.{
  ℕ, ◌≤◌, ◌<◌, true, List, [], ◌∷◌, ◌≡◌, ◌⊎◌, ◌↔◌, refl, Option, some, arith,
}
use tee_relay_client.Instruction.{Instr, Log}
use tee_relay_client.Router.{base_processor}
use tee_relay_client.Sender.{fan_out}
use tee_relay_client.Relay.Defs.{
  routing, processing, sending, Job, Relay, idle_relay, IsIdle, IsOpen, Progress, receive, handle,
  emit as emits, take, post, Runs, begun, next, collect, progress, Stop, close_router, close_sender,
}
use tee_relay_client.Relay.Delivery.{in_order}
use tee_relay_client.Relay.Progress.{
  steps_left, Advances, Progresses, none_yet, one_more, steps_left-Advances, Runs-delivers,
}
use tee_relay_client.Relay.Shutdown.{
  Stops, not_stopped, one_stop, HasStopped, stops_left, stops_left-Stops,
}
use tee_relay_client.Tests.Samples.{machine_a, world_with}

abbrev test_log : Log
test_log = record { timestamp = 100; topic2 = []; payload = 1 ∷ [] }

abbrev test_instr : Instr
test_instr = (world_with (machine_a ∷ []) []).ib

abbrev test_starts : Log → List Job
test_starts log = (base_processor, test_instr) ∷ []

abbrev pub signed : Instr
signed = record test_instr { signatures = (7 ∷ 14 ∷ 1 ∷ []) ∷ [] }

-- What the signing gives for the sample instruction.
abbrev pub answered : Job → Option Instr
answered job = some signed

abbrev collected : Relay
collected = record idle_relay { c_to_r = (test_log ∷ []) ∷ []; collected = test_log ∷ [] }

abbrev at_router : Relay
at_router = record collected { c_to_r = []; batch = test_log ∷ [] }

abbrev handled : Relay
handled = record collected { c_to_r = []; running = (base_processor, test_instr) ∷ [] }

abbrev emitted : Relay
emitted = record collected { c_to_r = []; r_to_s = signed ∷ [] }

abbrev taken : Relay
taken = record collected { c_to_r = []; posting = fan_out signed }

abbrev delivered : Relay
delivered = record collected { c_to_r = []; posted = fan_out signed }

first_run : Runs test_starts answered idle_relay collected
unfolding idle_relay fan_out
first_run = next begun (collect (test_log ∷ []) (λ e. cc) (omega arith) refl)

way : Advances test_starts answered collected 5 delivered
unfolding idle_relay fan_out
way =
    one_more
      (one_more
        (one_more
          (one_more (one_more none_yet (routing (receive (test_log ∷ []) [] refl refl refl refl)))
            (routing (handle test_log [] refl refl)))
          (processing
            (emits [] [] (base_processor, test_instr) signed refl refl (omega arith) refl)))
        (sending (take signed [] refl refl refl)))
      (sending (post [] [] _ refl refl))

Advances-Runs :
    {s t : Relay} {n : ℕ}
    → Runs test_starts answered idle_relay s
    → Advances test_starts answered s n t
    → Runs test_starts answered idle_relay t
Advances-Runs r none_yet = r
Advances-Runs r (one_more a p) = next (Advances-Runs r a) (progress p)

delivered-IsIdle : IsIdle delivered
unfolding idle_relay
delivered-IsIdle = record { channels = (refl, refl); no_batch = refl; no_goroutine = (refl, refl) }

collected-IsOpen : IsOpen collected
unfolding idle_relay
collected-IsOpen = record { router = refl; sender = refl }

Runs-delivers_example :
    ((5 < steps_left test_starts answered collected) × Progresses test_starts answered delivered)
    ⊎ ((5 ≡ steps_left test_starts answered collected)
        × IsIdle delivered
        × Perm (fan_out signed) (in_order test_starts answered (test_log ∷ [])))
Runs-delivers_example = Runs-delivers test_starts answered first_run way

steps_left-Advances_example :
    (5 ≤ steps_left test_starts answered collected)
    × ((5 ≡ steps_left test_starts answered collected) ↔ IsIdle delivered)
    × (IsIdle delivered ⊎ ((t : Relay) × Progress test_starts answered delivered t))
steps_left-Advances_example = steps_left-Advances test_starts answered collected-IsOpen way

-- The context is cancelled while an instruction waits for the sender.
abbrev stopped : Relay
stopped = record emitted { router_closed = true; sender_closed = true }

stops : Stops test_starts answered emitted 2 stopped
unfolding idle_relay
stops = one_stop (one_stop not_stopped (close_router refl refl refl)) (close_sender refl refl)

stops_left-Stops_example :
    (2 ≤ stops_left test_starts answered emitted)
    × (HasStopped stopped ⊎ ((u : Relay) × Stop test_starts answered stopped u))
stops_left-Stops_example = stops_left-Stops test_starts answered stops
