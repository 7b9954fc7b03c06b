-- ===== src/Tests/Collector.antt =====
-- The listener over a chain with one log, and an episode of failures.
use tee_relay_client.Base.{
  ◌+◌, ◌<◌, false, true, ◌↔◌, ◌&&◌, List, [], ◌∷◌, nat_eq, some, ◌≡◌, refl, new, ok, err,
  if◌then◌else◌, arith,
}
use tee_relay_client.Base.Int.{ℤ, pos, ltb_ℤ, ◌-ℤ◌, ◌≤ℤ◌}
use tee_relay_client.Instruction.{Log}
use tee_relay_client.Health.{new_status, ready}
use tee_relay_client.Collector.Run.{report_state, ready-rounds}
use tee_relay_client.Collector.Window.{window_start, to_int64}
use tee_relay_client.Collector.Damper.{new_damper, fail, recover, error_first}
use tee_relay_client.Collector.Damper.Laws.{Times, lines, Damped, lines-Damped}
use tee_relay_client.Collector.Listener.{
  Listener, Tick, start, received, observed, round, rounds, send,
}
use tee_relay_client.Collector.Listener.Coverage.{AllHonest, IsIndexed}

abbrev pub test_log : Log
test_log = record { timestamp = 100; topic2 = []; payload = [] }

-- The only log is in block 5.
abbrev pub one_log : ℤ → ℤ → List Log
one_log a b = if ltb_ℤ a (pos 5) && ltb_ℤ (pos 4) b then test_log ∷ [] else []

pub one_log-IsIndexed : IsIndexed one_log
one_log-IsIndexed = record { adjoins = λ a b c h k. ground arith; empty = λ a. ground arith }

-- The database fails once, and then answers at block 7.
abbrev pub failing : Tick
failing = record {
  state = ok (record { index = 7; block_timestamp = 0 });
  logs = λ a b. err (new "no connection");
  now = 0;
  later = 0;
  cancelled = false;
  cancelled_at_send = false;
}

abbrev pub answering : Tick
answering = record failing { logs = λ a b. ok (one_log a b) }

abbrev pub fresh : Listener
fresh = start (record { index = 3; block_timestamp = 0 }) (pos 1)

pub fresh-AllHonest : AllHonest one_log (failing ∷ answering ∷ []) fresh
unfolding start window_start to_int64 round observed received fail new_damper recover
fresh-AllHonest = (
  record {
    forward = λ s e. ground arith;
    answers = λ a b logs e. cc;
    runs = (refl, refl);
    no_panic = (λ e. cc, λ a b e. cc);
  },
  (
    record {
      forward = λ s e. ground arith;
      answers = λ a b logs e. cc;
      runs = (refl, refl);
      no_panic = (λ e. cc, λ a b e. cc);
    },
    tt,
  ),
)

-- Two failures, one of them after the summary interval.
abbrev episode : Times
episode = (10, 11) ∷ (300000000020, 300000000021) ∷ []

lines-Damped_example :
    ((fail 0 1 new_damper).1 ≡ error_first) × Damped 0 (lines episode (fail 0 1 new_damper).0)
unfolding new_damper
lines-Damped_example =
    lines-Damped 0 1 episode new_damper refl (omega arith)
      (omega arith, omega arith, (omega arith, omega arith, tt))

-- The state is fetched at second 1, and then no more.
abbrev seen : Tick
seen = record answering { state = ok (record { index = 7; block_timestamp = 1 }) }

abbrev lost : Tick
lost = record answering { state = err (new "no connection") }

-- A started relay that tolerates a lag of a minute.
ready-rounds_example :
    (ready
        (report_state
          (some (record (new_status (pos 60000000000)) { started = true }))
          (rounds (seen ∷ lost ∷ []) fresh).reported)
        (pos 3000000000)
      ≡ ok tt)
    ↔ ((1 + 62135596800 < 9223372036854775808)
        × (pos 3000000000 -ℤ pos 1000000000 ≤ℤ pos 60000000000))
unfolding new_status start window_start to_int64 rounds round observed received send fail new_damper
    recover
ready-rounds_example =
    ready-rounds (record (new_status (pos 60000000000)) { started = true }) (seen ∷ lost ∷ []) fresh
      60000000000 3000000000 refl refl (omega arith) refl (omega arith)
