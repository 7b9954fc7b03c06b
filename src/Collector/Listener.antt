-- ===== src/Collector/Listener.antt =====
-- internal/collector/collector.go: `instructionsListener`, one round for each tick.
pub mod Coverage
pub mod Complete
pub mod Batches
use tee_relay_client.Base.{
  ℕ, ◌+◌, Bool, true, false, List, [], ◌∷◌, ◌++◌, Option, none, some, Result, ok, err, panic,
  if◌then◌else◌,
}
use tee_relay_client.Base.Int.{ℤ}
use tee_relay_client.Instruction.{Log}
use tee_relay_client.Collector.Window.{to_int64, window_start}
use tee_relay_client.Collector.Damper
use tee_relay_client.Collector.Damper.{Damper, new_damper, recover}

-- `database.State`: the indexer's last block and its timestamp.
pub record State : Type 0 where
  pub index : ℕ
  pub block_timestamp : ℕ

-- What the loop carries from round to round: the bounds of the query, the dampers, the batches
-- sent to the router, the last state reported to the health status, whether it has returned, and
-- whether it has panicked, which ends the process.
pub record Listener : Type 0 where
  pub from : ℤ
  pub to : ℤ
  pub state_damper : Damper
  pub logs_damper : Damper
  pub sent : List (List Log)
  pub reported : State
  pub closed : Bool
  pub crashed : Bool

-- What a round meets: the answers of the database, where the logs are those of the query's
-- bounds, the clock's readings for the dampers, and whether the context is cancelled at the
-- round's first `select` and at the one that sends.
pub record Tick : Type 0 where
  pub state : Result State
  pub logs : ℤ → ℤ → Result (List Log)
  pub now : ℕ
  pub later : ℕ
  pub cancelled : Bool
  pub cancelled_at_send : Bool

-- The initial scan's parameters, from the state that was fetched first.
unfoldable pub start : State → ℤ → Listener
start state start_interval = record {
  from = window_start state.index start_interval;
  to = to_int64 state.index;
  state_damper = new_damper;
  logs_damper = new_damper;
  sent = [];
  reported = state;
  closed = false;
  crashed = false;
}

-- `if len(logs) > 0 { select { case out <- logs: case <-ctx.Done(): return } }`
unfoldable pub send : Bool → List Log → Listener → Listener
send cancelled [] s = s
send true (log ∷ logs) s = record s { closed = true }
send false (log ∷ logs) s = record s { sent = s.sent ++ ((log ∷ logs) ∷ []) }

-- What follows the query. A panic of the database's code is not recovered and ends the
-- process.
unfoldable pub received : Tick → Listener → Result (List Log) → Listener
received t s (ok logs) =
    send t.cancelled_at_send logs
      (record s { logs_damper = (recover s.logs_damper).0; from = s.to })
received t s (err e) = record s { logs_damper = (Damper.fail t.now t.later s.logs_damper).0 }
received t s panic = record s { closed = true; crashed = true }

-- What follows the fetch of the state: the query of the range up to it.
unfoldable pub observed : Tick → Listener → Result State → Listener
observed t s (ok state) =
    let u = record s {
      state_damper = (recover s.state_damper).0;
      reported = state;
      to = to_int64 state.index;
    } in
    received t u (t.logs u.from u.to)
observed t s (err e) = record s { state_damper = (Damper.fail t.now t.later s.state_damper).0 }
observed t s panic = record s { closed = true; crashed = true }

-- One round of the loop.
unfoldable pub round : Tick → Listener → Listener
round t s =
    if s.closed then s else if t.cancelled then record s { closed = true } else observed t s t.state

unfoldable pub rounds : List Tick → Listener → Listener
rounds [] s = s
rounds (t ∷ ts) s = rounds ts (round t s)
