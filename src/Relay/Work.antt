-- ===== src/Relay/Work.antt =====
-- What becomes of a job: the goroutine of internal/router/router.go around the processor, and the
-- attempts of the FDC queue behind it (internal/router/processors/fdc_queue.go).
pub mod Ends
pub mod Attempts
pub mod Vouched
pub mod Posts
pub mod Fitting
use tee_relay_client.Base.{
  ℕ, Bool, List, [], ◌∷◌, Option, none, some, Result, ok, err, panic, Go, ◌≡◌, ◌≢◌,
}
use tee_relay_client.Instruction.{Instr, World}
use tee_relay_client.Processor.{Env, Processor}
use tee_relay_client.Processor
use tee_relay_client.Fdc.Handler.{FdcLib}
use tee_relay_client.Fdc.Queues
use tee_relay_client.Fdc.Queues.{Fdc, wrap_handle}
use tee_relay_client.Backup.Defs.{BackupLib}
use tee_relay_client.Backup.Restore
use tee_relay_client.Router.{
  OpLib, Kind, base_processor, fdc_processor, backup_processor, commands, run_processor,
}
use tee_relay_client.Client.{Router}
use tee_relay_client.Relay.Defs.{Job}

-- What a processor meets when it starts on an instruction.
abbrev pub entered : ℕ → Instr → World
entered tick ib = record { ib = ib; out = []; tick = tick; asked = 0 }

-- What the queue makes of an instruction with its handler: attempts until one succeeds, and an end
-- at any time, since the attempts are counted and the context may be cancelled.
pub data Queued (handler : Go World (Unit {0})) : World → World → Type 0 where
  dropped : (w : World) → Queued handler w w
  done : (w v : World) → (handler w).0 ≡ ok tt → v ≡ (handler w).1 → Queued handler w v
  again :
      (w u v : World) (later : ℕ)
      → (handler w).0 ≢ ok tt
      → u ≡ record (handler w).1 { tick = later }
      → Queued handler u v
      → Queued handler w v

-- The first instruction that was sent.
abbrev pub handed : List Instr → Option Instr
handed [] = none
handed (ib ∷ rest) = some ib

-- `env` and the libraries are those of the processors, `dequeue` is go-flare-common's queue with a
-- handler, and `clock` is the time at which a job starts.
module _ (env : Env) (fdc_lib : FdcLib) (backup_lib : BackupLib) (op : OpLib)
    (allow_unsafe_urls : Bool) {Q : Type 0} (add : Q → Instr → ℕ → Result (Unit {0}))
    (dequeue : Go World (Unit {0}) → World → World) (r : Router Q) (clock : Kind × Instr → ℕ) where
  -- An instruction that was not added to a queue is at its end.
  abbrev queued : Result (Unit {0}) × World → World
  queued (ok tt, w) = dequeue (wrap_handle env fdc_lib r.fdc_processor.handler) w
  queued (err e, w) = w
  queued (panic, w) = w

  -- `processor.Process(ctx, instr)` in the goroutine, for each of the three processors.
  unfoldable pub processed : Job → World
  processed (base_processor, ib) =
      (run_processor (Processor.process env r.base_processor)
        (entered (clock (base_processor, ib)) ib)).1
  processed (backup_processor, ib) =
      (run_processor
        (Restore.process env backup_lib r.base_processor allow_unsafe_urls (commands op))
        (entered (clock (backup_processor, ib)) ib)).1
  processed (fdc_processor, ib) =
      queued (Queues.process add fdc_lib r.fdc_processor (entered (clock (fdc_processor, ib)) ib))

  unfoldable pub work : Job → Option Instr
  unfolding processed
  work job = handed (processed job).out
