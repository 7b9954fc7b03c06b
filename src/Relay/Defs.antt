-- ===== src/Relay/Defs.antt =====
-- The state that the goroutines share, and the steps that each of them takes.
use tee_relay_client.Base.{
  ℕ, ◌<◌, Bool, true, false, List, [], ◌∷◌, ◌++◌, length, ◌≡◌, ◌≢◌, Option, none, some, Result, ok,
  err, panic,
}
use tee_relay_client.Instruction.{Instr, Log}
use tee_relay_client.Router.{Kind}
use tee_relay_client.Sender.{Delivery, fan_out}

-- An instruction with the processor that handles it.
abbrev pub Job : Type 0
Job = Kind × Instr

-- The processors that a log starts. A panic ends the process, and nothing follows it.
abbrev pub jobs_of : Result (List Job) → List Job
jobs_of (ok jobs) = jobs
jobs_of (err e) = []
jobs_of panic = []

-- The channels `cToR` and `rToS`, in the order of sending; the batch that the router still has to
-- go through; the goroutines of processors and of the sender; what the latter came to; all logs
-- that were collected; and whether the loops have returned.
pub record Relay : Type 0 where
  pub c_to_r : List (List Log)
  pub batch : List Log
  pub running : List Job
  pub r_to_s : List Instr
  pub posting : List (Result Delivery)
  pub posted : List (Result Delivery)
  pub collected : List Log
  pub router_closed : Bool
  pub sender_closed : Bool

unfoldable pub idle_relay : Relay
idle_relay = record {
  c_to_r = [];
  batch = [];
  running = [];
  r_to_s = [];
  posting = [];
  posted = [];
  collected = [];
  router_closed = false;
  sender_closed = false;
}

-- Nothing is on its way.
pub record IsIdle (s : Relay) : Type 0 where
  pub channels : (s.c_to_r ≡ []) × (s.r_to_s ≡ [])
  pub no_batch : s.batch ≡ []
  pub no_goroutine : (s.running ≡ []) × (s.posting ≡ [])

-- The loops have not returned.
pub record IsOpen (s : Relay) : Type 0 where
  pub router : s.router_closed ≡ false
  pub sender : s.sender_closed ≡ false

-- The buffer of both channels.
abbrev pub channel_size : ℕ
channel_size = 50

-- `starts` is the router's handling of a log, and `work` is what the processing of an instruction,
-- with its queue and its retries, hands to the sender in the end.
module _ (starts : Log → List Job) (work : Job → Option Instr) where
  -- The router's loop takes the next batch, or goes on with its batch.
  pub data RouterStep (s t : Relay) : Type 0 where
    receive :
        (logs : List Log) (rest : List (List Log))
        → s.router_closed ≡ false
        → s.batch ≡ []
        → s.c_to_r ≡ logs ∷ rest
        → t ≡ record s { c_to_r = rest; batch = logs }
        → RouterStep s t
    handle :
        (log : Log) (logs : List Log)
        → s.batch ≡ log ∷ logs
        → t ≡ record s { batch = logs; running = s.running ++ starts log }
        → RouterStep s t

  -- The goroutine of a processor ends: with an instruction for the sender, or without.
  pub data ProcessorStep (s t : Relay) : Type 0 where
    emit :
        (before after : List Job) (job : Job) (ib : Instr)
        → s.running ≡ before ++ (job ∷ after)
        → work job ≡ some ib
        → length s.r_to_s < channel_size
        → t ≡ record s { running = before ++ after; r_to_s = s.r_to_s ++ (ib ∷ []) }
        → ProcessorStep s t
    give_up :
        (before after : List Job) (job : Job)
        → s.running ≡ before ++ (job ∷ after)
        → work job ≡ none
        → t ≡ record s { running = before ++ after }
        → ProcessorStep s t

  -- The sender's loop takes the next instruction, or one of its posts is made.
  pub data SenderStep (s t : Relay) : Type 0 where
    take :
        (ib : Instr) (rest : List Instr)
        → s.sender_closed ≡ false
        → s.r_to_s ≡ ib ∷ rest
        → t ≡ record s { r_to_s = rest; posting = s.posting ++ fan_out ib }
        → SenderStep s t
    post :
        (before after : List (Result Delivery)) (d : Result Delivery)
        → s.posting ≡ before ++ (d ∷ after)
        → t ≡ record s { posting = before ++ after; posted = s.posted ++ (d ∷ []) }
        → SenderStep s t

  -- A step that takes an instruction on its way.
  pub data Progress (s t : Relay) : Type 0 where
    routing : RouterStep s t → Progress s t
    processing : ProcessorStep s t → Progress s t
    sending : SenderStep s t → Progress s t

  -- A step of the relay while the context is not cancelled: the collector sends a batch, or there
  -- is progress.
  pub data Move (s t : Relay) : Type 0 where
    collect :
        (logs : List Log)
        → logs ≢ []
        → length s.c_to_r < channel_size
        → t ≡ record s { c_to_r = s.c_to_r ++ (logs ∷ []); collected = s.collected ++ logs }
        → Move s t
    progress : Progress s t → Move s t

  pub data Runs (s : Relay) : Relay → Type 0 where
    begun : Runs s s
    next : {t u : Relay} → Runs s t → Move t u → Runs s u

  -- A step after the context was cancelled, and the collector has returned: a loop returns when it
  -- next looks at its channels, a processor gives up, or there is progress.
  pub data Stop (s t : Relay) : Type 0 where
    close_router :
        s.router_closed ≡ false → s.batch ≡ [] → t ≡ record s { router_closed = true } → Stop s t
    close_sender : s.sender_closed ≡ false → t ≡ record s { sender_closed = true } → Stop s t
    abandon :
        (before after : List Job) (job : Job)
        → s.running ≡ before ++ (job ∷ after)
        → t ≡ record s { running = before ++ after }
        → Stop s t
    finish : Progress s t → Stop s t
