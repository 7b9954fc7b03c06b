-- ===== src/Relay/Traced.antt =====
-- Where the relay's posts come from: each instruction on its way is traced back to a collected log.
pub mod Laws
use mathlib.Core.List.{Memᴰ}
use mathlib.Core.List.Memᴰ
use tee_relay_client.Base.{
  ℕ, List, [], ◌∷◌, ◌++◌, All, All-append, All-append_inv, All-All, All_of_members, Option, some,
  Result, ◌≡◌, subst,
}
use tee_relay_client.Instruction.{Instr, Log}
use tee_relay_client.Sender.{Delivery, fan_out}
use tee_relay_client.Relay.Defs.{
  routing, processing, sending, Job, Relay, Progress, receive, handle, emit, give_up, take, post,
  collect, progress, Move, Runs, begun, next, idle_relay, Stop, close_router, close_sender, abandon,
  finish,
}
use tee_relay_client.Relay.Shutdown.{Stops, not_stopped, one_stop}

abbrev pub Among : List Log → Log → Type 0
Among logs log = Memᴰ log logs

module _ (starts : Log → List Job) (work : Job → Option Instr) where
  -- The job was started for one of the logs.
  pub record Started (logs : List Log) (job : Job) : Type 0 where
    pub log : Log
    pub log_in : Memᴰ log logs
    pub job_in : Memᴰ job (starts log)

  -- The instruction was handed to the sender by such a job.
  pub record HandedOn (logs : List Log) (ib : Instr) : Type 0 where
    pub job : Job
    pub started : Started logs job
    pub handed_on : work job ≡ some ib

  -- The post is one of such an instruction's.
  pub record Traced (logs : List Log) (r : Result Delivery) : Type 0 where
    pub ib : Instr
    pub handed_on : HandedOn logs ib
    pub post_in : Memᴰ r (fan_out ib)

  -- All that is on its way, and all that was posted.
  pub record AllTraced (s : Relay) : Type 0 where
    pub channel : All (All (Among s.collected)) s.c_to_r
    pub batch : All (Among s.collected) s.batch
    pub running : All (Started s.collected) s.running
    pub waiting : All (HandedOn s.collected) s.r_to_s
    pub posting : All (Traced s.collected) s.posting
    pub posted : All (Traced s.collected) s.posted

  pub Started-append :
      (logs more : List Log) (job : Job) → Started logs job → Started (logs ++ more) job
  Started-append logs more job j = record {
    log = j.log;
    log_in = Memᴰ.append_left more j.log_in;
    job_in = j.job_in;
  }

  pub HandedOn-append :
      (logs more : List Log) (ib : Instr) → HandedOn logs ib → HandedOn (logs ++ more) ib
  HandedOn-append logs more ib h = record {
    job = h.job;
    started = Started-append logs more h.job h.started;
    handed_on = h.handed_on;
  }

  pub Traced-append :
      (logs more : List Log) (r : Result Delivery) → Traced logs r → Traced (logs ++ more) r
  Traced-append logs more r t = record {
    ib = t.ib;
    handed_on = HandedOn-append logs more t.ib t.handed_on;
    post_in = t.post_in;
  }
