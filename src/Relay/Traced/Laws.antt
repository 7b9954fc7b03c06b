-- ===== src/Relay/Traced/Laws.antt =====
-- Each step of the relay leaves what is on its way, and what was posted, traced.
use mathlib.Core.List.Memᴰ
use tee_relay_client.Base.{
  ℕ, List, [], ◌∷◌, ◌++◌, All, All-append, All-append_inv, All-All, All_of_members, Option, subst,
}
use tee_relay_client.Instruction.{Instr, Log}
use tee_relay_client.Sender.{fan_out}
use tee_relay_client.Relay.Defs.{
  routing, processing, sending, Job, Relay, Progress, receive, handle, emit, give_up, take, post,
  collect, progress, Move, Runs, begun, next, idle_relay, Stop, close_router, close_sender, abandon,
  finish,
}
use tee_relay_client.Relay.Shutdown.{Stops, not_stopped, one_stop}
use tee_relay_client.Relay.Traced.{
  Among, Started, HandedOn, Traced, AllTraced, Started-append, HandedOn-append, Traced-append,
}

module _ (starts : Log → List Job) (work : Job → Option Instr) where
  Progress-AllTraced :
      {s t : Relay} → Progress starts work s t → AllTraced starts work s → AllTraced starts work t
  Progress-AllTraced {s} (routing (receive logs rest o b e u)) i =
      let (now, later) : All (Among s.collected) logs × All (All (Among s.collected)) rest =
        subst (All (All (Among s.collected))) e i.channel in
      rw u (record {
        running = i.running;
        waiting = i.waiting;
        posting = i.posting;
        posted = i.posted;
        channel = later;
        batch = now;
      })
  Progress-AllTraced {s} (routing (handle log logs b u)) i =
      let (now, later) : Among s.collected log × All (Among s.collected) logs =
        subst (All (Among s.collected)) b i.batch in
      rw u (record {
        channel = i.channel;
        waiting = i.waiting;
        posting = i.posting;
        posted = i.posted;
        batch = later;
        running = All-append (Started starts work s.collected) s.running (starts log) i.running (
            All_of_members (Started starts work s.collected) (starts log)
              (λ job m. record { log = log; log_in = now; job_in = m }));
      })
  Progress-AllTraced {s} (processing (emit front back job ib r w l u)) i =
      let (now, others) =
        All-append_inv (Started starts work s.collected) front job back
          (subst (All (Started starts work s.collected)) r i.running) in
      rw u (record {
        channel = i.channel;
        batch = i.batch;
        posting = i.posting;
        posted = i.posted;
        running = others;
        waiting =
            All-append (HandedOn starts work s.collected) s.r_to_s (ib ∷ []) i.waiting
              (record { job = job; started = now; handed_on = w }, tt);
      })
  Progress-AllTraced {s} (processing (give_up front back job r w u)) i =
      let (now, others) =
        All-append_inv (Started starts work s.collected) front job back
          (subst (All (Started starts work s.collected)) r i.running) in
      rw u (record {
        channel = i.channel;
        batch = i.batch;
        waiting = i.waiting;
        posting = i.posting;
        posted = i.posted;
        running = others;
      })
  Progress-AllTraced {s} (sending (take ib rest o e u)) i =
      let (now, later) : HandedOn starts work s.collected ib
          × All (HandedOn starts work s.collected) rest =
        subst (All (HandedOn starts work s.collected)) e i.waiting in
      rw u (record {
        channel = i.channel;
        batch = i.batch;
        running = i.running;
        posted = i.posted;
        waiting = later;
        posting = All-append (Traced starts work s.collected) s.posting (fan_out ib) i.posting (
            All_of_members (Traced starts work s.collected) (fan_out ib)
              (λ r m. record { ib = ib; handed_on = now; post_in = m }));
      })
  Progress-AllTraced {s} (sending (post front back d e u)) i =
      let (now, others) =
        All-append_inv (Traced starts work s.collected) front d back
          (subst (All (Traced starts work s.collected)) e i.posting) in
      rw u (record {
        channel = i.channel;
        batch = i.batch;
        running = i.running;
        waiting = i.waiting;
        posting = others;
        posted = All-append (Traced starts work s.collected) s.posted (d ∷ []) i.posted (now, tt);
      })

  Move-AllTraced :
      {s t : Relay} → Move starts work s t → AllTraced starts work s → AllTraced starts work t
  Move-AllTraced (progress p) i = Progress-AllTraced p i
  Move-AllTraced {s} (collect logs nonempty room u) i =
      let more : (log : Log) → Among s.collected log → Among (s.collected ++ logs) log =
        λ log m. Memᴰ.append_left logs m in
      rw u (record {
        channel =
            All-append (All (Among (s.collected ++ logs))) s.c_to_r (logs ∷ [])
              (All-All (All (Among s.collected)) (All (Among (s.collected ++ logs))) s.c_to_r
                (λ ls. All-All (Among s.collected) (Among (s.collected ++ logs)) ls more) i.channel)
              (
                All_of_members (Among (s.collected ++ logs)) logs
                    (λ log m. Memᴰ.append_right s.collected m),
                tt,
              );
        batch = All-All (Among s.collected) (Among (s.collected ++ logs)) s.batch more i.batch;
        running =
            All-All (Started starts work s.collected) (Started starts work (s.collected ++ logs))
              s.running (Started-append starts work s.collected logs) i.running;
        waiting =
            All-All (HandedOn starts work s.collected) (HandedOn starts work (s.collected ++ logs))
              s.r_to_s (HandedOn-append starts work s.collected logs) i.waiting;
        posting =
            All-All (Traced starts work s.collected) (Traced starts work (s.collected ++ logs))
              s.posting (Traced-append starts work s.collected logs) i.posting;
        posted =
            All-All (Traced starts work s.collected) (Traced starts work (s.collected ++ logs))
              s.posted (Traced-append starts work s.collected logs) i.posted;
      })

  Stop-AllTraced :
      {s t : Relay} → Stop starts work s t → AllTraced starts work s → AllTraced starts work t
  Stop-AllTraced (close_router o b u) i = rw u (record {
    channel = i.channel;
    batch = i.batch;
    running = i.running;
    waiting = i.waiting;
    posting = i.posting;
    posted = i.posted;
  })
  Stop-AllTraced (close_sender o u) i = rw u (record {
    channel = i.channel;
    batch = i.batch;
    running = i.running;
    waiting = i.waiting;
    posting = i.posting;
    posted = i.posted;
  })
  Stop-AllTraced {s} (abandon front back job r u) i =
      let (_, others) =
        All-append_inv (Started starts work s.collected) front job back
          (subst (All (Started starts work s.collected)) r i.running) in
      rw u (record {
        channel = i.channel;
        batch = i.batch;
        running = others;
        waiting = i.waiting;
        posting = i.posting;
        posted = i.posted;
      })
  Stop-AllTraced (finish p) i = Progress-AllTraced p i

  Runs-AllTraced : {t : Relay} → Runs starts work idle_relay t → AllTraced starts work t
  unfolding idle_relay
  Runs-AllTraced begun = record {
    channel = tt;
    batch = tt;
    running = tt;
    waiting = tt;
    posting = tt;
    posted = tt;
  }
  Runs-AllTraced (next r m) = Move-AllTraced m (Runs-AllTraced r)

  Stops-AllTraced :
      {s t : Relay} {n : ℕ}
      → Stops starts work s n t
      → AllTraced starts work s
      → AllTraced starts work t
  Stops-AllTraced not_stopped i = i
  Stops-AllTraced (one_stop a p) i = Stop-AllTraced p (Stops-AllTraced a i)

  -- Every post.
  pub Stops-Traced :
      {s t : Relay} {n : ℕ}
      → Runs starts work idle_relay s
      → Stops starts work s n t
      → All (Traced starts work t.collected) t.posted
  Stops-Traced r a = (Stops-AllTraced a (Runs-AllTraced r)).posted
