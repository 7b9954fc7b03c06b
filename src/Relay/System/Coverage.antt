-- ===== src/Relay/System/Coverage.antt =====
-- What the assembled relay posts of the blocks that its collector watches.
use mathlib.Core.List.{Subset, Perm}
use mathlib.Core.List.Perm
use mathlib.Core.Logic.{∥∥₁_map}
use tee_relay_client.Base.{
  ℕ, ◌<◌, false, List, [], flat_map_mono, ◌≡◌, ◌≢◌, ok, panic, flat_map, ◌⊎◌, inl, inr, refl, sym,
  ap, ◌∙◌, Option, Result,
}
use tee_relay_client.Base.Int.{ℤ}
use tee_relay_client.Instruction.{Event, Instr, Log}
use tee_relay_client.Router.{OpLib, Filterer, handle_batch}
use tee_relay_client.Collector.Listener.{Listener, Tick, rounds}
use tee_relay_client.Collector.Listener.Coverage.{all_sent, AllHonest, IsIndexed}
use tee_relay_client.Collector.Listener.Complete.{AllTruthful, IsRanged, sent_Covers}
use tee_relay_client.Relay.Defs.{Job, Relay, idle_relay, IsIdle}
use tee_relay_client.Relay.Delivery.{log_posts, job_posts}
use tee_relay_client.Relay.Progress.{Advances, Progresses, steps_left, Runs-delivers}
use tee_relay_client.Relay.Whole.{starts, in_order-BatchPosts, relay-covered}
use tee_relay_client.Relay.System.{
  System, Together, started_at, Together-rounds, Together-collected, Together-Runs,
}

-- The relay as it is assembled: its router's handling of logs, and the work of its processors.
module _ (op : OpLib) {ChainLog : Type 0} (convert : Log → Result ChainLog)
    (parse : ChainLog → Result Event) (filterer : Option Filterer) (work : Job → Option Instr)
    (logs_in : ℤ → ℤ → List Log) where
  abbrev pub routed : Log → List Job
  routed = starts op convert parse filterer work

  -- Where a query over two adjoining ranges gives the logs of both, and the parsing of logs by
  -- other modules does not panic: for the collector's loop and the relay's goroutines in whatever
  -- order, from a start with nothing sent, after rounds, failed ones among them, in which the
  -- database does not go back or answer wrongly and the context is not cancelled: whatever steps
  -- of progress are taken next, either fewer than `steps_left` were taken and there is a further
  -- one to take, or that many were, nothing is on its way, the router gets through exactly the
  -- logs between the collector's first lower bound and its last, and what was posted is a
  -- permutation of what the processors that it starts make of them.
  pub system-covered :
      (l : Listener) (x : IsIndexed logs_in) {ts : List Tick} {t : System} {u : Relay} {n : ℕ}
      → ((log : Log) → convert log ≢ panic)
      → ((cl : ChainLog) → parse cl ≢ panic)
      → l.closed ≡ false
      → l.sent ≡ []
      → AllHonest logs_in ts l
      → Together routed work (started_at routed work l) ts t
      → Advances routed work t.relay n u
      → ((n < steps_left routed work t.relay) × Progresses routed work u)
        ⊎ ((n ≡ steps_left routed work t.relay)
            × IsIdle u
            × (jobs : List Job) × (handle_batch op convert parse filterer
                  (logs_in l.from t.listener.from)
                ≡ ok jobs)
            × Perm u.posted (flat_map (job_posts routed work) jobs))
  unfolding idle_relay
  system-covered l x {ts} {t} v p o e h r a =
      let same = Together-rounds routed work r in
      rw same (
        relay-covered op convert parse filterer work logs_in x ts l v p o e h
          (Together-Runs routed work r)
          (Together-collected routed work (rw e refl) r ∙ ap all_sent same) a)

  -- Where a query over two adjoining ranges gives the logs of both, and none for a range that
  -- ends before it begins, and the parsing of logs by other modules does not panic: the database
  -- may fail and go back, but an answered query has the logs of its range. Then, in whatever
  -- order the collector's loop, which has not returned, and the relay's goroutines, whose context
  -- is not cancelled, took their steps from a start with nothing sent, and whatever steps of
  -- progress are taken next: either fewer than `steps_left` were taken and there is a further one
  -- to take, or that many were, nothing is on its way, the router gets through the logs between
  -- the collector's first lower bound and its last, and all that the processors that it starts
  -- make of them was posted, some of it perhaps more than once.
  pub system_complete :
      (l : Listener) (x : IsRanged logs_in) {ts : List Tick} {t : System} {u : Relay} {n : ℕ}
      → ((log : Log) → convert log ≢ panic)
      → ((cl : ChainLog) → parse cl ≢ panic)
      → l.sent ≡ []
      → AllTruthful logs_in ts
      → t.listener.closed ≡ false
      → Together routed work (started_at routed work l) ts t
      → Advances routed work t.relay n u
      → ((n < steps_left routed work t.relay) × Progresses routed work u)
        ⊎ ((n ≡ steps_left routed work t.relay)
            × IsIdle u
            × (jobs : List Job) × (handle_batch op convert parse filterer
                  (logs_in l.from t.listener.from)
                ≡ ok jobs)
            × Subset (flat_map (job_posts routed work) jobs) u.posted)
  unfolding idle_relay
  system_complete l x {ts} {t} v p e h o way a =
      let same = Together-rounds routed work way in
      let sent = Together-collected routed work (rw e refl) way ∙ ap all_sent same in
      let covers = sent_Covers logs_in x ts l h (ap (λ (s : Listener). s.closed) (sym same) ∙ o) in
      let b =
        in_order-BatchPosts op convert parse filterer work v p
          (logs_in l.from (rounds ts l).from) in
      elim (Runs-delivers routed work (Together-Runs routed work way) a) [
        | inl more ↦ inl more
        | inr (k, idle, q) ↦ inr (
          k,
          idle,
          b.jobs,
          rw same b.handled,
          λ r m. (Perm.mem_iff q).1 (
              ∥∥₁_map m (λ d. rw sent (
                flat_map_mono (log_posts routed work) (logs_in l.from (rounds ts l).from)
                  (all_sent (rounds ts l)) covers (rw b.same d)))),
        )
      ]
