-- ===== src/Relay/Whole.antt =====
-- The whole relay: from the blocks that the collector watches to what the sender posts.
use mathlib.Core.List.{Perm}
use tee_relay_client.Base.{
  false, List, [], ◌∷◌, ◌++◌, flat_map, flat_map-append, ℕ, ◌<◌, ◌⊎◌, inl, inr, ◌≡◌, ◌≢◌, refl, ◌∙◌,
  Option, Result, ok, err, panic,
}
use tee_relay_client.Base.Int.{ℤ}
use tee_relay_client.Instruction.{Event, Instr, Log}
use tee_relay_client.Router.{
  OpLib, Filterer, Handled, filtered_out, started, handle, keep_started, handle_batch,
}
use tee_relay_client.Router.Laws.{handle_returns}
use tee_relay_client.Sender.{Delivery}
use tee_relay_client.Collector.Listener.{Listener, Tick, rounds}
use tee_relay_client.Collector.Listener.Coverage.{all_sent, AllHonest, IsIndexed, rounds-covered}
use tee_relay_client.Relay.Defs.{jobs_of, Job, Relay, Runs, IsIdle, idle_relay}
use tee_relay_client.Relay.Delivery.{job_posts, in_order}
use tee_relay_client.Relay.Progress.{Advances, Progresses, steps_left, Runs-delivers}

module _ (op : OpLib) {ChainLog : Type 0} (convert : Log → Result ChainLog)
    (parse : ChainLog → Result Event) (filterer : Option Filterer) (work : Job → Option Instr) where
  abbrev pub starts : Log → List Job
  starts log = jobs_of (handle_batch op convert parse filterer (log ∷ []))

  -- The router gets through the logs, and the posts are those of the processors it starts.
  pub record BatchPosts (logs : List Log) (posts : List (Result Delivery)) : Type 0 where
    pub jobs : List Job
    pub handled : handle_batch op convert parse filterer logs ≡ ok jobs
    pub same : posts ≡ flat_map (job_posts starts work) jobs

  keep_started-BatchPosts :
      (r : Result (Handled op)) (rest : Result (List Job)) (jobs : List Job)
      → r ≢ panic
      → rest ≡ ok jobs
      → let one = jobs_of (keep_started op convert parse r (ok [])) in
        keep_started op convert parse r rest ≡ ok (one ++ jobs)
  keep_started-BatchPosts (ok filtered_out) rest jobs n e = e
  keep_started-BatchPosts (ok (started k ib)) rest jobs n e = rw e refl
  keep_started-BatchPosts (err x) rest jobs n e = e
  keep_started-BatchPosts panic rest jobs n e = absurd (n refl)

  module _ (converts : (log : Log) → convert log ≢ panic)
      (parses : (cl : ChainLog) → parse cl ≢ panic) where
    pub in_order-BatchPosts : (logs : List Log) → BatchPosts logs (in_order starts work logs)
    unfolding handle_batch
    in_order-BatchPosts [] = record { jobs = []; handled = refl; same = refl }
    in_order-BatchPosts (log ∷ logs) =
        let rest = in_order-BatchPosts logs in
        record {
          jobs = starts log ++ rest.jobs;
          handled =
              keep_started-BatchPosts (handle op convert parse filterer log)
                (handle_batch op convert parse filterer logs) rest.jobs
                (handle_returns op convert parse filterer log converts parses) rest.handled;
          same =
              rw (rest.same, flat_map-append (job_posts starts work) (starts log) rest.jobs) refl;
        }

  -- Where a query over two adjoining ranges gives the logs of both, and the parsing of other
  -- modules does not panic: after rounds of the listener, failed ones among them, in which the
  -- database does not go back or answer wrongly and the context is not cancelled, and for a relay
  -- that collected what the listener sent: whatever steps of progress its goroutines take next,
  -- either fewer than `steps_left` were taken and there is a further one to take, or that many
  -- were, nothing is on its way, the router gets through exactly the logs between the listener's
  -- first lower bound and its last, and what was posted is a permutation of what the processors
  -- that it starts make of them.
  pub relay-covered :
      (logs_in : ℤ → ℤ → List Log) (x : IsIndexed logs_in) (ts : List Tick) (s : Listener)
      {t u : Relay} {n : ℕ}
      → ((log : Log) → convert log ≢ panic)
      → ((cl : ChainLog) → parse cl ≢ panic)
      → s.closed ≡ false
      → s.sent ≡ []
      → AllHonest logs_in ts s
      → Runs starts work idle_relay t
      → t.collected ≡ all_sent (rounds ts s)
      → Advances starts work t n u
      → ((n < steps_left starts work t) × Progresses starts work u)
        ⊎ ((n ≡ steps_left starts work t)
            × IsIdle u
            × (jobs : List Job) × (handle_batch op convert parse filterer
                  (logs_in s.from (rounds ts s).from)
                ≡ ok jobs)
            × Perm u.posted (flat_map (job_posts starts work) jobs))
  relay-covered logs_in x ts s {t = t} v p o e h r c a = elim (Runs-delivers starts work r a) [
    | inl more ↦ inl more
    | inr (n, idle, posted) ↦
        let (_, covered) = rounds-covered logs_in x ts s o h in
        let nothing : all_sent s ++ logs_in s.from (rounds ts s).from
            ≡ logs_in s.from (rounds ts s).from =
          rw e refl in
        let same : t.collected ≡ logs_in s.from (rounds ts s).from = c ∙ covered ∙ nothing in
        let b = in_order-BatchPosts v p (logs_in s.from (rounds ts s).from) in
        inr (n, idle, b.jobs, b.handled, rw (← b.same, ← same) posted)
  ]
