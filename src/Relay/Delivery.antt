-- ===== src/Relay/Delivery.antt =====
-- What a relay has posted and what it still owes, against handling one log after the other.
use mathlib.Core.List.{Perm, append_assoc, append-nil}
use mathlib.Core.List.Perm
use tee_relay_client.Base.{
  List, [], ◌∷◌, ◌++◌, flat_map, flat_map-append, perm_block, ◌≡◌, refl, Option, none, some, Result,
}
use tee_relay_client.Instruction.{Instr, Log}
use tee_relay_client.Sender.{Delivery, fan_out}
use tee_relay_client.Relay.Defs.{
  routing, processing, sending, Job, Relay, Progress, receive, handle, emit, give_up, take, post,
  Move, collect, progress, Runs, begun, next, idle_relay, IsIdle,
}

module _ (starts : Log → List Job) (work : Job → Option Instr) where
  -- What a job is to be posted as.
  abbrev pub outcome : Option Instr → List (Result Delivery)
  outcome none = []
  outcome (some ib) = fan_out ib

  abbrev pub job_posts : Job → List (Result Delivery)
  job_posts job = outcome (work job)

  abbrev pub log_posts : Log → List (Result Delivery)
  log_posts log = flat_map job_posts (starts log)

  -- One log after the other, each processed and sent before the next one.
  abbrev pub in_order : List Log → List (Result Delivery)
  in_order = flat_map log_posts

  -- What was posted, and what is on its way.
  abbrev pub owed : Relay → List (Result Delivery)
  owed s =
      s.posted
      ++ (s.posting
          ++ (flat_map fan_out s.r_to_s
              ++ (flat_map job_posts s.running
                  ++ (in_order s.batch ++ flat_map in_order s.c_to_r))))

  -- A block that stands anywhere behind `a` and `p` may stand before `p`.
  moved : (a p d x : List (Result Delivery)) → Perm (a ++ (d ++ (p ++ x))) (a ++ (p ++ (d ++ x)))
  moved a p d x = Perm.append_left a (Perm.symm (perm_block p d x))

  -- The posts of the jobs around one that ends, and its own.
  around :
      (before after : List Job) (job : Job) (x : List (Result Delivery))
      → Perm
          (job_posts job ++ (flat_map job_posts (before ++ after) ++ x))
          (flat_map job_posts (before ++ (job ∷ after)) ++ x)
  around before after job x =
      rw
        (
          flat_map-append job_posts before after,
          flat_map-append job_posts before (job ∷ after),
          append_assoc,
          append_assoc,
          append_assoc,
        )
        (Perm.symm
          (perm_block (flat_map job_posts before) (job_posts job) (flat_map job_posts after ++ x)))

  around_at :
      (before after : List Job) (job : Job) (x : List (Result Delivery)) (o : Option Instr)
      → work job ≡ o
      → Perm
          (outcome o ++ (flat_map job_posts (before ++ after) ++ x))
          (flat_map job_posts (before ++ (job ∷ after)) ++ x)
  around_at before after job x o w = rw (← w) (around before after job x)

  -- What is owed for logs that no processor was started for yet.
  abbrev rest_of : Relay → List (Result Delivery)
  rest_of s = in_order s.batch ++ flat_map in_order s.c_to_r

  Progress-owed : {s t : Relay} → Progress starts work s t → Perm (owed t) (owed s)
  Progress-owed {s} {t} (routing (receive logs rest o b e u)) = rw (u, b, e) (Perm.refl _)
  Progress-owed {s} {t} (routing (handle log logs b u)) =
      rw (u, b, flat_map-append job_posts s.running (starts log))
        (rw append_assoc (rw append_assoc (Perm.refl _)))
  Progress-owed {s} {t} (processing (emit before after job ib r w l u)) =
      rw (u, r, flat_map-append fan_out s.r_to_s (ib ∷ []), append-nil, append_assoc)
        (Perm.append_left s.posted (
          Perm.append_left s.posting (
            Perm.append_left (flat_map fan_out s.r_to_s)
              (around_at before after job (rest_of s) (some ib) w))))
  Progress-owed {s} {t} (processing (give_up before after job r w u)) =
      rw (u, r)
        (Perm.append_left s.posted (
          Perm.append_left s.posting (
            Perm.append_left (flat_map fan_out s.r_to_s)
              (around_at before after job (rest_of s) none w))))
  Progress-owed {s} {t} (sending (take ib rest o e u)) =
      rw (u, e, append_assoc, append_assoc) (Perm.refl _)
  Progress-owed {s} {t} (sending (post before after d e u)) =
      rw (u, e)
        (rw append_assoc (
          rw append_assoc (
            rw append_assoc (
              moved s.posted before (d ∷ []) (
                after
                ++ (flat_map fan_out s.r_to_s ++ (flat_map job_posts s.running ++ rest_of s)))))))

  pub Progress-collected : {s t : Relay} → Progress starts work s t → t.collected ≡ s.collected
  Progress-collected (routing (receive logs rest o b e u)) = rw u refl
  Progress-collected (routing (handle log logs b u)) = rw u refl
  Progress-collected (processing (emit before after job ib r w l u)) = rw u refl
  Progress-collected (processing (give_up before after job r w u)) = rw u refl
  Progress-collected (sending (take ib rest o e u)) = rw u refl
  Progress-collected (sending (post before after d e u)) = rw u refl

  collect-owed :
      (s : Relay) (logs : List Log)
      → owed (record s { c_to_r = s.c_to_r ++ (logs ∷ []) }) ≡ owed s ++ in_order logs
  collect-owed s logs =
      rw (flat_map-append in_order s.c_to_r (logs ∷ []), append-nil) (simp append_assoc refl)

  Move-owed :
      {s t : Relay}
      → Move starts work s t
      → Perm (owed s) (in_order s.collected)
      → Perm (owed t) (in_order t.collected)
  Move-owed {s} {t} (progress p) h = rw (Progress-collected p) (Perm.trans (Progress-owed p) h)
  Move-owed {s} {t} (collect logs nonempty room u) h =
      rw (u, collect-owed s logs, flat_map-append log_posts s.collected logs)
        (Perm.append_right (in_order logs) h)

  Runs-owed :
      {s t : Relay}
      → Runs starts work s t
      → Perm (owed s) (in_order s.collected)
      → Perm (owed t) (in_order t.collected)
  Runs-owed begun h = h
  Runs-owed (next r m) h = Move-owed m (Runs-owed r h)

  IsIdle-owed : (s : Relay) → IsIdle s → owed s ≡ s.posted
  IsIdle-owed s i =
      rw (i.channels.0, i.channels.1, i.no_batch, i.no_goroutine.0, i.no_goroutine.1)
        (append-nil s.posted)

  -- In whatever order the goroutines of a relay that is not cancelled take their steps, with full
  -- channels among them: when nothing is on its way, what was posted is a permutation of what
  -- handling the collected logs one after the other posts, so no instruction is lost, doubled or
  -- made up.
  pub Runs-in_order :
      {t : Relay} → Runs starts work idle_relay t → IsIdle t → Perm t.posted (in_order t.collected)
  unfolding idle_relay
  Runs-in_order {t} r i = rw (← IsIdle-owed t i) (Runs-owed r (Perm.refl []))
