-- ===== src/Relay/System.antt =====
-- The collector's loop (internal/collector) beside the relay's goroutines: a round of the loop ends
-- when its batch, if it has one, is on the channel, and the other goroutines go on meanwhile.
pub mod Coverage
use mathlib.Core.List.{Subset, Perm}
use mathlib.Core.List.Perm
use mathlib.Core.Logic.{∥∥₁_map}
use tee_relay_client.Base.{
  ℕ, ◌<◌, false, List, [], ◌∷◌, ◌++◌, length, flat_map_mono, ◌≡◌, ◌≢◌, ◌⊎◌, inl, inr, refl, sym, ap,
  ◌∙◌, Option, Result, arith,
}
use tee_relay_client.Base.Int.{ℤ}
use tee_relay_client.Instruction.{Event, Instr, Log}
use tee_relay_client.Router.{OpLib, Filterer}
use tee_relay_client.Sender.{Delivery}
use tee_relay_client.Collector.Listener.{Listener, Tick, round, rounds}
use tee_relay_client.Collector.Listener.Batches.{no_batch, one_batch, round-Batch}
use tee_relay_client.Collector.Listener.Coverage.{all_sent, joined-snoc, AllHonest, IsIndexed}
use tee_relay_client.Collector.Listener.Complete.{AllTruthful, IsRanged, sent_Covers}
use tee_relay_client.Relay.Defs.{
  Job, Relay, Progress, collect, progress, Runs, begun, next, idle_relay, IsIdle, IsOpen,
  channel_size,
}
use tee_relay_client.Relay.Delivery.{Progress-collected, log_posts}
use tee_relay_client.Relay.Progress.{
  Advances, Progresses, steps_left, Runs-delivers, list_cases, progress_or_IsIdle, Runs-IsOpen,
}

pub record System : Type 0 where
  pub listener : Listener
  pub relay : Relay

-- A round of the collector: it sends nothing, or one batch, for which the channel has room.
pub data Turn (tick : Tick) (s t : System) : Type 0 where
  quiet :
      (round tick s.listener).sent ≡ s.listener.sent
      → t ≡ record s { listener = round tick s.listener }
      → Turn tick s t
  sends :
      (logs : List Log)
      → logs ≢ []
      → (round tick s.listener).sent ≡ s.listener.sent ++ (logs ∷ [])
      → length s.relay.c_to_r < channel_size
      → t ≡ record {
        listener = round tick s.listener;
        relay = record s.relay {
          c_to_r = s.relay.c_to_r ++ (logs ∷ []);
          collected = s.relay.collected ++ logs;
        };
      }
      → Turn tick s t

module _ (starts : Log → List Job) (work : Job → Option Instr) where
  -- The rounds that were made, in their order, with the relay's progress between them. No round
  -- of them crashed, since the process then ends.
  pub data Together (s : System) : List Tick → System → Type 0 where
    begin : Together s [] s
    turn :
        {ts : List Tick} {t u : System} (tick : Tick)
        → Together s ts t
        → Turn tick t u
        → u.listener.crashed ≡ false
        → Together s (ts ++ (tick ∷ [])) u
    move :
        {ts : List Tick} {t u : System}
        → Together s ts t
        → Progress starts work t.relay u.relay
        → u.listener ≡ t.listener
        → Together s ts u

  -- The system from the start of the collector's loop.
  abbrev pub started_at : Listener → System
  started_at l = record { listener = l; relay = idle_relay }

  rounds-snoc :
      (ts : List Tick) (t : Tick) (l : Listener) → rounds (ts ++ (t ∷ [])) l ≡ round t (rounds ts l)
  unfolding rounds
  rounds-snoc [] t l = refl
  rounds-snoc (x ∷ ts) t l = rounds-snoc ts t (round x l)

  pub Together-rounds :
      {s t : System} {ts : List Tick} → Together s ts t → t.listener ≡ rounds ts s.listener
  unfolding rounds
  Together-rounds begin = refl
  Together-rounds {s} (turn {ts = ts} tick a (quiet e u) live) =
      rw (u, rounds-snoc ts tick s.listener, Together-rounds a) refl
  Together-rounds {s} (turn {ts = ts} tick a (sends logs n e r u) live) =
      rw (u, rounds-snoc ts tick s.listener, Together-rounds a) refl
  Together-rounds (move a p e) = e ∙ Together-rounds a

  -- What the collector sent is what the relay collected, at every moment.
  pub Together-collected :
      {s t : System} {ts : List Tick}
      → s.relay.collected ≡ all_sent s.listener
      → Together s ts t
      → t.relay.collected ≡ all_sent t.listener
  Together-collected i begin = i
  Together-collected i (turn {t = t} tick a (quiet e u) live) = rw (u, e) (Together-collected i a)
  Together-collected i (turn {t = t} tick a (sends logs n e r u) live) =
      rw (u, e) (rw (Together-collected i a) (sym (joined-snoc t.listener.sent logs)))
  Together-collected i (move a p e) =
      Progress-collected starts work p ∙ Together-collected i a ∙ ap all_sent (sym e)

  pub Together-Runs :
      {s t : System} {ts : List Tick} → Together s ts t → Runs starts work s.relay t.relay
  Together-Runs begin = begun
  Together-Runs (turn tick a (quiet e u) live) = rw u (Together-Runs a)
  Together-Runs (turn tick a (sends logs n e r u) live) =
      rw u (next (Together-Runs a) (collect logs n r refl))
  Together-Runs (move a p e) = next (Together-Runs a) (progress p)

  Together-IsOpen :
      {l : Listener} {t : System} {ts : List Tick} → Together (started_at l) ts t → IsOpen t.relay
  unfolding idle_relay
  Together-IsOpen a =
      Runs-IsOpen starts work (Together-Runs a) (record { router = refl; sender = refl })

  full_or_room : (s : Relay) → (length s.c_to_r < channel_size) ⊎ (s.c_to_r ≢ [])
  full_or_room s = elim (list_cases starts work s.c_to_r) [
    | inl e ↦ inl (rw e (omega arith))
    | inr (x, xs, e) ↦ inr (λ q. cc)
  ]

  -- At every moment of the collector's loop beside the relay's goroutines, and whatever its next
  -- round meets: the round can end, because it sends nothing or its batch finds room on the
  -- channel, or else one of the relay's goroutines can take a step.
  pub Turn-or_Progresses :
      {l : Listener} {ts : List Tick} {t : System} (tick : Tick)
      → Together (started_at l) ts t
      → ((u : System) × Turn tick t u) ⊎ Progresses starts work t.relay
  Turn-or_Progresses {t = t} tick a = elim (round-Batch tick t.listener) [
    | no_batch e ↦ inl (_, quiet e refl)
    | one_batch logs n e ↦ elim (full_or_room t.relay) [
      | inl room ↦ inl (_, sends logs n e room refl)
      | inr full ↦ elim (progress_or_IsIdle starts work t.relay (Together-IsOpen a)) [
        | inl idle ↦ absurd (full idle.channels.0)
        | inr p ↦ inr p
      ]
    ]
  ]
