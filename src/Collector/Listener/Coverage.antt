-- ===== src/Collector/Listener/Coverage.antt =====
-- The router gets each log of the watched blocks once and in order, whatever failed in between.
use mathlib.Core.List.{append-nil, append_assoc}
use tee_relay_client.Base.{
  false, List, [], ◌∷◌, ◌++◌, ◌≡◌, ◌≢◌, refl, ◌∙◌, sym, ap, Result, ok, err, panic, arith,
}
use tee_relay_client.Base.Int.{ℤ, ◌≤ℤ◌}
use tee_relay_client.Instruction.{Log}
use tee_relay_client.Collector.Window.{to_int64}
use tee_relay_client.Collector.Listener.{
  State, Listener, Tick, send, received, observed, round, rounds,
}

abbrev joined : List (List Log) → List Log
joined [] = []
joined (l ∷ ls) = l ++ joined ls

pub joined-snoc : (ls : List (List Log)) (l : List Log) → joined (ls ++ (l ∷ [])) ≡ joined ls ++ l
joined-snoc [] l = append-nil l
joined-snoc (x ∷ ls) l = rw (joined-snoc ls l, append_assoc)

-- All logs that were sent, in their order.
abbrev pub all_sent : Listener → List Log
all_sent s = joined s.sent

-- The watched contract's logs by block, `(from, to]` as the query reads it.
module _ (logs_in : ℤ → ℤ → List Log) where
  -- A query over two adjoining ranges gives the logs of both.
  abbrev pub Adjoins : Type 0
  Adjoins = (a b c : ℤ) → a ≤ℤ b → b ≤ℤ c → logs_in a c ≡ logs_in a b ++ logs_in b c

  -- A round in which the database, where it answers, is not behind what it said before, and
  -- answers a query with the logs of its range; and no round is cancelled or panics.
  pub record Honest (t : Tick) (s : Listener) : Type 0 where
    pub forward : (state : State) → t.state ≡ ok state → s.from ≤ℤ to_int64 state.index
    pub answers : (a b : ℤ) (logs : List Log) → t.logs a b ≡ ok logs → logs ≡ logs_in a b
    pub runs : (t.cancelled ≡ false) × (t.cancelled_at_send ≡ false)
    pub no_panic : (t.state ≢ panic) × ((a b : ℤ) → t.logs a b ≢ panic)

  abbrev pub AllHonest : List Tick → Listener → Type 0
  AllHonest [] s = Unit
  AllHonest (t ∷ ts) s = Honest t s × AllHonest ts (round t s)

  -- What is known of the logs of ranges.
  pub record IsIndexed : Type 0 where
    pub adjoins : Adjoins
    pub empty : (a : ℤ) → logs_in a a ≡ []

  module _ (x : IsIndexed) where
    -- One honest round moves the lower bound forward and sends the logs that it moves past.
    record Moved (s s' : Listener) : Type 0 where
      open' : s'.closed ≡ false
      forward : s.from ≤ℤ s'.from
      covered : all_sent s' ≡ all_sent s ++ logs_in s.from s'.from

    stayed :
        (s s' : Listener) → s'.closed ≡ false → s'.from ≡ s.from → s'.sent ≡ s.sent → Moved s s'
    stayed s s' o f e = record {
      open' = o;
      forward = rw f (omega arith);
      covered = rw (f, e, x.empty) (rw append-nil);
    }

    send-Moved :
        (s : Listener) (logs : List Log) (b : ℤ) (u : Listener)
        → u.from ≡ b
        → u.sent ≡ s.sent
        → u.closed ≡ false
        → s.from ≤ℤ b
        → logs ≡ logs_in s.from b
        → Moved s (send false logs u)
    unfolding send
    send-Moved s [] b u e k o f l = record {
      open' = o;
      forward = rw e f;
      covered = rw (k, e, ← l) (sym (append-nil _));
    }
    send-Moved s (log ∷ logs) b u e k o f l = record {
      open' = o;
      forward = rw e f;
      covered = joined-snoc u.sent (log ∷ logs) ∙ rw (k, e, l);
    }

    received-Moved :
        (t : Tick) (s u : Listener) (r : Result (List Log))
        → Honest t s
        → t.logs u.from u.to ≡ r
        → u.from ≡ s.from
        → u.sent ≡ s.sent
        → u.closed ≡ false
        → s.from ≤ℤ u.to
        → Moved s (received t u r)
    unfolding received
    received-Moved t s u (ok logs) h r e k o f =
        let same : logs ≡ logs_in s.from u.to =
          h.answers u.from u.to logs r ∙ ap (λ a. logs_in a u.to) e in
        rw h.runs.1 (send-Moved s logs u.to _ refl k o f same)
    received-Moved t s u (err c) h r e k o f = stayed s _ o e k
    received-Moved t s u panic h r e k o f = absurd (h.no_panic.1 u.from u.to r)

    observed-Moved :
        (t : Tick) (s : Listener) (r : Result State)
        → Honest t s
        → t.state ≡ r
        → s.closed ≡ false
        → Moved s (observed t s r)
    unfolding observed
    observed-Moved t s (ok state) h r o =
        received-Moved t s _ _ h refl refl refl o (h.forward state r)
    observed-Moved t s (err c) h r o = stayed s _ o refl refl
    observed-Moved t s panic h r o = absurd (h.no_panic.0 r)

    round-Moved : (t : Tick) (s : Listener) → s.closed ≡ false → Honest t s → Moved s (round t s)
    unfolding round
    round-Moved t s o h = simp (o, h.runs.0) (observed-Moved t s t.state h refl o)

    Moved-trans : (a b c : Listener) → Moved a b → Moved b c → Moved a c
    Moved-trans a b c m n = record {
      open' = n.open';
      forward = omega (arith, m.forward, n.forward);
      covered =
          rw (n.covered, m.covered)
            (rw (append_assoc, ← x.adjoins a.from b.from c.from m.forward n.forward));
    }

    rounds-Moved :
        (ts : List Tick) (s : Listener) → s.closed ≡ false → AllHonest ts s → Moved s (rounds ts s)
    unfolding rounds
    rounds-Moved [] s o h = stayed s s o refl refl
    rounds-Moved (t ∷ ts) s o (h, hs) =
        let m = round-Moved t s o h in
        Moved-trans s (round t s) _ m (rounds-Moved ts (round t s) m.open' hs)

    -- Where a query over two adjoining ranges gives the logs of both: after any number of rounds,
    -- failed fetches and queries among them, in which the database does not go back or answer
    -- wrongly and the context is not cancelled, the listener still runs, and what it has sent on
    -- is what it had sent before and then exactly the logs between its old lower bound and its
    -- new one.
    pub rounds-covered :
        (ts : List Tick) (s : Listener)
        → s.closed ≡ false
        → AllHonest ts s
        → ((rounds ts s).closed ≡ false)
          × (all_sent (rounds ts s) ≡ all_sent s ++ logs_in s.from (rounds ts s).from)
    rounds-covered ts s o h = let m = rounds-Moved ts s o h in (m.open', m.covered)
