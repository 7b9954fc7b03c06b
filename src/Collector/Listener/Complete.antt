-- ===== src/Collector/Listener/Complete.antt =====
-- What the router gets of the watched blocks when the database may also go back.
use mathlib.Core.List.{append-nil, Memᴰ, Subset}
use mathlib.Core.Logic.{∥∥₁_map}
use mathlib.Core.List.Memᴰ
use tee_relay_client.Base.{
  ℕ, leb, Bool, true, false, Bool-cases, List, [], ◌∷◌, ◌++◌, ◌≡◌, ◌≢◌, ◌⊎◌, inl, inr, refl, sym,
  subst, ap, ◌∙◌, Result, ok, err, panic, arith, ◌≤◌, ◌+◌,
}
use tee_relay_client.Base.Int.{ℤ, ◌≤ℤ◌, pos_part, neg_part}
use tee_relay_client.Instruction.{Log}
use tee_relay_client.Collector.Listener.{
  State, Listener, Tick, send, received, observed, round, rounds,
}
use tee_relay_client.Collector.Listener.Coverage.{all_sent, Adjoins, joined-snoc}

le_or_ge : (m n : ℕ) → (m ≤ n) ⊎ (n ≤ m)
le_or_ge m n = elim (Bool-cases (leb m n)) [
  | inl e ↦ inl (ground arith)
  | inr e ↦ inr (ground arith)
]

ℤ_le_or_ge : (a b : ℤ) → (a ≤ℤ b) ⊎ (b ≤ℤ a)
ℤ_le_or_ge a b = le_or_ge (pos_part a + neg_part b) (pos_part b + neg_part a)

-- A round either leaves a loop that has returned, or does what its tick says.
pub round_cases :
    (t : Tick) (s : Listener) → ((round t s).closed ≢ false) ⊎ (round t s ≡ observed t s t.state)
unfolding round
round_cases t s = elim (Bool-cases s.closed) [
  | inl e ↦ inl (ground arith)
  | inr e ↦ elim (Bool-cases t.cancelled) [
    | inl c ↦ inl (ground arith)
    | inr c ↦ inr (ground arith)
  ]
]

-- A loop that has returned does not come back.
rounds_closed : (ts : List Tick) (s : Listener) → s.closed ≡ true → (rounds ts s).closed ≡ true
unfolding rounds round
rounds_closed [] s e = e
rounds_closed (t ∷ ts) s e = rounds_closed ts (round t s) (ground arith)

pub rounds_open : (ts : List Tick) (s : Listener) → (rounds ts s).closed ≡ false → s.closed ≡ false
rounds_open ts s o = elim (Bool-cases s.closed) [
  | inl e ↦ absurd (ground (arith, rounds_closed ts s e))
  | inr e ↦ e
]

module _ (logs_in : ℤ → ℤ → List Log) where
  -- Of a query over a range: the logs of its parts, and none where it ends before it begins.
  pub record IsRanged : Type 0 where
    pub adjoins : Adjoins logs_in
    pub empty : (a b : ℤ) → b ≤ℤ a → logs_in a b ≡ []

  -- The database may fail, panic, go back or not answer; where it answers a query, it answers with
  -- the logs of its range.
  abbrev pub Truthful : Tick → Type 0
  Truthful t = (a b : ℤ) (logs : List Log) → t.logs a b ≡ ok logs → logs ≡ logs_in a b

  abbrev pub AllTruthful : List Tick → Type 0
  AllTruthful [] = Unit
  AllTruthful (t ∷ ts) = Truthful t × AllTruthful ts

  -- Each log from a bound to the listener's lower bound was sent on.
  abbrev pub Covers : ℤ → Listener → Type 0
  Covers a s = (log : Log) → Memᴰ log (logs_in a s.from) → Memᴰ log (all_sent s)

  module _ (x : IsRanged) where
    -- Whatever the order of the three bounds.
    range_cases :
        (a b c : ℤ) (log : Log)
        → Memᴰ log (logs_in a b)
        → Memᴰ log (logs_in a c) ⊎ Memᴰ log (logs_in c b)
    range_cases a b c log m = elim (ℤ_le_or_ge b a) [
      | inl back ↦ absurd (Memᴰ.not-nil (subst (Memᴰ log) (x.empty a b back) m))
      | inr h ↦ elim (ℤ_le_or_ge c a) [
        | inl k ↦ inr (rw (x.adjoins c a b k h) (Memᴰ.append_right (logs_in c a) m))
        | inr k ↦ elim (ℤ_le_or_ge c b) [
          | inl l ↦ Memᴰ.append_cases (logs_in a c) (subst (Memᴰ log) (x.adjoins a c b k l) m)
          | inr l ↦ inl (rw (x.adjoins a b c h l) (Memᴰ.append_left (logs_in b c) m))
        ]
      ]
    ]

    -- A query's logs complete what was sent, where they are sent on.
    more :
        {a : ℤ} (s : Listener) (b : ℤ) (logs all : List Log)
        → logs ≡ logs_in s.from b
        → all ≡ all_sent s ++ logs
        → Covers a s
        → (log : Log) → Memᴰ log (logs_in a b)
        → Memᴰ log all
    more {a} s b logs all l e c log m = elim (range_cases a b s.from log m) [
      | inl before ↦ rw e (Memᴰ.append_left logs (c log before))
      | inr now ↦ rw (e, l) (Memᴰ.append_right (all_sent s) now)
    ]

    kept :
        {a : ℤ} (s s' : Listener) → s'.from ≡ s.from → s'.sent ≡ s.sent → Covers a s → Covers a s'
    kept {a} s s' f e c log m = rw e (c log (subst (λ b. Memᴰ log (logs_in a b)) f m))

    send-Covers :
        {a : ℤ} (s u : Listener) (logs : List Log) (cancelled : Bool)
        → u.sent ≡ s.sent
        → logs ≡ logs_in s.from u.from
        → Covers a s
        → (send cancelled logs u).closed ≡ false
        → Covers a (send cancelled logs u)
    unfolding send
    send-Covers s u [] cancelled e l c o =
        more s u.from [] (all_sent u) l (rw e (sym (append-nil (all_sent s)))) c
    send-Covers s u (log ∷ logs) true e l c o = absurd cc
    send-Covers s u (log ∷ logs) false e l c o =
        more s u.from (log ∷ logs) _ l (joined-snoc u.sent (log ∷ logs) ∙ rw e refl) c

    received-Covers :
        {a : ℤ} (t : Tick) (s u : Listener) (r : Result (List Log))
        → Truthful t
        → t.logs u.from u.to ≡ r
        → u.from ≡ s.from
        → u.sent ≡ s.sent
        → Covers a s
        → (received t u r).closed ≡ false
        → Covers a (received t u r)
    unfolding received
    received-Covers t s u (ok logs) h r e k c o =
        let same : logs ≡ logs_in s.from u.to = h u.from u.to logs r ∙ ap (λ a. logs_in a u.to) e in
        send-Covers s _ logs t.cancelled_at_send k same c o
    received-Covers t s u (err d) h r e k c o = kept s (received t u (err d)) e k c
    received-Covers t s u panic h r e k c o = absurd cc

    observed-Covers :
        {a : ℤ} (t : Tick) (s : Listener) (r : Result State)
        → Truthful t
        → Covers a s
        → (observed t s r).closed ≡ false
        → Covers a (observed t s r)
    unfolding observed
    observed-Covers t s (ok state) h c o = received-Covers t s _ _ h refl refl refl c o
    observed-Covers t s (err d) h c o = kept s (observed t s (err d)) refl refl c
    observed-Covers t s panic h c o = absurd cc

    -- A round of a loop that still runs after it.
    pub round-Covers :
        {a : ℤ} (t : Tick) (s : Listener)
        → Truthful t
        → Covers a s
        → (round t s).closed ≡ false
        → Covers a (round t s)
    round-Covers {a} t s h c o = elim (round_cases t s) [
      | inl closed ↦ absurd (closed o)
      | inr e ↦
          subst (Covers a) (sym e)
            (observed-Covers t s t.state h c (ap (λ u. u.closed) (sym e) ∙ o))
    ]

    rounds-Covers :
        {a : ℤ} (ts : List Tick) (s : Listener)
        → AllTruthful ts
        → Covers a s
        → (rounds ts s).closed ≡ false
        → Covers a (rounds ts s)
    unfolding rounds
    rounds-Covers [] s h c o = c
    rounds-Covers (t ∷ ts) s (h, hs) c o =
        rounds-Covers ts (round t s) hs (round-Covers t s h c (rounds_open ts (round t s) o)) o

    pub sent_Covers :
        (ts : List Tick) (s : Listener)
        → AllTruthful ts
        → (rounds ts s).closed ≡ false
        → Covers s.from (rounds ts s)
    sent_Covers ts s h o =
        rounds-Covers ts s h
          (λ log m.
            absurd (Memᴰ.not-nil (subst (Memᴰ log) (x.empty s.from s.from (omega arith)) m)))
          o

    -- Where a query over two adjoining ranges gives the logs of both, and none for a range that
    -- ends before it begins: after rounds in which fetches and queries fail and the database goes
    -- back, but an answered query has the logs of its range, a listener that has not returned has
    -- sent on every log between its old lower bound and its new one.
    pub rounds-complete :
        (ts : List Tick) (s : Listener)
        → AllTruthful ts
        → (rounds ts s).closed ≡ false
        → Subset (logs_in s.from (rounds ts s).from) (all_sent (rounds ts s))
    rounds-complete ts s h o log m = ∥∥₁_map m (sent_Covers ts s h o log)
