-- ===== src/Relay/Signed.antt =====
-- The signatures of what the sender posts, for processors that end by signing with a local key.
use mathlib.Core.List.{append-nil}
use tee_relay_client.Base.{
  ℕ, Bool, List, [], ◌∷◌, ◌++◌, All, All-append, All-append_inv, Bytes, bytes, String, ◌≡◌, ◌≢◌,
  refl, subst, arith, Option, none, some, Result, ok, err, panic,
}
use tee_relay_client.Signer.{Key, new_local}
use tee_relay_client.Instruction.{TeeMachine, Data, Instr, Log, World}
use tee_relay_client.Processor.{Env, Processor, sign_and_emit}
use tee_relay_client.Processor.Laws.{sign_and_emit_failed}
use tee_relay_client.Sender.{Delivery, fan_out}
use tee_relay_client.Pipeline.{Authentic, sign_and_emit-Authentic}
use tee_relay_client.Relay.Defs.{
  routing, processing, sending, Job, Relay, Progress, receive, handle, emit, give_up, take, post,
  collect, progress, Runs, begun, next, idle_relay,
}

-- The post is addressed to a tee's own endpoint with the tee's own id, and carries the key's
-- signature of the hash of just what it posts.
pub record SignedPost (hash_for_signing : ℕ → Data → Result Bytes) (k : Key) (chain_id : ℕ)
    (r : Result Delivery) : Type 0 where
  pub delivery : Delivery
  pub prepared : r ≡ ok delivery
  pub tee : TeeMachine
  pub own_endpoint : delivery.url_endpoint ≡ tee.url ++ bytes "/instruction"
  pub own_id : delivery.message.payload.tee_id ≡ tee.tee_id
  pub hash : Bytes
  pub hashed : hash_for_signing chain_id delivery.message.payload ≡ ok hash
  pub signed : k.sign_hash hash ≡ ok delivery.message.signature

module _ (text : String) (env : Env) (k : Key) (chain_id : ℕ) (out_set : Bool) where
  abbrev base : Processor
  base = record { chain_id = chain_id; signer = new_local k; out_set = out_set }

  abbrev pub handed : Result (Unit {0}) × World → Option Instr
  handed (ok tt, w) = some w.ib
  handed (err e, w) = none
  handed (panic, w) = none

  -- The end of a processor, for one that comes to it.
  abbrev pub ending : Option World → Option Instr
  ending none = none
  ending (some w) = handed (sign_and_emit text env base w)

  abbrev listed : Option Instr → List Instr
  listed none = []
  listed (some ib) = ib ∷ []

  out_handed :
      (x : Result (Unit {0}) × World) (sent : List Instr)
      → (x.0 ≡ ok tt → x.1.out ≡ sent ++ (x.1.ib ∷ []))
      → (x.0 ≢ ok tt → x.1.out ≡ sent)
      → x.1.out ≡ sent ++ listed (handed x)
  out_handed (ok tt, w) sent h k = h refl
  out_handed (err e, w) sent h k = rw (append-nil sent) (k (λ q. cc))
  out_handed (panic, w) sent h k = rw (append-nil sent) (k (λ q. cc))

  -- What the end of a processor sends on the channel is what `ending` says it hands on.
  pub sign_and_emit-ending :
      (w : World) → (sign_and_emit text env base w).1.out ≡ w.out ++ listed (ending (some w))
  sign_and_emit-ending w =
      out_handed (sign_and_emit text env base w) w.out
        (λ h. (sign_and_emit-Authentic text env k chain_id out_set w h).0)
        (sign_and_emit_failed env base text w)

  abbrev Posts : List (Result Delivery) → Type 0
  Posts = All (SignedPost env.hash_for_signing k chain_id)

  Authentic-Posts :
      (d : Data) (tees : List TeeMachine) (sent : List (Result Delivery))
      → Authentic env.hash_for_signing k chain_id d tees sent
      → Posts sent
  Authentic-Posts d [] [] h = tt
  Authentic-Posts d [] (r ∷ sent) h = absurd h
  Authentic-Posts d (tee ∷ tees) [] h = absurd h
  Authentic-Posts d (tee ∷ tees) (err e ∷ sent) h = absurd h
  Authentic-Posts d (tee ∷ tees) (panic ∷ sent) h = absurd h
  Authentic-Posts d (tee ∷ tees) (ok m ∷ sent) (u, p, (x, h, g), rest) = (
    record {
      delivery = m;
      prepared = refl;
      tee = tee;
      own_endpoint = u;
      own_id = rw p refl;
      hash = x;
      hashed = h;
      signed = g;
    },
    Authentic-Posts d tees sent rest,
  )

  handed_lem :
      (x : Result (Unit {0}) × World) (ib : Instr)
      → handed x ≡ some ib
      → (x.0 ≡ ok tt) × (x.1.ib ≡ ib)
  handed_lem (ok tt, w) ib h = (refl, ground arith)
  handed_lem (err e, w) ib h = absurd cc
  handed_lem (panic, w) ib h = absurd cc

  ending-Posts : (o : Option World) (ib : Instr) → ending o ≡ some ib → Posts (fan_out ib)
  ending-Posts none ib h = absurd cc
  ending-Posts (some w) ib h =
      let (done, same) = handed_lem (sign_and_emit text env base w) ib h in
      let (grown, a) = sign_and_emit-Authentic text env k chain_id out_set w done in
      subst (λ x. Posts (fan_out x)) same
        (Authentic-Posts w.ib.general_data w.ib.tees (fan_out (sign_and_emit text env base w).1.ib)
          a)

  -- What the processors do before their end.
  module _ (starts : Log → List Job) (before : Job → Option World) where
    abbrev pub work : Job → Option Instr
    work job = ending (before job)

    -- All that was handed to the sender, is being posted and was posted.
    record AllSigned (s : Relay) : Type 0 where
      waiting : All (λ ib. Posts (fan_out ib)) s.r_to_s
      posting : Posts s.posting
      posted : Posts s.posted

    Progress-AllSigned : {s t : Relay} → Progress starts work s t → AllSigned s → AllSigned t
    Progress-AllSigned (routing (receive logs rest o b e u)) i =
        rw u (record { waiting = i.waiting; posting = i.posting; posted = i.posted })
    Progress-AllSigned (routing (handle log logs b u)) i =
        rw u (record { waiting = i.waiting; posting = i.posting; posted = i.posted })
    Progress-AllSigned {s} (processing (emit front back job ib r w l u)) i = rw u (record {
      waiting =
          All-append (λ x. Posts (fan_out x)) s.r_to_s (ib ∷ []) i.waiting
            (ending-Posts (before job) ib w, tt);
      posting = i.posting;
      posted = i.posted;
    })
    Progress-AllSigned (processing (give_up front back job r w u)) i =
        rw u (record { waiting = i.waiting; posting = i.posting; posted = i.posted })
    Progress-AllSigned {s} (sending (take ib rest o e u)) i =
        let (now, later) : Posts (fan_out ib) × All (λ x. Posts (fan_out x)) rest =
          subst (All (λ x. Posts (fan_out x))) e i.waiting in
        rw u (record {
          waiting = later;
          posting =
              All-append (SignedPost env.hash_for_signing k chain_id) s.posting (fan_out ib)
                i.posting now;
          posted = i.posted;
        })
    Progress-AllSigned {s} (sending (post front back d e u)) i =
        let (now, others) =
          All-append_inv (SignedPost env.hash_for_signing k chain_id) front d back
            (subst Posts e i.posting) in
        rw u (record {
          waiting = i.waiting;
          posting = others;
          posted =
              All-append (SignedPost env.hash_for_signing k chain_id) s.posted (d ∷ []) i.posted
                (now, tt);
        })

    Runs-AllSigned : {t : Relay} → Runs starts work idle_relay t → AllSigned t
    unfolding idle_relay
    Runs-AllSigned begun = record { waiting = tt; posting = tt; posted = tt }
    Runs-AllSigned (next r (progress p)) = Progress-AllSigned p (Runs-AllSigned r)
    Runs-AllSigned (next r (collect logs nonempty room u)) =
        let i = Runs-AllSigned r in
        rw u (record { waiting = i.waiting; posting = i.posting; posted = i.posted })

    -- Where each processor that hands an instruction on ends by `sign_and_emit` with the local
    -- signer, whatever it did before: at every moment of a relay that is not cancelled, in
    -- whatever order the goroutines take their steps, each post that was made was prepared
    -- without an error, goes to a tee's own endpoint with the tee's own id, and carries the
    -- private key's signature of the hash of what it posts.
    pub Runs-SignedPost :
        {t : Relay}
        → Runs starts work idle_relay t
        → All (SignedPost env.hash_for_signing k chain_id) t.posted
    Runs-SignedPost r = (Runs-AllSigned r).posted
