-- ===== src/Relay/Work/Posts.antt =====
-- What the sender posts of an instruction that a processor ended on.
use mathlib.Core.List.{Memᴰ}
use mathlib.Core.List.Memᴰ
use tee_relay_client.Base.{
  ℕ, List, [], ◌∷◌, ◌++◌, length, Bytes, bytes, Result, ok, ◌≡◌, ◌∙◌, refl, sym, ap, subst, arith,
}
use tee_relay_client.Signer.{Key, Signer, new_local}
use tee_relay_client.Signer.Laws.{SignsEach, SignedBy, new_local-sign}
use tee_relay_client.Instruction.{TeeMachine, Data, Instr, World}
use tee_relay_client.Instruction.Signing.{HashedFor, Signed-length, data_for}
use tee_relay_client.Processor.{Env, Processor}
use tee_relay_client.Sender.{Delivery, fan_out}
use tee_relay_client.Sender.Laws.{deliveries, fan_out-deliveries}
use tee_relay_client.Relay.Work.Vouched.{LastAct}

-- The two stand at the same place of the two lists.
pub data Beside (x y : Bytes) : List Bytes → List Bytes → Type 0 where
  now : (xs ys : List Bytes) → Beside x y (x ∷ xs) (y ∷ ys)
  later : (z u : Bytes) (xs ys : List Bytes) → Beside x y xs ys → Beside x y (z ∷ xs) (u ∷ ys)

-- The signature is what the signer answered for the hash, in one of its calls.
pub record Signature (s : Signer) (hash sig : Bytes) : Type 0 where
  pub time : ℕ
  pub hashes : List Bytes
  pub sigs : List Bytes
  pub answer : s.sign time hashes ≡ ok sigs
  pub place : Beside hash sig hashes sigs

SignedBy-Beside :
    (k : Key) (hash sig : Bytes) (hashes sigs : List Bytes)
    → SignedBy k hashes sigs
    → Beside hash sig hashes sigs
    → k.sign_hash hash ≡ ok sig
SignedBy-Beside k hash sig _ _ s (now xs ys) = s.0
SignedBy-Beside k hash sig _ _ s (later z u xs ys b) = SignedBy-Beside k hash sig xs ys s.1 b

-- The local signer's is the key's.
pub new_local-Signature :
    (k : Key) (hash sig : Bytes) → Signature (new_local k) hash sig → k.sign_hash hash ≡ ok sig
new_local-Signature k hash sig g =
    SignedBy-Beside k hash sig g.hashes g.sigs (new_local-sign k g.time g.hashes g.sigs g.answer)
      g.place

-- A post of the instruction to one of its tees, at the tee's own URL, of the data with the tee's own
-- id and a signature of just that data.
pub record PostTo (hash_for_signing : ℕ → Data → Result Bytes) (Signs : Bytes → Bytes → Type 0)
    (chain_id : ℕ) (ib : Instr) (r : Result Delivery) : Type 0 where
  pub delivery : Delivery
  pub prepared : r ≡ ok delivery
  pub tee : TeeMachine
  pub tee_in : Memᴰ tee ib.tees
  pub own_endpoint : delivery.url_endpoint ≡ tee.url ++ bytes "/instruction"
  pub own_payload : delivery.message.payload ≡ data_for ib.general_data tee
  pub hash : Bytes
  pub hashed : hash_for_signing chain_id delivery.message.payload ≡ ok hash
  pub signed : Signs hash delivery.message.signature

module _ (hash_for_signing : ℕ → Data → Result Bytes) (Signs : Bytes → Bytes → Type 0)
    (chain_id : ℕ) (ib : Instr) where
  deliveries-PostTo :
      (tees : List TeeMachine) (hashes sigs : List Bytes) (r : Result Delivery)
      → ((tee : TeeMachine) → Memᴰ tee tees → Memᴰ tee ib.tees)
      → HashedFor hash_for_signing chain_id ib.general_data tees hashes
      → ((hash sig : Bytes) → Beside hash sig hashes sigs → Signs hash sig)
      → Memᴰ r (deliveries ib.general_data tees sigs)
      → PostTo hash_for_signing Signs chain_id ib r
  deliveries-PostTo [] hashes sigs r f h g m = absurd (Memᴰ.not-nil m)
  deliveries-PostTo (tee ∷ tees) hashes [] r f h g m = absurd (Memᴰ.not-nil m)
  deliveries-PostTo (tee ∷ tees) [] (sig ∷ sigs) r f h g m = absurd h
  deliveries-PostTo (tee ∷ tees) (hash ∷ hashes) (sig ∷ sigs) r f h g (Memᴰ.head e) = record {
    delivery = _;
    prepared = e;
    tee = tee;
    tee_in = f tee (Memᴰ.head refl);
    own_endpoint = refl;
    own_payload = refl;
    hash = hash;
    hashed = h.0;
    signed = g hash sig (now hashes sigs);
  }
  deliveries-PostTo (tee ∷ tees) (hash ∷ hashes) (sig ∷ sigs) r f h g (Memᴰ.tail i) =
      deliveries-PostTo tees hashes sigs r (λ t j. f t (Memᴰ.tail j)) h.1
        (λ x y b. g x y (later hash sig hashes sigs b)) i

-- What a processor sends with a signer that keeps its contract.
pub LastAct-PostTo :
    (env : Env) (b : Processor) (w w' : World) (r : Result Delivery)
    → SignsEach b.signer
    → LastAct env b w w'
    → Memᴰ r (fan_out w'.ib)
    → PostTo env.hash_for_signing (Signature b.signer) b.chain_id w'.ib r
LastAct-PostTo env b w w' r each last m =
    let mid = last.mid in
    let d = last.emitted.signed in
    let same : w'.ib ≡ record mid.ib { signatures = d.sigs } =
      ground (arith, last.emitted.ib_kept, d.after) in
    let sigs_kept : w'.ib.signatures ≡ d.sigs = ap (λ (ib : Instr). ib.signatures) same in
    let hashed : HashedFor env.hash_for_signing b.chain_id w'.ib.general_data w'.ib.tees d.hashes =
      subst (λ ib. HashedFor env.hash_for_signing b.chain_id ib.general_data ib.tees d.hashes)
        (sym same) d.hashed in
    let one_each : length w'.ib.signatures ≡ length w'.ib.tees =
      rw last.emitted.ib_kept
        (Signed-length env.hash_for_signing b.signer b.chain_id mid last.emitted.mid each d) in
    let sent : fan_out w'.ib ≡ deliveries w'.ib.general_data w'.ib.tees d.sigs =
      fan_out-deliveries w'.ib one_each ∙ ap (deliveries w'.ib.general_data w'.ib.tees) sigs_kept in
    deliveries-PostTo env.hash_for_signing (Signature b.signer) b.chain_id w'.ib w'.ib.tees d.hashes
      d.sigs r (λ t j. j) hashed
      (λ hash sig place. record {
        time = mid.tick;
        hashes = d.hashes;
        sigs = d.sigs;
        answer = d.answer;
        place = place;
      })
      (subst (Memᴰ r) sent m)

pub PostTo-map :
    (hash_for_signing : ℕ → Data → Result Bytes) (Signs Signs' : Bytes → Bytes → Type 0)
    (chain_id : ℕ) (ib : Instr) (r : Result Delivery)
    → ((hash sig : Bytes) → Signs hash sig → Signs' hash sig)
    → PostTo hash_for_signing Signs chain_id ib r
    → PostTo hash_for_signing Signs' chain_id ib r
PostTo-map hash_for_signing Signs Signs' chain_id ib r f p = record {
  delivery = p.delivery;
  prepared = p.prepared;
  tee = p.tee;
  tee_in = p.tee_in;
  own_endpoint = p.own_endpoint;
  own_payload = p.own_payload;
  hash = p.hash;
  hashed = p.hashed;
  signed = f p.hash p.delivery.message.signature p.signed;
}
