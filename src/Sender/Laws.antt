-- ===== src/Sender/Laws.antt =====
-- Each tee gets the data with its own id, and the signature of that data.
use tee_relay_client.Base.{
  ℕ, zero, suc, ◌+◌, List, [], ◌∷◌, ◌++◌, length, length-append, Bytes, leb, false, ◌≡◌, refl, ap,
  ◌∙◌, sym, Result, ok, index, arith,
}
use tee_relay_client.Instruction.{Data, Instr, TeeMachine}
use tee_relay_client.Instruction.Signing.{data_for}
use tee_relay_client.Sender.{Delivery, send_to_tee, deliver, fan_out_from, fan_out}

-- The deliveries of an instruction with one signature for each tee.
abbrev pub deliveries : Data → List TeeMachine → List Bytes → List (Result Delivery)
deliveries d [] sigs = []
deliveries d (tee ∷ tees) [] = []
deliveries d (tee ∷ tees) (sig ∷ sigs) =
    ok (send_to_tee tee.url (record { payload = data_for d tee; signature = sig }))
    ∷ deliveries d tees sigs

module _ {A : Type 0} where
  index-append :
      (xs : List A) (x : A) (ys : List A) (n : ℕ) → length xs ≡ n → index (xs ++ (x ∷ ys)) n ≡ ok x
  index-append [] x ys zero h = refl
  index-append [] x ys (suc n) h = absurd (omega arith)
  index-append (y ∷ xs) x ys zero h = absurd (omega arith)
  index-append (y ∷ xs) x ys (suc n) h = index-append xs x ys n (omega arith)

  append-snoc : (xs : List A) (x : A) (ys : List A) → (xs ++ (x ∷ [])) ++ ys ≡ xs ++ (x ∷ ys)
  append-snoc [] x ys = refl
  append-snoc (y ∷ xs) x ys = ap (λ l. y ∷ l) (append-snoc xs x ys)

deliver_at :
    (ib : Instr) (pre : List TeeMachine) (sent : List Bytes) (tee : TeeMachine)
    (tees : List TeeMachine) (sig : Bytes) (sigs : List Bytes) (j : ℕ)
    → ib.tees ≡ pre ++ (tee ∷ tees)
    → ib.signatures ≡ sent ++ (sig ∷ sigs)
    → length pre ≡ j
    → length sent ≡ j
    → deliver ib j
      ≡ ok
          (send_to_tee tee.url (record { payload = data_for ib.general_data tee; signature = sig }))
unfolding deliver
deliver_at ib pre sent tee tees sig sigs j e k m n =
    let inside : length ib.tees ≡ j + suc (length tees) =
      rw e (omega (arith, length-append pre (tee ∷ tees))) in
    let in_range : leb (length ib.tees) j ≡ false = ground arith in
    let t : index ib.tees j ≡ ok tee = rw e (index-append pre tee tees j m) in
    let g : index ib.signatures j ≡ ok sig = rw k (index-append sent sig sigs j n) in
    rw (in_range, t, g)

fan_out_from_lem :
    (ib : Instr) (pre : List TeeMachine) (sent : List Bytes) (tees : List TeeMachine)
    (sigs : List Bytes) (j : ℕ)
    → ib.tees ≡ pre ++ tees
    → ib.signatures ≡ sent ++ sigs
    → length pre ≡ j
    → length sent ≡ j
    → length tees ≡ length sigs
    → fan_out_from ib j tees ≡ deliveries ib.general_data tees sigs
unfolding fan_out_from
fan_out_from_lem ib pre sent [] sigs j e k m n l = refl
fan_out_from_lem ib pre sent (tee ∷ tees) [] j e k m n l = absurd (omega arith)
fan_out_from_lem ib pre sent (tee ∷ tees) (sig ∷ sigs) j e k m n l =
    let rest : fan_out_from ib (j + 1) tees ≡ deliveries ib.general_data tees sigs =
      fan_out_from_lem ib (pre ++ (tee ∷ [])) (sent ++ (sig ∷ [])) tees sigs (j + 1)
        (e ∙ sym (append-snoc pre tee tees)) (k ∙ sym (append-snoc sent sig sigs))
        (omega (arith, length-append pre (tee ∷ []))) (omega (arith, length-append sent (sig ∷ [])))
        (omega arith) in
    rw (deliver_at ib pre sent tee tees sig sigs j e k m n, rest)

-- With one signature for each tee, no delivery fails or panics: the j-th tee is sent the data with
-- its own id and the j-th signature, at its own URL.
pub fan_out-deliveries :
    (ib : Instr)
    → length ib.signatures ≡ length ib.tees
    → fan_out ib ≡ deliveries ib.general_data ib.tees ib.signatures
unfolding fan_out
fan_out-deliveries ib h =
    fan_out_from_lem ib [] [] ib.tees ib.signatures 0 refl refl refl refl (omega arith)
