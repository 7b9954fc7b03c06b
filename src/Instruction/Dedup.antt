-- ===== src/Instruction/Dedup.antt =====
-- `removeDuplicates` keeps the first of equal machines.
use mathlib.Core.List.{append-nil, append_assoc}
use tee_relay_client.Base.{
  Bool, true, false, not, ◌&&◌, List, [], ◌∷◌, ◌++◌, ◌≡◌, refl, Eq, contains, NoDup,
  contains-append, eq_refl, if◌then◌else◌, arith,
}
use tee_relay_client.Instruction.{dedup_loop, remove_duplicates}

module _ {A : Type 0} ⦃e : Eq A⦄ where
  -- The elements with no equal one before them, where `before` is all that stood in front.
  abbrev pub first_occurrences : (before : List A) → List A → List A
  first_occurrences before [] = []
  first_occurrences before (x ∷ s) =
      let rest = first_occurrences (before ++ (x ∷ [])) s in
      if contains before x then rest else x ∷ rest

  grown_set :
      (set before : List A) (x : A)
      → ((y : A) → contains set y ≡ contains before y)
      → (y : A)
      → contains (if contains set x then set else x ∷ set) y ≡ contains (before ++ (x ∷ [])) y
  grown_set set before x same y = ground (arith, same x, same y, contains-append before (x ∷ []) y)

  dedup_loop_lem :
      (set unique before s : List A)
      → ((y : A) → contains set y ≡ contains before y)
      → dedup_loop set unique s ≡ unique ++ first_occurrences before s
  unfolding dedup_loop
  dedup_loop_lem set unique before [] same = rw append-nil
  dedup_loop_lem set unique before (x ∷ s) same =
      rw
        (dedup_loop_lem (if contains set x then set else x ∷ set)
          (if contains set x then unique else unique ++ (x ∷ [])) (before ++ (x ∷ [])) s
          (grown_set set before x same))
        (split (contains before x) (same x))
    where
      split :
          (b : Bool)
          → contains set x ≡ b
          → (if contains set x then unique else unique ++ (x ∷ []))
              ++ first_occurrences (before ++ (x ∷ [])) s
            ≡ unique
              ++ (if b
                  then first_occurrences (before ++ (x ∷ [])) s
                  else x ∷ first_occurrences (before ++ (x ∷ [])) s)
      split true h = rw h
      split false h = rw h (append_assoc unique (x ∷ []) _)

  -- `removeDuplicates` gives exactly the elements that have no equal one before them, in their
  -- order.
  pub remove_duplicates-first_occurrences :
      (s : List A) → remove_duplicates s ≡ first_occurrences [] s
  unfolding remove_duplicates
  remove_duplicates-first_occurrences s = dedup_loop_lem [] [] [] s (λ y. refl)

  contains-first_occurrences :
      (before s : List A) (y : A)
      → contains (first_occurrences before s) y ≡ (contains s y && not (contains before y))
  contains-first_occurrences before [] y = refl
  contains-first_occurrences before (x ∷ s) y = ground (
    arith,
    contains-first_occurrences (before ++ (x ∷ [])) s y,
    contains-append before (x ∷ []) y,
  )

  first_occurrences-NoDup : (before s : List A) → NoDup (first_occurrences before s)
  first_occurrences-NoDup before [] = tt
  first_occurrences-NoDup before (x ∷ s) = ground (
    arith,
    first_occurrences-NoDup (before ++ (x ∷ [])) s,
    contains-first_occurrences (before ++ (x ∷ [])) s x,
    contains-append before (x ∷ []) x,
    eq_refl x,
  )

  -- `removeDuplicates` neither loses nor adds an element.
  pub contains-remove_duplicates :
      (s : List A) (y : A) → contains (remove_duplicates s) y ≡ contains s y
  contains-remove_duplicates s y =
      rw remove_duplicates-first_occurrences (ground (arith, contains-first_occurrences [] s y))

  -- No two elements of the result of `removeDuplicates` are equal.
  pub remove_duplicates-NoDup : (s : List A) → NoDup (remove_duplicates s)
  remove_duplicates-NoDup s = rw remove_duplicates-first_occurrences (first_occurrences-NoDup [] s)
