-- ===== src/Base/Contains.antt =====
-- `slices.Contains` over appended lists, and lists without equal elements.
use mathlib.Core.Path.{◌≡◌, refl}
use mathlib.Core.Bool.{true, false, ◌||◌}
use mathlib.Core.List.{List, [], ◌∷◌, ◌++◌}
use native.Mathlib.Omega.{arith}
use tee_relay_client.Base.Equality.{Eq, contains, ◌==◌}

module _ {ℓ} {A : Type ℓ} ⦃e : Eq A⦄ where
  abbrev pub NoDup : List A → Type 0
  NoDup [] = Unit
  NoDup (x ∷ xs) = (contains xs x ≡ false) × NoDup xs

  pub contains-append :
      (xs ys : List A) (a : A) → contains (xs ++ ys) a ≡ (contains xs a || contains ys a)
  contains-append [] ys a = refl
  contains-append (x ∷ xs) ys a = ground (arith, contains-append xs ys a)

  pub eq_refl : (a : A) → (a == a) ≡ true
  eq_refl a = ground arith

  pub eq→≡ : (a b : A) → (a == b) ≡ true → a ≡ b
  eq→≡ a b h = ground arith
