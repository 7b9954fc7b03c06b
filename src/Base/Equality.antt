-- ===== src/Base/Equality.antt =====
-- Go's `==` on comparable types, and byte strings. A Go string, a `common.Hash`, a
-- `common.Address` and a byte slice are all lists of byte values.
use Prim.Native.Nat.{ℕ}
use mathlib.Core.Logic.{ite}
use mathlib.Core.Bool.{Bool, true, false, ◌||◌}
use mathlib.Core.List.{List, [], ◌∷◌}
use native.Mathlib.Decide.{ℕ_discrete}

pub record Eq {ℓ} (A : Type ℓ) : Type ℓ where
  pub dec : Discrete A

module _ {ℓ} {A : Type ℓ} ⦃e : Eq A⦄ where
  infix 50 ◌==◌
  abbrev pub ◌==◌ : A → A → Bool
  a == b = ite (e.dec a b) true false

  -- `slices.Contains`
  abbrev pub contains : List A → A → Bool
  contains [] a = false
  contains (x ∷ xs) a = x == a || contains xs a

abbrev pub Bytes : Type 0
Bytes = List ℕ

unfoldable pub bytes_dec : Discrete Bytes
unfolding ℕ_discrete
bytes_dec = hlevel ℕ_discrete

instance abbrev pub nat_eq : Eq ℕ
nat_eq = record { dec = ℕ_discrete }

instance abbrev pub bytes_eq : Eq Bytes
bytes_eq = record { dec = bytes_dec }
