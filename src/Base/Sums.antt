-- ===== src/Base/Sums.antt =====
-- Lists of lists joined, sums over lists, and blocks moved within a permutation.
use Prim.Native.Nat.{ℕ, ◌+◌}
use mathlib.Core.Path.{◌≡◌, refl, subst}
use mathlib.Core.Logic.{inl, inr}
use mathlib.Core.List.{List, [], ◌∷◌, ◌++◌, Perm, append_assoc, perm_append_comm, Memᴰ}
use mathlib.Core.List.Memᴰ
use mathlib.Core.List.Perm
use native.Mathlib.Omega.{arith}

module _ {A B : Type 0} (f : A → List B) where
  abbrev pub flat_map : List A → List B
  flat_map [] = []
  flat_map (x ∷ xs) = f x ++ flat_map xs

  pub flat_map-append : (xs ys : List A) → flat_map (xs ++ ys) ≡ flat_map xs ++ flat_map ys
  flat_map-append [] ys = refl
  flat_map-append (x ∷ xs) ys = rw (flat_map-append xs ys, append_assoc)

  -- An element comes from one of the lists.
  mem-flat_map : (xs : List A) {y : B} → Memᴰ y (flat_map xs) → (x : A) × Memᴰ x xs × Memᴰ y (f x)
  mem-flat_map [] m = absurd (Memᴰ.not-nil m)
  mem-flat_map (x ∷ xs) m = elim (Memᴰ.append_cases (f x) m) [
    | inl now ↦ (x, Memᴰ.head refl, now)
    | inr later ↦ let (z, i, j) = mem-flat_map xs later in (z, Memᴰ.tail i, j)
  ]

  flat_map-mem : (xs : List A) {x : A} {y : B} → Memᴰ x xs → Memᴰ y (f x) → Memᴰ y (flat_map xs)
  flat_map-mem [] i m = absurd (Memᴰ.not-nil i)
  flat_map-mem (z ∷ xs) {y = y} (Memᴰ.head e) m =
      Memᴰ.append_left (flat_map xs) (subst (λ a. Memᴰ y (f a)) e m)
  flat_map-mem (z ∷ xs) (Memᴰ.tail i) m = Memᴰ.append_right (f z) (flat_map-mem xs i m)

  -- More elements give more.
  pub flat_map_mono :
      (xs ys : List A)
      → ((x : A) → Memᴰ x xs → Memᴰ x ys)
      → {y : B} → Memᴰ y (flat_map xs)
      → Memᴰ y (flat_map ys)
  flat_map_mono xs ys h m = let (x, i, j) = mem-flat_map xs m in flat_map-mem ys (h x i) j

module _ {A : Type 0} (f : A → ℕ) where
  abbrev pub total : List A → ℕ
  total [] = 0
  total (x ∷ xs) = f x + total xs

  pub total-append : (xs ys : List A) → total (xs ++ ys) ≡ total xs + total ys
  total-append [] ys = omega arith
  total-append (x ∷ xs) ys = omega (arith, total-append xs ys)

module _ {A : Type 0} where
  -- A block in the middle of the second part moves to its front.
  pub perm_block : (p d q : List A) → Perm (p ++ (d ++ q)) (d ++ (p ++ q))
  perm_block p d q =
      rw (← append_assoc, ← append_assoc) (Perm.append_right q (perm_append_comm p d))

module _ {A : Type 0} (P : A → Type 0) where
  -- Each element of the list.
  abbrev pub All : List A → Type 0
  All [] = Unit
  All (x ∷ xs) = P x × All xs

  pub All-append : (xs ys : List A) → All xs → All ys → All (xs ++ ys)
  All-append [] ys h k = k
  All-append (x ∷ xs) ys (p, h) k = (p, All-append xs ys h k)

  -- An element in the middle, and the others.
  pub All-append_inv :
      (xs : List A) (y : A) (ys : List A) → All (xs ++ (y ∷ ys)) → P y × All (xs ++ ys)
  All-append_inv [] y ys h = h
  All-append_inv (x ∷ xs) y ys (p, h) = let (q, r) = All-append_inv xs y ys h in (q, (p, r))

  pub All_of_members : (xs : List A) → ((x : A) → Memᴰ x xs → P x) → All xs
  All_of_members [] f = tt
  All_of_members (x ∷ xs) f = (f x (Memᴰ.head refl), All_of_members xs (λ y m. f y (Memᴰ.tail m)))

pub All-All :
    {A : Type 0} (P R : A → Type 0) (xs : List A) → ((x : A) → P x → R x) → All P xs → All R xs
All-All P R [] f h = tt
All-All P R (x ∷ xs) f (p, h) = (f x p, All-All P R xs f h)
