-- ===== src/Base/Outcome.antt =====
-- What a Go call gives back: a value, an error or a panic.
use Prim.Native.Nat.{ℕ, zero, suc}
use Prim.Native.String.{String}
use mathlib.Core.List.{List, [], ◌∷◌}
use mathlib.Core.Path.{◌≡◌, refl}
use mathlib.Core.Option.{Option, none, some}
use mathlib.Core.Logic.{◌⊎◌, inl, inr}

-- `errors.New` and `fmt.Errorf` by their fixed text, and `%w` as `wrap`.
pub data Error : Type 0 where
  new : String → Error
  wrap : String → Error → Error

pub data Result {ℓ} (A : Type ℓ) : Type ℓ where
  ok : A → Result A
  err : Error → Result A
  panic : Result A

-- `if err != nil { return fmt.Errorf("text: %w", err) }`
abbrev pub wrapped {ℓ} : {A : Type ℓ} → String → Result A → Result A
wrapped text (ok a) = ok a
wrapped text (err e) = err (wrap text e)
wrapped text panic = panic

-- `if err != nil { return errors.New("text") }`
abbrev pub replaced {ℓ} : {A : Type ℓ} → String → Result A → Result A
replaced text (ok a) = ok a
replaced text (err e) = err (new text)
replaced text panic = panic

abbrev pub then_do {ℓ κ} : {A : Type ℓ} {B : Type κ} → Result A → (A → Result B) → Result B
then_do (ok a) f = f a
then_do (err e) f = err e
then_do panic f = panic

-- `v, exists := m[k]`, and the error where it does not.
abbrev pub or_err {ℓ} : {A : Type ℓ} → Option A → Error → Result A
or_err none e = err e
or_err (some a) e = ok a

-- `s[i]`, which panics out of range.
abbrev pub index {ℓ} : {A : Type ℓ} → List A → ℕ → Result A
index [] i = panic
index (x ∷ xs) zero = ok x
index (x ∷ xs) (suc i) = index xs i

-- What a successful sequence was made of.
pub then_do-eq-ok {ℓ κ} :
    {A : Type ℓ} {B : Type κ} (m : Result A) (f : A → Result B) {b : B}
    → then_do m f ≡ ok b
    → (a : A) × (m ≡ ok a) × (f a ≡ ok b)
then_do-eq-ok (ok a) f h = (a, refl, h)
then_do-eq-ok (err e) f h = cc
then_do-eq-ok panic f h = cc

pub wrapped-eq-ok {ℓ} :
    {A : Type ℓ} (text : String) (m : Result A) {a : A} → wrapped text m ≡ ok a → m ≡ ok a
wrapped-eq-ok text (ok a) h = h
wrapped-eq-ok text (err e) h = cc
wrapped-eq-ok text panic h = cc

-- To split on a computed result and keep the equation.
pub Result-cases {ℓ} :
    {A : Type ℓ} (r : Result A)
    → ((a : A) × (r ≡ ok a)) ⊎ (((e : Error) × (r ≡ err e)) ⊎ (r ≡ panic))
Result-cases (ok a) = inl (a, refl)
Result-cases (err e) = inr (inl (e, refl))
Result-cases panic = inr (inr refl)
