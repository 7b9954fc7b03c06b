-- ===== src/Base/Effect.antt =====
-- Go code that changes shared state and may fail or panic. What was written before an error or a
-- panic stays written.
use Prim.Native.String.{String}
use mathlib.Core.Bool.{Bool, true, false}
use tee_relay_client.Base.Outcome.{Error, Result, ok, err, panic, wrapped}

abbrev pub Go : Type 0 → Type 0 → Type 0
Go S A = S → Result A × S

infixl 5 ◌>>=◌ ◌>>◌
abbrev pub ◌>>=◌ : {S A B : Type 0} → Go S A → (A → Go S B) → Go S B
◌>>=◌ m f s =
    let (r, s') = m s in elim r [ ok a ↦ f a s' | err e ↦ (err e, s') | panic ↦ (panic, s') ]

abbrev pub ◌>>◌ : {S A B : Type 0} → Go S A → Go S B → Go S B
m >> k = m >>= λ _. k

abbrev pub pure : {S A : Type 0} → A → Go S A
pure a s = (ok a, s)

abbrev pub fail : {S A : Type 0} → Error → Go S A
fail e s = (err e, s)

abbrev pub lift : {S A : Type 0} → Result A → Go S A
lift r s = (r, s)

abbrev pub gets : {S A : Type 0} → (S → A) → Go S A
gets f s = (ok (f s), s)

abbrev pub modify : {S : Type 0} → (S → S) → Go S (Unit {0})
modify f s = (ok tt, f s)

abbrev pub fail_if : {S : Type 0} → Bool → Error → Go S (Unit {0})
fail_if true e s = (err e, s)
fail_if false e s = (ok tt, s)

abbrev pub wrapping : {S A : Type 0} → String → Go S A → Go S A
wrapping text m s = let (r, s') = m s in (wrapped text r, s')
