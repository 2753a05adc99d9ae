-- ===== src/Common/Results.antt =====
-- Fallible code: `Result<A, E>`, and a panic as a third outcome.
use mathlib.Core.Path.{◌≡◌, refl, subst}
use mathlib.Core.Logic.{◌≢◌, ◌⊎◌, inl, inr}
use mathlib.Core.Bool.{Bool, true, false}

pub data Result {ℓ κ} (E : Type ℓ) (A : Type κ) : Type (ℓ ⊔ κ) where
  ok : A → Result E A
  err : E → Result E A
  panic : Result E A

-- `?` on a result.
infixl 5 ◌>>=◌ ◌>>◌
abbrev pub ◌>>=◌ {ℓ κ ι} :
    {E : Type ℓ} {A : Type κ} {B : Type ι} → Result E A → (A → Result E B) → Result E B
ok a >>= f = f a
err e >>= f = err e
panic >>= f = panic

abbrev pub ◌>>◌ {ℓ κ} : {E : Type ℓ} {B : Type κ} → Result E (Unit {0}) → Result E B → Result E B
m >> k = m >>= λ _. k

-- `ensure!(test, error)`
abbrev pub ensure {ℓ} : {E : Type ℓ} → Bool → E → Result E (Unit {0})
ensure true e = ok tt
ensure false e = err e

-- `assert!`-like: a test whose failure is a panic, such as a slice index out of range.
abbrev pub require {ℓ} : {E : Type ℓ} → Bool → Result E (Unit {0})
require true = ok tt
require false = panic

-- `map_err`, and the conversion that `?` makes.
abbrev pub map_err {ℓ κ ι} :
    {E : Type ℓ} {F : Type κ} {A : Type ι} → (E → F) → Result E A → Result F A
map_err f (ok a) = ok a
map_err f (err e) = err (f e)
map_err f panic = panic

-- The outcome is a value with the property, or an error: no panic.
pub data Ensures {E A : Type 0} (P : A → Type 0) : Result E A → Type 0 where
  fine : {a : A} → P a → Ensures P (ok a)
  refused : {e : E} → Ensures P (err e)

module _ {E A : Type 0} {P : A → Type 0} where
  pub Ensures->>= :
      {B : Type 0} {Q : B → Type 0} {m : Result E A} {f : A → Result E B}
      → Ensures P m
      → ((a : A) → P a → Ensures Q (f a))
      → Ensures Q (m >>= f)
  Ensures->>= (fine {a = a} h) k = k a h
  Ensures->>= refused k = refused

  pub Ensures-map_err :
      {F : Type 0} (f : E → F) {r : Result E A} → Ensures P r → Ensures P (map_err f r)
  Ensures-map_err f (fine h) = fine h
  Ensures-map_err f refused = refused

  pub Ensures-ne-panic : {r : Result E A} → Ensures P r → r ≢ panic
  Ensures-ne-panic (fine h) = λ e. cc
  Ensures-ne-panic refused = λ e. cc

  -- What is known of the value.
  pub Ensures-value : {r : Result E A} {a : A} → Ensures P r → r ≡ ok a → P a
  Ensures-value (fine h) e = subst P (cc) h
  Ensures-value refused e = cc

-- To split on a computed outcome and keep the equation.
pub Result-cases {ℓ κ} :
    {E : Type ℓ} {A : Type κ} (r : Result E A)
    → ((a : A) × (r ≡ ok a)) ⊎ ((e : E) × (r ≡ err e)) ⊎ (r ≡ panic)
Result-cases (ok a) = inl (a, refl)
Result-cases (err e) = inr (inl (e, refl))
Result-cases panic = inr (inr refl)
