-- ===== src/Common/Maps.antt =====
-- Maps as association lists over an `Eq` key, with the laws that the components use.
use mathlib.Core.Path.{◌≡◌, refl, ◌∙◌}
use mathlib.Core.Logic.{◌≢◌, ◌⊎◌, inl, inr}
use mathlib.Core.Bool.{Bool, true, false, ◌||◌}
use mathlib.Core.Option.{Option, none, some}
use mathlib.Core.List.{List, [], ◌∷◌, ◌++◌}
use native.Mathlib.Omega.{arith}
use nexalink_tunnel.Common.Tests.{Eq, Bool-cases, if◌then◌else◌}

pub beq_refl {ℓ} : {K : Type ℓ} ⦃e : Eq K⦄ → (k : K) → e.beq k k ≡ true
beq_refl ⦃e⦄ k = (e.beq_iff k k).1 refl

module _ {ℓ κ} {K : Type ℓ} {V : Type κ} ⦃e : Eq K⦄ where
  unfoldable pub get : List (K × V) → K → Option V
  get [] k = none
  get ((j, v) ∷ m) k = if e.beq j k then some v else get m k

  unfoldable pub insert : List (K × V) → K → V → List (K × V)
  insert [] k v = (k, v) ∷ []
  insert ((j, w) ∷ m) k v = if e.beq j k then (j, v) ∷ m else (j, w) ∷ insert m k v

  -- Every entry of the key goes, so the law needs no invariant.
  unfoldable pub remove : List (K × V) → K → List (K × V)
  remove [] k = []
  remove ((j, v) ∷ m) k = let rest = remove m k in if e.beq j k then rest else (j, v) ∷ rest

  pub get-insert :
      (m : List (K × V)) (k j : K) (v : V)
      → get (insert m k v) j ≡ (if e.beq k j then some v else get m j)
  unfolding get insert
  get-insert [] k j v = refl
  get-insert ((i, w) ∷ m) k j v =
      ground (arith, e.beq_iff k j, e.beq_iff i k, e.beq_iff i j, get-insert m k j v)

  pub get-remove :
      (m : List (K × V)) (k j : K) → get (remove m k) j ≡ (if e.beq k j then none else get m j)
  unfolding get remove
  get-remove [] k j = ground arith
  get-remove ((i, w) ∷ m) k j =
      ground (arith, e.beq_iff k j, e.beq_iff i k, e.beq_iff i j, get-remove m k j)

  pub get-insert_self : (m : List (K × V)) (k : K) (v : V) → get (insert m k v) k ≡ some v
  get-insert_self m k v = rw (get-insert m k k v, beq_refl k)

  pub get-insert_ne : (m : List (K × V)) (k j : K) (v : V) → k ≢ j → get (insert m k v) j ≡ get m j
  get-insert_ne m k j v h = ground (arith, get-insert m k j v, e.beq_iff k j)

  -- What is found after an insertion was inserted or was there.
  pub get-insert_cases :
      (m : List (K × V)) (k j : K) (v w : V)
      → get (insert m k v) j ≡ some w
      → ((k ≡ j) × (v ≡ w)) ⊎ ((k ≢ j) × (get m j ≡ some w))
  get-insert_cases m k j v w h = elim (Bool-cases (e.beq k j)) [
    | inl same ↦ inl ((e.beq_iff k j).0 same, ground (arith, get-insert m k j v))
    | inr other ↦ inr (λ p. cc (other, (e.beq_iff k j).1 p), ground (arith, get-insert m k j v))
  ]

  pub get-remove_cases :
      (m : List (K × V)) (k j : K) (w : V)
      → get (remove m k) j ≡ some w
      → (k ≢ j) × (get m j ≡ some w)
  get-remove_cases m k j w h = elim (Bool-cases (e.beq k j)) [
    | inl same ↦ absurd (ground (arith, get-remove m k j))
    | inr other ↦ (λ p. cc (other, (e.beq_iff k j).1 p), ground (arith, get-remove m k j))
  ]

  pub get-remove_self : (m : List (K × V)) (k : K) → get (remove m k) k ≡ none
  get-remove_self m k = rw (get-remove m k k, beq_refl k)

  pub get-remove_ne : (m : List (K × V)) (k j : K) → k ≢ j → get (remove m k) j ≡ get m j
  get-remove_ne m k j h = ground (arith, get-remove m k j, e.beq_iff k j)

-- Sets as lists of their elements.
module _ {ℓ} {A : Type ℓ} ⦃e : Eq A⦄ where
  unfoldable pub contains : List A → A → Bool
  contains [] a = false
  contains (b ∷ bs) a = e.beq b a || contains bs a

  unfoldable pub insert_set : List A → A → List A
  insert_set bs a = if contains bs a then bs else bs ++ (a ∷ [])

  pub contains-append :
      (xs ys : List A) (a : A) → contains (xs ++ ys) a ≡ (contains xs a || contains ys a)
  unfolding contains
  contains-append [] ys a = refl
  contains-append (x ∷ xs) ys a = ground (arith, contains-append xs ys a)

  pub contains-insert_set : (xs : List A) (a : A) → contains (insert_set xs a) a ≡ true
  unfolding contains insert_set
  contains-insert_set xs a = elim (Bool-cases (contains xs a)) [
    | inl h ↦ rw (h) h
    | inr h ↦ rw (h) (ground (arith, contains-append xs (a ∷ []) a, beq_refl a))
  ]

  pub contains-insert_set_or :
      (xs : List A) (a b : A) → contains (insert_set xs a) b ≡ (e.beq a b || contains xs b)
  unfolding contains insert_set
  contains-insert_set_or xs a b = elim (Bool-cases (contains xs a)) [
    | inl h ↦ rw (h) (known (Bool-cases (e.beq a b)) h)
    | inr h ↦ rw (h) (contains-append xs (a ∷ []) b ∙ last (contains xs b) (e.beq a b))
  ]
    where
      known :
          (e.beq a b ≡ true) ⊎ (e.beq a b ≡ false)
          → contains xs a ≡ true
          → contains xs b ≡ (e.beq a b || contains xs b)
      known (inl same) h = let p = (e.beq_iff a b).0 same in rw (same, ← p) h
      known (inr other) h = rw (other) refl

      last : (c d : Bool) → (c || (d || false)) ≡ (d || c)
      last true true = refl
      last true false = refl
      last false true = refl
      last false false = refl
