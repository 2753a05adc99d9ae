-- ===== src/Common/Chunks.antt =====
-- A byte sequence cut into pieces of a fixed size, the last one perhaps shorter.
use native.Mathlib.Nat.{suc-add, zero-add, zero-mul}
use Prim.Native.Nat.{ℕ, zero, suc, ◌+◌, ◌*◌, ◌≤◌, ◌<◌, min}
use mathlib.Core.Path.{◌≡◌, refl, sym, ap, ◌∙◌}
use mathlib.Core.List.{List, [], ◌∷◌, ◌++◌}
use native.Mathlib.Omega.{arith}
use mathlib.Core.Logic.{◌⊎◌, inl, inr}
use native.Mathlib.Decide.{dec_le}
use nexalink_tunnel.Common.Lists.{length, take, drop, length-drop}

-- Cases on a minimum.
min_cases : (n m : ℕ) → (min n m ≡ n) ⊎ ((min n m ≡ m) × (m ≤ n))
min_cases n m = elim (dec_le n m) [
  | yes short ↦ inl (omega arith)
  | no long ↦ inr (omega arith, omega arith)
]

module _ {ℓ} {A : Type ℓ} where
  -- With fuel: a piece takes an element at least.
  unfoldable pub chunks_fuel : ℕ → ℕ → List A → List (List A)
  chunks_fuel n s [] = []
  chunks_fuel zero s (x ∷ xs) = []
  chunks_fuel (suc n) s (x ∷ xs) = take s (x ∷ xs) ∷ chunks_fuel n s (drop s (x ∷ xs))

  unfoldable pub chunks : ℕ → List A → List (List A)
  chunks s xs = chunks_fuel (length xs) s xs

  take_all : (n : ℕ) (xs : List A) → length xs ≤ n → take n xs ≡ xs
  take_all zero [] h = refl
  take_all zero (x ∷ xs) h = absurd (omega arith)
  take_all (suc n) [] h = refl
  take_all (suc n) (x ∷ xs) h = ap (◌∷◌ x) (take_all n xs (omega arith))

  drop_all : (n : ℕ) (xs : List A) → length xs ≤ n → drop n xs ≡ []
  drop_all zero [] h = refl
  drop_all zero (x ∷ xs) h = absurd (omega arith)
  drop_all (suc n) [] h = refl
  drop_all (suc n) (x ∷ xs) h = drop_all n xs (omega arith)

  drop_nil : (n : ℕ) → drop {A = A} n [] ≡ []
  drop_nil zero = refl
  drop_nil (suc n) = refl

  take_nil : (n : ℕ) → take {A = A} n [] ≡ []
  take_nil zero = refl
  take_nil (suc n) = refl

  -- Beyond the end nothing changes.
  pub take-min : (n : ℕ) (xs : List A) → take (min n (length xs)) xs ≡ take n xs
  take-min n xs = elim (min_cases n (length xs)) [
    | inl short ↦ rw short
    | inr (long, past) ↦ rw long (take_all (length xs) xs (omega arith) ∙ sym (take_all n xs past))
  ]

  pub drop-min : (n : ℕ) (xs : List A) → drop (min n (length xs)) xs ≡ drop n xs
  drop-min n xs = elim (min_cases n (length xs)) [
    | inl short ↦ rw short
    | inr (long, past) ↦ rw long (drop_all (length xs) xs (omega arith) ∙ sym (drop_all n xs past))
  ]

  pub drop-drop : (a b : ℕ) (xs : List A) → drop b (drop a xs) ≡ drop (a + b) xs
  drop-drop zero b xs = rw zero-add
  drop-drop (suc a) b [] = drop_nil b ∙ sym (drop_nil (suc a + b))
  drop-drop (suc a) b (x ∷ xs) = rw suc-add (drop-drop a b xs)

  take-take_add : (a b : ℕ) (xs : List A) → take a (take (a + b) xs) ≡ take a xs
  take-take_add zero b xs = refl
  take-take_add (suc a) b [] = rw (take_nil (suc a + b))
  take-take_add (suc a) b (x ∷ xs) = rw suc-add (ap (◌∷◌ x) (take-take_add a b xs))

  drop-take_add : (a b : ℕ) (xs : List A) → drop a (take (a + b) xs) ≡ take b (drop a xs)
  drop-take_add zero b xs = rw zero-add
  drop-take_add (suc a) b [] = rw (take_nil (suc a + b)) (sym (take_nil b))
  drop-take_add (suc a) b (x ∷ xs) = rw suc-add (drop-take_add a b xs)

  -- Enough fuel is as good as any.
  chunks_fuel-eq :
      (n m s : ℕ) (xs : List A)
      → 0 < s
      → length xs ≤ n
      → length xs ≤ m
      → chunks_fuel n s xs ≡ chunks_fuel m s xs
  unfolding chunks_fuel
  chunks_fuel-eq n m s [] h a b = refl
  chunks_fuel-eq zero m s (x ∷ xs) h a b = absurd (omega arith)
  chunks_fuel-eq (suc n) zero s (x ∷ xs) h a b = absurd (omega arith)
  chunks_fuel-eq (suc n) (suc m) s (x ∷ xs) h a b = ap (◌∷◌ (take s (x ∷ xs))) (
      chunks_fuel-eq n m s (drop s (x ∷ xs)) h (omega (arith, length-drop s (x ∷ xs)))
        (omega (arith, length-drop s (x ∷ xs))))

  pub chunks-cons :
      (s : ℕ) (x : A) (xs : List A)
      → 0 < s
      → chunks s (x ∷ xs) ≡ take s (x ∷ xs) ∷ chunks s (drop s (x ∷ xs))
  unfolding chunks chunks_fuel
  chunks-cons s x xs h = ap (◌∷◌ (take s (x ∷ xs))) (
      chunks_fuel-eq (length xs) (length (drop s (x ∷ xs))) s (drop s (x ∷ xs)) h
        (omega (arith, length-drop s (x ∷ xs))) (omega arith))

  pub chunks_nil : (s : ℕ) → chunks s [] ≡ []
  unfolding chunks chunks_fuel
  chunks_nil s = refl

  -- What is no longer than a piece is one piece.
  pub chunks_one :
      (s : ℕ) (x : A) (xs : List A) → length (x ∷ xs) ≤ s → chunks s (x ∷ xs) ≡ (x ∷ xs) ∷ []
  chunks_one s x xs h =
      rw (
        chunks-cons s x xs (omega arith),
        take_all s (x ∷ xs) h,
        drop_all s (x ∷ xs) h,
        chunks_nil s,
      )

  chunks-take_add :
      (a b : ℕ) (x : A) (xs : List A)
      → 0 < a
      → chunks a (take (a + b) (x ∷ xs)) ≡ take a (x ∷ xs) ∷ chunks a (take b (drop a (x ∷ xs)))
  chunks-take_add zero b x xs h = absurd (omega arith)
  chunks-take_add (suc a) b x xs h =
      rw (suc-add, chunks-cons (suc a) x (take (a + b) xs) h)
        (rw (take-take_add a b xs, drop-take_add a b xs))

  -- A cut at a multiple of the size cuts no piece.
  pub chunks-take-drop :
      (k s : ℕ) (xs : List A)
      → 0 < s
      → chunks s (take (k * s) xs) ++ chunks s (drop (k * s) xs) ≡ chunks s xs
  chunks-take-drop zero s xs h = rw (zero-mul s, chunks_nil s)
  chunks-take-drop (suc k) s [] h = rw (take_nil (suc k * s), drop_nil (suc k * s), chunks_nil s)
  chunks-take-drop (suc k) s (x ∷ xs) h =
      rw
        (
          size,
          chunks-take_add s (k * s) x xs h,
          ← drop-drop s (k * s) (x ∷ xs),
          chunks-cons s x xs h,
        )
        (ap (◌∷◌ (take s (x ∷ xs))) (chunks-take-drop k s (drop s (x ∷ xs)) h))
    where
      size : suc k * s ≡ s + k * s
      size = omega arith

  -- A part of `k` pieces has `k` pieces at most.
  pub length-chunks-take : (k s : ℕ) (xs : List A) → 0 < s → length (chunks s (take (k * s) xs)) ≤ k
  length-chunks-take zero s xs h = rw (zero-mul s, chunks_nil s) (omega arith)
  length-chunks-take (suc k) s [] h = rw (take_nil (suc k * s), chunks_nil s) (omega arith)
  length-chunks-take (suc k) s (x ∷ xs) h =
      rw (size, chunks-take_add s (k * s) x xs h)
        (omega (arith, length-chunks-take k s (drop s (x ∷ xs)) h))
    where
      size : suc k * s ≡ s + k * s
      size = omega arith
