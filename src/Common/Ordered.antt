-- ===== src/Common/Ordered.antt =====
-- `BTreeMap`: a map as the list of its entries, sorted by an `Ord` key.
use mathlib.Core.Path.{◌≡◌, refl, sym, ap₂}
use mathlib.Core.Logic.{◌≢◌, inl, inr}
use mathlib.Core.Bool.{Bool, true, false, ◌&&◌, ◌||◌}
use mathlib.Core.Option.{none, some}
use mathlib.Core.List.{List, [], ◌∷◌}
use Prim.Native.Nat.{ℕ, ◌≤◌}
use native.Mathlib.Omega.{arith}
use nexalink_tunnel.Common.Tests.{Eq, Bool-cases, if◌then◌else◌, ltb, ◌==◌, ==_iff}
use nexalink_tunnel.Common.Lists.{length}
use nexalink_tunnel.Common.Maps.{get}

-- A total order as the program uses it (`Ord`).
pub record Ord {ℓ} (A : Type ℓ) : Type ℓ where
  pub less : A → A → Bool
  pub less_irrefl : (a : A) → less a a ≡ false
  pub less_trans : (a b c : A) → less a b ≡ true → less b c ≡ true → less a c ≡ true
  pub less_total : (a b : A) → a ≢ b → less a b ≡ false → less b a ≡ true

module _ {ℓ κ} {K : Type ℓ} {V : Type κ} ⦃e : Eq K⦄ ⦃o : Ord K⦄ where
  -- The value of a key that is there is replaced.
  unfoldable pub insert_sorted : List (K × V) → K → V → List (K × V)
  insert_sorted [] k v = (k, v) ∷ []
  insert_sorted ((j, w) ∷ m) k v =
      if e.beq j k
      then (j, v) ∷ m
      else if o.less k j
      then (k, v) ∷ (j, w) ∷ m
      else (j, w) ∷ insert_sorted m k v

  pub get-insert_sorted :
      (m : List (K × V)) (k j : K) (v : V)
      → get (insert_sorted m k v) j ≡ (if e.beq k j then some v else get m j)
  unfolding get insert_sorted
  get-insert_sorted [] k j v = refl
  get-insert_sorted ((i, w) ∷ m) k j v =
      ground (arith, e.beq_iff k j, e.beq_iff i k, e.beq_iff i j, get-insert_sorted m k j v)

-- The keys increase: each is less than those after it.
module _ {K V : Type 0} ⦃o : Ord K⦄ where
  abbrev pub Above : K → List (K × V) → Type 0
  Above k [] = Unit {0}
  Above k ((j, v) ∷ m) = (o.less k j ≡ true) × Above k m

  abbrev pub IsSorted : List (K × V) → Type 0
  IsSorted [] = Unit {0}
  IsSorted ((k, v) ∷ m) = Above k m × IsSorted m

  Above-trans : (m : List (K × V)) (j k : K) → o.less j k ≡ true → Above k m → Above j m
  Above-trans [] j k h a = tt
  Above-trans ((i, v) ∷ m) j k h a = (o.less_trans j k i h a.0, Above-trans m j k h a.1)

module _ {K V : Type 0} ⦃e : Eq K⦄ ⦃o : Ord K⦄ where
  Above-insert_sorted :
      (m : List (K × V)) (j k : K) (v : V)
      → o.less j k ≡ true
      → Above j m
      → Above j (insert_sorted m k v)
  unfolding insert_sorted
  Above-insert_sorted [] j k v h a = (h, tt)
  Above-insert_sorted ((i, w) ∷ m) j k v h a = elim (Bool-cases (e.beq i k)) [
    | inl same ↦ rw (same) a
    | inr other ↦ elim (Bool-cases (o.less k i)) [
      | inl lt ↦ rw (other, lt) (h, (a.0, a.1))
      | inr ge ↦ rw (other, ge) (a.0, Above-insert_sorted m j k v h a.1)
    ]
  ]

  pub insert_sorted-IsSorted :
      (m : List (K × V)) (k : K) (v : V) → IsSorted m → IsSorted (insert_sorted m k v)
  unfolding insert_sorted
  insert_sorted-IsSorted [] k v s = (tt, tt)
  insert_sorted-IsSorted ((i, w) ∷ m) k v s = elim (Bool-cases (e.beq i k)) [
    | inl same ↦ rw (same) s
    | inr other ↦ elim (Bool-cases (o.less k i)) [
      | inl lt ↦ rw (other, lt) ((lt, Above-trans m k i lt s.0), s)
      | inr ge ↦
          let apart : k ≢ i = λ p. cc (other, (e.beq_iff i k).1 (sym p)) in
          rw (other, ge)
            (
              Above-insert_sorted m i k v (o.less_total k i apart ge) s.0,
              insert_sorted-IsSorted m k v s.1,
            )
    ]
  ]

  pub length-insert_sorted :
      (m : List (K × V)) (k : K) (v : V) → length m ≤ length (insert_sorted m k v)
  unfolding insert_sorted
  length-insert_sorted [] k v = omega arith
  length-insert_sorted ((j, w) ∷ m) k v = ground (arith, length-insert_sorted m k v)

  -- A key that is less than all others is not there.
  pub get-Above : (m : List (K × V)) (k : K) → Above k m → get m k ≡ none
  unfolding get
  get-Above [] k a = refl
  get-Above ((j, v) ∷ m) k a = elim (Bool-cases (e.beq j k)) [
    | inl same ↦ cc ((e.beq_iff j k).0 same, a.0, o.less_irrefl k)
    | inr other ↦ rw (other) (get-Above m k a.1)
  ]

-- Byte strings in lexicographic order.
unfoldable pub bytes_less : List ℕ → List ℕ → Bool
bytes_less [] [] = false
bytes_less [] (b ∷ bs) = true
bytes_less (a ∷ as') [] = false
bytes_less (a ∷ as') (b ∷ bs) = ltb a b || ((a == b) && bytes_less as' bs)

pub bytes_less_irrefl : (a : List ℕ) → bytes_less a a ≡ false
unfolding bytes_less
bytes_less_irrefl [] = refl
bytes_less_irrefl (a ∷ as') = ground (arith, bytes_less_irrefl as')

pub bytes_less_trans :
    (a b c : List ℕ) → bytes_less a b ≡ true → bytes_less b c ≡ true → bytes_less a c ≡ true
unfolding bytes_less
bytes_less_trans [] [] c h k = cc
bytes_less_trans [] (b ∷ bs) [] h k = cc
bytes_less_trans [] (b ∷ bs) (c ∷ cs) h k = refl
bytes_less_trans (a ∷ as') [] c h k = cc
bytes_less_trans (a ∷ as') (b ∷ bs) [] h k = cc
bytes_less_trans (a ∷ as') (b ∷ bs) (c ∷ cs) h k = ground (arith, bytes_less_trans as' bs cs)

pub bytes_less_total : (a b : List ℕ) → a ≢ b → bytes_less a b ≡ false → bytes_less b a ≡ true
unfolding bytes_less
bytes_less_total [] [] n h = absurd (n refl)
bytes_less_total [] (b ∷ bs) n h = cc
bytes_less_total (a ∷ as') [] n h = refl
bytes_less_total (a ∷ as') (b ∷ bs) n h = elim (Bool-cases (a == b)) [
  | inl same ↦
      let tails : as' ≢ bs = λ p. n (ap₂ ◌∷◌ ((==_iff a b).0 same) p) in
      ground (arith, bytes_less_total as' bs tails)
  | inr other ↦ ground (arith, other)
]

pub ltb_irrefl : (a : ℕ) → ltb a a ≡ false
ltb_irrefl a = ground arith

pub ltb_trans : (a b c : ℕ) → ltb a b ≡ true → ltb b c ≡ true → ltb a c ≡ true
ltb_trans a b c h k = ground arith

pub ltb_total : (a b : ℕ) → a ≢ b → ltb a b ≡ false → ltb b a ≡ true
ltb_total a b n h = ground arith

instance abbrev pub nat_Ord : Ord ℕ
nat_Ord = record {
  less = ltb;
  less_irrefl = λ a. ltb_irrefl a;
  less_trans = λ a b c. ltb_trans a b c;
  less_total = λ a b. ltb_total a b;
}
