-- ===== src/Paths/Prune/Collect.antt =====
-- The lists that the pruning collects, as sets.
use nexalink_tunnel.Common.{
  ℕ, zero, suc, ◌≡◌, refl, Bool, true, ◌||◌, none, List, [], ◌∷◌, map, length, take, drop,
  if◌then◌else◌, Eq, arith, ap,
}
use nexalink_tunnel.Common.Maps.{get}
use nexalink_tunnel.Paths.Prune.{Instant, retain, insert_sorted, sort_latest_first}
use nexalink_tunnel.Common.Maps.{contains}

module _ {A : Type 0} ⦃e : Eq A⦄ where
  pub contains-take :
      (n : ℕ) (xs : List A) (a : A) → contains (take n xs) a ≡ true → contains xs a ≡ true
  unfolding contains
  contains-take zero xs a h = cc
  contains-take (suc n) [] a h = h
  contains-take (suc n) (x ∷ xs) a h = ground (arith, contains-take n xs a)

  abbrev pub keys_of : List (A × Instant) → List A
  keys_of = map (λ b. b.0)

  pub contains-drop :
      (n : ℕ) (xs : List (A × Instant)) (a : A)
      → contains (keys_of (drop n xs)) a ≡ true
      → contains (keys_of xs) a ≡ true
  unfolding contains
  contains-drop zero xs a h = h
  contains-drop (suc n) [] a h = h
  contains-drop (suc n) (x ∷ xs) a h = ground (arith, contains-drop n xs a)

  contains-insert_sorted :
      (b : A × Instant) (xs : List (A × Instant)) (a : A)
      → contains (keys_of (insert_sorted b xs)) a ≡ (e.beq b.0 a || contains (keys_of xs) a)
  unfolding contains insert_sorted
  contains-insert_sorted b [] a = refl
  contains-insert_sorted b (x ∷ xs) a = ground (arith, contains-insert_sorted b xs a)

  -- Sorting keeps the addresses.
  pub contains-sort_latest_first :
      (xs : List (A × Instant)) (a : A)
      → contains (keys_of (sort_latest_first xs)) a ≡ contains (keys_of xs) a
  unfolding contains sort_latest_first
  contains-sort_latest_first [] a = refl
  contains-sort_latest_first (x ∷ xs) a =
      ground
        (arith, contains-insert_sorted x (sort_latest_first xs) a, contains-sort_latest_first xs a)

  pub get-retain :
      {V : Type 0} (keep : A → Bool) (m : List (A × V)) (a : A)
      → get (retain keep m) a ≡ (if keep a then get m a else none)
  unfolding get retain
  get-retain keep [] a = ground arith
  get-retain keep ((b, v) ∷ m) a = ground (arith, get-retain keep m a, e.beq_iff b a, ap keep)

length-insert_sorted :
    {A : Type 0} (b : A × Instant) (xs : List (A × Instant))
    → length (insert_sorted b xs) ≡ suc (length xs)
unfolding insert_sorted
length-insert_sorted b [] = refl
length-insert_sorted b (x ∷ xs) = ground (arith, length-insert_sorted b xs)

pub length-sort_latest_first :
    {A : Type 0} (xs : List (A × Instant)) → length (sort_latest_first xs) ≡ length xs
unfolding sort_latest_first
length-sort_latest_first [] = refl
length-sort_latest_first (x ∷ xs) =
    omega (arith, length-insert_sorted x (sort_latest_first xs), length-sort_latest_first xs)
