-- ===== src/Selector/Order.antt =====
-- The order of the keys, and running minima.
use nexalink_tunnel.Common.{
  ◌≡◌, refl, Bool, true, false, ◌&&◌, ◌||◌, Option, none, some, List, [], ◌∷◌, if◌then◌else◌, ◌⊎◌,
  inl, inr, Bool-cases, All, Any, ◌∙◌, sym, ltz, ltz_irrefl, ltz_trans, ltz_negtrans,
}
use nexalink_tunnel.Selector.{
  TransportType, primary_type, backup_type, Key, same_type, lt_type, lt_key, is_none_or,
}

lt_trans_of :
    (s t u : TransportType) (a b c : Bool)
    → ((a ≡ true) → (b ≡ true) → c ≡ true)
    → (lt_type s t || (same_type s t && a)) ≡ true
    → (lt_type t u || (same_type t u && b)) ≡ true
    → (lt_type s u || (same_type s u && c)) ≡ true
unfolding lt_type same_type
lt_trans_of primary_type primary_type primary_type a b c f h k = f h k
lt_trans_of primary_type primary_type backup_type a b c f h k = refl
lt_trans_of primary_type backup_type primary_type a b c f h k = cc
lt_trans_of primary_type backup_type backup_type a b c f h k = refl
lt_trans_of backup_type primary_type u a b c f h k = cc
lt_trans_of backup_type backup_type primary_type a b c f h k = cc
lt_trans_of backup_type backup_type backup_type a b c f h k = f h k

pub lt_key_trans : (a b c : Key) → lt_key a b ≡ true → lt_key b c ≡ true → lt_key a c ≡ true
unfolding lt_key
lt_key_trans a b c h k =
    lt_trans_of a.0 b.0 c.0 (ltz a.1 b.1) (ltz b.1 c.1) (ltz a.1 c.1) (ltz_trans a.1 b.1 c.1) h k

not_lt_trans_of :
    (s t u : TransportType) (a b c : Bool)
    → ((a ≡ false) → (b ≡ false) → c ≡ false)
    → (lt_type s t || (same_type s t && a)) ≡ false
    → (lt_type t u || (same_type t u && b)) ≡ false
    → (lt_type s u || (same_type s u && c)) ≡ false
unfolding lt_type same_type
not_lt_trans_of primary_type primary_type primary_type a b c f h k = f h k
not_lt_trans_of primary_type primary_type backup_type a b c f h k = cc
not_lt_trans_of primary_type backup_type u a b c f h k = cc
not_lt_trans_of backup_type primary_type primary_type a b c f h k = refl
not_lt_trans_of backup_type primary_type backup_type a b c f h k = cc
not_lt_trans_of backup_type backup_type primary_type a b c f h k = refl
not_lt_trans_of backup_type backup_type backup_type a b c f h k = f h k

pub lt_key_negtrans : (a b c : Key) → lt_key a b ≡ false → lt_key b c ≡ false → lt_key a c ≡ false
unfolding lt_key
lt_key_negtrans a b c h k =
    not_lt_trans_of a.0 b.0 c.0 (ltz a.1 b.1) (ltz b.1 c.1) (ltz a.1 c.1) (ltz_negtrans a.1 b.1 c.1)
      h k

same_lt : (s : TransportType) (x : Bool) → (lt_type s s || (same_type s s && x)) ≡ x
unfolding lt_type same_type
same_lt primary_type x = refl
same_lt backup_type x = refl

pub lt_key_irrefl : (a : Key) → lt_key a a ≡ false
unfolding lt_key
lt_key_irrefl a = same_lt a.0 (ltz a.1 a.1) ∙ ltz_irrefl a.1

pub lt_key_asym : (a b : Key) → lt_key a b ≡ true → lt_key b a ≡ false
lt_key_asym a b h = elim (Bool-cases (lt_key b a)) [
  | inl k ↦ absurd (cc (lt_key_trans a b a h k, lt_key_irrefl a))
  | inr k ↦ k
]

-- The element of the least key, the first of those that are equal.
module _ {A : Type 0} (f : A → Key) where
  abbrev pub replace : A → Option A → Option A
  replace a o = if is_none_or o (λ b. lt_key (f a) (f b)) then some a else o

  unfoldable pub running : Option A → List A → Option A
  running o [] = o
  running o (a ∷ l) = running (replace a o) l

  abbrev pub IsLeast : A → List A → Type 0
  IsLeast a l = Any (λ b. b ≡ a) l × All (λ b. lt_key (f b) (f a) ≡ false) l

  some-injective : (a b : A) → some a ≡ some b → a ≡ b
  some-injective a b e = cc

  replace-cases :
      (a : A) (o : Option A)
      → ((replace a o ≡ some a) × ((b : A) → o ≡ some b → lt_key (f a) (f b) ≡ true))
        ⊎ ((b : A) × (o ≡ some b) × (replace a o ≡ some b) × (lt_key (f a) (f b) ≡ false))
  replace-cases a none = inl (refl, λ b e. cc)
  replace-cases a (some c) = elim (Bool-cases (lt_key (f a) (f c))) [
    | inl h ↦ inl (rw (h) refl, λ b e. rw (← some-injective c b e) h)
    | inr h ↦ inr (c, refl, rw (h) refl, h)
  ]

  pub running-IsLeast :
      (o : Option A) (l : List A) (a : A)
      → running o l ≡ some a
      → ((o ≡ some a) ⊎ Any (λ b. b ≡ a) l)
        × All (λ b. lt_key (f b) (f a) ≡ false) l
        × ((b : A) → o ≡ some b → lt_key (f b) (f a) ≡ false)
  unfolding running
  running-IsLeast o [] a h =
      (inl h, tt, λ b e. rw (some-injective b a (sym e ∙ h)) (lt_key_irrefl (f a)))
  running-IsLeast o (c ∷ l) a h =
      let rest = running-IsLeast (replace c o) l a h in
      elim (replace-cases c o) [
        | inl (e, below) ↦ (
          elim rest.0 [ inl g ↦ inr (inl (some-injective c a (sym e ∙ g))) | inr g ↦ inr (inr g) ],
          (rest.2 c e, rest.1),
          λ b g. not_below b (below b g) (rest.2 c e),
        )
        | inr (b, g, e, above) ↦ (
          elim rest.0 [ inl k ↦ inl (g ∙ sym e ∙ k) | inr k ↦ inr (inr k) ],
          (lt_key_negtrans (f c) (f b) (f a) above (rest.2 b e), rest.1),
          λ d k. rest.2 d (e ∙ sym g ∙ k),
        )
      ]
    where
      not_below :
          (b : A)
          → lt_key (f c) (f b) ≡ true
          → lt_key (f c) (f a) ≡ false
          → lt_key (f b) (f a) ≡ false
      not_below b h k = lt_key_negtrans (f b) (f c) (f a) (lt_key_asym (f c) (f b) h) k

  pub running-none : (o : Option A) (l : List A) → running o l ≡ none → (o ≡ none) × (l ≡ [])
  unfolding running
  running-none o [] h = (h, refl)
  running-none o (c ∷ l) h =
      let rest = running-none (replace c o) l h in
      elim (replace-cases c o) [
        | inl (e, below) ↦ absurd (cc (e, rest.0))
        | inr (b, g, e, above) ↦ absurd (cc (e, rest.0))
      ]
