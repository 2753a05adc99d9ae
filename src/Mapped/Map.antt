-- ===== src/Mapped/Map.antt =====
-- `AddrMap` of iroh/src/socket/mapped_addrs.rs: a two-way map between keys and mapped addresses.
-- The lock is held for the whole of `get`, so a call is one step; the counter of the address kind
-- is passed along.
pub mod Runs
use nexalink_tunnel.Common.{
  ℕ, ◌+◌, ◌^◌, ◌<◌, ◌≤◌, ◌≡◌, ◌≢◌, ◌∙◌, sym, ap, Option, none, some, List, [], ◌∷◌, arith, Eq,
  Option-cases, inl, inr,
}
use nexalink_tunnel.Common.Maps
use nexalink_tunnel.Common.Maps.{insert, get-insert_self, get-insert_ne, get-insert_cases}
use nexalink_tunnel.Mapped.Addr.{fetch_add_one}

-- Counters that fit in 64 bits build different addresses.
abbrev pub IsInjective : {V : Type 0} → (ℕ → V) → Type 0
IsInjective addr_of = (n m : ℕ) → n < 2 ^ 64 → m < 2 ^ 64 → addr_of n ≡ addr_of m → n ≡ m

pub record AddrMapInner (K V : Type 0) : Type 0 where
  pub addrs : List (K × V)
  pub lookup : List (V × K)

-- `addr_of` is the address that `V::generate` builds from the counter's value.
module _ {K V : Type 0} ⦃ek : Eq K⦄ ⦃ev : Eq V⦄ (addr_of : ℕ → V) where
  -- The branch that generates an address.
  unfoldable pub generate_for : AddrMapInner K V → ℕ → K → V × AddrMapInner K V × ℕ
  generate_for inner counter key =
      let (n, counter') = fetch_add_one counter in
      let addr = addr_of n in
      (
        addr,
        record { addrs = insert inner.addrs key addr; lookup = insert inner.lookup addr key },
        counter',
      )

  unfoldable pub get : AddrMapInner K V → ℕ → K → V × AddrMapInner K V × ℕ
  get inner counter key = elim (Maps.get inner.addrs key) [
    | some addr ↦ (addr, inner, counter)
    | none ↦ generate_for inner counter key
  ]

  -- The reverse lookup.
  unfoldable pub lookup_key : AddrMapInner K V → V → Option K
  lookup_key inner addr = Maps.get inner.lookup addr

  -- Calls of `get`, one after the other: each key with its address. The number beside a key is that
  -- of the values that the other users of the counter take before the call.
  unfoldable pub gets : AddrMapInner K V → ℕ → List (ℕ × K) → List (K × V) × AddrMapInner K V × ℕ
  gets inner counter [] = ([], inner, counter)
  gets inner counter ((taken, key) ∷ keys) =
      let (addr, inner', counter') = get inner (counter + taken) key in
      let (given, inner'', counter'') = gets inner' counter' keys in
      ((key, addr) ∷ given, inner'', counter'')

  -- The two maps are inverse, and every address was built from a value below the counter.
  pub record IsValid (m : AddrMapInner K V) (counter : ℕ) : Type 0 where
    pub forward : (k : K) (v : V) → Maps.get m.addrs k ≡ some v → Maps.get m.lookup v ≡ some k
    pub backward : (k : K) (v : V) → Maps.get m.lookup v ≡ some k → Maps.get m.addrs k ≡ some v
    pub below :
        (k : K) (v : V) → Maps.get m.addrs k ≡ some v → (n : ℕ) × (n < counter) × (v ≡ addr_of n)

  pub new-IsValid : (counter : ℕ) → IsValid (record { addrs = []; lookup = [] }) counter
  unfolding Maps.get
  new-IsValid counter = record {
    forward = λ k v e. cc;
    backward = λ k v e. cc;
    below = λ k v e. cc;
  }

  module _ (inj : IsInjective addr_of) (m : AddrMapInner K V) (counter : ℕ)
      (valid : IsValid m counter) (room : counter + 1 < 2 ^ 64) (key : K) where
    fresh : (k : K) (v : V) → Maps.get m.addrs k ≡ some v → addr_of counter ≢ v
    fresh k v e same =
        let (n, lt, built) = valid.below k v e in
        absurd (omega (arith, inj counter n (omega arith) (omega arith) (same ∙ built)))

    unknown : (k : K) (v : V) → Maps.get m.addrs key ≡ none → Maps.get m.addrs k ≡ some v → key ≢ k
    unknown k v new e same = cc (new, e, ap (Maps.get m.addrs) same)

    generate_for-IsValid :
        Maps.get m.addrs key ≡ none
        → IsValid (generate_for m counter key).1 (generate_for m counter key).2
    unfolding generate_for
    generate_for-IsValid new = record {
      forward = λ k v e. elim (get-insert_cases m.addrs key k (addr_of counter) v e) [
        | inl (same, built) ↦ rw (← same, ← built) (get-insert_self m.lookup (addr_of counter) key)
        | inr (other, old) ↦
            get-insert_ne m.lookup (addr_of counter) v key (fresh k v old) ∙ valid.forward k v old
      ];
      backward = λ k v e. elim (get-insert_cases m.lookup (addr_of counter) v key k e) [
        | inl (built, same) ↦ rw (← same, ← built) (get-insert_self m.addrs key (addr_of counter))
        | inr (other, old) ↦
            let found = valid.backward k v old in
            get-insert_ne m.addrs key k (addr_of counter) (unknown k v new found) ∙ found
      ];
      below = λ k v e. elim (get-insert_cases m.addrs key k (addr_of counter) v e) [
        | inl (same, built) ↦ (counter, omega arith, sym built)
        | inr (other, old) ↦ let (n, lt, p) = valid.below k v old in (n, omega arith, p)
      ];
    }

    -- `get` keeps the two maps inverse.
    pub get-IsValid : IsValid (get m counter key).1 (get m counter key).2
    unfolding get
    get-IsValid = elim (Option-cases (Maps.get m.addrs key)) [
      | inl new ↦ rw (new, get) (generate_for-IsValid new)
      | inr (addr, old) ↦ rw (old, get) valid
    ]

    pub stored : Maps.get (get m counter key).1.addrs key ≡ some (get m counter key).0
    unfolding get generate_for
    stored = elim (Option-cases (Maps.get m.addrs key)) [
      | inl new ↦ rw (new, get) (get-insert_self m.addrs key (addr_of counter))
      | inr (addr, old) ↦ rw (old, get) old
    ]

  -- What is stored stays.
  pub get_keeps :
      (m : AddrMapInner K V) (counter : ℕ) (key k : K) (v : V)
      → Maps.get m.addrs k ≡ some v
      → Maps.get (get m counter key).1.addrs k ≡ some v
  unfolding get generate_for
  get_keeps m counter key k v h = elim (Option-cases (Maps.get m.addrs key)) [
    | inl new ↦
        rw (new, get)
          (get-insert_ne m.addrs key k _ (λ same. cc (new, h, ap (Maps.get m.addrs) same)) ∙ h)
    | inr (addr, old) ↦ rw (old, get) h
  ]

  pub counter_grows :
      (m : AddrMapInner K V) (counter : ℕ) (key : K)
      → counter + 1 < 2 ^ 64
      → (get m counter key).2 ≤ counter + 1
  unfolding get generate_for
  counter_grows m counter key room = elim (Option-cases (Maps.get m.addrs key)) [
    | inl new ↦ rw (new, get) (omega arith)
    | inr (addr, old) ↦ rw (old, get) (omega arith)
  ]
