-- ===== src/Mapped/Map/Runs.antt =====
-- Runs of `AddrMap::get` of iroh/src/socket/mapped_addrs.rs: which address belongs to which key.
use nexalink_tunnel.Common.{
  ℕ, ◌+◌, ◌^◌, ◌<◌, ◌≡◌, ◌↔◌, sym, ap, ◌∙◌, some, List, [], ◌∷◌, arith, Eq, ◌⊎◌, inl, inr,
}
use nexalink_tunnel.Common.Maps
use nexalink_tunnel.Mapped.Map.{
  IsInjective, AddrMapInner, get, gets, lookup_key, IsValid, new-IsValid, get-IsValid, stored,
  get_keeps, counter_grows,
}

-- Whether a pair stands in a list.
abbrev pub IsGiven : {K V : Type 0} → K → V → List (K × V) → Type 0
IsGiven k v [] = ⊥
IsGiven k v ((key, addr) ∷ given) = ((key ≡ k) × (addr ≡ v)) ⊎ IsGiven k v given

-- The values that the calls and the other users of the counter take at most.
unfoldable pub used : {K : Type 0} → List (ℕ × K) → ℕ
used [] = 0
used ((taken, key) ∷ keys) = taken + 1 + used keys

-- No socket asked for an address yet.
abbrev pub empty : {K V : Type 0} → AddrMapInner K V
empty = record { addrs = []; lookup = [] }

module _ {K V : Type 0} ⦃ek : Eq K⦄ ⦃ev : Eq V⦄ (addr_of : ℕ → V) (inj : IsInjective addr_of) where
  gets_keeps :
      (m : AddrMapInner K V) (counter : ℕ) (keys : List (ℕ × K)) (k : K) (v : V)
      → Maps.get m.addrs k ≡ some v
      → Maps.get (gets addr_of m counter keys).1.addrs k ≡ some v
  unfolding gets
  gets_keeps m counter [] k v h = h
  gets_keeps m counter ((taken, key) ∷ keys) k v h =
      let r = get addr_of m (counter + taken) key in
      gets_keeps r.1 r.2 keys k v (get_keeps addr_of m (counter + taken) key k v h)

  later-IsValid :
      (m : AddrMapInner K V) (counter taken : ℕ)
      → IsValid addr_of m counter
      → IsValid addr_of m (counter + taken)
  later-IsValid m counter taken valid = record {
    forward = valid.forward;
    backward = valid.backward;
    below = λ k v e. let (n, lt, p) = valid.below k v e in (n, omega arith, p);
  }

  -- Every pair that was given is stored at the end, and the maps are inverse.
  gets_stored :
      (m : AddrMapInner K V) (counter : ℕ) (keys : List (ℕ × K))
      → IsValid addr_of m counter
      → counter + used keys < 2 ^ 64
      → let (given, m', counter') = gets addr_of m counter keys in
        ((k : K) (v : V) → IsGiven k v given → Maps.get m'.addrs k ≡ some v)
        × IsValid addr_of m' counter'
  unfolding gets used
  gets_stored m counter [] valid room = (λ k v given. absurd given, valid)
  gets_stored m counter ((taken, key) ∷ keys) valid room =
      let c = counter + taken in
      let r = get addr_of m c key in
      let one : c + 1 < 2 ^ 64 = omega arith in
      let here = later-IsValid m counter taken valid in
      let rest =
        gets_stored r.1 r.2 keys (get-IsValid addr_of inj m c here one key)
          (omega (arith, counter_grows addr_of m c key one)) in
      (
        λ k v given. elim given [
          | inl (same, addr) ↦
              gets_keeps r.1 r.2 keys k v
                (rw (← same, ← addr) (stored addr_of inj m c here one key))
          | inr later ↦ rest.0 k v later
        ],
        rest.1,
      )

  -- For an address kind whose addresses differ on different counters, and a run of calls of `get`
  -- from the empty map, in which the counter starts anywhere, other users of it take values between
  -- the calls, and the values that are taken stay below 2 ^ 64: an address that `get` handed out for a
  -- key leads back to that key at the end of the run, and of two calls the addresses are the same just
  -- where the keys are.
  pub gets_unique :
      (counter : ℕ) (keys : List (ℕ × K)) (k k' : K) (v v' : V)
      → counter + used keys < 2 ^ 64
      → IsGiven k v (gets addr_of empty counter keys).0
      → IsGiven k' v' (gets addr_of empty counter keys).0
      → (lookup_key addr_of (gets addr_of empty counter keys).1 v ≡ some k) × ((k ≡ k') ↔ (v ≡ v'))
  unfolding lookup_key
  gets_unique counter keys k k' v v' room g g' =
      let run = gets_stored empty counter keys (new-IsValid addr_of counter) room in
      let there = run.0 k v g in
      let there' = run.0 k' v' g' in
      let m = (gets addr_of empty counter keys).1 in
      let back = run.1.forward k v there in
      let back' = run.1.forward k' v' there' in
      (
        back,
        (
          λ same. cc (sym there ∙ ap (Maps.get m.addrs) same ∙ there'),
          λ same. cc (sym back ∙ ap (Maps.get m.lookup) same ∙ back'),
        ),
      )
