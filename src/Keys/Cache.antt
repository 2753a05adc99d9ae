-- ===== src/Keys/Cache.antt =====
-- `KeyCache` of iroh-relay/src/key_cache.rs, over an abstract `lru::LruCache`.
use nexalink_tunnel.Common.{
  ℕ, zero, suc, false, ◌≡◌, refl, sym, ◌⊎◌, inl, inr, Option, none, some, length, ◌==◌,
  if◌then◌else◌, arith, Bool-cases, Option-cases, Ensures, Result, ok, err, panic,
}
use nexalink_tunnel.External.{Bytes, Crates}
use nexalink_tunnel.Keys.{
  PublicKey, KeyParsingError, key_length, as_bytes, from_bytes, try_from, IsKey, try_from-as_bytes,
  try_from-Ensures,
}

-- `lru::LruCache<PublicKey, ()>` behind its lock. A key is found by its bytes (`Borrow`), a search
-- refreshes the entry, and `put` may evict another key.
pub record Lru : Type 1 where
  pub Table : Type 0
  pub new : ℕ → Table
  pub get_key_value : Table → Bytes → Option PublicKey × Table
  pub put : Table → PublicKey → Table
  pub Holds : Table → PublicKey → Type 0
  pub not-Holds-new : (n : ℕ) (k : PublicKey) → ¬ Holds (new n) k
  pub found_bytes :
      (t : Table) (b : Bytes) (k : PublicKey) → (get_key_value t b).0 ≡ some k → as_bytes k ≡ b
  pub found-Holds :
      (t : Table) (b : Bytes) (k : PublicKey) → (get_key_value t b).0 ≡ some k → Holds t k
  pub Holds-get :
      (t : Table) (b : Bytes) (k : PublicKey) → Holds (get_key_value t b).1 k → Holds t k
  pub Holds-put : (t : Table) (j k : PublicKey) → Holds (put t j) k → Holds t k ⊎ (k ≡ j)

module _ (x : Crates) (l : Lru) where
  pub data KeyCache : Type 0 where
    disabled : KeyCache
    shared : l.Table → KeyCache

  pub new : ℕ → KeyCache
  new zero = disabled
  new (suc n) = shared (l.new (suc n))

  -- The branch that parses and stores the key.
  parse_and_put : l.Table → Bytes → Result KeyParsingError PublicKey × KeyCache
  parse_and_put table bytes = elim (from_bytes x bytes) [
    | ok key ↦ (ok key, shared (l.put table key))
    | err e ↦ (err e, shared table)
    | panic ↦ (panic, shared table)
  ]

  -- `expect_err` on the parse of a slice that is not 32 bytes long.
  wrong_length : Bytes → Result KeyParsingError PublicKey
  wrong_length slice = elim (try_from x slice) [ ok key ↦ panic | err e ↦ err e | panic ↦ panic ]

  pub key_from_slice : KeyCache → Bytes → Result KeyParsingError PublicKey × KeyCache
  unfolding parse_and_put wrong_length
  key_from_slice disabled slice = (try_from x slice, disabled)
  key_from_slice (shared table) slice =
      if length slice == key_length
      then elim (l.get_key_value table slice).0 [
        | some key ↦ (ok key, shared (l.get_key_value table slice).1)
        | none ↦ parse_and_put (l.get_key_value table slice).1 slice
      ]
      else (wrong_length slice, shared table)

  -- The cache stores only keys that were parsed.
  abbrev pub IsSound : KeyCache → Type 0
  IsSound disabled = Unit {0}
  IsSound (shared table) = (k : PublicKey) → l.Holds table k → IsKey x k

  pub new-IsSound : (n : ℕ) → IsSound (new n)
  unfolding new
  new-IsSound zero = tt
  new-IsSound (suc n) = λ k h. absurd (l.not-Holds-new (suc n) k h)

  wrong_length-try_from :
      (slice : Bytes) → (length slice == key_length) ≡ false → wrong_length slice ≡ try_from x slice
  unfolding wrong_length try_from
  wrong_length-try_from slice h = ground (arith, x.is_verifying_key-length slice)

  parse_and_put-try_from :
      (table : l.Table) (slice : Bytes) → (parse_and_put table slice).0 ≡ try_from x slice
  unfolding parse_and_put from_bytes try_from
  parse_and_put-try_from table slice = ground arith

  parse_and_put-IsSound :
      (table : l.Table) (slice : Bytes)
      → IsSound (shared table)
      → IsSound (parse_and_put table slice).1
  unfolding parse_and_put from_bytes
  parse_and_put-IsSound table slice h = elim (Bool-cases (x.is_verifying_key slice)) [
    | inl good ↦
        rw (good, IsSound)
          (λ k held. elim (l.Holds-put table _ k held) [
            | inl old ↦ h k old
            | inr added ↦ rw added good
          ])
    | inr bad ↦ rw (bad, IsSound) h
  ]

  found_try_from :
      (table : l.Table) (slice : Bytes) (key : PublicKey)
      → IsSound (shared table)
      → (l.get_key_value table slice).0 ≡ some key
      → ok key ≡ try_from x slice
  found_try_from table slice key h e =
      rw (← l.found_bytes table slice key e)
        (sym (try_from-as_bytes x key (h key (l.found-Holds table slice key e))))

  -- On a sound cache the answer is the parser's, whatever the cache holds.
  pub key_from_slice-try_from :
      (c : KeyCache) (slice : Bytes) → IsSound c → (key_from_slice c slice).0 ≡ try_from x slice
  unfolding key_from_slice
  key_from_slice-try_from disabled slice h = refl
  key_from_slice-try_from (shared table) slice h = elim (Bool-cases (length slice == key_length)) [
    | inl right ↦ elim (Option-cases (l.get_key_value table slice).0) [
      | inl miss ↦ rw (right, miss) (parse_and_put-try_from _ slice)
      | inr (key, hit) ↦ rw (right, hit) (found_try_from table slice key h hit)
    ]
    | inr wrong ↦ rw wrong (wrong_length-try_from slice wrong)
  ]

  -- Every lookup leaves a sound cache.
  pub key_from_slice-IsSound :
      (c : KeyCache) (slice : Bytes) → IsSound c → IsSound (key_from_slice c slice).1
  unfolding key_from_slice
  key_from_slice-IsSound disabled slice h = tt
  key_from_slice-IsSound (shared table) slice h =
      let kept = λ (k : PublicKey) (held : l.Holds (l.get_key_value table slice).1 k).
        h k (l.Holds-get table slice k held) in
      elim (Bool-cases (length slice == key_length)) [
        | inl right ↦ elim (Option-cases (l.get_key_value table slice).0) [
          | inl miss ↦ rw (right, miss) (parse_and_put-IsSound _ slice kept)
          | inr (key, hit) ↦ rw (right, hit) kept
        ]
        | inr wrong ↦ rw wrong h
      ]

  -- A key that comes out of a sound cache is verified.
  pub key_from_slice-Ensures :
      (c : KeyCache) (slice : Bytes) → IsSound c → Ensures (IsKey x) (key_from_slice c slice).0
  key_from_slice-Ensures c slice h =
      rw (key_from_slice-try_from c slice h) (try_from-Ensures x slice)
