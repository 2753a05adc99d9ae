-- ===== src/Dns/Store/Times.antt =====
-- The laws of the index of timestamps.
use nexalink_tunnel.Common.{◌≡◌, ◌≢◌, ◌⊎◌, true, ltb, List, [], ◌∷◌, arith, Bool-cases, inl, inr}
use nexalink_tunnel.Common.Bytes.{bytes_eq_iff, bytes_eq_refl, bytes_Eq}
use nexalink_tunnel.Dns.Store.{
  PublicKeyBytes, Micros, Indexed, remove_time, has_time, insert_time, to_evict,
}

pub has_time-insert_self :
    (rows : List Indexed) (t : Micros) (k : PublicKeyBytes)
    → has_time (insert_time rows t k) t k ≡ true
unfolding has_time insert_time
has_time-insert_self rows t k = elim (Bool-cases (has_time rows t k)) [
  | inl old ↦ rw (old) old
  | inr new ↦ rw (new) (ground (arith, bytes_eq_refl k))
]

pub has_time-insert :
    (rows : List Indexed) (t u : Micros) (k j : PublicKeyBytes)
    → has_time rows t k ≡ true
    → has_time (insert_time rows u j) t k ≡ true
unfolding has_time insert_time
has_time-insert rows t u k j h = elim (Bool-cases (has_time rows u j)) [
  | inl old ↦ rw (old) h
  | inr new ↦ rw (new) (ground (arith, h))
]

pub has_time-remove :
    (rows : List Indexed) (t u : Micros) (k j : PublicKeyBytes)
    → (t ≢ u) ⊎ (k ≢ j)
    → has_time rows t k ≡ true
    → has_time (remove_time rows u j) t k ≡ true
unfolding has_time remove_time
has_time-remove [] t u k j n h = h
has_time-remove (row ∷ rest) t u k j (inl n) h =
    ground (
      arith,
      bytes_eq_iff row.key k,
      bytes_eq_iff row.key j,
      n,
      has_time-remove rest t u k j (inl n),
    )
has_time-remove (row ∷ rest) t u k j (inr n) h =
    ground (
      arith,
      bytes_eq_iff row.key k,
      bytes_eq_iff row.key j,
      n,
      has_time-remove rest t u k j (inr n),
    )

pub has_time-to_evict :
    (rows : List Indexed) (limit t : Micros) (k : PublicKeyBytes)
    → ltb t limit ≡ true
    → has_time rows t k ≡ true
    → has_time (to_evict rows limit) t k ≡ true
unfolding has_time to_evict
has_time-to_evict [] limit t k l h = h
has_time-to_evict (row ∷ rest) limit t k l h = ground (arith, has_time-to_evict rest limit t k l)
