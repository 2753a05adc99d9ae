-- ===== src/Keys.antt =====
-- `PublicKey` of iroh-base/src/key.rs, as far as the relay protocol uses it.
pub mod Cache
use nexalink_tunnel.Common.{
  ℕ, ◌≡◌, true, length, if◌then◌else◌, arith, Ensures, fine, refused, Bool-cases, inl, inr, Result,
  ok, err,
}
use nexalink_tunnel.External.{Bytes, Crates}

-- The compressed y-coordinate.
pub record PublicKey : Type 0 where
  pub y : Bytes

pub data KeyParsingError : Type 0 where
  failed_to_decode_hex failed_to_decode_base32 invalid_length invalid_key_data : KeyParsingError

abbrev pub key_length : ℕ
key_length = 32

abbrev pub as_bytes : PublicKey → Bytes
as_bytes key = key.y

module _ (x : Crates) where
  -- of an array of 32 bytes
  unfoldable pub from_bytes : Bytes → Result KeyParsingError PublicKey
  from_bytes bytes =
      if x.is_verifying_key bytes then ok (record { y = bytes }) else err invalid_key_data

  -- `TryFrom<&[u8]>`, of a slice of any length
  unfoldable pub try_from : Bytes → Result KeyParsingError PublicKey
  try_from bytes =
      if x.is_verifying_key bytes then ok (record { y = bytes }) else err invalid_key_data

  -- A key as it is constructed: verified to decompress.
  abbrev pub IsKey : PublicKey → Type 0
  IsKey key = x.is_verifying_key key.y ≡ true

  pub try_from-as_bytes : (key : PublicKey) → IsKey key → try_from (as_bytes key) ≡ ok key
  unfolding try_from
  try_from-as_bytes key h = ground arith

  -- A parsed key is verified, and has the 32 bytes that were parsed.
  pub try_from_sound :
      (bytes : Bytes) (key : PublicKey)
      → try_from bytes ≡ ok key
      → IsKey key × (as_bytes key ≡ bytes) × (length bytes ≡ key_length)
  unfolding try_from
  try_from_sound bytes key h = ground (arith, x.is_verifying_key-length bytes)

  pub try_from-Ensures : (bytes : Bytes) → Ensures IsKey (try_from bytes)
  unfolding try_from
  try_from-Ensures bytes = elim (Bool-cases (x.is_verifying_key bytes)) [
    | inl good ↦ rw (good, try_from) (fine good)
    | inr bad ↦ rw (bad, try_from) refused
  ]
