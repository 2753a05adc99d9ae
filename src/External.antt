-- ===== src/External.antt =====
-- What the modelled code takes from other crates, with the documented behaviour that it relies on.
use nexalink_tunnel.Common.{
  ℕ, ◌+◌, ◌*◌, ◌^◌, ◌<◌, ◌≡◌, Bool, true, Option, none, some, List, [], ◌∷◌, ◌++◌, length,
}

-- A buffer of the `bytes` crate, or a slice: its bytes, in order.
abbrev pub Bytes : Type 0
Bytes = List ℕ

-- `u32::from_be_bytes` of the standard library.
abbrev pub from_be_u32 : Bytes → ℕ
from_be_u32 [] = 0
from_be_u32 (a ∷ []) = 0
from_be_u32 (a ∷ b ∷ []) = 0
from_be_u32 (a ∷ b ∷ c ∷ []) = 0
from_be_u32 (a ∷ b ∷ c ∷ d ∷ rest) = a * 2 ^ 24 + b * 2 ^ 16 + c * 2 ^ 8 + d

pub record Crates : Type 1 where
  -- `noq_proto::VarInt`: `encode` writes and `decode` reads a QUIC variable-length integer.
  -- `decode` answers `none` for `UnexpectedEnd`, else the number and what is left of the buffer.
  pub varint_encode : ℕ → Bytes
  pub varint_decode : Bytes → Option (ℕ × Bytes)
  pub varint_decode-encode :
      (x : ℕ) (rest : Bytes) → x < 2 ^ 62 → varint_decode (varint_encode x ++ rest) ≡ some (x, rest)
  pub length-varint_encode : (x : ℕ) → x < 2 ^ 6 → length (varint_encode x) ≡ 1
  pub varint_decode_nil : varint_decode [] ≡ none
  -- `BufMut::put_u16`, `Buf::get_u16` and `BufMut::put_u32` of `bytes`: big endian. `get_u16` panics
  -- on fewer than two bytes, which its caller writes out.
  pub put_u16 : ℕ → Bytes
  pub get_u16 : Bytes → ℕ × Bytes
  pub length-put_u16 : (x : ℕ) → length (put_u16 x) ≡ 2
  pub get_u16-put_u16 :
      (x : ℕ) (rest : Bytes) → x < 2 ^ 16 → get_u16 (put_u16 x ++ rest) ≡ (x, rest)
  pub get_u16-lt : (b : Bytes) → (get_u16 b).0 < 2 ^ 16
  pub put_u32 : ℕ → Bytes
  pub length-put_u32 : (x : ℕ) → length (put_u32 x) ≡ 4
  pub from_be_u32-put_u32 : (x : ℕ) → x < 2 ^ 32 → from_be_u32 (put_u32 x) ≡ x
  -- `noq_proto::EcnCodepoint`: its bits (`as u8`), and `from_bits`.
  pub Ecn : Type 0
  pub ecn_bits : Ecn → ℕ
  pub ecn_from_bits : ℕ → Option Ecn
  pub ecn_from_bits-ecn_bits : (e : Ecn) → ecn_from_bits (ecn_bits e) ≡ some e
  pub ecn_from_bits_zero : ecn_from_bits 0 ≡ none
  -- `std::str::from_utf8`: whether the bytes are UTF-8.
  pub is_utf8 : Bytes → Bool
  -- `ed25519_dalek::VerifyingKey::from_bytes`: whether the bytes are a key. `to_bytes` gives the
  -- bytes of a key back, and a slice of another length than 32 is no key.
  pub is_verifying_key : Bytes → Bool
  pub is_verifying_key-length : (b : Bytes) → is_verifying_key b ≡ true → length b ≡ 32
