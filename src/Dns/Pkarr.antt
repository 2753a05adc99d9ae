-- ===== src/Dns/Pkarr.antt =====
-- `SignedPacket` of iroh-dns/src/pkarr.rs: `<32 key><64 signature><8 timestamp><DNS packet>`.
pub mod Parts
pub mod Recent
use nexalink_tunnel.Common.{
  ℕ, ◌+◌, Bool, true, false, ◌&&◌, ◌||◌, not, ◌==◌, ltb, leb, List, [], ◌∷◌, ◌++◌, length, take,
  drop, if◌then◌else◌, Result, ok, err, panic, ◌>>=◌, ◌>>◌, ensure, map_err,
}
use nexalink_tunnel.Common.Bytes.{to_be, from_be}
use nexalink_tunnel.Common.Ordered.{bytes_less}
use nexalink_tunnel.External.{Bytes, Crates}
use nexalink_tunnel.Keys.{PublicKey, KeyParsingError, try_from, as_bytes}

abbrev pub max_dns_packet_size : ℕ
max_dns_packet_size = 1000

abbrev pub header_size : ℕ
header_size = 104

abbrev pub max_signed_packet_size : ℕ
max_signed_packet_size = 1104

pub record SignedPacket : Type 0 where
  pub packet_bytes : Bytes

pub data SignedPacketVerifyError : Type 0 where
  too_short too_large : ℕ → SignedPacketVerifyError
  signature_error dns_error : SignedPacketVerifyError
  invalid_key : KeyParsingError → SignedPacketVerifyError

-- What the code takes from ed25519_dalek, simple_dns and the formatter of the standard library:
-- whether a signature of a message verifies under a key, whether bytes parse as a DNS packet, and the
-- decimal digits of a number.
pub record DnsCrates : Type 0 where
  pub verifies : PublicKey → Bytes → Bytes → Bool
  pub is_dns_packet : Bytes → Bool
  pub decimal : ℕ → Bytes

-- The slices of the four parts.
abbrev pub key_part : Bytes → Bytes
key_part bytes = take 32 bytes

abbrev pub signature_part : Bytes → Bytes
signature_part bytes = take 64 (drop 32 bytes)

abbrev pub timestamp_part : Bytes → Bytes
timestamp_part bytes = take 8 (drop 96 bytes)

abbrev pub dns_part : Bytes → Bytes
dns_part bytes = drop 104 bytes

unfoldable pub signature : SignedPacket → Bytes
signature self = signature_part self.packet_bytes

unfoldable pub timestamp : SignedPacket → ℕ
timestamp self = from_be 0 (timestamp_part self.packet_bytes)

unfoldable pub encoded_packet : SignedPacket → Bytes
encoded_packet self = dns_part self.packet_bytes

unfoldable pub packet_as_bytes : SignedPacket → Bytes
packet_as_bytes self = self.packet_bytes

unfoldable pub to_relay_payload : SignedPacket → Bytes
to_relay_payload self = drop 32 self.packet_bytes

unfoldable pub more_recent_than : SignedPacket → SignedPacket → Bool
more_recent_than self other =
    if timestamp self == timestamp other
    then bytes_less (encoded_packet other) (encoded_packet self)
    else ltb (timestamp other) (timestamp self)

module _ (x : Crates) (d : DnsCrates) where
  -- `expect` on the result of the parser.
  unfoldable pub public_key : SignedPacket → Result ⊥ PublicKey
  public_key self = elim (try_from x (key_part self.packet_bytes)) [
    | ok key ↦ ok key
    | err e ↦ panic
    | panic ↦ panic
  ]

  -- "3:seqi{}e1:v{}:" and the packet.
  unfoldable pub signable : ℕ → Bytes → Bytes
  signable timestamp v =
      (b'3' ∷ b':' ∷ b's' ∷ b'e' ∷ b'q' ∷ b'i' ∷ [])
      ++ (d.decimal timestamp
          ++ ((b'e' ∷ b'1' ∷ b':' ∷ b'v' ∷ []) ++ (d.decimal (length v) ++ ((b':' ∷ []) ++ v))))

  unfoldable pub from_bytes_unchecked : Bytes → Result SignedPacketVerifyError SignedPacket
  from_bytes_unchecked bytes = do
    ensure (leb header_size (length bytes)) (too_short (length bytes))
    ensure (leb (length bytes) max_signed_packet_size) (too_large (length bytes))
    ensure (d.is_dns_packet (dns_part bytes)) dns_error
    ok (record { packet_bytes = bytes })

  unfoldable pub from_bytes : Bytes → Result SignedPacketVerifyError SignedPacket
  from_bytes bytes = do
    ensure (leb header_size (length bytes)) (too_short (length bytes))
    ensure (leb (length bytes) max_signed_packet_size) (too_large (length bytes))
    key ← map_err invalid_key (try_from x (key_part bytes))
    ensure
        (d.verifies key (signable (from_be 0 (timestamp_part bytes)) (dns_part bytes))
          (signature_part bytes))
        signature_error
    ensure (d.is_dns_packet (dns_part bytes)) dns_error
    ok (record { packet_bytes = bytes })

  unfoldable pub from_relay_payload :
      PublicKey → Bytes → Result SignedPacketVerifyError SignedPacket
  from_relay_payload key payload = from_bytes (as_bytes key ++ payload)

  -- The timestamp's eight bytes are big endian.
  unfoldable pub from_parts_unchecked :
      Bytes → Bytes → ℕ → Bytes → Result SignedPacketVerifyError SignedPacket
  from_parts_unchecked key_bytes signature_bytes time encoded =
      from_bytes_unchecked (((key_bytes ++ signature_bytes) ++ to_be 8 time) ++ encoded)
