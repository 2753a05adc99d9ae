-- ===== src/Protos/Message.antt =====
-- The message types of iroh-relay/src/protos/relay.rs, and `ProtocolVersion` of
-- iroh-relay/src/http.rs.
use nexalink_tunnel.Common.{ℕ, ◌*◌, ◌/◌, ◌^◌, ◌<◌, ◌≡◌, true, Option, none, some, length}
use nexalink_tunnel.External.{Bytes, Crates}
use nexalink_tunnel.Keys.{PublicKey, KeyParsingError, IsKey}
use nexalink_tunnel.Protos.Frame.{FrameType, FrameTypeError}

pub data ProtocolVersion : Type 0 where
  v1 v2 : ProtocolVersion

pub data Error : Type 0 where
  unexpected_frame : FrameType → FrameType → Error
  frame_too_large : ℕ → Error
  frame_type_error : FrameTypeError → Error
  invalid_public_key : KeyParsingError → Error
  invalid_frame : Error
  invalid_frame_type : FrameType → Error
  invalid_protocol_message_encoding : Error
  frame_not_allowed_in_version : Error
  too_small : Error

abbrev pub max_packet_size : ℕ
max_packet_size = 64 * 1024

-- The byte of `unknown` is a `u8`.
pub data Status : Type 0 where
  healthy same_endpoint_id_connected : Status
  unknown : ℕ → Status

-- `Duration`, in nanoseconds, with `as_millis` and `from_millis` of the standard library.
abbrev pub Duration : Type 0
Duration = ℕ

abbrev pub as_millis : Duration → ℕ
as_millis d = d / 1000000

abbrev pub from_millis : ℕ → Duration
from_millis n = n * 1000000

module _ (x : Crates) where
  -- `segment_size` is an `Option<NonZeroU16>`.
  pub record Datagrams : Type 0 where
    pub ecn : Option x.Ecn
    pub segment_size : Option ℕ
    pub contents : Bytes

  -- The payload of `ping` and `pong` is a `[u8; 8]`, and that of `health` the bytes of a `String`.
  pub data RelayToClientMsg : Type 0 where
    datagrams : PublicKey → Datagrams → RelayToClientMsg
    endpoint_gone : PublicKey → RelayToClientMsg
    status : Status → RelayToClientMsg
    restarting : Duration → Duration → RelayToClientMsg
    ping pong : Bytes → RelayToClientMsg
    health : Bytes → RelayToClientMsg

  pub data ClientToRelayMsg : Type 0 where
    ping pong : Bytes → ClientToRelayMsg
    datagrams : PublicKey → Datagrams → ClientToRelayMsg

  -- What the Rust types guarantee of a value.
  abbrev pub IsNonZeroU16 : Option ℕ → Type 0
  IsNonZeroU16 none = Unit {0}
  IsNonZeroU16 (some n) = (0 < n) × (n < 2 ^ 16)

  abbrev pub IsDatagrams : Datagrams → Type 0
  IsDatagrams d = IsNonZeroU16 d.segment_size

  abbrev pub IsRelayToClientMsg : RelayToClientMsg → Type 0
  IsRelayToClientMsg (datagrams key d) = IsKey x key × IsDatagrams d
  IsRelayToClientMsg (endpoint_gone key) = IsKey x key
  IsRelayToClientMsg (status s) = Unit {0}
  IsRelayToClientMsg (restarting a b) = Unit {0}
  IsRelayToClientMsg (ping payload) = length payload ≡ 8
  IsRelayToClientMsg (pong payload) = length payload ≡ 8
  IsRelayToClientMsg (health problem) = x.is_utf8 problem ≡ true

  abbrev pub IsClientToRelayMsg : ClientToRelayMsg → Type 0
  IsClientToRelayMsg (ping payload) = length payload ≡ 8
  IsClientToRelayMsg (pong payload) = length payload ≡ 8
  IsClientToRelayMsg (datagrams key d) = IsKey x key × IsDatagrams d
