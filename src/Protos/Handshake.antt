-- ===== src/Protos/Handshake.antt =====
-- iroh-relay/src/protos/handshake.rs: how a client proves its key to the relay, by a signature of a
-- challenge or, in the header of its request, of keying material of the TLS session.
pub mod Outcome
pub mod Sound
pub mod Signs
use nexalink_tunnel.Common.{
  ℕ, ◌≡◌, Bool, true, false, ◌||◌, ◌==◌, Option, none, some, List, [], ◌∷◌, ◌++◌, take, drop,
  if◌then◌else◌, Result, ok, err, panic,
}
use nexalink_tunnel.Common.Bytes.{bytes_eq}
use nexalink_tunnel.External.{Bytes, Crates}
use nexalink_tunnel.Keys.{PublicKey, as_bytes}
use nexalink_tunnel.Protos.Frame.{
  FrameType, FrameTypeError, server_challenge, client_auth, server_confirms_auth,
  server_denies_auth, into_u32, write_to, from_bytes,
}

pub record KeyMaterialClientAuth : Type 0 where
  pub public_key : PublicKey
  pub signature : Bytes
  pub key_material_suffix : Bytes

pub record ServerChallenge : Type 0 where
  pub challenge : Bytes

pub record ClientAuth : Type 0 where
  pub public_key : PublicKey
  pub signature : Bytes

pub data ServerConfirmsAuth : Type 0 where
  server_confirms : ServerConfirmsAuth

pub record ServerDeniesAuth : Type 0 where
  pub reason : Bytes

-- What the code takes from ed25519_dalek, blake3 (with the domain separator of the challenge), postcard
-- and data_encoding.
pub record HandshakeCrates : Type 1 where
  pub SecretKey : Type 0
  pub public : SecretKey → PublicKey
  pub sign : SecretKey → Bytes → Bytes
  pub verifies : PublicKey → Bytes → Bytes → Bool
  pub verifies-sign : (s : SecretKey) (m : Bytes) → verifies (public s) m (sign s m) ≡ true
  pub derive_key : Bytes → Bytes
  pub challenge_to_bytes : ServerChallenge → Bytes
  pub challenge_from_bytes : Bytes → Option ServerChallenge
  pub challenge_from_bytes-to_bytes :
      (c : ServerChallenge) → challenge_from_bytes (challenge_to_bytes c) ≡ some c
  pub auth_to_bytes : ClientAuth → Bytes
  pub auth_from_bytes : Bytes → Option ClientAuth
  pub auth_from_bytes-to_bytes : (c : ClientAuth) → auth_from_bytes (auth_to_bytes c) ≡ some c
  pub confirms_to_bytes : ServerConfirmsAuth → Bytes
  pub confirms_from_bytes : Bytes → Option ServerConfirmsAuth
  pub confirms_from_bytes-to_bytes :
      (c : ServerConfirmsAuth) → confirms_from_bytes (confirms_to_bytes c) ≡ some c
  pub denies_to_bytes : ServerDeniesAuth → Bytes
  pub denies_from_bytes : Bytes → Option ServerDeniesAuth
  pub denies_from_bytes-to_bytes :
      (c : ServerDeniesAuth) → denies_from_bytes (denies_to_bytes c) ≡ some c
  pub material_to_bytes : KeyMaterialClientAuth → Bytes
  pub material_from_bytes : Bytes → Option KeyMaterialClientAuth
  pub material_from_bytes-to_bytes :
      (c : KeyMaterialClientAuth) → material_from_bytes (material_to_bytes c) ≡ some c
  pub base64_encode : Bytes → Bytes
  pub base64_decode : Bytes → Option Bytes
  pub base64_decode-encode : (b : Bytes) → base64_decode (base64_encode b) ≡ some b

pub data Error : Type 0 where
  websocket unexpected_end : Error
  frame_type_error : FrameTypeError → Error
  server_denied_auth : Bytes → Error
  unexpected_frame_type : FrameType → List FrameType → Error
  deserialization_error : FrameType → Error
  client_auth_header_invalid : Bytes → Error

pub data VerificationError : Type 0 where
  no_keying_material : VerificationError
  mismatched_suffix : Bytes → Bytes → VerificationError
  signature_invalid : Bytes → Bytes → PublicKey → VerificationError

-- What the stream yields, and how a send with its flush ends.
pub data Incoming : Type 0 where
  received : Bytes → Incoming
  broken : Incoming

pub data Sending : Type 0 where
  delivered send_failed flush_failed : Sending

-- A stream: what it will yield, before it ends; how the sends will end, all well once the list is used up;
-- what was sent; and the 32 bytes of keying material that TLS exports for a context, if it does.
pub record Io : Type 0 where
  pub incoming : List Incoming
  pub sendings : List Sending
  pub out : List Bytes
  pub export_keying_material : Bytes → Option Bytes

pub data Mechanism : Type 0 where
  signed_challenge signed_key_material : Mechanism

pub record SuccessfulAuthentication : Type 0 where
  pub client_key : PublicKey
  pub mechanism : Mechanism

pub data Access : Type 0 where
  allow : Access
  deny_access : Option Bytes → Access

-- `?` on a result of a step.
abbrev pub and_then {ℓ κ} :
    {A : Type ℓ} {B : Type κ}
    → Io × Result Error A
    → (A → Io → Io × Result Error B)
    → Io × Result Error B
and_then (io, ok a) f = f a io
and_then (io, err e) f = (io, err e)
and_then (io, panic) f = (io, panic)

abbrev pub is_type : FrameType → FrameType → Bool
is_type a b = into_u32 a == into_u32 b

unfoldable pub expects : List FrameType → FrameType → Bool
expects [] t = false
expects (e ∷ rest) t = is_type e t || expects rest t

unfoldable pub send_bytes : Io → List Sending → Bytes → Io × Result Error (Unit {0})
send_bytes io [] bytes = (record io { out = io.out ++ (bytes ∷ []) }, ok tt)
send_bytes io (delivered ∷ rest) bytes =
    (record io { out = io.out ++ (bytes ∷ []); sendings = rest }, ok tt)
send_bytes io (send_failed ∷ rest) bytes = (record io { sendings = rest }, err websocket)
send_bytes io (flush_failed ∷ rest) bytes =
    (record io { out = io.out ++ (bytes ∷ []); sendings = rest }, err websocket)

unfoldable pub deserialize_frame : {A : Type 0} → FrameType → Option A → Result Error A
deserialize_frame t none = err (deserialization_error t)
deserialize_frame t (some frame) = ok frame

unfoldable pub check_type :
    List FrameType → Result FrameTypeError (FrameType × Bytes) → Result Error (FrameType × Bytes)
check_type expected (ok (t, frame)) =
    if expects expected t then ok (t, frame) else err (unexpected_frame_type t expected)
check_type expected (err e) = err (frame_type_error e)
check_type expected panic = panic

abbrev pub invalid_reason : Bytes
invalid_reason =
    b's' ∷ b'i' ∷ b'g' ∷ b'n' ∷ b'a' ∷ b't' ∷ b'u' ∷ b'r' ∷ b'e' ∷ b' ' ∷ b'i' ∷ b'n' ∷ b'v' ∷ b'a'
    ∷ b'l' ∷ b'i' ∷ b'd' ∷ []

abbrev pub not_authorized : Bytes
not_authorized =
    b'n' ∷ b'o' ∷ b't' ∷ b' ' ∷ b'a' ∷ b'u' ∷ b't' ∷ b'h' ∷ b'o' ∷ b'r' ∷ b'i' ∷ b'z' ∷ b'e' ∷ b'd'
    ∷ []

-- `unwrap_or_else`
abbrev pub reason_or : Option Bytes → Bytes
reason_or none = not_authorized
reason_or (some reason) = reason

module _ (x : Crates) (h : HandshakeCrates) where
  unfoldable pub write_frame : FrameType → Bytes → Io → Io × Result Error (Unit {0})
  write_frame t payload io = send_bytes io io.sendings (write_to x t [] ++ payload)

  unfoldable pub take_incoming :
      Io → List Incoming → List FrameType → Io × Result Error (FrameType × Bytes)
  take_incoming io [] expected = (io, err unexpected_end)
  take_incoming io (broken ∷ rest) expected = (record io { incoming = rest }, err websocket)
  take_incoming io (received payload ∷ rest) expected =
      (record io { incoming = rest }, check_type expected (from_bytes x payload))

  unfoldable pub read_frame : List FrameType → Io → Io × Result Error (FrameType × Bytes)
  read_frame expected io = take_incoming io io.incoming expected

  unfoldable pub message_to_sign : ServerChallenge → Bytes
  message_to_sign self = h.derive_key self.challenge

  unfoldable pub new_client_auth : h.SecretKey → ServerChallenge → ClientAuth
  new_client_auth secret_key challenge = record {
    public_key = h.public secret_key;
    signature = h.sign secret_key (message_to_sign challenge);
  }

  unfoldable pub check_signature : PublicKey → Bytes → Bytes → Result VerificationError (Unit {0})
  check_signature key message signature =
      if h.verifies key message signature
      then ok tt
      else err (signature_invalid message signature key)

  unfoldable pub verify_challenge :
      ClientAuth → ServerChallenge → Result VerificationError (Unit {0})
  verify_challenge self challenge =
      check_signature self.public_key (message_to_sign challenge) self.signature

  -- `KeyMaterialClientAuth::new`, from the exported material: the first 16 bytes are signed, the others
  -- are passed on.
  unfoldable pub material_auth : h.SecretKey → Option Bytes → Option KeyMaterialClientAuth
  material_auth secret_key none = none
  material_auth secret_key (some material) = some (record {
    public_key = h.public secret_key;
    signature = h.sign secret_key (take 16 material);
    key_material_suffix = drop 16 material;
  })

  unfoldable pub new_material_auth : h.SecretKey → Io → Option KeyMaterialClientAuth
  new_material_auth secret_key io =
      material_auth secret_key (io.export_keying_material (as_bytes (h.public secret_key)))

  unfoldable pub into_header_value : KeyMaterialClientAuth → Bytes
  into_header_value self = h.base64_encode (h.material_to_bytes self)

  unfoldable pub verify_exported :
      KeyMaterialClientAuth → Option Bytes → Result VerificationError (Unit {0})
  verify_exported self none = err no_keying_material
  verify_exported self (some material) =
      if bytes_eq (drop 16 material) self.key_material_suffix
      then check_signature self.public_key (take 16 material) self.signature
      else err (mismatched_suffix self.key_material_suffix (drop 16 material))

  unfoldable pub verify_material : KeyMaterialClientAuth → Io → Result VerificationError (Unit {0})
  verify_material self io =
      verify_exported self (io.export_keying_material (as_bytes self.public_key))

  -- The answer to a challenge, and the next frame; any other frame is passed on.
  unfoldable pub answer :
      h.SecretKey → FrameType × Bytes → Io → Io × Result Error (FrameType × Bytes)
  answer secret_key (tag, frame) io =
      if is_type tag server_challenge
      then and_then (io, deserialize_frame server_challenge (h.challenge_from_bytes frame))
          (λ challenge io.
            and_then
              (write_frame client_auth (h.auth_to_bytes (new_client_auth secret_key challenge)) io)
              (λ _ io. read_frame (server_confirms_auth ∷ server_denies_auth ∷ []) io))
      else (io, ok (tag, frame))

  abbrev pub denied : ServerDeniesAuth → Result Error ServerConfirmsAuth
  denied denial = err (server_denied_auth denial.reason)

  -- `unreachable!` is a panic.
  unfoldable pub conclude : FrameType → Bytes → Result Error ServerConfirmsAuth
  conclude server_confirms_auth frame =
      deserialize_frame server_confirms_auth (h.confirms_from_bytes frame)
  conclude server_denies_auth frame = elim (h.denies_from_bytes frame) [
    | none ↦ err (deserialization_error server_denies_auth)
    | some denial ↦ denied denial
  ]
  conclude _ frame = panic

  unfoldable pub clientside : h.SecretKey → Io → Io × Result Error ServerConfirmsAuth
  clientside secret_key io =
      and_then (read_frame (server_challenge ∷ server_confirms_auth ∷ server_denies_auth ∷ []) io)
        (λ first io.
          and_then (answer secret_key first io) (λ last io. (io, conclude last.0 last.1)))

  unfoldable pub authenticated :
      ClientAuth
      → Result VerificationError (Unit {0})
      → Io
      → Io × Result Error SuccessfulAuthentication
  authenticated auth (ok _) io =
      (io, ok (record { client_key = auth.public_key; mechanism = signed_challenge }))
  authenticated auth (err _) io =
      and_then
        (write_frame server_denies_auth (h.denies_to_bytes (record { reason = invalid_reason })) io)
        (λ _ io. (io, err (server_denied_auth invalid_reason)))
  authenticated auth panic io = (io, panic)

  unfoldable pub challenge_client :
      ServerChallenge → Io → Io × Result Error SuccessfulAuthentication
  challenge_client challenge io =
      and_then (write_frame server_challenge (h.challenge_to_bytes challenge) io) (λ _ io.
        and_then (read_frame (client_auth ∷ []) io) (λ read io.
          and_then (io, deserialize_frame client_auth (h.auth_from_bytes read.1))
            (λ auth io. authenticated auth (verify_challenge auth challenge) io)))

  unfoldable pub parse_header : Bytes → Result Error KeyMaterialClientAuth
  parse_header value = elim (h.base64_decode value) [
    | none ↦ err (client_auth_header_invalid value)
    | some bytes ↦ elim (h.material_from_bytes bytes) [
      | none ↦ err (client_auth_header_invalid value)
      | some auth ↦ ok auth
    ]
  ]

  -- Where the keying material does not verify, the client is challenged.
  unfoldable pub material_or_challenge :
      KeyMaterialClientAuth
      → Result VerificationError (Unit {0})
      → ServerChallenge
      → Io
      → Io × Result Error SuccessfulAuthentication
  material_or_challenge auth (ok _) challenge io =
      (io, ok (record { client_key = auth.public_key; mechanism = signed_key_material }))
  material_or_challenge auth (err _) challenge io = challenge_client challenge io
  material_or_challenge auth panic challenge io = (io, panic)

  -- The random challenge is given.
  unfoldable pub serverside :
      ServerChallenge → Option Bytes → Io → Io × Result Error SuccessfulAuthentication
  serverside challenge none io = challenge_client challenge io
  serverside challenge (some header) io =
      and_then (io, parse_header header)
        (λ auth io. material_or_challenge auth (verify_material auth io) challenge io)

  unfoldable pub accept : SuccessfulAuthentication → Io → Io × Result Error PublicKey
  accept self io =
      and_then (write_frame server_confirms_auth (h.confirms_to_bytes server_confirms) io)
        (λ _ io. (io, ok self.client_key))

  -- The error of a failed write, or the denial.
  unfoldable pub deny : Option Bytes → Io → Io × Result Error PublicKey
  deny reason io =
      and_then
        (write_frame server_denies_auth (h.denies_to_bytes (record { reason = reason_or reason }))
          io)
        (λ _ io. (io, err (server_denied_auth (reason_or reason))))

  unfoldable pub authorize_if : SuccessfulAuthentication → Access → Io → Io × Result Error PublicKey
  authorize_if self allow io = accept self io
  authorize_if self (deny_access reason) io = deny reason io

  -- Both steps of the server.
  abbrev pub serve : ServerChallenge → Option Bytes → Access → Io → Io × Result Error PublicKey
  serve challenge header access io =
      and_then (serverside challenge header io) (λ auth io. authorize_if auth access io)
