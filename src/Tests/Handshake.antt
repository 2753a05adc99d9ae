-- ===== src/Tests/Handshake.antt =====
-- The theorems on the handshake, at concrete inputs.
use nexalink_tunnel.Common.{
  ◌≡◌, refl, true, Option, none, some, [], ◌∷◌, ◌++◌, length, take, drop, take-append_of_length,
  drop-append_of_length, ok,
}
use nexalink_tunnel.Common.Bytes.{bytes_eq, bytes_eq_refl}
use nexalink_tunnel.External.{Bytes}
use nexalink_tunnel.Keys.{PublicKey}
use nexalink_tunnel.Protos.Frame.{
  server_challenge, client_auth, from_bytes, write_to, tag_to_frame_type, from_repr,
}
use nexalink_tunnel.Protos.Handshake.{
  KeyMaterialClientAuth, ServerChallenge, ClientAuth, ServerConfirmsAuth, server_confirms,
  HandshakeCrates, received, Io, signed_challenge, SuccessfulAuthentication, deny_access,
  send_bytes, deserialize_frame, check_type, expects, write_frame, take_incoming, read_frame,
  message_to_sign, new_client_auth, new_material_auth, check_signature, verify_challenge,
  authenticated, challenge_client, clientside, serverside,
}
use nexalink_tunnel.Protos.Handshake.Sound.{IsProved, serverside-IsProved}
use nexalink_tunnel.Protos.Handshake.Signs.{Signs, clientside-Signs}
use nexalink_tunnel.Protos.Handshake.Outcome.{io_at, Completes, header_of, serve-Completes}
use nexalink_tunnel.Tests.Samples.{crates, key_of, varint_encode, varint_decode}

-- A signature is the key with the message, and an encoding has the lengths of its parts first.
unfoldable auth_to_bytes : ClientAuth → Bytes
auth_to_bytes a = length a.public_key.y ∷ (a.public_key.y ++ a.signature)

unfoldable auth_from_bytes : Bytes → Option ClientAuth
auth_from_bytes [] = none
auth_from_bytes (n ∷ b) =
    some (record { public_key = record { y = take n b }; signature = drop n b })

auth_from_bytes-to_bytes : (a : ClientAuth) → auth_from_bytes (auth_to_bytes a) ≡ some a
unfolding auth_to_bytes auth_from_bytes
auth_from_bytes-to_bytes a =
    rw
      (
        take-append_of_length (length a.public_key.y) a.public_key.y a.signature refl,
        drop-append_of_length (length a.public_key.y) a.public_key.y a.signature refl,
      )
      refl

unfoldable material_to_bytes : KeyMaterialClientAuth → Bytes
material_to_bytes a =
    length a.public_key.y
    ∷ length a.signature
    ∷ (a.public_key.y ++ (a.signature ++ a.key_material_suffix))

unfoldable material_from_bytes : Bytes → Option KeyMaterialClientAuth
material_from_bytes [] = none
material_from_bytes (n ∷ []) = none
material_from_bytes (n ∷ m ∷ b) = some (record {
  public_key = record { y = take n b };
  signature = take m (drop n b);
  key_material_suffix = drop m (drop n b);
})

material_from_bytes-to_bytes :
    (a : KeyMaterialClientAuth) → material_from_bytes (material_to_bytes a) ≡ some a
unfolding material_to_bytes material_from_bytes
material_from_bytes-to_bytes a =
    let rest = a.signature ++ a.key_material_suffix in
    rw
      (
        take-append_of_length (length a.public_key.y) a.public_key.y rest refl,
        drop-append_of_length (length a.public_key.y) a.public_key.y rest refl,
        take-append_of_length (length a.signature) a.signature a.key_material_suffix refl,
        drop-append_of_length (length a.signature) a.signature a.key_material_suffix refl,
      )
      refl

confirms :
    (c : ServerConfirmsAuth) → ◌≡◌ {A = Option ServerConfirmsAuth} (some server_confirms) (some c)
confirms server_confirms = refl

abbrev handshake : HandshakeCrates
handshake = record {
  SecretKey = PublicKey;
  public = λ key. key;
  sign = λ key m. key.y ++ m;
  verifies = λ key m s. bytes_eq (key.y ++ m) s;
  verifies-sign = λ key m. bytes_eq_refl (key.y ++ m);
  derive_key = λ m. m;
  challenge_to_bytes = λ c. c.challenge;
  challenge_from_bytes = λ b. some (record { challenge = b });
  challenge_from_bytes-to_bytes = λ c. refl;
  auth_to_bytes = auth_to_bytes;
  auth_from_bytes = auth_from_bytes;
  auth_from_bytes-to_bytes = auth_from_bytes-to_bytes;
  confirms_to_bytes = λ c. [];
  confirms_from_bytes = λ b. some server_confirms;
  confirms_from_bytes-to_bytes = confirms;
  denies_to_bytes = λ c. c.reason;
  denies_from_bytes = λ b. some (record { reason = b });
  denies_from_bytes-to_bytes = λ c. refl;
  material_to_bytes = material_to_bytes;
  material_from_bytes = material_from_bytes;
  material_from_bytes-to_bytes = material_from_bytes-to_bytes;
  base64_encode = λ b. b;
  base64_decode = λ b. some b;
  base64_decode-encode = λ b. refl;
}

abbrev challenge : ServerChallenge
challenge = record { challenge = 5 ∷ 6 ∷ [] }

-- Both ends export the same material for every key.
abbrev exported : Bytes → Option Bytes
exported context = some (1 ∷ 2 ∷ 3 ∷ [])

serve-Completes_example :
    Completes crates handshake
      (key_of 7)
      challenge
      (header_of crates handshake true
        (new_material_auth crates handshake (key_of 7) (io_at [] [] exported)))
      (deny_access none)
      exported
      exported
serve-Completes_example =
    serve-Completes crates handshake (key_of 7) challenge true (deny_access none) exported exported

abbrev answered : Io
answered =
    io_at
      (received (
          write_to crates client_auth []
          ++ auth_to_bytes (new_client_auth crates handshake (key_of 7) challenge))
        ∷ [])
      [] exported

abbrev by_challenge : SuccessfulAuthentication
by_challenge = record { client_key = key_of 7; mechanism = signed_challenge }

proved : serverside crates handshake challenge none answered ≡ (
  io_at [] ((write_to crates server_challenge [] ++ challenge.challenge) ∷ []) exported,
  ok by_challenge,
)
unfolding serverside challenge_client write_frame send_bytes read_frame take_incoming check_type
    expects deserialize_frame verify_challenge check_signature authenticated from_bytes
    varint_decode write_to varint_encode tag_to_frame_type from_repr auth_from_bytes auth_to_bytes
    bytes_eq new_client_auth message_to_sign
proved = refl

serverside-IsProved_example :
    IsProved crates handshake challenge none exported (key_of 7) signed_challenge
serverside-IsProved_example =
    serverside-IsProved crates handshake challenge none answered
      (io_at [] ((write_to crates server_challenge [] ++ challenge.challenge) ∷ []) exported)
      by_challenge proved

abbrev challenged : Io
challenged = io_at (received (write_to crates server_challenge [] ++ (9 ∷ 9 ∷ [])) ∷ []) [] exported

clientside-Signs_example :
    Signs crates handshake (key_of 7) [] (clientside crates handshake (key_of 7) challenged).0.out
clientside-Signs_example = clientside-Signs crates handshake (key_of 7) challenged
