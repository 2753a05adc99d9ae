-- ===== src/Protos/Handshake/Outcome.antt =====
-- The handshake of a client with the relay, from the first frame to the last.
use nexalink_tunnel.Common.{
  ◌≡◌, refl, ap, ◌∙◌, Bool, true, false, Option, none, some, List, [], ◌∷◌, ◌++◌, map, take, drop,
  Result, ok, err, panic, Bool-cases, Result-cases, inl, inr,
}
use nexalink_tunnel.Common.Bytes.{bytes_eq}
use nexalink_tunnel.External.{Bytes, Crates}
use nexalink_tunnel.Keys.{PublicKey, as_bytes}
use nexalink_tunnel.Protos.Frame.{
  FrameType, server_challenge, client_auth, server_confirms_auth, server_denies_auth, write_to,
  from_bytes-write_to,
}
use nexalink_tunnel.Protos.Handshake.{
  KeyMaterialClientAuth, ServerChallenge, ServerConfirmsAuth, server_confirms, HandshakeCrates,
  Error, server_denied_auth, VerificationError, Incoming, received, Io, Mechanism, signed_challenge,
  signed_key_material, SuccessfulAuthentication, Access, allow, deny_access, and_then, is_type,
  expects, send_bytes, deserialize_frame, check_type, reason_or, write_frame, take_incoming,
  read_frame, message_to_sign, new_client_auth, check_signature, verify_challenge, material_auth,
  new_material_auth, into_header_value, verify_exported, verify_material, answer, conclude,
  clientside, authenticated, challenge_client, parse_header, material_or_challenge, serverside,
  accept, deny, authorize_if, serve,
}

-- A stream on which every send goes well.
abbrev pub io_at : List Incoming → List Bytes → (Bytes → Option Bytes) → Io
io_at incoming out export = record {
  incoming = incoming;
  sendings = [];
  out = out;
  export_keying_material = export;
}

-- What the relay and the client end with.
abbrev pub server_result : Access → PublicKey → Result Error PublicKey
server_result allow key = ok key
server_result (deny_access reason) key = err (server_denied_auth (reason_or reason))

abbrev pub client_result : Access → Result Error ServerConfirmsAuth
client_result allow = ok server_confirms
client_result (deny_access reason) = err (server_denied_auth (reason_or reason))

module _ (x : Crates) (h : HandshakeCrates) where
  abbrev framed : FrameType → Bytes → Bytes
  framed t payload = write_to x t [] ++ payload

  abbrev challenge_frame : ServerChallenge → Bytes
  challenge_frame challenge = framed server_challenge (h.challenge_to_bytes challenge)

  abbrev auth_frame : h.SecretKey → ServerChallenge → Bytes
  auth_frame s challenge = framed client_auth (h.auth_to_bytes (new_client_auth x h s challenge))

  abbrev last_frame : Access → Bytes
  last_frame allow = framed server_confirms_auth (h.confirms_to_bytes server_confirms)
  last_frame (deny_access reason) =
      framed server_denies_auth (h.denies_to_bytes (record { reason = reason_or reason }))

  read_frame-framed :
      (expected : List FrameType) (t : FrameType) (payload : Bytes) (rest : List Incoming)
      (o : List Bytes) (e : Bytes → Option Bytes)
      → expects expected t ≡ true
      → read_frame x h expected (io_at (received (framed t payload) ∷ rest) o e)
        ≡ (io_at rest o e, ok (t, payload))
  unfolding read_frame take_incoming check_type
  read_frame-framed expected t payload rest o e is =
      rw (from_bytes-write_to x t payload, is, check_type) refl

  write_frame-framed :
      (t : FrameType) (payload : Bytes) (i : List Incoming) (o : List Bytes)
      (e : Bytes → Option Bytes)
      → write_frame x h t payload (io_at i o e) ≡ (io_at i (o ++ (framed t payload ∷ [])) e, ok tt)
  unfolding write_frame send_bytes
  write_frame-framed t payload i o e = refl

  abbrev by : h.SecretKey → Mechanism → SuccessfulAuthentication
  by s m = record { client_key = h.public s; mechanism = m }

  signature_good :
      (s : h.SecretKey) (m : Bytes) → check_signature x h (h.public s) m (h.sign s m) ≡ ok tt
  unfolding check_signature
  signature_good s m = rw (h.verifies-sign s m) refl

  challenge_client-auth :
      (s : h.SecretKey) (challenge : ServerChallenge) (rest : List Incoming) (o : List Bytes)
      (e : Bytes → Option Bytes)
      → challenge_client x h challenge (io_at (received (auth_frame s challenge) ∷ rest) o e)
        ≡ (io_at rest (o ++ (challenge_frame challenge ∷ [])) e, ok (by s signed_challenge))
  unfolding challenge_client verify_challenge deserialize_frame expects authenticated
      new_client_auth
  challenge_client-auth s challenge rest o e =
      rw
        (
          write_frame-framed server_challenge (h.challenge_to_bytes challenge)
              (received (auth_frame s challenge) ∷ rest) o e,
          read_frame-framed (client_auth ∷ []) client_auth
              (h.auth_to_bytes (new_client_auth x h s challenge)) rest
              (o ++ (challenge_frame challenge ∷ [])) e refl,
          h.auth_from_bytes-to_bytes (new_client_auth x h s challenge),
          signature_good s (message_to_sign x h challenge),
          authenticated,
        )
        refl

  authorize_if-last :
      (auth : SuccessfulAuthentication) (access : Access) (i : List Incoming) (o : List Bytes)
      (e : Bytes → Option Bytes)
      → authorize_if x h auth access (io_at i o e)
        ≡ (io_at i (o ++ (last_frame access ∷ [])) e, server_result access auth.client_key)
  unfolding authorize_if accept deny write_frame send_bytes
  authorize_if-last auth allow i o e = refl
  authorize_if-last auth (deny_access reason) i o e = refl

  conclude-last :
      (access : Access)
      → (t : FrameType) × (payload : Bytes) × (last_frame access ≡ framed t payload)
        × (expects (server_confirms_auth ∷ server_denies_auth ∷ []) t ≡ true)
        × (expects (server_challenge ∷ server_confirms_auth ∷ server_denies_auth ∷ []) t ≡ true)
        × (is_type t server_challenge ≡ false)
        × (conclude x h t payload ≡ client_result access)
  unfolding conclude expects deserialize_frame
  conclude-last allow = (
    server_confirms_auth,
    h.confirms_to_bytes server_confirms,
    refl,
    refl,
    refl,
    refl,
    rw (h.confirms_from_bytes-to_bytes server_confirms) refl,
  )
  conclude-last (deny_access reason) = (
    server_denies_auth,
    h.denies_to_bytes (record { reason = reason_or reason }),
    refl,
    refl,
    refl,
    refl,
    rw (h.denies_from_bytes-to_bytes (record { reason = reason_or reason }), conclude) refl,
  )

  -- The client's run on the last frame alone, and on a challenge before it.
  clientside-last :
      (s : h.SecretKey) (access : Access) (e : Bytes → Option Bytes)
      → clientside x h s (io_at (received (last_frame access) ∷ []) [] e)
        ≡ (io_at [] [] e, client_result access)
  unfolding clientside answer
  clientside-last s access e =
      let (t, payload, frame, ends, starts, other, concluded) = conclude-last access in
      rw
        (
          frame,
          read_frame-framed (server_challenge ∷ server_confirms_auth ∷ server_denies_auth ∷ []) t
              payload [] [] e starts,
          other,
          answer,
          concluded,
        )
        refl

  clientside-challenged :
      (s : h.SecretKey) (challenge : ServerChallenge) (access : Access) (e : Bytes → Option Bytes)
      → clientside x h s
          (io_at (received (challenge_frame challenge) ∷ received (last_frame access) ∷ []) [] e)
        ≡ (io_at [] (auth_frame s challenge ∷ []) e, client_result access)
  unfolding clientside answer deserialize_frame expects
  clientside-challenged s challenge access e =
      let (t, payload, frame, ends, starts, other, concluded) = conclude-last access in
      rw
        (
          frame,
          read_frame-framed (server_challenge ∷ server_confirms_auth ∷ server_denies_auth ∷ [])
              server_challenge (h.challenge_to_bytes challenge) (received (framed t payload) ∷ [])
              [] e refl,
          h.challenge_from_bytes-to_bytes challenge,
          answer,
          write_frame-framed client_auth (h.auth_to_bytes (new_client_auth x h s challenge))
              (received (framed t payload) ∷ []) [] e,
          read_frame-framed (server_confirms_auth ∷ server_denies_auth ∷ []) t payload []
              (auth_frame s challenge ∷ []) e ends,
          concluded,
        )
        refl

  -- The relay and the client, each of which receives the frames that the other one sends.
  abbrev pub Completes :
      h.SecretKey
      → ServerChallenge
      → Option Bytes
      → Access
      → (Bytes → Option Bytes)
      → (Bytes → Option Bytes)
      → Type 0
  Completes s challenge header access server_export client_export =
      (to_client : List Bytes) × (to_server : List Bytes) × (serve x h challenge header access
          (io_at (map received to_server) [] server_export)
        ≡ (io_at [] to_client server_export, server_result access (h.public s)))
      × (clientside x h s (io_at (map received to_client) [] client_export)
          ≡ (io_at [] to_server client_export, client_result access))

  serve-challenged :
      (s : h.SecretKey) (challenge : ServerChallenge) (access : Access) (e : Bytes → Option Bytes)
      → and_then
          (challenge_client x h challenge (io_at (received (auth_frame s challenge) ∷ []) [] e))
          (λ auth io. authorize_if x h auth access io)
        ≡ (
          io_at [] (challenge_frame challenge ∷ last_frame access ∷ []) e,
          server_result access (h.public s),
        )
  serve-challenged s challenge access e =
      rw
        (
          challenge_client-auth s challenge [] [] e,
          authorize_if-last (by s signed_challenge) access [] (challenge_frame challenge ∷ []) e,
        )
        refl

  parse_header-into_header_value :
      (auth : KeyMaterialClientAuth) → parse_header x h (into_header_value x h auth) ≡ ok auth
  unfolding parse_header into_header_value
  parse_header-into_header_value auth =
      rw
        (
          h.base64_decode-encode (h.material_to_bytes auth),
          h.material_from_bytes-to_bytes auth,
          parse_header,
        )
        refl

  verify_exported-ne_panic :
      (auth : KeyMaterialClientAuth) (o : Option Bytes) → verify_exported x h auth o ≡ panic → ⊥
  unfolding verify_exported check_signature
  verify_exported-ne_panic auth none p = cc
  verify_exported-ne_panic auth (some material) p =
      elim (Bool-cases (bytes_eq (drop 16 material) auth.key_material_suffix)) [
        | inr other ↦ cc (rw (other) at p)
        | inl same ↦
            let q = rw (same) at p in
            elim (Bool-cases (h.verifies auth.public_key (take 16 material) auth.signature)) [
              | inl good ↦ cc (rw (good) at q)
              | inr bad ↦ cc (rw (bad) at q)
            ]
      ]

  serve_material :
      (auth : KeyMaterialClientAuth) (r : Result VerificationError (Unit {0}))
      (challenge : ServerChallenge) (access : Access) (i : List Incoming) (e : Bytes → Option Bytes)
      → verify_exported x h auth (e (as_bytes auth.public_key)) ≡ r
      → serve x h challenge (some (into_header_value x h auth)) access (io_at i [] e)
        ≡ and_then
            (material_or_challenge x h auth r challenge (io_at i [] e))
            (λ a io. authorize_if x h a access io)
  unfolding serverside verify_material
  serve_material auth r challenge access i e v = rw (parse_header-into_header_value auth, v) refl

  with_material :
      (s : h.SecretKey) (challenge : ServerChallenge) (auth : KeyMaterialClientAuth)
      (access : Access) (server_export client_export : Bytes → Option Bytes)
      → auth.public_key ≡ h.public s
      → Completes s challenge (some (into_header_value x h auth)) access server_export client_export
  unfolding material_or_challenge
  with_material s challenge auth access es ec own =
      elim (Result-cases (verify_exported x h auth (es (as_bytes auth.public_key)))) [
        | inl (u, v) ↦ (
          last_frame access ∷ [],
          [],
          serve_material auth (ok u) challenge access [] es v
              ∙ authorize_if-last
                  (record { client_key = auth.public_key; mechanism = signed_key_material }) access
                  [] [] es
              ∙ ap (λ key. (io_at [] (last_frame access ∷ []) es, server_result access key)) own,
          clientside-last s access ec,
        )
        | inr (inl (r, v)) ↦ (
          challenge_frame challenge ∷ last_frame access ∷ [],
          auth_frame s challenge ∷ [],
          serve_material auth (err r) challenge access (received (auth_frame s challenge) ∷ []) es v
              ∙ serve-challenged s challenge access es,
          clientside-challenged s challenge access ec,
        )
        | inr (inr p) ↦ absurd (verify_exported-ne_panic auth (es (as_bytes auth.public_key)) p)
      ]

  -- The header of a client, if it sends one and can export keying material.
  abbrev pub header_of : Bool → Option KeyMaterialClientAuth → Option Bytes
  header_of false auth = none
  header_of true none = none
  header_of true (some auth) = some (into_header_value x h auth)

  with_header :
      (s : h.SecretKey) (challenge : ServerChallenge) (sends_header : Bool)
      (material : Option Bytes) (access : Access)
      (server_export client_export : Bytes → Option Bytes)
      → Completes s challenge
          (header_of sends_header (material_auth x h s material))
          access
          server_export
          client_export
  unfolding material_auth serverside
  with_header s challenge true (some material) access es ec =
      with_material s challenge
        (record {
          public_key = h.public s;
          signature = h.sign s (take 16 material);
          key_material_suffix = drop 16 material;
        })
        access es ec refl
  with_header s challenge true none access es ec = (
    challenge_frame challenge ∷ last_frame access ∷ [],
    auth_frame s challenge ∷ [],
    serve-challenged s challenge access es,
    clientside-challenged s challenge access ec,
  )
  with_header s challenge false material access es ec = (
    challenge_frame challenge ∷ last_frame access ∷ [],
    auth_frame s challenge ∷ [],
    serve-challenged s challenge access es,
    clientside-challenged s challenge access ec,
  )

  -- On streams that deliver, a client with a secret key and a relay that each receive what the other one sends complete the
  -- handshake, whether or not the client sends the header and whatever keying material the two ends export: the relay
  -- ends with the key of the client and the client with the confirmation where access is allowed, and both with
  -- the denial and its reason where it is not.
  pub serve-Completes :
      (s : h.SecretKey) (challenge : ServerChallenge) (sends_header : Bool) (access : Access)
      (server_export client_export : Bytes → Option Bytes)
      → Completes s challenge
          (header_of sends_header (new_material_auth x h s (io_at [] [] client_export)))
          access
          server_export
          client_export
  unfolding new_material_auth
  serve-Completes s challenge sends_header access es ec =
      with_header s challenge sends_header (ec (as_bytes (h.public s))) access es ec
