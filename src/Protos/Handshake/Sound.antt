-- ===== src/Protos/Handshake/Sound.antt =====
-- Whom the relay takes a client for.
use nexalink_tunnel.Common.{
  ◌≡◌, refl, sym, ap, subst, true, Option, none, some, take, drop, Result, ok, err, panic,
  Bool-cases, Result-cases, inl, inr,
}
use nexalink_tunnel.Common.Bytes.{bytes_eq, bytes_eq_iff}
use nexalink_tunnel.External.{Bytes, Crates}
use nexalink_tunnel.Keys.{PublicKey, as_bytes}
use nexalink_tunnel.Protos.Frame.{client_auth}
use nexalink_tunnel.Protos.Handshake.{
  KeyMaterialClientAuth, ServerChallenge, ClientAuth, HandshakeCrates, Error, VerificationError, Io,
  Mechanism, signed_challenge, signed_key_material, SuccessfulAuthentication, and_then,
  deserialize_frame, write_frame, read_frame, message_to_sign, check_signature, verify_challenge,
  verify_exported, verify_material, authenticated, challenge_client, parse_header,
  material_or_challenge, serverside,
}

refused_ok : {B : Type 0} (e : Error) (b : B) → ◌≡◌ {A = Result Error B} (err e) (ok b) → ⊥
refused_ok e b h = cc

panic_ok : {B : Type 0} (b : B) → ◌≡◌ {A = Result Error B} panic (ok b) → ⊥
panic_ok b h = cc

ok_injective : {B : Type 0} (a b : B) → ◌≡◌ {A = Result Error B} (ok a) (ok b) → a ≡ b
ok_injective a b h = cc

-- What a step that succeeds is made of.
and_then-ok :
    {A B : Type 0} (m : Io × Result Error A) (f : A → Io → Io × Result Error B) (end : Io) (b : B)
    → and_then m f ≡ (end, ok b)
    → (io : Io) × (a : A) × (m ≡ (io, ok a)) × (f a io ≡ (end, ok b))
and_then-ok (io, ok a) f end b h = (io, a, refl, h)
and_then-ok (io, err e) f end b h = absurd (refused_ok _ _ (ap (λ r. r.1) h))
and_then-ok (io, panic) f end b h = absurd (panic_ok _ (ap (λ r. r.1) h))

module _ (x : Crates) (h : HandshakeCrates) where
  -- The key verifies a signature of the message to sign of the challenge.
  abbrev pub Answered : PublicKey → ServerChallenge → Type 0
  Answered key challenge =
      (auth : ClientAuth) × (auth.public_key ≡ key)
      × (h.verifies key (message_to_sign x h challenge) auth.signature ≡ true)

  -- The header carries a signature, which the key verifies, of the first 16 bytes of the keying material that
  -- is exported for the key, and the others.
  abbrev pub Exported : PublicKey → Option Bytes → (Bytes → Option Bytes) → Type 0
  Exported key header export =
      (auth : KeyMaterialClientAuth) × (material : Bytes) × (value : Bytes) × (header ≡ some value)
      × (parse_header x h value ≡ ok auth)
      × (auth.public_key ≡ key)
      × (export (as_bytes key) ≡ some material)
      × (drop 16 material ≡ auth.key_material_suffix)
      × (h.verifies key (take 16 material) auth.signature ≡ true)

  abbrev pub IsProved :
      ServerChallenge → Option Bytes → (Bytes → Option Bytes) → PublicKey → Mechanism → Type 0
  IsProved challenge header export key signed_challenge = Answered key challenge
  IsProved challenge header export key signed_key_material = Exported key header export

  check_signature-ok :
      (key : PublicKey) (m sig : Bytes) (u : Unit {0})
      → check_signature x h key m sig ≡ ok u
      → h.verifies key m sig ≡ true
  unfolding check_signature
  check_signature-ok key m sig u e = elim (Bool-cases (h.verifies key m sig)) [
    | inl good ↦ good
    | inr bad ↦ cc (rw (bad) at e)
  ]

  authenticated-ok :
      (auth : ClientAuth) (challenge : ServerChallenge) (r : Result VerificationError (Unit {0}))
      (io end : Io) (s : SuccessfulAuthentication)
      → verify_challenge x h auth challenge ≡ r
      → authenticated x h auth r io ≡ (end, ok s)
      → (s.mechanism ≡ signed_challenge) × Answered s.client_key challenge
  unfolding authenticated verify_challenge
  authenticated-ok auth challenge (ok u) io end s v e =
      subst
        (λ (q : SuccessfulAuthentication).
          (q.mechanism ≡ signed_challenge) × Answered q.client_key challenge)
        (ok_injective _ _ (ap (λ r. r.1) e))
        (
          refl,
          (
            auth,
            refl,
            check_signature-ok auth.public_key (message_to_sign x h challenge) auth.signature u v,
          ),
        )
  authenticated-ok auth challenge (err r) io end s v e =
      let (io', u, w, last) = and_then-ok (write_frame x h _ _ io) _ end s e in
      absurd (refused_ok _ _ (ap (λ r. r.1) last))
  authenticated-ok auth challenge panic io end s v e = absurd (panic_ok _ (ap (λ r. r.1) e))

  challenge_client-ok :
      (challenge : ServerChallenge) (io end : Io) (s : SuccessfulAuthentication)
      → challenge_client x h challenge io ≡ (end, ok s)
      → (s.mechanism ≡ signed_challenge) × Answered s.client_key challenge
  unfolding challenge_client
  challenge_client-ok challenge io end s e =
      let (io1, u, w, e1) = and_then-ok (write_frame x h _ _ io) _ end s e in
      let (io2, read, r, e2) = and_then-ok (read_frame x h _ io1) _ end s e1 in
      let (io3, auth, d, e3) =
        and_then-ok (io2, deserialize_frame client_auth (h.auth_from_bytes read.1)) _ end s e2 in
      authenticated-ok auth challenge (verify_challenge x h auth challenge) io3 end s refl e3

  challenge-IsProved :
      (challenge : ServerChallenge) (header : Option Bytes) (export : Bytes → Option Bytes)
      (s : SuccessfulAuthentication)
      → (s.mechanism ≡ signed_challenge) × Answered s.client_key challenge
      → IsProved challenge header export s.client_key s.mechanism
  challenge-IsProved challenge header export s (m, a) =
      subst (IsProved challenge header export s.client_key) (sym m) a

  verify_exported-ok :
      (auth : KeyMaterialClientAuth) (o : Option Bytes) (u : Unit {0})
      → verify_exported x h auth o ≡ ok u
      → (material : Bytes) × (o ≡ some material)
        × (drop 16 material ≡ auth.key_material_suffix)
        × (h.verifies auth.public_key (take 16 material) auth.signature ≡ true)
  unfolding verify_exported
  verify_exported-ok auth none u e = cc
  verify_exported-ok auth (some material) u e =
      elim (Bool-cases (bytes_eq (drop 16 material) auth.key_material_suffix)) [
        | inl same ↦ (
          material,
          refl,
          (bytes_eq_iff (drop 16 material) auth.key_material_suffix).0 same,
          check_signature-ok auth.public_key (take 16 material) auth.signature u (rw (same) at e),
        )
        | inr other ↦ cc (rw (other) at e)
      ]

  material_or_challenge-ok :
      (auth : KeyMaterialClientAuth) (r : Result VerificationError (Unit {0}))
      (challenge : ServerChallenge) (value : Bytes) (io end : Io) (s : SuccessfulAuthentication)
      → parse_header x h value ≡ ok auth
      → verify_material x h auth io ≡ r
      → material_or_challenge x h auth r challenge io ≡ (end, ok s)
      → IsProved challenge (some value) io.export_keying_material s.client_key s.mechanism
  unfolding material_or_challenge verify_material
  material_or_challenge-ok auth (ok u) challenge value io end s p v e =
      let (material, exported, suffix, good) =
        verify_exported-ok auth (io.export_keying_material (as_bytes auth.public_key)) u v in
      subst
        (λ (q : SuccessfulAuthentication).
          IsProved challenge (some value) io.export_keying_material q.client_key q.mechanism)
        (ok_injective _ _ (ap (λ r. r.1) e))
        (auth, material, value, refl, p, refl, exported, suffix, good)
  material_or_challenge-ok auth (err r) challenge value io end s p v e =
      challenge-IsProved challenge (some value) io.export_keying_material s
        (challenge_client-ok challenge io end s e)
  material_or_challenge-ok auth panic challenge value io end s p v e =
      absurd (panic_ok _ (ap (λ r. r.1) e))

  -- If the relay authenticates a key, whatever the stream yields, then either by a challenge, and the key verifies a
  -- signature of the key that is derived from this challenge; or by the header, which then carries the last 16 bytes
  -- of the keying material that TLS exports for the key and a signature of the first 16, which the key verifies.
  pub serverside-IsProved :
      (challenge : ServerChallenge) (header : Option Bytes) (io end : Io)
      (s : SuccessfulAuthentication)
      → serverside x h challenge header io ≡ (end, ok s)
      → IsProved challenge header io.export_keying_material s.client_key s.mechanism
  unfolding serverside
  serverside-IsProved challenge none io end s e =
      challenge-IsProved challenge none io.export_keying_material s
        (challenge_client-ok challenge io end s e)
  serverside-IsProved challenge (some value) io end s e =
      elim (Result-cases (parse_header x h value)) [
        | inl (auth, p) ↦
            material_or_challenge-ok auth (verify_material x h auth io) challenge value io end s p
              refl
              (subst
                (λ r.
                  and_then (io, r)
                    (λ a i. material_or_challenge x h a (verify_material x h a i) challenge i)
                  ≡ (end, ok s))
                p e)
        | inr (inl (r, p)) ↦ absurd (
            refused_ok _ _ (
              ap (λ r. r.1)
                (subst
                  (λ r.
                    and_then (io, r)
                      (λ a i. material_or_challenge x h a (verify_material x h a i) challenge i)
                    ≡ (end, ok s))
                  p e)))
        | inr (inr p) ↦ absurd (
            panic_ok _ (
              ap (λ r. r.1)
                (subst
                  (λ r.
                    and_then (io, r)
                      (λ a i. material_or_challenge x h a (verify_material x h a i) challenge i)
                    ≡ (end, ok s))
                  p e)))
      ]
