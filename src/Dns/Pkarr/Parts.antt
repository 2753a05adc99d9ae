-- ===== src/Dns/Pkarr/Parts.antt =====
-- What a verified packet is, and that its parts and its payload give it back.
use nexalink_tunnel.Common.{
  ℕ, zero, suc, ◌+◌, ◌≤◌, ◌≡◌, refl, sym, ap, subst, ◌∙◌, Bool, true, false, [], ◌∷◌, ◌++◌, length,
  take, drop, arith, Result, ok, err, panic, ◌>>◌, ensure, take-append-drop, length-take,
  length-drop, append_assoc, Result-cases, inl, inr, leb, leb→le,
}
use nexalink_tunnel.Common.Bytes.{to_be-from_be, AreBytes}
use nexalink_tunnel.Common.Chunks.{drop-drop}
use nexalink_tunnel.External.{Bytes, Crates}
use nexalink_tunnel.Keys.{PublicKey, KeyParsingError, try_from, try_from_sound}
use nexalink_tunnel.Dns.Pkarr.{
  header_size, max_signed_packet_size, SignedPacket, SignedPacketVerifyError, too_short, too_large,
  signature_error, dns_error, invalid_key, DnsCrates, key_part, signature_part, timestamp_part,
  dns_part, signature, timestamp, encoded_packet, to_relay_payload, public_key, signable,
  from_bytes_unchecked, from_bytes, from_relay_payload, from_parts_unchecked,
}

ensure-ok {ℓ} :
    {E : Type 0} {A : Type ℓ} (b : Bool) (e : E) (k : Result E A) {a : A}
    → (ensure b e >> k) ≡ ok a
    → (b ≡ true) × (k ≡ ok a)
ensure-ok true e k h = (refl, h)
ensure-ok false e k h = cc

ok_injective :
    (p q : SignedPacket)
    → ◌≡◌ {A = Result SignedPacketVerifyError SignedPacket} (ok p) (ok q)
    → p ≡ q
ok_injective p q h = cc

AreBytes-drop : (n : ℕ) (b : Bytes) → AreBytes b → AreBytes (drop n b)
AreBytes-drop zero b h = h
AreBytes-drop (suc n) [] h = tt
AreBytes-drop (suc n) (c ∷ b) h = AreBytes-drop n b h.1

AreBytes-take : (n : ℕ) (b : Bytes) → AreBytes b → AreBytes (take n b)
AreBytes-take zero b h = tt
AreBytes-take (suc n) [] h = tt
AreBytes-take (suc n) (c ∷ b) h = (h.0, AreBytes-take n b h.1)

take_then_drop : (n m : ℕ) (b : Bytes) → take m (drop n b) ++ drop (n + m) b ≡ drop n b
take_then_drop n m b = rw (← drop-drop n m b) (take-append-drop m (drop n b))

slices : (b : Bytes) → ((key_part b ++ signature_part b) ++ timestamp_part b) ++ dns_part b ≡ b
slices b =
    append_assoc (key_part b ++ signature_part b) (timestamp_part b) (dns_part b)
    ∙ (append_assoc (key_part b) (signature_part b) (timestamp_part b ++ dns_part b)
        ∙ (ap (λ r. key_part b ++ (signature_part b ++ r)) (take_then_drop 96 8 b)
            ∙ (ap (λ r. key_part b ++ r) (take_then_drop 32 64 b) ∙ take-append-drop 32 b)))

module _ (x : Crates) (d : DnsCrates) where
  -- A packet that is verified from bytes has these bytes, between 104 and 1104 of them; its key parses,
  -- and its signature verifies under that key over its timestamp and its DNS packet; and the key with the
  -- relay payload gives the packet back.
  pub from_bytes_sound :
      (bytes : Bytes) (p : SignedPacket)
      → from_bytes x d bytes ≡ ok p
      → (p.packet_bytes ≡ bytes)
        × (104 ≤ length bytes)
        × (length bytes ≤ 1104)
        × ((key : PublicKey) × (public_key x d p ≡ ok key)
            × (d.verifies key (signable x d (timestamp p) (encoded_packet p)) (signature p) ≡ true)
            × (from_relay_payload x d key (to_relay_payload p) ≡ ok p))
  unfolding from_bytes public_key timestamp encoded_packet signature to_relay_payload
      from_relay_payload
  from_bytes_sound bytes p h =
      let (short, h1) = ensure-ok (leb header_size (length bytes)) (too_short (length bytes)) _ h in
      let (large, h2) =
        ensure-ok (leb (length bytes) max_signed_packet_size) (too_large (length bytes)) _ h1 in
      elim (Result-cases (try_from x (key_part bytes))) [
        | inl (key, e) ↦
            let h3 = rw (e) at h2 in
            let (verified, h4) = ensure-ok _ signature_error _ h3 in
            let (parsed, h5) = ensure-ok (d.is_dns_packet (dns_part bytes)) dns_error _ h4 in
            let same = ok_injective (record { packet_bytes = bytes }) p h5 in
            subst
              (λ q.
                (q.packet_bytes ≡ bytes)
                × (104 ≤ length bytes)
                × (length bytes ≤ 1104)
                × ((key : PublicKey) × (public_key x d q ≡ ok key)
                    × (d.verifies key (signable x d (timestamp q) (encoded_packet q)) (signature q)
                        ≡ true)
                    × (from_relay_payload x d key (to_relay_payload q) ≡ ok q)))
              same
              (
                refl,
                leb→le 104 (length bytes) short,
                leb→le (length bytes) 1104 large,
                (key, parse key e, verified, payload key e (h ∙ ap ok (sym same))),
              )
        | inr (inl (n, e)) ↦ absurd (refused n (rw (e) at h2))
        | inr (inr e) ↦ absurd (panics (rw (e) at h2))
      ]
    where
      refused :
          {A : Type 0} {a : A} (n : KeyParsingError)
          → ◌≡◌ {A = Result SignedPacketVerifyError A} (err (invalid_key n)) (ok a)
          → ⊥
      refused n h = cc

      panics : {A : Type 0} {a : A} → ◌≡◌ {A = Result SignedPacketVerifyError A} panic (ok a) → ⊥
      panics h = cc

      parse :
          (key : PublicKey)
          → try_from x (key_part bytes) ≡ ok key
          → public_key x d (record { packet_bytes = bytes }) ≡ ok key
      parse key e = rw (e, public_key) refl

      payload :
          (key : PublicKey)
          → try_from x (key_part bytes) ≡ ok key
          → from_bytes x d bytes ≡ ok (record { packet_bytes = bytes })
          → from_relay_payload x d key (to_relay_payload (record { packet_bytes = bytes }))
            ≡ ok (record { packet_bytes = bytes })
      payload key e h =
          ap (from_bytes x d) (
            ap (λ b. b ++ drop 32 bytes) (try_from_sound x (key_part bytes) key e).1
            ∙ take-append-drop 32 bytes)
          ∙ h

  unchecked_long :
      (b : Bytes) (p : SignedPacket) → from_bytes_unchecked x d b ≡ ok p → 104 ≤ length b
  unfolding from_bytes_unchecked
  unchecked_long b p h =
      leb→le 104 (length b) (ensure-ok (leb header_size (length b)) (too_short (length b)) _ h).0

  -- A packet that parses, and whose bytes are bytes, is the packet of its parts.
  pub from_parts_unchecked-parts :
      (p : SignedPacket)
      → from_bytes_unchecked x d p.packet_bytes ≡ ok p
      → AreBytes p.packet_bytes
      → from_parts_unchecked x d
          (key_part p.packet_bytes)
          (signature p)
          (timestamp p)
          (encoded_packet p)
        ≡ ok p
  unfolding from_parts_unchecked signature timestamp encoded_packet
  from_parts_unchecked-parts p h a =
      ap (from_bytes_unchecked x d) (
        ap (λ t. ((key_part b ++ signature_part b) ++ t) ++ dns_part b)
          (to_be-from_be (timestamp_part b) 8 long
            (AreBytes-take 8 (drop 96 b) (AreBytes-drop 96 b a)))
        ∙ slices b)
      ∙ h
    where
      b : Bytes
      b = p.packet_bytes

      long : length (timestamp_part b) ≡ 8
      long = omega (arith, length-take 8 (drop 96 b), length-drop 96 b, unchecked_long b p h)
