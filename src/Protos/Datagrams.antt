-- ===== src/Protos/Datagrams.antt =====
-- `impl Datagrams` of iroh-relay/src/protos/relay.rs.
pub mod Segments
use nexalink_tunnel.Common.{
  ℕ, zero, suc, ◌+◌, ◌*◌, ◌%◌, ◌^◌, ◌<◌, ◌≤◌, ◌≡◌, ◌≢◌, refl, min, Bool, true, false, ◌&&◌, Option,
  none, some, [], ◌∷◌, ◌++◌, length, take, drop, length-append, append_assoc, arith, ltb, leb,
  le→leb, ◌==◌, if◌then◌else◌, Ensures, fine, refused, Bool-cases, inl, inr, Result, ok, err, panic,
  ◌>>=◌, ◌>>◌, ensure, require,
}
use nexalink_tunnel.External.{Bytes, Crates}
use nexalink_tunnel.Protos.Message.{Error, invalid_frame, Datagrams, IsDatagrams, IsNonZeroU16}

-- `Buf::get_u8` of the `bytes` crate, which panics on an empty buffer.
abbrev pub get_u8 : Bytes → Result Error (ℕ × Bytes)
get_u8 [] = panic
get_u8 (b ∷ rest) = ok (b, rest)

-- `NonZeroU16::new`
abbrev pub non_zero : ℕ → Option ℕ
non_zero n = if n == 0 then none else some n

module _ (x : Crates) where
  -- What is left in `self`, and the segments that were taken.
  unfoldable pub take_segments : Datagrams x → ℕ → Datagrams x × Datagrams x
  take_segments self num_segments = elim self.segment_size [
    | none ↦ (
      record self { contents = [] },
      record { ecn = self.ecn; segment_size = none; contents = self.contents },
    )
    | some segment_size ↦
        let max_content_len = num_segments * segment_size % 2 ^ 64 in
        let at = min max_content_len (length self.contents) in
        let contents = take at self.contents in
        let left = drop at self.contents in
        let is_datagram_batch = ltb 1 num_segments && ltb segment_size (length contents) in
        (
          record self {
            segment_size = if leb (length left) segment_size then none else some segment_size;
            contents = left;
          },
          record {
            ecn = self.ecn;
            segment_size = if is_datagram_batch then some segment_size else none;
            contents = contents;
          },
        )
  ]

  abbrev ecn_byte : Option x.Ecn → ℕ
  ecn_byte none = 0
  ecn_byte (some e) = x.ecn_bits e

  abbrev size_bytes : Option ℕ → Bytes
  size_bytes none = []
  size_bytes (some n) = x.put_u16 n

  unfoldable pub write_to : Datagrams x → Bytes → Bytes
  write_to self dst =
      ((dst ++ (ecn_byte self.ecn ∷ [])) ++ size_bytes self.segment_size) ++ self.contents

  unfoldable pub encoded_len : Datagrams x → ℕ
  encoded_len self = 1 + (elim self.segment_size [ none ↦ 0 | some n ↦ 2 ]) + length self.contents

  -- `Buf::get_u16`, which panics on fewer than two bytes.
  abbrev get_u16 : Bytes → Result Error (ℕ × Bytes)
  get_u16 bytes = do require (leb 2 (length bytes)); ok (x.get_u16 bytes)

  unfoldable pub from_bytes : Bytes → Bool → Result Error (Datagrams x)
  from_bytes bytes true = do
    ensure (leb 3 (length bytes)) invalid_frame
    (ecn_byte, rest) ← get_u8 bytes
    (segment_size, contents) ← get_u16 rest
    ok (record {
      ecn = x.ecn_from_bits ecn_byte;
      segment_size = non_zero segment_size;
      contents = contents;
    })
  from_bytes bytes false = do
    ensure (leb 1 (length bytes)) invalid_frame
    (ecn_byte, rest) ← get_u8 bytes
    ok (record { ecn = x.ecn_from_bits ecn_byte; segment_size = none; contents = rest })

  abbrev pub is_batch : Datagrams x → Bool
  is_batch d = elim d.segment_size [ none ↦ false | some n ↦ true ]

  length-size_bytes : (s : Option ℕ) → length (size_bytes s) ≡ elim s [ none ↦ 0 | some n ↦ 2 ]
  length-size_bytes none = refl
  length-size_bytes (some n) = x.length-put_u16 n

  pub length-write_to :
      (d : Datagrams x) (dst : Bytes) → length (write_to d dst) ≡ length dst + encoded_len d
  unfolding write_to encoded_len
  length-write_to d dst =
      rw (length-append, length-append, length-append, length-size_bytes) (omega arith)

  pub write_to-append : (d : Datagrams x) (dst : Bytes) → write_to d dst ≡ dst ++ write_to d []
  unfolding write_to
  write_to-append d dst = simp append_assoc

  ecn_from_bits-ecn_byte : (e : Option x.Ecn) → x.ecn_from_bits (ecn_byte e) ≡ e
  ecn_from_bits-ecn_byte none = x.ecn_from_bits_zero
  ecn_from_bits-ecn_byte (some e) = x.ecn_from_bits-ecn_bits e

  enough_for_batch : (b n : ℕ) (rest : Bytes) → leb 3 (length (b ∷ (x.put_u16 n ++ rest))) ≡ true
  enough_for_batch b n rest =
      le→leb _ _ (omega (arith, length-append (x.put_u16 n) rest, x.length-put_u16 n))

  enough_for_size : (n : ℕ) (rest : Bytes) → leb 2 (length (x.put_u16 n ++ rest)) ≡ true
  enough_for_size n rest =
      le→leb _ _ (omega (arith, length-append (x.put_u16 n) rest, x.length-put_u16 n))

  enough_for_one : (b : ℕ) (rest : Bytes) → leb 1 (length (b ∷ rest)) ≡ true
  enough_for_one b rest = le→leb _ _ (omega arith)

  non_zero-some : (n : ℕ) → 0 < n → non_zero n ≡ some n
  non_zero-some n h = ground arith

  from_bytes_parts :
      (e : Option x.Ecn) (s : Option ℕ) (c : Bytes)
      → IsNonZeroU16 x s
      → let d : Datagrams x = record { ecn = e; segment_size = s; contents = c } in
        from_bytes (write_to d []) (is_batch d) ≡ ok d
  unfolding from_bytes write_to
  from_bytes_parts e none c h = rw (enough_for_one (ecn_byte e) c, ecn_from_bits-ecn_byte e)
  from_bytes_parts e (some n) c h = rw (
    enough_for_batch (ecn_byte e) n c,
    enough_for_size n c,
    x.get_u16-put_u16 n c h.1,
    non_zero-some n h.0,
    ecn_from_bits-ecn_byte e,
  )

  -- Reading the bytes of a datagram batch gives it back.
  pub from_bytes-write_to :
      (d : Datagrams x) → IsDatagrams x d → from_bytes (write_to d []) (is_batch d) ≡ ok d
  from_bytes-write_to d h = from_bytes_parts d.ecn d.segment_size d.contents h

  non_zero-IsNonZeroU16 : (n : ℕ) → n < 2 ^ 16 → IsNonZeroU16 x (non_zero n)
  non_zero-IsNonZeroU16 n h = elim (Bool-cases (n == 0)) [
    | inl nil ↦ rw (nil, non_zero, IsNonZeroU16) tt
    | inr more ↦ rw (more, non_zero, IsNonZeroU16) (ground arith, h)
  ]

  -- Any input gives a datagram batch or an error: the length test covers every read.
  pub from_bytes-Ensures : (b : Bytes) (batch : Bool) → Ensures (IsDatagrams x) (from_bytes b batch)
  unfolding from_bytes
  from_bytes-Ensures [] true = refused
  from_bytes-Ensures [] false = refused
  from_bytes-Ensures (b ∷ rest) true = elim (Bool-cases (leb 3 (length (b ∷ rest)))) [
    | inl enough ↦
        rw (enough, le→leb 2 (length rest) (ground (arith, enough)), from_bytes)
          (fine (non_zero-IsNonZeroU16 _ (x.get_u16-lt rest)))
    | inr short ↦ rw (short, from_bytes) refused
  ]
  from_bytes-Ensures (b ∷ rest) false = rw (enough_for_one b rest, from_bytes) (fine tt)
