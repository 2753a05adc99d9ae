-- ===== src/Protos/Datagrams/Segments.antt =====
-- What `Datagrams::take_segments` does to the datagrams that a batch holds.
use nexalink_tunnel.Common.{
  ℕ, zero, suc, ◌*◌, ◌^◌, ◌≤◌, ◌<◌, ◌≡◌, refl, sym, Bool, true, false, ◌&&◌, Option, none, some,
  List, [], ◌∷◌, ◌++◌, length, take, drop, length-take, arith, ltb, leb→le, ltb→lt, append-nil,
  if◌then◌else◌,
}
use native.Mathlib.Nat.{mod-eq_of_lt}
use nexalink_tunnel.Common.Chunks.{
  chunks, chunks_nil, chunks_one, chunks-take-drop, length-chunks-take, take-min, drop-min,
}
use nexalink_tunnel.External.{Bytes, Crates}
use nexalink_tunnel.Protos.Message.{Datagrams, IsDatagrams, IsNonZeroU16}
use nexalink_tunnel.Protos.Datagrams.{take_segments}

whole : Bytes → List Bytes
whole [] = []
whole (b ∷ bs) = (b ∷ bs) ∷ []

-- The datagrams of a batch with a segment size, or of one without.
unfoldable pub datagrams_of : Option ℕ → Bytes → List Bytes
unfolding whole
datagrams_of none c = whole c
datagrams_of (some s) c = chunks s c

-- With at most one datagram the segment size does not matter.
datagrams_of_short : (s : ℕ) (c : Bytes) → 0 < s → length c ≤ s → datagrams_of none c ≡ chunks s c
unfolding datagrams_of
datagrams_of_short s [] h short = sym (chunks_nil s)
datagrams_of_short s (b ∷ bs) h short = sym (chunks_one s b bs short)

-- A size that is dropped only for a short batch.
datagrams_of_sized :
    (s : ℕ) (c : Bytes) (drop_size : Bool)
    → 0 < s
    → (drop_size ≡ true → length c ≤ s)
    → datagrams_of (if drop_size then none else some s) c ≡ chunks s c
unfolding datagrams_of
datagrams_of_sized s c true h short = datagrams_of_short s c h (short refl)
datagrams_of_sized s c false h short = refl

datagrams_of_taken :
    (s : ℕ) (c : Bytes) (keep_size : Bool)
    → 0 < s
    → (keep_size ≡ false → length c ≤ s)
    → datagrams_of (if keep_size then some s else none) c ≡ chunks s c
unfolding datagrams_of
datagrams_of_taken s c true h short = refl
datagrams_of_taken s c false h short = datagrams_of_short s c h (short refl)

module _ (x : Crates) where
  abbrev pub list_of : Datagrams x → List Bytes
  list_of d = datagrams_of d.segment_size d.contents

  abbrev batch_of : Option x.Ecn → Option ℕ → Bytes → Datagrams x
  batch_of e s c = record { ecn = e; segment_size = s; contents = c }

  -- The content length `num_segments * segment_size` fits a `usize`.
  abbrev pub FitsUsize : Datagrams x → ℕ → Type 0
  FitsUsize d n = (s : ℕ) → d.segment_size ≡ some s → n * s < 2 ^ 64

  -- A batch of which the size is dropped is short.
  take_short_of_one :
      (n s : ℕ) (c : Bytes)
      → (ltb 1 n && ltb s (length (take (n * s) c))) ≡ false
      → length (take (n * s) c) ≤ s
  take_short_of_one zero s c h = omega (arith, length-take (0 * s) c)
  take_short_of_one (suc zero) s c h = omega (arith, length-take (1 * s) c)
  take_short_of_one (suc (suc n)) s c h = ground arith

  taken_chunks :
      (e : Option x.Ecn) (s n : ℕ) (c : Bytes)
      → 0 < s
      → n * s < 2 ^ 64
      → list_of (take_segments x (batch_of e (some s) c) n).1 ≡ chunks s (take (n * s) c)
  unfolding take_segments
  taken_chunks e s n c h fits =
      rw (mod-eq_of_lt fits, take-min (n * s) c)
        (datagrams_of_taken s (take (n * s) c) _ h (take_short_of_one n s c))

  left_chunks :
      (e : Option x.Ecn) (s n : ℕ) (c : Bytes)
      → 0 < s
      → n * s < 2 ^ 64
      → list_of (take_segments x (batch_of e (some s) c) n).0 ≡ chunks s (drop (n * s) c)
  unfolding take_segments
  left_chunks e s n c h fits =
      rw (mod-eq_of_lt fits, drop-min (n * s) c)
        (datagrams_of_sized s (drop (n * s) c) _ h (leb→le (length (drop (n * s) c)) s))

  length-whole : (c : Bytes) → length (whole c) ≤ 1
  unfolding whole
  length-whole [] = omega arith
  length-whole (b ∷ bs) = omega arith

  taken_and_left :
      (e : Option x.Ecn) (s : Option ℕ) (n : ℕ) (c : Bytes)
      → IsNonZeroU16 x s
      → FitsUsize (batch_of e s c) n
      → 0 < n
      → (list_of (take_segments x (batch_of e s c) n).1
            ++ list_of (take_segments x (batch_of e s c) n).0
          ≡ datagrams_of s c)
        × (length (list_of (take_segments x (batch_of e s c) n).1) ≤ n)
  taken_and_left e none n c h fits pos =
      unfold take_segments datagrams_of in (append-nil (whole c), omega (arith, length-whole c))
  taken_and_left e (some s) n c h fits pos =
      rw (taken_chunks e s n c h.0 (fits s refl), left_chunks e s n c h.0 (fits s refl))
        (unfold datagrams_of in chunks-take-drop n s c h.0, length-chunks-take n s c h.0)

  -- Taking segments splits the sequence of datagrams of the batch in two, in order and with no
  -- datagram cut or lost, and takes `num_segments` at most.
  pub take_segments-partition :
      (d : Datagrams x) (num_segments : ℕ)
      → IsDatagrams x d
      → FitsUsize d num_segments
      → 0 < num_segments
      → (list_of (take_segments x d num_segments).1 ++ list_of (take_segments x d num_segments).0
          ≡ list_of d)
        × (length (list_of (take_segments x d num_segments).1) ≤ num_segments)
  take_segments-partition d n h fits pos =
      taken_and_left d.ecn d.segment_size n d.contents h fits pos

  -- A batch with a segment size holds more than one datagram.
  abbrev pub IsTight : Datagrams x → Type 0
  IsTight d = (s : ℕ) → d.segment_size ≡ some s → s < length d.contents

  IsTight-if :
      (e : Option x.Ecn) (s : ℕ) (c : Bytes) (keep : Bool)
      → (keep ≡ true → s < length c)
      → IsTight (batch_of e (if keep then some s else none) c)
  IsTight-if e s c true h = λ k p. ground (arith, h refl)
  IsTight-if e s c false h = λ k p. cc

  IsTight-unless :
      (e : Option x.Ecn) (s : ℕ) (c : Bytes) (lose : Bool)
      → (lose ≡ false → s < length c)
      → IsTight (batch_of e (if lose then none else some s) c)
  IsTight-unless e s c true h = λ k p. cc
  IsTight-unless e s c false h = λ k p. ground (arith, h refl)

  and_right : (a b : Bool) → (a && b) ≡ true → b ≡ true
  and_right true b h = h
  and_right false b h = cc

  parts-IsTight :
      (e : Option x.Ecn) (s : Option ℕ) (n : ℕ) (c : Bytes)
      → IsTight (take_segments x (batch_of e s c) n).0
        × IsTight (take_segments x (batch_of e s c) n).1
  unfolding take_segments
  parts-IsTight e none n c = (λ k p. cc, λ k p. cc)
  parts-IsTight e (some s) n c = (
    IsTight-unless e s _ _ (λ h. ground arith),
    IsTight-if e s _ _ (λ h. ltb→lt s _ (and_right (ltb 1 n) _ h)),
  )

  -- Neither part keeps a segment size for a single datagram.
  pub take_segments-IsTight :
      (d : Datagrams x) (num_segments : ℕ)
      → IsTight (take_segments x d num_segments).0 × IsTight (take_segments x d num_segments).1
  take_segments-IsTight d n = parts-IsTight d.ecn d.segment_size n d.contents
