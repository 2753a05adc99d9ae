-- ===== src/Tests/Samples.antt =====
-- Concrete functions for what the program takes from other crates.
use nexalink_tunnel.Common.{
  ℕ, ◌%◌, ◌^◌, ◌<◌, ◌≡◌, ◌≢◌, refl, sym, ap, Bool, true, false, ◌==◌, ltb, leb, if◌then◌else◌,
  Option, none, some, List, [], ◌∷◌, ◌++◌, length, take, drop, length-append, take-append_of_length,
  drop-append_of_length, ◌⊎◌, inl, inr, Any, Bool-cases, arith,
}
use nexalink_tunnel.Common.Bytes.{
  bytes_eq, bytes_eq_iff, to_be, from_be, from_be-to_be, length-to_be,
}
use nexalink_tunnel.External.{Bytes, Crates, from_be_u32}
use nexalink_tunnel.Keys.{PublicKey, as_bytes}
use nexalink_tunnel.Keys.Cache.{Lru}
use nexalink_tunnel.Server.Runtime.{Runtime, Sent, sent, full}

-- One byte for a small number, else a mark and eight bytes.
unfoldable pub varint_encode : ℕ → Bytes
varint_encode n = if ltb n 64 then n ∷ [] else 64 ∷ to_be 8 n

unfoldable pub varint_decode : Bytes → Option (ℕ × Bytes)
varint_decode [] = none
varint_decode (b ∷ rest) =
    if ltb b 64
    then some (b, rest)
    else if leb 8 (length rest)
    then some (from_be 0 (take 8 rest), drop 8 rest)
    else none

pub varint_decode-encode :
    (n : ℕ) (rest : Bytes) → n < 2 ^ 62 → varint_decode (varint_encode n ++ rest) ≡ some (n, rest)
unfolding varint_encode varint_decode
varint_decode-encode n rest h = elim (Bool-cases (ltb n 64)) [
  | inl small ↦ rw (small, small) refl
  | inr large ↦
      rw
        (
          large,
          take-append_of_length 8 (to_be 8 n) rest (length-to_be 8 n),
          drop-append_of_length 8 (to_be 8 n) rest (length-to_be 8 n),
          from_be-to_be 8 n (omega (arith, h)),
          room,
        )
        refl
]
  where
    room : leb 8 (length (to_be 8 n ++ rest)) ≡ true
    room = ground (arith, length-append (to_be 8 n) rest, length-to_be 8 n)

unfoldable pub get_u16 : Bytes → ℕ × Bytes
get_u16 b = (from_be 0 (take 2 b) % 2 ^ 16, drop 2 b)

pub get_u16-put_u16 : (n : ℕ) (rest : Bytes) → n < 2 ^ 16 → get_u16 (to_be 2 n ++ rest) ≡ (n, rest)
unfolding get_u16
get_u16-put_u16 n rest h =
    rw
      (
        take-append_of_length 2 (to_be 2 n) rest (length-to_be 2 n),
        drop-append_of_length 2 (to_be 2 n) rest (length-to_be 2 n),
        from_be-to_be 2 n h,
      )
      (ap (λ (m : ℕ). (m, rest)) (omega (arith, h)))

pub from_be_u32-put_u32 : (n : ℕ) → n < 2 ^ 32 → from_be_u32 (to_be 4 n) ≡ n
unfolding to_be
from_be_u32-put_u32 n h = omega (arith, h)

pub data Ecn : Type 0 where
  ect0 ect1 ce : Ecn

unfoldable pub ecn_bits : Ecn → ℕ
ecn_bits ect0 = 2
ecn_bits ect1 = 1
ecn_bits ce = 3

unfoldable pub ecn_from_bits : ℕ → Option Ecn
ecn_from_bits n =
    if n == 2 then some ect0 else if n == 1 then some ect1 else if n == 3 then some ce else none

pub ecn_from_bits-ecn_bits : (e : Ecn) → ecn_from_bits (ecn_bits e) ≡ some e
unfolding ecn_from_bits ecn_bits
ecn_from_bits-ecn_bits ect0 = refl
ecn_from_bits-ecn_bits ect1 = refl
ecn_from_bits-ecn_bits ce = refl

pub length-varint_encode : (n : ℕ) → n < 2 ^ 6 → length (varint_encode n) ≡ 1
unfolding varint_encode
length-varint_encode n h = ground (arith, h)

pub varint_decode_nil : varint_decode [] ≡ none
unfolding varint_decode
varint_decode_nil = refl

pub get_u16-lt : (b : Bytes) → (get_u16 b).0 < 2 ^ 16
unfolding get_u16
get_u16-lt b = omega arith

pub ecn_from_bits_zero : ecn_from_bits 0 ≡ none
unfolding ecn_from_bits
ecn_from_bits_zero = refl

pub is_key-length : (b : Bytes) → (length b == 32) ≡ true → length b ≡ 32
is_key-length b h = ground arith

abbrev pub crates : Crates
crates = record {
  varint_encode = varint_encode;
  varint_decode = varint_decode;
  varint_decode-encode = varint_decode-encode;
  length-varint_encode = length-varint_encode;
  varint_decode_nil = varint_decode_nil;
  put_u16 = to_be 2;
  get_u16 = get_u16;
  length-put_u16 = length-to_be 2;
  get_u16-put_u16 = get_u16-put_u16;
  get_u16-lt = get_u16-lt;
  put_u32 = to_be 4;
  length-put_u32 = length-to_be 4;
  from_be_u32-put_u32 = from_be_u32-put_u32;
  Ecn = Ecn;
  ecn_bits = ecn_bits;
  ecn_from_bits = ecn_from_bits;
  ecn_from_bits-ecn_bits = ecn_from_bits-ecn_bits;
  ecn_from_bits_zero = ecn_from_bits_zero;
  is_utf8 = λ b. true;
  is_verifying_key = λ b. length b == 32;
  is_verifying_key-length = is_key-length;
}

-- A cache that keeps every key.
unfoldable pub find : List PublicKey → Bytes → Option PublicKey
find [] b = none
find (k ∷ t) b = if bytes_eq k.y b then some k else find t b

pub find_bytes :
    (t : List PublicKey) (b : Bytes) (k : PublicKey) → find t b ≡ some k → as_bytes k ≡ b
unfolding find
find_bytes [] b k h = cc
find_bytes (j ∷ t) b k h = elim (Bool-cases (bytes_eq j.y b)) [
  | inl s ↦ cc (rw (s) at h, (bytes_eq_iff j.y b).0 s)
  | inr s ↦ find_bytes t b k (rw (s) at h)
]

abbrev pub IsIn : List PublicKey → PublicKey → Type 0
IsIn t k = Any (λ (j : PublicKey). j ≡ k) t

pub find-IsIn : (t : List PublicKey) (b : Bytes) (k : PublicKey) → find t b ≡ some k → IsIn t k
unfolding find
find-IsIn [] b k h = cc
find-IsIn (j ∷ t) b k h = elim (Bool-cases (bytes_eq j.y b)) [
  | inl s ↦ inl (cc (rw (s) at h))
  | inr s ↦ inr (find-IsIn t b k (rw (s) at h))
]

pub put-IsIn : (t : List PublicKey) (j k : PublicKey) → IsIn (j ∷ t) k → IsIn t k ⊎ (k ≡ j)
put-IsIn t j k (inl e) = inr (sym e)
put-IsIn t j k (inr h) = inl h

abbrev pub lru : Lru
lru = record {
  Table = List PublicKey;
  new = λ n. [];
  get_key_value = λ t b. (find t b, t);
  put = λ t k. k ∷ t;
  Holds = IsIn;
  not-Holds-new = λ n k h. h;
  found_bytes = find_bytes;
  found-Holds = find-IsIn;
  Holds-get = λ t b k h. h;
  Holds-put = put-IsIn;
}

-- A channel by its capacity and its messages.
unfoldable pub try_send : {A : Type 0} → ℕ × List A → A → Sent × (ℕ × List A)
try_send q a = if ltb (length q.1) q.0 then (sent, (q.0, q.1 ++ (a ∷ []))) else (full, q)

pub try_send-sent :
    {A : Type 0} (q : ℕ × List A) (a : A)
    → (try_send q a).0 ≡ sent
    → (try_send q a).1.1 ≡ q.1 ++ (a ∷ [])
unfolding try_send
try_send-sent q a h = elim (Bool-cases (ltb (length q.1) q.0)) [
  | inl r ↦ rw (r) refl
  | inr r ↦ cc (rw (r) at h)
]

pub try_send-refused :
    {A : Type 0} (q : ℕ × List A) (a : A) → (try_send q a).0 ≢ sent → (try_send q a).1.1 ≡ q.1
unfolding try_send
try_send-refused q a h = elim (Bool-cases (ltb (length q.1) q.0)) [
  | inl r ↦ absurd (h (rw (r) refl))
  | inr r ↦ rw (r) refl
]

abbrev pub runtime : Runtime
runtime = record {
  Sender = λ A. ℕ × List A;
  queued = λ q. q.1;
  channel = λ capacity. (capacity, []);
  queued-channel = λ capacity. refl;
  try_send = try_send;
  try_send-sent = try_send-sent;
  try_send-refused = try_send-refused;
  Token = Bool;
  new_token = false;
  cancel = λ token. true;
  is_cancelled = λ token. token;
  is_cancelled-cancel = λ token. refl;
  status_to_string = λ s. [];
}

-- A byte thirty-two times, as a key.
abbrev pub key_of : ℕ → PublicKey
key_of n = record {
  y =
      n ∷ n ∷ n ∷ n ∷ n ∷ n ∷ n ∷ n ∷ n ∷ n ∷ n ∷ n ∷ n ∷ n ∷ n ∷ n ∷ n ∷ n ∷ n ∷ n ∷ n ∷ n ∷ n ∷ n
      ∷ n ∷ n ∷ n ∷ n ∷ n ∷ n ∷ n ∷ n ∷ [];
}
