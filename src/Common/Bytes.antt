-- ===== src/Common/Bytes.antt =====
-- Equality of byte sequences, and big-endian numbers.
use Prim.Native.Nat.{ℕ, zero, suc, ◌+◌, ◌*◌, ◌/◌, ◌%◌, ◌^◌, ◌<◌}
use mathlib.Core.Path.{◌≡◌, refl, sym}
use mathlib.Core.Logic.{◌↔◌}
use mathlib.Core.Bool.{Bool, true, false, ◌&&◌}
use mathlib.Core.List.{List, [], ◌∷◌, ◌++◌, append-nil, append_assoc}
use native.Mathlib.Omega.{arith}
use native.Mathlib.Nat.{pow-suc}
use nexalink_tunnel.Common.Tests.{◌==◌, Eq}
use nexalink_tunnel.Common.Lists.{length, length-append, All}

-- `==` on byte slices.
unfoldable pub bytes_eq : List ℕ → List ℕ → Bool
bytes_eq [] [] = true
bytes_eq [] (b ∷ bs) = false
bytes_eq (a ∷ as') [] = false
bytes_eq (a ∷ as') (b ∷ bs) = (a == b) && bytes_eq as' bs

bytes_eq→eq : (a b : List ℕ) → bytes_eq a b ≡ true → a ≡ b
unfolding bytes_eq
bytes_eq→eq [] [] h = refl
bytes_eq→eq [] (b ∷ bs) h = cc
bytes_eq→eq (a ∷ as') [] h = cc
bytes_eq→eq (a ∷ as') (b ∷ bs) h = ground (arith, bytes_eq→eq as' bs)

pub bytes_eq_refl : (a : List ℕ) → bytes_eq a a ≡ true
unfolding bytes_eq
bytes_eq_refl [] = refl
bytes_eq_refl (a ∷ as') = ground (arith, bytes_eq_refl as')

pub bytes_eq_iff : (a b : List ℕ) → (bytes_eq a b ≡ true) ↔ (a ≡ b)
bytes_eq_iff a b = (bytes_eq→eq a b, λ e. rw e (bytes_eq_refl b))

instance abbrev pub bytes_Eq : Eq (List ℕ)
bytes_Eq = record { beq = bytes_eq; beq_iff = bytes_eq_iff }

-- `to_be_bytes` of a number of `k` bytes.
unfoldable pub to_be : ℕ → ℕ → List ℕ
to_be zero n = []
to_be (suc k) n = to_be k (n / 256) ++ (n % 256 ∷ [])

-- The number, from the bytes before it and the next bytes.
unfoldable pub from_be : ℕ → List ℕ → ℕ
from_be acc [] = acc
from_be acc (b ∷ bs) = from_be (acc * 256 + b) bs

from_be-append : (acc : ℕ) (xs ys : List ℕ) → from_be acc (xs ++ ys) ≡ from_be (from_be acc xs) ys
unfolding from_be
from_be-append acc [] ys = refl
from_be-append acc (x ∷ xs) ys = from_be-append (acc * 256 + x) xs ys

pub from_be-to_be : (k n : ℕ) → n < 256 ^ k → from_be 0 (to_be k n) ≡ n
unfolding to_be from_be
from_be-to_be zero n h = omega arith
from_be-to_be (suc k) n h =
    rw (from_be-append 0 (to_be k (n / 256)) (n % 256 ∷ []))
      (omega (arith, from_be-to_be k (n / 256) small))
  where
    small : n / 256 < 256 ^ k
    small = omega (arith, pow-suc 256 k)

pub length-to_be : (k n : ℕ) → length (to_be k n) ≡ k
unfolding to_be
length-to_be zero n = refl
length-to_be (suc k) n =
    omega (arith, length-append (to_be k (n / 256)) (n % 256 ∷ []), length-to_be k (n / 256))

-- Numbers that fit are told apart by their bytes.
pub to_be-injective : (k n m : ℕ) → n < 256 ^ k → m < 256 ^ k → to_be k n ≡ to_be k m → n ≡ m
to_be-injective k n m hn hm e = cc (from_be-to_be k n hn, from_be-to_be k m hm)

-- The other way round: bytes are the bytes of the number that they stand for.
abbrev pub AreBytes : List ℕ → Type 0
AreBytes l = All (λ b. b < 256) l

to_be-from_be_after :
    (l : List ℕ) (k acc : ℕ) → AreBytes l → to_be (length l + k) (from_be acc l) ≡ to_be k acc ++ l
unfolding from_be to_be
to_be-from_be_after [] k acc h =
    let e : 0 + k ≡ k = omega arith in rw (e) (sym (append-nil (to_be k acc)))
to_be-from_be_after (b ∷ bs) k acc h =
    let e : suc (length bs) + k ≡ length bs + suc k = omega arith in
    let high : (acc * 256 + b) / 256 ≡ acc = omega (arith, h.0) in
    let low : (acc * 256 + b) % 256 ≡ b = omega (arith, h.0) in
    rw (e, to_be-from_be_after bs (suc k) (acc * 256 + b) h.1, high, low)
      (append_assoc (to_be k acc) (b ∷ []) bs)

pub to_be-from_be : (l : List ℕ) (k : ℕ) → length l ≡ k → AreBytes l → to_be k (from_be 0 l) ≡ l
unfolding to_be
to_be-from_be l k e h =
    let f : k ≡ length l + 0 = omega (arith, e) in rw (f) (to_be-from_be_after l 0 0 h)
