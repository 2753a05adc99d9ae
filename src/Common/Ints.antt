-- ===== src/Common/Ints.antt =====
-- Integers over the native numbers, and `i128` arithmetic.
use Prim.Native.Nat.{ℕ, zero, suc, ◌+◌, ◌-◌, ◌^◌, ◌*◌, ◌/◌, ◌%◌}
use mathlib.Core.Path.{◌≡◌, refl}
use mathlib.Core.Bool.{Bool, true, false}
use native.Mathlib.Omega.{arith}
use nexalink_tunnel.Common.Tests.{ltb, leb, if◌then◌else◌}

-- `pos n` is n, and `negsuc n` is -(n + 1).
pub data ℤ : Type 0 where
  pos : ℕ → ℤ
  negsuc : ℕ → ℤ

abbrev pub neg : ℕ → ℤ
neg zero = pos zero
neg (suc n) = negsuc n

-- m - n
abbrev pub diff : ℕ → ℕ → ℤ
diff m n = if leb n m then pos (m - n) else neg (n - m)

infixl 60 ◌+ℤ◌
unfoldable pub ◌+ℤ◌ : ℤ → ℤ → ℤ
pos m +ℤ pos n = pos (m + n)
pos m +ℤ negsuc n = diff m (suc n)
negsuc m +ℤ pos n = diff n (suc m)
negsuc m +ℤ negsuc n = negsuc (suc (m + n))

unfoldable pub ltz : ℤ → ℤ → Bool
ltz (pos m) (pos n) = ltb m n
ltz (pos m) (negsuc n) = false
ltz (negsuc m) (pos n) = true
ltz (negsuc m) (negsuc n) = ltb n m

unfoldable pub lez : ℤ → ℤ → Bool
lez (pos m) (pos n) = leb m n
lez (pos m) (negsuc n) = false
lez (negsuc m) (pos n) = true
lez (negsuc m) (negsuc n) = leb n m

-- `i128::saturating_add`, from the sum.
unfoldable pub saturate_i128 : ℤ → ℤ
saturate_i128 (pos n) = if ltb n (2 ^ 127) then pos n else pos (2 ^ 127 - 1)
saturate_i128 (negsuc n) = if ltb n (2 ^ 127) then negsuc n else negsuc (2 ^ 127 - 1)

pub ltz_irrefl : (a : ℤ) → ltz a a ≡ false
unfolding ltz
ltz_irrefl (pos n) = ground arith
ltz_irrefl (negsuc n) = ground arith

pub ltz_trans : (a b c : ℤ) → ltz a b ≡ true → ltz b c ≡ true → ltz a c ≡ true
unfolding ltz
ltz_trans (pos a) (pos b) (pos c) h k = ground arith
ltz_trans (pos a) (pos b) (negsuc c) h k = cc
ltz_trans (pos a) (negsuc b) c h k = cc
ltz_trans (negsuc a) b (pos c) h k = refl
ltz_trans (negsuc a) (pos b) (negsuc c) h k = cc
ltz_trans (negsuc a) (negsuc b) (negsuc c) h k = ground arith

pub lez-ltz : (a b : ℤ) → lez a b ≡ false → ltz b a ≡ true
unfolding ltz lez
lez-ltz (pos a) (pos b) h = ground arith
lez-ltz (pos a) (negsuc b) h = refl
lez-ltz (negsuc a) (pos b) h = cc
lez-ltz (negsuc a) (negsuc b) h = ground arith

-- "Not less" is transitive too.
pub ltz_negtrans : (a b c : ℤ) → ltz a b ≡ false → ltz b c ≡ false → ltz a c ≡ false
unfolding ltz
ltz_negtrans (pos a) (pos b) (pos c) h k = ground arith
ltz_negtrans (pos a) b (negsuc c) h k = refl
ltz_negtrans (pos a) (negsuc b) (pos c) h k = cc
ltz_negtrans (negsuc a) (pos b) c h k = cc
ltz_negtrans (negsuc a) (negsuc b) (pos c) h k = cc
ltz_negtrans (negsuc a) (negsuc b) (negsuc c) h k = ground arith

infixl 70 ◌*ℤ◌
unfoldable pub ◌*ℤ◌ : ℤ → ℤ → ℤ
pos m *ℤ pos n = pos (m * n)
pos m *ℤ negsuc n = neg (m * suc n)
negsuc m *ℤ pos n = neg (suc m * n)
negsuc m *ℤ negsuc n = pos (suc m * suc n)

-- Division that rounds towards zero.
unfoldable pub div_z : ℤ → ℤ → ℤ
div_z (pos m) (pos n) = pos (m / n)
div_z (pos m) (negsuc n) = neg (m / suc n)
div_z (negsuc m) (pos n) = neg (suc m / n)
div_z (negsuc m) (negsuc n) = pos (suc m / suc n)

unfoldable pub is_positive : ℤ → Bool
is_positive (pos zero) = false
is_positive (pos (suc n)) = true
is_positive (negsuc n) = false

unfoldable pub min_z : ℤ → ℤ → ℤ
min_z a b = if lez a b then a else b

-- The bounds of `i64`: a cast that wraps, and saturation.
unfoldable pub as_i64 : ℕ → ℤ
as_i64 n = let m = n % 2 ^ 64 in if ltb m (2 ^ 63) then pos m else neg (2 ^ 64 - m)

unfoldable pub wrap_i64 : ℤ → ℤ
wrap_i64 (pos n) = as_i64 n
wrap_i64 (negsuc n) = as_i64 (2 ^ 64 - suc n % 2 ^ 64)

unfoldable pub saturate_i64 : ℤ → ℤ
saturate_i64 (pos n) = if ltb n (2 ^ 63) then pos n else pos (2 ^ 63 - 1)
saturate_i64 (negsuc n) = if ltb n (2 ^ 63) then negsuc n else negsuc (2 ^ 63 - 1)
