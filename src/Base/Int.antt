-- ===== src/Base/Int.antt =====
-- Python's integers, where a wire field may be negative.
use Prim.Native.Nat.{ℕ, suc, ◌+◌, ◌-◌, ◌*◌, ◌%◌, ◌<◌, ◌^◌}
use mathlib.Core.Path.{◌≡◌}
use mathlib.Core.Bool.{Bool, true, false}
use native.Mathlib.Omega.{arith}
use priestly.Base.Tests.{ltb, leb, if◌then◌else◌}
use priestly.Base.Errors.{Result, ok, raise, struct_error}
use priestly.Base.ByteStrings.{Bytes, be_bytes}

-- `negsuc n` is -(n + 1).
pub data ℤ : Type 0 where
  pos : ℕ → ℤ
  negsuc : ℕ → ℤ

-- `a <= b`
abbrev pub leb_ℤ : ℤ → ℤ → Bool
leb_ℤ (pos m) (pos n) = leb m n
leb_ℤ (pos m) (negsuc n) = false
leb_ℤ (negsuc m) (pos n) = true
leb_ℤ (negsuc m) (negsuc n) = leb n m

-- The two parts of an integer, one of which is 0.
abbrev pub pos_part : ℤ → ℕ
pos_part (pos n) = n
pos_part (negsuc n) = 0

abbrev pub neg_part : ℤ → ℕ
neg_part (pos n) = 0
neg_part (negsuc n) = suc n

abbrev pub difference : ℕ → ℕ → ℤ
difference a b = if leb b a then pos (a - b) else negsuc (b - a - 1)

infixl 65 ◌-ℤ◌
unfoldable pub ◌-ℤ◌ : ℤ → ℤ → ℤ
a -ℤ b = difference (pos_part a + neg_part b) (neg_part a + pos_part b)

infixl 70 ◌*ℤ◌
unfoldable pub ◌*ℤ◌ : ℤ → ℤ → ℤ
a *ℤ b =
    difference (pos_part a * pos_part b + neg_part a * neg_part b)
      (pos_part a * neg_part b + neg_part a * pos_part b)

-- Python's `%` by a number that is not negative: the result is not negative.
infixl 70 ◌%ℤ◌
unfoldable pub ◌%ℤ◌ : ℤ → ℕ → ℕ
pos n %ℤ m = n % m
negsuc n %ℤ m = m - 1 - n % m

difference_parts : (a b : ℕ) → pos_part (difference a b) + b ≡ neg_part (difference a b) + a
difference_parts a b = ground arith

pub -ℤ_parts :
    (a b : ℤ)
    → pos_part (a -ℤ b) + (neg_part a + pos_part b) ≡ neg_part (a -ℤ b) + (pos_part a + neg_part b)
unfolding ◌-ℤ◌
-ℤ_parts a b = difference_parts (pos_part a + neg_part b) (neg_part a + pos_part b)

pub *ℤ_parts :
    (q : ℕ) (b : ℤ)
    → pos_part (pos q *ℤ b) + q * neg_part b ≡ neg_part (pos q *ℤ b) + q * pos_part b
unfolding ◌*ℤ◌
*ℤ_parts q b =
    omega
      (arith, difference_parts (q * pos_part b + 0 * neg_part b) (q * neg_part b + 0 * pos_part b))

-- struct.pack(">Q", z): an error outside the range of an unsigned 64-bit integer.
unfoldable pub pack_q : ℤ → Result Bytes
unfolding be_bytes
pack_q (pos n) = if ltb n (2 ^ 64) then ok (be_bytes 8 n) else raise struct_error
pack_q (negsuc n) = raise struct_error

-- The numbers that `pack_q` takes.
abbrev pub IsU64 : ℤ → Type 0
IsU64 (pos n) = n < 2 ^ 64
IsU64 (negsuc n) = ⊥

pub pack_q-ok : (n : ℕ) → n < 2 ^ 64 → pack_q (pos n) ≡ ok (be_bytes 8 n)
unfolding pack_q
pack_q-ok n h = ground arith
