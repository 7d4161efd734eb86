-- ===== src/Base/Bits.antt =====
-- Laws of `&` and `^` on natural numbers, from their recursion on binary digits.
use Prim.Native.Nat.{
  ℕ, zero, suc, ◌+◌, ◌-◌, ◌*◌, ◌/◌, ◌%◌, ◌^◌, ◌≤◌, ◌<◌, min, bit_and, bit_xor, digits, bitwise,
  differ, bit_and-bitwise, bit_xor-bitwise,
}
use native.Mathlib.Nat.{le_refl, pow-suc, one-le-pow}
use mathlib.Core.Path.{◌≡◌, refl, ap, ◌∙◌}
use native.Mathlib.Omega.{arith}

module _ (unary : ℕ → ℕ) (join : ℕ → ℕ → ℕ) where
  -- A round more than the first number needs changes nothing, nor do any number of them.
  spare_round : (n a b : ℕ) → a ≤ n → digits unary join (suc n) a b ≡ digits unary join n a b
  spare_round zero zero b le = refl
  spare_round zero (suc a) b le = elim le [ ]
  spare_round (suc n) zero b le = refl
  spare_round (suc n) (suc a) b le =
      let half = spare_round n (suc a / 2) (b / 2) (omega arith) in omega (arith, half)

  spare_rounds :
      (k n m a b : ℕ) → m ≡ n + k → a ≤ n → digits unary join m a b ≡ digits unary join n a b
  spare_rounds zero n m a b e le = ap (λ (t : ℕ). digits unary join t a b) (omega arith)
  spare_rounds (suc k) n zero a b e le = absurd (omega arith)
  spare_rounds (suc k) n (suc m) a b e le =
      spare_round m a b (omega arith) ∙ spare_rounds k n m a b (omega arith) le

  -- The lowest digit of a bitwise operation, and the operation on the rest.
  lowest_digit :
      (a b : ℕ)
      → bitwise unary join (suc a) b
        ≡ bitwise unary join (suc a / 2) (b / 2) * 2 + join (suc a % 2) (b % 2)
  lowest_digit a b =
      let half : ℕ = suc a / 2 in
      omega (arith, spare_rounds (a - half) half a half (b / 2) (omega arith) (le_refl half))

bit_and_step : (a b : ℕ) → bit_and a b ≡ bit_and (a / 2) (b / 2) * 2 + min (a % 2) (b % 2)
bit_and_step (suc a) b = simp bit_and-bitwise (lowest_digit (λ _. 0) min a b)
bit_and_step zero b = omega (arith, bit_and-bitwise 0 b, bit_and-bitwise 0 (b / 2))

bit_xor_step : (a b : ℕ) → bit_xor a b ≡ bit_xor (a / 2) (b / 2) * 2 + differ (a % 2) (b % 2)
bit_xor_step (suc a) b = simp bit_xor-bitwise (lowest_digit (λ y. y) differ a b)
bit_xor_step zero b = simp bit_xor-bitwise (omega arith)

-- The last digits of `a ^ k` and of `(a ^ k) ^ k`.
differ-lt : (a b : ℕ) → differ (a % 2) (b % 2) < 2
differ-lt a b = go (a % 2) (b % 2) (omega arith) (omega arith)
  where
    go : (x y : ℕ) → x < 2 → y < 2 → differ x y < 2
    go zero y p q = q
    go (suc zero) zero p q = p
    go (suc zero) (suc y) p q = omega arith
    go (suc (suc x)) y p q = absurd (omega arith)

differ_undo : (x y : ℕ) → x < 2 → y < 2 → differ (differ x y) y ≡ x
differ_undo zero zero p q = refl
differ_undo zero (suc zero) p q = refl
differ_undo (suc zero) zero p q = refl
differ_undo (suc zero) (suc zero) p q = refl
differ_undo zero (suc (suc y)) p q = absurd (omega arith)
differ_undo (suc zero) (suc (suc y)) p q = absurd (omega arith)
differ_undo (suc (suc x)) y p q = absurd (omega arith)

bit_xor-halves :
    (a b : ℕ)
    → (bit_xor a b / 2 ≡ bit_xor (a / 2) (b / 2)) × (bit_xor a b % 2 ≡ differ (a % 2) (b % 2))
bit_xor-halves a b = omega (arith, bit_xor_step a b, differ-lt a b)

xor_undo_fuel : (n a k : ℕ) → a ≤ n → k ≤ n → bit_xor (bit_xor a k) k ≡ a
xor_undo_fuel zero zero zero p q = refl
xor_undo_fuel zero (suc a) k p q = absurd (omega arith)
xor_undo_fuel zero zero (suc k) p q = absurd (omega arith)
xor_undo_fuel (suc n) a k p q =
    let (half, low) = bit_xor-halves a k in
    bit_xor_step (bit_xor a k) k
    ∙ rw
        (
          half,
          low,
          xor_undo_fuel n (a / 2) (k / 2) (omega arith) (omega arith),
          differ_undo (a % 2) (k % 2) (omega arith) (omega arith),
        )
        (omega arith)

-- A mask that is applied twice is undone.
pub bit_xor_undo : (a k : ℕ) → bit_xor (bit_xor a k) k ≡ a
bit_xor_undo a k = xor_undo_fuel (a + k) a k (omega arith) (omega arith)

-- `^` stays within `w` bits.
pub bit_xor-lt : (w a b : ℕ) → a < 2 ^ w → b < 2 ^ w → bit_xor a b < 2 ^ w
bit_xor-lt zero zero zero p q = omega arith
bit_xor-lt zero zero (suc b) p q = absurd (omega arith)
bit_xor-lt zero (suc a) b p q = absurd (omega arith)
bit_xor-lt (suc w) a b p q = omega (
  arith,
  bit_xor_step a b,
  differ-lt a b,
  pow-suc 2 w,
  bit_xor-lt w (a / 2) (b / 2) (omega (arith, pow-suc 2 w)) (omega (arith, pow-suc 2 w)),
)

none_below : (n a : ℕ) → a ≤ n → bit_and a 0 ≡ 0
none_below zero zero le = refl
none_below zero (suc a) le = elim le [ ]
none_below (suc n) a le = omega (arith, bit_and_step a 0, none_below n (a / 2) (omega arith))

low_field : (k q r : ℕ) → r < 2 ^ k → bit_and (q * 2 ^ k + r) (2 ^ k - 1) ≡ r
low_field zero q r fits = none_below (q * 1 + r) (q * 1 + r) (le_refl _) ∙ omega arith
low_field (suc k) q r fits =
    let twice = pow-suc 2 k in
    let scaled = ap (λ (t : ℕ). q * t) twice in
    let half = low_field k q (r / 2) (omega (arith, twice)) in
    ground (arith, twice, scaled, half, bit_and_step (q * 2 ^ suc k + r) (2 ^ suc k - 1))

-- A mask of `k` low bits is the remainder by `2 ^ k`.
pub bit_and_mask : (k a : ℕ) → bit_and a (2 ^ k - 1) ≡ a % 2 ^ k
bit_and_mask k a = ground (arith, one-le-pow k 2, low_field k (a / 2 ^ k) (a % 2 ^ k))
