-- ===== src/Crypto/Covenant/Gcd.antt =====
-- The extended Euclidean algorithm of crypto/covenant.py: what `extended_gcd` and `modinv` return.
use priestly.Base.{
  ℕ, zero, suc, ◌+◌, ◌-◌, ◌*◌, ◌/◌, ◌%◌, ◌≤◌, ◌<◌, ◌≡◌, refl, sym, ap, ◌∙◌, arith, ◌==◌, ==_iff,
  true, ok, value_error, guard-returned,
}
use priestly.Base.Int.{ℤ, pos, negsuc, pos_part, neg_part, ◌-ℤ◌, ◌*ℤ◌, ◌%ℤ◌, -ℤ_parts, *ℤ_parts}
use priestly.Crypto.Covenant.{gcd_loop, extended_gcd, modinv}
use native.Mathlib.Nat.{mod-lt, div-add-mod, add-mul-mod_self_right}

-- `a * x + b * y = g`, its negative terms moved to the right.
abbrev pub Combination : ℕ → ℕ → ℕ → ℤ → ℤ → Type 0
Combination a b g x y = a * pos_part x + b * pos_part y ≡ g + (a * neg_part x + b * neg_part y)

abbrev pub Divides : ℕ → ℕ → Type 0
Divides g n = (k : ℕ) × (n ≡ k * g)

round_parts :
    (q : ℕ) (old s : ℤ)
    → pos_part (old -ℤ (pos q *ℤ s)) + (neg_part old + q * pos_part s)
      ≡ neg_part (old -ℤ (pos q *ℤ s)) + (pos_part old + q * neg_part s)
round_parts q old s = omega (arith, -ℤ_parts old (pos q *ℤ s), *ℤ_parts q s)

-- One round keeps the combinations.
round-Combination :
    (a b q old_r r : ℕ) (old_s s old_t t : ℤ)
    → q * r ≤ old_r
    → Combination a b old_r old_s old_t
    → Combination a b r s t
    → Combination a b (old_r - q * r) (old_s -ℤ (pos q *ℤ s)) (old_t -ℤ (pos q *ℤ t))
round-Combination a b q old_r r old_s s old_t t le h k = omega (
  arith,
  le,
  h,
  ap (λ (z : ℕ). a * z) (round_parts q old_s s),
  ap (λ (z : ℕ). b * z) (round_parts q old_t t),
  ap (λ (z : ℕ). q * z) k,
)

remainder : (m n : ℕ) → 0 < n → (m / n * n ≤ m) × (m - m / n * n < n)
remainder m n h = (omega (arith, div-add-mod m n), omega (arith, div-add-mod m n, mod-lt m h))

-- What the loop returns, from remainders and coefficients that belong together: the first number
-- divides both remainders and is the combination of `a` and `b` that the coefficients make.
gcd_loop-result :
    (fuel a b old_r r : ℕ) (old_s s old_t t : ℤ)
    → r ≤ fuel
    → Combination a b old_r old_s old_t
    → Combination a b r s t
    → Divides (gcd_loop fuel old_r r old_s s old_t t).0 old_r
      × Divides (gcd_loop fuel old_r r old_s s old_t t).0 r
      × Combination a b
          (gcd_loop fuel old_r r old_s s old_t t).0
          (gcd_loop fuel old_r r old_s s old_t t).1
          (gcd_loop fuel old_r r old_s s old_t t).2
unfolding gcd_loop
gcd_loop-result zero a b old_r r old_s s old_t t enough h k =
    ((1, omega arith), (0, omega (arith, enough)), h)
gcd_loop-result (suc fuel) a b old_r zero old_s s old_t t enough h k =
    ((1, omega arith), (0, omega arith), h)
gcd_loop-result (suc fuel) a b old_r (suc r) old_s s old_t t enough h k =
    let q : ℕ = old_r / suc r in
    let (le, small) = remainder old_r (suc r) (omega arith) in
    let (c, d, e) =
      gcd_loop-result fuel a b (suc r) (old_r - q * suc r) s (old_s -ℤ (pos q *ℤ s)) t
        (old_t -ℤ (pos q *ℤ t)) (omega (arith, small, enough)) k
        (round-Combination a b q old_r (suc r) old_s s old_t t le h k) in
    ((q * c.0 + d.0, omega (arith, le, ap (λ (z : ℕ). q * z) c.1, d.1)), c, e)

-- extended_gcd returns a common divisor of its arguments that is their combination with the
-- coefficients it returns, so the greatest common divisor.
pub extended_gcd-result :
    (a b : ℕ)
    → Divides (extended_gcd a b).0 a
      × Divides (extended_gcd a b).0 b
      × Combination a b (extended_gcd a b).0 (extended_gcd a b).1 (extended_gcd a b).2
unfolding extended_gcd
extended_gcd-result a b =
    gcd_loop-result b a b a b (pos 1) (pos 0) (pos 0) (pos 1) (omega arith) (omega arith)
      (omega arith)

-- An integer and its residue differ by a multiple.
residue :
    (x : ℤ) (m : ℕ)
    → 0 < m
    → (x %ℤ m < m) × ((u : ℕ) × (v : ℕ) × (pos_part x + u * m ≡ x %ℤ m + neg_part x + v * m))
unfolding ◌%ℤ◌
residue (pos n) m h = (mod-lt n h, (0, n / m, omega (arith, div-add-mod n m)))
residue (negsuc n) m h =
    (omega (arith, mod-lt n h), (n / m + 1, 0, omega (arith, div-add-mod n m, mod-lt n h)))

pub congruent : (z w k l m : ℕ) → z + k * m ≡ w + l * m → z % m ≡ w % m
congruent z w k l m e =
    sym (add-mul-mod_self_right z k m) ∙ ap (λ (t : ℕ). t % m) e ∙ add-mul-mod_self_right w l m

-- A number that divides two neighbours is 1.
unit : (g x y : ℕ) → g * x ≡ g * y + 1 → g ≡ 1
unit zero x y e = absurd (omega (arith, e))
unit (suc zero) x y e = refl
unit (suc (suc g)) x y e = absurd (grind (arith, e, parts (x - y) (y - x) (omega arith)))
  where
    parts :
        (p q : ℕ)
        → x + q ≡ y + p
        → suc (suc g) * x + suc (suc g) * q ≡ suc (suc g) * y + suc (suc g) * p
    parts p q h = omega (arith, ap (λ (t : ℕ). suc (suc g) * t) h)

-- What modinv returns for a positive modulus is a residue, and times the number it leaves 1.
pub modinv-inverse : (a m x : ℕ) → 0 < m → modinv a m ≡ ok x → (x < m) × (a * x % m ≡ 1 % m)
unfolding modinv
modinv-inverse a m x h e =
    let g : ℕ = (extended_gcd (a % m) m).0 in
    let s : ℤ = (extended_gcd (a % m) m).1 in
    let t : ℤ = (extended_gcd (a % m) m).2 in
    let (one, returned) = guard-returned (g == 1) value_error (ok (s %ℤ m)) x e in
    let same : s %ℤ m ≡ x = cc returned in
    let (da, dm, comb) = extended_gcd-result (a % m) m in
    let (less, (u, v, shift)) = residue s m h in
    let unit_g : g ≡ 1 = (==_iff g 1).0 one in
    (
      omega (arith, less, same),
      congruent (a * x) 1 (a % m * v + pos_part t) (neg_part t + a % m * u + a / m * x) m (
          omega (
            arith,
            comb,
            unit_g,
            ap (λ (z : ℕ). a % m * z) shift,
            ap (λ (z : ℕ). a % m * z) same,
            ap (λ (z : ℕ). z * x) (div-add-mod a m),
          )),
    )

pub modinv-total : (a m y : ℕ) → 1 < m → a * y % m ≡ 1 → (x : ℕ) × (modinv a m ≡ ok x)
unfolding modinv
modinv-total a m y h e =
    let g : ℕ = (extended_gcd (a % m) m).0 in
    let s : ℤ = (extended_gcd (a % m) m).1 in
    let ((c, ca), (d, dm), comb) = extended_gcd-result (a % m) m in
    let unit_g : g ≡ 1 = unit g (c * y + d * (a / m * y)) (d * (a * y / m)) (
      omega (
        arith,
        div-add-mod (a * y) m,
        e,
        ap (λ (z : ℕ). z * y) (div-add-mod a m),
        ap (λ (z : ℕ). z * y) ca,
        ap (λ (z : ℕ). z * (a / m * y)) dm,
        ap (λ (z : ℕ). z * (a * y / m)) dm,
      )) in
    let passes : (g == 1) ≡ true = (==_iff g 1).1 unit_g in (s %ℤ m, rw passes refl)
