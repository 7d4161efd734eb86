-- ===== src/Python/Text.antt =====
-- Texts as lists of code points: hexadecimal, ASCII, and `hmac.compare_digest`.
use Prim.Native.Char.{code}
use Prim.Native.String.{String}
use priestly.Base.{
  ℕ, ◌+◌, ◌-◌, ◌*◌, ◌/◌, ◌%◌, ◌<◌, ◌≡◌, refl, sym, ap, ◌∙◌, ◌↔◌, Bool, true, false, ◌&&◌, ◌||◌,
  List, [], ◌∷◌, arith, ltb, leb, ◌==◌, ==_refl, if◌then◌else◌, Result, ok, raise, ◌>>=◌,
  value_error, type_error, Bytes, IsBytes,
}

abbrev pub Text : Type 0
Text = List ℕ

abbrev pub codes : String → Text
codes String.[] = []
codes (String.◌∷◌ c s) = code c ∷ codes s

-- Equality of texts, and of byte strings.
unfoldable pub text_eq : List ℕ → List ℕ → Bool
text_eq [] [] = true
text_eq [] (y ∷ ys) = false
text_eq (x ∷ xs) [] = false
text_eq (x ∷ xs) (y ∷ ys) = x == y && text_eq xs ys

pub text_eq_refl : (xs : List ℕ) → text_eq xs xs ≡ true
unfolding text_eq
text_eq_refl [] = refl
text_eq_refl (x ∷ xs) = rw (==_refl x) (text_eq_refl xs)

pub text_eq→eq : (xs ys : List ℕ) → text_eq xs ys ≡ true → xs ≡ ys
unfolding text_eq
text_eq→eq [] [] h = refl
text_eq→eq [] (y ∷ ys) h = cc
text_eq→eq (x ∷ xs) [] h = cc
text_eq→eq (x ∷ xs) (y ∷ ys) h = ground (arith, text_eq→eq xs ys)

-- str.isascii()
unfoldable pub is_ascii : Text → Bool
is_ascii [] = true
is_ascii (c ∷ t) = ltb c 128 && is_ascii t

-- hmac.compare_digest on two texts: it refuses a text that is not ASCII.
unfoldable pub compare_digest : Text → Text → Result Bool
unfolding is_ascii text_eq
compare_digest a b = if is_ascii a && is_ascii b then ok (text_eq a b) else raise type_error

-- The lower-case digit of a number below 16.
unfoldable pub hex_digit : ℕ → ℕ
hex_digit n = if ltb n 10 then n + 48 else n + 87

-- bs.hex()
unfoldable pub hex : Bytes → Text
unfolding hex_digit
hex [] = []
hex (b ∷ bs) = hex_digit (b / 16) ∷ hex_digit (b % 16) ∷ hex bs

-- The value of a hexadecimal digit, of either case; 16 for any other character.
unfoldable pub digit_value : ℕ → ℕ
digit_value c =
    if leb 48 c && leb c 57
    then c - 48
    else (if leb 97 c && leb c 102 then c - 87 else (if leb 65 c && leb c 70 then c - 55 else 16))

-- The whitespace of ASCII: tab, line feed, vertical tab, form feed, return, space.
abbrev pub is_space : ℕ → Bool
is_space c = (leb 9 c && leb c 13) || (c == 32)

-- bytes.fromhex(t): pairs of digits, with whitespace allowed between the pairs.
unfoldable pub from_hex : Text → Result Bytes
unfolding digit_value
from_hex [] = ok []
from_hex (c ∷ []) = if is_space c then ok [] else raise value_error
from_hex (c ∷ d ∷ t) = elim (is_space c) [
  | true ↦ from_hex (d ∷ t)
  | false ↦
      let rest = from_hex t in
      if ltb (digit_value c) 16 && ltb (digit_value d) 16
      then (do bs ← rest; ok ((digit_value c * 16 + digit_value d) ∷ bs))
      else raise value_error
]

pub digit_value-hex_digit : (n : ℕ) → n < 16 → digit_value (hex_digit n) ≡ n
unfolding digit_value hex_digit
digit_value-hex_digit n h = ground arith

pub is_space-hex_digit : (n : ℕ) → n < 16 → is_space (hex_digit n) ≡ false
unfolding hex_digit
is_space-hex_digit n h = ground arith

from_hex_step :
    (c d : ℕ) (t : Text) {bs : Bytes}
    → is_space c ≡ false
    → digit_value c < 16
    → digit_value d < 16
    → from_hex t ≡ ok bs
    → from_hex (c ∷ d ∷ t) ≡ ok ((digit_value c * 16 + digit_value d) ∷ bs)
unfolding from_hex
from_hex_step c d t space hc hd e = ground arith

-- `bytes.fromhex` reads back what `hex` wrote.
pub from_hex-hex : (bs : Bytes) → IsBytes bs → from_hex (hex bs) ≡ ok bs
unfolding hex
from_hex-hex [] h = unfold from_hex in refl
from_hex-hex (b ∷ bs) h =
    let high = digit_value-hex_digit (b / 16) (omega arith) in
    let low = digit_value-hex_digit (b % 16) (omega arith) in
    from_hex_step (hex_digit (b / 16)) (hex_digit (b % 16)) (hex bs)
      (is_space-hex_digit (b / 16) (omega arith)) (omega (arith, high)) (omega (arith, low))
      (from_hex-hex bs h.1)
    ∙ ap (λ (n : ℕ). ok (n ∷ bs)) (omega (arith, high, low))

hex_digit-lt : (n : ℕ) → n < 16 → hex_digit n < 128
unfolding hex_digit
hex_digit-lt n h = ground arith

pub is_ascii-hex : (bs : Bytes) → IsBytes bs → is_ascii (hex bs) ≡ true
unfolding is_ascii hex
is_ascii-hex [] h = refl
is_ascii-hex (b ∷ bs) h =
    ground (arith, hex_digit-lt (b / 16), hex_digit-lt (b % 16), is_ascii-hex bs h.1)

-- Against an ASCII text the comparison is true of that text, and of no other.
pub compare_digest_iff : (a b : Text) → is_ascii a ≡ true → (compare_digest a b ≡ ok true) ↔ (b ≡ a)
unfolding compare_digest
compare_digest_iff a b ha =
    (λ h. sym (text_eq→eq a b (ground arith)), λ e. rw (e, ha, text_eq_refl a))

-- A text that is not ASCII is refused.
pub compare_digest_refused :
    (a b : Text) → is_ascii b ≡ false → compare_digest a b ≡ raise type_error
unfolding compare_digest
compare_digest_refused a b hb = ground arith
