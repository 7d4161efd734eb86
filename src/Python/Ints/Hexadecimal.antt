-- ===== src/Python/Ints/Hexadecimal.antt =====
-- `int(bs.hex(), 16)` is the number of the bytes.
use priestly.Base.{
  ℕ, ◌+◌, ◌*◌, ◌/◌, ◌%◌, ◌<◌, ◌≡◌, refl, ap, ◌∙◌, Bool, true, false, some, [], ◌∷◌, foldl, ltb,
  lt→ltb, ◌==◌, arith, Bytes, IsBytes, from_bytes,
}
use priestly.Base.Int.{pos}
use priestly.Python.Text.{
  Text, hex, hex_digit, digit_value, is_space, is_ascii-hex, is_space-hex_digit,
  digit_value-hex_digit, is_ascii,
}
use priestly.Python.Ints.{skip_space, skip_prefix, read_digits, int16}

read_digits-digit :
    (ready : Bool) (acc n : ℕ) (t : Text)
    → n < 16
    → read_digits ready acc (hex_digit n ∷ t) ≡ read_digits true (acc * 16 + n) t
unfolding read_digits
read_digits-digit ready acc n t h =
    let e : digit_value (hex_digit n) ≡ n = digit_value-hex_digit n h in
    let l : ltb n 16 ≡ true = lt→ltb n 16 h in
    rw (e, l, read_digits) (ap (λ (m : ℕ). read_digits true (acc * 16 + m) t) e)

byte_step :
    (ready : Bool) (acc b : ℕ) (t : Text)
    → b < 256
    → read_digits ready acc (hex_digit (b / 16) ∷ hex_digit (b % 16) ∷ t)
      ≡ read_digits true (acc * 256 + b) t
byte_step ready acc b t h =
    read_digits-digit ready acc (b / 16) (hex_digit (b % 16) ∷ t) (omega arith)
    ∙ read_digits-digit true (acc * 16 + b / 16) (b % 16) t (omega arith)
    ∙ ap (λ (n : ℕ). read_digits true n t) (omega arith)

read_digits-hex :
    (bs : Bytes) (acc : ℕ)
    → IsBytes bs
    → read_digits true acc (hex bs) ≡ some (foldl (λ a b. a * 256 + b) acc bs)
unfolding hex
read_digits-hex [] acc h = unfold read_digits in refl
read_digits-hex (b ∷ bs) acc h =
    byte_step true acc b (hex bs) h.0 ∙ read_digits-hex bs (acc * 256 + b) h.1

-- A hexadecimal digit is no sign and no letter of a prefix.
hex_digit-facts :
    (n : ℕ)
    → n < 16
    → ((hex_digit n == 45) ≡ false)
      × ((hex_digit n == 43) ≡ false)
      × ((hex_digit n == 120) ≡ false)
      × ((hex_digit n == 88) ≡ false)
unfolding hex_digit
hex_digit-facts n h = (ground arith, ground arith, ground arith, ground arith)

skip_prefix-none :
    (c d : ℕ) (t : Text)
    → (d == 120) ≡ false
    → (d == 88) ≡ false
    → skip_prefix (c ∷ d ∷ t) ≡ c ∷ d ∷ t
unfolding skip_prefix
skip_prefix-none c d t p q = ground (arith, p, q)

hex-cons : (b : ℕ) (bs : Bytes) → hex_digit (b / 16) ∷ hex_digit (b % 16) ∷ hex bs ≡ hex (b ∷ bs)
unfolding hex
hex-cons b bs = refl

pub int16-hex :
    (to_ascii : Text → Text) (b : ℕ) (bs : Bytes)
    → IsBytes (b ∷ bs)
    → int16 to_ascii (hex (b ∷ bs)) ≡ some (pos (from_bytes (b ∷ bs)))
unfolding int16 hex from_bytes
int16-hex to_ascii b bs h =
    let c : ℕ = hex_digit (b / 16) in
    let d : ℕ = hex_digit (b % 16) in
    let ascii : is_ascii (c ∷ d ∷ hex bs) ≡ true =
      ap is_ascii (hex-cons b bs) ∙ is_ascii-hex (b ∷ bs) h in
    let space : is_space c ≡ false = is_space-hex_digit (b / 16) (omega arith) in
    let (minus, plus, x, y) = hex_digit-facts (b / 16) (omega arith) in
    let (minus', plus', lower, upper) = hex_digit-facts (b % 16) (omega arith) in
    rw
      (
        ascii,
        space,
        skip_space,
        minus,
        plus,
        skip_prefix-none c d (hex bs) lower upper,
        byte_step false 0 b (hex bs) h.0,
        read_digits-hex bs (0 * 256 + b) h.1,
      )
      refl
