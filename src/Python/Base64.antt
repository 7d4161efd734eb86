-- ===== src/Python/Base64.antt =====
-- `base64.b64encode` and `base64.b64decode(..., validate=True)`: whole groups of four characters
-- of the alphabet, with padding at the end only (RFC 4648).
pub mod Codec
pub mod Graphic
use priestly.Base.{
  All, ℕ, ◌+◌, ◌-◌, ◌*◌, ◌/◌, ◌%◌, ◌<◌, ◌≡◌, refl, sym, ap, ◌∙◌, false, ◌&&◌, [], ◌∷◌, ◌++◌, arith,
  ltb, leb, ◌==◌, if◌then◌else◌, Result, ok, raise, ◌>>=◌, value_error, Bytes, IsBytes,
}
use priestly.Python.Text.{Text}

abbrev pub pad : ℕ
pad = 61

-- The character of a number below 64.
pub b64_char : ℕ → ℕ
b64_char n =
    if ltb n 26
    then n + 65
    else (if ltb n 52 then n + 71 else (if ltb n 62 then n - 4 else (if n == 62 then 43 else 47)))

-- The number of a character; 64 outside the alphabet.
pub b64_value : ℕ → ℕ
b64_value c =
    if leb 65 c && leb c 90
    then c - 65
    else (if leb 97 c && leb c 122
        then c - 71
        else (if leb 48 c && leb c 57
            then c + 4
            else (if c == 43 then 62 else (if c == 47 then 63 else 64))))

unfoldable pub b64encode : Bytes → Text
unfolding b64_char
b64encode [] = []
b64encode (a ∷ []) = b64_char (a / 4) ∷ b64_char (a % 4 * 16) ∷ pad ∷ pad ∷ []
b64encode (a ∷ b ∷ []) =
    b64_char (a / 4) ∷ b64_char (a % 4 * 16 + b / 16) ∷ b64_char (b % 16 * 4) ∷ pad ∷ []
b64encode (a ∷ b ∷ c ∷ rest) =
    b64_char (a / 4)
    ∷ b64_char (a % 4 * 16 + b / 16)
    ∷ b64_char (b % 16 * 4 + c / 64)
    ∷ b64_char (c % 64)
    ∷ b64encode rest

pub three_bytes : ℕ → ℕ → ℕ → ℕ → Result Bytes
three_bytes u v w x =
    if ltb u 64 && ltb v 64 && ltb w 64 && ltb x 64
    then ok ((u * 4 + v / 16) ∷ (v % 16 * 16 + w / 4) ∷ (w % 4 * 64 + x) ∷ [])
    else raise value_error

pub two_bytes : ℕ → ℕ → ℕ → Result Bytes
two_bytes u v w =
    if ltb u 64 && ltb v 64 && ltb w 64
    then ok ((u * 4 + v / 16) ∷ (v % 16 * 16 + w / 4) ∷ [])
    else raise value_error

pub one_byte : ℕ → ℕ → Result Bytes
one_byte u v = if ltb u 64 && ltb v 64 then ok ((u * 4 + v / 16) ∷ []) else raise value_error

pub last_group : ℕ → ℕ → ℕ → ℕ → Result Bytes
unfolding three_bytes two_bytes one_byte b64_value
last_group p q r s =
    if s == pad
    then (if r == pad
        then one_byte (b64_value p) (b64_value q)
        else two_bytes (b64_value p) (b64_value q) (b64_value r))
    else three_bytes (b64_value p) (b64_value q) (b64_value r) (b64_value s)

unfoldable pub b64decode : Text → Result Bytes
unfolding three_bytes last_group b64_value
b64decode [] = ok []
b64decode (p ∷ q ∷ r ∷ s ∷ []) = last_group p q r s
b64decode (p ∷ q ∷ r ∷ s ∷ t ∷ rest) = do
  bs ← three_bytes (b64_value p) (b64_value q) (b64_value r) (b64_value s)
  more ← b64decode (t ∷ rest)
  ok (bs ++ more)
b64decode _ = raise value_error
