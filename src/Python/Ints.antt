-- ===== src/Python/Ints.antt =====
-- int(text, 16).
pub mod Hexadecimal
use priestly.Base.{
  ℕ, zero, suc, ◌+◌, ◌*◌, Bool, true, false, not, ◌&&◌, ◌||◌, Option, none, some, List, [], ◌∷◌,
  ltb, ◌==◌, if◌then◌else◌,
}
use mathlib.Core.Option as Option
use priestly.Base.Int.{ℤ, pos, negsuc}
use priestly.Python.Text.{Text, is_ascii, digit_value, is_space}

abbrev pub all_space : Text → Bool
all_space [] = true
all_space (c ∷ t) = is_space c && all_space t

unfoldable pub skip_space : Text → Text
skip_space [] = []
skip_space (c ∷ t) = elim (is_space c) [ true ↦ skip_space t | false ↦ c ∷ t ]

-- `0x`, with an underscore after it.
abbrev after_prefix : Text → Text
after_prefix [] = []
after_prefix (c ∷ t) = if c == 95 then t else c ∷ t

unfoldable pub skip_prefix : Text → Text
skip_prefix [] = []
skip_prefix (c ∷ []) = c ∷ []
skip_prefix (c ∷ d ∷ t) =
    if (c == 48) && ((d == 120) || (d == 88)) then after_prefix t else c ∷ d ∷ t

-- Digits, with single underscores between them, and whitespace at the end: `ready` says that the
-- character before was a digit.
unfoldable pub read_digits : Bool → ℕ → Text → Option ℕ
read_digits ready acc [] = if ready then some acc else none
read_digits ready acc (c ∷ t) = elim (ltb (digit_value c) 16) [
  | true ↦ read_digits true (acc * 16 + digit_value c) t
  | false ↦ elim ready [
    | false ↦ none
    | true ↦ elim (c == 95) [
      | true ↦ read_digits false acc t
      | false ↦ if all_space (c ∷ t) then some acc else none
    ]
  ]
]

abbrev pub negative : ℕ → ℤ
negative zero = pos zero
negative (suc n) = negsuc n

unfoldable pub signed : Text → Option ℤ
unfolding skip_prefix read_digits
signed [] = none
signed (c ∷ t) =
    if c == 45
    then Option.map negative (read_digits false 0 (skip_prefix t))
    else (if c == 43
        then Option.map pos (read_digits false 0 (skip_prefix t))
        else Option.map pos (read_digits false 0 (skip_prefix (c ∷ t))))

-- What is first made of a text that is not ASCII is a table of Unicode, and a parameter: decimal
-- digits and spaces go to those of ASCII.
unfoldable pub int16 : (Text → Text) → Text → Option ℤ
unfolding skip_space signed
int16 to_ascii t = signed (skip_space (if is_ascii t then t else to_ascii t))
