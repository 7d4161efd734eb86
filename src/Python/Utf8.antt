-- ===== src/Python/Utf8.antt =====
-- The codec "utf-8" of str.encode and bytes.decode, both strict: surrogates, overlong forms and
-- code points past 0x10ffff are refused with an error of the class ValueError.
pub mod Codec
use priestly.Base.{
  ℕ, zero, suc, ◌+◌, ◌-◌, ◌*◌, ◌/◌, ◌%◌, Bool, ◌&&◌, ◌||◌, not, List, [], ◌∷◌, ◌++◌, ltb, leb,
  if◌then◌else◌, Result, ok, raise, guard, ◌>>=◌, ◌>>◌, value_error, Bytes,
}
use priestly.Python.Text.{Text}

-- The code points that are no surrogates.
abbrev pub is_scalar : ℕ → Bool
is_scalar c = ltb c 1114112 && (ltb c 55296 || leb 57344 c)

unfoldable pub encode_char : ℕ → Bytes
encode_char c =
    if ltb c 128
    then c ∷ []
    else (if ltb c 2048
        then (192 + c / 64) ∷ (128 + c % 64) ∷ []
        else (if ltb c 65536
            then (224 + c / 4096) ∷ (128 + c / 64 % 64) ∷ (128 + c % 64) ∷ []
            else (240 + c / 262144)
              ∷ (128 + c / 4096 % 64)
              ∷ (128 + c / 64 % 64)
              ∷ (128 + c % 64)
              ∷ []))

unfoldable pub encode : Text → Result Bytes
encode [] = ok []
encode (c ∷ cs) = do guard (is_scalar c) value_error; rest ← encode cs; ok (encode_char c ++ rest)

-- Between two characters, or inside of one: the bytes still to come, less one, the bits so far and
-- the least code point that may be written with so many bytes.
pub data Pending : Type 0 where
  ready : Pending
  inside : ℕ → ℕ → ℕ → Pending

-- The first byte of a character.
unfoldable pub lead : ℕ → Result (Text × Pending)
lead b =
    if ltb b 128
    then ok (b ∷ [], ready)
    else (if ltb b 192
        then raise value_error
        else (if ltb b 224
            then ok ([], inside 0 (b - 192) 128)
            else (if ltb b 240
                then ok ([], inside 1 (b - 224) 2048)
                else (if ltb b 248 then ok ([], inside 2 (b - 240) 65536) else raise value_error))))

-- The character, if it may be written so.
unfoldable pub complete : ℕ → ℕ → Result (Text × Pending)
complete c least = guard (leb least c && is_scalar c) value_error >> ok (c ∷ [], ready)

unfoldable pub follow : ℕ → ℕ → ℕ → ℕ → Result (Text × Pending)
follow k acc least b = guard (leb 128 b && ltb b 192) value_error >> elim k [
  | zero ↦ complete (acc * 64 + (b - 128)) least
  | suc j ↦ ok ([], inside j (acc * 64 + (b - 128)) least)
]

unfoldable pub next : Pending → ℕ → Result (Text × Pending)
next ready b = lead b
next (inside k acc least) b = follow k acc least b

unfoldable pub decode_from : Pending → Bytes → Result Text
decode_from ready [] = ok []
decode_from (inside k acc least) [] = raise value_error
decode_from p (b ∷ bs) = next p b >>= λ r. decode_from r.1 bs >>= λ cs. ok (r.0 ++ cs)

unfoldable pub decode : Bytes → Result Text
decode = decode_from ready
