-- ===== src/Python/Base64/Graphic.antt =====
-- The alphabet of `base64.b64encode`.
use priestly.Base.{All, ℕ, ◌+◌, ◌*◌, ◌/◌, ◌%◌, ◌<◌, [], ◌∷◌, arith, Bytes}
use priestly.Python.Base64.{pad, b64_char, b64encode}

-- A visible character of ASCII.
abbrev pub IsGraphic : ℕ → Type 0
IsGraphic c = (32 < c) × (c < 127)

b64_char-IsGraphic : (n : ℕ) → IsGraphic (b64_char n)
unfolding b64_char
b64_char-IsGraphic n = ground arith

pad-IsGraphic : IsGraphic pad
pad-IsGraphic = (omega arith, omega arith)

pub b64encode-IsGraphic : (bs : Bytes) → All IsGraphic (b64encode bs)
unfolding b64encode
b64encode-IsGraphic [] = tt
b64encode-IsGraphic (a ∷ []) = (
  b64_char-IsGraphic (a / 4),
  (b64_char-IsGraphic (a % 4 * 16), (pad-IsGraphic, (pad-IsGraphic, tt))),
)
b64encode-IsGraphic (a ∷ b ∷ []) = (
  b64_char-IsGraphic (a / 4),
  (
    b64_char-IsGraphic (a % 4 * 16 + b / 16),
    (b64_char-IsGraphic (b % 16 * 4), (pad-IsGraphic, tt)),
  ),
)
b64encode-IsGraphic (a ∷ b ∷ c ∷ rest) = (
  b64_char-IsGraphic (a / 4),
  (
    b64_char-IsGraphic (a % 4 * 16 + b / 16),
    (
      b64_char-IsGraphic (b % 16 * 4 + c / 64),
      (b64_char-IsGraphic (c % 64), b64encode-IsGraphic rest),
    ),
  ),
)
