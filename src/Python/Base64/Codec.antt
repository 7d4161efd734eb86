-- ===== src/Python/Base64/Codec.antt =====
-- Decoding what `base64.b64encode` wrote, a group at a time.
use priestly.Base.{
  ℕ, ◌+◌, ◌*◌, ◌/◌, ◌%◌, ◌<◌, ◌≡◌, refl, sym, ap, ◌∙◌, false, [], ◌∷◌, ◌++◌, arith, ◌==◌, ok, ◌>>=◌,
  Bytes, IsBytes,
}
use priestly.Python.Text.{Text}
use priestly.Python.Base64.{
  pad, b64_char, b64_value, b64encode, three_bytes, two_bytes, one_byte, last_group, b64decode,
}

b64_value-b64_char : (n : ℕ) → n < 64 → b64_value (b64_char n) ≡ n
unfolding b64_value b64_char
b64_value-b64_char n h = ground arith

b64_char-ne-pad : (n : ℕ) → n < 64 → (b64_char n == pad) ≡ false
unfolding b64_char
b64_char-ne-pad n h = ground arith

three_bytes-ok :
    (a b c u v w x : ℕ)
    → a < 256
    → b < 256
    → c < 256
    → u ≡ a / 4
    → v ≡ a % 4 * 16 + b / 16
    → w ≡ b % 16 * 4 + c / 64
    → x ≡ c % 64
    → three_bytes u v w x ≡ ok (a ∷ b ∷ c ∷ [])
unfolding three_bytes
three_bytes-ok a b c u v w x ha hb hc eu ev ew ex = ground arith

two_bytes-ok :
    (a b u v w : ℕ)
    → a < 256
    → b < 256
    → u ≡ a / 4
    → v ≡ a % 4 * 16 + b / 16
    → w ≡ b % 16 * 4
    → two_bytes u v w ≡ ok (a ∷ b ∷ [])
unfolding two_bytes
two_bytes-ok a b u v w ha hb eu ev ew = ground arith

one_byte-ok : (a u v : ℕ) → a < 256 → u ≡ a / 4 → v ≡ a % 4 * 16 → one_byte u v ≡ ok (a ∷ [])
unfolding one_byte
one_byte-ok a u v ha eu ev = ground arith

module _ (a b c : ℕ) (ha : a < 256) (hb : b < 256) (hc : c < 256) where
  group_ok :
      three_bytes
        (b64_value (b64_char (a / 4)))
        (b64_value (b64_char (a % 4 * 16 + b / 16)))
        (b64_value (b64_char (b % 16 * 4 + c / 64)))
        (b64_value (b64_char (c % 64)))
      ≡ ok (a ∷ b ∷ c ∷ [])
  group_ok =
      three_bytes-ok a b c _ _ _ _ ha hb hc (b64_value-b64_char (a / 4) (omega arith))
        (b64_value-b64_char (a % 4 * 16 + b / 16) (omega arith))
        (b64_value-b64_char (b % 16 * 4 + c / 64) (omega arith))
        (b64_value-b64_char (c % 64) (omega arith))

last_one : (p q : ℕ) → last_group p q pad pad ≡ one_byte (b64_value p) (b64_value q)
unfolding last_group
last_one p q = refl

last_two :
    (p q r : ℕ)
    → (r == pad) ≡ false
    → last_group p q r pad ≡ two_bytes (b64_value p) (b64_value q) (b64_value r)
unfolding last_group
last_two p q r h = rw h

last_three :
    (p q r s : ℕ)
    → (s == pad) ≡ false
    → last_group p q r s ≡ three_bytes (b64_value p) (b64_value q) (b64_value r) (b64_value s)
unfolding last_group
last_three p q r s h = rw h

decode_last : (p q r s : ℕ) → b64decode (p ∷ q ∷ r ∷ s ∷ []) ≡ last_group p q r s
unfolding b64decode
decode_last p q r s = refl

decode_more :
    (p q r s t : ℕ) (rest : Text) {bs more : Bytes}
    → three_bytes (b64_value p) (b64_value q) (b64_value r) (b64_value s) ≡ ok bs
    → b64decode (t ∷ rest) ≡ ok more
    → b64decode (p ∷ q ∷ r ∷ s ∷ t ∷ rest) ≡ ok (bs ++ more)
decode_more p q r s t rest {bs} h k = decode_eq ∙ rw (h, k)
  where
    decode_eq : b64decode (p ∷ q ∷ r ∷ s ∷ t ∷ rest) ≡ (
        three_bytes (b64_value p) (b64_value q) (b64_value r) (b64_value s) >>= λ bs'.
        b64decode (t ∷ rest) >>= λ more'. ok (bs' ++ more'))
    decode_eq = unfold b64decode in refl

encode_cons : (d : ℕ) (rest : Bytes) → (t : ℕ) × (tail : Text) × (b64encode (d ∷ rest) ≡ t ∷ tail)
unfolding b64encode
encode_cons d [] = (_, _, refl)
encode_cons d (e ∷ []) = (_, _, refl)
encode_cons d (e ∷ f ∷ rest) = (_, _, refl)

encode_one :
    (a : ℕ) → b64encode (a ∷ []) ≡ b64_char (a / 4) ∷ b64_char (a % 4 * 16) ∷ pad ∷ pad ∷ []
unfolding b64encode
encode_one a = refl

encode_two :
    (a b : ℕ)
    → b64encode (a ∷ b ∷ [])
      ≡ b64_char (a / 4) ∷ b64_char (a % 4 * 16 + b / 16) ∷ b64_char (b % 16 * 4) ∷ pad ∷ []
unfolding b64encode
encode_two a b = refl

encode_three :
    (a b c : ℕ) (rest : Bytes)
    → b64encode (a ∷ b ∷ c ∷ rest)
      ≡ b64_char (a / 4)
        ∷ b64_char (a % 4 * 16 + b / 16)
        ∷ b64_char (b % 16 * 4 + c / 64)
        ∷ b64_char (c % 64)
        ∷ b64encode rest
unfolding b64encode
encode_three a b c rest = refl

encode_nil : b64encode [] ≡ []
unfolding b64encode
encode_nil = refl

-- What `b64encode` wrote is decoded to the same bytes.
pub b64decode-b64encode : (bs : Bytes) → IsBytes bs → b64decode (b64encode bs) ≡ ok bs
b64decode-b64encode [] h = unfold b64decode b64encode in refl
b64decode-b64encode (a ∷ []) (ha, _) =
    rw (encode_one a, decode_last, last_one)
      (one_byte-ok a _ _ ha (b64_value-b64_char (a / 4) (omega arith))
        (b64_value-b64_char (a % 4 * 16) (omega arith)))
b64decode-b64encode (a ∷ b ∷ []) (ha, (hb, _)) =
    rw (encode_two a b, decode_last, last_two _ _ _ (b64_char-ne-pad (b % 16 * 4) (omega arith)))
      (two_bytes-ok a b _ _ _ ha hb (b64_value-b64_char (a / 4) (omega arith))
        (b64_value-b64_char (a % 4 * 16 + b / 16) (omega arith))
        (b64_value-b64_char (b % 16 * 4) (omega arith)))
b64decode-b64encode (a ∷ b ∷ c ∷ []) (ha, (hb, (hc, _))) =
    rw
      (
        encode_three a b c [],
        encode_nil,
        decode_last,
        last_three _ _ _ _ (b64_char-ne-pad (c % 64) (omega arith)),
      )
      (group_ok a b c ha hb hc)
b64decode-b64encode (a ∷ b ∷ c ∷ d ∷ rest) (ha, (hb, (hc, hs))) =
    let (t, tail, e) = encode_cons d rest in
    rw (encode_three a b c (d ∷ rest), e)
      (decode_more _ _ _ _ t tail (group_ok a b c ha hb hc)
        (ap b64decode (sym e) ∙ b64decode-b64encode (d ∷ rest) hs))
