-- ===== src/Crypto/Sha1.antt =====
-- crypto/sha1.py: SHA-1 (RFC 3174) by hand, and the validity tag.
pub mod Padding
pub mod Digest
use priestly.Base.{
  ◌≡◌, refl, ℕ, zero, suc, ◌+◌, ◌-◌, ◌*◌, ◌/◌, ◌%◌, ◌^◌, bit_and, bit_or, bit_xor, Bool, List, [],
  ◌∷◌, ◌++◌, ltb, ◌==◌, if◌then◌else◌, length, take, drop, get_or, Result, Bytes, be_bytes,
  from_bytes,
}
use priestly.Python.Text.{Text, hex, compare_digest}

abbrev pub mask32 : ℕ
mask32 = 0xFFFFFFFF

abbrev pub mask64 : ℕ
mask64 = 0xFFFFFFFFFFFFFFFF

-- The five words `h0` to `h4`, or `a` to `e`.
pub record Words : Type 0 where
  pub a : ℕ
  pub b : ℕ
  pub c : ℕ
  pub d : ℕ
  pub e : ℕ

-- `_H0` to `_H4`
abbrev pub initial : Words
initial = record { a = 0x67452301; b = 0xEFCDAB89; c = 0x98BADCFE; d = 0x10325476; e = 0xC3D2E1F0 }

unfoldable pub rotl : ℕ → ℕ → ℕ
rotl value amount = bit_and (bit_or (value * 2 ^ amount) (value / 2 ^ (32 - amount))) mask32

-- `while len(message) % 64 != 56: message.append(0x00)`, with the rounds bounded.
unfoldable pub pad_zeros : ℕ → Bytes → Bytes
pad_zeros zero message = message
pad_zeros (suc n) message =
    let more = pad_zeros n (message ++ (0x00 ∷ [])) in
    if length message % 64 == 56 then message else more

-- The message with its padding. 64 rounds are enough, and `bit_len` fits its eight bytes.
unfoldable pub padded : Bytes → Bytes
unfolding pad_zeros be_bytes
padded bs =
    let bit_len = bit_and (length bs * 8) mask64 in
    pad_zeros 64 (bs ++ (0x80 ∷ [])) ++ be_bytes 8 bit_len

-- `w[i] = int.from_bytes(block[i * 4:i * 4 + 4], "big")` for the first `n` words.
unfoldable pub load_words : ℕ → Bytes → List ℕ
unfolding from_bytes
load_words zero block = []
load_words (suc n) block = from_bytes (take 4 block) ∷ load_words n (drop 4 block)

-- `w[i]` for `n` further words from index `i` on.
unfoldable pub extend_words : ℕ → ℕ → List ℕ → List ℕ
unfolding rotl
extend_words zero i w = w
extend_words (suc n) i w =
    let x =
      bit_xor (bit_xor (bit_xor (get_or w (i - 3) 0) (get_or w (i - 8) 0)) (get_or w (i - 14) 0))
        (get_or w (i - 16) 0) in
    extend_words n (i + 1) (w ++ (rotl x 1 ∷ []))

-- `~b & _MASK32`
abbrev pub bit_not : ℕ → ℕ
bit_not b = bit_xor (bit_and b mask32) mask32

-- The round function and the constant of round `i`.
abbrev pub round_f : ℕ → ℕ → ℕ → ℕ → ℕ
round_f i b c d =
    if ltb i 20
    then bit_or (bit_and b c) (bit_and (bit_not b) d)
    else (if ltb i 40
        then bit_xor (bit_xor b c) d
        else (if ltb i 60
            then bit_or (bit_or (bit_and b c) (bit_and b d)) (bit_and c d)
            else bit_xor (bit_xor b c) d))

abbrev pub round_k : ℕ → ℕ
round_k i =
    if ltb i 20
    then 0x5A827999
    else (if ltb i 40 then 0x6ED9EBA1 else (if ltb i 60 then 0x8F1BBCDC else 0xCA62C1D6))

unfoldable pub round : ℕ → List ℕ → Words → Words
unfolding rotl
round i w s =
    let temp =
      bit_and (rotl s.a 5 + round_f i s.b s.c s.d + s.e + round_k i + get_or w i 0) mask32 in
    record { a = temp; b = s.a; c = rotl s.b 30; d = s.c; e = s.d }

-- `for i in range(80)`: `n` rounds from round `i` on.
unfoldable pub rounds : ℕ → ℕ → List ℕ → Words → Words
unfolding round
rounds zero i w s = s
rounds (suc n) i w s = rounds n (i + 1) w (round i w s)

abbrev pub add32 : ℕ → ℕ → ℕ
add32 x y = bit_and (x + y) mask32

unfoldable pub block_step : Words → Bytes → Words
unfolding load_words extend_words rounds
block_step h block =
    let w = extend_words 64 16 (load_words 16 block) in
    let s = rounds 80 0 w h in
    record {
      a = add32 h.a s.a;
      b = add32 h.b s.b;
      c = add32 h.c s.c;
      d = add32 h.d s.d;
      e = add32 h.e s.e;
    }

-- `for offset in range(0, len(message), 64)`: `n` blocks of the rest of the message.
unfoldable pub blocks : ℕ → Bytes → Words → Words
unfolding block_step
blocks zero message h = h
blocks (suc n) message h = blocks n (drop 64 message) (block_step h (take 64 message))

unfoldable pub digest_words : Bytes → Words
unfolding padded blocks
digest_words bs = let message = padded bs in blocks ((length message + 63) / 64) message initial

-- `h.to_bytes(4, "big")` of the five words, joined: they fit, since each is masked.
unfoldable pub sha1 : Bytes → Bytes
unfolding digest_words be_bytes
sha1 bs =
    let h = digest_words bs in
    be_bytes 4 h.a ++ (be_bytes 4 h.b ++ (be_bytes 4 h.c ++ (be_bytes 4 h.d ++ be_bytes 4 h.e)))

unfoldable pub hexdigest : Bytes → Text
unfolding sha1 hex
hexdigest bs = hex (sha1 bs)

unfoldable pub tag : Bytes → Text
unfolding hexdigest
tag bs = hexdigest bs

unfoldable pub verify : Bytes → Text → Result Bool
unfolding tag compare_digest
verify bs expected_tag = compare_digest (tag bs) expected_tag
