-- ===== src/Crypto/Huffman/Packing.antt =====
-- Packing bits into bytes: the decoder's stream of bits is what was packed, and the padding.
use priestly.Base.{
  ℕ, ◌-◌, ◌/◌, ◌%◌, ◌^◌, ◌<◌, ◌≡◌, refl, ap, ◌∙◌, Bool, true, false, [], ◌∷◌, ◌++◌, arith, length,
  length-append, ◌==◌, length-replicate, replicate, IsBytes,
}
use priestly.Crypto.Huffman.{
  Bits, bit_value, int_of_bits, chunks, padding, pack_bits, bits_of, bit_stream,
}

is_set : (x : Bool) (n : ℕ) → n ≡ bit_value x → (n == 1) ≡ x
is_set true n h = ground arith
is_set false n h = ground arith

bit_value-lt : (x : Bool) → bit_value x < 2
bit_value-lt true = omega arith
bit_value-lt false = omega arith

abbrev HasBit : ℕ → ℕ → Bool → Type 0
HasBit n k x = n / 2 ^ k % 2 ≡ bit_value x

bits_of-eq :
    (n : ℕ) (a b c d e f g h : Bool)
    → HasBit n 7 a
    → HasBit n 6 b
    → HasBit n 5 c
    → HasBit n 4 d
    → HasBit n 3 e
    → HasBit n 2 f
    → HasBit n 1 g
    → HasBit n 0 h
    → bits_of n ≡ a ∷ b ∷ c ∷ d ∷ e ∷ f ∷ g ∷ h ∷ []
unfolding bits_of
bits_of-eq n a b c d e f g h pa pb pc pd pe pf pg ph = λ i.
    is_set a _ pa i
    ∷ is_set b _ pb i
    ∷ is_set c _ pc i
    ∷ is_set d _ pd i
    ∷ is_set e _ pe i
    ∷ is_set f _ pf i
    ∷ is_set g _ pg i
    ∷ is_set h _ ph i
    ∷ []

-- The eight bits of a byte are read back from its number.
bits_of-int_of_bits :
    (a b c d e f g h : Bool)
    → bits_of (int_of_bits (a ∷ b ∷ c ∷ d ∷ e ∷ f ∷ g ∷ h ∷ []))
      ≡ a ∷ b ∷ c ∷ d ∷ e ∷ f ∷ g ∷ h ∷ []
unfolding int_of_bits
bits_of-int_of_bits a b c d e f g h =
    bits_of-eq (int_of_bits (a ∷ b ∷ c ∷ d ∷ e ∷ f ∷ g ∷ h ∷ [])) a b c d e f g h
      (omega (arith, bit_value-lt)) (omega (arith, bit_value-lt)) (omega (arith, bit_value-lt))
      (omega (arith, bit_value-lt)) (omega (arith, bit_value-lt)) (omega (arith, bit_value-lt))
      (omega (arith, bit_value-lt)) (omega (arith, bit_value-lt))

bit_stream-chunks : (bits : Bits) → length bits % 8 ≡ 0 → bit_stream (chunks bits) ≡ bits
unfolding chunks
bit_stream-chunks [] h = unfold bit_stream in refl
bit_stream-chunks (a ∷ b ∷ c ∷ d ∷ e ∷ f ∷ g ∷ i ∷ rest) h =
    stream_step
    ∙ ap (λ (t : Bits). t ++ bit_stream (chunks rest)) (bits_of-int_of_bits a b c d e f g i)
    ∙ ap (λ (t : Bits). a ∷ b ∷ c ∷ d ∷ e ∷ f ∷ g ∷ i ∷ t) (bit_stream-chunks rest (omega arith))
  where
    stream_step :
        bit_stream (int_of_bits (a ∷ b ∷ c ∷ d ∷ e ∷ f ∷ g ∷ i ∷ []) ∷ chunks rest)
        ≡ bits_of (int_of_bits (a ∷ b ∷ c ∷ d ∷ e ∷ f ∷ g ∷ i ∷ [])) ++ bit_stream (chunks rest)
    stream_step = unfold bit_stream in refl
bit_stream-chunks _ h = absurd (omega arith)

length-padding : (bits : Bits) → length (bits ++ padding bits) % 8 ≡ 0
unfolding padding
length-padding bits = omega (
  arith,
  length-append bits (replicate ((8 - length bits % 8) % 8) false),
  length-replicate ((8 - length bits % 8) % 8) false,
)

pub bit_stream-pack_bits : (bits : Bits) → bit_stream (pack_bits bits) ≡ bits ++ padding bits
unfolding pack_bits
bit_stream-pack_bits bits = bit_stream-chunks (bits ++ padding bits) (length-padding bits)

chunks-IsBytes : (bits : Bits) → IsBytes (chunks bits)
unfolding chunks
chunks-IsBytes [] = tt
chunks-IsBytes (a ∷ b ∷ c ∷ d ∷ e ∷ f ∷ g ∷ h ∷ rest) =
    (omega (arith, bit_value-lt), chunks-IsBytes rest)
chunks-IsBytes _ = (omega (arith, bit_value-lt), tt)

pub pack_bits-IsBytes : (bits : Bits) → IsBytes (pack_bits bits)
unfolding pack_bits
pack_bits-IsBytes bits = chunks-IsBytes (bits ++ padding bits)
