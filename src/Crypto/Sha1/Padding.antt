-- ===== src/Crypto/Sha1/Padding.antt =====
-- The padding of SHA-1: whole blocks, and no two messages share a padded form.
use priestly.Base.{
  ℕ, zero, suc, ◌+◌, ◌-◌, ◌*◌, ◌%◌, ◌^◌, ◌≤◌, ◌<◌, ◌≡◌, refl, sym, ap, ◌∙◌, bit_and, inl, inr, [],
  ◌∷◌, ◌++◌, append_assoc, append-nil, arith, ◌==◌, Bool-cases, length, length-append,
  length-replicate, take, drop, take-append, drop-append, replicate, Bytes, be_bytes,
  length-be_bytes, from_bytes-be_bytes, from_bytes,
}
use priestly.Base.Bits.{bit_and_mask}
use priestly.Crypto.Sha1.{mask64, pad_zeros, padded}

-- The zeros that a message of length `n` gets.
abbrev zeros_for : ℕ → ℕ
zeros_for n = (120 - n % 64) % 64

abbrev zeros : ℕ → Bytes
zeros k = replicate k 0

length-zeros : (k : ℕ) → length (zeros k) ≡ k
length-zeros k = length-replicate {A = ℕ} k 0

pad_zeros-eq :
    (n : ℕ) (m : Bytes)
    → zeros_for (length m) < n
    → pad_zeros n m ≡ m ++ zeros (zeros_for (length m))
unfolding pad_zeros
pad_zeros-eq zero m h = absurd (omega arith)
pad_zeros-eq (suc n) m h = elim (Bool-cases (length m % 64 == 56)) [
  | inl e ↦ rw (e, none_left (zeros_for (length m)) (ground arith)) (sym (append-nil m))
  | inr e ↦ rw e (
      pad_zeros-eq n (m ++ (0 ∷ [])) (ground (arith, length-append m (0 ∷ [])))
      ∙ append_assoc m (0 ∷ []) _
      ∙ ap (λ (t : Bytes). m ++ t) (one_more _ _ (ground (arith, length-append m (0 ∷ [])))))
]
  where
    none_left : (k : ℕ) → k ≡ 0 → zeros k ≡ []
    none_left zero h = refl
    none_left (suc k) h = absurd (omega arith)

    one_more : (k l : ℕ) → l ≡ suc k → 0 ∷ zeros k ≡ zeros l
    one_more k l h = ap (λ (j : ℕ). zeros j) (sym h)

-- The bits of the message's length, as the padding writes them.
pub bit_len-lt : (n : ℕ) → bit_and (n * 8) mask64 < 256 ^ 8
bit_len-lt n = rw (bit_and_mask 64 (n * 8)) (omega arith)

abbrev body : Bytes → Bytes
body bs = bs ++ (0x80 ∷ zeros (zeros_for (length bs + 1)))

padded-eq : (bs : Bytes) → padded bs ≡ body bs ++ be_bytes 8 (bit_and (length bs * 8) mask64)
unfolding padded
padded-eq bs =
    ap (λ (t : Bytes). t ++ be_bytes 8 (bit_and (length bs * 8) mask64))
      (pad_zeros-eq 64 (bs ++ (0x80 ∷ [])) (omega arith)
        ∙ append_assoc bs (0x80 ∷ []) _
        ∙ ap (λ (n : ℕ). bs ++ (0x80 ∷ zeros (zeros_for n)))
            (length-append bs (0x80 ∷ []) ∙ omega arith))

length-body : (bs : Bytes) → length (body bs) ≡ length bs + (1 + zeros_for (length bs + 1))
length-body bs = omega (
  arith,
  length-append bs (0x80 ∷ zeros (zeros_for (length bs + 1))),
  length-zeros (zeros_for (length bs + 1)),
)

length-padded : (bs : Bytes) → length (padded bs) ≡ length bs + (9 + zeros_for (length bs + 1))
length-padded bs = rw (padded-eq bs) (
    omega (
      arith,
      length-append (body bs) (be_bytes 8 (bit_and (length bs * 8) mask64)),
      length-body bs,
      length-be_bytes 8 (bit_and (length bs * 8) mask64),
    ))

-- The padded message is whole blocks of 64 bytes and at most 72 bytes longer than the message, so
-- the padding loop has ended by its test.
pub padded_blocks :
    (bs : Bytes) → (length (padded bs) % 64 ≡ 0) × (length (padded bs) ≤ length bs + 72)
padded_blocks bs = omega (arith, length-padded bs)

tail_cut :
    (bs : Bytes)
    → drop (length (padded bs) - 8) (padded bs) ≡ be_bytes 8 (bit_and (length bs * 8) mask64)
tail_cut bs =
    let tail = be_bytes 8 (bit_and (length bs * 8) mask64) in
    ap (drop (length (padded bs) - 8)) (padded-eq bs)
    ∙ drop-append (body bs) tail (length (padded bs) - 8)
        (omega (arith, length-padded bs, length-body bs))

-- The length is read back from the last eight bytes.
length_read :
    (bs : Bytes)
    → length bs < 2 ^ 61
    → from_bytes (drop (length (padded bs) - 8) (padded bs)) ≡ length bs * 8
length_read bs h =
    ap from_bytes (tail_cut bs)
    ∙ from_bytes-be_bytes 8 (bit_and (length bs * 8) mask64) (bit_len-lt (length bs))
    ∙ bit_and_mask 64 (length bs * 8)
    ∙ omega arith

front_cut : (bs : Bytes) → take (length bs) (padded bs) ≡ bs
front_cut bs =
    let tail = be_bytes 8 (bit_and (length bs * 8) mask64) in
    let filling = 0x80 ∷ zeros (zeros_for (length bs + 1)) in
    ap (take (length bs)) (padded-eq bs ∙ append_assoc bs filling tail)
    ∙ take-append bs (filling ++ tail) (length bs) refl

-- Messages shorter than 2 ^ 61 bytes with the same SHA-1 padded form are the same message.
pub padded-injective :
    (bs cs : Bytes) → length bs < 2 ^ 61 → length cs < 2 ^ 61 → padded bs ≡ padded cs → bs ≡ cs
padded-injective bs cs hb hc e = sym (front_cut bs) ∙ rw (same_length, e) (front_cut cs)
  where
    same_length : length bs ≡ length cs
    same_length = omega (
      arith,
      sym (length_read bs hb)
          ∙ ap (λ (m : Bytes). from_bytes (drop (length m - 8) m)) e
          ∙ length_read cs hc,
    )
