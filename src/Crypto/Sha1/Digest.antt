-- ===== src/Crypto/Sha1/Digest.antt =====
-- The digest has its twenty bytes and no conversion in it overflows; the tag test accepts the tag
-- alone.
use priestly.Base.{
  ℕ, zero, suc, ◌+◌, ◌/◌, ◌^◌, ◌<◌, ◌≡◌, refl, ◌↔◌, bit_and, [], ◌∷◌, ◌++◌, true, arith, length,
  length-append, drop, take, All-append, ok, ◌>>=◌, Bytes, IsByte, IsBytes, be_bytes, to_bytes,
  to_bytes-eq, length-be_bytes, be_bytes-IsBytes,
}
use priestly.Base.Bits.{bit_and_mask}
use priestly.Python.Text.{Text, hex, is_ascii-hex, compare_digest_iff}
use priestly.Crypto.Sha1.{
  Words, initial, mask32, padded, blocks, block_step, digest_words, sha1, tag, verify,
}

abbrev IsWord : ℕ → Type 0
IsWord n = n < 2 ^ 32

record AreWords (h : Words) : Type 0 where
  a : IsWord h.a
  b : IsWord h.b
  c : IsWord h.c
  d : IsWord h.d
  e : IsWord h.e

mask-IsWord : (n : ℕ) → IsWord (bit_and n mask32)
mask-IsWord n = omega (arith, bit_and_mask 32 n)

block_step-AreWords : (h : Words) (block : Bytes) → AreWords (block_step h block)
unfolding block_step
block_step-AreWords h block = record {
  a = mask-IsWord _;
  b = mask-IsWord _;
  c = mask-IsWord _;
  d = mask-IsWord _;
  e = mask-IsWord _;
}

blocks-AreWords : (n : ℕ) (message : Bytes) (h : Words) → AreWords h → AreWords (blocks n message h)
unfolding blocks
blocks-AreWords zero message h w = w
blocks-AreWords (suc n) message h w =
    blocks-AreWords n (drop 64 message) (block_step h (take 64 message))
      (block_step-AreWords h (take 64 message))

digest_words-AreWords : (bs : Bytes) → AreWords (digest_words bs)
unfolding digest_words
digest_words-AreWords bs =
    blocks-AreWords ((length (padded bs) + 63) / 64) (padded bs) initial (record {
      a = omega arith;
      b = omega arith;
      c = omega arith;
      d = omega arith;
      e = omega arith;
    })

-- The five conversions to four bytes at the end of sha1 raise no OverflowError, and what they
-- give, joined, is the digest.
pub join_words-ok :
    (bs : Bytes)
    → (do
      a ← to_bytes 4 (digest_words bs).a
      b ← to_bytes 4 (digest_words bs).b
      c ← to_bytes 4 (digest_words bs).c
      d ← to_bytes 4 (digest_words bs).d
      e ← to_bytes 4 (digest_words bs).e
      ok (a ++ (b ++ (c ++ (d ++ e)))))
      ≡ ok (sha1 bs)
unfolding sha1
join_words-ok bs =
    let w = digest_words-AreWords bs in
    rw (
      to_bytes-eq 4 (digest_words bs).a w.a,
      to_bytes-eq 4 (digest_words bs).b w.b,
      to_bytes-eq 4 (digest_words bs).c w.c,
      to_bytes-eq 4 (digest_words bs).d w.d,
      to_bytes-eq 4 (digest_words bs).e w.e,
    )

five_words : (a b c d e : ℕ) → Bytes
five_words a b c d e =
    be_bytes 4 a ++ (be_bytes 4 b ++ (be_bytes 4 c ++ (be_bytes 4 d ++ be_bytes 4 e)))

length-five_words : (a b c d e : ℕ) → length (five_words a b c d e) ≡ 20
unfolding five_words
length-five_words a b c d e = simp length-append (omega (arith, length-be_bytes))

IsBytes-five_words : (a b c d e : ℕ) → IsBytes (five_words a b c d e)
unfolding five_words
IsBytes-five_words a b c d e = All-append IsByte (be_bytes 4 a) _ (be_bytes-IsBytes 4 a) (
    All-append IsByte (be_bytes 4 b) _ (be_bytes-IsBytes 4 b) (
      All-append IsByte (be_bytes 4 c) _ (be_bytes-IsBytes 4 c)
        (All-append IsByte (be_bytes 4 d) _ (be_bytes-IsBytes 4 d) (be_bytes-IsBytes 4 e))))

pub length-sha1 : (bs : Bytes) → length (sha1 bs) ≡ 20
unfolding sha1 five_words
length-sha1 bs = let h = digest_words bs in length-five_words h.a h.b h.c h.d h.e

pub sha1-IsBytes : (bs : Bytes) → IsBytes (sha1 bs)
unfolding sha1 five_words
sha1-IsBytes bs = let h = digest_words bs in IsBytes-five_words h.a h.b h.c h.d h.e

-- The tag test is true of the tag of the data, and of no other text.
pub verify-tag_iff : (bs : Bytes) (t : Text) → (verify bs t ≡ ok true) ↔ (t ≡ tag bs)
unfolding verify
verify-tag_iff bs t =
    compare_digest_iff (hex (sha1 bs)) t (is_ascii-hex (sha1 bs) (sha1-IsBytes bs))

-- The digest of the three bytes of "abc" (RFC 3174).
sha1_abc : take 4 (sha1 (97 ∷ 98 ∷ 99 ∷ [])) ≡ 0xa9 ∷ 0x99 ∷ 0x3e ∷ 0x36 ∷ []
unfolding sha1
sha1_abc = refl
