-- ===== src/Tests/Primitives.antt =====
-- The theorems on crypto/ at concrete inputs.
use priestly.Base.{
  ◌+◌, ◌≤◌, ◌≡◌, refl, ◌↔◌, [], ◌∷◌, arith, length, ok, raise, value_error, ◌%◌, to_bytes, Bytes,
  IsBytes,
}
use priestly.Base.Int.{pos}
use priestly.Python.Text.{codes}
use priestly.Crypto.Huffman.{compress, decompress}
use priestly.Crypto.Huffman.RoundTrip.{decompress-compress}
use priestly.Crypto.Sha1.{padded}
use priestly.Crypto.Sha1.Padding.{padded_blocks, padded-injective}
use priestly.Crypto.Hkdf.{hkdf_expand}
use priestly.Crypto.Hkdf.Expand.{Fits, hkdf_expand-refused_iff}

-- "banana", whose three symbols have codes of different lengths.
abbrev banana : Bytes
banana = codes "banana"

decompress-compress_example :
    (blob : Bytes) × (compress banana ≡ ok blob) × (decompress blob ≡ ok banana) × IsBytes blob
decompress-compress_example = decompress-compress banana (omega arith) (omega arith)

-- The blob for "banana": 6, 3, the table, and nine bits of code.
compress_banana :
    compress banana
    ≡ ok (
        0 ∷ 0 ∷ 0 ∷ 6 ∷ 0 ∷ 3 ∷ 97 ∷ 0 ∷ 0 ∷ 0 ∷ 3 ∷ 98 ∷ 0 ∷ 0 ∷ 0 ∷ 1 ∷ 110 ∷ 0 ∷ 0 ∷ 0 ∷ 2 ∷ 155
        ∷ 0 ∷ [])
unfolding compress to_bytes
compress_banana = refl

padded_blocks_example :
    (length (padded banana) % 64 ≡ 0) × (length (padded banana) ≤ length banana + 72)
padded_blocks_example = padded_blocks banana

padded-injective_example : banana ≡ codes "banana"
padded-injective_example = padded-injective banana (codes "banana") (omega arith) (omega arith) refl

hkdf_expand-refused_iff_example :
    (hkdf_expand (1 ∷ []) banana (pos 8161) ≡ raise value_error) ↔ (¬ Fits (pos 8161))
hkdf_expand-refused_iff_example = hkdf_expand-refused_iff (1 ∷ []) banana (pos 8161)
