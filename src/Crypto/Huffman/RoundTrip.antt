-- ===== src/Crypto/Huffman/RoundTrip.antt =====
-- `decompress` inverts `compress`, and `compress` accepts every byte string whose length fits its
-- header.
use priestly.Base.{
  ℕ, suc, ◌^◌, ◌<◌, ◌≡◌, refl, ap, ◌∙◌, false, [], ◌∷◌, ◌++◌, arith, ◌==◌, length, length-map,
  All-append, IsByte, be_bytes-IsBytes, ok, Bytes, IsBytes, to_bytes, to_bytes-eq, be_bytes,
  from_bytes,
}
use native.Mathlib.Nat.{le_trans}
use Prim.Native.Nat.{suc-le-suc}
use priestly.Base.Dict.{Dict, lookup}
use priestly.Crypto.Huffman.{
  Node, Bits, count_of, counter, sorted, keys, read_freqs, build_tree, pack_bits, decode, compress,
  decompress,
}
use priestly.Crypto.Huffman.Packing.{pack_bits-IsBytes}
use priestly.Crypto.Huffman.Heap.{table_of, build_tree-InTree, build_tree-sorted}
use priestly.Crypto.Huffman.Freq.{IsTally, counter-IsTally, counter-All, table_of-keys}
use priestly.Crypto.Huffman.Table.{
  sorted-Ascending, sorted-All-IsByte, length-sorted, length-Ascending, table_bytes, freq_table-eq,
  read_freqs-table_bytes, table_bytes-IsBytes,
}
use priestly.Crypto.Huffman.Decoding.{decode-encode, All-InTree, read_blob}

IsTally-empty : IsTally 0 []
IsTally-empty = record {
  distinct = tt;
  bounded = λ k. unfold lookup in omega arith;
  byte_keys = tt;
}

-- The pieces that `compress` joins for data that is not empty, and how each is read back.
record IsCompressed (b : ℕ) (d blob : Bytes) : Type 0 where
  freq : Dict ℕ
  root : Node
  bits : Bits
  tree : build_tree freq ≡ ok root
  count_fits : length freq < 2 ^ 16
  table_read :
      (rest : Bytes)
      → read_freqs
          (length freq)
          (table_bytes (λ k. count_of (lookup k freq)) (sorted (keys freq)) ++ rest)
          []
        ≡ ok (table_of (λ k. count_of (lookup k freq)) (sorted (keys freq)), rest)
  same_tree : build_tree (table_of (λ k. count_of (lookup k freq)) (sorted (keys freq))) ≡ ok root
  decoded : decode root (length (b ∷ d)) (pack_bits bits) ≡ ok (b ∷ d)
  blob_bytes : IsBytes blob
  written :
      blob
      ≡ be_bytes 4 (length (b ∷ d))
        ++ (be_bytes 2 (length freq)
            ++ (table_bytes (λ k. count_of (lookup k freq)) (sorted (keys freq)) ++ pack_bits bits))

compress-IsCompressed :
    (b : ℕ) (d : Bytes)
    → IsBytes (b ∷ d)
    → length (b ∷ d) < 2 ^ 32
    → (blob : Bytes) × (compress (b ∷ d) ≡ ok blob) × IsCompressed b d blob
unfolding compress
compress-IsCompressed b d bytes short =
    let n = length (b ∷ d) in
    let freq = counter (b ∷ d) [] in
    let g = λ (k : ℕ). count_of (lookup k freq) in
    let t : IsTally n freq = counter-IsTally 0 n (b ∷ d) [] (omega arith) bytes IsTally-empty in
    let asc = sorted-Ascending freq t.distinct in
    let small = λ (k : ℕ). le_trans (suc-le-suc (t.bounded k)) short in
    let count : length (sorted (keys freq)) ≡ length freq =
      length-sorted (keys freq) ∙ length-map (λ kv. kv.0) freq in
    let symbols = sorted-All-IsByte (keys freq) t.byte_keys in
    let few : length freq < 2 ^ 16 =
      omega (arith, count, length-Ascending 0 (sorted (keys freq)) (omega arith) asc symbols) in
    let has = counter-All (b ∷ d) [] in
    let (root, tree, _) = build_tree-InTree b freq has.0.1 in
    let (bits, encoded, decoded) = decode-encode root b d (All-InTree freq root (b ∷ d) tree has) in
    (
      be_bytes 4 n
          ++ (be_bytes 2 (length freq) ++ (table_bytes g (sorted (keys freq)) ++ pack_bits bits)),
      rw (
        to_bytes-eq 4 n short,
        to_bytes-eq 2 (length freq) few,
        freq_table-eq freq (sorted (keys freq)) small,
        tree,
        encoded,
      ),
      record {
        freq = freq;
        root = root;
        bits = bits;
        tree = tree;
        count_fits = few;
        table_read =
            λ rest. rw (← count) (read_freqs-table_bytes g (sorted (keys freq)) rest small asc);
        same_tree =
            build_tree-sorted g (keys freq) ∙ ap build_tree (table_of-keys freq t.distinct) ∙ tree;
        decoded = decoded;
        blob_bytes = All-append IsByte (be_bytes 4 n) _ (be_bytes-IsBytes 4 n) (
            All-append IsByte (be_bytes 2 (length freq)) _ (be_bytes-IsBytes 2 (length freq)) (
              All-append IsByte (table_bytes g (sorted (keys freq))) (pack_bits bits)
                (table_bytes-IsBytes g (sorted (keys freq)) symbols) (pack_bits-IsBytes bits)));
        written = refl;
      },
    )

suc-ne-zero : (n : ℕ) → (suc n == 0) ≡ false
suc-ne-zero n = ground arith

decompress-IsCompressed :
    (b : ℕ) (d blob : Bytes)
    → length (b ∷ d) < 2 ^ 32
    → IsCompressed b d blob
    → decompress blob ≡ ok (b ∷ d)
unfolding decompress
decompress-IsCompressed b d blob short c =
    let table = table_bytes (λ k. count_of (lookup k c.freq)) (sorted (keys c.freq)) in
    let (n_read, count_read, cut) =
      read_blob (length (b ∷ d)) (length c.freq) table (pack_bits c.bits) short c.count_fits in
    rw
      (
        c.written,
        n_read,
        count_read,
        cut,
        c.table_read (pack_bits c.bits),
        c.same_tree,
        suc-ne-zero (length d),
      )
      c.decoded

-- Every byte string shorter than 2 ^ 32 is compressed without an error, and decompressing the
-- result, which is a byte string again, gives it back.
pub decompress-compress :
    (bs : Bytes)
    → IsBytes bs
    → length bs < 2 ^ 32
    → (blob : Bytes) × (compress bs ≡ ok blob) × (decompress blob ≡ ok bs) × IsBytes blob
decompress-compress [] bytes short = (
  0 ∷ 0 ∷ 0 ∷ 0 ∷ 0 ∷ 0 ∷ [],
  unfold compress to_bytes in refl,
  unfold decompress from_bytes in refl,
  omega arith,
)
decompress-compress (b ∷ d) bytes short =
    let (blob, e, c) = compress-IsCompressed b d bytes short in
    (blob, e, decompress-IsCompressed b d blob short c, c.blob_bytes)
