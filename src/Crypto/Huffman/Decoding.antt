-- ===== src/Crypto/Huffman/Decoding.antt =====
-- Encoding and decoding under one tree, and cutting the blob into its parts.
use priestly.Base.{
  ℕ, ◌+◌, ◌^◌, ◌<◌, ◌≡◌, refl, sym, ap, ◌∙◌, false, some, [], ◌∷◌, ◌++◌, append_assoc, arith,
  length, length-append, take, drop, replicate, take-append, drop-append, All, ok, Bytes, be_bytes,
  from_bytes, length-be_bytes, from_bytes-be_bytes,
}
use priestly.Base.Dict.{Dict, lookup}
use priestly.Crypto.Huffman.{
  Node, leaf, node, Bits, build_tree, build_codes, encode, pack_bits, walk, decode, padding,
}
use priestly.Crypto.Huffman.Codes.{Leads, InTree, lookup-build_codes, walk-Leads}
use priestly.Crypto.Huffman.Packing.{bit_stream-pack_bits}
use priestly.Crypto.Huffman.Heap.{build_tree-InTree}
use priestly.Crypto.Huffman.Freq.{HasKey}

-- The code of a symbol leads to it.
abbrev HasCode : Node → Dict Bits → ℕ → Type 0
HasCode root codes b = (c : Bits) × Leads root c b × (lookup b codes ≡ some c)

-- The bits decode to the data, from the root and after any output, whatever follows them.
abbrev Decodes : Node → Bytes → Bits → Type 0
Decodes root d bits =
    (n : ℕ) (result : Bytes) (rest : Bits)
    → length result + length d ≡ n
    → walk root n (bits ++ rest) root result ≡ ok (result ++ d)

module _ (l r : Node) (codes : Dict Bits) where
  encode-Decodes :
      (b : ℕ) (d : Bytes)
      → All (HasCode (node l r) codes) (b ∷ d)
      → (bits : Bits) × (encode codes (b ∷ d) ≡ ok bits) × Decodes (node l r) (b ∷ d) bits
  unfolding encode
  encode-Decodes b [] ((c, leads, e), _) = (
    c ++ [],
    rw (e, encode),
    λ n result rest h. rw (append_assoc c [] rest) (
        walk-Leads (node l r) l r n b c rest result leads
        ∙ ground (arith, length-append result (b ∷ []))),
  )
  encode-Decodes b (x ∷ d) ((c, leads, e), more) =
      let (bits, eq, decodes) = encode-Decodes x d more in
      (
        c ++ bits,
        rw (e, encode, eq),
        λ n result rest h. rw (append_assoc c bits rest) (
            walk-Leads (node l r) l r n b c (bits ++ rest) result leads
            ∙ ground (
              arith,
              length-append result (b ∷ []),
              decodes n (result ++ (b ∷ [])) rest,
              append_assoc result (b ∷ []) (x ∷ d),
            )),
      )

-- A tree of one leaf: every symbol has the code 0, and the decoder needs no bits.
encode_step :
    (codes : Dict Bits) (b : ℕ) (d : Bytes) {c bits : Bits}
    → lookup b codes ≡ some c
    → encode codes d ≡ ok bits
    → encode codes (b ∷ d) ≡ ok (c ++ bits)
unfolding encode
encode_step codes b d p q = rw (p, encode, q)

lookup-leaf : (s b : ℕ) → s ≡ b → lookup b (build_codes (leaf s) [] []) ≡ some (false ∷ [])
unfolding build_codes lookup
lookup-leaf s b same = ground arith

encode-leaf :
    (s : ℕ) (d : Bytes)
    → All (λ k. s ≡ k) d
    → (bits : Bits) × (encode (build_codes (leaf s) [] []) d ≡ ok bits)
encode-leaf s [] h = ([], unfold encode in refl)
encode-leaf s (b ∷ d) (same, h) =
    let (bits, e) = encode-leaf s d h in
    (false ∷ bits, encode_step (build_codes (leaf s) [] []) b d (lookup-leaf s b same) e)

replicate-eq : (s : ℕ) (d : Bytes) → All (λ k. s ≡ k) d → replicate (length d) s ≡ d
replicate-eq s [] h = refl
replicate-eq s (b ∷ d) (same, h) = λ i. same i ∷ replicate-eq s d h i

All-HasCode :
    (l r : Node) (d : Bytes)
    → All (λ k. InTree k (node l r)) d
    → All (HasCode (node l r) (build_codes (node l r) [] [])) d
All-HasCode l r [] h = tt
All-HasCode l r (b ∷ d) (here, h) = (lookup-build_codes b l r here, All-HasCode l r d h)

-- With a tree that holds every symbol, the data is encoded, and decoded from the packed bits.
pub decode-encode :
    (root : Node) (b : ℕ) (d : Bytes)
    → All (λ k. InTree k root) (b ∷ d)
    → (bits : Bits) × (encode (build_codes root [] []) (b ∷ d) ≡ ok bits)
      × (decode root (length (b ∷ d)) (pack_bits bits) ≡ ok (b ∷ d))
unfolding decode
decode-encode (leaf s) b d h =
    let (bits, e) = encode-leaf s (b ∷ d) h in (bits, e, ap ok (replicate-eq s (b ∷ d) h))
decode-encode (node l r) b d h =
    let (bits, e, decodes) =
      encode-Decodes l r (build_codes (node l r) [] []) b d (All-HasCode l r (b ∷ d) h) in
    (
      bits,
      e,
      rw (bit_stream-pack_bits bits) (decodes (length (b ∷ d)) [] (padding bits) (omega arith)),
    )

pub All-InTree :
    (freq : Dict ℕ) (root : Node) (d : Bytes)
    → build_tree freq ≡ ok root
    → All (λ k. HasKey k freq) d
    → All (λ k. InTree k root) d
All-InTree freq root [] e h = tt
All-InTree freq root (k ∷ d) e ((f, has), h) =
    let (root', e', holds) = build_tree-InTree k freq has in
    let same : root' ≡ root = cc (e, e') in (rw same at holds, All-InTree freq root d e h)

-- The header, the table and the payload are cut apart where they were joined.
pub read_blob :
    (n m : ℕ) (table payload : Bytes)
    → n < 2 ^ 32
    → m < 2 ^ 16
    → let blob = be_bytes 4 n ++ (be_bytes 2 m ++ (table ++ payload)) in
      (from_bytes (take 4 blob) ≡ n)
      × (from_bytes (take 2 (drop 4 blob)) ≡ m)
      × (drop 2 (drop 4 blob) ≡ table ++ payload)
read_blob n m table payload hn hm =
    let rest = be_bytes 2 m ++ (table ++ payload) in
    let four : 4 ≡ length (be_bytes 4 n) = sym (length-be_bytes 4 n) in
    let two : 2 ≡ length (be_bytes 2 m) = sym (length-be_bytes 2 m) in
    let tail : drop 4 (be_bytes 4 n ++ rest) ≡ rest = drop-append (be_bytes 4 n) rest 4 four in
    (
      ap from_bytes (take-append (be_bytes 4 n) rest 4 four) ∙ from_bytes-be_bytes 4 n hn,
      rw (tail, take-append (be_bytes 2 m) (table ++ payload) 2 two) (from_bytes-be_bytes 2 m hm),
      rw tail (drop-append (be_bytes 2 m) (table ++ payload) 2 two),
    )
