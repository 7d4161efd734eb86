-- ===== src/Crypto/Huffman.antt =====
-- crypto/huffman.py: the tree, its codes, `compress` and `decompress`.
pub mod Codes
pub mod Packing
pub mod Heap
pub mod Freq
pub mod Table
pub mod Decoding
pub mod RoundTrip
use priestly.Base.{
  ℕ, zero, suc, ◌+◌, ◌-◌, ◌*◌, ◌/◌, ◌%◌, ◌^◌, min, Bool, true, false, Option, none, some, List, [],
  ◌∷◌, ◌++◌, map, foldl, foldr, ltb, leb, ◌==◌, if◌then◌else◌, length, take, drop, replicate,
  Result, ok, raise, ◌>>=◌, index_error, key_error, attribute_error, Bytes, to_bytes, from_bytes,
}
use priestly.Base.Dict.{Dict, lookup, insert}

abbrev pub len_bytes : ℕ
len_bytes = 4

abbrev pub count_bytes : ℕ
count_bytes = 2

abbrev pub freq_bytes : ℕ
freq_bytes = 4

-- `_Node`: a leaf is a node whose symbol is set.
pub data Node : Type 0 where
  leaf : ℕ → Node
  node : Node → Node → Node

-- A heap entry `(frequency, min_symbol, node)`.
pub record Entry : Type 0 where
  pub freq : ℕ
  pub symbol : ℕ
  pub tree : Node

-- `a < b` or `a == b` on the first two parts of two entries, in the order of tuples.
abbrev pub before : Entry → Entry → Bool
before a b =
    if ltb a.freq b.freq then true else (if a.freq == b.freq then leb a.symbol b.symbol else false)

-- The heap is kept in order, so `heappop` takes its head. `heapq` orders it otherwise inside, and
-- pops the same entries, since no two have the same first two parts.
unfoldable pub heappush : Entry → List Entry → List Entry
heappush e [] = e ∷ []
heappush e (x ∷ h) = if before e x then e ∷ x ∷ h else x ∷ heappush e h

unfoldable pub heapify : List Entry → List Entry
heapify = foldr heappush []

unfoldable pub merge : Entry → Entry → Entry
merge a b = record {
  freq = a.freq + b.freq;
  symbol = min a.symbol b.symbol;
  tree = node a.tree b.tree;
}

-- `while len(heap) > 1`, with the rounds bounded by the first argument.
unfoldable pub merge_loop : ℕ → List Entry → List Entry
unfolding merge heappush
merge_loop zero h = h
merge_loop (suc n) [] = []
merge_loop (suc n) (a ∷ []) = a ∷ []
merge_loop (suc n) (a ∷ b ∷ h) = merge_loop n (heappush (merge a b) h)

-- `heap[0][2]`
unfoldable pub root_of : List Entry → Result Node
root_of [] = raise index_error
root_of (e ∷ h) = ok e.tree

abbrev pub leaf_entry : ℕ × ℕ → Entry
leaf_entry (s, f) = record { freq = f; symbol = s; tree = leaf s }

-- Each round of the loop shortens the heap by one, so its length bounds the rounds.
unfoldable pub build_tree : Dict ℕ → Result Node
unfolding heapify merge_loop root_of
build_tree freq =
    let heap = heapify (map leaf_entry freq) in root_of (merge_loop (length heap) heap)

-- A string of the characters 0 and 1.
abbrev pub Bits : Type 0
Bits = List Bool

-- `prefix or "0"`
abbrev pub or_zero : Bits → Bits
or_zero [] = false ∷ []
or_zero (b ∷ bs) = b ∷ bs

unfoldable pub build_codes : Node → Bits → Dict Bits → Dict Bits
unfolding insert
build_codes (leaf s) prefix out = insert s (or_zero prefix) out
build_codes (node l r) prefix out =
    build_codes r (prefix ++ (true ∷ [])) (build_codes l (prefix ++ (false ∷ [])) out)

-- `int(bits, 2)`
abbrev pub bit_value : Bool → ℕ
bit_value true = 1
bit_value false = 0

unfoldable pub int_of_bits : Bits → ℕ
int_of_bits = foldl (λ acc b. acc * 2 + bit_value b) 0

-- The slices `padded[i:i + 8]`, each read as a number.
unfoldable pub chunks : Bits → Bytes
unfolding int_of_bits
chunks [] = []
chunks (a ∷ b ∷ c ∷ d ∷ e ∷ f ∷ g ∷ h ∷ rest) =
    int_of_bits (a ∷ b ∷ c ∷ d ∷ e ∷ f ∷ g ∷ h ∷ []) ∷ chunks rest
chunks short = int_of_bits short ∷ []

-- `-len(bitstring) % 8` zeros, and the packed bytes.
unfoldable pub padding : Bits → Bits
padding bits = replicate ((8 - length bits % 8) % 8) false

unfoldable pub pack_bits : Bits → Bytes
unfolding chunks padding
pack_bits bits = chunks (bits ++ padding bits)

-- `Counter(data)`: one more for the symbol, which starts at 0.
abbrev pub count_of : Option ℕ → ℕ
count_of none = 0
count_of (some n) = n

unfoldable pub tally : ℕ → Dict ℕ → Dict ℕ
unfolding lookup insert
tally b freq = insert b (count_of (lookup b freq) + 1) freq

unfoldable pub counter : Bytes → Dict ℕ → Dict ℕ
unfolding tally
counter [] freq = freq
counter (b ∷ data') freq = counter data' (tally b freq)

-- `sorted` of the keys
unfoldable pub insort : ℕ → List ℕ → List ℕ
insort x [] = x ∷ []
insort x (y ∷ l) = if leb x y then x ∷ y ∷ l else y ∷ insort x l

unfoldable pub sorted : List ℕ → List ℕ
unfolding insort
sorted = foldr insort []

abbrev pub keys {ℓ} : {V : Type ℓ} → Dict V → List ℕ
keys = map (λ kv. kv.0)

-- The symbol and frequency table, in the order of the symbols.
unfoldable pub freq_table : Dict ℕ → List ℕ → Result Bytes
unfolding lookup
freq_table freq [] = ok []
freq_table freq (s ∷ rest) = do
  f ← to_bytes freq_bytes (count_of (lookup s freq))
  more ← freq_table freq rest
  ok (s ∷ (f ++ more))

-- `"".join(codes[b] for b in data)`
unfoldable pub encode : Dict Bits → Bytes → Result Bits
unfolding lookup
encode codes [] = ok []
encode codes (b ∷ data') = elim (lookup b codes) [
  | none ↦ raise key_error
  | some c ↦ do more ← encode codes data'; ok (c ++ more)
]

unfoldable pub compress : Bytes → Result Bytes
unfolding counter sorted freq_table build_tree build_codes encode pack_bits
compress [] = do head ← to_bytes len_bytes 0; n ← to_bytes count_bytes 0; ok (head ++ n)
compress (b ∷ rest) = do
  let payload = b ∷ rest
  head ← to_bytes len_bytes (length payload)
  let freq = counter payload []
  n ← to_bytes count_bytes (length freq)
  table ← freq_table freq (sorted (keys freq))
  root ← build_tree freq
  bits ← encode (build_codes root [] []) payload
  ok (head ++ (n ++ (table ++ pack_bits bits)))

-- The loop that reads `count` symbols with their frequencies, and what follows them.
unfoldable pub read_freqs : ℕ → Bytes → Dict ℕ → Result (Dict ℕ × Bytes)
unfolding insert
read_freqs zero blob freq = ok (freq, blob)
read_freqs (suc n) [] freq = raise index_error
read_freqs (suc n) (s ∷ blob) freq =
    read_freqs n (drop freq_bytes blob) (insert s (from_bytes (take freq_bytes blob)) freq)

-- `(byte >> bit) & 1` for the bits 7 down to 0.
abbrev pub bit_at : ℕ → ℕ → Bool
bit_at byte k = byte / 2 ^ k % 2 == 1

unfoldable pub bits_of : ℕ → Bits
bits_of byte =
    bit_at byte 7
    ∷ bit_at byte 6
    ∷ bit_at byte 5
    ∷ bit_at byte 4
    ∷ bit_at byte 3
    ∷ bit_at byte 2
    ∷ bit_at byte 1
    ∷ bit_at byte 0
    ∷ []

-- The bits that the two loops over the payload visit, in order.
unfoldable pub bit_stream : Bytes → Bits
unfolding bits_of
bit_stream [] = []
bit_stream (byte ∷ payload) = bits_of byte ++ bit_stream payload

-- One round for each bit. A leaf has no children to go down to.
unfoldable pub walk : Node → ℕ → Bits → Node → Bytes → Result Bytes
walk root n [] cur result = ok result
walk root n (bit ∷ bits) (leaf s) result = raise attribute_error
walk root n (bit ∷ bits) (node l r) result = elim (if bit then r else l) [
  | leaf s ↦
      let out = result ++ (s ∷ []) in
      let rest = walk root n bits root out in if length out == n then ok out else rest
  | node l' r' ↦ walk root n bits (node l' r') result
]

unfoldable pub decode : Node → ℕ → Bytes → Result Bytes
unfolding walk bit_stream
decode (leaf s) n payload = ok (replicate n s)
decode (node l r) n payload = walk (node l r) n (bit_stream payload) (node l r) []

unfoldable pub decompress : Bytes → Result Bytes
unfolding read_freqs build_tree decode
decompress blob =
    let n = from_bytes (take len_bytes blob) in
    let count = from_bytes (take count_bytes (drop len_bytes blob)) in
    let rest = drop count_bytes (drop len_bytes blob) in
    if n == 0 then ok [] else (do
      (freq, payload) ← read_freqs count rest []
      root ← build_tree freq
      decode root n payload)
