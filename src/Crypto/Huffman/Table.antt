-- ===== src/Crypto/Huffman/Table.antt =====
-- The symbol table on the wire: its symbols ascend, so at most 256 are listed, and the decoder
-- reads back the dict that was written.
use priestly.Base.{
  ℕ, suc, ◌+◌, ◌^◌, ◌≤◌, ◌<◌, ◌≡◌, refl, sym, ap, ◌∙◌, inl, inr, ◌≢◌, none, List, [], ◌∷◌, ◌++◌,
  append_assoc, append-nil, arith, ◌==◌, leb, Bool-cases, length, take-append, drop-append, All, ok,
  Bytes, IsByte, IsBytes, to_bytes-eq, be_bytes, length-be_bytes, from_bytes-be_bytes,
  be_bytes-IsBytes, All-append,
}
use priestly.Base.Dict.{Dict, lookup, Distinct, insert_fresh}
use priestly.Crypto.Huffman.{count_of, insort, sorted, keys, freq_table, read_freqs}
use priestly.Crypto.Huffman.Heap.{table_of}

-- Strictly ascending, from `lo` on.
abbrev pub Ascending : ℕ → List ℕ → Type 0
Ascending lo [] = Unit
Ascending lo (x ∷ l) = (lo ≤ x) × Ascending (suc x) l

abbrev NotIn : ℕ → List ℕ → Type 0
NotIn k = All (λ x. x ≢ k)

insort-NotIn : (k x : ℕ) (l : List ℕ) → x ≢ k → NotIn k l → NotIn k (insort x l)
unfolding insort
insort-NotIn k x [] hx h = (hx, tt)
insort-NotIn k x (y ∷ l) hx h = elim (Bool-cases (leb x y)) [
  | inl e ↦ rw e (hx, h)
  | inr e ↦ rw e (h.0, insort-NotIn k x l hx h.1)
]

sorted-NotIn : (k : ℕ) (l : List ℕ) → NotIn k l → NotIn k (sorted l)
unfolding sorted
sorted-NotIn k [] h = tt
sorted-NotIn k (x ∷ l) h = insort-NotIn k x (sorted l) h.0 (sorted-NotIn k l h.1)

insort-Ascending :
    (lo x : ℕ) (l : List ℕ) → lo ≤ x → NotIn x l → Ascending lo l → Ascending lo (insort x l)
unfolding insort
insort-Ascending lo x [] hx fresh h = (hx, tt)
insort-Ascending lo x (y ∷ l) hx fresh h = elim (Bool-cases (leb x y)) [
  | inl e ↦ rw e (hx, (ground (arith, fresh.0), h.1))
  | inr e ↦ rw e (h.0, insort-Ascending (suc y) x l (ground arith) fresh.1 h.1)
]

keys-NotIn : (k : ℕ) (freq : Dict ℕ) → lookup k freq ≡ none → NotIn k (keys freq)
unfolding lookup
keys-NotIn k [] h = tt
keys-NotIn k ((j, v) ∷ m) h = elim (Bool-cases (j == k)) [
  | inl e ↦ ground arith
  | inr e ↦ (λ same. ground arith, keys-NotIn k m (rw e at h))
]

-- The keys of a dict, sorted, ascend strictly.
pub sorted-Ascending : (freq : Dict ℕ) → Distinct freq → Ascending 0 (sorted (keys freq))
unfolding sorted
sorted-Ascending [] d = tt
sorted-Ascending ((k, v) ∷ m) d =
    insort-Ascending 0 k (sorted (keys m)) (omega arith)
      (sorted-NotIn k (keys m) (keys-NotIn k m d.0)) (sorted-Ascending m d.1)

insort-All-IsByte : (x : ℕ) (l : List ℕ) → IsByte x → All IsByte l → All IsByte (insort x l)
unfolding insort
insort-All-IsByte x [] hx h = (hx, tt)
insort-All-IsByte x (y ∷ l) hx h = elim (Bool-cases (leb x y)) [
  | inl e ↦ rw e (hx, h)
  | inr e ↦ rw e (h.0, insort-All-IsByte x l hx h.1)
]

pub sorted-All-IsByte : (l : List ℕ) → All IsByte l → All IsByte (sorted l)
unfolding sorted
sorted-All-IsByte [] h = tt
sorted-All-IsByte (x ∷ l) h = insort-All-IsByte x (sorted l) h.0 (sorted-All-IsByte l h.1)

length-insort : (x : ℕ) (l : List ℕ) → length (insort x l) ≡ suc (length l)
unfolding insort
length-insort x [] = refl
length-insort x (y ∷ l) = ground (arith, length-insort x l)

pub length-sorted : (l : List ℕ) → length (sorted l) ≡ length l
unfolding sorted
length-sorted [] = refl
length-sorted (x ∷ l) = length-insort x (sorted l) ∙ ap suc (length-sorted l)

pub length-Ascending :
    (lo : ℕ) (l : List ℕ) → lo ≤ 256 → Ascending lo l → All IsByte l → lo + length l ≤ 256
length-Ascending lo [] h asc small = omega arith
length-Ascending lo (x ∷ l) h asc small =
    omega (arith, length-Ascending (suc x) l (omega arith) asc.1 small.1)

-- What `freq_table` writes.
abbrev pub table_bytes : (ℕ → ℕ) → List ℕ → Bytes
table_bytes g [] = []
table_bytes g (s ∷ l) = s ∷ (be_bytes 4 (g s) ++ table_bytes g l)

pub freq_table-eq :
    (freq : Dict ℕ) (l : List ℕ)
    → ((k : ℕ) → count_of (lookup k freq) < 2 ^ 32)
    → freq_table freq l ≡ ok (table_bytes (λ k. count_of (lookup k freq)) l)
unfolding freq_table
freq_table-eq freq [] h = refl
freq_table-eq freq (s ∷ l) h =
    rw (to_bytes-eq 4 (count_of (lookup s freq)) (h s), freq_table-eq freq l h)

lookup-append :
    (k j v : ℕ) (m : Dict ℕ) → lookup k m ≡ none → j < k → lookup k (m ++ ((j, v) ∷ [])) ≡ none
unfolding lookup
lookup-append k j v [] h lt = ground arith
lookup-append k j v ((i, w) ∷ m) h lt = ground (arith, lookup-append k j v m)

-- The decoder reads an ascending table back, after whatever it has read before.
read_freqs-table :
    (g : ℕ → ℕ) (lo : ℕ) (l : List ℕ) (rest : Bytes) (seen : Dict ℕ)
    → ((k : ℕ) → g k < 2 ^ 32)
    → Ascending lo l
    → ((k : ℕ) → lo ≤ k → lookup k seen ≡ none)
    → read_freqs (length l) (table_bytes g l ++ rest) seen ≡ ok (seen ++ table_of g l, rest)
unfolding read_freqs
read_freqs-table g lo [] rest seen small asc fresh =
    ap (λ (m : Dict ℕ). ok (m, rest)) (sym (append-nil seen))
read_freqs-table g lo (s ∷ l) rest seen small asc fresh =
    rw
      (
        append_assoc (be_bytes 4 (g s)) (table_bytes g l) rest,
        take-append (be_bytes 4 (g s)) (table_bytes g l ++ rest) 4 (sym (length-be_bytes 4 (g s))),
        drop-append (be_bytes 4 (g s)) (table_bytes g l ++ rest) 4 (sym (length-be_bytes 4 (g s))),
        from_bytes-be_bytes 4 (g s) (small s),
        insert_fresh s (g s) seen (fresh s asc.0),
      )
      (read_freqs-table g (suc s) l rest (seen ++ ((s, g s) ∷ [])) small asc.1
          (λ k lt. lookup-append k s (g s) seen (fresh k (omega arith)) lt)
        ∙ ap (λ (m : Dict ℕ). ok (m, rest)) (append_assoc seen ((s, g s) ∷ []) (table_of g l)))

-- The decoder reads an ascending table back, and leaves what follows it.
pub read_freqs-table_bytes :
    (g : ℕ → ℕ) (l : List ℕ) (rest : Bytes)
    → ((k : ℕ) → g k < 2 ^ 32)
    → Ascending 0 l
    → read_freqs (length l) (table_bytes g l ++ rest) [] ≡ ok (table_of g l, rest)
read_freqs-table_bytes g l rest small asc =
    read_freqs-table g 0 l rest [] small asc (λ k h. unfold lookup in refl)

pub table_bytes-IsBytes : (g : ℕ → ℕ) (l : List ℕ) → All IsByte l → IsBytes (table_bytes g l)
table_bytes-IsBytes g [] h = tt
table_bytes-IsBytes g (s ∷ l) h = (
  h.0,
  All-append IsByte (be_bytes 4 (g s)) (table_bytes g l) (be_bytes-IsBytes 4 (g s))
      (table_bytes-IsBytes g l h.1),
)
