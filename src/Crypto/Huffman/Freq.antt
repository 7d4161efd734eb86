-- ===== src/Crypto/Huffman/Freq.antt =====
-- The symbol counts: every symbol of the data is counted, no count passes the data's length, and
-- the decoder reads the table back.
use priestly.Base.{
  ℕ, suc, ◌+◌, ◌≤◌, ◌≡◌, refl, ap, ◌∙◌, inl, inr, some, [], ◌∷◌, arith, ◌==◌, ==_refl, Bool-cases,
  length, All, Bytes, IsByte, IsBytes,
}
use priestly.Base.Dict.{Dict, lookup, insert, Distinct, lookup-insert, insert-Distinct}
use priestly.Crypto.Huffman.{count_of, tally, counter, keys}
use priestly.Crypto.Huffman.Heap.{table_of}

-- What holds of the counts after `n` bytes.
pub record IsTally (n : ℕ) (freq : Dict ℕ) : Type 0 where
  pub distinct : Distinct freq
  pub bounded : (k : ℕ) → count_of (lookup k freq) ≤ n
  pub byte_keys : All IsByte (keys freq)

insert-IsByte-keys :
    (k v : ℕ) (freq : Dict ℕ)
    → IsByte k
    → All IsByte (keys freq)
    → All IsByte (keys (insert k v freq))
unfolding insert
insert-IsByte-keys k v [] hk h = (hk, tt)
insert-IsByte-keys k v ((i, w) ∷ m) hk h = elim (Bool-cases (i == k)) [
  | inl e ↦ rw e (hk, h.1)
  | inr e ↦ rw e (h.0, insert-IsByte-keys k v m hk h.1)
]

tally-IsTally :
    (b n : ℕ) (freq : Dict ℕ) → IsByte b → IsTally n freq → IsTally (suc n) (tally b freq)
unfolding tally
tally-IsTally b n freq hb t = record {
  distinct = insert-Distinct b (count_of (lookup b freq) + 1) freq t.distinct;
  bounded = λ k.
      ground
        (arith, lookup-insert b k (count_of (lookup b freq) + 1) freq, t.bounded k, t.bounded b);
  byte_keys = insert-IsByte-keys b (count_of (lookup b freq) + 1) freq hb t.byte_keys;
}

pub counter-IsTally :
    (n m : ℕ) (bs : Bytes) (freq : Dict ℕ)
    → n + length bs ≡ m
    → IsBytes bs
    → IsTally n freq
    → IsTally m (counter bs freq)
unfolding counter
counter-IsTally n m [] freq e h t = record {
  distinct = t.distinct;
  bounded = λ k. omega (arith, t.bounded k);
  byte_keys = t.byte_keys;
}
counter-IsTally n m (b ∷ bs) freq e h t =
    counter-IsTally (suc n) m bs (tally b freq) (omega arith) h.1 (tally-IsTally b n freq h.0 t)

abbrev pub HasKey : ℕ → Dict ℕ → Type 0
HasKey k freq = (f : ℕ) × (lookup k freq ≡ some f)

tally-HasKey : (k b : ℕ) (freq : Dict ℕ) → HasKey k freq → HasKey k (tally b freq)
unfolding tally
tally-HasKey k b freq (f, e) = elim (Bool-cases (b == k)) [
  | inl t ↦ (count_of (lookup b freq) + 1, lookup-insert b k _ freq ∙ rw t)
  | inr t ↦ (f, lookup-insert b k _ freq ∙ rw t e)
]

tally-HasKey_self : (b : ℕ) (freq : Dict ℕ) → HasKey b (tally b freq)
unfolding tally
tally-HasKey_self b freq = (count_of (lookup b freq) + 1, lookup-insert b b _ freq ∙ rw (==_refl b))

counter-HasKey : (k : ℕ) (bs : Bytes) (freq : Dict ℕ) → HasKey k freq → HasKey k (counter bs freq)
unfolding counter
counter-HasKey k [] freq h = h
counter-HasKey k (b ∷ bs) freq h = counter-HasKey k bs (tally b freq) (tally-HasKey k b freq h)

-- Every byte of the data is a key.
pub counter-All : (bs : Bytes) (freq : Dict ℕ) → All (λ b. HasKey b (counter bs freq)) bs
unfolding counter
counter-All [] freq = tt
counter-All (b ∷ bs) freq =
    (counter-HasKey b bs (tally b freq) (tally-HasKey_self b freq), counter-All bs (tally b freq))

-- A dict with distinct keys is the table of its keys.
lookup_table :
    (g : ℕ → ℕ) (freq : Dict ℕ)
    → ((k f : ℕ) → lookup k freq ≡ some f → g k ≡ f)
    → Distinct freq
    → table_of g (keys freq) ≡ freq
unfolding lookup
lookup_table g [] h d = refl
lookup_table g ((k, v) ∷ m) h d = λ i.
    (k, h k v (rw (==_refl k)) i) ∷ lookup_table g m (λ j f e. h j f (ground (arith, d.0))) d.1 i

pub table_of-keys :
    (freq : Dict ℕ) → Distinct freq → table_of (λ k. count_of (lookup k freq)) (keys freq) ≡ freq
table_of-keys freq d = lookup_table (λ k. count_of (lookup k freq)) freq (λ k f e. ap count_of e) d
