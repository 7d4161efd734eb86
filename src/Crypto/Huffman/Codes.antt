-- ===== src/Crypto/Huffman/Codes.antt =====
-- The codes that `_build_codes` writes are the ways down the tree, and the decoder follows them.
use priestly.Base.{
  ℕ, ◌≡◌, refl, ap, ◌∙◌, ◌⊎◌, inl, inr, true, false, some, [], ◌∷◌, ◌++◌, append_assoc, append-nil,
  arith, ◌==◌, ==_iff, Bool-cases, if◌then◌else◌, length, ok, Bytes,
}
use priestly.Base.Dict.{Dict, lookup, lookup-insert}
use priestly.Crypto.Huffman.{Node, leaf, node, Bits, or_zero, build_codes, walk}

-- `bits` leads from the root of a tree to a leaf with the symbol.
pub data Leads : Node → Bits → ℕ → Type 0 where
  here : {s : ℕ} → Leads (leaf s) [] s
  left : {l r : Node} {bits : Bits} {s : ℕ} → Leads l bits s → Leads (node l r) (false ∷ bits) s
  right : {l r : Node} {bits : Bits} {s : ℕ} → Leads r bits s → Leads (node l r) (true ∷ bits) s

-- The symbol stands at a leaf.
abbrev pub InTree : ℕ → Node → Type 0
InTree k (leaf s) = s ≡ k
InTree k (node l r) = InTree k l ⊎ InTree k r

-- What the table holds for `k` after the codes of a tree have been written into `out`.
abbrev Written : ℕ → Node → Bits → Dict Bits → Type 0
Written k t prefix out =
    ((¬ InTree k t) × (lookup k (build_codes t prefix out) ≡ lookup k out))
    ⊎ ((bits : Bits) × Leads t bits k
        × (lookup k (build_codes t prefix out) ≡ some (or_zero (prefix ++ bits))))

Written-leaf : (k s : ℕ) (prefix : Bits) (out : Dict Bits) → Written k (leaf s) prefix out
unfolding build_codes
Written-leaf k s prefix out = elim (Bool-cases (s == k)) [
  | inl e ↦
      let same : s ≡ k = (==_iff s k).0 e in
      inr ([], rw same here, lookup-insert s k (or_zero prefix) out ∙ rw (e, append-nil))
  | inr e ↦ inl (λ same. ground arith, lookup-insert s k (or_zero prefix) out ∙ rw e)
]

Written-node :
    (k : ℕ) (l r : Node) (prefix : Bits) (out : Dict Bits)
    → Written k l (prefix ++ (false ∷ [])) out
    → Written k r (prefix ++ (true ∷ [])) (build_codes l (prefix ++ (false ∷ [])) out)
    → Written k (node l r) prefix out
unfolding build_codes
Written-node k l r prefix out wl (inr (bits, leads, e)) = inr (
  true ∷ bits,
  right leads,
  e ∙ ap (λ (c : Bits). some (or_zero c)) (append_assoc prefix (true ∷ []) bits),
)
Written-node k l r prefix out (inr (bits, leads, e)) (inl (not_in, same)) = inr (
  false ∷ bits,
  left leads,
  same ∙ e ∙ ap (λ (c : Bits). some (or_zero c)) (append_assoc prefix (false ∷ []) bits),
)
Written-node k l r prefix out (inl (not_left, same_left)) (inl (not_right, same_right)) =
    inl (λ both. elim both [ inl p ↦ not_left p | inr p ↦ not_right p ], same_right ∙ same_left)

build_codes-Written : (k : ℕ) (t : Node) (prefix : Bits) (out : Dict Bits) → Written k t prefix out
build_codes-Written k (leaf s) prefix out = Written-leaf k s prefix out
build_codes-Written k (node l r) prefix out =
    Written-node k l r prefix out (build_codes-Written k l (prefix ++ (false ∷ [])) out)
      (build_codes-Written k r (prefix ++ (true ∷ [])) (build_codes l (prefix ++ (false ∷ [])) out))

-- Every symbol of the tree has a code, which leads to it.
pub lookup-build_codes :
    (k : ℕ) (l r : Node)
    → InTree k (node l r)
    → (bits : Bits) × Leads (node l r) bits k
      × (lookup k (build_codes (node l r) [] []) ≡ some bits)
lookup-build_codes k l r h = elim (build_codes-Written k (node l r) [] []) [
  | inl (not_in, e) ↦ absurd (not_in h)
  | inr (bits, leads, e) ↦ (bits, leads, e ∙ ap some (or_zero-Leads leads))
]
  where
    or_zero-Leads : {bits : Bits} → Leads (node l r) bits k → or_zero bits ≡ bits
    or_zero-Leads (left p) = refl
    or_zero-Leads (right p) = refl

-- The decoder goes down a code from the node it is at, and emits the symbol at its end.
pub walk-Leads :
    (root l r : Node) (n s : ℕ) (bits rest : Bits) (result : Bytes)
    → Leads (node l r) bits s
    → walk root n (bits ++ rest) (node l r) result ≡ (
        if length (result ++ (s ∷ [])) == n
        then ok (result ++ (s ∷ []))
        else walk root n rest root (result ++ (s ∷ [])))
unfolding walk
walk-Leads root l r n k [] rest result p = elim p [ ]
walk-Leads root (leaf s) r n k (false ∷ []) rest result (left here) = refl
walk-Leads root (leaf s) r n k (false ∷ (b ∷ bits)) rest result (left p) = elim p [ ]
walk-Leads root (node a b) r n k (false ∷ bits) rest result (left p) =
    walk-Leads root a b n k bits rest result p
walk-Leads root l (leaf s) n k (true ∷ []) rest result (right here) = refl
walk-Leads root l (leaf s) n k (true ∷ (b ∷ bits)) rest result (right p) = elim p [ ]
walk-Leads root l (node a b) n k (true ∷ bits) rest result (right p) =
    walk-Leads root a b n k bits rest result p
