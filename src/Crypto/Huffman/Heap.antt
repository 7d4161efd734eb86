-- ===== src/Crypto/Huffman/Heap.antt =====
-- The heap: its order does not depend on the order of the dict, and no symbol is lost on the way
-- to the tree.
use priestly.Base.{
  ℕ, zero, suc, ◌≤◌, ◌≡◌, refl, ap, ◌∙◌, ◌⊎◌, inl, inr, some, List, [], ◌∷◌, map, arith, ◌==◌, leb,
  Bool-cases, length, ok,
}
use priestly.Base.Dict.{Dict, lookup}
use priestly.Crypto.Huffman.{
  Node, Entry, before, heappush, heapify, merge, merge_loop, root_of, leaf_entry, build_tree,
  insort, sorted,
}
use native.Mathlib.Nat.{le_refl}
use priestly.Crypto.Huffman.Codes.{InTree}

-- Two leaf entries may be pushed in either order.
heappush_comm :
    (p q : ℕ × ℕ) (h : List Entry)
    → heappush (leaf_entry p) (heappush (leaf_entry q) h)
      ≡ heappush (leaf_entry q) (heappush (leaf_entry p) h)
unfolding heappush
heappush_comm (s, f) (t, g) [] = ground arith
heappush_comm (s, f) (t, g) (x ∷ h) = ground (arith, heappush_comm (s, f) (t, g) h)

-- The heap of a table does not depend on the order in which its symbols are listed.
abbrev pub table_of : (ℕ → ℕ) → List ℕ → Dict ℕ
table_of g = map (λ s. (s, g s))

heapify-insort :
    (g : ℕ → ℕ) (s : ℕ) (l : List ℕ)
    → heapify (map leaf_entry (table_of g (insort s l)))
      ≡ heappush (leaf_entry (s, g s)) (heapify (map leaf_entry (table_of g l)))
unfolding heapify insort
heapify-insort g s [] = refl
heapify-insort g s (t ∷ l) = elim (Bool-cases (leb s t)) [
  | inl e ↦ rw e
  | inr e ↦ rw e (
      ap (heappush (leaf_entry (t, g t))) (heapify-insort g s l)
      ∙ heappush_comm (t, g t) (s, g s) (heapify (map leaf_entry (table_of g l))))
]

heapify_cons :
    (g : ℕ → ℕ) (s : ℕ) (l : List ℕ)
    → heappush (leaf_entry (s, g s)) (heapify (map leaf_entry (table_of g l)))
      ≡ heapify (map leaf_entry (table_of g (s ∷ l)))
unfolding heapify
heapify_cons g s l = refl

pub heapify-sorted :
    (g : ℕ → ℕ) (l : List ℕ)
    → heapify (map leaf_entry (table_of g (sorted l))) ≡ heapify (map leaf_entry (table_of g l))
unfolding sorted
heapify-sorted g [] = refl
heapify-sorted g (s ∷ l) =
    heapify-insort g s (sorted l)
    ∙ ap (heappush (leaf_entry (s, g s))) (heapify-sorted g l)
    ∙ heapify_cons g s l

-- The symbol stands in the tree of some entry.
abbrev pub InHeap : ℕ → List Entry → Type 0
InHeap k [] = ⊥
InHeap k (e ∷ h) = InTree k e.tree ⊎ InHeap k h

heappush-InHeap-here :
    (k : ℕ) (e : Entry) (h : List Entry) → InTree k e.tree → InHeap k (heappush e h)
unfolding heappush
heappush-InHeap-here k e [] p = inl p
heappush-InHeap-here k e (x ∷ h) p = elim (Bool-cases (before e x)) [
  | inl t ↦ rw t (inl p)
  | inr t ↦ rw t (inr (heappush-InHeap-here k e h p))
]

heappush-InHeap : (k : ℕ) (e : Entry) (h : List Entry) → InHeap k h → InHeap k (heappush e h)
unfolding heappush
heappush-InHeap k e [] p = absurd p
heappush-InHeap k e (x ∷ h) (inl p) = elim (Bool-cases (before e x)) [
  | inl t ↦ rw t (inr (inl p))
  | inr t ↦ rw t (inl p)
]
heappush-InHeap k e (x ∷ h) (inr p) = elim (Bool-cases (before e x)) [
  | inl t ↦ rw t (inr (inr p))
  | inr t ↦ rw t (inr (heappush-InHeap k e h p))
]

length-heappush : (e : Entry) (h : List Entry) → length (heappush e h) ≡ suc (length h)
unfolding heappush
length-heappush e [] = refl
length-heappush e (x ∷ h) = ground (arith, length-heappush e h)

-- With as many rounds as entries the loop ends at one entry, which holds every symbol.
merge-InHeap :
    (k : ℕ) (a b : Entry) (h : List Entry)
    → InHeap k (a ∷ b ∷ h)
    → InHeap k (heappush (merge a b) h)
unfolding merge
merge-InHeap k a b h (inl q) = heappush-InHeap-here k (merge a b) h (inl q)
merge-InHeap k a b h (inr (inl q)) = heappush-InHeap-here k (merge a b) h (inr q)
merge-InHeap k a b h (inr (inr q)) = heappush-InHeap k (merge a b) h q

merge_loop-InHeap :
    (n k : ℕ) (h : List Entry)
    → length h ≤ n
    → InHeap k h
    → (e : Entry) × (merge_loop n h ≡ e ∷ []) × InTree k e.tree
unfolding merge_loop
merge_loop-InHeap n k [] bound p = absurd p
merge_loop-InHeap zero k (a ∷ h) bound p = absurd (omega arith)
merge_loop-InHeap (suc n) k (a ∷ []) bound (inl p) = (a, refl, p)
merge_loop-InHeap (suc n) k (a ∷ []) bound (inr p) = absurd p
merge_loop-InHeap (suc n) k (a ∷ b ∷ h) bound p =
    merge_loop-InHeap n k (heappush (merge a b) h) (omega (arith, length-heappush (merge a b) h))
      (merge-InHeap k a b h p)

lookup-InHeap :
    (k : ℕ) (freq : Dict ℕ) {f : ℕ}
    → lookup k freq ≡ some f
    → InHeap k (heapify (map leaf_entry freq))
unfolding lookup heapify
lookup-InHeap k [] e = cc
lookup-InHeap k ((s, g) ∷ freq) e = elim (Bool-cases (s == k)) [
  | inl t ↦
      heappush-InHeap-here k (leaf_entry (s, g)) (heapify (map leaf_entry freq)) (ground arith)
  | inr t ↦
      heappush-InHeap k (leaf_entry (s, g)) (heapify (map leaf_entry freq))
        (lookup-InHeap k freq (rw t at e))
]

-- The tree is built, and holds every symbol of the dict.
pub build_tree-InTree :
    (k : ℕ) (freq : Dict ℕ) {f : ℕ}
    → lookup k freq ≡ some f
    → (root : Node) × (build_tree freq ≡ ok root) × InTree k root
unfolding build_tree
build_tree-InTree k freq e =
    let heap = heapify (map leaf_entry freq) in
    let (last, ends, holds) =
      merge_loop-InHeap (length heap) k heap (le_refl (length heap)) (lookup-InHeap k freq e) in
    (last.tree, ap root_of ends, holds)

pub build_tree-sorted :
    (g : ℕ → ℕ) (l : List ℕ) → build_tree (table_of g (sorted l)) ≡ build_tree (table_of g l)
unfolding build_tree
build_tree-sorted g l =
    ap (λ (heap : List Entry). root_of (merge_loop (length heap) heap)) (heapify-sorted g l)
