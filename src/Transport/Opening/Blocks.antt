-- ===== src/Transport/Opening/Blocks.antt =====
-- `_read_http_headers` of transport/ws.py stops at the end of the header block.
use priestly.Base.{
  ℕ, zero, suc, ◌+◌, ◌≤◌, ◌<◌, ◌≡◌, refl, sym, ap, ap₂, ◌∙◌, Bool, true, false, not, ◌&&◌, [], ◌∷◌,
  ◌++◌, append_assoc, append-nil, arith, length, length-append, ltb, le→ltb, some, ok, Bytes,
}
use priestly.Transport.Socket.{Socket, recv}
use priestly.Transport.Socket.Exact.{available, Part, recv-Part}
use priestly.Transport.Opening.{max_header_bytes, ends_block, header_loop, read_http_headers}

-- Whether the end of a header block is reached with the last of the bytes, and not before.
abbrev pub ends_with_last : Bytes → Bytes → Bool
ends_with_last buf [] = ends_block buf
ends_with_last buf (b ∷ bs) = not (ends_block buf) && ends_with_last (buf ++ (b ∷ [])) bs

nothing_more : (xs : Bytes) → suc (length xs) ≤ 1 → xs ≡ []
nothing_more [] h = refl
nothing_more (x ∷ xs) h = absurd (omega arith)

-- A read of one byte.
recv_one :
    (s : Socket) (b : ℕ) (bs : Bytes)
    → available s ≡ b ∷ bs
    → (s' : Socket) × (recv 1 s ≡ (some (b ∷ []), s')) × (available s' ≡ bs)
recv_one s b bs e = by_part (recv-Part zero s b bs e)
  where
    by_part : Part 1 s → (s' : Socket) × (recv 1 s ≡ (some (b ∷ []), s')) × (available s' ≡ bs)
    by_part p =
        let nil : p.more ≡ [] = nothing_more p.more p.within in
        let joined : b ∷ bs ≡ p.first ∷ (p.more ++ available p.left) = sym e ∙ p.split in
        let head : p.first ≡ b = cc joined in
        let tail : p.more ++ available p.left ≡ bs = cc joined in
        (
          p.left,
          p.got ∙ ap₂ (λ (f : ℕ) (m : Bytes). (some (f ∷ m), p.left)) head nil,
          sym (ap (λ (m : Bytes). m ++ available p.left) nil) ∙ tail,
        )

-- The rounds of the loop over the bytes up to the end of the block.
header_loop-read :
    (more buf rest : Bytes) (fuel : ℕ) (s : Socket)
    → available s ≡ more ++ rest
    → ends_with_last buf more ≡ true
    → length buf + length more ≤ max_header_bytes
    → length more < fuel
    → (s' : Socket) × (header_loop fuel buf s ≡ (ok (buf ++ more), s')) × (available s' ≡ rest)
unfolding header_loop
header_loop-read more buf rest zero s e ends small enough = absurd (omega arith)
header_loop-read [] buf rest (suc fuel) s e ends small enough =
    let ended : ends_block buf ≡ true = ends in
    (s, rw (ended, header_loop) (ap (λ (b : Bytes). (ok b, s)) (sym (append-nil buf))), e)
header_loop-read (b ∷ bs) buf rest (suc fuel) s e ends small enough =
    let (s₁, got, left) = recv_one s b (bs ++ rest) e in
    let (unended, later) = both (ends_block buf) (ends_with_last (buf ++ (b ∷ [])) bs) ends in
    let size : length (buf ++ (b ∷ [])) ≡ length buf + 1 = length-append buf (b ∷ []) in
    let fits : ltb max_header_bytes (length (buf ++ (b ∷ []))) ≡ false =
      le→ltb max_header_bytes (length (buf ++ (b ∷ []))) (omega (arith, size)) in
    let (s', returns, ends_left) =
      header_loop-read bs (buf ++ (b ∷ [])) rest fuel s₁ left later (omega (arith, size))
        (omega arith) in
    (
      s',
      rw (unended, got, fits, header_loop)
          (returns ∙ ap (λ (x : Bytes). (ok x, s')) (append_assoc buf (b ∷ []) bs)),
      ends_left,
    )
  where
    both : (x y : Bool) → not x && y ≡ true → (x ≡ false) × (y ≡ true)
    both true y h = absurd (cc h)
    both false y h = (refl, h)

-- Placeholder.
pub read_http_headers-block :
    (block rest : Bytes) (s : Socket)
    → available s ≡ block ++ rest
    → ends_with_last [] block ≡ true
    → length block ≤ max_header_bytes
    → (s' : Socket) × (read_http_headers s ≡ (ok block, s')) × (available s' ≡ rest)
unfolding read_http_headers
read_http_headers-block block rest s e ends small =
    header_loop-read block [] rest (suc (suc max_header_bytes)) s e ends (omega arith) (omega arith)
