-- ===== src/Transport/Opening/Ends.antt =====
-- Where `_read_http_headers` of transport/ws.py sees the end of a header block: after the empty line.
use priestly.Base.{
  ℕ, zero, suc, ◌+◌, ◌-◌, ◌≤◌, ◌<◌, ◌≡◌, ◌≢◌, refl, sym, ap, ◌∙◌, Bool, true, false, not, ◌&&◌,
  Bool-cases, inl, inr, List, [], ◌∷◌, ◌++◌, append_assoc, arith, length, length-append,
  length-drop, drop, drop-append, get_or, All, Bytes,
}
use priestly.Python.Text.{Text, text_eq, text_eq_refl, text_eq→eq}
use priestly.Transport.Opening.{ends_block}
use priestly.Transport.Opening.Blocks.{ends_with_last}

get_or-append : (xs ys : Bytes) (i d : ℕ) → get_or (xs ++ ys) (length xs + i) d ≡ get_or ys i d
get_or-append [] ys i d = let same : 0 + i ≡ i = omega arith in ap (λ (n : ℕ). get_or ys n d) same
get_or-append (x ∷ xs) ys i d =
    let same : suc (length xs) + i ≡ suc (length xs + i) = omega arith in
    ap (λ (n : ℕ). get_or (x ∷ (xs ++ ys)) n d) same ∙ get_or-append xs ys i d

get_or-drop : (k i d : ℕ) (xs : Bytes) → get_or (drop k xs) i d ≡ get_or xs (k + i) d
get_or-drop zero i d xs = let same : i ≡ 0 + i = omega arith in ap (λ (n : ℕ). get_or xs n d) same
get_or-drop (suc k) i d [] = refl
get_or-drop (suc k) i d (x ∷ xs) =
    let same : suc (k + i) ≡ suc k + i = omega arith in
    get_or-drop k i d xs ∙ ap (λ (n : ℕ). get_or (x ∷ xs) n d) same

-- The character before the last `i` of a block that ends.
ended_char :
    (pre tail : Bytes) (i c : ℕ)
    → i < 4
    → length tail ≡ i
    → ends_block (pre ++ (c ∷ tail)) ≡ true
    → c ≡ get_or (13 ∷ 10 ∷ 13 ∷ 10 ∷ []) (3 - i) 0
unfolding ends_block
ended_char pre tail i c small len h =
    let xs : Bytes = pre ++ (c ∷ tail) in
    let k : ℕ = length xs - 4 in
    let same : drop k xs ≡ 13 ∷ 10 ∷ 13 ∷ 10 ∷ [] =
      text_eq→eq (drop k xs) (13 ∷ 10 ∷ 13 ∷ 10 ∷ []) h in
    let size : length xs ≡ length pre + suc (length tail) = length-append pre (c ∷ tail) in
    let four : 4 ≤ length xs = omega (arith, length-drop k xs, ap length same) in
    let place : k + (3 - i) ≡ length pre + 0 = omega (arith, size, four, len) in
    sym (get_or-append pre (c ∷ tail) 0 0)
    ∙ ap (λ (n : ℕ). get_or xs n 0) (sym place)
    ∙ sym (get_or-drop k (3 - i) 0 xs)
    ∙ ap (λ (ys : Bytes). get_or ys (3 - i) 0) same

-- A block does not end with another character than a newline.
unended : (pre : Bytes) (c : ℕ) → c ≢ 10 → ends_block (pre ++ (c ∷ [])) ≡ false
unended pre c other = elim (Bool-cases (ends_block (pre ++ (c ∷ [])))) [
  | inl h ↦ absurd (other (ended_char pre [] 0 c (omega arith) refl h))
  | inr h ↦ h
]

-- Nor with the end of a line that is not empty.
unended_line : (pre : Bytes) (c : ℕ) → c ≢ 10 → ends_block (pre ++ (c ∷ 13 ∷ 10 ∷ [])) ≡ false
unended_line pre c other = elim (Bool-cases (ends_block (pre ++ (c ∷ 13 ∷ 10 ∷ [])))) [
  | inl h ↦ absurd (other (ended_char pre (13 ∷ 10 ∷ []) 2 c (omega arith) refl h))
  | inr h ↦ h
]

ended : (pre : Bytes) → ends_block (pre ++ (13 ∷ 10 ∷ 13 ∷ 10 ∷ [])) ≡ true
unfolding ends_block
ended pre =
    let whole : Bytes = pre ++ (13 ∷ 10 ∷ 13 ∷ 10 ∷ []) in
    let place : length whole - 4 ≡ length pre =
      omega (arith, length-append pre (13 ∷ 10 ∷ 13 ∷ 10 ∷ [])) in
    ap (λ (k : ℕ). text_eq (drop k whole) (13 ∷ 10 ∷ 13 ∷ 10 ∷ [])) place
    ∙ ap (λ (ys : Bytes). text_eq ys (13 ∷ 10 ∷ 13 ∷ 10 ∷ []))
        (drop-append pre (13 ∷ 10 ∷ 13 ∷ 10 ∷ []) (length pre) refl)
    ∙ text_eq_refl (13 ∷ 10 ∷ 13 ∷ 10 ∷ [])

-- A header line: not empty, and without a newline.
abbrev pub IsLine : Text → Type 0
IsLine [] = ⊥
IsLine (c ∷ t) = All (λ d. d ≢ 10) (c ∷ t)

abbrev line_end : Text
line_end = 13 ∷ 10 ∷ []

one_more :
    (buf rest : Bytes) (b : ℕ)
    → ends_block buf ≡ false
    → ends_with_last buf (b ∷ rest) ≡ ends_with_last (buf ++ (b ∷ [])) rest
one_more buf rest b h = ap (λ (x : Bool). not x && ends_with_last (buf ++ (b ∷ [])) rest) h

-- From the first character of a line to behind its end.
rest_of_line :
    (line rest pre : Bytes) (c : ℕ)
    → c ≢ 10
    → All (λ d. d ≢ 10) line
    → (ends_with_last (pre ++ (c ∷ [])) (line ++ (13 ∷ 10 ∷ rest))
        ≡ ends_with_last ((pre ++ (c ∷ line)) ++ line_end) rest)
      × (ends_block ((pre ++ (c ∷ line)) ++ line_end) ≡ false)
rest_of_line [] rest pre c other h = (
  one_more (pre ++ (c ∷ [])) (10 ∷ rest) 13 (unended pre c other)
      ∙ one_more ((pre ++ (c ∷ [])) ++ (13 ∷ [])) rest 10
          (unended (pre ++ (c ∷ [])) 13 (λ e. omega (arith, e)))
      ∙ ap (λ (b : Bytes). ends_with_last b rest)
          (append_assoc (pre ++ (c ∷ [])) (13 ∷ []) (10 ∷ [])),
  ap ends_block (append_assoc pre (c ∷ []) line_end) ∙ unended_line pre c other,
)
rest_of_line (d ∷ line) rest pre c other h =
    let (walked, open_still) = rest_of_line line rest (pre ++ (c ∷ [])) d h.0 h.1 in
    let joined : (pre ++ (c ∷ [])) ++ (d ∷ line) ≡ pre ++ (c ∷ d ∷ line) =
      append_assoc pre (c ∷ []) (d ∷ line) in
    (
      one_more (pre ++ (c ∷ [])) (line ++ (13 ∷ 10 ∷ rest)) d (unended pre c other)
          ∙ walked
          ∙ ap (λ (b : Bytes). ends_with_last (b ++ line_end) rest) joined,
      ap (λ (b : Bytes). ends_block (b ++ line_end)) (sym joined) ∙ open_still,
    )

-- Lines, each with its end, and an empty line.
abbrev pub block_of : List Text → Text
block_of [] = line_end
block_of (line ∷ lines) = line ++ (13 ∷ 10 ∷ block_of lines)

lines-end :
    (lines : List Text) (pre : Bytes)
    → ends_block (pre ++ line_end) ≡ false
    → All IsLine lines
    → ends_with_last (pre ++ line_end) (block_of lines) ≡ true
lines-end [] pre open_still h =
    one_more (pre ++ line_end) (10 ∷ []) 13 open_still
    ∙ one_more ((pre ++ line_end) ++ (13 ∷ [])) [] 10
        (unended (pre ++ line_end) 13 (λ e. omega (arith, e)))
    ∙ ap ends_block
        (append_assoc (pre ++ line_end) (13 ∷ []) (10 ∷ []) ∙ append_assoc pre line_end line_end)
    ∙ ended pre
lines-end ([] ∷ lines) pre open_still h = absurd h.0
lines-end ((c ∷ line) ∷ lines) pre open_still h =
    let (walked, open_later) = rest_of_line line (block_of lines) (pre ++ line_end) c h.0.0 h.0.1 in
    one_more (pre ++ line_end) (line ++ (13 ∷ 10 ∷ block_of lines)) c open_still
    ∙ walked
    ∙ lines-end lines ((pre ++ line_end) ++ (c ∷ line)) open_later h.1

-- The block of a first line and others ends where it should.
pub block_of-ends :
    (first : Text) (lines : List Text)
    → IsLine first
    → All IsLine lines
    → ends_with_last [] (block_of (first ∷ lines)) ≡ true
unfolding ends_block text_eq
block_of-ends [] lines first h = absurd first
block_of-ends (c ∷ line) lines first h =
    let (walked, open_later) = rest_of_line line (block_of lines) [] c first.0 first.1 in
    one_more [] (line ++ (13 ∷ 10 ∷ block_of lines)) c refl
    ∙ walked
    ∙ lines-end lines (c ∷ line) open_later h
