-- ===== src/Transport/Frame/Header.antt =====
-- The first two bytes of a frame: `read_frame` takes them apart as `encode_frame` made them.
use priestly.Base.{
  ℕ, zero, suc, ◌≤◌, ◌<◌, ◌≡◌, refl, ap, ◌∙◌, inl, inr, Bool, true, false, not, ◌&&◌, ◌||◌, arith,
  ltb, leb, ◌==◌, ==_iff, ltb→lt, Bool-cases, ok, guard, ◌>>◌, protocol_error, bit_and, bit_or,
}
use priestly.Transport.Frame.{Head, parse_head, elem, valid_opcodes, control_opcodes, mask_bit_of}

-- A test that holds at each number below `n`.
abbrev passes : (ℕ → Bool) → ℕ → Bool
passes test zero = true
passes test (suc n) = test n && passes test n

passes-below : (test : ℕ → Bool) (n i : ℕ) → passes test n ≡ true → i < n → test i ≡ true
passes-below test zero i p h = absurd (omega arith)
passes-below test (suc n) i p h = elim (Bool-cases (i == n)) [
  | inl e ↦ ap test ((==_iff i n).0 e) ∙ grind (arith, p)
  | inr e ↦ passes-below test n i (grind (arith, p)) (ground (arith, e, h))
]

-- What the checks find in the first byte of a final frame.
abbrev first_byte : ℕ → Bool
first_byte op =
    ltb (bit_or 128 op) 256
    && not (bit_and (bit_or 128 op) 128 == 0)
    && (bit_and (bit_or 128 op) 112 == 0)
    && (bit_and (bit_or 128 op) 15 == op)

-- And in the second.
abbrev second_byte : Bool → ℕ → Bool
second_byte true n =
    ltb (bit_or 128 n) 256
    && not (bit_and (bit_or 128 n) 128 == 0)
    && (bit_and (bit_or 128 n) 127 == n)
second_byte false n =
    ltb (bit_or 0 n) 256 && (bit_and (bit_or 0 n) 128 == 0) && (bit_and (bit_or 0 n) 127 == n)

first_byte-passes : passes first_byte 16 ≡ true
first_byte-passes = refl

second_byte-passes : (mask : Bool) → passes (second_byte mask) 128 ≡ true
second_byte-passes true = refl
second_byte-passes false = refl

pub first_byte_facts :
    (op : ℕ)
    → op < 16
    → (ltb (bit_or 128 op) 256 ≡ true)
      × ((bit_and (bit_or 128 op) 128 == 0) ≡ false)
      × ((bit_and (bit_or 128 op) 112 == 0) ≡ true)
      × (bit_and (bit_or 128 op) 15 ≡ op)
first_byte_facts op h =
    let t : first_byte op ≡ true = passes-below first_byte 16 op first_byte-passes h in
    (
      grind (arith, t),
      grind (arith, t),
      grind (arith, t),
      (==_iff (bit_and (bit_or 128 op) 15) op).0 (grind (arith, t)),
    )

pub second_byte_facts :
    (mask : Bool) (n : ℕ)
    → n < 128
    → (bit_or (mask_bit_of mask) n < 256)
      × ((bit_and (bit_or (mask_bit_of mask) n) 128 == 0) ≡ not mask)
      × (bit_and (bit_or (mask_bit_of mask) n) 127 ≡ n)
second_byte_facts true n h =
    let t : second_byte true n ≡ true =
      passes-below (second_byte true) 128 n (second_byte-passes true) h in
    (
      ltb→lt (bit_or 128 n) 256 (grind (arith, t)),
      grind (arith, t),
      (==_iff (bit_and (bit_or 128 n) 127) n).0 (grind (arith, t)),
    )
second_byte_facts false n h =
    let t : second_byte false n ≡ true =
      passes-below (second_byte false) 128 n (second_byte-passes false) h in
    (
      ltb→lt (bit_or 0 n) 256 (grind (arith, t)),
      grind (arith, t),
      (==_iff (bit_and (bit_or 0 n) 127) n).0 (grind (arith, t)),
    )

pub valid_opcodes-below : (op : ℕ) → elem op valid_opcodes ≡ true → op < 16
valid_opcodes-below op h = ground arith

abbrev pub final : ℕ → Bool → ℕ → Head
final op mask n = record { fin = true; opcode = op; masked = mask; size = n }

-- The last two checks, on a final frame.
control_checks :
    (control short masked : Bool) (op n : ℕ)
    → (control ≡ true → short ≡ true)
    → (guard (not control || true) protocol_error
        >> (guard (not control || short) protocol_error >> ok (final op (not (not masked)) n)))
      ≡ ok (final op masked n)
control_checks true true true op n h = refl
control_checks true true false op n h = refl
control_checks true false masked op n h = cc (h refl)
control_checks false short true op n h = refl
control_checks false short false op n h = refl

-- The head of a final frame whose opcode is valid, and small if it is a control frame.
pub parse_head-encoded :
    (op : ℕ) (mask : Bool) (n : ℕ)
    → elem op valid_opcodes ≡ true
    → n < 128
    → (elem op control_opcodes ≡ true → n ≤ 125)
    → parse_head (bit_or 128 op) (bit_or (mask_bit_of mask) n) ≡ ok (final op mask n)
unfolding parse_head
parse_head-encoded op mask n valid h small =
    let (r, fin, reserved, code) = first_byte_facts op (valid_opcodes-below op valid) in
    let (r', masked, size) = second_byte_facts mask n h in
    rw (fin, reserved, code, valid, masked, size)
      (control_checks (elem op control_opcodes) (leb n 125) mask op n
        (λ c. let le : n ≤ 125 = small c in ground arith))
