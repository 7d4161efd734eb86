-- ===== src/Python/Utf8/Codec.antt =====
-- Decoding what the codec "utf-8" has encoded gives the text back.
use priestly.Base.{
  ℕ, suc, ◌+◌, ◌-◌, ◌*◌, ◌/◌, ◌%◌, ◌≤◌, ◌<◌, ◌≡◌, refl, sym, ap, ◌∙◌, inl, inr, true, false, [],
  ◌∷◌, ◌++◌, arith, ltb, leb, Bool-cases, ltb→lt, Result, ok, raise, value_error, bind-returned,
  guard-returned, Bytes,
}
use priestly.Python.Text.{Text, is_ascii}
use priestly.Python.Utf8.{
  is_scalar, encode_char, encode, Pending, ready, inside, lead, complete, follow, next, decode_from,
  decode,
}

-- A byte that leaves the state `q` and gives no character.
step-inside :
    (p q : Pending) (b : ℕ) (bs : Bytes) (r : Result Text)
    → next p b ≡ ok ([], q)
    → decode_from q bs ≡ r
    → decode_from p (b ∷ bs) ≡ r
unfolding decode_from
step-inside ready q b bs (ok t) e rest = rw (e, rest)
step-inside ready q b bs (raise x) e rest = rw (e, rest)
step-inside (inside k acc least) q b bs (ok t) e rest = rw (e, rest)
step-inside (inside k acc least) q b bs (raise x) e rest = rw (e, rest)

-- A byte that ends the character `c`.
step_complete :
    (p : Pending) (b c : ℕ) (bs : Bytes) (t : Text)
    → next p b ≡ ok (c ∷ [], ready)
    → decode_from ready bs ≡ ok t
    → decode_from p (b ∷ bs) ≡ ok (c ∷ t)
unfolding decode_from
step_complete ready b c bs t e rest = rw (e, rest)
step_complete (inside k acc least) b c bs t e rest = rw (e, rest)

next-follow :
    (k acc least b : ℕ)
    → b < 64
    → next (inside (suc k) acc least) (128 + b) ≡ ok ([], inside k (acc * 64 + b) least)
unfolding next follow
next-follow k acc least b h =
    let low : leb 128 (128 + b) ≡ true = ground arith in
    let high : ltb (128 + b) 192 ≡ true = ground arith in
    let e : 128 + b - 128 ≡ b = omega arith in rw (low, high, e) refl

next_complete :
    (acc least b : ℕ)
    → b < 64
    → leb least (acc * 64 + b) ≡ true
    → is_scalar (acc * 64 + b) ≡ true
    → next (inside 0 acc least) (128 + b) ≡ ok ((acc * 64 + b) ∷ [], ready)
unfolding next follow complete
next_complete acc least b h enough scalar =
    let low : leb 128 (128 + b) ≡ true = ground arith in
    let high : ltb (128 + b) 192 ≡ true = ground arith in
    let e : 128 + b - 128 ≡ b = omega arith in rw (low, high, e, enough, scalar) refl

next-lead_two : (h : ℕ) → h < 32 → next ready (192 + h) ≡ ok ([], inside 0 h 128)
unfolding next lead
next-lead_two h small =
    let a : ltb (192 + h) 128 ≡ false = ground arith in
    let b : ltb (192 + h) 192 ≡ false = ground arith in
    let c : ltb (192 + h) 224 ≡ true = ground arith in
    let e : 192 + h - 192 ≡ h = omega arith in rw (a, b, c, e) refl

next-lead_three : (h : ℕ) → h < 16 → next ready (224 + h) ≡ ok ([], inside 1 h 2048)
unfolding next lead
next-lead_three h small =
    let a : ltb (224 + h) 128 ≡ false = ground arith in
    let b : ltb (224 + h) 192 ≡ false = ground arith in
    let c : ltb (224 + h) 224 ≡ false = ground arith in
    let d : ltb (224 + h) 240 ≡ true = ground arith in
    let e : 224 + h - 224 ≡ h = omega arith in rw (a, b, c, d, e) refl

next-lead_four : (h : ℕ) → h < 8 → next ready (240 + h) ≡ ok ([], inside 2 h 65536)
unfolding next lead
next-lead_four h small =
    let a : ltb (240 + h) 128 ≡ false = ground arith in
    let b : ltb (240 + h) 192 ≡ false = ground arith in
    let c : ltb (240 + h) 224 ≡ false = ground arith in
    let d : ltb (240 + h) 240 ≡ false = ground arith in
    let f : ltb (240 + h) 248 ≡ true = ground arith in
    let e : 240 + h - 240 ≡ h = omega arith in rw (a, b, c, d, f, e) refl

-- The last byte, where the bits make up `c`.
last_byte :
    (acc least b c : ℕ) (bs : Bytes) (t : Text)
    → acc * 64 + b ≡ c
    → b < 64
    → least ≤ c
    → is_scalar c ≡ true
    → decode_from ready bs ≡ ok t
    → decode_from (inside 0 acc least) ((128 + b) ∷ bs) ≡ ok (c ∷ t)
last_byte acc least b c bs t e h enough scalar rest =
    step_complete (inside 0 acc least) (128 + b) c bs t
      (next_complete acc least b h (ground (arith, e, enough)) (ap is_scalar e ∙ scalar)
        ∙ ap (λ (x : ℕ). ok (x ∷ [], ready)) e)
      rest

four_bytes :
    (c : ℕ) (bs : Bytes) (t : Text)
    → ltb c 65536 ≡ false
    → is_scalar c ≡ true
    → decode_from ready bs ≡ ok t
    → decode_from ready
        ((240 + c / 262144) ∷ (128 + c / 4096 % 64) ∷ (128 + c / 64 % 64) ∷ (128 + c % 64) ∷ bs)
      ≡ ok (c ∷ t)
four_bytes c bs t big scalar rest =
    let room : c < 1114112 = ltb→lt c 1114112 (grind (arith, scalar)) in
    let a : ℕ = c / 262144 in
    let b : ℕ = c / 4096 % 64 in
    let d : ℕ = c / 64 % 64 in
    step-inside ready (inside 2 a 65536) (240 + a) _ _ (next-lead_four a (omega (arith, room))) (
      step-inside (inside 2 a 65536) (inside 1 (a * 64 + b) 65536) (128 + b) _ _
        (next-follow 1 a 65536 b (omega arith))
        (step-inside (inside 1 (a * 64 + b) 65536) (inside 0 ((a * 64 + b) * 64 + d) 65536)
          (128 + d) _ _ (next-follow 0 (a * 64 + b) 65536 d (omega arith))
          (last_byte ((a * 64 + b) * 64 + d) 65536 (c % 64) c bs t (omega arith) (omega arith)
            (ground (arith, big)) scalar rest)))

decode-encode_char :
    (c : ℕ) (bs : Bytes) (t : Text)
    → is_scalar c ≡ true
    → decode_from ready bs ≡ ok t
    → decode_from ready (encode_char c ++ bs) ≡ ok (c ∷ t)
unfolding encode_char
decode-encode_char c bs t scalar rest = elim (Bool-cases (ltb c 128)) [
  | inl one ↦ rw one (step_complete ready c c bs t (unfold next lead in rw one refl) rest)
  | inr more ↦ elim (Bool-cases (ltb c 2048)) [
    | inl two ↦
        rw (more, two)
          (step-inside ready (inside 0 (c / 64) 128) (192 + c / 64) _ _
            (next-lead_two (c / 64) (ground (arith, two)))
            (last_byte (c / 64) 128 (c % 64) c bs t (omega arith) (omega arith)
              (ground (arith, more)) scalar rest))
    | inr more' ↦ elim (Bool-cases (ltb c 65536)) [
      | inl three ↦
          rw (more, more', three)
            (step-inside ready (inside 1 (c / 4096) 2048) (224 + c / 4096) _ _
              (next-lead_three (c / 4096) (ground (arith, three)))
              (step-inside (inside 1 (c / 4096) 2048) (inside 0 (c / 4096 * 64 + c / 64 % 64) 2048)
                (128 + c / 64 % 64) _ _ (next-follow 0 (c / 4096) 2048 (c / 64 % 64) (omega arith))
                (last_byte (c / 4096 * 64 + c / 64 % 64) 2048 (c % 64) c bs t (omega arith)
                  (omega arith) (ground (arith, more')) scalar rest)))
      | inr four ↦ rw (more, more', four) (four_bytes c bs t four scalar rest)
    ]
  ]
]

pub decode-encode : (t : Text) (bs : Bytes) → encode t ≡ ok bs → decode bs ≡ ok t
unfolding encode decode
decode-encode [] bs e = let same : [] ≡ bs = cc e in rw (sym same) (unfold decode_from in refl)
decode-encode (c ∷ t) bs e =
    let (scalar, tail) = guard-returned (is_scalar c) value_error _ bs e in
    let (more, before, joined) = bind-returned (encode t) _ bs tail in
    let same : encode_char c ++ more ≡ bs = cc joined in
    ap (decode_from ready) (sym same)
    ∙ decode-encode_char c more t scalar (decode-encode t more before)

-- A text of ASCII is its own encoding.
pub encode-ascii : (t : Text) → is_ascii t ≡ true → encode t ≡ ok t
unfolding encode is_ascii encode_char
encode-ascii [] h = refl
encode-ascii (c ∷ t) h = ground (arith, encode-ascii t)
