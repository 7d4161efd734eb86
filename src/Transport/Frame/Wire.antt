-- ===== src/Transport/Frame/Wire.antt =====
-- The frame that `encode_frame` writes and `read_frame` reads back.
use priestly.Base.{
  ℕ, ◌+◌, ◌≤◌, ◌<◌, ◌^◌, ◌≡◌, refl, sym, ap, ◌∙◌, inl, inr, Bool, true, false, [], ◌∷◌, ◌++◌,
  append_assoc, arith, ltb, ◌==◌, lt→ltb, ltb→lt, Bool-cases, if◌then◌else◌, length, length-append,
  All-append, ok, Bytes, IsByte, IsBytes, be_bytes, from_bytes, length-be_bytes, be_bytes-IsBytes,
  from_bytes-be_bytes, bit_or,
}
use priestly.Base.State.{Action, bind-ok, return, lift}
use priestly.Base.State as State
use priestly.Transport.Socket.{Socket, recv_exact}
use priestly.Transport.Socket.Exact.{available, recv_exact-available}
use priestly.Transport.Frame.{
  parse_head, elem, valid_opcodes, control_opcodes, mask_bit_of, length_header, encode_frame,
  apply_mask, read_length, read_body, read_frame,
}
use priestly.Transport.Frame.Header.{
  first_byte_facts, second_byte_facts, valid_opcodes-below, final, parse_head-encoded,
}
use priestly.Transport.Frame.Masking.{apply_mask-apply_mask, length-apply_mask, apply_mask-IsBytes}

-- A call reads `x` off the stream and returns `a`, whatever follows and however the bytes arrive.
abbrev Reads : {A : Type 0} → Action Socket A → Bytes → A → Type 0
Reads m x a =
    (s : Socket) (rest : Bytes)
    → available s ≡ x ++ rest
    → (s' : Socket) × (m s ≡ (ok a, s')) × (available s' ≡ rest)

recv_exact-Reads : (n : ℕ) (x : Bytes) → length x ≡ n → Reads (recv_exact n) x x
recv_exact-Reads n x len s rest e = recv_exact-available n x rest s e len

return-Reads : {A : Type 0} (a : A) → Reads (return {A = A} a) [] a
return-Reads a s rest e = (s, refl, e)

bind-Reads :
    {A B : Type 0} (m : Action Socket A) (f : A → Action Socket B) (x y : Bytes) (a : A) (b : B)
    → Reads m x a
    → Reads (f a) y b
    → Reads (State.◌>>=◌ m f) (x ++ y) b
bind-Reads m f x y a b first second s rest e =
    let (s', read, left) = first s (y ++ rest) (e ∙ append_assoc x y rest) in
    let (s'', read', left') = second s' rest left in (s'', bind-ok m f a s s' read ∙ read', left')

-- How a length is written after the first byte.
record Sized (mask : Bool) (n : ℕ) : Type 0 where
  size : ℕ
  more : Bytes
  small : size < 128
  header : length_header (mask_bit_of mask) n ≡ ok (bit_or (mask_bit_of mask) size ∷ more)
  read : Reads (read_length size) more n
  short : n ≤ 125 → size ≡ n
  bounded : length more ≤ 8
  bytes : IsBytes more

read_last-Reads :
    {B : Type 0} (n : ℕ) (x : Bytes) (f : Bytes → B) (b : B)
    → length x ≡ n
    → f x ≡ b
    → Reads (State.◌>>=◌ (recv_exact n) (λ y. return (f y))) x b
read_last-Reads n x f b len e s rest h =
    let (s', read, left) = recv_exact-Reads n x len s rest h in
    (s', bind-ok (recv_exact n) (λ y. return (f y)) x s s' read ∙ ap (λ c. (ok c, s')) e, left)

read_be-Reads :
    (w n : ℕ)
    → n < 256 ^ w
    → Reads (State.◌>>=◌ (recv_exact w) (λ b. return (from_bytes b))) (be_bytes w n) n
read_be-Reads w n h =
    read_last-Reads w (be_bytes w n) from_bytes n (length-be_bytes w n) (from_bytes-be_bytes w n h)

read_small-Reads : (n : ℕ) → ltb n 126 ≡ true → Reads (read_length n) [] n
unfolding read_length
read_small-Reads n tiny s rest e =
    let p : (n == 126) ≡ false = ground (arith, tiny) in
    let q : (n == 127) ≡ false = ground (arith, tiny) in (s, rw (p, q), e)

sized : (mask : Bool) (n : ℕ) → n < 2 ^ 64 → Sized mask n
sized mask n room = elim (Bool-cases (ltb n 126)) [
  | inl tiny ↦ record {
    size = n;
    more = [];
    small = ground (arith, tiny);
    header = unfold length_header in rw tiny;
    read = read_small-Reads n tiny;
    short = λ h. refl;
    bounded = omega arith;
    bytes = tt;
  }
  | inr big ↦ elim (Bool-cases (ltb n 65536)) [
    | inl mid ↦ record {
      size = 126;
      more = be_bytes 2 n;
      small = omega arith;
      header = unfold length_header in rw (big, mid);
      read = unfold read_length in read_be-Reads 2 n (ltb→lt n 65536 mid);
      short = λ h. absurd (ground (arith, h, big));
      bounded = omega (arith, length-be_bytes 2 n);
      bytes = be_bytes-IsBytes 2 n;
    }
    | inr huge ↦ record {
      size = 127;
      more = be_bytes 8 n;
      small = omega arith;
      header = unfold length_header in rw (big, huge, lt→ltb n (2 ^ 64) room);
      read = unfold read_length in read_be-Reads 8 n room;
      short = λ h. absurd (ground (arith, h, big));
      bounded = omega (arith, length-be_bytes 8 n);
      bytes = be_bytes-IsBytes 8 n;
    }
  ]
]

-- The masking key and the payload as they are sent.
abbrev sent : Bool → Bytes → Bytes → Bytes
sent mask key payload = if mask then key ++ apply_mask key 0 payload else payload

read_body-Reads :
    (op : ℕ) (mask : Bool) (payload key : Bytes) (l : Sized mask (length payload))
    → length key ≡ 4
    → Reads (read_body (final op mask l.size)) (l.more ++ sent mask key payload) (true, op, payload)
unfolding read_body
read_body-Reads op true payload key l len = bind-Reads _ _ l.more _ (length payload) _ l.read (
    bind-Reads _ _ key _ key _ (recv_exact-Reads 4 key len) (
      read_last-Reads (length payload) (apply_mask key 0 payload)
        (λ p. (true, op, apply_mask key 0 p)) _ (length-apply_mask key 0 payload)
        (ap (λ p. (true, op, p)) (apply_mask-apply_mask key 0 payload))))
read_body-Reads op false payload key l len =
    bind-Reads _ _ l.more _ (length payload) _ l.read
      (read_last-Reads (length payload) payload (λ p. (true, op, p)) _ refl refl)

abbrev wire : {mask : Bool} → ℕ → Bytes → (payload : Bytes) → Sized mask (length payload) → Bytes
wire {mask} op key payload l =
    (bit_or 128 op ∷ bit_or (mask_bit_of mask) l.size ∷ []) ++ (l.more ++ sent mask key payload)

encode_frame-wire :
    (op : ℕ) (mask : Bool) (payload key : Bytes) (l : Sized mask (length payload))
    → elem op valid_opcodes ≡ true
    → encode_frame op payload mask key ≡ ok (wire op key payload l)
unfolding encode_frame
encode_frame-wire op mask payload key l valid =
    let (range, fin, reserved, code) = first_byte_facts op (valid_opcodes-below op valid) in
    rw (range, l.header)

read_frame-wire :
    (op : ℕ) (mask : Bool) (payload key : Bytes) (l : Sized mask (length payload))
    → elem op valid_opcodes ≡ true
    → (elem op control_opcodes ≡ true → length payload ≤ 125)
    → length key ≡ 4
    → Reads read_frame (wire op key payload l) (true, op, payload)
unfolding read_frame
read_frame-wire op mask payload key l valid control len =
    bind-Reads _ _ (bit_or 128 op ∷ bit_or (mask_bit_of mask) l.size ∷ []) _ _ _
      (recv_exact-Reads 2 (bit_or 128 op ∷ bit_or (mask_bit_of mask) l.size ∷ []) refl)
      (λ s rest e.
        let (s', read, left) = read_body-Reads op mask payload key l len s rest e in
        (
          s',
          bind-ok (lift (parse_head (bit_or 128 op) (bit_or (mask_bit_of mask) l.size))) read_body
                (final op mask l.size) s s
                (ap (λ r. (r, s))
                  (parse_head-encoded op mask l.size valid l.small
                    (λ c. omega (arith, l.short (control c), control c))))
              ∙ read,
          left,
        ))

sent-IsBytes :
    (mask : Bool) (key payload : Bytes)
    → IsBytes key
    → IsBytes payload
    → IsBytes (sent mask key payload)
sent-IsBytes true key payload hk hp =
    All-append IsByte key (apply_mask key 0 payload) hk (apply_mask-IsBytes key 0 payload hk hp)
sent-IsBytes false key payload hk hp = hp

length-sent :
    (mask : Bool) (key payload : Bytes)
    → length (sent mask key payload) ≤ length key + length payload
length-sent true key payload =
    omega (arith, length-append key (apply_mask key 0 payload), length-apply_mask key 0 payload)
length-sent false key payload = omega arith

-- A valid opcode and a payload that a frame can carry are encoded.
pub encode_frame-returns :
    (op : ℕ) (payload : Bytes) (mask : Bool) (key : Bytes)
    → elem op valid_opcodes ≡ true
    → length payload < 2 ^ 64
    → (frame : Bytes) × (encode_frame op payload mask key ≡ ok frame)
encode_frame-returns op payload mask key valid room =
    let l : Sized mask (length payload) = sized mask (length payload) room in
    (wire op key payload l, encode_frame-wire op mask payload key l valid)

-- For a valid opcode and a payload shorter than 2 ^ 64 encode_frame returns a byte string at most
-- 14 bytes longer than the payload.
pub encode_frame-ok :
    (op : ℕ) (payload : Bytes) (mask : Bool) (key : Bytes)
    → elem op valid_opcodes ≡ true
    → length payload < 2 ^ 64
    → IsBytes payload
    → length key ≡ 4
    → IsBytes key
    → (frame : Bytes) × (encode_frame op payload mask key ≡ ok frame)
      × IsBytes frame
      × (length frame ≤ length payload + 14)
encode_frame-ok op payload mask key valid room hp len hk =
    let l : Sized mask (length payload) = sized mask (length payload) room in
    let (range, fin, reserved, code) = first_byte_facts op (valid_opcodes-below op valid) in
    let (range', masked, size) = second_byte_facts mask l.size l.small in
    (
      wire op key payload l,
      encode_frame-wire op mask payload key l valid,
      (
        ltb→lt (bit_or 128 op) 256 range,
        (
          range',
          All-append IsByte l.more (sent mask key payload) l.bytes
              (sent-IsBytes mask key payload hk hp),
        ),
      ),
      omega (
        arith,
        l.bounded,
        length-append l.more (sent mask key payload),
        length-sent mask key payload,
        len,
      ),
    )

-- A frame that encode_frame returns for a valid opcode and a payload shorter than 2 ^ 64, at most
-- 125 bytes under a control opcode, with a masking key of four bytes, is read back by read_frame
-- as final, with its opcode and its payload, masked or not, whatever deliveries its bytes arrive
-- in, and the bytes after it stay on the stream.
pub read_frame-encode_frame :
    (op : ℕ) (payload : Bytes) (mask : Bool) (key frame rest : Bytes) (s : Socket)
    → elem op valid_opcodes ≡ true
    → (elem op control_opcodes ≡ true → length payload ≤ 125)
    → length payload < 2 ^ 64
    → length key ≡ 4
    → encode_frame op payload mask key ≡ ok frame
    → available s ≡ frame ++ rest
    → (s' : Socket) × (read_frame s ≡ (ok (true, op, payload), s')) × (available s' ≡ rest)
read_frame-encode_frame op payload mask key frame rest s valid control room len sends arrives =
    let l : Sized mask (length payload) = sized mask (length payload) room in
    let same : wire op key payload l ≡ frame =
      cc (encode_frame-wire op mask payload key l valid, sends) in
    read_frame-wire op mask payload key l valid control len s rest
      (arrives ∙ ap (λ (b : Bytes). b ++ rest) (sym same))
