-- ===== src/Transport/Frame.antt =====
-- The frame codec of transport/ws.py: `encode_frame` and `read_frame`.
pub mod Header
pub mod Masking
pub mod Wire
use priestly.Base.{
  ℕ, suc, ◌%◌, ◌^◌, Bool, true, false, not, ◌||◌, List, [], ◌∷◌, ◌++◌, ltb, leb, ◌==◌,
  if◌then◌else◌, length, get_or, protocol_error, value_error, struct_error, Result, ok, guard,
  ◌>>=◌, ◌>>◌, Bytes, be_bytes, from_bytes, bit_and, bit_or, bit_xor,
}
use priestly.Base.State as State
use priestly.Base.State.{Action, lift}
use priestly.Transport.Socket.{Socket, recv_exact}

abbrev pub op_cont : ℕ
op_cont = 0

abbrev pub op_text : ℕ
op_text = 1

abbrev pub op_binary : ℕ
op_binary = 2

abbrev pub op_close : ℕ
op_close = 8

abbrev pub op_ping : ℕ
op_ping = 9

abbrev pub op_pong : ℕ
op_pong = 10

abbrev pub valid_opcodes : List ℕ
valid_opcodes = op_cont ∷ op_text ∷ op_binary ∷ op_close ∷ op_ping ∷ op_pong ∷ []

abbrev pub control_opcodes : List ℕ
control_opcodes = op_close ∷ op_ping ∷ op_pong ∷ []

-- `x in xs`
abbrev pub elem : ℕ → List ℕ → Bool
elem x [] = false
elem x (y ∷ ys) = (x == y) || elem x ys

-- bytes(b ^ masking_key[i % 4] for i, b in enumerate(payload)), from the index `i` on
unfoldable pub apply_mask : Bytes → ℕ → Bytes → Bytes
apply_mask key i [] = []
apply_mask key i (b ∷ bs) = bit_xor b (get_or key (i % 4) 0) ∷ apply_mask key (suc i) bs

-- The length after the first byte: in seven bits, or `!H`, or `!Q`.
unfoldable pub length_header : ℕ → ℕ → Result Bytes
length_header mask_bit n =
    if ltb n 126
    then ok (bit_or mask_bit n ∷ [])
    else (if ltb n 65536
        then ok (bit_or mask_bit 126 ∷ be_bytes 2 n)
        else (guard (ltb n (2 ^ 64)) struct_error >> ok (bit_or mask_bit 127 ∷ be_bytes 8 n)))

abbrev pub mask_bit_of : Bool → ℕ
mask_bit_of mask = if mask then 128 else 0

-- With the four bytes that os.urandom(4) gives, which are used only under `mask`.
unfoldable pub encode_frame : ℕ → Bytes → Bool → Bytes → Result Bytes
encode_frame opcode payload mask masking_key = do
  guard (ltb (bit_or 128 opcode) 256) value_error
  header ← length_header (mask_bit_of mask) (length payload)
  ok (
      bit_or 128 opcode
      ∷ (header ++ (if mask then masking_key ++ apply_mask masking_key 0 payload else payload)))

-- What the first two bytes say.
pub record Head : Type 0 where
  pub fin : Bool
  pub opcode : ℕ
  pub masked : Bool
  pub size : ℕ

-- The part of `read_frame` on the first two bytes.
unfoldable pub parse_head : ℕ → ℕ → Result Head
parse_head b0 b1 = do
  let fin = not (bit_and b0 128 == 0)
  guard (bit_and b0 112 == 0) protocol_error
  let opcode = bit_and b0 15
  guard (elem opcode valid_opcodes) protocol_error
  let masked = not (bit_and b1 128 == 0)
  let size = bit_and b1 127
  guard (not (elem opcode control_opcodes) || fin) protocol_error
  guard (not (elem opcode control_opcodes) || leb size 125) protocol_error
  ok (record { fin = fin; opcode = opcode; masked = masked; size = size })

-- The length that the seven bits stand for, read on if they are 126 or 127.
unfoldable pub read_length : ℕ → Action Socket ℕ
read_length size =
    if size == 126
    then State.◌>>=◌ (recv_exact 2) (λ b. State.return (from_bytes b))
    else (if size == 127
        then State.◌>>=◌ (recv_exact 8) (λ b. State.return (from_bytes b))
        else State.return size)

-- The part of `read_frame` after the checks.
unfoldable pub read_body : Head → Action Socket (Bool × ℕ × Bytes)
read_body head = State.◌>>=◌ (read_length head.size) λ n.
    State.◌>>=◌ (if head.masked then recv_exact 4 else State.return []) λ masking_key.
      State.◌>>=◌ (recv_exact n) λ payload.
        State.return
          (head.fin, head.opcode, if head.masked then apply_mask masking_key 0 payload else payload)

unfoldable pub read_frame : Action Socket (Bool × ℕ × Bytes)
read_frame =
    State.◌>>=◌ (recv_exact 2)
      λ b. State.◌>>=◌ (lift (parse_head (get_or b 0 0) (get_or b 1 0))) λ head. read_body head
