-- ===== src/Transport/WebSocket.antt =====
-- The class WebSocket of transport/ws.py: messages over frames.
pub mod Stream
pub mod Loop
pub mod Receive
pub mod Messages
pub mod Closing
pub mod Channel
pub mod Sent
use priestly.Base.{
  ℕ, zero, suc, ◌+◌, ◌≤◌, Bool, true, false, not, Option, none, some, List, [], ◌∷◌, ◌++◌, ◌==◌,
  leb, if◌then◌else◌, length, take, drop, Exception, connection_closed, out_of_rounds,
  protocol_error, os_error, struct_error, Result, ok, raise, guard, Bytes, from_bytes, be_bytes,
}
use priestly.Base as Base
use priestly.Base.Int.{ℤ, pos, negsuc}
use priestly.Base.State.{Action, return, throw, throw_if, lift, proceed, ◌>>=◌, ◌>>◌}
use priestly.Python.Text.{Text}
use priestly.Python.Utf8.{encode, decode}
use priestly.Transport.Socket.{Socket}
use priestly.Transport.Socket.Exact.{available}
use priestly.Transport.Frame.{
  op_cont, op_text, op_binary, op_close, op_ping, op_pong, encode_frame, read_frame,
}

-- The object and its socket: what the peer has sent and what has been sent to it. `faults` says of
-- each call of sendall to come whether it raises OSError; past its end none does.
pub record WebSocket : Type 0 where
  pub incoming : Socket
  pub outgoing : Bytes
  pub faults : List Bool
  pub socket_closed : Bool
  pub drawn : ℕ
  pub is_client : Bool
  pub closed : Bool

-- What `recv` returns: a str or bytes.
pub data Message : Type 0 where
  text : Text → Message
  binary : Bytes → Message

-- The locals of the loop in `recv`.
pub record Partial : Type 0 where
  pub chunks : List Bytes
  pub message_opcode : Option ℕ

-- How a round of the loop ends.
pub data Round : Type 0 where
  again : Partial → Round
  finished : Message → Round

abbrev pub on_socket : {A : Type 0} → Action Socket A → Action WebSocket A
on_socket m ws = let (r, s) = m ws.incoming in (r, record ws { incoming = s })

abbrev pub nothing_yet : Partial
nothing_yet = record { chunks = []; message_opcode = none }

-- b"".join(chunks)
abbrev pub join : List Bytes → Bytes
join [] = []
join (c ∷ cs) = c ++ join cs

-- sock.sendall(data): an OSError may come after a part was sent, which the model leaves out.
unfoldable pub sendall : Bytes → Action WebSocket (Unit {0})
sendall data_ ws = elim ws.faults [
  | [] ↦ (ok tt, record ws { outgoing = ws.outgoing ++ data_ })
  | true ∷ rest ↦ (raise os_error, record ws { faults = rest })
  | false ∷ rest ↦ (ok tt, record ws { outgoing = ws.outgoing ++ data_; faults = rest })
]

-- `_parse_close`: the code; the reason only goes into the message of the exception.
unfoldable pub parse_close : Bytes → Option ℕ
parse_close payload = if leb 2 (length payload) then some (from_bytes (take 2 payload)) else none

-- struct.pack("!H", code)
unfoldable pub pack_code : ℤ → Result Bytes
pack_code (pos n) = if leb n 65535 then ok (be_bytes 2 n) else raise struct_error
pack_code (negsuc n) = raise struct_error

-- `message_opcode == OP_TEXT`
abbrev pub is_text : Option ℕ → Bool
is_text none = false
is_text (some op) = op == op_text

abbrev pub result_map : {A B : Type 0} → (A → B) → Result A → Result B
result_map f (ok a) = ok (f a)
result_map f (raise e) = raise e

unfoldable pub message_of : Partial → Result Message
message_of p =
    if is_text p.message_opcode
    then result_map text (decode (join p.chunks))
    else ok (binary (join p.chunks))

unfoldable pub mark_closed : Action WebSocket (Unit {0})
mark_closed ws = (ok tt, record ws { closed = true })

-- The chunk of a data frame, and the message if it was the last.
unfoldable pub gather : Partial → Bool → Bytes → Result Round
gather p fin payload =
    let p' = record p { chunks = p.chunks ++ (payload ∷ []) } in
    if fin then result_map finished (message_of p') else ok (again p')

-- `OP_CONT` goes on with the message that was started; any other opcode names the message anew.
unfoldable pub on_data : Partial → Bool → ℕ → Bytes → Result Round
on_data p fin opcode payload =
    if opcode == op_cont
    then elim p.message_opcode [ none ↦ raise protocol_error | some op ↦ gather p fin payload ]
    else gather (record p { message_opcode = some opcode }) fin payload

abbrev pub next_round : Round → (Partial → Action WebSocket Message) → Action WebSocket Message
next_round (again p) go = go p
next_round (finished m) go = return m

unfoldable pub close_payload : ℤ → Text → Result Bytes
close_payload code reason =
    Base.◌>>=◌ (pack_code code) λ head. Base.◌>>=◌ (encode reason) λ tail. ok (head ++ tail)

-- `except OSError: pass` and `finally`
unfoldable pub finish_close : Result (Unit {0}) × WebSocket → Result (Unit {0}) × WebSocket
finish_close (r, ws) = (forgive r, record ws { closed = true; socket_closed = true })
  where
    forgive : Result (Unit {0}) → Result (Unit {0})
    forgive (raise os_error) = ok tt
    forgive r = r

-- The bytes that the n-th call of os.urandom(4) gives.
module _ (urandom : ℕ → Bytes) where
  -- The frame, with a fresh masking key on the client's side.
  unfoldable pub encode_own : ℕ → Bytes → Action WebSocket Bytes
  encode_own opcode payload ws = (
    encode_frame opcode payload ws.is_client (urandom ws.drawn),
    record ws { drawn = if ws.is_client then ws.drawn + 1 else ws.drawn },
  )

  -- `_send`
  unfoldable pub send_frame : ℕ → Bytes → Action WebSocket (Unit {0})
  send_frame opcode payload ws =
      throw_if ws.closed (connection_closed none)
        (encode_own opcode payload >>= λ frame. sendall frame) ws

  unfoldable pub send : Text → Action WebSocket (Unit {0})
  send message = lift (encode message) >>= λ payload. send_frame op_text payload

  unfoldable pub send_bytes : Bytes → Action WebSocket (Unit {0})
  send_bytes payload = send_frame op_binary payload

  -- What the loop does with one frame.
  unfoldable pub on_frame : Partial → Bool × ℕ × Bytes → Action WebSocket Round
  on_frame p (fin, opcode, payload) =
      if opcode == op_close
      then (mark_closed >> throw (connection_closed (parse_close payload)))
      else (if opcode == op_ping
          then (send_frame op_pong payload >> return (again p))
          else (if opcode == op_pong
              then return (again p)
              else lift (on_data p fin opcode payload)))

  -- `while True`: each round reads a frame, which is two bytes at least, so one round more than
  -- there are bytes is enough.
  unfoldable pub receive : ℕ → Partial → Action WebSocket Message
  receive zero p = throw out_of_rounds
  receive (suc fuel) p =
      on_socket read_frame >>= λ frame. on_frame p frame >>= λ r. next_round r (receive fuel)

  unfoldable pub recv : Action WebSocket Message
  recv ws =
      throw_if ws.closed (connection_closed none)
        (receive (suc (length (available ws.incoming))) nothing_yet) ws

  -- `close`: an OSError is passed over, any other error comes after the socket is closed.
  unfoldable pub close : ℤ → Text → Action WebSocket (Unit {0})
  close code reason ws =
      if ws.closed
      then (ok tt, ws)
      else (lift (close_payload code reason) >>= λ payload.
            (λ w. finish_close ((encode_own op_close payload >>= λ frame. sendall frame) w)))
          ws
