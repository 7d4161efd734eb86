-- ===== src/Tests/Frames.antt =====
-- The theorems on transport/ws.py at concrete inputs.
use priestly.Base.{
  Result, List, some, ℕ, ◌≡◌, refl, Bool, true, false, [], ◌∷◌, arith, ok, Bytes, be_bytes,
}
use priestly.Base.Int.{pos}
use priestly.Python.Text.{codes}
use priestly.Python.Utf8.{encode, encode_char, decode, decode_from, next, lead}
use priestly.Transport.Socket as Socket
use priestly.Transport.Socket.{Socket, chunk, failure, recv_loop, recv_exact}
use priestly.Transport.Socket.Exact.{available}
use priestly.Transport.Frame.{
  encode_frame, length_header, apply_mask, read_frame, read_body, read_length, parse_head, op_text,
  op_ping,
}
use priestly.Transport.Frame.Wire.{read_frame-encode_frame}
use priestly.Transport.WebSocket.{
  WebSocket, Message, text, close_payload, pack_code, send, send_frame, encode_own, sendall, recv,
  close, nothing_yet, message_of,
}
use priestly.Transport.WebSocket.Loop.{Runs, recv-Runs}
use priestly.Transport.WebSocket.Receive.{
  Frames, none_left, next_read, final, ping, start, IsUsable, started,
}
use priestly.Transport.WebSocket.Channel.{Operation, put, get, queued, exchanged, exchanged-queued}
use priestly.Transport.WebSocket.Messages.{recv-Fragmented, recv-send}
use priestly.Transport.WebSocket.Closing.{
  close-ends, Call, sends, receives, closes, after_calls, after_calls-close,
}

abbrev key : Bytes
key = 1 ∷ 2 ∷ 3 ∷ 4 ∷ []

abbrev urandom : ℕ → Bytes
urandom n = key

abbrev pieces : Socket
pieces = chunk 1 (2 ∷ 3 ∷ []) ∷ chunk 4 (5 ∷ []) ∷ failure ∷ []

-- The masked frame of "hi".
abbrev hi_frame : Bytes
hi_frame = 129 ∷ 130 ∷ 1 ∷ 2 ∷ 3 ∷ 4 ∷ 105 ∷ 107 ∷ []

hi_encoded : encode_frame op_text (codes "hi") true key ≡ ok hi_frame
unfolding encode_frame length_header apply_mask
hi_encoded = refl

abbrev hi_stream : Socket
hi_stream = chunk 129 (130 ∷ 1 ∷ []) ∷ chunk 2 (3 ∷ 4 ∷ 105 ∷ 107 ∷ 7 ∷ []) ∷ []

read_frame-encode_frame_example :
    (s' : Socket) × (read_frame hi_stream ≡ (ok (true, op_text, codes "hi"), s'))
    × (available s' ≡ 7 ∷ [])
read_frame-encode_frame_example =
    read_frame-encode_frame op_text (codes "hi") true key hi_frame (7 ∷ []) hi_stream refl
      (λ c. absurd (cc c)) (omega arith) refl hi_encoded refl

abbrev end_of : Bool → Socket → WebSocket
end_of is_client s = record {
  incoming = s;
  outgoing = [];
  faults = [];
  socket_closed = false;
  drawn = 0;
  is_client = is_client;
  closed = false;
}

recv-Runs_example :
    Runs urandom nothing_yet (end_of false hi_stream) (recv urandom (end_of false hi_stream))
    × ((out : Result Message × WebSocket)
        → Runs urandom nothing_yet (end_of false hi_stream) out
        → recv urandom (end_of false hi_stream) ≡ out)
recv-Runs_example = recv-Runs urandom (end_of false hi_stream) refl

-- "h", a ping and "i", which ends the message.
abbrev three_frames : Socket
three_frames = chunk 1 (1 ∷ 104 ∷ []) ∷ chunk 137 (0 ∷ 128 ∷ []) ∷ chunk 1 (105 ∷ []) ∷ []

abbrev after_one : Socket
after_one = chunk 137 (0 ∷ 128 ∷ []) ∷ chunk 1 (105 ∷ []) ∷ []

abbrev after_two : Socket
after_two = chunk 128 [] ∷ chunk 1 (105 ∷ []) ∷ []

three_read :
    Frames three_frames
      ((false, op_text, codes "h") ∷ (true, op_ping, []) ∷ (true, 0, codes "i") ∷ [])
      []
unfolding read_frame parse_head read_body read_length recv_exact recv_loop Socket.recv
three_read =
    next_read {s' = after_one} refl (next_read {s' = after_two} refl (next_read refl none_left))

hi_message : message_of (started op_text (codes "h" ∷ codes "i" ∷ [])) ≡ ok (text (codes "hi"))
unfolding message_of decode decode_from next lead
hi_message = refl

recv-Fragmented_example :
    (ws' : WebSocket) × (recv urandom (end_of true three_frames) ≡ (ok (text (codes "hi")), ws'))
    × (ws'.incoming ≡ [])
    × IsUsable ws'
recv-Fragmented_example =
    recv-Fragmented urandom true (codes "h" ∷ codes "i" ∷ [])
      ((false, op_text, codes "h") ∷ (true, op_ping, []) ∷ (true, 0, codes "i") ∷ [])
      (text (codes "hi")) [] (end_of true three_frames)
      (start (codes "h") (ping [] (omega arith) (final (codes "i")))) three_read (refl, refl)
      hi_message

hi_sent :
    send urandom (codes "hi") (end_of true [])
    ≡ (ok tt, record (end_of true []) { outgoing = hi_frame; drawn = 1 })
unfolding send send_frame encode_own encode_frame length_header apply_mask sendall encode
    encode_char
hi_sent = refl

hi_encodes : encode (codes "hi") ≡ ok (codes "hi")
unfolding encode encode_char
hi_encodes = refl

recv-send_example :
    (to' : WebSocket) × (recv urandom (end_of false hi_stream) ≡ (ok (text (codes "hi")), to'))
    × (available to'.incoming ≡ 7 ∷ [])
    × IsUsable to'
recv-send_example =
    recv-send urandom (codes "hi") (codes "hi") hi_frame (7 ∷ []) (end_of true [])
      (end_of false hi_stream) (record (end_of true []) { outgoing = hi_frame; drawn = 1 })
      hi_encodes (omega arith) refl (refl, refl) (refl, refl) hi_sent refl refl

close_encodes : close_payload (pos 1000) [] ≡ ok (3 ∷ 232 ∷ [])
unfolding close_payload pack_code encode be_bytes
close_encodes = refl

-- Closing a connection that is broken already.
abbrev broken_end : WebSocket
broken_end = record (end_of true []) { faults = true ∷ [] }

close-ends_example :
    (ws' : WebSocket) × (close urandom (pos 1000) [] broken_end ≡ (ok tt, ws'))
    × (ws'.closed ≡ true)
    × (ws'.socket_closed ≡ true)
close-ends_example =
    close-ends urandom (pos 1000) [] (3 ∷ 232 ∷ []) broken_end refl close_encodes (omega arith)

-- A text, a receipt and a Close after the closing.
abbrev late_calls : List Call
late_calls = sends (codes "hi") ∷ receives ∷ closes (pos 1001) [] ∷ []

after_calls-close_example :
    after_calls urandom late_calls (close urandom (pos 1000) [] (end_of true hi_stream)).1
    ≡ (close urandom (pos 1000) [] (end_of true hi_stream)).1
after_calls-close_example =
    after_calls-close urandom late_calls (pos 1000) [] (3 ∷ 232 ∷ []) (end_of true hi_stream) refl
      close_encodes (omega arith)

-- Two texts, of which the first is read before the second is sent.
abbrev turns : List Operation
turns = put (codes "hi") ∷ get ∷ put (codes "h") ∷ get ∷ []

h_encodes : encode (codes "h") ≡ ok (codes "h")
unfolding encode encode_char
h_encodes = refl

turns-queued : queued [] turns ≡ some (codes "hi" ∷ codes "h" ∷ [])
unfolding queued
turns-queued = refl

exchanged-queued_example :
    exchanged urandom (end_of true []) (end_of false []) turns ≡ ok (codes "hi" ∷ codes "h" ∷ [])
exchanged-queued_example =
    exchanged-queued urandom (λ n. refl) turns (end_of true []) (end_of false [])
      (codes "hi" ∷ codes "h" ∷ [])
      ((codes "hi", hi_encodes, omega arith), (tt, ((codes "h", h_encodes, omega arith), (tt, tt))))
      (refl, refl) (refl, refl) refl turns-queued
