-- ===== src/Tests/Sessions.antt =====
-- The theorems on protocol/session.py at concrete inputs.
use priestly.Base.{
  ◌+◌, ◌^◌, ◌≤◌, ◌<◌, ◌≡◌, ◌≢◌, ap, get_or, ◌⊎◌, Exception, Bool, true, false, List, [], ◌∷◌, arith,
  length, ok, raise, Bytes, IsBytes, replay_error, authentication_error,
}
use priestly.Base.Int.{pos}
use priestly.Python.Text.{Text, codes}
use priestly.Protocol.Packets.{SealedFrame}
use priestly.Crypto.Covenant.{Keys}
use priestly.Protocol.Session.{SessionState, start, pack, unpack, seal, open_frame}
use priestly.Protocol.Session.Pack.{unpack-pack}
use priestly.Protocol.Session.Channel.{
  Paired, start-Paired, open_frame-seal, transmit, transmit-arrived,
}
use priestly.Protocol.Session.Replay.{feed, replay_refused}
use priestly.Protocol.Session.Checks.{
  IsAuthentic, open_frame-IsAuthentic, open_frame-recorded, IsGenuine, reflection_refused,
}

abbrev session_keys : Keys
session_keys = record {
  client_write = 1 ∷ [];
  server_write = 2 ∷ [];
  client_mac = 3 ∷ [];
  server_mac = 4 ∷ [];
}

abbrev client : SessionState
client = start session_keys true true

abbrev server : SessionState
server = start session_keys false false

abbrev greeting : Bytes
greeting = codes "hello"

unpack-pack_example :
    (body : Bytes) × (pack greeting ≡ ok body)
    × (unpack body ≡ ok greeting)
    × (length body ≤ length greeting + 1)
    × IsBytes body
unpack-pack_example = unpack-pack greeting (omega arith) (omega arith)

tx_room : client.tx_seq + 1 < 2 ^ 64
unfolding start
tx_room = omega arith

open_frame-seal_example :
    (frame : SealedFrame) × (seal client greeting
      ≡ (ok frame, record client { tx_seq = client.tx_seq + 1 }))
    × (open_frame server frame ≡ (ok greeting, record server { rx_seq = pos (client.tx_seq + 1) }))
    × Paired
        (record client { tx_seq = client.tx_seq + 1 })
        (record server { rx_seq = pos (client.tx_seq + 1) })
open_frame-seal_example =
    open_frame-seal client server greeting (start-Paired session_keys true true false) (omega arith)
      (omega arith) tx_room

-- The second of three frames is lost.
abbrev script : List (Bool × Bytes)
script = (true, greeting) ∷ (false, 1 ∷ []) ∷ (true, 2 ∷ 3 ∷ []) ∷ []

script_room : client.tx_seq + length script < 2 ^ 64
unfolding start
script_room = omega arith

transmit-arrived_example : transmit client server script ≡ ok (greeting ∷ (2 ∷ 3 ∷ []) ∷ [])
transmit-arrived_example =
    transmit-arrived client server script (start-Paired session_keys true true false) (omega arith)
      script_room

abbrev first_frame : SealedFrame
first_frame =
    (open_frame-seal client server greeting (start-Paired session_keys true true false)
      (omega arith) (omega arith) tx_room).0

first_opened :
    open_frame server first_frame
    ≡ (ok greeting, record server { rx_seq = pos (client.tx_seq + 1) })
first_opened =
    (open_frame-seal client server greeting (start-Paired session_keys true true false)
      (omega arith) (omega arith) tx_room).2

first_text : (open_frame server first_frame).0 ≡ ok greeting
first_text = λ i. (first_opened i).0

first_sent : (seal client greeting).0 ≡ ok first_frame
first_sent = λ i.
    ((open_frame-seal client server greeting (start-Paired session_keys true true false)
        (omega arith) (omega arith) tx_room).1
      i).0

replay_refused_example :
    open_frame (feed (open_frame server first_frame).1 (first_frame ∷ [])) first_frame
    ≡ (raise replay_error, feed (open_frame server first_frame).1 (first_frame ∷ []))
replay_refused_example = replay_refused server first_frame (first_frame ∷ []) first_text

open_frame-IsAuthentic_example :
    IsAuthentic server first_frame greeting
    × (record server { rx_seq = pos (client.tx_seq + 1) }
        ≡ record server { rx_seq = first_frame.seq })
open_frame-IsAuthentic_example =
    open_frame-IsAuthentic server (record server { rx_seq = pos (client.tx_seq + 1) }) first_frame
      greeting first_opened

open_frame-recorded_example :
    ((e : Exception) × (open_frame server first_frame ≡ (raise e, server)))
    ⊎ ((body : Bytes) × IsGenuine server first_frame body
        × (open_frame server first_frame
            ≡ (unpack body, record server { rx_seq = first_frame.seq })))
open_frame-recorded_example = open_frame-recorded server first_frame

client_sides : client.tx_dir ≢ client.rx_dir
unfolding start
client_sides e = omega (arith, ap (λ (t : Text). get_or t 0 0) e)

reflection_refused_example : open_frame client first_frame ≡ (raise authentication_error, client)
reflection_refused_example = reflection_refused client client greeting client_sides first_sent
