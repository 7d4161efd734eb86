-- ===== src/Tests/Listening.antt =====
-- The theorem on a delivery of cli/relay.py and its receipt in cli/chat_client.py at a concrete input.
use priestly.Base.{
  ◌+◌, ◌<◌, ◌^◌, ◌≡◌, refl, ap, Bool, true, false, none, some, [], ◌∷◌, ◌++◌, arith, Result, ok,
  Bytes,
}
use priestly.Base.Int.{pos}
use priestly.Python.Text.{codes}
use priestly.Python.Base64.{b64encode}
use priestly.Python.Utf8.{encode, encode_char}
use priestly.Crypto.HmacSha256.{sign}
use priestly.Crypto.Covenant.{Keys}
use priestly.Protocol.Packets.{dumps}
use priestly.Protocol.Session.{SessionState, start, seal}
use priestly.Protocol.Session.Channel.{Paired, start-Paired}
use priestly.Transport.Socket.{Socket, chunk}
use priestly.Transport.Socket.Exact.{available}
use priestly.Transport.Frame.{encode_frame, length_header}
use priestly.Transport.WebSocket.{WebSocket, send, send_frame, encode_own, sendall}
use priestly.Transport.WebSocket.Receive.{IsUsable}
use priestly.Chat.Relay.{
  RegisteredClient, encode_message, deliver, deliver_by, transmit, transmit_sealed,
}
use priestly.Chat.Server.{Platform}
use priestly.Chat.Client.{ChatClient, receive_message}
use priestly.Chat.Client.Arrival.{deliver-receive_message}
use priestly.Tests.Doubles.{serializer, counting_json}

abbrev platform : Platform
platform = record {
  urandom = λ n. 1 ∷ 2 ∷ 3 ∷ 4 ∷ [];
  json = counting_json;
  pydantic = serializer;
  message_of = λ e. [];
  environment = record { randbelow = λ n. 2; to_ascii = λ t. t; int_error = λ t. t };
}

abbrev keys : Keys
keys = record {
  client_write = 1 ∷ [];
  server_write = 2 ∷ [];
  client_mac = 3 ∷ [];
  server_mac = 4 ∷ [];
}

abbrev at_server : SessionState
at_server = start keys false false

abbrev at_client : SessionState
at_client = start keys true false

abbrev end_of : Bool → Socket → WebSocket
end_of is_client stream = record {
  incoming = stream;
  outgoing = [];
  faults = [];
  socket_closed = false;
  drawn = 0;
  is_client = is_client;
  closed = false;
}

abbrev recipient : RegisteredClient
recipient = record { ws = end_of false []; name = codes "user1"; session = some at_server }

abbrev delivery : Result (Unit {0}) × RegisteredClient
delivery = deliver platform.urandom counting_json serializer (codes "a") (codes "b") recipient

delivered : delivery.0 ≡ ok tt
unfolding deliver deliver_by transmit encode_message encode transmit_sealed seal start dumps send
    b64encode encode_char sign send_frame encode_own encode_frame length_header sendall
delivered = refl

abbrev in_one : Bytes → Socket
in_one [] = []
in_one (b ∷ bs) = chunk b bs ∷ []

available-in_one : (bs : Bytes) → available (in_one bs) ≡ bs ++ []
available-in_one [] = refl
available-in_one (b ∷ bs) = refl

abbrev listener : ChatClient
listener = record {
  ws = end_of true (in_one delivery.1.ws.outgoing);
  session = some at_client;
  server_name = none;
  password_required = true;
}

seq_room : at_server.tx_seq + 1 < 2 ^ 64
unfolding start
seq_room = omega arith

deliver-receive_message_example :
    let s' = record at_server { tx_seq = at_server.tx_seq + 1 } in
    let r' = record at_client { rx_seq = pos (at_server.tx_seq + 1) } in
    (w : WebSocket) × (receive_message platform listener
      ≡ (ok (codes "a", codes "b"), record listener { ws = w; session = some r' }))
    × (delivery.1.session ≡ some s')
    × Paired s' r'
    × (available w.incoming ≡ [])
    × IsUsable w
deliver-receive_message_example =
    deliver-receive_message platform (codes "a") (codes "b") delivery.1.ws.outgoing [] at_server
      at_client recipient delivery.1 listener refl refl (start-Paired keys false false false)
      (omega arith) seq_room refl (refl, refl) (refl, refl)
      (ap (λ (r : Result (Unit {0})). (r, delivery.1)) delivered) refl
      (available-in_one delivery.1.ws.outgoing)
