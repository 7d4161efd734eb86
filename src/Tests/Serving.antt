-- ===== src/Tests/Serving.antt =====
-- The theorems on cli/relay.py and cli/server.py at concrete inputs.
use priestly.Base.{
  be_bytes, ℕ, ◌≡◌, refl, sym, ap, ◌∙◌, ◌⊎◌, Bool, true, false, Option, none, some, [], ◌∷◌,
  if◌then◌else◌, ok, raise, attribute_error, Bytes,
}
use mathlib.Core.Option as Option
use priestly.Base.State.{bind-ok}
use priestly.Base.Dict.{lookup, insert, update, Distinct}
use priestly.Python.Text.{Text, codes}
use priestly.Protocol.Packets.{Frame, hello, chat, dumps, loads}
use priestly.Python.Dictionary.{get_item}
use priestly.Transport.Socket.{Socket, chunk, recv_exact, recv_loop}
use priestly.Transport.Socket as Socket
use priestly.Transport.Frame.{
  read_frame, parse_head, read_body, read_length, encode_frame, length_header, apply_mask,
}
use priestly.Transport.WebSocket.{
  WebSocket, send, send_frame, encode_own, sendall, recv, receive, on_frame, on_data, gather,
  message_of,
}
use priestly.Python.Utf8.{encode, encode_char, decode, decode_from, next, lead}
use priestly.Config.{ServerConfig, password_required}
use priestly.Chat.Relay.{
  Member, ClientRegistry, broadcast, delivered, read_message, recipients, deliver_all, deliver,
  deliver_by, transmit, add,
}
use priestly.Chat.Relay.Fanout.{is_recipient, outcome, broadcast-outcome}
use priestly.Chat.Server.{
  Platform, node_password, receive_packet, send_packet, authenticate, str, digits, admit, greet,
  react, perform, on_packet, Reachable, starts, after, admitted,
}
use priestly.Chat.Server.Members.{is_some}
use priestly.Chat.Server.Admission.{reachable-Has}
use priestly.Chat.Server.Relaying.{IsOpened, IsPlain, taken, on_packet-relayed}
use priestly.Tests.Doubles.{greeting, serializer, counting_json}

abbrev connection : Socket → Bool → WebSocket
connection stream broken = record {
  incoming = stream;
  outgoing = [];
  faults = broken ∷ [];
  socket_closed = false;
  drawn = 0;
  is_client = false;
  closed = false;
}

abbrev connected : Bool → Member
connected broken = record {
  client = record { ws = connection [] broken; name = codes "user"; session = none };
  registered = true;
}

-- The third connection is broken.
abbrev three_clients : ClientRegistry
three_clients = (1, connected false) ∷ (2, connected false) ∷ (3, connected true) ∷ []

three_clients-Distinct : Distinct three_clients
unfolding lookup
three_clients-Distinct = (refl, (refl, (refl, tt)))

abbrev no_random : ℕ → Bytes
no_random n = []

abbrev platform : Platform
platform = record {
  urandom = no_random;
  json = counting_json;
  pydantic = serializer;
  message_of = λ e. [];
  environment = record { randbelow = λ n. 2; to_ascii = λ t. t; int_error = λ t. t };
}

broadcast-outcome_example :
    lookup 3
      (broadcast no_random counting_json serializer 1 (codes "hi") (codes "ann") three_clients)
    ≡ (if is_recipient 1 3 (lookup 3 three_clients)
        then Option.map
            (outcome no_random counting_json serializer (codes "hi") (codes "ann"))
            (lookup 3 three_clients)
        else lookup 3 three_clients)
broadcast-outcome_example =
    broadcast-outcome no_random counting_json serializer (codes "hi") (codes "ann") 1 3
      three_clients three_clients-Distinct

-- No dict has no `get`.
no_fields : read_message counting_json none ≡ raise attribute_error
no_fields = refl

-- The default of a sender.
anonymous : read_message counting_json (some []) ≡ ok ([], codes "anon")
unfolding get_item
anonymous = refl

abbrev spoken : Frame
spoken = chat (codes "hi") (codes "ann")

abbrev sent_to : Option Member → Bytes
sent_to none = []
sent_to (some m) = m.client.ws.outgoing

first_there : lookup 1 three_clients ≡ some (connected false)
unfolding lookup
first_there = refl

second_hears :
    sent_to (lookup 2 (on_packet platform 1 spoken three_clients).1)
    ≡ 129 ∷ 8 ∷ 1 ∷ 0 ∷ 2 ∷ 104 ∷ 105 ∷ 97 ∷ 110 ∷ 110 ∷ []
unfolding on_packet react perform broadcast recipients deliver_all delivered deliver deliver_by
    transmit update lookup insert dumps send send_frame encode_own encode_frame length_header
    apply_mask sendall encode encode_char be_bytes
second_hears = refl

second_changes : ¬ (lookup 2 (on_packet platform 1 spoken three_clients).1 ≡ lookup 2 three_clients)
unfolding lookup
second_changes e = cc (sym second_hears ∙ ap sent_to e)

on_packet-relayed_example :
    (text name : Text) × (IsOpened platform spoken (connected false).client text name
      ⊎ IsPlain platform spoken (connected false).client text name)
    × ((on_packet platform 1 spoken three_clients).1
        ≡ broadcast no_random counting_json serializer 1 text name
            (taken platform 1 spoken (connected false) three_clients))
on_packet-relayed_example =
    on_packet-relayed platform 1 2 spoken three_clients (connected false) refl first_there
      second_changes

abbrev open_node : ServerConfig
open_node = record { server_name = codes "n"; host = codes "h"; port = 8765; password = none }

no_password : node_password open_node ≡ ok none
unfolding node_password password_required
no_password = refl

-- The frame of a HELLO.
abbrev hello_stream : Socket
hello_stream = chunk 129 (2 ∷ []) ∷ chunk 1 (3 ∷ []) ∷ []

abbrev greeted : WebSocket
greeted = record (connection [] false) {
  outgoing = 129 ∷ 7 ∷ 1 ∷ 1 ∷ 0 ∷ 2 ∷ 111 ∷ 107 ∷ 110 ∷ [];
  faults = [];
}

abbrev heard : WebSocket
heard = connection [] false

hello_heard : receive_packet platform (connection hello_stream false) ≡ (ok (hello greeting), heard)
unfolding receive_packet recv receive read_frame recv_exact recv_loop Socket.recv parse_head
    read_body read_length on_frame on_data gather message_of decode decode_from next lead loads
hello_heard = refl

hello_answered :
    greet platform open_node none (hello greeting) heard
    ≡ (ok (some (codes "user42", none)), greeted)
unfolding greet send_packet authenticate dumps password_required str digits send send_frame
    encode_own encode_frame length_header apply_mask sendall encode encode_char be_bytes
hello_answered = refl

hello_admitted :
    admit platform open_node none (connection hello_stream false)
    ≡ (ok (some (codes "user42", none)), greeted)
unfolding admit
hello_admitted =
    bind-ok (receive_packet platform) (greet platform open_node none) (hello greeting)
      (connection hello_stream false) heard hello_heard
    ∙ hello_answered

abbrev newcomer : Member
newcomer = record {
  client = record { ws = greeted; name = codes "user42"; session = none };
  registered = true;
}

newcomer-Reachable : Reachable platform open_node none ((5, newcomer) ∷ [])
unfolding add insert
newcomer-Reachable = after _ _ starts (
    admitted 5 (connection hello_stream false) greeted (codes "user42") none []
      (unfold lookup in refl) hello_admitted)

newcomer_there : lookup 5 ((5, newcomer) ∷ []) ≡ some newcomer
unfolding lookup
newcomer_there = refl

reachable-Has_example : is_some newcomer.client.session ≡ password_required open_node
reachable-Has_example =
    reachable-Has platform open_node none ((5, newcomer) ∷ []) 5 newcomer no_password
      newcomer-Reachable newcomer_there
