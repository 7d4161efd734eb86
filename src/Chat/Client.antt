-- ===== src/Chat/Client.antt =====
-- cli/chat_client.py: one connection of a client, from HELLO to the messages.
pub mod Arrival
use priestly.Base.{
  Bool, true, false, Option, none, some, ◌++◌, if◌then◌else◌, Result, ok, raise, protocol_error,
  Bytes,
}
use priestly.Base as Base
use priestly.Base.Int.{ℤ, pos}
use priestly.Base.State.{Action, return, throw, lift, proceed, ◌>>=◌, ◌>>◌}
use priestly.Python.Text.{Text, codes}
use priestly.Protocol.Packets.{
  Datetime, Handshake, SealedFrame, Frame, hello, hello_ack, sealed, chat,
}
use priestly.Protocol.Session.{SessionState, seal, open_frame}
use priestly.Protocol.Covenant.{run_client}
use priestly.Transport.WebSocket.{WebSocket}
use priestly.Chat.Relay.{encode_message, decode_message}
use priestly.Chat.Server.{Platform, send_packet, receive_packet, drive}

pub record ChatClient : Type 0 where
  pub ws : WebSocket
  pub session : Option SessionState
  pub server_name : Option Text
  pub password_required : Bool

-- `__init__`
abbrev pub connected : WebSocket → ChatClient
connected ws = record { ws = ws; session = none; server_name = none; password_required = false }

abbrev pub on_connection : {A : Type 0} → Action WebSocket A → Action ChatClient A
on_connection m c = let (r, w) = m c.ws in (r, record c { ws = w })

-- What HELLO_ACK tells, or the client's ProtocolError.
unfoldable pub record_ack : Frame → Action ChatClient Frame
record_ack (hello_ack status name required) c = (
  ok (hello_ack status name required),
  record c { server_name = some name; password_required = required },
)
record_ack f c = (raise protocol_error, c)

-- At a time `now`.
abbrev pub greeting : Datetime → ℤ → ℤ → Handshake
greeting now user_id device_id = record {
  id = pos 1;
  user_id = user_id;
  device_id = device_id;
  timestamp = now;
  status = codes "init";
}

module _ (platform : Platform) where
  -- `hello`
  unfoldable pub say_hello : Datetime → ℤ → ℤ → Action ChatClient Frame
  say_hello now user_id device_id =
      on_connection (send_packet platform (hello (greeting now user_id device_id)))
      >> (on_connection (receive_packet platform) >>= record_ack)

  abbrev pub take_session : Result SessionState → ChatClient → Result (Unit {0}) × ChatClient
  take_session (ok s) c = (ok tt, record c { session = some s })
  take_session (raise e) c = (raise e, c)

  unfoldable pub authenticate : Bytes → Action ChatClient (Unit {0})
  authenticate password c =
      let (r, c') = on_connection (drive platform (run_client platform.environment password)) c in
      take_session r c'

  -- Sealing with the client's session.
  unfoldable pub send_sealed : SessionState → Bytes → Action ChatClient (Unit {0})
  send_sealed s plaintext c =
      let (r, s') = seal s plaintext in
      proceed r (λ frame. on_connection (send_packet platform (sealed frame)))
        (record c { session = some s' })

  abbrev pub send_by : Text → Text → Option SessionState → Action ChatClient (Unit {0})
  send_by text sender none = on_connection (send_packet platform (chat text sender))
  send_by text sender (some s) = proceed (encode_message platform.json text sender) (send_sealed s)

  -- `send`
  unfoldable pub send_message : Text → Text → Action ChatClient (Unit {0})
  send_message text sender c = send_by text sender c.session c

  unfoldable pub open_with : SealedFrame → Option SessionState → Action ChatClient (Text × Text)
  open_with frame none c = (raise protocol_error, c)
  open_with frame (some s) c =
      let (r, s') = open_frame s frame in
      (Base.◌>>=◌ r (decode_message platform.json), record c { session = some s' })

  unfoldable pub read_message : Frame → Action ChatClient (Text × Text)
  read_message (sealed frame) c = open_with frame c.session c
  read_message (chat text sender) c = (ok (text, sender), c)
  read_message f c = (raise protocol_error, c)

  -- `receive`
  unfoldable pub receive_message : Action ChatClient (Text × Text)
  receive_message = on_connection (receive_packet platform) >>= read_message
