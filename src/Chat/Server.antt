-- ===== src/Chat/Server.antt =====
-- cli/server.py: the session of one connection and the message loop, over the registry of all.
pub mod Relaying
pub mod Members
pub mod Admission
use priestly.Base.{
  ℕ, zero, suc, ◌≡◌, Bool, true, false, Option, none, some, List, [], ◌∷◌, ◌++◌, ◌+◌, ◌*◌, ◌/◌, ◌%◌,
  ◌==◌, if◌then◌else◌, take, Result, ok, raise, Exception, value_error, key_error,
  authentication_error, replay_error, covenant_error, Bytes,
}
use priestly.Base as Base
use priestly.Base.Int.{ℤ, pos, negsuc}
use priestly.Base.State.{Action, return, throw, lift, proceed, ◌>>=◌, ◌>>◌}
use priestly.Base.Dict.{lookup, insert, update}
use priestly.Python.Text.{Text, codes, text_eq}
use priestly.Python.Utf8.{encode, decode}
use priestly.Protocol.Packets.{
  Handshake, SealedFrame, Frame, hello, hello_ack, error, sealed, chat, Pydantic, dumps, loads,
}
use priestly.Protocol.Session.{SessionState, open_frame}
use priestly.Protocol.Process.{Process, finished, sending, receiving}
use priestly.Protocol.Covenant.{Environment, run_server}
use priestly.Transport.WebSocket as WebSocket
use priestly.Transport.WebSocket.{WebSocket, Message, send, recv}
use priestly.Config.{ServerConfig, password_required}
use priestly.Chat.Relay.{
  Json, RegisteredClient, Member, ClientRegistry, add, remove, on_ws, decode_message, delivered,
  broadcast,
}

-- str(n), by the digits of a natural number from the last on.
unfoldable pub digits : ℕ → ℕ → Text → Text
digits zero n acc = acc
digits (suc fuel) n acc =
    let more = digits fuel (n / 10) ((n % 10 + 48) ∷ acc) in
    if n / 10 == 0 then (n % 10 + 48) ∷ acc else more

unfoldable pub str : ℤ → Text
str (pos n) = digits (suc n) n []
str (negsuc n) = 45 ∷ digits (suc (suc n)) (suc n) []

-- `raw if isinstance(raw, str) else raw.decode("utf-8")`
abbrev pub text_of : Message → Result Text
text_of (WebSocket.text t) = ok t
text_of (WebSocket.binary b) = decode b

-- `sender or name`
abbrev pub or_name : Text → Text → Text
or_name [] name = name
or_name (c ∷ t) name = c ∷ t

abbrev pub password_bytes : Bool → Option Text → Result (Option Bytes)
password_bytes required none = ok none
password_bytes required (some t) =
    if required then Base.◌>>=◌ (encode t) (λ b. ok (some b)) else ok none

-- `password` in make_handler.
unfoldable pub node_password : ServerConfig → Result (Option Bytes)
node_password cfg = password_bytes (password_required cfg) cfg.password

-- What a connection has told of itself: its name, and its session if the node asks for one.
abbrev pub Admitted : Type 0
Admitted = Text × Option SessionState

-- What comes of a frame: an answer to the client itself, or a message for the others.
pub data Reaction : Type 0 where
  answer : (code : ℤ) (reason : Text) → Reaction
  relay : (text sender : Text) → Reaction

-- os.urandom, json, pydantic, the messages of exceptions, and what the handshake draws on.
pub record Platform : Type 1 where
  pub urandom : ℕ → Bytes
  pub json : Json
  pub pydantic : Pydantic
  pub message_of : Exception → Text
  pub environment : Environment

module _ (platform : Platform) where
  -- `ws.send(dumps(frame))`
  unfoldable pub send_packet : Frame → Action WebSocket (Unit {0})
  send_packet frame = lift (dumps platform.pydantic frame) >>= λ t. send platform.urandom t

  -- `_recv_frame`
  unfoldable pub receive_packet : Action WebSocket Frame
  receive_packet =
      recv platform.urandom >>= λ raw. lift (text_of raw) >>= λ t. lift (loads platform.pydantic t)

  -- A driver of the handshake on this connection.
  unfoldable pub drive : {A : Type 0} → Process A → Action WebSocket A
  drive (finished r) ws = (r, ws)
  drive (sending f k) ws = let (r, ws') = send_packet f ws in drive (k r) ws'
  drive (receiving k) ws = let (r, ws') = receive_packet ws in drive (k r) ws'

  -- `except covenant.CovenantError`: the connection is left.
  abbrev pub authenticated : Bool → Text → Result SessionState → Result (Option Admitted)
  authenticated is_browser name (ok s) =
      ok (some (name, some (if is_browser then record s { compress = false } else s)))
  authenticated is_browser name (raise covenant_error) = ok none
  authenticated is_browser name (raise e) = raise e

  -- Step 2 of `handle_session`.
  unfoldable pub authenticate : Option Bytes → Bool → Text → Action WebSocket (Option Admitted)
  authenticate none is_browser name ws = (ok (some (name, none)), ws)
  authenticate (some password) is_browser name ws =
      let (r, ws') = drive (run_server platform.environment password) ws in
      (authenticated is_browser name r, ws')

  -- From the first frame on.
  unfoldable pub greet : ServerConfig → Option Bytes → Frame → Action WebSocket (Option Admitted)
  greet cfg password (hello handshake) =
      send_packet (hello_ack (codes "ok") cfg.server_name (password_required cfg))
      >> authenticate password (text_eq handshake.status (codes "browser"))
          (codes "user" ++ str handshake.user_id)
  greet cfg password f = send_packet (error (pos 400) (codes "expected HELLO")) >> return none

  -- Steps 1 and 2: `none` where the handler returns.
  unfoldable pub admit : ServerConfig → Option Bytes → Action WebSocket (Option Admitted)
  admit cfg password = receive_packet >>= greet cfg password

  -- A call on the client object of a connection.
  abbrev pub on_member :
      {A : Type 0} → ℕ → Action RegisteredClient A → Option Member → Action ClientRegistry A
  on_member id act none hub = (raise key_error, hub)
  on_member id act (some m) hub =
      let (r, c) = act m.client in (r, insert id (record m { client = c }) hub)

  abbrev pub on_client : {A : Type 0} → ℕ → Action RegisteredClient A → Action ClientRegistry A
  on_client id act hub = on_member id act (lookup id hub) hub

  -- `ws.send(dumps(ErrorFrame(...)))` on a client's connection.
  abbrev pub report : ℤ → Text → Action RegisteredClient (Unit {0})
  report code reason = on_ws (send_packet (error code reason))

  -- f"bad sealed frame: {exc}"[:120]
  abbrev pub refusal : Exception → Reaction
  refusal e = answer (pos 400) (take 120 (codes "bad sealed frame: " ++ platform.message_of e))

  -- `except (AuthenticationError, ReplayError, ValueError)`
  unfoldable pub bad_sealed : Text → Result (Text × Text) → Result Reaction
  bad_sealed name (ok (text, sender)) = ok (relay text (or_name sender name))
  bad_sealed name (raise authentication_error) = ok (refusal authentication_error)
  bad_sealed name (raise replay_error) = ok (refusal replay_error)
  bad_sealed name (raise value_error) = ok (refusal value_error)
  bad_sealed name (raise e) = raise e

  -- `client.session.open(frame)` and what follows.
  unfoldable pub open_sealed : SealedFrame → SessionState → Action RegisteredClient Reaction
  open_sealed frame s c =
      let (r, s') = open_frame s frame in
      (
        bad_sealed c.name (Base.◌>>=◌ r (decode_message platform.json)),
        record c { session = some s' },
      )

  -- A SealedFrame, by the client's session.
  abbrev pub on_sealed : SealedFrame → Option SessionState → Action RegisteredClient Reaction
  on_sealed frame none = return (answer (pos 403) (codes "not authenticated"))
  on_sealed frame (some s) = open_sealed frame s

  -- A ChatFrame.
  abbrev pub on_chat : Text → Text → Option SessionState → Action RegisteredClient Reaction
  on_chat text sender none c = (ok (relay text (or_name sender c.name)), c)
  on_chat text sender (some s) c = (ok (answer (pos 400) (codes "node requires sealed frames")), c)

  -- The cases of `_message_loop`.
  unfoldable pub react : Frame → Action RegisteredClient Reaction
  react (sealed frame) c = on_sealed frame c.session c
  react (chat text sender) c = on_chat text sender c.session c
  react f c = (ok (answer (pos 422) (codes "unexpected frame")), c)

  unfoldable pub perform : ℕ → Reaction → Action ClientRegistry (Unit {0})
  perform id (answer code reason) hub = on_client id (report code reason) hub
  perform id (relay text sender) hub =
      (ok tt, broadcast platform.urandom platform.json platform.pydantic id text sender hub)

  -- What `_message_loop` does with a frame of the client under `id`.
  unfoldable pub on_packet : ℕ → Frame → Action ClientRegistry (Unit {0})
  on_packet id frame = on_client id (react frame) >>= perform id

  -- A round of `_message_loop`.
  unfoldable pub round : ℕ → Action ClientRegistry (Unit {0})
  round id = on_client id (on_ws receive_packet) >>= on_packet id

  module _ (cfg : ServerConfig) (password : Option Bytes) where
    -- The threads of the server, one step of one connection at a time: a connection is admitted, a
    -- client's loop goes through a round, or an exception ends it. The deliveries of a broadcast are
    -- made outside the registry's lock, so that other threads may come between them: a round may
    -- also stop at the message to be relayed, and each delivery is a step of its own, here of any
    -- message to any client, which is more than the server does.
    pub data Step : ClientRegistry → ClientRegistry → Type 0 where
      admitted :
          (id : ℕ) (ws ws' : WebSocket) (name : Text) (session : Option SessionState)
          (hub : ClientRegistry)
          → lookup id hub ≡ none
          → admit cfg password ws ≡ (ok (some (name, session)), ws')
          → Step hub (add id (record { ws = ws'; name = name; session = session }) hub)
      goes_on : (id : ℕ) (hub hub' : ClientRegistry) → round id hub ≡ (ok tt, hub') → Step hub hub'
      leaves :
          (id : ℕ) (e : Exception) (hub hub' : ClientRegistry)
          → round id hub ≡ (raise e, hub')
          → Step hub (remove id hub')
      relays :
          (id : ℕ) (frame : Frame) (text sender : Text) (hub read hub' : ClientRegistry)
          → on_client id (on_ws receive_packet) hub ≡ (ok frame, read)
          → on_client id (react frame) read ≡ (ok (relay text sender), hub')
          → Step hub hub'
      delivers :
          (id : ℕ) (text sender : Text) (hub : ClientRegistry)
          → Step hub (
              update id
                (delivered platform.urandom platform.json platform.pydantic text sender)
                hub)

    pub data Reachable : ClientRegistry → Type 0 where
      starts : Reachable []
      after : (hub hub' : ClientRegistry) → Reachable hub → Step hub hub' → Reachable hub'
