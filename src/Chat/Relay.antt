-- ===== src/Chat/Relay.antt =====
-- cli/relay.py: the registered clients, the payload of a message and its broadcast.
pub mod Fanout
pub mod Payload
use priestly.Base.{
  ℕ, ◌≡◌, Bool, true, false, not, ◌&&◌, Option, none, some, List, [], ◌∷◌, ◌==◌, if◌then◌else◌,
  Result, ok, raise, attribute_error, Bytes,
}
use priestly.Base as Base
use priestly.Base.State.{Action, proceed}
use priestly.Base.Dict.{Dict, insert, update}
use priestly.Python.Text.{Text, codes, is_ascii}
use priestly.Python.Dictionary.{get_item, HasUniqueKeys, map_values}
use priestly.Python.Utf8.{encode, decode}
use priestly.Protocol.Packets.{Frame, sealed, chat, Pydantic, dumps}
use priestly.Protocol.Session.{SessionState, seal}
use priestly.Transport.WebSocket.{WebSocket, send}

-- The module json: `dumps` of a dict whose values are strings, in ASCII; `loads`, with its
-- ValueError; the pairs of a value that is a dict, and `str` of a value. What `dumps` has written of
-- a dict `loads` reads as a dict of the same strings, and `str` of a string is its text.
pub record Json : Type 1 where
  pub Value : Type 0
  pub string : Text → Value
  pub str : Value → Text
  pub as_dict : Value → Option (List (Text × Value))
  pub dumps : List (Text × Text) → Text
  pub loads : Text → Result Value
  pub dumps_ascii : (fields : List (Text × Text)) → is_ascii (dumps fields) ≡ true
  pub loads_dumps :
      (fields : List (Text × Text))
      → HasUniqueKeys fields
      → (obj : Value) × (loads (dumps fields) ≡ ok obj)
        × (as_dict obj ≡ some (map_values string fields))
  pub str_string : (t : Text) → str (string t) ≡ t

pub record RegisteredClient : Type 0 where
  pub ws : WebSocket
  pub name : Text
  pub session : Option SessionState

-- A client of the process, and whether it is in the set of the registry.
pub record Member : Type 0 where
  pub client : RegisteredClient
  pub registered : Bool

-- The clients, each under the number that tells the object from others: one that was taken out of
-- the set is still served by its own thread.
abbrev pub ClientRegistry : Type 0
ClientRegistry = Dict Member

unfoldable pub add : ℕ → RegisteredClient → ClientRegistry → ClientRegistry
add id client hub = insert id (record { client = client; registered = true }) hub

abbrev pub unregistered : Member → Member
unregistered m = record m { registered = false }

-- `_clients.discard(client)`
unfoldable pub remove : ℕ → ClientRegistry → ClientRegistry
remove id = update id unregistered

-- `[c for c in self._clients if c is not sender]`
unfoldable pub recipients : ℕ → ClientRegistry → List ℕ
recipients sender [] = []
recipients sender ((id, m) ∷ hub) =
    let rest = recipients sender hub in
    if m.registered && not (id == sender) then id ∷ rest else rest

-- `except Exception: self.remove(client)`
abbrev pub settle : Result (Unit {0}) → Member → Member
settle (ok u) m = m
settle (raise e) m = unregistered m

-- `ws.send`, on the client's connection.
abbrev pub on_ws : {A : Type 0} → Action WebSocket A → Action RegisteredClient A
on_ws m c = let (r, w) = m c.ws in (r, record c { ws = w })

-- `{"text": text, "sender": sender}`
abbrev pub message_fields : Text → Text → List (Text × Text)
message_fields text sender = (codes "text", text) ∷ (codes "sender", sender) ∷ []

module _ (json : Json) where
  unfoldable pub encode_message : Text → Text → Result Bytes
  encode_message text sender = encode (json.dumps (message_fields text sender))

  -- `str(obj.get(key, default))`, of what `get` without a default gives.
  abbrev pub str_or : Text → Option json.Value → Text
  str_or default none = default
  str_or default (some v) = json.str v

  -- Whatever is no dict has no `get`.
  abbrev pub read_message : Option (List (Text × json.Value)) → Result (Text × Text)
  read_message none = raise attribute_error
  read_message (some obj) = ok (
    str_or [] (get_item (codes "text") obj),
    str_or (codes "anon") (get_item (codes "sender") obj),
  )

  unfoldable pub decode_message : Bytes → Result (Text × Text)
  decode_message plaintext =
      Base.◌>>=◌ (decode plaintext)
        λ t. Base.◌>>=◌ (json.loads t) λ obj. read_message (json.as_dict obj)

-- os.urandom, json and pydantic.
module _ (urandom : ℕ → Bytes) (json : Json) (pydantic : Pydantic) where
  -- `self.ws.send(dumps(frame))`
  unfoldable pub transmit : Frame → Action RegisteredClient (Unit {0})
  transmit frame c = proceed (dumps pydantic frame) (λ t. on_ws (send urandom t)) c

  -- Sealing, on the client's session: its sequence number stays raised if sending fails.
  unfoldable pub transmit_sealed : SessionState → Bytes → Action RegisteredClient (Unit {0})
  transmit_sealed s plaintext c =
      let (r, s') = seal s plaintext in
      proceed r (λ frame. transmit (sealed frame)) (record c { session = some s' })

  -- `if self.session is not None`
  unfoldable pub deliver_by : Text → Text → Option SessionState → Action RegisteredClient (Unit {0})
  deliver_by text sender none = transmit (chat text sender)
  deliver_by text sender (some s) = proceed (encode_message json text sender) (transmit_sealed s)

  unfoldable pub deliver : Text → Text → Action RegisteredClient (Unit {0})
  deliver text sender c = deliver_by text sender c.session c

  -- The body of the loop of `broadcast`.
  unfoldable pub delivered : Text → Text → Member → Member
  delivered text sender_name m =
      let (r, c) = deliver text sender_name m.client in settle r (record m { client = c })

  unfoldable pub deliver_all : Text → Text → List ℕ → ClientRegistry → ClientRegistry
  deliver_all text sender_name [] hub = hub
  deliver_all text sender_name (id ∷ ids) hub =
      deliver_all text sender_name ids (update id (delivered text sender_name) hub)

  unfoldable pub broadcast : ℕ → Text → Text → ClientRegistry → ClientRegistry
  broadcast sender text sender_name hub = deliver_all text sender_name (recipients sender hub) hub
