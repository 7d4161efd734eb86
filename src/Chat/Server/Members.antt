-- ===== src/Chat/Server/Members.antt =====
-- Who gets into the registry of cli/server.py: on a protected node only clients with a session.
use priestly.Base.{
  ℕ, ◌≡◌, refl, sym, ap, ◌∙◌, Bool, true, false, Option, none, some, List, [], ◌∷◌, Result, ok,
  raise, Bytes,
}
use priestly.Base.State.{Action, proceed}
use priestly.Base.Dict.{lookup, AllValues, insert-AllValues, update-AllValues, lookup-AllValues}
use priestly.Python.Text.{Text}
use priestly.Protocol.Packets.{Frame, sealed, chat, SealedFrame, dumps}
use priestly.Protocol.Session.{SessionState, seal}
use priestly.Transport.WebSocket.{send}
use priestly.Chat.Relay.{
  RegisteredClient, Member, ClientRegistry, unregistered, remove, on_ws, settle, encode_message,
  transmit, transmit_sealed, deliver, deliver_by, delivered, deliver_all, recipients, broadcast,
}
use priestly.Chat.Server.{
  Platform, Reaction, answer, relay, on_member, on_client, report, open_sealed, on_sealed, on_chat,
  react, perform, on_packet, round, receive_packet,
}

abbrev pub is_some {ℓ} : {A : Type ℓ} → Option A → Bool
is_some none = false
is_some (some a) = true

-- The client has a session, or it has none.
abbrev pub Has : Bool → Member → Type 0
Has b m = is_some m.client.session ≡ b

-- A call that leaves a client with a session if, and only if, it had one.
abbrev pub Keeps : {A : Type 0} → Action RegisteredClient A → Type 0
Keeps act = (c : RegisteredClient) → is_some (act c).1.session ≡ is_some c.session

pub unregistered-AllValues :
    (b : Bool) (id : ℕ) (hub : ClientRegistry)
    → AllValues (Has b) hub
    → AllValues (Has b) (remove id hub)
unfolding remove
unregistered-AllValues b id hub = update-AllValues (Has b) id unregistered hub (λ m h. h)

module _ (platform : Platform) where
  transmit-Keeps : (f : Frame) → Keeps (transmit platform.urandom platform.json platform.pydantic f)
  unfolding transmit
  transmit-Keeps f c = by_dump (dumps platform.pydantic f)
    where
      by_dump :
          (r : Result Text)
          → is_some (proceed r (λ t. on_ws (send platform.urandom t)) c).1.session
            ≡ is_some c.session
      by_dump (ok t) = refl
      by_dump (raise e) = refl

  transmit_sealed-has :
      (s : SessionState) (plaintext : Bytes) (c : RegisteredClient)
      → is_some
          (transmit_sealed platform.urandom platform.json platform.pydantic s plaintext c).1.session
        ≡ true
  unfolding transmit_sealed
  transmit_sealed-has s plaintext c = by_seal (seal s plaintext).0
    where
      by_seal :
          (r : Result SealedFrame)
          → is_some
              (proceed r
                (λ frame. transmit platform.urandom platform.json platform.pydantic (sealed frame))
                (record c { session = some (seal s plaintext).1 })).1.session
            ≡ true
      by_seal (ok frame) =
          transmit-Keeps (sealed frame) (record c { session = some (seal s plaintext).1 })
      by_seal (raise e) = refl

  deliver-Keeps :
      (text sender : Text)
      → Keeps (deliver platform.urandom platform.json platform.pydantic text sender)
  unfolding deliver deliver_by
  deliver-Keeps text sender c = by_session c.session refl
    where
      by_encoding :
          (s : SessionState) (r : Result Bytes)
          → c.session ≡ some s
          → is_some
              (proceed r
                (transmit_sealed platform.urandom platform.json platform.pydantic s)
                c).1.session
            ≡ true
      by_encoding s (ok b) e = transmit_sealed-has s b c
      by_encoding s (raise x) e = ap is_some e

      by_session :
          (o : Option SessionState)
          → c.session ≡ o
          → is_some
              (deliver_by platform.urandom platform.json platform.pydantic text sender o
                c).1.session
            ≡ is_some c.session
      by_session none e = transmit-Keeps (chat text sender) c
      by_session (some s) e =
          by_encoding s (encode_message platform.json text sender) e ∙ sym (ap is_some e)

  module _ (b : Bool) where
    pub delivered-Has :
        (text sender : Text) (m : Member)
        → Has b m
        → Has b (delivered platform.urandom platform.json platform.pydantic text sender m)
    unfolding delivered
    delivered-Has text sender m h =
        settled (deliver platform.urandom platform.json platform.pydantic text sender m.client).0
      where
        settled :
            (r : Result (Unit {0}))
            → Has b (
                settle r (record m {
                  client =
                      (deliver platform.urandom platform.json platform.pydantic text sender
                        m.client).1;
                }))
        settled (ok u) = deliver-Keeps text sender m.client ∙ h
        settled (raise e) = deliver-Keeps text sender m.client ∙ h

    deliver_all-AllValues :
        (text sender : Text) (ids : List ℕ) (hub : ClientRegistry)
        → AllValues (Has b) hub
        → AllValues
            (Has b)
            (deliver_all platform.urandom platform.json platform.pydantic text sender ids hub)
    unfolding deliver_all
    deliver_all-AllValues text sender [] hub h = h
    deliver_all-AllValues text sender (id ∷ ids) hub h = deliver_all-AllValues text sender ids _ (
        update-AllValues (Has b) id
          (delivered platform.urandom platform.json platform.pydantic text sender) hub
          (delivered-Has text sender) h)

    on_member-AllValues :
        {A : Type 0} (id : ℕ) (act : Action RegisteredClient A) (o : Option Member)
        (hub : ClientRegistry)
        → Keeps act
        → AllValues (Has b) hub
        → lookup id hub ≡ o
        → AllValues (Has b) (on_member platform id act o hub).1
    on_member-AllValues id act none hub keeps h e = h
    on_member-AllValues id act (some m) hub keeps h e =
        insert-AllValues (Has b) id (record m { client = (act m.client).1 }) hub
          (keeps m.client ∙ lookup-AllValues (Has b) id m hub h e) h

    pub on_client-AllValues :
        {A : Type 0} (id : ℕ) (act : Action RegisteredClient A) (hub : ClientRegistry)
        → Keeps act
        → AllValues (Has b) hub
        → AllValues (Has b) (on_client platform id act hub).1
    on_client-AllValues id act hub keeps h =
        on_member-AllValues id act (lookup id hub) hub keeps h refl

    perform-AllValues :
        (id : ℕ) (r : Reaction) (hub : ClientRegistry)
        → AllValues (Has b) hub
        → AllValues (Has b) (perform platform id r hub).1
    unfolding perform broadcast
    perform-AllValues id (answer code reason) hub h =
        on_client-AllValues id (report platform code reason) hub (λ c. refl) h
    perform-AllValues id (relay text sender) hub h =
        deliver_all-AllValues text sender (recipients id hub) hub h

  on_sealed-Keeps :
      (frame : SealedFrame) (c : RegisteredClient) (o : Option SessionState)
      → c.session ≡ o
      → is_some (on_sealed platform frame o c).1.session ≡ is_some c.session
  unfolding open_sealed
  on_sealed-Keeps frame c none e = refl
  on_sealed-Keeps frame c (some s) e = sym (ap is_some e)

  on_chat-Keeps :
      (text sender : Text) (c : RegisteredClient) (o : Option SessionState)
      → is_some (on_chat platform text sender o c).1.session ≡ is_some c.session
  on_chat-Keeps text sender c none = refl
  on_chat-Keeps text sender c (some s) = refl

  pub react-Keeps : (f : Frame) → Keeps (react platform f)
  unfolding react
  react-Keeps (sealed frame) c = on_sealed-Keeps frame c c.session refl
  react-Keeps (chat text sender) c = on_chat-Keeps text sender c c.session
  react-Keeps f c = refl

  chained-AllValues :
      {A : Type 0} (b : Bool) (r : Result A) (f : A → Action ClientRegistry (Unit {0}))
      (hub : ClientRegistry)
      → ((a : A) → AllValues (Has b) (f a hub).1)
      → AllValues (Has b) hub
      → AllValues (Has b) (proceed r f hub).1
  chained-AllValues b (ok a) f hub keeps h = keeps a
  chained-AllValues b (raise e) f hub keeps h = h

  on_packet-AllValues :
      (b : Bool) (id : ℕ) (f : Frame) (hub : ClientRegistry)
      → AllValues (Has b) hub
      → AllValues (Has b) (on_packet platform id f hub).1
  unfolding on_packet
  on_packet-AllValues b id f hub h =
      let (r, hub') = on_client platform id (react platform f) hub in
      let h' : AllValues (Has b) hub' =
        on_client-AllValues b id (react platform f) hub (react-Keeps f) h in
      chained-AllValues b r (perform platform id) hub' (λ x. perform-AllValues b id x hub' h') h'

  pub round-AllValues :
      (b : Bool) (id : ℕ) (hub : ClientRegistry)
      → AllValues (Has b) hub
      → AllValues (Has b) (round platform id hub).1
  unfolding round
  round-AllValues b id hub h =
      let (r, hub') = on_client platform id (on_ws (receive_packet platform)) hub in
      let h' : AllValues (Has b) hub' =
        on_client-AllValues b id (on_ws (receive_packet platform)) hub (λ c. refl) h in
      chained-AllValues b r (on_packet platform id) hub' (λ f. on_packet-AllValues b id f hub' h')
        h'
