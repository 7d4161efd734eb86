-- ===== src/Chat/Server/Relaying.antt =====
-- The message loop of cli/server.py: which frames of a client reach the others.
use priestly.Base.{
  ℕ, ◌≡◌, refl, sym, ap, ◌∙◌, ◌⊎◌, inl, inr, Bool, true, false, Option, none, some, ◌==◌,
  if◌then◌else◌, Result, ok, raise, authentication_error, replay_error, value_error, Bytes,
  bind-returned,
}
use priestly.Base as Base
use priestly.Base.State.{Action, proceed}
use priestly.Base.Dict.{lookup, insert, lookup-insert}
use priestly.Python.Text.{Text}
use priestly.Protocol.Packets.{Frame, SealedFrame, sealed, chat}
use priestly.Protocol.Session.{SessionState, open_frame}
use priestly.Chat.Relay.{RegisteredClient, Member, ClientRegistry, decode_message, broadcast}
use priestly.Chat.Server.{
  Platform, Reaction, answer, relay, or_name, bad_sealed, open_sealed, on_sealed, on_chat, react,
  on_member, report, perform, on_packet,
}

module _ (platform : Platform) where
  -- A sealed frame that the client's session opens to a message.
  pub record IsOpened (frame : Frame) (c : RegisteredClient) (text name : Text) : Type 0 where
    pub sealed_frame : SealedFrame
    pub session : SessionState
    pub plaintext : Bytes
    pub sender : Text
    pub is_sealed : frame ≡ sealed sealed_frame
    pub has_session : c.session ≡ some session
    pub opens : (open_frame session sealed_frame).0 ≡ ok plaintext
    pub decodes : decode_message platform.json plaintext ≡ ok (text, sender)
    pub named : name ≡ or_name sender c.name

  -- A plain frame, of a client without a session.
  pub record IsPlain (frame : Frame) (c : RegisteredClient) (text name : Text) : Type 0 where
    pub sender : Text
    pub is_chat : frame ≡ chat text sender
    pub has_none : c.session ≡ none
    pub named : name ≡ or_name sender c.name

  bad_sealed-relay :
      (own : Text) (r : Result (Text × Text)) (text name : Text)
      → bad_sealed platform own r ≡ ok (relay text name)
      → (sender : Text) × (r ≡ ok (text, sender)) × (name ≡ or_name sender own)
  unfolding bad_sealed
  bad_sealed-relay own (ok (t, sender)) text name h =
      let same_text : t ≡ text = cc h in
      let same_name : or_name sender own ≡ name = cc h in
      (sender, ap (λ (x : Text). ok (x, sender)) same_text, sym same_name)
  bad_sealed-relay own (raise authentication_error) text name h = absurd (cc h)
  bad_sealed-relay own (raise replay_error) text name h = absurd (cc h)
  bad_sealed-relay own (raise value_error) text name h = absurd (cc h)
  bad_sealed-relay own (raise e) text name h = absurd (cc h)

  on_sealed-relay :
      (frame : SealedFrame) (c : RegisteredClient) (o : Option SessionState) (text name : Text)
      → c.session ≡ o
      → (on_sealed platform frame o c).0 ≡ ok (relay text name)
      → IsOpened (sealed frame) c text name
  unfolding open_sealed
  on_sealed-relay frame c none text name e h = absurd (cc h)
  on_sealed-relay frame c (some s) text name e h =
      let (sender, message, named) =
        bad_sealed-relay c.name (Base.◌>>=◌ (open_frame s frame).0 (decode_message platform.json))
          text name h in
      let (plaintext, opens, decodes) =
        bind-returned (open_frame s frame).0 (decode_message platform.json) (text, sender)
          message in
      record {
        sealed_frame = frame;
        session = s;
        plaintext = plaintext;
        sender = sender;
        is_sealed = refl;
        has_session = e;
        opens = opens;
        decodes = decodes;
        named = named;
      }

  on_chat-relay :
      (t sender : Text) (c : RegisteredClient) (o : Option SessionState) (text name : Text)
      → c.session ≡ o
      → (on_chat platform t sender o c).0 ≡ ok (relay text name)
      → IsPlain (chat t sender) c text name
  on_chat-relay t sender c none text name e h =
      let same_text : t ≡ text = cc h in
      let same_name : or_name sender c.name ≡ name = cc h in
      record {
        sender = sender;
        is_chat = ap (λ (x : Text). chat x sender) same_text;
        has_none = e;
        named = sym same_name;
      }
  on_chat-relay t sender c (some s) text name e h = absurd (cc h)

  react-relay :
      (f : Frame) (c : RegisteredClient) (text name : Text)
      → (react platform f c).0 ≡ ok (relay text name)
      → IsOpened f c text name ⊎ IsPlain f c text name
  unfolding react
  react-relay (sealed frame) c text name h =
      inl (on_sealed-relay frame c c.session text name refl h)
  react-relay (chat t sender) c text name h =
      inr (on_chat-relay t sender c c.session text name refl h)
  react-relay f c text name h = absurd (cc h)

  -- A call on one client leaves the others as they are.
  on_member_others :
      {A : Type 0} (id k : ℕ) (act : Action RegisteredClient A) (o : Option Member)
      (hub : ClientRegistry)
      → (id == k) ≡ false
      → lookup k (on_member platform id act o hub).1 ≡ lookup k hub
  on_member_others id k act none hub other = refl
  on_member_others id k act (some m) hub other =
      lookup-insert id k (record m { client = (act m.client).1 }) hub
      ∙ ap (λ (b : Bool). if b then some (record m { client = (act m.client).1 }) else lookup k hub)
          other

  -- The registry after the client's own object has taken the frame.
  abbrev pub taken : ℕ → Frame → Member → ClientRegistry → ClientRegistry
  taken id f m hub = insert id (record m { client = (react platform f m.client).1 }) hub

  module _ (id k : ℕ) (f : Frame) (hub : ClientRegistry) (m : Member)
      (other : (id == k) ≡ false) where
    taken_others : lookup k (taken id f m hub) ≡ lookup k hub
    taken_others =
        lookup-insert id k (record m { client = (react platform f m.client).1 }) hub
        ∙ ap
            (λ (b : Bool).
              if b
              then some (record m { client = (react platform f m.client).1 })
              else lookup k hub)
            other

    abbrev performed : Result Reaction → ClientRegistry
    performed r = (proceed r (perform platform id) (taken id f m hub)).1

    performed-relayed :
        (r : Result Reaction)
        → (react platform f m.client).0 ≡ r
        → ¬ (lookup k (performed r) ≡ lookup k hub)
        → (text name : Text) × (IsOpened f m.client text name ⊎ IsPlain f m.client text name)
          × (performed r
              ≡ broadcast platform.urandom platform.json platform.pydantic id text name
                  (taken id f m hub))
    unfolding perform
    performed-relayed (raise e) p changed = absurd (changed taken_others)
    performed-relayed (ok (answer code reason)) p changed = absurd (
        changed (
          on_member_others id k (report platform code reason) (lookup id (taken id f m hub))
            (taken id f m hub) other
          ∙ taken_others))
    performed-relayed (ok (relay text name)) p changed =
        (text, name, react-relay f m.client text name p, refl)

    -- If a frame of one client changes another, then it is a sealed frame that the session of the
    -- first opens to a message, or a plain frame and the first has no session, and the registry is
    -- the one after the broadcast of that message under the sender in it, or under the name of the
    -- client if that is empty.
    pub on_packet-relayed :
        lookup id hub ≡ some m
        → ¬ (lookup k (on_packet platform id f hub).1 ≡ lookup k hub)
        → (text name : Text) × (IsOpened f m.client text name ⊎ IsPlain f m.client text name)
          × ((on_packet platform id f hub).1
              ≡ broadcast platform.urandom platform.json platform.pydantic id text name
                  (taken id f m hub))
    unfolding on_packet
    on_packet-relayed there changed =
        let same : (on_packet platform id f hub).1 ≡ performed (react platform f m.client).0 =
          ap
            (λ (o : Option Member).
              (proceed (on_member platform id (react platform f) o hub).0 (perform platform id)
                (on_member platform id (react platform f) o hub).1).1)
            there in
        let (text, name, source, sent) =
          performed-relayed (react platform f m.client).0 refl
            (λ e. changed (ap (lookup k) same ∙ e)) in
        (text, name, source, same ∙ sent)
