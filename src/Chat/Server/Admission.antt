-- ===== src/Chat/Server/Admission.antt =====
-- Who gets into the registry of cli/server.py: on a protected node only clients with a session.
use priestly.Base.{
  ◌++◌, ℕ, ◌≡◌, sym, refl, ap, ◌∙◌, Bool, true, Option, none, some, [], ◌∷◌, Result, ok, raise,
  covenant_error, Bytes, bind-returned,
}
use priestly.Base.State.{Action, return, bind-went}
use mathlib.Core.Path.{subst}
use priestly.Base.Int.{pos}
use priestly.Base.Dict.{lookup, AllValues, insert-AllValues, update-AllValues, lookup-AllValues}
use priestly.Python.Text.{Text, codes, text_eq}
use priestly.Python.Utf8.{encode}
use priestly.Protocol.Packets.{Frame, hello, hello_ack, error}
use priestly.Protocol.Session.{SessionState}
use priestly.Transport.WebSocket.{WebSocket}
use priestly.Config.{ServerConfig, is_truthy, password_required}
use priestly.Chat.Relay.{RegisteredClient, Member, ClientRegistry, add, on_ws, delivered}
use priestly.Chat.Server.{
  Platform, Admitted, password_bytes, node_password, authenticated, authenticate, greet, admit,
  round, receive_packet, send_packet, str, Step, admitted, goes_on, leaves, relays, delivers,
  on_client, react, Reachable, starts, after,
}
use priestly.Chat.Server.Members.{
  is_some, Has, Keeps, react-Keeps, delivered-Has, on_client-AllValues, unregistered-AllValues,
  round-AllValues,
}

password_bytes-is_some :
    (o : Option Text) (password : Option Bytes)
    → password_bytes (is_truthy o) o ≡ ok password
    → is_some password ≡ is_truthy o
password_bytes-is_some none password h = let e : none ≡ password = cc h in ap is_some (sym e)
password_bytes-is_some (some []) password h = let e : none ≡ password = cc h in ap is_some (sym e)
password_bytes-is_some (some (c ∷ t)) password h =
    let (bytes, encodes, same) =
      bind-returned (encode (c ∷ t)) (λ (b : Bytes). ok (some b)) password h in
    let e : some bytes ≡ password = cc same in ap is_some (sym e)

abbrev session_of : Result (Option Admitted) → Option SessionState
session_of (ok (some a)) = a.1
session_of r = none

module _ (platform : Platform) where
  authenticated-is_some :
      (is_browser : Bool) (name : Text) (r : Result SessionState) (a : Admitted)
      → authenticated platform is_browser name r ≡ ok (some a)
      → is_some a.1 ≡ true
  authenticated-is_some is_browser name (ok s) a h =
      sym (ap (λ (x : Result (Option Admitted)). is_some (session_of x)) h)
  authenticated-is_some is_browser name (raise covenant_error) a h = absurd (cc h)
  authenticated-is_some is_browser name (raise e) a h = absurd (cc h)

  authenticate-is_some :
      (password : Option Bytes) (is_browser : Bool) (name : Text) (ws ws' : WebSocket)
      (a : Admitted)
      → authenticate platform password is_browser name ws ≡ (ok (some a), ws')
      → is_some a.1 ≡ is_some password
  unfolding authenticate
  authenticate-is_some none is_browser name ws ws' a h =
      sym (ap (λ (x : Result (Option Admitted) × WebSocket). is_some (session_of x.0)) h)
  authenticate-is_some (some password) is_browser name ws ws' a h =
      authenticated-is_some is_browser name _ a
        (ap (λ (x : Result (Option Admitted) × WebSocket). x.0) h)

  greet-is_some :
      (cfg : ServerConfig) (password : Option Bytes) (f : Frame) (ws ws' : WebSocket) (a : Admitted)
      → greet platform cfg password f ws ≡ (ok (some a), ws')
      → is_some a.1 ≡ is_some password
  unfolding greet
  greet-is_some cfg password (hello handshake) ws ws' a h =
      let is_browser : Bool = text_eq handshake.status (codes "browser") in
      let name : Text = codes "user" ++ str handshake.user_id in
      let (u, ws₁, sent, rest) =
        bind-went
          (send_packet platform (hello_ack (codes "ok") cfg.server_name (password_required cfg)))
          (λ u. authenticate platform password is_browser name) (some a) ws ws' h in
      authenticate-is_some password is_browser name ws₁ ws' a rest
  greet-is_some cfg password f ws ws' a h =
      let (u, ws₁, sent, rest) =
        bind-went (send_packet platform (error (pos 400) (codes "expected HELLO")))
          (λ u. return none) (some a) ws ws' h in
      absurd (nothing_returned ws₁ ws' a rest)
    where
      nothing_returned :
          (ws₁ ws₂ : WebSocket) (x : Admitted) → ¬ (return none ws₁ ≡ (ok (some x), ws₂))
      nothing_returned ws₁ ws₂ x e = cc (ap (λ (r : Result (Option Admitted) × WebSocket). r.0) e)

  admit-is_some :
      (cfg : ServerConfig) (password : Option Bytes) (ws ws' : WebSocket) (a : Admitted)
      → admit platform cfg password ws ≡ (ok (some a), ws')
      → is_some a.1 ≡ is_some password
  unfolding admit
  admit-is_some cfg password ws ws' a h =
      let (f, ws₁, read, rest) =
        bind-went (receive_packet platform) (greet platform cfg password) (some a) ws ws' h in
      greet-is_some cfg password f ws₁ ws' a rest

  after_round :
      (b : Bool) (id : ℕ) (hub hub' : ClientRegistry) (r : Result (Unit {0}))
      → AllValues (Has b) hub
      → round platform id hub ≡ (r, hub')
      → AllValues (Has b) hub'
  after_round b id hub hub' r h e =
      subst (AllValues (Has b)) (ap (λ (x : Result (Unit {0}) × ClientRegistry). x.1) e)
        (round-AllValues platform b id hub h)

  module _ (cfg : ServerConfig) (password : Option Bytes) where
    stepped-AllValues :
        (hub hub' : ClientRegistry)
        → Step platform cfg password hub hub'
        → AllValues (Has (is_some password)) hub
        → AllValues (Has (is_some password)) hub'
    unfolding add
    stepped-AllValues _ _ (admitted id ws ws' name session hub fresh e) h =
        insert-AllValues (Has (is_some password)) id _ hub
          (admit-is_some cfg password ws ws' (name, session) e) h
    stepped-AllValues _ _ (goes_on id hub hub' e) h =
        after_round (is_some password) id hub hub' (ok tt) h e
    stepped-AllValues _ _ (leaves id x hub left e) h =
        unregistered-AllValues (is_some password) id left
          (after_round (is_some password) id hub left (raise x) h e)
    stepped-AllValues _ _ (relays id frame text sender hub read hub' received reacted) h =
        acted (react platform frame) (react-Keeps platform frame) read hub' reacted
          (acted (on_ws (receive_packet platform)) (λ c. refl) hub read received h)
      where
        acted :
            {A : Type 0} (act : Action RegisteredClient A)
            → Keeps act
            → (before behind : ClientRegistry) {r : Result A}
            → on_client platform id act before ≡ (r, behind)
            → AllValues (Has (is_some password)) before
            → AllValues (Has (is_some password)) behind
        acted {A} act keeps before behind e k =
            subst (AllValues (Has (is_some password)))
              (ap (λ (x : Result A × ClientRegistry). x.1) e)
              (on_client-AllValues platform (is_some password) id act before keeps k)
    stepped-AllValues _ _ (delivers id text sender hub) h =
        update-AllValues (Has (is_some password)) id
          (delivered platform.urandom platform.json platform.pydantic text sender) hub
          (delivered-Has platform (is_some password) text sender) h

    reachable-AllValues :
        (hub : ClientRegistry)
        → Reachable platform cfg password hub
        → AllValues (Has (is_some password)) hub
    reachable-AllValues _ starts = tt
    reachable-AllValues _ (after hub hub' run step) =
        stepped-AllValues hub hub' step (reachable-AllValues hub run)

  -- Whatever connections the server admits, and in whatever order their loops go on, every client
  -- object has a session if the configuration requires a password and none if it does not.
  pub reachable-Has :
      (cfg : ServerConfig) (password : Option Bytes) (hub : ClientRegistry) (k : ℕ) (m : Member)
      → node_password cfg ≡ ok password
      → Reachable platform cfg password hub
      → lookup k hub ≡ some m
      → is_some m.client.session ≡ password_required cfg
  unfolding node_password password_required
  reachable-Has cfg password hub k m e run there =
      lookup-AllValues (Has (is_some password)) k m hub (reachable-AllValues cfg password hub run)
        there
      ∙ password_bytes-is_some cfg.password password e
