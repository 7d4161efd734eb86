-- ===== src/Transport/WebSocket/Receive.antt =====
-- WebSocket.recv puts the fragments of a message together and passes over pings and pongs.
use priestly.Base.{
  ℕ, zero, suc, ◌+◌, ◌≤◌, ◌≡◌, refl, ap, ◌∙◌, Bool, true, false, none, some, List, [], ◌∷◌, ◌++◌,
  append_assoc, arith, if◌then◌else◌, length, connection_closed, Result, ok, Bytes,
}
use priestly.Base.State.{Action, return, lift, throw_if, proceed, bind-ok}
use priestly.Base.State as State
use priestly.Transport.Socket.{Socket}
use priestly.Transport.Frame.{
  encode_frame, read_frame, op_cont, op_text, op_binary, op_ping, op_pong,
}
use priestly.Transport.Frame.Wire.{encode_frame-returns}
use priestly.Transport.WebSocket.{
  WebSocket, Message, Partial, Round, again, finished, message_of, gather, on_data, sendall,
  encode_own, send_frame, on_frame, next_round, on_socket, receive, result_map,
}

abbrev pub Frame : Type 0
Frame = Bool × ℕ × Bytes

-- The frames that `read_frame` finds one after the other.
pub data Frames : Socket → List Frame → Socket → Type 0 where
  none_left : {s : Socket} → Frames s [] s
  next_read :
      {s s' s'' : Socket} {f : Frame} {fs : List Frame}
      → read_frame s ≡ (ok f, s')
      → Frames s' fs s''
      → Frames s (f ∷ fs) s''

-- The rest of a fragmented message with these payloads, pings and pongs among its frames.
pub data Continued : List Bytes → List Frame → Type 0 where
  final : (payload : Bytes) → Continued (payload ∷ []) ((true, op_cont, payload) ∷ [])
  part :
      {ps : List Bytes} {fs : List Frame} (payload : Bytes)
      → Continued ps fs
      → Continued (payload ∷ ps) ((false, op_cont, payload) ∷ fs)
  pong :
      {ps : List Bytes} {fs : List Frame} (payload : Bytes)
      → Continued ps fs
      → Continued ps ((true, op_pong, payload) ∷ fs)
  ping :
      {ps : List Bytes} {fs : List Frame} (payload : Bytes)
      → length payload ≤ 125
      → Continued ps fs
      → Continued ps ((true, op_ping, payload) ∷ fs)

-- The opcodes of data frames.
abbrev pub data_opcode : Bool → ℕ
data_opcode true = op_text
data_opcode false = op_binary

-- A message under an opcode, in one frame or in several.
pub data Fragmented (op : ℕ) : List Bytes → List Frame → Type 0 where
  whole : (payload : Bytes) → Fragmented op (payload ∷ []) ((true, op, payload) ∷ [])
  start :
      {ps : List Bytes} {fs : List Frame} (payload : Bytes)
      → Continued ps fs
      → Fragmented op (payload ∷ ps) ((false, op, payload) ∷ fs)
  pong_before :
      {ps : List Bytes} {fs : List Frame} (payload : Bytes)
      → Fragmented op ps fs
      → Fragmented op ps ((true, op_pong, payload) ∷ fs)
  ping_before :
      {ps : List Bytes} {fs : List Frame} (payload : Bytes)
      → length payload ≤ 125
      → Fragmented op ps fs
      → Fragmented op ps ((true, op_ping, payload) ∷ fs)

-- Not closed, and no call of sendall will fail.
abbrev pub IsUsable : WebSocket → Type 0
IsUsable ws = (ws.closed ≡ false) × (ws.faults ≡ [])

-- A call returns the message, has read just its frames and leaves the object usable.
abbrev pub Delivers : Action WebSocket Message → WebSocket → Message → Socket → Type 0
Delivers go ws m s' = (ws' : WebSocket) × (go ws ≡ (ok m, ws')) × (ws'.incoming ≡ s') × IsUsable ws'

-- The locals of the loop once a message has started.
abbrev pub started : ℕ → List Bytes → Partial
started op cs = record { chunks = cs; message_opcode = some op }

sendall-sent :
    (bs : Bytes) (ws : WebSocket)
    → ws.faults ≡ []
    → sendall bs ws ≡ (ok tt, record ws { outgoing = ws.outgoing ++ bs })
unfolding sendall
sendall-sent bs ws h =
    rw (h, sendall)
      (ap (λ (f : List Bool). (ok tt, record ws { outgoing = ws.outgoing ++ bs; faults = f })) h)

module _ (urandom : ℕ → Bytes) where
  abbrev pub after_sending : Bytes → WebSocket → WebSocket
  after_sending frame ws = record ws {
    outgoing = ws.outgoing ++ frame;
    drawn = if ws.is_client then ws.drawn + 1 else ws.drawn;
  }

  pub send_frame-sent :
      (op : ℕ) (payload frame : Bytes) (ws : WebSocket)
      → ws.closed ≡ false
      → ws.faults ≡ []
      → encode_frame op payload ws.is_client (urandom ws.drawn) ≡ ok frame
      → send_frame urandom op payload ws ≡ (ok tt, after_sending frame ws)
  unfolding send_frame
  send_frame-sent op payload frame ws opened quiet e =
      let w : WebSocket = record ws { drawn = if ws.is_client then ws.drawn + 1 else ws.drawn } in
      let own : encode_own urandom op payload ws ≡ (ok frame, w) =
        unfold encode_own in ap (λ (r : Result Bytes). (r, w)) e in
      ap
        (λ (b : Bool).
          throw_if b (connection_closed none)
            (State.◌>>=◌ (encode_own urandom op payload) (λ x. sendall x)) ws)
        opened
      ∙ bind-ok (encode_own urandom op payload) (λ x. sendall x) frame ws w own
      ∙ sendall-sent frame w quiet

  -- One round, by how its frame was dealt with.
  pub round_end :
      (fuel : ℕ) (p : Partial) (ws w : WebSocket) (f : Frame) (s : Socket) (r : Round)
      → read_frame ws.incoming ≡ (ok f, s)
      → on_frame urandom p f (record ws { incoming = s }) ≡ (ok r, w)
      → receive urandom (suc fuel) p ws ≡ next_round r (receive urandom fuel) w
  unfolding receive
  round_end fuel p ws w f s r e h =
      bind-ok (on_socket read_frame) _ f ws (record ws { incoming = s })
        (ap (λ (q : Result Frame × Socket). (q.0, record ws { incoming = q.1 })) e)
      ∙ bind-ok (on_frame urandom p f) (λ x. next_round x (receive urandom fuel)) r
          (record ws { incoming = s }) w h

  pub on_frame-pong :
      (p : Partial) (fin : Bool) (payload : Bytes) (ws : WebSocket)
      → on_frame urandom p (fin, op_pong, payload) ws ≡ (ok (again p), ws)
  unfolding on_frame
  on_frame-pong p fin payload ws = refl

  pub on_frame-ping :
      (p : Partial) (fin : Bool) (payload frame : Bytes) (ws : WebSocket)
      → ws.closed ≡ false
      → ws.faults ≡ []
      → encode_frame op_pong payload ws.is_client (urandom ws.drawn) ≡ ok frame
      → on_frame urandom p (fin, op_ping, payload) ws ≡ (ok (again p), after_sending frame ws)
  unfolding on_frame
  on_frame-ping p fin payload frame ws opened quiet e =
      bind-ok (send_frame urandom op_pong payload) (λ u. return (again p)) tt ws
        (after_sending frame ws) (send_frame-sent op_pong payload frame ws opened quiet e)

  on_frame-part :
      (op : ℕ) (cs : List Bytes) (payload : Bytes) (ws : WebSocket)
      → on_frame urandom (started op cs) (false, op_cont, payload) ws
        ≡ (ok (again (started op (cs ++ (payload ∷ [])))), ws)
  unfolding on_frame on_data gather
  on_frame-part op cs payload ws = refl

  on_frame-final :
      (op : ℕ) (cs : List Bytes) (payload : Bytes) (m : Message) (ws : WebSocket)
      → message_of (started op (cs ++ (payload ∷ []))) ≡ ok m
      → on_frame urandom (started op cs) (true, op_cont, payload) ws ≡ (ok (finished m), ws)
  unfolding on_frame on_data gather
  on_frame-final op cs payload m ws h = ap (λ (r : Result Message). (result_map finished r, ws)) h

  -- A round that goes on.
  pub round_again :
      (fuel : ℕ) (p p' : Partial) (ws w : WebSocket) (f : Frame) (s s' : Socket) (m : Message)
      → read_frame ws.incoming ≡ (ok f, s)
      → on_frame urandom p f (record ws { incoming = s }) ≡ (ok (again p'), w)
      → Delivers (receive urandom fuel p') w m s'
      → Delivers (receive urandom (suc fuel) p) ws m s'
  round_again fuel p p' ws w f s s' m e h (ws', returns, left, u) =
      (ws', round_end fuel p ws w f s (again p') e h ∙ returns, left, u)

  -- The rest of a message is put to the chunks so far.
  pub receive-Continued :
      (fuel op : ℕ) (cs ps : List Bytes) (fs : List Frame) (m : Message) (s' : Socket)
      (ws : WebSocket)
      → Continued ps fs
      → Frames ws.incoming fs s'
      → length fs ≤ fuel
      → IsUsable ws
      → message_of (started op (cs ++ ps)) ≡ ok m
      → Delivers (receive urandom fuel (started op cs)) ws m s'
  receive-Continued zero op cs _ _ m s' ws (final payload) r len u h = absurd (omega arith)
  receive-Continued zero op cs _ _ m s' ws (part payload c) r len u h = absurd (omega arith)
  receive-Continued zero op cs _ _ m s' ws (pong payload c) r len u h = absurd (omega arith)
  receive-Continued zero op cs _ _ m s' ws (ping payload small c) r len u h = absurd (omega arith)
  receive-Continued (suc fuel) op cs _ _ m s' ws (final payload) (next_read {s' = s₁} e none_left)
        len u h =
      let w : WebSocket = record ws { incoming = s₁ } in
      (
        w,
        round_end fuel (started op cs) ws w (true, op_cont, payload) s₁ (finished m) e
            (on_frame-final op cs payload m w h),
        refl,
        u,
      )
  receive-Continued (suc fuel) op cs _ _ m s' ws (part {ps = ps} {fs = fs} payload c)
        (next_read {s' = s₁} e rest) len u h =
      let w : WebSocket = record ws { incoming = s₁ } in
      let cs' : List Bytes = cs ++ (payload ∷ []) in
      let joined : message_of (started op (cs' ++ ps)) ≡ ok m =
        ap (λ (x : List Bytes). message_of (started op x)) (append_assoc cs (payload ∷ []) ps)
        ∙ h in
      round_again fuel (started op cs) (started op cs') ws w (false, op_cont, payload) s₁ s' m e
        (on_frame-part op cs payload w)
        (receive-Continued fuel op cs' ps fs m s' w c rest (omega (arith, len)) u joined)
  receive-Continued (suc fuel) op cs ps _ m s' ws (pong {fs = fs} payload c)
        (next_read {s' = s₁} e rest) len u h =
      let w : WebSocket = record ws { incoming = s₁ } in
      round_again fuel (started op cs) (started op cs) ws w (true, op_pong, payload) s₁ s' m e
        (on_frame-pong (started op cs) true payload w)
        (receive-Continued fuel op cs ps fs m s' w c rest (omega (arith, len)) u h)
  receive-Continued (suc fuel) op cs ps _ m s' ws (ping {fs = fs} payload small c)
        (next_read {s' = s₁} e rest) len u h =
      let w : WebSocket = record ws { incoming = s₁ } in
      let (frame, enc) =
        encode_frame-returns op_pong payload w.is_client (urandom w.drawn) refl
          (omega (arith, small)) in
      let w' : WebSocket = after_sending frame w in
      round_again fuel (started op cs) (started op cs) ws w' (true, op_ping, payload) s₁ s' m e
        (on_frame-ping (started op cs) true payload frame w u.0 u.1 enc)
        (receive-Continued fuel op cs ps fs m s' w' c rest (omega (arith, len)) u h)
