-- ===== src/Transport/WebSocket/Closing.antt =====
-- The end of a connection in transport/ws.py: Close frames, `close`, and what comes after.
use priestly.Base.{
  ℕ, suc, ◌+◌, ◌≤◌, ◌<◌, ◌≡◌, refl, sym, ap, ◌∙◌, Bool, true, false, none, some, List, [], ◌∷◌,
  ◌++◌, arith, if◌then◌else◌, length, leb, connection_closed, Result, ok, raise, Bytes, os_error,
  struct_error, bind-returned, ◌^◌, ◌⊎◌, inl, inr, take, take-append, length-append, be_bytes,
  from_bytes-be_bytes, length-be_bytes,
}
use priestly.Base.Int.{ℤ, pos}
use priestly.Base.State.{Action, throw_if, bind-ok, lift, proceed}
use priestly.Base.State as State
use priestly.Python.Text.{Text}
use priestly.Transport.Socket.{Socket}
use priestly.Transport.Socket.Exact.{available}
use priestly.Transport.Frame.{read_frame, op_text, op_close, op_binary}
use priestly.Transport.Frame.Wire.{encode_frame-returns}
use priestly.Python.Utf8.{encode}
use priestly.Transport.WebSocket.{
  WebSocket, Message, nothing_yet, parse_close, pack_code, close_payload, mark_closed, finish_close,
  encode_own, sendall, send_frame, send, send_bytes, on_frame, on_socket, receive, recv, close,
}

if_true : {A : Type 0} (b : Bool) (x y : A) → b ≡ true → (if b then y else x) ≡ y
if_true true x y h = refl
if_true false x y h = absurd (cc h)

if_false : {A : Type 0} (b : Bool) (x y : A) → b ≡ false → (if b then x else y) ≡ y
if_false false x y h = refl
if_false true x y h = absurd (cc h)

-- A call on the object.
pub data Call : Type 0 where
  sends : (message : Text) → Call
  sends_bytes : (payload : Bytes) → Call
  receives : Call
  closes : (code : ℤ) (reason : Text) → Call

module _ (urandom : ℕ → Bytes) where
  pub recv-close :
      (fin : Bool) (payload : Bytes) (s : Socket) (ws : WebSocket)
      → ws.closed ≡ false
      → read_frame ws.incoming ≡ (ok (fin, op_close, payload), s)
      → recv urandom ws ≡ (
        raise (connection_closed (parse_close payload)),
        record ws { incoming = s; closed = true },
      )
  unfolding recv receive on_frame mark_closed
  recv-close fin payload s ws opened e =
      ap
        (λ (b : Bool).
          throw_if b (connection_closed none)
            (receive urandom (suc (length (available ws.incoming))) nothing_yet) ws)
        opened
      ∙ bind-ok (on_socket read_frame) _ (fin, op_close, payload) ws (record ws { incoming = s })
          (ap (λ (q : Result (Bool × ℕ × Bytes) × Socket). (q.0, record ws { incoming = q.1 })) e)

  pub closed-inert :
      (code : ℤ) (reason : Text) (payload : Bytes) (ws : WebSocket)
      → ws.closed ≡ true
      → (recv urandom ws ≡ (raise (connection_closed none), ws))
        × (send_bytes urandom payload ws ≡ (raise (connection_closed none), ws))
        × (close urandom code reason ws ≡ (ok tt, ws))
  unfolding recv send_bytes send_frame close
  closed-inert code reason payload ws h = (
    ap
        (λ (b : Bool).
          throw_if b (connection_closed none)
            (receive urandom (suc (length (available ws.incoming))) nothing_yet) ws)
        h,
    ap
        (λ (b : Bool).
          throw_if b (connection_closed none)
            (State.◌>>=◌ (encode_own urandom op_binary payload) (λ f. sendall f)) ws)
        h,
    if_true ws.closed _ (ok tt, ws) h,
  )

  sendall-outcome :
      (bs : Bytes) (ws : WebSocket)
      → (w : WebSocket) × ((sendall bs ws ≡ (ok tt, w)) ⊎ (sendall bs ws ≡ (raise os_error, w)))
  unfolding sendall
  sendall-outcome bs ws = go ws.faults refl
    where
      go :
          (f : List Bool)
          → ws.faults ≡ f
          → (w : WebSocket) × ((sendall bs ws ≡ (ok tt, w)) ⊎ (sendall bs ws ≡ (raise os_error, w)))
      go [] e = ((sendall bs ws).1, inl (rw (e, sendall) refl))
      go (true ∷ f) e = ((sendall bs ws).1, inr (rw (e, sendall) refl))
      go (false ∷ f) e = ((sendall bs ws).1, inl (rw (e, sendall) refl))

  -- close on an open object, with a code and a reason that can be encoded, in a payload shorter
  -- than 2 ^ 64 bytes, returns and leaves the object and its socket closed, also when sending the
  -- Close frame fails.
  pub close-ends :
      (code : ℤ) (reason : Text) (payload : Bytes) (ws : WebSocket)
      → ws.closed ≡ false
      → close_payload code reason ≡ ok payload
      → length payload < 2 ^ 64
      → (ws' : WebSocket) × (close urandom code reason ws ≡ (ok tt, ws'))
        × (ws'.closed ≡ true)
        × (ws'.socket_closed ≡ true)
  unfolding close
  close-ends code reason payload ws opened e room =
      let (frame, enc) =
        encode_frame-returns op_close payload ws.is_client (urandom ws.drawn) refl room in
      let w : WebSocket = record ws { drawn = if ws.is_client then ws.drawn + 1 else ws.drawn } in
      let own : encode_own urandom op_close payload ws ≡ (ok frame, w) =
        unfold encode_own in ap (λ (r : Result Bytes). (r, w)) enc in
      let (w', outcome) = sendall-outcome frame w in
      let both : State.◌>>=◌ (encode_own urandom op_close payload) (λ f. sendall f) ws
          ≡ sendall frame w =
        bind-ok (encode_own urandom op_close payload) (λ f. sendall f) frame ws w own in
      let body : close urandom code reason ws ≡ finish_close (sendall frame w) =
        if_false ws.closed (ok tt, ws) _ opened
        ∙ bind-ok (lift (close_payload code reason)) _ payload ws ws
            (ap (λ (r : Result Bytes). (r, ws)) e)
        ∙ ap finish_close both in
      (
        record w' { closed = true; socket_closed = true },
        elim outcome [
          | inl q ↦ body ∙ ap finish_close q ∙ (unfold finish_close in refl)
          | inr q ↦ body ∙ ap finish_close q ∙ (unfold finish_close in refl)
        ],
        refl,
        refl,
      )

  -- The object behind a call.
  abbrev pub called : Call → WebSocket → WebSocket
  called (sends message) ws = (send urandom message ws).1
  called (sends_bytes payload) ws = (send_bytes urandom payload ws).1
  called receives ws = (recv urandom ws).1
  called (closes code reason) ws = (close urandom code reason ws).1

  abbrev pub after_calls : List Call → WebSocket → WebSocket
  after_calls [] ws = ws
  after_calls (c ∷ cs) ws = after_calls cs (called c ws)

  sent-inert :
      (r : Result Bytes) (ws : WebSocket)
      → ws.closed ≡ true
      → (proceed r (λ payload. send_frame urandom op_text payload) ws).1 ≡ ws
  unfolding send_frame
  sent-inert (raise e) ws h = refl
  sent-inert (ok payload) ws h =
      ap
        (λ (b : Bool).
          (throw_if b (connection_closed none)
            (State.◌>>=◌ (encode_own urandom op_text payload) (λ f. sendall f)) ws).1)
        h

  called-inert : (c : Call) (ws : WebSocket) → ws.closed ≡ true → called c ws ≡ ws
  unfolding send
  called-inert (sends message) ws h = sent-inert (encode message) ws h
  called-inert (sends_bytes payload) ws h =
      ap (λ (x : Result (Unit {0}) × WebSocket). x.1) (closed-inert (pos 0) [] payload ws h).1
  called-inert receives ws h =
      ap (λ (x : Result Message × WebSocket). x.1) (closed-inert (pos 0) [] [] ws h).0
  called-inert (closes code reason) ws h =
      ap (λ (x : Result (Unit {0}) × WebSocket). x.1) (closed-inert code reason [] ws h).2

  after_calls-inert :
      (calls : List Call) (ws : WebSocket) → ws.closed ≡ true → after_calls calls ws ≡ ws
  after_calls-inert [] ws h = refl
  after_calls-inert (c ∷ cs) ws h =
      ap (after_calls cs) (called-inert c ws h) ∙ after_calls-inert cs ws h

  -- Once close has been called on an open object, with a code and a reason that can be encoded, in
  -- a payload shorter than 2 ^ 64 bytes, no sequence of calls of send, send_bytes, recv and close
  -- changes the object or its socket any more.
  pub after_calls-close :
      (calls : List Call) (code : ℤ) (reason : Text) (payload : Bytes) (ws : WebSocket)
      → ws.closed ≡ false
      → close_payload code reason ≡ ok payload
      → length payload < 2 ^ 64
      → after_calls calls (close urandom code reason ws).1 ≡ (close urandom code reason ws).1
  after_calls-close calls code reason payload ws opened e room =
      let (ws', ends, closed, _) = close-ends code reason payload ws opened e room in
      after_calls-inert calls (close urandom code reason ws).1
        (ap (λ (x : Result (Unit {0}) × WebSocket). x.1.closed) ends ∙ closed)

pack_code_returned :
    (code : ℕ) (head : Bytes)
    → pack_code (pos code) ≡ ok head
    → (code ≤ 65535) × (head ≡ be_bytes 2 code)
unfolding pack_code
pack_code_returned code head e = go (leb code 65535) refl e
  where
    go :
        (b : Bool)
        → leb code 65535 ≡ b
        → (if b then ok (be_bytes 2 code) else raise struct_error) ≡ ok head
        → (code ≤ 65535) × (head ≡ be_bytes 2 code)
    go true q h = (ground (arith, q), cc h)
    go false q h = absurd (cc h)

parse_close-packed :
    (code : ℕ) (tail : Bytes) → code ≤ 65535 → parse_close (be_bytes 2 code ++ tail) ≡ some code
unfolding parse_close
parse_close-packed code tail h =
    let size : length (be_bytes 2 code ++ tail) ≡ 2 + length tail =
      omega (arith, length-append (be_bytes 2 code) tail, length-be_bytes 2 code) in
    let long : leb 2 (length (be_bytes 2 code ++ tail)) ≡ true = ground (arith, size) in
    let front : take 2 (be_bytes 2 code ++ tail) ≡ be_bytes 2 code =
      take-append (be_bytes 2 code) tail 2 (sym (length-be_bytes 2 code)) in
    rw (long, front) (ap some (from_bytes-be_bytes 2 code (omega (arith, h))))

-- The code read from the payload of a Close frame is the one that close was called with.
pub parse_close-close_payload :
    (code : ℕ) (reason : Text) (payload : Bytes)
    → close_payload (pos code) reason ≡ ok payload
    → parse_close payload ≡ some code
unfolding close_payload
parse_close-close_payload code reason payload e =
    let (head, packed, rest) = bind-returned (pack_code (pos code)) _ payload e in
    let (tail, encoded, joined) = bind-returned (encode reason) _ payload rest in
    let (small, same) = pack_code_returned code head packed in
    ap parse_close (sym (cc joined) ∙ ap (λ (b : Bytes). b ++ tail) same)
    ∙ parse_close-packed code tail small
