-- ===== src/Transport/WebSocket/Stream.antt =====
-- The loop of WebSocket.recv ends: each round takes two bytes at least off the stream.
use priestly.Base.{
  ℕ, zero, suc, ◌+◌, ◌≤◌, ◌<◌, ◌≡◌, refl, sym, ap, ◌∙◌, inl, inr, Bool, true, false, none, List, [],
  ◌∷◌, arith, ◌==◌, Bool-cases, if◌then◌else◌, length, get_or, Exception, connection_closed, Result,
  ok, raise, Bytes,
}
use priestly.Base.State.{Action, return, lift, throw_if, proceed}
use priestly.Base.State as State
use priestly.Transport.Socket.{Socket, recv_exact}
use priestly.Transport.Socket.Exact.{available, recv_exact_returned}
use priestly.Transport.Frame.{
  Head, parse_head, read_length, read_body, read_frame, op_close, op_ping, op_pong,
}
use priestly.Transport.WebSocket.{
  WebSocket, Partial, Round, again, finished, sendall, encode_own, send_frame, mark_closed,
  on_frame, next_round, receive,
}

-- A call that returns has taken at least `k` bytes off the stream.
abbrev pub Takes : {A : Type 0} → Action Socket A → ℕ → Type 0
Takes {A} m k =
    (s s' : Socket) (a : A) → m s ≡ (ok a, s') → length (available s') + k ≤ length (available s)

bind-Takes :
    {A B : Type 0} (m : Action Socket A) (f : A → Action Socket B) (j k : ℕ)
    → Takes m j
    → ((a : A) → Takes (f a) k)
    → Takes (State.◌>>=◌ m f) (j + k)
bind-Takes {A} {B} m f j k hm hf s s' b e = go (m s) refl e
  where
    go :
        (r : Result A × Socket)
        → m s ≡ r
        → proceed r.0 f r.1 ≡ (ok b, s')
        → length (available s') + (j + k) ≤ length (available s)
    go (ok a, s₁) p q = omega (arith, hm s s₁ a p, hf a s₁ s' b q)
    go (raise x, s₁) p q = absurd (cc q)

return-Takes : {A : Type 0} (a : A) → Takes (return {A = A} a) 0
return-Takes a s s' b e =
    let same : s ≡ s' = cc e in omega (arith, ap (λ t. length (available t)) same)

lift-Takes : {A : Type 0} (r : Result A) → Takes (lift r) 0
lift-Takes r s s' b e =
    let same : s ≡ s' = cc e in omega (arith, ap (λ t. length (available t)) same)

recv_exact-Takes : (n : ℕ) → Takes (recv_exact n) n
recv_exact-Takes n s s' x e = omega (arith, recv_exact_returned n s x s' e)

weaken-Takes : {A : Type 0} (m : Action Socket A) (k : ℕ) → Takes m k → Takes m 0
weaken-Takes m k h s s' a e = omega (arith, h s s' a e)

if-Takes :
    {A : Type 0} (b : Bool) (m n : Action Socket A)
    → Takes m 0
    → Takes n 0
    → Takes (if b then m else n) 0
if-Takes true m n hm hn = hm
if-Takes false m n hm hn = hn

exact-Takes : (n : ℕ) → Takes (recv_exact n) 0
exact-Takes n = weaken-Takes (recv_exact n) n (recv_exact-Takes n)

read_length-Takes : (n : ℕ) → Takes (read_length n) 0
unfolding read_length
read_length-Takes n =
    if-Takes (n == 126) _ _ (bind-Takes (recv_exact 2) _ 0 0 (exact-Takes 2) (λ b. return-Takes _))
      (if-Takes (n == 127) _ _
        (bind-Takes (recv_exact 8) _ 0 0 (exact-Takes 8) (λ b. return-Takes _)) (return-Takes n))

read_body-Takes : (h : Head) → Takes (read_body h) 0
unfolding read_body
read_body-Takes h = bind-Takes (read_length h.size) _ 0 0 (read_length-Takes h.size) λ n.
    bind-Takes _ _ 0 0 (if-Takes h.masked _ _ (exact-Takes 4) (return-Takes []))
      λ key. bind-Takes (recv_exact n) _ 0 0 (exact-Takes n) λ payload. return-Takes _

pub read_frame-Takes : Takes read_frame 2
unfolding read_frame
read_frame-Takes = bind-Takes (recv_exact 2) _ 2 0 (recv_exact-Takes 2) λ b.
    bind-Takes (lift (parse_head (get_or b 0 0) (get_or b 1 0))) _ 0 0 (lift-Takes _)
      λ head. read_body-Takes head

module _ (urandom : ℕ → Bytes) where
  sendall-incoming : (bs : Bytes) (ws : WebSocket) → (sendall bs ws).1.incoming ≡ ws.incoming
  unfolding sendall
  sendall-incoming bs ws = go ws.faults refl
    where
      go : (f : List Bool) → ws.faults ≡ f → (sendall bs ws).1.incoming ≡ ws.incoming
      go [] e = rw (e, sendall) refl
      go (true ∷ f) e = rw (e, sendall) refl
      go (false ∷ f) e = rw (e, sendall) refl

  encode_own-incoming :
      (op : ℕ) (payload : Bytes) (ws : WebSocket)
      → (encode_own urandom op payload ws).1.incoming ≡ ws.incoming
  unfolding encode_own
  encode_own-incoming op payload ws = refl

  bind-incoming :
      {A B : Type 0} (m : Action WebSocket A) (f : A → Action WebSocket B) (ws : WebSocket)
      → (m ws).1.incoming ≡ ws.incoming
      → ((a : A) (w : WebSocket) → (f a w).1.incoming ≡ w.incoming)
      → ((State.◌>>=◌ m f) ws).1.incoming ≡ ws.incoming
  bind-incoming {A} {B} m f ws hm hf = go (m ws) refl
    where
      go :
          (r : Result A × WebSocket)
          → m ws ≡ r
          → (proceed (m ws).0 f (m ws).1).1.incoming ≡ ws.incoming
      go (ok a, w) e = rw e (hf a w ∙ sym (ap (λ x. x.1.incoming) e) ∙ hm)
      go (raise x, w) e = rw e (sym (ap (λ x. x.1.incoming) e) ∙ hm)

  throw_if-incoming :
      {A : Type 0} (b : Bool) (exc : Exception) (m : Action WebSocket A) (ws : WebSocket)
      → (m ws).1.incoming ≡ ws.incoming
      → (throw_if b exc m ws).1.incoming ≡ ws.incoming
  throw_if-incoming true exc m ws h = refl
  throw_if-incoming false exc m ws h = h

  pub send_frame-incoming :
      (op : ℕ) (payload : Bytes) (ws : WebSocket)
      → (send_frame urandom op payload ws).1.incoming ≡ ws.incoming
  unfolding send_frame
  send_frame-incoming op payload ws =
      throw_if-incoming ws.closed (connection_closed none)
        (State.◌>>=◌ (encode_own urandom op payload) (λ frame. sendall frame)) ws
        (bind-incoming (encode_own urandom op payload) (λ frame. sendall frame) ws
          (encode_own-incoming op payload ws) (λ frame w. sendall-incoming frame w))

  pub on_frame-incoming :
      (p : Partial) (fin : Bool) (op : ℕ) (payload : Bytes) (ws : WebSocket)
      → (on_frame urandom p (fin, op, payload) ws).1.incoming ≡ ws.incoming
  unfolding on_frame mark_closed
  on_frame-incoming p fin op payload ws = elim (Bool-cases (op == op_close)) [
    | inl c ↦ rw c refl
    | inr c ↦ elim (Bool-cases (op == op_ping)) [
      | inl i ↦
          rw (c, i)
            (bind-incoming (send_frame urandom op_pong payload) (λ u. return (again p)) ws
              (send_frame-incoming op_pong payload ws) (λ u w. refl))
      | inr i ↦ elim (Bool-cases (op == op_pong)) [
        | inl o ↦ rw (c, i, o) refl
        | inr o ↦ rw (c, i, o) refl
      ]
    ]
  ]

  same_rounds :
      (fuel fuel' : ℕ) (m : Action WebSocket Round) (ws : WebSocket)
      → ((p : Partial) (w : WebSocket)
          → w.incoming ≡ (m ws).1.incoming
          → receive urandom fuel p w ≡ receive urandom fuel' p w)
      → State.◌>>=◌ m (λ r. next_round r (receive urandom fuel)) ws
        ≡ State.◌>>=◌ m (λ r. next_round r (receive urandom fuel')) ws
  same_rounds fuel fuel' m ws h = go (m ws) refl
    where
      go :
          (r : Result Round × WebSocket)
          → m ws ≡ r
          → State.◌>>=◌ m (λ r. next_round r (receive urandom fuel)) ws
            ≡ State.◌>>=◌ m (λ r. next_round r (receive urandom fuel')) ws
      go (ok (again p), w) e = rw e (h p w (ap (λ x. x.1.incoming) (sym e)))
      go (ok (finished msg), w) e = rw e refl
      go (raise x, w) e = rw e refl

  receive_round :
      (fuel fuel' : ℕ) (p : Partial) (ws : WebSocket)
      → ((p' : Partial) (w : WebSocket)
          → length (available w.incoming) < length (available ws.incoming)
          → receive urandom fuel p' w ≡ receive urandom fuel' p' w)
      → receive urandom (suc fuel) p ws ≡ receive urandom (suc fuel') p ws
  unfolding receive
  receive_round fuel fuel' p ws later = go (read_frame ws.incoming) refl
    where
      go :
          (r : Result (Bool × ℕ × Bytes) × Socket)
          → read_frame ws.incoming ≡ r
          → receive urandom (suc fuel) p ws ≡ receive urandom (suc fuel') p ws
      go (raise x, s) e = rw (e, receive) refl
      go (ok f, s) e =
          rw (e, receive)
            (same_rounds fuel fuel' (on_frame urandom p f) (record ws { incoming = s })
              λ p' w kept.
                let took : length (available s) + 2 ≤ length (available ws.incoming) =
                  read_frame-Takes ws.incoming s f e in
                let left : length (available w.incoming) ≡ length (available s) =
                  ap (λ t. length (available t))
                    (kept ∙ on_frame-incoming p f.0 f.1 f.2 (record ws { incoming = s })) in
                later p' w (omega (arith, took, left)))

  pub receive-enough :
      (fuel fuel' : ℕ) (p : Partial) (ws : WebSocket)
      → length (available ws.incoming) < fuel
      → length (available ws.incoming) < fuel'
      → receive urandom fuel p ws ≡ receive urandom fuel' p ws
  receive-enough zero fuel' p ws h h' = absurd (omega arith)
  receive-enough (suc fuel) zero p ws h h' = absurd (omega arith)
  receive-enough (suc fuel) (suc fuel') p ws h h' =
      receive_round fuel fuel' p ws λ p' w less.
        receive-enough fuel fuel' p' w (omega (arith, h, less)) (omega (arith, h', less))
