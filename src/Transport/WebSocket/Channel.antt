-- ===== src/Transport/WebSocket/Channel.antt =====
-- Two ends of transport/ws.py, of which one sends texts to the other, and what they promise: a queue.
use priestly.Base.{
  ℕ, ◌<◌, ◌^◌, ◌≡◌, refl, sym, ap, ◌∙◌, Option, none, some, List, [], ◌∷◌, ◌++◌, append-nil,
  append_assoc, length, drop, drop-append, All, Result, ok, raise, protocol_error, ◌>>=◌, Bytes,
}
use mathlib.Core.Path.{subst}
use mathlib.Core.Option as Option
use priestly.Python.Text.{Text}
use priestly.Python.Utf8.{encode}
use priestly.Transport.Socket.{Socket, chunk}
use priestly.Transport.Socket.Exact.{available}
use priestly.Transport.WebSocket.{WebSocket, Message, text, binary, send, recv}
use priestly.Transport.WebSocket.Receive.{IsUsable, after_sending}
use priestly.Transport.WebSocket.Messages.{send-sent, recv-send}

-- What is done with a channel, in order.
pub data Operation : Type 0 where
  put : Text → Operation
  get : Operation

-- The queue: what the calls of `get` return, if none of them meets an empty queue.
unfoldable pub queued : List Text → List Operation → Option (List Text)
queued q [] = some []
queued q (put t ∷ ops) = queued (q ++ (t ∷ [])) ops
queued [] (get ∷ ops) = none
queued (t ∷ q) (get ∷ ops) = Option.map (λ (ts : List Text). t ∷ ts) (queued q ops)

-- The bytes in one delivery.
abbrev whole : Bytes → Socket
whole [] = []
whole (b ∷ bs) = chunk b bs ∷ []

available-whole : (bs : Bytes) → available (whole bs) ≡ bs
available-whole [] = refl
available-whole (b ∷ bs) = ap (λ (t : Bytes). b ∷ t) (append-nil bs)

abbrev pub text_then : Message → Result (List Text) → Result (List Text)
text_then (text t) rest = rest >>= λ ts. ok (t ∷ ts)
text_then (binary b) rest = raise protocol_error

-- What the first end has written since comes behind what the second has not yet read.
abbrev pub arrived : WebSocket → WebSocket → WebSocket → WebSocket
arrived from from' to = record to {
  incoming = whole (available to.incoming ++ drop (length from.outgoing) from'.outgoing);
}

-- The number of bytes a masking key has, and a text that one message can carry.
abbrev pub Sendable : Operation → Type 0
Sendable (put t) = (payload : Bytes) × (encode t ≡ ok payload) × (length payload < 2 ^ 64)
Sendable get = Unit

map-some :
    {A B : Type 0} (f : A → B) (o : Option A) (b : B)
    → Option.map f o ≡ some b
    → (a : A) × (o ≡ some a) × (f a ≡ b)
map-some f none b h = absurd (cc h)
map-some f (some a) b h = (a, refl, cc h)

module _ (urandom : ℕ → Bytes) where
  -- The same with the two ends: `put` is send at the first, `get` is recv at the second.
  unfoldable pub exchanged : WebSocket → WebSocket → List Operation → Result (List Text)
  exchanged from to [] = ok []
  exchanged from to (put t ∷ ops) =
      let (r, from') = send urandom t from in r >>= λ u. exchanged from' (arrived from from' to) ops
  exchanged from to (get ∷ ops) =
      let (r, to') = recv urandom to in r >>= λ m. text_then m (exchanged from to' ops)

  -- Bytes that are received as the text, whatever follows them.
  abbrev IsReceived : Text → Bytes → Type 0
  IsReceived t frame =
      (to : WebSocket) (rest : Bytes)
      → available to.incoming ≡ frame ++ rest
      → IsUsable to
      → (to' : WebSocket) × (recv urandom to ≡ (ok (text t), to'))
        × (available to'.incoming ≡ rest)
        × IsUsable to'

  -- The bytes under way are those of the texts in the queue.
  abbrev Carries : Bytes → List Text → Type 0
  Carries bytes [] = bytes ≡ []
  Carries bytes (t ∷ q) =
      (frame : Bytes) × (rest : Bytes) × (bytes ≡ frame ++ rest)
      × IsReceived t frame
      × Carries rest q

  append-Carries :
      (q : List Text) (bytes frame : Bytes) (t : Text)
      → Carries bytes q
      → IsReceived t frame
      → Carries (bytes ++ frame) (q ++ (t ∷ []))
  append-Carries [] bytes frame t e r =
      (frame, [], ap (λ (b : Bytes). b ++ frame) e ∙ sym (append-nil frame), r, refl)
  append-Carries (t' ∷ q) bytes frame t (first, rest, e, r', h) r = (
    first,
    rest ++ frame,
    ap (λ (b : Bytes). b ++ frame) e ∙ append_assoc first rest frame,
    r',
    append-Carries q rest frame t h r,
  )

  module _ (keys : (n : ℕ) → length (urandom n) ≡ 4) where
    queued-exchanged :
        (ops : List Operation) (q : List Text) (from to : WebSocket) (ts : List Text)
        → All Sendable ops
        → IsUsable from
        → IsUsable to
        → Carries (available to.incoming) q
        → queued q ops ≡ some ts
        → exchanged from to ops ≡ ok ts
    unfolding queued exchanged
    queued-exchanged [] q from to ts s uf ut c h = cc h
    queued-exchanged (put t ∷ ops) q from to ts ((payload, e, room), s) uf ut c h =
        let (frame, enc, sent) = send-sent urandom t payload from e room uf in
        let from' : WebSocket = after_sending urandom frame from in
        let grown : available (arrived from from' to).incoming ≡ available to.incoming ++ frame =
          available-whole (available to.incoming ++ drop (length from.outgoing) from'.outgoing)
          ∙ ap (λ (b : Bytes). available to.incoming ++ b)
              (drop-append from.outgoing frame (length from.outgoing) refl) in
        let received : IsReceived t frame = λ to' rest arrives usable.
          recv-send urandom t payload frame rest from to' from' e room (keys from.drawn) uf usable
            sent refl arrives in
        ap
          (λ (r : Result (Unit {0}) × WebSocket).
            r.0 >>= λ u. exchanged r.1 (arrived from r.1 to) ops)
          sent
        ∙ queued-exchanged ops (q ++ (t ∷ [])) from' (arrived from from' to) ts s uf ut
            (subst (λ (b : Bytes). Carries b (q ++ (t ∷ []))) (sym grown)
              (append-Carries q (available to.incoming) frame t c received))
            h
    queued-exchanged (get ∷ ops) [] from to ts s uf ut c h = absurd (cc h)
    queued-exchanged (get ∷ ops) (t ∷ q) from to ts s uf ut (frame, rest, e, r, c) h =
        let (to', returns, left, usable) = r to rest e ut in
        let (ts', more, same) = map-some (λ (xs : List Text). t ∷ xs) (queued q ops) ts h in
        ap (λ (x : Result Message × WebSocket). x.0 >>= λ m. text_then m (exchanged from x.1 ops))
          returns
        ∙ ap (λ (x : Result (List Text)). x >>= λ xs. ok (t ∷ xs))
            (queued-exchanged ops q from to' ts' s.1 uf usable
              (subst (λ (b : Bytes). Carries b q) (sym left) c) more)
        ∙ ap ok same

    -- Send at one usable end and recv at the other implement a queue of texts: in any order of
    -- sends and receipts that never takes from an empty queue, every call returns, and the texts
    -- received are the ones the queue gives, if the texts can be encoded in less than 2 ^ 64 bytes
    -- and the masking keys have four bytes.
    pub exchanged-queued :
        (ops : List Operation) (from to : WebSocket) (ts : List Text)
        → All Sendable ops
        → IsUsable from
        → IsUsable to
        → available to.incoming ≡ []
        → queued [] ops ≡ some ts
        → exchanged from to ops ≡ ok ts
    exchanged-queued ops from to ts s uf ut nothing h =
        queued-exchanged ops [] from to ts s uf ut nothing h
