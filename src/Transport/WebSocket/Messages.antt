-- ===== src/Transport/WebSocket/Messages.antt =====
-- Whole messages of transport/ws.py: what one end sends the other receives.
use priestly.Base.{
  ℕ, zero, suc, ◌+◌, ◌≤◌, ◌<◌, ◌^◌, ◌≡◌, refl, sym, ap, ◌∙◌, Bool, true, false, none, List, [], ◌∷◌,
  ◌++◌, append-nil, arith, length, drop, drop-append, connection_closed, Result, ok, Bytes,
}
use priestly.Base.State.{throw_if, bind-ok, lift}
use priestly.Python.Text.{Text}
use priestly.Python.Utf8.{encode, decode}
use priestly.Python.Utf8.Codec.{decode-encode}
use priestly.Transport.Socket.{Socket}
use priestly.Transport.Socket.Exact.{available}
use priestly.Transport.Frame.{encode_frame, op_text, op_ping, op_pong}
use priestly.Transport.Frame.Wire.{encode_frame-returns, read_frame-encode_frame}
use priestly.Transport.WebSocket.{
  WebSocket, Message, text, again, finished, nothing_yet, message_of, gather, on_data, send_frame,
  send, on_frame, receive, recv, result_map,
}
use priestly.Transport.WebSocket.Stream.{receive-enough}
use priestly.Transport.WebSocket.Receive.{
  Frame, Frames, none_left, next_read, Fragmented, whole, start, pong_before, ping_before, IsUsable,
  Delivers, started, data_opcode, after_sending, send_frame-sent, round_end, round_again,
  on_frame-pong, on_frame-ping, receive-Continued,
}

message_of-text :
    (payload : Bytes) (t : Text)
    → decode payload ≡ ok t
    → message_of (started op_text (payload ∷ [])) ≡ ok (text t)
unfolding message_of
message_of-text payload t h =
    ap (λ (b : Bytes). result_map text (decode b)) (append-nil payload)
    ∙ ap (λ (r : Result Text). result_map text r) h

module _ (urandom : ℕ → Bytes) where
  on_frame-whole :
      (b : Bool) (payload : Bytes) (m : Message) (ws : WebSocket)
      → message_of (started (data_opcode b) (payload ∷ [])) ≡ ok m
      → on_frame urandom nothing_yet (true, data_opcode b, payload) ws ≡ (ok (finished m), ws)
  unfolding on_frame on_data gather
  on_frame-whole true payload m ws h = ap (λ (r : Result Message). (result_map finished r, ws)) h
  on_frame-whole false payload m ws h = ap (λ (r : Result Message). (result_map finished r, ws)) h

  on_frame-start :
      (b : Bool) (payload : Bytes) (ws : WebSocket)
      → on_frame urandom nothing_yet (false, data_opcode b, payload) ws
        ≡ (ok (again (started (data_opcode b) (payload ∷ []))), ws)
  unfolding on_frame on_data gather
  on_frame-start true payload ws = refl
  on_frame-start false payload ws = refl

  receive-Fragmented :
      (fuel : ℕ) (b : Bool) (ps : List Bytes) (fs : List Frame) (m : Message) (s' : Socket)
      (ws : WebSocket)
      → Fragmented (data_opcode b) ps fs
      → Frames ws.incoming fs s'
      → length fs ≤ fuel
      → IsUsable ws
      → message_of (started (data_opcode b) ps) ≡ ok m
      → Delivers (receive urandom fuel nothing_yet) ws m s'
  receive-Fragmented zero b _ _ m s' ws (whole payload) r len u h = absurd (omega arith)
  receive-Fragmented zero b _ _ m s' ws (start payload c) r len u h = absurd (omega arith)
  receive-Fragmented zero b _ _ m s' ws (pong_before payload c) r len u h = absurd (omega arith)
  receive-Fragmented zero b _ _ m s' ws (ping_before payload small c) r len u h =
      absurd (omega arith)
  receive-Fragmented (suc fuel) b _ _ m s' ws (whole payload) (next_read {s' = s₁} e none_left) len
        u h =
      let w : WebSocket = record ws { incoming = s₁ } in
      (
        w,
        round_end urandom fuel nothing_yet ws w (true, data_opcode b, payload) s₁ (finished m) e
            (on_frame-whole b payload m w h),
        refl,
        u,
      )
  receive-Fragmented (suc fuel) b _ _ m s' ws (start {ps = ps} {fs = fs} payload c)
        (next_read {s' = s₁} e rest) len u h =
      let w : WebSocket = record ws { incoming = s₁ } in
      round_again urandom fuel nothing_yet (started (data_opcode b) (payload ∷ [])) ws w
        (false, data_opcode b, payload) s₁ s' m e (on_frame-start b payload w)
        (receive-Continued urandom fuel (data_opcode b) (payload ∷ []) ps fs m s' w c rest
          (omega (arith, len)) u h)
  receive-Fragmented (suc fuel) b ps _ m s' ws (pong_before {fs = fs} payload c)
        (next_read {s' = s₁} e rest) len u h =
      let w : WebSocket = record ws { incoming = s₁ } in
      round_again urandom fuel nothing_yet nothing_yet ws w (true, op_pong, payload) s₁ s' m e
        (on_frame-pong urandom nothing_yet true payload w)
        (receive-Fragmented fuel b ps fs m s' w c rest (omega (arith, len)) u h)
  receive-Fragmented (suc fuel) b ps _ m s' ws (ping_before {fs = fs} payload small c)
        (next_read {s' = s₁} e rest) len u h =
      let w : WebSocket = record ws { incoming = s₁ } in
      let (frame, enc) =
        encode_frame-returns op_pong payload w.is_client (urandom w.drawn) refl
          (omega (arith, small)) in
      let w' : WebSocket = after_sending urandom frame w in
      round_again urandom fuel nothing_yet nothing_yet ws w' (true, op_ping, payload) s₁ s' m e
        (on_frame-ping urandom nothing_yet true payload frame w u.0 u.1 enc)
        (receive-Fragmented fuel b ps fs m s' w' c rest (omega (arith, len)) u h)

  recv_opened :
      (ws : WebSocket)
      → ws.closed ≡ false
      → recv urandom ws ≡ receive urandom (suc (length (available ws.incoming))) nothing_yet ws
  unfolding recv
  recv_opened ws opened =
      ap
        (λ (b : Bool).
          throw_if b (connection_closed none)
            (receive urandom (suc (length (available ws.incoming))) nothing_yet) ws)
        opened

  -- recv on a usable object puts the fragments of a text or binary message together, passes over
  -- the pings and pongs before and among them, reads just the frames of the message and leaves the
  -- object usable.
  pub recv-Fragmented :
      (b : Bool) (ps : List Bytes) (fs : List Frame) (m : Message) (s' : Socket) (ws : WebSocket)
      → Fragmented (data_opcode b) ps fs
      → Frames ws.incoming fs s'
      → IsUsable ws
      → message_of (started (data_opcode b) ps) ≡ ok m
      → (ws' : WebSocket) × (recv urandom ws ≡ (ok m, ws')) × (ws'.incoming ≡ s') × IsUsable ws'
  recv-Fragmented b ps fs m s' ws c r u h =
      let n : ℕ = length (available ws.incoming) in
      let (ws', returns, left, usable) =
        receive-Fragmented (suc n + length fs) b ps fs m s' ws c r (omega arith) u h in
      (
        ws',
        recv_opened ws u.0
            ∙ receive-enough urandom (suc n) (suc n + length fs) nothing_yet ws (omega arith)
                (omega arith)
            ∙ returns,
        left,
        usable,
      )

  -- `send` of a text that can be encoded.
  pub send-sent :
      (t : Text) (payload : Bytes) (ws : WebSocket)
      → encode t ≡ ok payload
      → length payload < 2 ^ 64
      → IsUsable ws
      → (frame : Bytes) × (encode_frame op_text payload ws.is_client (urandom ws.drawn) ≡ ok frame)
        × (send urandom t ws ≡ (ok tt, after_sending urandom frame ws))
  unfolding send
  send-sent t payload ws e room u =
      let (frame, enc) =
        encode_frame-returns op_text payload ws.is_client (urandom ws.drawn) refl room in
      (
        frame,
        enc,
        bind-ok (lift (encode t)) (λ p. send_frame urandom op_text p) payload ws ws
              (ap (λ (r : Result Bytes). (r, ws)) e)
            ∙ send_frame-sent urandom op_text payload frame ws u.0 u.1 enc,
      )

  -- What send puts on the wire at one end of a usable connection, of a text whose UTF-8 form is
  -- shorter than 2 ^ 64 bytes and with a masking key of four bytes, recv returns at the other as
  -- the same text, whatever deliveries it arrives in and whatever follows it.
  pub recv-send :
      (t : Text) (payload bytes rest : Bytes) (from to from' : WebSocket)
      → encode t ≡ ok payload
      → length payload < 2 ^ 64
      → length (urandom from.drawn) ≡ 4
      → IsUsable from
      → IsUsable to
      → send urandom t from ≡ (ok tt, from')
      → from'.outgoing ≡ from.outgoing ++ bytes
      → available to.incoming ≡ bytes ++ rest
      → (to' : WebSocket) × (recv urandom to ≡ (ok (text t), to'))
        × (available to'.incoming ≡ rest)
        × IsUsable to'
  recv-send t payload bytes rest from to from' e room len uf ut sent grown arrives =
      let (frame, enc, sends) = send-sent t payload from e room uf in
      let same : from'.outgoing ≡ from.outgoing ++ frame =
        ap (λ (r : Result (Unit {0}) × WebSocket). r.1.outgoing) (sym sent ∙ sends) in
      let cut : bytes ≡ frame =
        sym (drop-append from.outgoing bytes (length from.outgoing) refl)
        ∙ ap (drop (length from.outgoing)) (sym grown ∙ same)
        ∙ drop-append from.outgoing frame (length from.outgoing) refl in
      let (s', read, left) =
        read_frame-encode_frame op_text payload from.is_client (urandom from.drawn) frame rest
          to.incoming refl (λ c. absurd (cc c)) room len enc
          (arrives ∙ ap (λ (b : Bytes). b ++ rest) cut) in
      let (to', returns, stream, usable) =
        recv-Fragmented true (payload ∷ []) ((true, op_text, payload) ∷ []) (text t) s' to
          (whole payload) (next_read read none_left) ut
          (message_of-text payload t (decode-encode t payload e)) in
      (to', returns, ap available stream ∙ left, usable)
