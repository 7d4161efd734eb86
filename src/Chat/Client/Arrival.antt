-- ===== src/Chat/Client/Arrival.antt =====
-- A message that the relay of cli/relay.py delivers is the one that cli/chat_client.py receives.
use priestly.Base.{
  ℕ, ◌+◌, ◌<◌, ◌^◌, ◌≡◌, refl, sym, ap, ◌∙◌, Bool, true, false, Option, none, some, [], ◌∷◌, ◌++◌,
  length, Result, ok, raise, Bytes, IsBytes, arith, ◌&&◌, ltb, ltb→lt,
}
use priestly.Base as Base
use priestly.Base.Int.{pos}
use priestly.Base.State.{proceed}
use priestly.Python.Text.{Text, is_ascii}
use priestly.Python.Utf8.Codec.{encode-ascii}
use priestly.Protocol.Packets.{Frame, SealedFrame, sealed, dumps, loads}
use priestly.Protocol.Packets.Bridge.{loads-dumps}
use priestly.Protocol.Session.{SessionState, seal, open_frame}
use priestly.Protocol.Session.Channel.{Paired, open_frame-seal}
use priestly.Transport.Socket.Exact.{available}
use priestly.Transport.WebSocket as WebSocket
use priestly.Transport.WebSocket.{WebSocket, send, recv}
use priestly.Transport.WebSocket.Receive.{IsUsable}
use priestly.Transport.WebSocket.Messages.{recv-send}
use priestly.Transport.WebSocket.Sent.{send-fits}
use priestly.Chat.Relay.{
  message_fields, RegisteredClient, encode_message, decode_message, transmit, transmit_sealed,
  deliver, deliver_by, on_ws,
}
use priestly.Chat.Relay.Payload.{decode_message-encode_message}
use priestly.Chat.Server.{Platform, receive_packet}
use priestly.Chat.Client.{ChatClient, receive_message, read_message, open_with}

ascii-IsBytes : (t : Text) → is_ascii t ≡ true → IsBytes t
unfolding is_ascii
ascii-IsBytes [] h = tt
ascii-IsBytes (c ∷ t) h =
    let (small, more) = parts (ltb c 128) (is_ascii t) h in
    let less : c < 128 = ltb→lt c 128 small in (omega (arith, less), ascii-IsBytes t more)
  where
    parts : (x y : Bool) → x && y ≡ true → (x ≡ true) × (y ≡ true)
    parts true y e = (refl, e)
    parts false y e = absurd (cc e)

module _ (platform : Platform) where
  -- A transmission that returned wrote the packet of its frame.
  transmit-went :
      (frame : Frame) (c c' : RegisteredClient)
      → transmit platform.urandom platform.json platform.pydantic frame c ≡ (ok tt, c')
      → (t : Text) × (dumps platform.pydantic frame ≡ ok t)
        × (send platform.urandom t c.ws ≡ (ok tt, c'.ws))
        × (c'.session ≡ c.session)
  unfolding transmit
  transmit-went frame c c' e = by_dump (dumps platform.pydantic frame) refl e
    where
      by_dump :
          (r : Result Text)
          → dumps platform.pydantic frame ≡ r
          → proceed r (λ t. on_ws (send platform.urandom t)) c ≡ (ok tt, c')
          → (t : Text) × (dumps platform.pydantic frame ≡ ok t)
            × (send platform.urandom t c.ws ≡ (ok tt, c'.ws))
            × (c'.session ≡ c.session)
      by_dump (ok t) d h = (
        t,
        d,
        ap (λ (r : Result (Unit {0}) × RegisteredClient). (r.0, r.1.ws)) h,
        sym (ap (λ (r : Result (Unit {0}) × RegisteredClient). r.1.session) h),
      )
      by_dump (raise x) d h = absurd (cc (ap (λ (r : Result (Unit {0}) × RegisteredClient). r.0) h))

  -- What a client with a session reads from a packet.
  receive_packet-read :
      (frame : Frame) (t : Text) (ws ws' : WebSocket)
      → recv platform.urandom ws ≡ (ok (WebSocket.text t), ws')
      → dumps platform.pydantic frame ≡ ok t
      → receive_packet platform ws ≡ (ok frame, ws')
  unfolding receive_packet
  receive_packet-read frame t ws ws' r d =
      let read : loads platform.pydantic t ≡ ok frame = loads-dumps platform.pydantic frame t d in
      rw (r, read) refl

  -- A delivery to a client with a session, up to the transmission.
  deliver-sealed :
      (text sender : Text) (plaintext : Bytes) (frame : SealedFrame) (s s' : SessionState)
      (c : RegisteredClient)
      → c.session ≡ some s
      → encode_message platform.json text sender ≡ ok plaintext
      → seal s plaintext ≡ (ok frame, s')
      → deliver platform.urandom platform.json platform.pydantic text sender c
        ≡ transmit platform.urandom platform.json platform.pydantic
            (sealed frame)
            (record c { session = some s' })
  unfolding deliver deliver_by transmit_sealed
  deliver-sealed text sender plaintext frame s s' c has encoded sealing =
      ap
        (λ (o : Option SessionState).
          deliver_by platform.urandom platform.json platform.pydantic text sender o c)
        has
      ∙ ap
          (λ (r : Result Bytes).
            proceed r (transmit_sealed platform.urandom platform.json platform.pydantic s) c)
          encoded
      ∙ ap
          (λ (x : Result SealedFrame × SessionState).
            proceed x.0 (λ f. transmit platform.urandom platform.json platform.pydantic (sealed f))
              (record c { session = some x.1 }))
          sealing

  -- What the client makes of a sealed frame.
  receive_message-sealed :
      (text sender : Text) (plaintext : Bytes) (frame : SealedFrame) (r r' : SessionState)
      (client : ChatClient) (w : WebSocket)
      → client.session ≡ some r
      → receive_packet platform client.ws ≡ (ok (sealed frame), w)
      → open_frame r frame ≡ (ok plaintext, r')
      → decode_message platform.json plaintext ≡ ok (text, sender)
      → receive_message platform client
        ≡ (ok (text, sender), record client { ws = w; session = some r' })
  unfolding receive_message read_message open_with
  receive_message-sealed text sender plaintext frame r r' client w has read opens decodes =
      ap
        (λ (x : Result Frame × WebSocket).
          proceed x.0 (read_message platform) (record client { ws = x.1 }))
        read
      ∙ ap (λ (o : Option SessionState). open_with platform frame o (record client { ws = w })) has
      ∙ ap
          (λ (x : Result Bytes × SessionState). (
            Base.◌>>=◌ x.0 (decode_message platform.json),
            record client { ws = w; session = some x.1 },
          ))
          opens
      ∙ ap (λ (d : Result (Text × Text)). (d, record client { ws = w; session = some r' })) decodes

  -- What the relay delivers to a client with a session, receive at the other end of the connection
  -- returns as the same text and sender, if the two sessions are paired: the delivered bytes are
  -- read and nothing after them, and the sessions stay paired with their numbers raised by one, as
  -- long as the payload is shorter than 2 ^ 32 bytes, the number stays below 2 ^ 64, the masking
  -- key has four bytes and both connections are usable.
  pub deliver-receive_message :
      (text sender : Text) (bytes rest : Bytes) (s r : SessionState) (c c' : RegisteredClient)
      (client : ChatClient)
      → c.session ≡ some s
      → client.session ≡ some r
      → Paired s r
      → length (platform.json.dumps (message_fields text sender)) < 2 ^ 32
      → s.tx_seq + 1 < 2 ^ 64
      → length (platform.urandom c.ws.drawn) ≡ 4
      → IsUsable c.ws
      → IsUsable client.ws
      → deliver platform.urandom platform.json platform.pydantic text sender c ≡ (ok tt, c')
      → c'.ws.outgoing ≡ c.ws.outgoing ++ bytes
      → available client.ws.incoming ≡ bytes ++ rest
      → let s' = record s { tx_seq = s.tx_seq + 1 } in
        let r' = record r { rx_seq = pos (s.tx_seq + 1) } in
        (w : WebSocket) × (receive_message platform client
          ≡ (ok (text, sender), record client { ws = w; session = some r' }))
        × (c'.session ≡ some s')
        × Paired s' r'
        × (available w.incoming ≡ rest)
        × IsUsable w
  unfolding encode_message
  deliver-receive_message text sender bytes rest s r c c' client has has' pair short room keys uf ut
        delivers grown arrives =
      let plain : Text = platform.json.dumps (message_fields text sender) in
      let (plaintext, encoded, decodes) = decode_message-encode_message platform.json text sender in
      let ascii : is_ascii plain ≡ true = platform.json.dumps_ascii (message_fields text sender) in
      let itself : encode_message platform.json text sender ≡ ok plain = encode-ascii plain ascii in
      let same : plain ≡ plaintext = cc (sym itself ∙ encoded) in
      let read_back : decode_message platform.json plain ≡ ok (text, sender) =
        ap (decode_message platform.json) same ∙ decodes in
      let (frame, sealing, opens, paired) =
        open_frame-seal s r plain pair (ascii-IsBytes plain ascii) short room in
      let s' : SessionState = record s { tx_seq = s.tx_seq + 1 } in
      let r' : SessionState = record r { rx_seq = pos (s.tx_seq + 1) } in
      let (t, dumped, sends, kept) =
        transmit-went (sealed frame) (record c { session = some s' }) c'
          (sym (deliver-sealed text sender plain frame s s' c has itself sealing) ∙ delivers) in
      let (payload, encodes, fits) = send-fits platform.urandom t c.ws c'.ws sends in
      let (w, received, left, usable) =
        recv-send platform.urandom t payload bytes rest c.ws client.ws c'.ws encodes fits keys uf ut
          sends grown arrives in
      (
        w,
        receive_message-sealed text sender plain frame r r' client w has'
            (receive_packet-read (sealed frame) t client.ws w received dumped) opens read_back,
        kept,
        paired,
        left,
        usable,
      )
