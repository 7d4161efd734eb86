-- ===== src/Transport/WebSocket/Sent.antt =====
-- A send of transport/ws.py that returned: the text was encoded, in less than 2 ^ 64 bytes.
use priestly.Base.{
  ℕ, ◌<◌, ◌^◌, ◌≡◌, refl, ap, Bool, true, false, ltb, ltb→lt, length, Result, ok, guard, ◌>>◌,
  value_error, struct_error, connection_closed, none, bind-returned, guard-returned, bit_or, ◌∷◌,
  [], be_bytes, if◌then◌else◌, Bytes, arith,
}
use priestly.Base.State.{lift, throw_if-went, bind-went, ◌>>=◌}
use priestly.Python.Text.{Text}
use priestly.Python.Utf8.{encode}
use priestly.Transport.Frame.{op_text, length_header, encode_frame, mask_bit_of}
use priestly.Transport.WebSocket.{WebSocket, encode_own, sendall, send_frame, send}

length_header-fits :
    (mask_bit n : ℕ) (header : Bytes) → length_header mask_bit n ≡ ok header → n < 2 ^ 64
unfolding length_header
length_header-fits mask_bit n header e = by_size (ltb n 126) (ltb n 65536) refl refl e
  where
    by_size :
        (x y : Bool)
        → ltb n 126 ≡ x
        → ltb n 65536 ≡ y
        → (if x
            then ok (bit_or mask_bit n ∷ [])
            else (if y
                then ok (bit_or mask_bit 126 ∷ be_bytes 2 n)
                else (guard (ltb n (2 ^ 64)) struct_error
                    >> ok (bit_or mask_bit 127 ∷ be_bytes 8 n))))
          ≡ ok header
        → n < 2 ^ 64
    by_size true y p q h = let small : n < 126 = ltb→lt n 126 p in omega (arith, small)
    by_size false true p q h = let small : n < 65536 = ltb→lt n 65536 q in omega (arith, small)
    by_size false false p q h =
        ltb→lt n (2 ^ 64) (guard-returned (ltb n (2 ^ 64)) struct_error _ header h).0

encode_frame-fits :
    (opcode : ℕ) (payload : Bytes) (masked : Bool) (key frame : Bytes)
    → encode_frame opcode payload masked key ≡ ok frame
    → length payload < 2 ^ 64
unfolding encode_frame
encode_frame-fits opcode payload masked key frame e =
    let (test, more) = guard-returned (ltb (bit_or 128 opcode) 256) value_error _ frame e in
    let (header, headed, rest) =
      bind-returned (length_header (mask_bit_of masked) (length payload)) _ frame more in
    length_header-fits (mask_bit_of masked) (length payload) header headed

module _ (urandom : ℕ → Bytes) where
  send_frame-fits :
      (opcode : ℕ) (payload : Bytes) (ws ws' : WebSocket)
      → send_frame urandom opcode payload ws ≡ (ok tt, ws')
      → length payload < 2 ^ 64
  unfolding send_frame encode_own
  send_frame-fits opcode payload ws ws' e =
      let sends =
        throw_if-went ws.closed (connection_closed none)
          (encode_own urandom opcode payload >>= λ frame. sendall frame) tt ws ws' e in
      let (frame, ws₁, encodes, written) =
        bind-went (encode_own urandom opcode payload) (λ f. sendall f) tt ws ws' sends in
      encode_frame-fits opcode payload ws.is_client (urandom ws.drawn) frame
        (ap (λ (r : Result Bytes × WebSocket). r.0) encodes)

  pub send-fits :
      (t : Text) (ws ws' : WebSocket)
      → send urandom t ws ≡ (ok tt, ws')
      → (payload : Bytes) × (encode t ≡ ok payload) × (length payload < 2 ^ 64)
  unfolding send
  send-fits t ws ws' e =
      let (payload, ws₁, encodes, sent) =
        bind-went (lift (encode t)) (λ p. send_frame urandom op_text p) tt ws ws' e in
      (
        payload,
        ap (λ (r : Result Bytes × WebSocket). r.0) encodes,
        send_frame-fits op_text payload ws₁ ws' sent,
      )
