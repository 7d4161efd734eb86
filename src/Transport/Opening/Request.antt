-- ===== src/Transport/Opening/Request.antt =====
-- The server of transport/ws.py answers the request that the client writes.
use priestly.Base.{
  ℕ, ◌≤◌, ◌≡◌, refl, sym, ap, ap₂, ◌∙◌, true, ◌==◌, List, [], ◌∷◌, ◌++◌, append_assoc, All, length,
  ok,
}
use priestly.Python.Text.{Text, codes, text_eq}
use priestly.Python.Base64.Graphic.{IsGraphic}
use priestly.Transport.Socket.{Socket}
use priestly.Transport.Socket.Exact.{available}
use priestly.Python.Dictionary.{set_item, get_item}
use priestly.Transport.Http.{
  Headers, split_lines, partition, lstrip, rstrip, strip, lower, put_lines, parse_headers, is_get,
}
use priestly.Transport.Opening.{
  Connection, send_all, max_header_bytes, accept_token, response, request, server_handshake,
  answer_request,
}
use priestly.Transport.Opening.Blocks.{ends_with_last, read_http_headers-block}
use priestly.Transport.Opening.Ends.{block_of, block_of-ends}
use priestly.Transport.Opening.Accepts.{
  after_line, parted, no_return, graphic_no_return, split_lines-line, lstrip-graphic,
  rstrip-graphic,
}
use priestly.Transport.Opening.Upgrade.{no_newline, no_newline-All, graphic_no_newline, sending}

no_return-append :
    (s t : Text) → no_return s ≡ true → no_return t ≡ true → no_return (s ++ t) ≡ true
no_return-append [] t h k = k
no_return-append (c ∷ s) t h k =
    let (other, more) = parted (c == 13) (no_return s) h in rw other (no_return-append s t more k)

no_newline-append :
    (s t : Text) → no_newline s ≡ true → no_newline t ≡ true → no_newline (s ++ t) ≡ true
no_newline-append [] t h k = k
no_newline-append (c ∷ s) t h k =
    let (other, more) = parted (c == 10) (no_newline s) h in rw other (no_newline-append s t more k)

-- The headers of a request.
abbrev pub request_headers : Text → Text → Headers
request_headers host key =
    (codes "host", host)
    ∷ (codes "upgrade", codes "websocket")
    ∷ (codes "connection", codes "Upgrade")
    ∷ (codes "sec-websocket-key", key)
    ∷ (codes "sec-websocket-version", codes "13")
    ∷ []

module _ (host path key : Text) (host_graphic : All IsGraphic host)
    (path_graphic : All IsGraphic path) (key_graphic : All IsGraphic key) where
  abbrev start_line : Text
  start_line = codes "GET " ++ (path ++ codes " HTTP/1.1")

  abbrev host_line : Text
  host_line = codes "Host: " ++ host

  abbrev key_line : Text
  key_line = codes "Sec-WebSocket-Key: " ++ key

  abbrev header_lines : List Text
  header_lines =
      host_line
      ∷ codes "Upgrade: websocket"
      ∷ codes "Connection: Upgrade"
      ∷ key_line
      ∷ codes "Sec-WebSocket-Version: 13"
      ∷ []

  request_block : request host path key ≡ block_of (start_line ∷ header_lines)
  request_block =
      ap (λ (t : Text). codes "GET " ++ t)
        (sym (append_assoc path (codes " HTTP/1.1") (13 ∷ 10 ∷ block_of header_lines)))

  request-ends : ends_with_last [] (request host path key) ≡ true
  request-ends =
      ap (ends_with_last []) request_block
      ∙ block_of-ends start_line header_lines
          (no_newline-All start_line (
            no_newline-append path (codes " HTTP/1.1") (graphic_no_newline path path_graphic) refl))
          (
            no_newline-All host_line (graphic_no_newline host host_graphic),
            (
              no_newline-All (codes "Upgrade: websocket") refl,
              (
                no_newline-All (codes "Connection: Upgrade") refl,
                (
                  no_newline-All key_line (graphic_no_newline key key_graphic),
                  (no_newline-All (codes "Sec-WebSocket-Version: 13") refl, tt),
                ),
              ),
            ),
          )

  split_last : split_lines (13 ∷ 10 ∷ []) ≡ ([], [] ∷ [])
  unfolding split_lines
  split_last = refl

  split_block :
      (lines : List Text)
      → All (λ l. no_return l ≡ true) lines
      → (first : Text) → no_return first ≡ true
      → split_lines (block_of (first ∷ lines)) ≡ (first, lines ++ ([] ∷ [] ∷ []))
  split_block [] h first k =
      split_lines-line first (13 ∷ 10 ∷ []) k ∙ ap (after_line first) split_last
  split_block (line ∷ lines) h first k =
      split_lines-line first (block_of (line ∷ lines)) k
      ∙ ap (after_line first) (split_block lines h.1 line h.0)

  put_lines-request : put_lines (header_lines ++ ([] ∷ [] ∷ [])) [] ≡ request_headers host key
  unfolding put_lines partition strip lstrip rstrip lower set_item text_eq
  put_lines-request =
      ap₂ (λ (h k : Text). request_headers (rstrip h) (rstrip k)) (lstrip-graphic host host_graphic)
        (lstrip-graphic key key_graphic)
      ∙ ap₂ request_headers (rstrip-graphic host host_graphic) (rstrip-graphic key key_graphic)

  parse_headers-request :
      parse_headers (request host path key) ≡ (start_line, request_headers host key)
  unfolding parse_headers
  parse_headers-request =
      ap parse_headers request_block
      ∙ ap (λ (p : Text × List Text). (p.0, put_lines p.1 []))
          (split_block header_lines
            (
              graphic_no_return host host_graphic,
              (refl, (refl, (graphic_no_return key key_graphic, (refl, tt)))),
            )
            start_line
            (no_return-append path (codes " HTTP/1.1") (graphic_no_return path path_graphic) refl))
      ∙ ap (λ (hs : Headers). (start_line, hs)) put_lines-request

-- When the stream starts with a request as the client writes it, with a host, a path and a key of
-- visible characters and in at most 16384 bytes, server_handshake answers with the token of the
-- key, returns the headers of the request and leaves just what follows it on the stream, if no
-- call of sendall fails.
pub server_handshake-answers :
    (host path : Text) (k : ℕ) (ks token rest : Text) (c : Connection)
    → All IsGraphic host
    → All IsGraphic path
    → All IsGraphic (k ∷ ks)
    → accept_token (k ∷ ks) ≡ ok token
    → length (request host path (k ∷ ks)) ≤ max_header_bytes
    → c.faults ≡ []
    → available c.incoming ≡ request host path (k ∷ ks) ++ rest
    → (s' : Socket) × (server_handshake c ≡ (
      ok (request_headers host (k ∷ ks)),
      record c { incoming = s'; outgoing = c.outgoing ++ response token },
    ))
      × (available s' ≡ rest)
unfolding server_handshake answer_request is_get get_item text_eq lower
server_handshake-answers host path k ks token rest c hg pg kg accepted small usable arrives =
    let key : Text = k ∷ ks in
    let (s', read, left) =
      read_http_headers-block (request host path key) rest c.incoming arrives
        (request-ends host path key hg pg kg) small in
    let parsed = parse_headers-request host path key hg pg kg in
    let answered : send_all (response token) (record c { incoming = s' })
        ≡ (ok tt, record c { incoming = s'; outgoing = c.outgoing ++ response token }) =
      sending (response token) (record c { incoming = s' }) usable in
    (s', rw (read, parsed, accepted, answered) refl, left)
