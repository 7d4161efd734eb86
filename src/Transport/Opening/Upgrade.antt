-- ===== src/Transport/Opening/Upgrade.antt =====
-- Both ends of the opening handshake of transport/ws.py, each against the other.
use priestly.Base.{
  ℕ, ◌≤◌, ◌≡◌, ◌≢◌, refl, ap, Bool, true, false, List, [], ◌∷◌, ◌++◌, arith, All, length, ok, raise,
  value_error, not, ◌&&◌, ◌==◌, Bytes, if◌then◌else◌,
}
use mathlib.Core.Path.{subst}
use priestly.Python.Text.{Text, codes, is_ascii}
use priestly.Python.Base64.{b64encode}
use priestly.Python.Base64.Graphic.{IsGraphic, b64encode-IsGraphic}
use priestly.Crypto.Sha1.{sha1}
use priestly.Transport.Socket.{Socket}
use priestly.Transport.Socket.Exact.{available}
use priestly.Transport.Http.{parse_headers}
use priestly.Transport.Opening.{
  Connection, sent, send_all, guid, max_header_bytes, accept_token, response, request,
  check_response, is_latin, encode_latin, client_handshake,
}
use priestly.Transport.Opening.Blocks.{ends_with_last, read_http_headers-block}
use priestly.Transport.Opening.Ends.{block_of-ends}
use priestly.Transport.Opening.Accepts.{
  parted, status_line, token_line, response_headers, check_response-response,
}

abbrev pub no_newline : Text → Bool
no_newline [] = true
no_newline (c ∷ t) = not (c == 10) && no_newline t

different : (c : ℕ) → (c == 10) ≡ false → c ≢ 10
different c h e = absurd (grind (arith, h, e))

pub no_newline-All : (t : Text) → no_newline t ≡ true → All (λ d. d ≢ 10) t
no_newline-All [] h = tt
no_newline-All (c ∷ t) h =
    let (other, more) = parted (c == 10) (no_newline t) h in
    (different c other, no_newline-All t more)

pub graphic_no_newline : (t : Text) → All IsGraphic t → no_newline t ≡ true
graphic_no_newline [] h = refl
graphic_no_newline (c ∷ t) h =
    let other : (c == 10) ≡ false = not_newline c h.0 in rw other (graphic_no_newline t h.1)
  where
    not_newline : (d : ℕ) → IsGraphic d → (d == 10) ≡ false
    not_newline d g = ground arith

response-ends : (token : Text) → All IsGraphic token → ends_with_last [] (response token) ≡ true
response-ends token h =
    block_of-ends status_line
      (codes "Upgrade: websocket" ∷ codes "Connection: Upgrade" ∷ token_line token ∷ [])
      (no_newline-All status_line refl)
      (
        no_newline-All (codes "Upgrade: websocket") refl,
        (
          no_newline-All (codes "Connection: Upgrade") refl,
          (no_newline-All (token_line token) (graphic_no_newline token h), tt),
        ),
      )

accept_token-IsGraphic : (key token : Text) → accept_token key ≡ ok token → All IsGraphic token
unfolding accept_token
accept_token-IsGraphic key token e = by_test (is_ascii (key ++ guid)) e
  where
    by_test :
        (b : Bool)
        → (if b then ok (b64encode (sha1 (key ++ guid))) else raise value_error) ≡ ok token
        → All IsGraphic token
    by_test true h =
        let same : b64encode (sha1 (key ++ guid)) ≡ token = cc h in
        subst (All IsGraphic) same (b64encode-IsGraphic (sha1 (key ++ guid)))
    by_test false h = absurd (cc h)

pub sending :
    (bs : Bytes) (c : Connection)
    → c.faults ≡ []
    → send_all bs c ≡ (ok tt, record c { outgoing = c.outgoing ++ bs })
unfolding send_all
sending bs c h = ap (λ (f : List Bool). sent bs f c) h

-- When the stream starts with what the server answers to the key, client_handshake writes its
-- request, returns the headers of the answer and leaves just what follows them on the stream, if
-- the request is in Latin-1 and no call of sendall fails.
pub client_handshake-accepts :
    (nonce : Bytes) (host path token rest : Text) (c : Connection)
    → accept_token (b64encode nonce) ≡ ok token
    → is_latin (request host path (b64encode nonce)) ≡ true
    → length (response token) ≤ max_header_bytes
    → c.faults ≡ []
    → available c.incoming ≡ response token ++ rest
    → (s' : Socket) × (client_handshake nonce host path c ≡ (
      ok (response_headers token),
      record c { incoming = s'; outgoing = c.outgoing ++ request host path (b64encode nonce) },
    ))
      × (available s' ≡ rest)
unfolding client_handshake encode_latin
client_handshake-accepts nonce host path token rest c accepted latin small usable arrives =
    let key : Text = b64encode nonce in
    let graphic : All IsGraphic token = accept_token-IsGraphic key token accepted in
    let (s', read, left) =
      read_http_headers-block (response token) rest c.incoming arrives (response-ends token graphic)
        small in
    let sent_all : send_all (request host path key) c
        ≡ (ok tt, record c { outgoing = c.outgoing ++ request host path key }) =
      sending (request host path key) c usable in
    let checked : check_response key (parse_headers (response token))
        ≡ ok (response_headers token) =
      check_response-response key token accepted graphic in
    (s', rw (latin, sent_all, read, checked) refl, left)
