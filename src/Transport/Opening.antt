-- ===== src/Transport/Opening.antt =====
-- The opening handshake of transport/ws.py: reading the header block, and both ends of the upgrade.
pub mod Blocks
pub mod Accepts
pub mod Ends
pub mod Upgrade
pub mod Request
use priestly.Base.{
  ℕ, zero, suc, ◌+◌, ◌-◌, ◌≤◌, Bool, true, false, not, ◌&&◌, ◌||◌, Option, none, some, List, [],
  ◌∷◌, ◌++◌, ◌==◌, leb, ltb, if◌then◌else◌, length, drop, connection_closed, protocol_error,
  os_error, value_error, Result, ok, raise, Bytes,
}
use priestly.Base as Base
use priestly.Base.State.{Action, return, throw, throw_if, lift, proceed, ◌>>=◌, ◌>>◌}
use priestly.Python.Text.{Text, codes, text_eq, is_ascii}
use priestly.Python.Base64.{b64encode}
use priestly.Crypto.Sha1.{sha1}
use priestly.Python.Dictionary.{set_item, get_item}
use priestly.Transport.Http.{
  crlf, split_lines, partition, is_latin_space, lstrip, keep, rstrip, strip, lower_char, lower,
  upper_char, is_get, put_line, put_lines, parse_headers, Headers,
}
use priestly.Transport.Socket.{Socket, recv}

-- The socket before there is a WebSocket.
pub record Connection : Type 0 where
  pub incoming : Socket
  pub outgoing : Bytes
  pub faults : List Bool

abbrev pub on_incoming : {A : Type 0} → Action Socket A → Action Connection A
on_incoming m c = let (r, s) = m c.incoming in (r, record c { incoming = s })

-- sock.sendall(data)
abbrev pub sent : Bytes → List Bool → Action Connection (Unit {0})
sent data_ [] c = (ok tt, record c { outgoing = c.outgoing ++ data_ })
sent data_ (true ∷ rest) c = (raise os_error, record c { faults = rest })
sent data_ (false ∷ rest) c = (ok tt, record c { outgoing = c.outgoing ++ data_; faults = rest })

unfoldable pub send_all : Bytes → Action Connection (Unit {0})
send_all data_ c = sent data_ c.faults c

abbrev pub guid : Text
guid = codes "258EAFA5-E914-47DA-95CA-C5AB0DC85B11"

-- `accept_token`: hashlib.sha1 is SHA-1 again.
unfoldable pub accept_token : Text → Result Text
accept_token key =
    if is_ascii (key ++ guid) then ok (b64encode (sha1 (key ++ guid))) else raise value_error

abbrev pub max_header_bytes : ℕ
max_header_bytes = 16384

-- buf.endswith(b"\r\n\r\n")
unfoldable pub ends_block : Bytes → Bool
ends_block buf = text_eq (drop (length buf - 4) buf) (13 ∷ 10 ∷ 13 ∷ 10 ∷ [])

-- A round of the loop, from what `sock.recv(1)` returned.
abbrev pub read_byte : Option Bytes → Bytes → (Bytes → Action Socket Bytes) → Action Socket Bytes
read_byte none buf go s = (raise (connection_closed none), s)
read_byte (some []) buf go s = (raise (connection_closed none), s)
read_byte (some (b ∷ bs)) buf go s =
    if ltb max_header_bytes (length (buf ++ (b ∷ bs)))
    then (raise protocol_error, s)
    else go (buf ++ (b ∷ bs)) s

-- The loop: each round adds a byte, and a buffer that is too long ends it.
unfoldable pub header_loop : ℕ → Bytes → Action Socket Bytes
header_loop zero buf s = (ok buf, s)
header_loop (suc fuel) buf s = elim (ends_block buf) [
  | true ↦ (ok buf, s)
  | false ↦ let (got, s') = recv 1 s in read_byte got buf (λ buf'. header_loop fuel buf') s'
]

-- Latin-1: the bytes are the code points.
unfoldable pub read_http_headers : Action Socket Text
read_http_headers = header_loop (suc (suc max_header_bytes)) []

-- `headers.get("upgrade", "").lower() == "websocket"`
abbrev pub is_websocket : Option Text → Bool
is_websocket none = false
is_websocket (some v) = text_eq (lower v) (codes "websocket")

-- `if not key`
abbrev pub key_of : Option Text → Result Text
key_of none = raise protocol_error
key_of (some []) = raise protocol_error
key_of (some (c ∷ t)) = ok (c ∷ t)

abbrev pub response : Text → Bytes
response token =
    codes "HTTP/1.1 101 Switching Protocols"
    ++ (crlf
        ++ (codes "Upgrade: websocket"
            ++ (crlf
                ++ (codes "Connection: Upgrade"
                    ++ (crlf ++ (codes "Sec-WebSocket-Accept: " ++ (token ++ (crlf ++ crlf))))))))

-- From the header block on.
unfoldable pub answer_request : Text × Headers → Action Connection Headers
answer_request (start_line, headers) = throw_if (not (is_get start_line)) protocol_error (
    throw_if (not (is_websocket (get_item (codes "upgrade") headers))) protocol_error (
      lift (key_of (get_item (codes "sec-websocket-key") headers)) >>= λ key.
      lift (accept_token key) >>= λ token. send_all (response token) >> return headers))

unfoldable pub server_handshake : Action Connection Headers
server_handshake = on_incoming read_http_headers >>= λ block. answer_request (parse_headers block)

-- `"101" in status_line`
unfoldable pub has_101 : Text → Bool
has_101 [] = false
has_101 (a ∷ t) = starts_101 (a ∷ t) || has_101 t
  where
    starts_101 : Text → Bool
    starts_101 (a' ∷ b ∷ c ∷ rest) = (a' == 49) && (b == 48) && (c == 49)
    starts_101 t' = false

-- `headers.get("sec-websocket-accept") != accept_token(key)`
abbrev pub is_token : Option Text → Text → Bool
is_token none token = false
is_token (some v) token = text_eq v token

abbrev pub token_checked : Bool → Headers → Result Headers
token_checked b headers = if b then ok headers else raise protocol_error

unfoldable pub check_response : Text → Text × Headers → Result Headers
check_response key (status_line, headers) =
    if has_101 status_line
    then Base.◌>>=◌ (accept_token key) (λ token.
      token_checked (is_token (get_item (codes "sec-websocket-accept") headers) token) headers)
    else raise protocol_error

-- str.encode("iso-8859-1")
abbrev pub is_latin : Text → Bool
is_latin [] = true
is_latin (c ∷ t) = ltb c 256 && is_latin t

unfoldable pub encode_latin : Text → Result Bytes
encode_latin t = if is_latin t then ok t else raise value_error

abbrev pub request : Text → Text → Text → Text
request host path key =
    codes "GET "
    ++ (path
        ++ (codes " HTTP/1.1"
            ++ (crlf
                ++ (codes "Host: "
                    ++ (host
                        ++ (crlf
                            ++ (codes "Upgrade: websocket"
                                ++ (crlf
                                    ++ (codes "Connection: Upgrade"
                                        ++ (crlf
                                            ++ (codes "Sec-WebSocket-Key: "
                                                ++ (key
                                                    ++ (crlf
                                                        ++ (codes "Sec-WebSocket-Version: 13"
                                                            ++ (crlf ++ crlf)))))))))))))))

-- With the 16 bytes of os.urandom.
unfoldable pub client_handshake : Bytes → Text → Text → Action Connection Headers
client_handshake nonce host path =
    lift (encode_latin (request host path (b64encode nonce))) >>= λ bytes.
    send_all bytes
    >> (on_incoming read_http_headers >>= λ block.
        lift (check_response (b64encode nonce) (parse_headers block)))
