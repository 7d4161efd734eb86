-- ===== src/Tests/Upgrading.antt =====
-- The theorems on the opening handshake of transport/ws.py at concrete inputs.
use priestly.Base.{
  ◌≡◌, refl, Bool, true, false, ◌&&◌, [], ◌∷◌, ◌++◌, arith, All, ltb, ltb→lt, ok, Bytes,
}
use priestly.Python.Text.{Text, codes, is_ascii}
use priestly.Python.Base64.{b64encode}
use priestly.Python.Base64.Graphic.{IsGraphic}
use priestly.Crypto.Sha1.{sha1}
use priestly.Transport.Socket.{Socket, chunk}
use priestly.Transport.Socket.Exact.{available}
use priestly.Transport.Opening.{
  Connection, accept_token, response, request, client_handshake, server_handshake,
}
use priestly.Transport.Opening.Accepts.{response_headers}
use priestly.Transport.Opening.Upgrade.{client_handshake-accepts}
use priestly.Transport.Opening.Request.{request_headers, server_handshake-answers}

-- The example of RFC 6455.
abbrev nonce : Bytes
nonce = codes "the sample nonce"

abbrev sample_key : Text
sample_key = codes "dGhlIHNhbXBsZSBub25jZQ=="

abbrev sample_token : Text
sample_token = codes "s3pPLMBiTxaQ9kYGzzhZRbK+xOo="

nonce_encoded : b64encode nonce ≡ sample_key
unfolding b64encode
nonce_encoded = refl

sample_accepted : accept_token sample_key ≡ ok sample_token
unfolding accept_token is_ascii b64encode sha1
sample_accepted = refl

nonce_accepted : accept_token (b64encode nonce) ≡ ok sample_token
nonce_accepted = rw nonce_encoded sample_accepted

abbrev in_one : Bytes → Socket
in_one [] = []
in_one (b ∷ bs) = chunk b bs ∷ []

abbrev connected : Bytes → Connection
connected bytes = record { incoming = in_one bytes; outgoing = []; faults = [] }

abbrev visible : Text → Bool
visible [] = true
visible (c ∷ t) = ltb 32 c && (ltb c 127 && visible t)

visible-IsGraphic : (t : Text) → visible t ≡ true → All IsGraphic t
visible-IsGraphic [] h = tt
visible-IsGraphic (c ∷ t) h =
    let (low, more) = parts (ltb 32 c) (ltb c 127 && visible t) h in
    let (high, rest) = parts (ltb c 127) (visible t) more in
    ((ltb→lt 32 c low, ltb→lt c 127 high), visible-IsGraphic t rest)
  where
    parts : (x y : Bool) → x && y ≡ true → (x ≡ true) × (y ≡ true)
    parts true y e = (refl, e)
    parts false y e = absurd (cc e)

client_handshake-accepts_example :
    (s' : Socket) × (client_handshake nonce
        (codes "localhost")
        (codes "/")
        (connected (response sample_token ++ (129 ∷ [])))
      ≡ (
        ok (response_headers sample_token),
        record {
          incoming = s';
          outgoing = request (codes "localhost") (codes "/") (b64encode nonce);
          faults = [];
        },
      ))
    × (available s' ≡ 129 ∷ [])
client_handshake-accepts_example =
    client_handshake-accepts nonce (codes "localhost") (codes "/") sample_token (129 ∷ [])
      (connected (response sample_token ++ (129 ∷ []))) nonce_accepted (rw nonce_encoded refl)
      (omega arith) refl refl

server_handshake-answers_example :
    (s' : Socket) × (server_handshake
        (connected (request (codes "localhost") (codes "/") sample_key ++ (129 ∷ [])))
      ≡ (
        ok (request_headers (codes "localhost") sample_key),
        record { incoming = s'; outgoing = response sample_token; faults = [] },
      ))
    × (available s' ≡ 129 ∷ [])
server_handshake-answers_example =
    server_handshake-answers (codes "localhost") (codes "/") 100 (codes "GhlIHNhbXBsZSBub25jZQ==")
      sample_token (129 ∷ [])
      (connected (request (codes "localhost") (codes "/") sample_key ++ (129 ∷ [])))
      (visible-IsGraphic (codes "localhost") refl) (visible-IsGraphic (codes "/") refl)
      (visible-IsGraphic sample_key refl) sample_accepted (omega arith) refl refl
