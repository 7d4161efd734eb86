-- ===== src/Protocol/Session.antt =====
-- protocol/session.py: payloads with their compression marker, tags, and the two ends of a channel.
pub mod Pack
pub mod Channel
pub mod Replay
pub mod Checks
use priestly.Base.{
  ℕ, zero, suc, ◌+◌, Bool, true, false, not, List, [], ◌∷◌, ◌++◌, ltb, ◌==◌, if◌then◌else◌, length,
  Result, ok, raise, ◌>>=◌, ◌>>◌, guard, Exception, value_error, type_error, authentication_error,
  replay_error, Bytes,
}
use priestly.Base.Int.{ℤ, pos, leb_ℤ, pack_q}
use priestly.Python.Text.{Text, codes, text_eq, compare_digest}
use priestly.Python.Base64.{b64encode, b64decode}
use priestly.Crypto.Huffman
use priestly.Crypto.HmacSha256.{sign}
use priestly.Crypto.Covenant.{Keys}
use priestly.Protocol.Packets.{SealedFrame}

abbrev pub stored : ℕ
stored = 0x00

abbrev pub huffman_marker : ℕ
huffman_marker = 0x01

unfoldable pub pack : Bytes → Result Bytes
pack plaintext = do
  compressed ← Huffman.compress plaintext
  (if ltb (length compressed) (length plaintext)
      then ok (huffman_marker ∷ compressed)
      else ok (stored ∷ plaintext))

unfoldable pub unpack : Bytes → Result Bytes
unpack [] = raise authentication_error
unpack (marker ∷ body) =
    if marker == huffman_marker
    then Huffman.decompress body
    else (if marker == stored then ok body else raise authentication_error)

abbrev pub client_dir : Text
client_dir = codes "client"

abbrev pub server_dir : Text
server_dir = codes "server"

-- `b"C" if direction == "client" else b"S"`
unfoldable pub direction_byte : Text → ℕ
unfolding text_eq
direction_byte direction = if text_eq direction client_dir then b'C' else b'S'

unfoldable pub compute_tag : Bytes → ℤ → ℤ → Text → Bytes → Result Text
unfolding direction_byte pack_q
compute_tag mac_key epoch seq direction payload = do
  e ← pack_q epoch
  s ← pack_q seq
  ok (sign mac_key ((e ++ (s ++ (direction_byte direction ∷ []))) ++ payload))

pub record SessionState : Type 0 where
  pub is_client : Bool
  pub compress : Bool
  pub tx_dir : Text
  pub rx_dir : Text
  pub tx_mac : Bytes
  pub rx_mac : Bytes
  pub tx_seq : ℕ
  pub rx_seq : ℤ
  pub epoch : ℕ

-- `__init__`
unfoldable pub start : Keys → Bool → Bool → SessionState
start keys is_client compress = record {
  is_client = is_client;
  compress = compress;
  tx_dir = if is_client then client_dir else server_dir;
  rx_dir = if is_client then server_dir else client_dir;
  tx_mac = if is_client then keys.client_mac else keys.server_mac;
  rx_mac = if is_client then keys.server_mac else keys.client_mac;
  tx_seq = 0;
  rx_seq = pos 0;
  epoch = 0;
}

-- The frame that is built once `tx_seq` has been raised.
unfoldable pub sealed_frame : SessionState → Bytes → Result SealedFrame
unfolding pack compute_tag
sealed_frame s plaintext = do
  body ← (if s.compress then pack plaintext else ok (stored ∷ plaintext))
  tag ← compute_tag s.tx_mac (pos s.epoch) (pos s.tx_seq) s.tx_dir body
  ok (record {
    epoch = pos s.epoch;
    seq = pos s.tx_seq;
    direction = s.tx_dir;
    payload = b64encode body;
    tag = tag;
  })

-- `seal`: the sequence number is raised first, and stays raised if an error follows.
unfoldable pub seal : SessionState → Bytes → Result SealedFrame × SessionState
unfolding sealed_frame
seal s plaintext = let s' = record s { tx_seq = s.tx_seq + 1 } in (sealed_frame s' plaintext, s')

-- `except (ValueError, TypeError) as exc: raise AuthenticationError`
unfoldable pub as_authentication : Result Bytes → Result Bytes
as_authentication (raise value_error) = raise authentication_error
as_authentication (raise type_error) = raise authentication_error
as_authentication r = r

-- The checks of `open`, in their order; they give the authenticated body.
unfoldable pub verified_body : SessionState → SealedFrame → Result Bytes
verified_body s frame = do
  guard (text_eq frame.direction s.rx_dir) authentication_error
  body ← as_authentication (b64decode frame.payload)
  expected ← compute_tag s.rx_mac frame.epoch frame.seq frame.direction body
  same ← compare_digest expected frame.tag
  guard same authentication_error
  guard (not (leb_ℤ frame.seq s.rx_seq)) replay_error
  ok body

-- `open`: the sequence number is recorded before the body is unpacked.
unfoldable pub open_frame : SessionState → SealedFrame → Result Bytes × SessionState
open_frame s frame = elim (verified_body s frame) [
  | raise e ↦ (raise e, s)
  | ok body ↦ (unpack body, record s { rx_seq = frame.seq })
]
