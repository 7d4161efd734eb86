-- ===== src/Protocol/Packets.antt =====
-- protocol/models.py and protocol/packets.py: the records, the frames, and the packet envelope.
pub mod Bridge
use priestly.Base.{ℕ, ◌≡◌, Bool, false, ◌==◌, Result, ok, guard, ◌>>=◌, ◌>>◌, value_error}
use priestly.Base.Int.{ℤ, pos, negsuc}
use priestly.Python.Text.{Text}

-- A `datetime`, as microseconds from a fixed point.
abbrev pub Datetime : Type 0
Datetime = ℤ

pub record Handshake : Type 0 where
  pub id : ℤ
  pub user_id : ℤ
  pub device_id : ℤ
  pub timestamp : Datetime
  pub status : Text

pub record Message : Type 0 where
  pub id : ℤ
  pub sender_id : ℤ
  pub receiver_id : ℤ
  pub ciphertext : Text
  pub timestamp : Datetime
  pub status : Text

abbrev pub protocol_version : ℕ
protocol_version = 1

pub record SealedFrame : Type 0 where
  pub epoch : ℤ
  pub seq : ℤ
  pub direction : Text
  pub payload : Text
  pub tag : Text

-- The frames, whose other classes have few fields: the constructor is the `type`.
pub data Frame : Type 0 where
  hello : (handshake : Handshake) → Frame
  hello_ack : (status server_name : Text) (password_required : Bool) → Frame
  message : (content : Message) → Frame
  ack : (ref_id : ℤ) → Frame
  error : (code : ℤ) (reason : Text) → Frame
  covenant_commit : (commit : Text) → Frame
  covenant_challenge : (masked_b : Text) → Frame
  covenant_confirm : (a confirm_c : Text) → Frame
  auth_ok : (confirm_s : Text) → Frame
  auth_fail : (reason : Text) → Frame
  sealed : (frame : SealedFrame) → Frame
  chat : (text sender : Text) → Frame

pub record Packet : Type 0 where
  pub version : ℤ
  pub frame : Frame

-- What pydantic does with the class Packet: `model_dump_json`, `model_validate_json`, and that the
-- second reads what the first has written.
pub record Pydantic : Type 0 where
  pub model_dump_json : Packet → Result Text
  pub model_validate_json : Text → Result Packet
  pub validates_dump :
      (p : Packet) (t : Text) → model_dump_json p ≡ ok t → model_validate_json t ≡ ok p

-- `packet.version == PROTOCOL_VERSION`
abbrev pub is_current : ℤ → Bool
is_current (pos n) = n == protocol_version
is_current (negsuc n) = false

module _ (pydantic : Pydantic) where
  unfoldable pub dumps : Frame → Result Text
  dumps frame = pydantic.model_dump_json (record { version = pos protocol_version; frame = frame })

  unfoldable pub loads : Text → Result Frame
  loads raw = do
    packet ← pydantic.model_validate_json raw
    guard (is_current packet.version) value_error
    ok packet.frame
