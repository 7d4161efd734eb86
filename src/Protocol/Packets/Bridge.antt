-- ===== src/Protocol/Packets/Bridge.antt =====
-- `dumps` and `loads` of protocol/packets.py: the round trip.
use priestly.Base.{◌≡◌, ap, Result, ok, guard, ◌>>=◌, ◌>>◌, value_error}
use priestly.Python.Text.{Text}
use priestly.Protocol.Packets.{Frame, Packet, Pydantic, is_current, dumps, loads}

module _ (pydantic : Pydantic) where
  pub loads-dumps : (f : Frame) (t : Text) → dumps pydantic f ≡ ok t → loads pydantic t ≡ ok f
  unfolding dumps loads
  loads-dumps f t h =
      ap (λ (r : Result Packet). r >>= λ p. guard (is_current p.version) value_error >> ok p.frame)
        (pydantic.validates_dump _ t h)
