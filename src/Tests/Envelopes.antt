-- ===== src/Tests/Envelopes.antt =====
-- The theorems on protocol/packets.py at concrete inputs.
use priestly.Base.{◌≡◌, refl, ap, Result, ok, raise, value_error, [], ◌∷◌}
use priestly.Base.Int.{ℤ, pos, negsuc}
use priestly.Python.Text.{Text, codes}
use priestly.Protocol.Packets.{
  Frame, hello, hello_ack, message, ack, error, covenant_commit, covenant_challenge,
  covenant_confirm, auth_ok, auth_fail, sealed, chat, Packet, Pydantic, dumps, loads,
}

-- A serializer that knows one class of frames: the version, then the reason.
abbrev dump_fail : ℤ → Frame → Result Text
dump_fail (pos v) (auth_fail reason) = ok (v ∷ reason)
dump_fail v f = raise value_error

abbrev validate_fail : Text → Result Packet
validate_fail [] = raise value_error
validate_fail (v ∷ reason) = ok (record { version = pos v; frame = auth_fail reason })

dump_fail-validate :
    (v : ℤ) (f : Frame) (t : Text)
    → dump_fail v f ≡ ok t
    → validate_fail t ≡ ok (record { version = v; frame = f })
dump_fail-validate (pos v) (auth_fail reason) t h =
    let e : t ≡ v ∷ reason = cc h in ap validate_fail e
dump_fail-validate (pos v) (hello x) t h = absurd (cc h)
dump_fail-validate (pos v) (hello_ack x y z) t h = absurd (cc h)
dump_fail-validate (pos v) (message x) t h = absurd (cc h)
dump_fail-validate (pos v) (ack x) t h = absurd (cc h)
dump_fail-validate (pos v) (error x y) t h = absurd (cc h)
dump_fail-validate (pos v) (covenant_commit x) t h = absurd (cc h)
dump_fail-validate (pos v) (covenant_challenge x) t h = absurd (cc h)
dump_fail-validate (pos v) (covenant_confirm x y) t h = absurd (cc h)
dump_fail-validate (pos v) (auth_ok x) t h = absurd (cc h)
dump_fail-validate (pos v) (sealed x) t h = absurd (cc h)
dump_fail-validate (pos v) (chat x y) t h = absurd (cc h)
dump_fail-validate (negsuc v) f t h = absurd (cc h)

abbrev serializer : Pydantic
serializer = record {
  model_dump_json = λ p. dump_fail p.version p.frame;
  model_validate_json = validate_fail;
  validates_dump = λ p t h. dump_fail-validate p.version p.frame t h;
}

dumped : dumps serializer (auth_fail (codes "no")) ≡ ok (1 ∷ codes "no")
unfolding dumps
dumped = refl

read_back : loads serializer (1 ∷ codes "no") ≡ ok (auth_fail (codes "no"))
unfolding loads
read_back = refl

-- A packet of version 2.
other_version : loads serializer (2 ∷ codes "no") ≡ raise value_error
unfolding loads
other_version = refl
