-- ===== src/Crypto/HmacSha256.antt =====
-- crypto/hmac_sha256.py: the keyed tag, as text and as bytes.
pub mod Tag
use priestly.Base.{Bool, Result, Bytes}
use priestly.Python.Hmac.{hmac_sha256}
use priestly.Python.Text.{Text, hex, compare_digest}

unfoldable pub sign : Bytes → Bytes → Text
unfolding hmac_sha256 hex
sign key bs = hex (hmac_sha256 key bs)

unfoldable pub sign_bytes : Bytes → Bytes → Bytes
unfolding hmac_sha256
sign_bytes key bs = hmac_sha256 key bs

unfoldable pub verify : Bytes → Bytes → Text → Result Bool
unfolding sign compare_digest
verify key bs tag = compare_digest (sign key bs) tag
