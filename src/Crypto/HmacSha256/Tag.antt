-- ===== src/Crypto/HmacSha256/Tag.antt =====
-- The tag is 64 lower-case hexadecimal digits, and the test accepts it alone.
use priestly.Base.{◌≡◌, ◌↔◌, true, ok, Bytes, IsBytes, length}
use priestly.Python.Hmac.{hmac_sha256, length-hmac_sha256, hmac_sha256-IsBytes}
use priestly.Python.Text.{Text, is_ascii, is_ascii-hex, compare_digest_iff}
use priestly.Crypto.HmacSha256.{sign, sign_bytes, verify}

pub length-sign_bytes : (key bs : Bytes) → length (sign_bytes key bs) ≡ 32
length-sign_bytes key bs = unfold sign_bytes in length-hmac_sha256 key bs

pub sign_bytes-IsBytes : (key bs : Bytes) → IsBytes (sign_bytes key bs)
sign_bytes-IsBytes key bs = unfold sign_bytes in hmac_sha256-IsBytes key bs

pub is_ascii-sign : (key bs : Bytes) → is_ascii (sign key bs) ≡ true
is_ascii-sign key bs = unfold sign in is_ascii-hex (hmac_sha256 key bs) (hmac_sha256-IsBytes key bs)

-- The keyed tag test returns true of the tag of the key and the data and of no other text.
pub verify-sign_iff :
    (key bs : Bytes) (tag : Text) → (verify key bs tag ≡ ok true) ↔ (tag ≡ sign key bs)
verify-sign_iff key bs tag =
    unfold verify in compare_digest_iff (sign key bs) tag (is_ascii-sign key bs)
