-- ===== src/Crypto/Covenant/Derivation.antt =====
-- The session keys and the confirmation tags of crypto/covenant.py.
use priestly.Base.{
  ℕ, ◌++◌, ◌<◌, ◌≡◌, refl, arith, length, ok, Bytes, IsBytes, be_bytes, to_bytes, to_bytes-eq,
}
use priestly.Python.Text.{codes}
use priestly.Crypto.HmacSha256.{sign_bytes}
use priestly.Crypto.HmacSha256.Tag.{length-sign_bytes, sign_bytes-IsBytes}
use priestly.Crypto.Hkdf.Expand.{hkdf_expand-length}
use priestly.Crypto.Covenant.{prime, element_bytes, Keys, derive_session_keys, confirm_mac}

-- A key of 32 bytes.
abbrev pub IsKey : Bytes → Type 0
IsKey k = (length k ≡ 32) × IsBytes k

element-fits : (x : ℕ) → x < prime → to_bytes element_bytes x ≡ ok (be_bytes element_bytes x)
element-fits x h = to_bytes-eq element_bytes x (omega (arith, h))

-- For a shared secret below the prime four keys of 32 bytes each are derived without an error.
pub derive_session_keys-ok :
    (shared : ℕ)
    → shared < prime
    → (keys : Keys) × (derive_session_keys shared ≡ ok keys)
      × IsKey keys.client_write
      × IsKey keys.server_write
      × IsKey keys.client_mac
      × IsKey keys.server_mac
unfolding derive_session_keys
derive_session_keys-ok shared h =
    let prk : Bytes = be_bytes element_bytes shared in
    let (cw, p, n₁, b₁) =
      hkdf_expand-length prk (codes "Priestly-v1-client-write") 32 (omega arith) in
    let (sw, p', n₂, b₂) =
      hkdf_expand-length prk (codes "Priestly-v1-server-write") 32 (omega arith) in
    let (cm, q, n₃, b₃) =
      hkdf_expand-length prk (codes "Priestly-v1-client-mac") 32 (omega arith) in
    let (sm, q', n₄, b₄) =
      hkdf_expand-length prk (codes "Priestly-v1-server-mac") 32 (omega arith) in
    (
      record { client_write = cw; server_write = sw; client_mac = cm; server_mac = sm },
      rw (element-fits shared h, p, p', q, q') refl,
      (n₁, b₁),
      (n₂, b₂),
      (n₃, b₃),
      (n₄, b₄),
    )

-- The confirmation tag of two elements of the group is 32 bytes, without an error.
pub confirm_mac-ok :
    (shared : ℕ) (commit role : Bytes) (public : ℕ)
    → shared < prime
    → public < prime
    → (tag : Bytes) × (confirm_mac shared commit role public ≡ ok tag) × IsKey tag
unfolding confirm_mac
confirm_mac-ok shared commit role public h k =
    let key : Bytes = be_bytes element_bytes shared in
    let message : Bytes = commit ++ role ++ be_bytes element_bytes public in
    (
      sign_bytes key message,
      rw (element-fits public k, element-fits shared h) refl,
      (length-sign_bytes key message, sign_bytes-IsBytes key message),
    )
