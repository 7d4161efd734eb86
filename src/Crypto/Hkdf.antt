-- ===== src/Crypto/Hkdf.antt =====
-- crypto/hkdf.py: the Expand half of HKDF (RFC 5869).
pub mod Expand
use priestly.Base.{
  ℕ, zero, suc, ◌+◌, ◌-◌, ◌/◌, List, [], ◌∷◌, ◌++◌, ltb, if◌then◌else◌, take, Result, ok, raise,
  value_error, Bytes,
}
use priestly.Base.Int.{ℤ, pos, negsuc}
use priestly.Crypto.HmacSha256.{sign_bytes}

abbrev pub hash_len : ℕ
hash_len = 32

-- `for counter in range(1, n + 1)`: `left` rounds from `counter` on.
unfoldable pub expand_loop : Bytes → Bytes → ℕ → ℕ → Bytes → Bytes → Bytes
expand_loop prk info zero counter previous okm = okm
expand_loop prk info (suc left) counter previous okm =
    let next = sign_bytes prk (previous ++ (info ++ (counter ∷ []))) in
    expand_loop prk info left (counter + 1) next (okm ++ next)

unfoldable pub hkdf_expand : Bytes → Bytes → ℤ → Result Bytes
unfolding expand_loop
hkdf_expand prk info (negsuc m) = raise value_error
hkdf_expand prk info (pos length) =
    let n = (length + hash_len - 1) / hash_len in
    if ltb 255 n then raise value_error else ok (take length (expand_loop prk info n 1 [] []))
