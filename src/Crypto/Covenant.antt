-- ===== src/Crypto/Covenant.antt =====
-- crypto/covenant.py: the arithmetic of the password-authenticated key exchange.
pub mod Gcd
pub mod Exchange
pub mod Derivation
use priestly.Base.{
  ℕ, zero, suc, ◌+◌, ◌-◌, ◌*◌, ◌/◌, ◌%◌, ◌^◌, ◌≤◌, Bool, not, List, [], ◌∷◌, ◌++◌, ◌==◌, leb,
  if◌then◌else◌, Result, ok, raise, guard, ◌>>=◌, ◌>>◌, value_error, Bytes, to_bytes, from_bytes,
}
use priestly.Base.Int.{ℤ, pos, negsuc, ◌-ℤ◌, ◌*ℤ◌, ◌%ℤ◌}
use priestly.Python.Text.{codes}
use priestly.Crypto.Sha1.{sha1}
use priestly.Crypto.HmacSha256.{sign_bytes}
use priestly.Crypto.Hkdf.{hkdf_expand}

-- The group: RFC 3526, number 14.
abbrev pub prime : ℕ
prime =
    32317006071311007300338913926423828248817941241140239112842009751400741706634354222619689417363569347117901737909704191754605873209195028853758986185622153212175412514901774520270235796078236248884246189477587641105928646099411723245426622522193230540919037680524235519125679715870117001058055877651038861847280257976054903569732561526167081339361799541336476559160368317896729073178384589680639671900977202194168647225871031411336429319536193471636533209717077448227988588565369208645296636077250268955505928362751121174096972998068410554359584866583291642136218231078990999448652468262416972035911852507045361090559

abbrev pub generator : ℕ
generator = 2

abbrev pub element_bytes : ℕ
element_bytes = 256

abbrev pub map_label : Bytes
map_label = codes "Priestly-Covenant-Map"

-- The loop of `extended_gcd`, for remainders that are not negative: `old_r - q * r` is not negative
-- either. The remainder `r` falls in every round, so its first value counts the rounds.
unfoldable pub gcd_loop : ℕ → ℕ → ℕ → ℤ → ℤ → ℤ → ℤ → ℕ × ℤ × ℤ
gcd_loop zero old_r r old_s s old_t t = (old_r, old_s, old_t)
gcd_loop (suc fuel) old_r r old_s s old_t t = elim r [
  | zero ↦ (old_r, old_s, old_t)
  | suc r' ↦
      let q = old_r / suc r' in
      gcd_loop fuel (suc r') (old_r - q * suc r') s (old_s -ℤ (pos q *ℤ s)) t
        (old_t -ℤ (pos q *ℤ t))
]

-- `extended_gcd`, for numbers that are not negative.
unfoldable pub extended_gcd : ℕ → ℕ → ℕ × ℤ × ℤ
extended_gcd a b = gcd_loop b a b (pos 1) (pos 0) (pos 0) (pos 1)

unfoldable pub modinv : ℕ → ℕ → Result ℕ
modinv a m = let (g, x, y) = extended_gcd (a % m) m in guard (g == 1) value_error >> ok (x %ℤ m)

unfoldable pub secret_to_element : Bytes → ℕ → ℕ
secret_to_element password p =
    let val = from_bytes (sign_bytes password map_label) % p in
    (if val == 0 then 1 else val) ^ 2 % p

-- pow(b, e, m)
unfoldable pub pow_mod : ℕ → ℕ → ℕ → ℕ
pow_mod b e m = b ^ e % m

-- With `secrets.randbelow`.
unfoldable pub random_exponent : (ℕ → ℕ) → ℕ
random_exponent randbelow = randbelow (prime - 2) + 1

unfoldable pub public_element : ℕ → ℕ
public_element exponent = pow_mod generator exponent prime

unfoldable pub commit_digest : ℕ → Result Bytes
commit_digest public = to_bytes element_bytes public >>= λ b. ok (sha1 b)

unfoldable pub mask : ℕ → ℕ → ℕ
mask public_b pe = public_b * pe % prime

unfoldable pub unmask : ℕ → ℕ → Result ℕ
unmask masked_b pe = modinv pe prime >>= λ inverse. ok (masked_b * inverse % prime)

unfoldable pub shared_secret : ℕ → ℕ → ℕ
shared_secret peer_public own_exponent = pow_mod peer_public own_exponent prime

unfoldable pub confirm_mac : ℕ → Bytes → Bytes → ℕ → Result Bytes
confirm_mac shared commit role public = do
  element ← to_bytes element_bytes public
  key ← to_bytes element_bytes shared
  ok (sign_bytes key (commit ++ role ++ element))

-- The dict that `derive_session_keys` returns.
pub record Keys : Type 0 where
  pub client_write : Bytes
  pub server_write : Bytes
  pub client_mac : Bytes
  pub server_mac : Bytes

unfoldable pub derive_session_keys : ℕ → Result Keys
derive_session_keys shared = do
  prk ← to_bytes element_bytes shared
  client_write ← hkdf_expand prk (codes "Priestly-v1-client-write") (pos 32)
  server_write ← hkdf_expand prk (codes "Priestly-v1-server-write") (pos 32)
  client_mac ← hkdf_expand prk (codes "Priestly-v1-client-mac") (pos 32)
  server_mac ← hkdf_expand prk (codes "Priestly-v1-server-mac") (pos 32)
  ok (record {
    client_write = client_write;
    server_write = server_write;
    client_mac = client_mac;
    server_mac = server_mac;
  })
