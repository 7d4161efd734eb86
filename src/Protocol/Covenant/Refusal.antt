-- ===== src/Protocol/Covenant/Refusal.antt =====
-- The failures of the server of protocol/covenant.py: the client is told.
use priestly.Base.{
  ℕ, ◌<◌, ◌+◌, ◌*◌, ◌≡◌, refl, ap, Bool, true, false, if◌then◌else◌, ltb, ◌&&◌, List, [], ◌∷◌, ◌++◌,
  arith, length, ◌==◌, Result, ok, raise, ◌>>=◌, covenant_error, value_error, Bytes, All,
}
use priestly.Python.Text.{
  Text, codes, hex, from_hex, text_eq, compare_digest, digit_value, is_space,
}
use priestly.Crypto.Covenant.{
  prime, random_exponent, public_element, commit_digest, secret_to_element, mask, shared_secret,
  confirm_mac, Keys, derive_session_keys,
}
use priestly.Crypto.Covenant.Exchange.{shared_secret-lt, public_element-lt, mask-lt}
use priestly.Crypto.Covenant.Derivation.{confirm_mac-ok, derive_session_keys-ok}
use priestly.Protocol.Packets.{Frame, covenant_commit, covenant_confirm, auth_ok, auth_fail}
use priestly.Protocol.Session.{start}
use priestly.Protocol.Process.{Process, finished, sending, recv_frame, play, ends}
use priestly.Protocol.Process as Process
use priestly.Protocol.Covenant.{
  Environment, element_hex, Parsed, element, refused, element_or_fail, parse_element, require,
  expect_commit, expect_confirm, parse_commit, server_confirm, server_commit, run_server,
}
use priestly.Protocol.Covenant.Elements.{
  commitment, commit_digest-ok, element_hex-wire, parse_element-InRange,
}

-- If the program ends with a CovenantError, the last frame it has sent is AUTH_FAIL.
abbrev pub Tells : {A : Type 0} → Process A → List (Result Frame) → Type 0
Tells p script =
    (play p script).1 ≡ ends (raise covenant_error)
    → (before : List Frame) × (reason : Text) × ((play p script).0
        ≡ before ++ (auth_fail reason ∷ []))

-- Not a CovenantError.
abbrev pub IsOther {ℓ} : {A : Type ℓ} → Result A → Type ℓ
IsOther r = ¬ (r ≡ raise covenant_error)

ok-IsOther : {A : Type 0} (r : Result A) (a : A) → r ≡ ok a → IsOther r
ok-IsOther r a e h = cc (e, h)

module _ {A B : Type 0} (g : A → Process B) (script : List (Result Frame)) where
  lift-Tells :
      (r : Result A)
      → IsOther r
      → ((a : A) → r ≡ ok a → Tells (g a) script)
      → Tells (Process.◌>>=◌ (finished r) g) script
  unfolding play
  lift-Tells (ok a) other tells h = tells a refl h
  lift-Tells (raise e) other tells h = absurd (other (cc h))

returned-Tells :
    {A : Type 0} (a : A) (script : List (Result Frame)) → Tells (finished (ok a)) script
unfolding play
returned-Tells a script h = absurd (cc h)

module _ {B : Type 0} (script : List (Result Frame)) where
  require-Tells :
      (g : Unit {0} → Process B) (test : Bool) (reason : Text)
      → (test ≡ true → Tells (g tt) script)
      → Tells (Process.◌>>=◌ (require test reason) g) script
  unfolding play
  require-Tells g true reason tells h = tells refl h
  require-Tells g false reason tells h = ([], reason, refl)

  element_or_fail-Tells :
      (env : Environment) (g : ℕ → Process B) (p : Parsed)
      → ((n : ℕ) → p ≡ element n → Tells (g n) script)
      → Tells (Process.◌>>=◌ (element_or_fail env p) g) script
  unfolding play
  element_or_fail-Tells env g (element n) tells h = tells n refl h
  element_or_fail-Tells env g (refused reason) tells h = ([], reason, refl)

  expect_commit-Tells :
      (g : Text → Process B) (f : Frame)
      → ((t : Text) → Tells (g t) script)
      → Tells (Process.◌>>=◌ (expect_commit f) g) script
  unfolding play expect_commit
  expect_commit-Tells g (covenant_commit t) tells h = tells t h
  expect_commit-Tells g f tells h = ([], codes "expected commit", refl)

  expect_confirm-Tells :
      (g : Text × Text → Process B) (f : Frame)
      → ((s t : Text) → Tells (g (s, t)) script)
      → Tells (Process.◌>>=◌ (expect_confirm f) g) script
  unfolding play expect_confirm
  expect_confirm-Tells g (covenant_confirm s t) tells h = tells s t h
  expect_confirm-Tells g f tells h = ([], codes "expected confirm", refl)

  parse_commit-Tells :
      (g : Bytes → Process B) (r : Result Bytes)
      → IsOther r
      → ((c : Bytes) → Tells (g c) script)
      → Tells (Process.◌>>=◌ (parse_commit r) g) script
  unfolding play parse_commit
  parse_commit-Tells g (ok c) other tells h = tells c h
  parse_commit-Tells g (raise value_error) other tells h = ([], codes "malformed commit", refl)
  parse_commit-Tells g (raise e) other tells h = absurd (other cc)

  sending-Tells :
      (f : Frame) (k : Result (Unit {0}) → Process B)
      → Tells (k (ok tt)) script
      → Tells (sending f k) script
  unfolding play
  sending-Tells f k tells h =
      let (before, reason, e) = tells h in (f ∷ before, reason, ap (λ (l : List Frame). f ∷ l) e)

recv_frame-Tells :
    {B : Type 0} (g : Frame → Process B) (script : List (Result Frame))
    → All IsOther script
    → ((f : Frame) (rest : List (Result Frame)) → All IsOther rest → Tells (g f) rest)
    → Tells (Process.◌>>=◌ recv_frame g) script
unfolding play
recv_frame-Tells g [] all tells h = absurd (cc h)
recv_frame-Tells g (ok f ∷ rest) all tells h = tells f rest all.1 h
recv_frame-Tells g (raise e ∷ rest) all tells h = absurd (all.0 (cc h))

-- What is not caught around the calls of the server.
pair-IsOther :
    (test : Bool) (n : ℕ) (rest : Result Bytes)
    → IsOther rest
    → IsOther (if test then (rest >>= λ bs. ok (n ∷ bs)) else raise value_error)
pair-IsOther true n (ok bs) other h = cc h
pair-IsOther true n (raise e) other h = other (cc h)
pair-IsOther false n rest other h = cc h

choice-IsOther :
    (test : Bool) (r s : Result Bytes)
    → IsOther r
    → IsOther s
    → IsOther (elim test [ true ↦ r | false ↦ s ])
choice-IsOther true r s hr hs = hr
choice-IsOther false r s hr hs = hs

from_hex-IsOther : (t : Text) → IsOther (from_hex t)
unfolding from_hex
from_hex-IsOther [] h = cc h
from_hex-IsOther (c ∷ []) h = ground arith
from_hex-IsOther (c ∷ d ∷ t) h =
    choice-IsOther (is_space c) (from_hex (d ∷ t)) _ (from_hex-IsOther (d ∷ t))
      (pair-IsOther (ltb (digit_value c) 16 && ltb (digit_value d) 16)
        (digit_value c * 16 + digit_value d) (from_hex t) (from_hex-IsOther t))
      h

compare_digest-IsOther : (a b : Text) → IsOther (compare_digest a b)
unfolding compare_digest
compare_digest-IsOther a b h = ground arith

server_confirm-Tells :
    (env : Environment) (b : ℕ) (commit : Bytes) (f : Frame) (script : List (Result Frame))
    → Tells (server_confirm env b commit f) script
unfolding server_confirm
server_confirm-Tells env b commit f script = expect_confirm-Tells script _ f λ a_hex confirm_c.
    element_or_fail-Tells script env _ (parse_element env a_hex) λ public_a parsed.
      let small : public_a < prime =
        omega (arith, (parse_element-InRange env a_hex public_a parsed).1) in
      let shared : ℕ = shared_secret public_a b in
      let (tag, t, key) =
        confirm_mac-ok shared commit (codes "client") public_a (shared_secret-lt public_a b)
          small in
      let (tag', t', key') =
        confirm_mac-ok shared commit (codes "server") (public_element b)
          (shared_secret-lt public_a b) (public_element-lt b) in
      let (keys, k, k₁, k₂, k₃, k₄) = derive_session_keys-ok shared (shared_secret-lt public_a b) in
      lift-Tells _ script (commit_digest public_a)
        (ok-IsOther _ (commitment public_a) (commit_digest-ok public_a small))
        λ digest d. require-Tells script _ (text_eq digest commit) _ λ same.
          lift-Tells _ script (confirm_mac shared commit (codes "client") public_a)
            (ok-IsOther _ tag t)
            λ tag₁ t₁.
              lift-Tells _ script (compare_digest (hex tag₁) confirm_c) (compare_digest-IsOther _ _)
                λ passed c. require-Tells script _ passed _ λ passes.
                  lift-Tells _ script
                    (confirm_mac shared commit (codes "server") (public_element b))
                    (ok-IsOther _ tag' t')
                    λ tag₂ t₂. sending-Tells script (auth_ok (hex tag₂)) _ (
                      lift-Tells (λ (x : Keys). finished (ok (start x false true))) script
                        (derive_session_keys shared) (ok-IsOther _ keys k)
                        λ keys' k'. returned-Tells (start keys' false true) script)

-- If the server, on a connection that takes every frame it sends, ends with a CovenantError, the
-- last frame it has sent is AUTH_FAIL, as long as no CovenantError comes from the connection.
pub run_server-tells :
    (env : Environment) (password : Bytes) (script : List (Result Frame))
    → All IsOther script
    → (play (run_server env password) script).1 ≡ ends (raise covenant_error)
    → (before : List Frame) × (reason : Text) × ((play (run_server env password) script).0
        ≡ before ++ (auth_fail reason ∷ []))
unfolding run_server server_commit
run_server-tells env password script others =
    let m : ℕ =
      mask (public_element (random_exponent env.randbelow)) (secret_to_element password prime) in
    recv_frame-Tells (server_commit env password) script others λ f rest others₁.
      expect_commit-Tells rest _ f λ commit_hex.
        parse_commit-Tells rest _ (from_hex commit_hex) (from_hex-IsOther commit_hex) λ commit.
          require-Tells rest _ (length commit == 20) _ λ len.
            lift-Tells _ rest (element_hex m) (ok-IsOther _ _ (element_hex-wire m (mask-lt _ _)))
              λ masked e. sending-Tells rest _ _ (
                recv_frame-Tells _ rest others₁
                  λ f₁ rest₁ others₂. server_confirm-Tells env _ commit f₁ rest₁)
