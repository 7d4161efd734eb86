-- ===== src/Protocol/Covenant/Parts.antt =====
-- What a part of protocol/covenant.py that returned has tested.
use priestly.Base.{
  ℕ, ◌<◌, ◌≡◌, refl, sym, ◌∙◌, Bool, true, false, List, Result, ok, raise, value_error, Bytes,
}
use priestly.Python.Text.{Text, hex, compare_digest, compare_digest_iff, is_ascii, is_ascii-hex}
use priestly.Crypto.Covenant.{prime, confirm_mac}
use priestly.Crypto.Covenant.Derivation.{confirm_mac-ok}
use priestly.Protocol.Packets.{
  Frame, covenant_commit, covenant_challenge, covenant_confirm, auth_ok,
}
use priestly.Protocol.Process.{Process, ◌>>=◌, play}
use priestly.Protocol.Process.Returns.{Returns}
use priestly.Protocol.Covenant.{
  Environment, Parsed, element, refused, element_or_raise, element_or_fail, require, check,
  expect_challenge, expect_auth_ok, expect_commit, expect_confirm, parse_commit,
}

pub ok_inj : {A : Type 0} {x y : A} → ok x ≡ ok y → x ≡ y
ok_inj h = cc h

module _ {B : Type 0} (g : Unit {0} → Process B) (script : List (Result Frame)) (b : B) where
  pub require-Returns :
      (test : Bool) (reason : Text)
      → Returns (require test reason >>= g) script b
      → (test ≡ true) × Returns (g tt) script b
  unfolding play
  require-Returns true reason h = (refl, h)
  require-Returns false reason h = absurd (cc h)

  pub check-Returns :
      (test : Bool) → Returns (check test >>= g) script b → (test ≡ true) × Returns (g tt) script b
  unfolding play
  check-Returns true h = (refl, h)
  check-Returns false h = absurd (cc h)

module _ {B : Type 0} (g : ℕ → Process B) (script : List (Result Frame)) (b : B) where
  pub element_or_fail-Returns :
      (env : Environment) (p : Parsed)
      → Returns (element_or_fail env p >>= g) script b
      → (n : ℕ) × (p ≡ element n) × Returns (g n) script b
  unfolding play
  element_or_fail-Returns env (element n) h = (n, refl, h)
  element_or_fail-Returns env (refused reason) h = absurd (cc h)

  pub element_or_raise-Returns :
      (env : Environment) (p : Parsed)
      → Returns (element_or_raise env p >>= g) script b
      → (n : ℕ) × (p ≡ element n) × Returns (g n) script b
  unfolding play
  element_or_raise-Returns env (element n) h = (n, refl, h)
  element_or_raise-Returns env (refused reason) h = absurd (cc h)

module _ {B : Type 0} (g : Text → Process B) (script : List (Result Frame)) (b : B) where
  pub expect_commit-Returns :
      (f : Frame)
      → Returns (expect_commit f >>= g) script b
      → (t : Text) × (f ≡ covenant_commit t) × Returns (g t) script b
  unfolding play expect_commit
  expect_commit-Returns (covenant_commit t) h = (t, refl, h)
  expect_commit-Returns f h = absurd (cc h)

  pub expect_challenge-Returns :
      (f : Frame)
      → Returns (expect_challenge f >>= g) script b
      → (t : Text) × (f ≡ covenant_challenge t) × Returns (g t) script b
  unfolding play expect_challenge
  expect_challenge-Returns (covenant_challenge t) h = (t, refl, h)
  expect_challenge-Returns f h = absurd (cc h)

  pub expect_auth_ok-Returns :
      (f : Frame)
      → Returns (expect_auth_ok f >>= g) script b
      → (t : Text) × (f ≡ auth_ok t) × Returns (g t) script b
  unfolding play expect_auth_ok
  expect_auth_ok-Returns (auth_ok t) h = (t, refl, h)
  expect_auth_ok-Returns f h = absurd (cc h)

module _ {B : Type 0} (g : Text × Text → Process B) (script : List (Result Frame)) (b : B) where
  pub expect_confirm-Returns :
      (f : Frame)
      → Returns (expect_confirm f >>= g) script b
      → (s t : Text) × (f ≡ covenant_confirm s t) × Returns (g (s, t)) script b
  unfolding play expect_confirm
  expect_confirm-Returns (covenant_confirm s t) h = (s, t, refl, h)
  expect_confirm-Returns f h = absurd (cc h)

module _ {B : Type 0} (g : Bytes → Process B) (script : List (Result Frame)) (b : B) where
  pub parse_commit-Returns :
      (r : Result Bytes)
      → Returns (parse_commit r >>= g) script b
      → (c : Bytes) × (r ≡ ok c) × Returns (g c) script b
  unfolding play parse_commit
  parse_commit-Returns (ok c) h = (c, refl, h)
  parse_commit-Returns (raise value_error) h = absurd (cc h)
  parse_commit-Returns (raise e) h = absurd (cc h)

-- A tag that passes the comparison with a computed tag is that tag.
pub same-tag :
    (shared : ℕ) (commit role : Bytes) (public : ℕ) (tag : Bytes) (t : Text)
    → shared < prime
    → public < prime
    → confirm_mac shared commit role public ≡ ok tag
    → compare_digest (hex tag) t ≡ ok true
    → t ≡ hex tag
same-tag shared commit role public tag t h k e c =
    let (tag', e', (n, bytes)) = confirm_mac-ok shared commit role public h k in
    let ascii : is_ascii (hex tag) ≡ true = rw (ok_inj (sym e ∙ e')) (is_ascii-hex tag' bytes) in
    (compare_digest_iff (hex tag) t ascii).0 c
