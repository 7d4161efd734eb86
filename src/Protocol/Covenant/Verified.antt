-- ===== src/Protocol/Covenant/Verified.antt =====
-- What the client of protocol/covenant.py has received when it returns a session, whoever sent it.
use priestly.Base.{
  ℕ, ◌*◌, ◌%◌, bind-returned, ◌<◌, arith, ◌≡◌, ap, ◌∙◌, true, List, ◌∷◌, Result, ok, Bytes,
}
use priestly.Python.Text.{Text, codes, hex, compare_digest}
use priestly.Crypto.Covenant.{
  prime, modinv, random_exponent, public_element, commit_digest, secret_to_element, unmask,
  shared_secret, confirm_mac, Keys, derive_session_keys,
}
use priestly.Crypto.Covenant.Exchange.{shared_secret-lt}
use priestly.Protocol.Packets.{Frame, covenant_challenge, auth_ok}
use priestly.Protocol.Session.{SessionState, start}
use priestly.Protocol.Process.{finished, play}
use priestly.Protocol.Process.Returns.{Returns, lift-Returns, recv_frame-Returns, returned-Returns}
use priestly.Protocol.Covenant.{
  Environment, element_hex, element, parse_element, client_result, client_challenge, run_client,
}
use priestly.Protocol.Covenant.Elements.{InRange, parse_element-InRange}
use native.Mathlib.Nat.{mod-lt}
use priestly.Protocol.Covenant.Parts.{
  ok_inj, same-tag, check-Returns, element_or_raise-Returns, expect_challenge-Returns,
  expect_auth_ok-Returns,
}

-- The element, tag and keys behind a session of the client, whose exponent is `a`.
pub record IsVerified (env : Environment) (password : Bytes) (a : ℕ) (commit : Bytes)
    (masked_b confirm_s : Text) (session : SessionState) : Type 0 where
  pub masked : ℕ
  pub public_b : ℕ
  pub tag : Bytes
  pub keys : Keys
  pub element_sent : parse_element env masked_b ≡ element masked
  pub element_in_range : InRange masked
  pub unmasked : unmask masked (secret_to_element password prime) ≡ ok public_b
  pub tag_computed :
      confirm_mac (shared_secret public_b a) commit (codes "server") public_b ≡ ok tag
  pub tag_sent : confirm_s ≡ hex tag
  pub keys_derived : derive_session_keys (shared_secret public_b a) ≡ ok keys
  pub session_started : session ≡ start keys true true

unmask-lt : (masked pe public : ℕ) → unmask masked pe ≡ ok public → public < prime
unfolding unmask
unmask-lt masked pe public e =
    let (inverse, i, r) =
      bind-returned (modinv pe prime) (λ (x : ℕ). ok (masked * x % prime)) public e in
    let less : masked * inverse % prime < prime = mod-lt (masked * inverse) (omega arith) in
    omega (arith, ok_inj r, less)

-- What the client tests in the frame that ends the handshake.
client_result-tag :
    (shared public_b : ℕ) (commit : Bytes) (f : Frame) (script : List (Result Frame))
    (session : SessionState)
    → shared < prime
    → public_b < prime
    → Returns (client_result shared public_b commit f) script session
    → (confirm_s : Text) × (tag : Bytes) × (keys : Keys) × (f ≡ auth_ok confirm_s)
      × (confirm_mac shared commit (codes "server") public_b ≡ ok tag)
      × (confirm_s ≡ hex tag)
      × (derive_session_keys shared ≡ ok keys)
      × (session ≡ start keys true true)
unfolding client_result
client_result-tag shared public_b commit f script session small small' h =
    let (confirm_s, ef, h₁) = expect_auth_ok-Returns _ script session f h in
    let (tag, t, h₂) =
      lift-Returns (confirm_mac shared commit (codes "server") public_b) _ script session h₁ in
    let (passed, c, h₃) = lift-Returns (compare_digest (hex tag) confirm_s) _ script session h₂ in
    let (passes, h₄) = check-Returns _ script session passed h₃ in
    let (keys, k, h₅) =
      lift-Returns (derive_session_keys shared) (λ (x : Keys). finished (ok (start x true true)))
        script session h₄ in
    (
      confirm_s,
      tag,
      keys,
      ef,
      t,
      same-tag shared commit (codes "server") public_b tag confirm_s small small' t
          (c ∙ ap ok passes),
      k,
      returned-Returns (start keys true true) script session h₅,
    )

client_challenge-IsVerified :
    (env : Environment) (password : Bytes) (a : ℕ) (commit : Bytes) (f : Frame)
    (script : List (Result Frame)) (session : SessionState)
    → Returns (client_challenge env password a commit f) script session
    → (masked_b confirm_s : Text) × (rest : List (Result Frame)) × (f ≡ covenant_challenge masked_b)
      × (script ≡ ok (auth_ok confirm_s) ∷ rest)
      × IsVerified env password a commit masked_b confirm_s session
unfolding client_challenge play
client_challenge-IsVerified env password a commit f script session h =
    let pe : ℕ = secret_to_element password prime in
    let (masked_b, ef, h₁) = expect_challenge-Returns _ script session f h in
    let (masked, parsed, h₂) =
      element_or_raise-Returns _ script session env (parse_element env masked_b) h₁ in
    let (public_b, u, h₃) = lift-Returns (unmask masked pe) _ script session h₂ in
    let shared : ℕ = shared_secret public_b a in
    let (tag, t, h₄) =
      lift-Returns (confirm_mac shared commit (codes "client") (public_element a)) _ script session
        h₃ in
    let (a_hex, x, h₅) = lift-Returns (element_hex (public_element a)) _ script session h₄ in
    let (f', rest, es, h₆) =
      recv_frame-Returns (client_result shared public_b commit) script session h₅ in
    let (confirm_s, tag', keys, ef', t', sent, k, started) =
      client_result-tag shared public_b commit f' rest session (shared_secret-lt public_b a)
        (unmask-lt masked pe public_b u) h₆ in
    (
      masked_b,
      confirm_s,
      rest,
      ef,
      es ∙ ap (λ (y : Frame). ok y ∷ rest) ef',
      record {
        masked = masked;
        public_b = public_b;
        tag = tag';
        keys = keys;
        element_sent = parsed;
        element_in_range = parse_element-InRange env masked_b masked parsed;
        unmasked = u;
        tag_computed = t';
        tag_sent = sent;
        keys_derived = k;
        session_started = started;
      },
    )

-- The client returns a session only if the server has sent a masked element in range and then the
-- server's tag under the secret of the element that the password unmasks it to, and the session is
-- over the keys of this secret.
pub run_client-IsVerified :
    (env : Environment) (password : Bytes) (script : List (Result Frame)) (session : SessionState)
    → Returns (run_client env password) script session
    → (masked_b confirm_s : Text) × (commit : Bytes) × (rest : List (Result Frame)) × (script
        ≡ ok (covenant_challenge masked_b) ∷ ok (auth_ok confirm_s) ∷ rest)
      × (commit_digest (public_element (random_exponent env.randbelow)) ≡ ok commit)
      × IsVerified env password (random_exponent env.randbelow) commit masked_b confirm_s session
unfolding run_client play
run_client-IsVerified env password script session h =
    let a : ℕ = random_exponent env.randbelow in
    let (commit, c, h₁) = lift-Returns (commit_digest (public_element a)) _ script session h in
    let (f, script₁, es, h₂) =
      recv_frame-Returns (client_challenge env password a commit) script session h₁ in
    let (masked_b, confirm_s, rest, ef, es', verified) =
      client_challenge-IsVerified env password a commit f script₁ session h₂ in
    (masked_b, confirm_s, commit, rest, cc (es, ef, es'), c, verified)
