-- ===== src/Protocol/Covenant/Confirmed.antt =====
-- What the server of protocol/covenant.py has received when it returns a session, whoever sent it.
use priestly.Base.{
  ℕ, arith, ◌≡◌, ap, ◌∙◌, true, false, List, ◌∷◌, ◌==◌, ==_iff, length, Result, ok, Bytes,
}
use priestly.Python.Text.{Text, codes, hex, from_hex, text_eq, text_eq→eq, compare_digest}
use priestly.Crypto.Covenant.{
  prime, random_exponent, public_element, commit_digest, secret_to_element, mask, shared_secret,
  confirm_mac, Keys, derive_session_keys,
}
use priestly.Crypto.Covenant.Exchange.{shared_secret-lt}
use priestly.Protocol.Packets.{Frame, covenant_commit, covenant_confirm}
use priestly.Protocol.Session.{SessionState, start}
use priestly.Protocol.Process.{finished, play}
use priestly.Protocol.Process.Returns.{Returns, lift-Returns, recv_frame-Returns, returned-Returns}
use priestly.Protocol.Covenant.{
  Environment, element_hex, element, parse_element, server_confirm, server_commit, run_server,
}
use priestly.Protocol.Covenant.Elements.{InRange, parse_element-InRange}
use priestly.Protocol.Covenant.Parts.{
  same-tag, require-Returns, element_or_fail-Returns, expect_commit-Returns, expect_confirm-Returns,
  parse_commit-Returns,
}

-- The element, tag and keys behind a session of the server, whose exponent is `b`.
pub record IsConfirmed (env : Environment) (b : ℕ) (commit : Bytes) (a_hex confirm_c : Text)
    (session : SessionState) : Type 0 where
  pub public_a : ℕ
  pub tag : Bytes
  pub keys : Keys
  pub element_sent : parse_element env a_hex ≡ element public_a
  pub element_in_range : InRange public_a
  pub committed : commit_digest public_a ≡ ok commit
  pub tag_computed :
      confirm_mac (shared_secret public_a b) commit (codes "client") public_a ≡ ok tag
  pub tag_sent : confirm_c ≡ hex tag
  pub keys_derived : derive_session_keys (shared_secret public_a b) ≡ ok keys
  pub session_started : session ≡ start keys false true

server_confirm-IsConfirmed :
    (env : Environment) (b : ℕ) (commit : Bytes) (f : Frame) (script : List (Result Frame))
    (session : SessionState)
    → Returns (server_confirm env b commit f) script session
    → (a_hex confirm_c : Text) × (f ≡ covenant_confirm a_hex confirm_c)
      × IsConfirmed env b commit a_hex confirm_c session
unfolding server_confirm play
server_confirm-IsConfirmed env b commit f script session h =
    let (a_hex, confirm_c, ef, h₁) = expect_confirm-Returns _ script session f h in
    let (public_a, parsed, h₂) =
      element_or_fail-Returns _ script session env (parse_element env a_hex) h₁ in
    let (digest, d, h₃) = lift-Returns (commit_digest public_a) _ script session h₂ in
    let (same, h₄) = require-Returns _ script session (text_eq digest commit) _ h₃ in
    let (tag, t, h₅) =
      lift-Returns (confirm_mac (shared_secret public_a b) commit (codes "client") public_a) _
        script session h₄ in
    let (passed, c, h₆) = lift-Returns (compare_digest (hex tag) confirm_c) _ script session h₅ in
    let (passes, h₇) = require-Returns _ script session passed _ h₆ in
    let (tag', t', h₈) =
      lift-Returns
        (confirm_mac (shared_secret public_a b) commit (codes "server") (public_element b)) _ script
        session h₇ in
    let (keys, k, h₉) =
      lift-Returns (derive_session_keys (shared_secret public_a b))
        (λ (x : Keys). finished (ok (start x false true))) script session h₈ in
    let range : InRange public_a = parse_element-InRange env a_hex public_a parsed in
    (
      a_hex,
      confirm_c,
      ef,
      record {
        public_a = public_a;
        tag = tag;
        keys = keys;
        element_sent = parsed;
        element_in_range = range;
        committed = d ∙ ap ok (text_eq→eq digest commit same);
        tag_computed = t;
        tag_sent =
            same-tag (shared_secret public_a b) commit (codes "client") public_a tag confirm_c
              (shared_secret-lt public_a b) (omega (arith, range.1)) t (c ∙ ap ok passes);
        keys_derived = k;
        session_started = returned-Returns (start keys false true) script session h₉;
      },
    )

-- The server returns a session only if the client has sent a commitment of 20 bytes and then a
-- group element in range that has this commitment, with the client's tag under the secret of that
-- element and the server's exponent, and the session is over the keys of this secret.
pub run_server-IsConfirmed :
    (env : Environment) (password : Bytes) (script : List (Result Frame)) (session : SessionState)
    → Returns (run_server env password) script session
    → (commit_hex a_hex confirm_c : Text) × (commit : Bytes) × (rest : List (Result Frame))
      × (script ≡ ok (covenant_commit commit_hex) ∷ ok (covenant_confirm a_hex confirm_c) ∷ rest)
      × (from_hex commit_hex ≡ ok commit)
      × (length commit ≡ 20)
      × IsConfirmed env (random_exponent env.randbelow) commit a_hex confirm_c session
unfolding run_server server_commit play
run_server-IsConfirmed env password script session h =
    let b : ℕ = random_exponent env.randbelow in
    let (f, script₁, es, h₁) = recv_frame-Returns (server_commit env password) script session h in
    let (commit_hex, ef, h₂) = expect_commit-Returns _ script₁ session f h₁ in
    let (commit, parsed, h₃) = parse_commit-Returns _ script₁ session (from_hex commit_hex) h₂ in
    let (len, h₄) = require-Returns _ script₁ session (length commit == 20) _ h₃ in
    let (masked, m, h₅) =
      lift-Returns (element_hex (mask (public_element b) (secret_to_element password prime))) _
        script₁ session h₄ in
    let (f', rest, es', h₆) = recv_frame-Returns (server_confirm env b commit) script₁ session h₅ in
    let (a_hex, confirm_c, ef', confirmed) =
      server_confirm-IsConfirmed env b commit f' rest session h₆ in
    (
      commit_hex,
      a_hex,
      confirm_c,
      commit,
      rest,
      cc (es, ef, es', ef'),
      parsed,
      (==_iff (length commit) 20).0 len,
      confirmed,
    )
