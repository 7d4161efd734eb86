-- ===== src/Protocol/Covenant/Steps.antt =====
-- What each end of protocol/covenant.py does between two frames when the other end is as it should be.
use priestly.Base.{ℕ, ◌≡◌, refl, true, false, length, ok, Bytes, IsBytes}
use priestly.Python.Text.{
  codes, hex, from_hex-hex, text_eq_refl, compare_digest, compare_digest_iff, is_ascii-hex,
}
use priestly.Crypto.Covenant.{
  prime, random_exponent, public_element, commit_digest, secret_to_element, mask, unmask,
  shared_secret, confirm_mac, Keys, derive_session_keys,
}
use priestly.Crypto.Covenant.Exchange.{public_element-lt, mask-lt}
use priestly.Protocol.Packets.{covenant_commit, covenant_challenge, covenant_confirm, auth_ok}
use priestly.Protocol.Session.{start}
use priestly.Protocol.Process.{finished, sending, ◌>>=◌, recv_frame}
use priestly.Protocol.Covenant.{
  Environment, client_result, client_challenge, run_client, server_confirm, server_commit,
  expect_challenge, expect_auth_ok, expect_commit, expect_confirm, parse_commit,
}
use priestly.Protocol.Covenant.Elements.{
  commitment, commit_digest-ok, InRange, wire, element_hex-wire, parse_element-wire,
}

-- A tag that is compared with itself.
same_tag : (tag : Bytes) → IsBytes tag → compare_digest (hex tag) (hex tag) ≡ ok true
same_tag tag h = (compare_digest_iff (hex tag) (hex tag) (is_ascii-hex tag h)).1 refl

-- The client up to its first wait.
pub client_starts :
    (env : Environment) (password : Bytes) (a : ℕ)
    → random_exponent env.randbelow ≡ a
    → run_client env password
      ≡ sending (covenant_commit (hex (commitment (public_element a)))) (λ r. finished r >>= λ u.
          recv_frame >>= client_challenge env password a (commitment (public_element a)))
unfolding run_client
client_starts env password a e =
    rw (e, commit_digest-ok (public_element a) (public_element-lt a)) refl

-- The server from the commitment to its second wait.
pub server_answers :
    (env : Environment) (password c : Bytes) (b : ℕ)
    → random_exponent env.randbelow ≡ b
    → IsBytes c
    → length c ≡ 20
    → let m = mask (public_element b) (secret_to_element password prime) in
      server_commit env password (covenant_commit (hex c))
      ≡ sending
          (covenant_challenge (wire m))
          (λ r. finished r >>= λ u. recv_frame >>= server_confirm env b c)
unfolding server_commit expect_commit parse_commit
server_answers env password c b e bytes len =
    let m = mask (public_element b) (secret_to_element password prime) in
    rw
      (
        from_hex-hex c bytes,
        len,
        e,
        element_hex-wire m (mask-lt (public_element b) (secret_to_element password prime)),
      )
      refl

-- The client from the challenge to its second wait.
pub client_answers :
    (env : Environment) (password c : Bytes) (a masked public_b : ℕ) (tag : Bytes)
    → InRange masked
    → unmask masked (secret_to_element password prime) ≡ ok public_b
    → confirm_mac (shared_secret public_b a) c (codes "client") (public_element a) ≡ ok tag
    → client_challenge env password a c (covenant_challenge (wire masked))
      ≡ sending (covenant_confirm (wire (public_element a)) (hex tag)) (λ r.
        finished r >>= λ u. recv_frame >>= client_result (shared_secret public_b a) public_b c)
unfolding client_challenge expect_challenge
client_answers env password c a masked public_b tag range e t =
    rw
      (
        parse_element-wire env masked range,
        e,
        t,
        element_hex-wire (public_element a) (public_element-lt a),
      )
      refl

-- The server from the confirmation to its end.
pub server_accepts :
    (env : Environment) (c : Bytes) (public_a b : ℕ) (tag tag' : Bytes) (keys : Keys)
    → InRange public_a
    → commit_digest public_a ≡ ok c
    → confirm_mac (shared_secret public_a b) c (codes "client") public_a ≡ ok tag
    → IsBytes tag
    → confirm_mac (shared_secret public_a b) c (codes "server") (public_element b) ≡ ok tag'
    → derive_session_keys (shared_secret public_a b) ≡ ok keys
    → server_confirm env b c (covenant_confirm (wire public_a) (hex tag))
      ≡ sending
          (auth_ok (hex tag'))
          (λ r. finished r >>= λ u. finished (ok (start keys false true)))
unfolding server_confirm expect_confirm
server_accepts env c public_a b tag tag' keys range d t bytes t' k =
    rw (parse_element-wire env public_a range, d, text_eq_refl c, t, same_tag tag bytes, t', k) refl

-- The client from the result to its end.
pub client_accepts :
    (c : Bytes) (shared public_b : ℕ) (tag : Bytes) (keys : Keys)
    → confirm_mac shared c (codes "server") public_b ≡ ok tag
    → IsBytes tag
    → derive_session_keys shared ≡ ok keys
    → client_result shared public_b c (auth_ok (hex tag)) ≡ finished (ok (start keys true true))
unfolding client_result expect_auth_ok
client_accepts c shared public_b tag keys t bytes k = rw (t, same_tag tag bytes, k) refl
