-- ===== src/Protocol/Covenant/Honest.antt =====
-- Each end of protocol/covenant.py against an end that follows the protocol.
use priestly.Base.{false, true, ap, ◌∙◌, ℕ, ◌≡◌, ◌<◌, List, [], ◌∷◌, Result, ok, Bytes, be_bytes}
use priestly.Python.Text.{codes, hex}
use priestly.Crypto.Sha1.Digest.{length-sha1, sha1-IsBytes}
use priestly.Crypto.Covenant.{
  prime, element_bytes, random_exponent, public_element, secret_to_element, mask, unmask,
  shared_secret, confirm_mac, Keys, derive_session_keys,
}
use priestly.Crypto.Covenant.Exchange.{
  unmask-mask, shared_secret-agree, public_element-lt, shared_secret-lt,
}
use priestly.Crypto.Covenant.Derivation.{derive_session_keys-ok, confirm_mac-ok}
use priestly.Protocol.Packets.{
  Frame, covenant_commit, covenant_challenge, covenant_confirm, auth_ok,
}
use priestly.Protocol.Session.{start}
use priestly.Protocol.Process.{play}
use priestly.Protocol.Process.Returns.{Returns}
use priestly.Protocol.Covenant.{Environment, run_client, run_server}
use priestly.Protocol.Covenant.Elements.{InRange, wire, commitment, commit_digest-ok}
use priestly.Protocol.Covenant.Agreement.{IsRegular}
use priestly.Protocol.Covenant.Steps.{
  client_starts, server_answers, client_answers, server_accepts, client_accepts,
}

-- The frames of a client with the exponent `a`.
module _ (a b : ℕ) where
  abbrev pub client_commitment : Bytes
  client_commitment = commitment (public_element a)

  abbrev pub client_tag : Bytes
  client_tag =
      (confirm_mac-ok (shared_secret (public_element a) b) client_commitment (codes "client")
        (public_element a) (shared_secret-lt (public_element a) b) (public_element-lt a)).0

  abbrev pub client_frames : List (Result Frame)
  client_frames =
      ok (covenant_commit (hex client_commitment))
      ∷ ok (covenant_confirm (wire (public_element a)) (hex client_tag))
      ∷ []

  abbrev pub agreed_keys : Keys
  agreed_keys =
      (derive_session_keys-ok (shared_secret (public_element a) b)
        (shared_secret-lt (public_element a) b)).0

  pub run_server-Returns :
      (env : Environment) (password : Bytes)
      → random_exponent env.randbelow ≡ b
      → InRange (public_element a)
      → Returns (run_server env password) client_frames (start agreed_keys false true)
  unfolding run_server play
  run_server-Returns env password eb range =
      let public_a : ℕ = public_element a in
      let shared : ℕ = shared_secret public_a b in
      let small : shared < prime = shared_secret-lt public_a b in
      let c : Bytes = client_commitment in
      let (tag, t, (len, bytes)) =
        confirm_mac-ok shared c (codes "client") public_a small (public_element-lt a) in
      let (tag', t', (len', bytes')) =
        confirm_mac-ok shared c (codes "server") (public_element b) small (public_element-lt b) in
      let (keys, k, k₁, k₂, k₃, k₄) = derive_session_keys-ok shared small in
      ap (λ p. (play p (ok (covenant_confirm (wire public_a) (hex tag)) ∷ [])).1)
        (server_answers env password c b eb (sha1-IsBytes (be_bytes element_bytes public_a))
          (length-sha1 (be_bytes element_bytes public_a)))
      ∙ ap (λ p. (play p []).1)
          (server_accepts env c public_a b tag tag' keys range
            (commit_digest-ok public_a (public_element-lt a)) t bytes t' k)

  abbrev pub server_tag : Bytes
  server_tag =
      (confirm_mac-ok (shared_secret (public_element a) b) client_commitment (codes "server")
        (public_element b) (shared_secret-lt (public_element a) b) (public_element-lt b)).0

  -- The frames of a server with the exponent `b`, against this client.
  abbrev pub server_frames : Bytes → List (Result Frame)
  server_frames password =
      ok (covenant_challenge (wire (mask (public_element b) (secret_to_element password prime))))
      ∷ ok (auth_ok (hex server_tag))
      ∷ []

  pub run_client-Returns :
      (env : Environment) (password : Bytes)
      → random_exponent env.randbelow ≡ a
      → IsRegular a b password
      → Returns (run_client env password) (server_frames password) (start agreed_keys true true)
  unfolding play
  run_client-Returns env password ea regular =
      let element_a : ℕ = public_element a in
      let element_b : ℕ = public_element b in
      let pe : ℕ = secret_to_element password prime in
      let shared : ℕ = shared_secret element_a b in
      let small : shared < prime = shared_secret-lt element_a b in
      let c : Bytes = client_commitment in
      let agree : shared_secret element_b a ≡ shared = shared_secret-agree a b in
      let (tag, t, (len, bytes)) =
        confirm_mac-ok shared c (codes "client") element_a small (public_element-lt a) in
      let (tag', t', (len', bytes')) =
        confirm_mac-ok shared c (codes "server") element_b small (public_element-lt b) in
      let (keys, k, k₁, k₂, k₃, k₄) = derive_session_keys-ok shared small in
      let unmasked : unmask (mask element_b pe) pe ≡ ok element_b =
        unmask-mask element_b pe regular.inverse (public_element-lt b) regular.invertible in
      ap (λ p. (play p (server_frames password)).1) (client_starts env password a ea)
      ∙ ap (λ p. (play p (ok (auth_ok (hex tag')) ∷ [])).1)
          (client_answers env password c a (mask element_b pe) element_b tag regular.masked_in_range
            unmasked (ap (λ (x : ℕ). confirm_mac x c (codes "client") element_a) agree ∙ t))
      ∙ ap (λ p. (play p []).1)
          (client_accepts c (shared_secret element_b a) element_b tag' keys
            (ap (λ (x : ℕ). confirm_mac x c (codes "server") element_b) agree ∙ t') bytes'
            (ap derive_session_keys agree ∙ k))
