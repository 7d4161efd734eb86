-- ===== src/Protocol/Covenant/Agreement.antt =====
-- Two ends of protocol/covenant.py with the same password come to sessions that belong together.
use priestly.Base.{ℕ, ◌+◌, ◌<◌, ◌≡◌, refl, ap, ◌∙◌, true, false, some, [], ok, Bytes, be_bytes}
use priestly.Python.Text.{codes, hex}
use priestly.Crypto.Sha1.Digest.{length-sha1, sha1-IsBytes}
use priestly.Crypto.Covenant.{
  prime, element_bytes, random_exponent, public_element, secret_to_element, mask, unmask, modinv,
  shared_secret, confirm_mac, Keys, derive_session_keys,
}
use priestly.Crypto.Covenant.Exchange.{
  public_element-lt, unmask-mask, shared_secret-agree, shared_secret-lt,
}
use priestly.Crypto.Covenant.Derivation.{derive_session_keys-ok, confirm_mac-ok}
use priestly.Protocol.Packets.{covenant_commit, covenant_challenge, covenant_confirm}
use priestly.Protocol.Session.{SessionState, start}
use priestly.Protocol.Session.Channel.{Paired, start-Paired}
use priestly.Protocol.Process.{finished}
use priestly.Protocol.Process.System.{System, advance, left_goes, right_goes, Run, here, after}
use priestly.Protocol.Process.Confluence.{Run-confluent}
use priestly.Protocol.Covenant.{
  Environment, client_challenge, run_client, server_confirm, server_commit, run_server,
}
use priestly.Protocol.Covenant.Elements.{commitment, commit_digest-ok, InRange, wire}
use priestly.Protocol.Covenant.Steps.{
  client_starts, server_answers, client_answers, server_accepts, client_accepts,
}

-- What an exchange needs: the element of the client and the masked element of the server are in
-- the range that is accepted, and the password's element has an inverse.
pub record IsRegular (a b : ℕ) (password : Bytes) : Type 0 where
  pub element_in_range : InRange (public_element a)
  pub masked_in_range : InRange (mask (public_element b) (secret_to_element password prime))
  pub inverse : ℕ
  pub invertible : modinv (secret_to_element password prime) prime ≡ ok inverse

abbrev pub started : Environment → Environment → Bytes → System SessionState SessionState
started client_env server_env password = record {
  left = run_client client_env password;
  right = run_server server_env password;
  to_right = [];
  to_left = [];
}

abbrev pub ended : Keys → System SessionState SessionState
ended keys = record {
  left = finished (ok (start keys true true));
  right = finished (ok (start keys false true));
  to_right = [];
  to_left = [];
}

-- The run in which each end answers at once.
pub straight-Run :
    (client_env server_env : Environment) (password : Bytes) (a b : ℕ)
    → random_exponent client_env.randbelow ≡ a
    → random_exponent server_env.randbelow ≡ b
    → IsRegular a b password
    → (keys : Keys) × (derive_session_keys (shared_secret (public_element a) b) ≡ ok keys)
      × Run 8 (started client_env server_env password) (ended keys)
unfolding advance run_server
straight-Run client_env server_env password a b ea eb regular =
    let c : Bytes = commitment (public_element a) in
    let element_a : ℕ = public_element a in
    let element_b : ℕ = public_element b in
    let masked : ℕ = mask element_b (secret_to_element password prime) in
    let shared : ℕ = shared_secret element_a b in
    let agree : shared_secret element_b a ≡ shared = shared_secret-agree a b in
    let shared_lt : shared < prime = shared_secret-lt element_a b in
    let (keys, k, ks₁, ks₂, ks₃, ks₄) = derive_session_keys-ok shared shared_lt in
    let (tag, t, (len, bytes)) =
      confirm_mac-ok shared c (codes "client") element_a shared_lt (public_element-lt a) in
    let (tag', t', (len', bytes')) =
      confirm_mac-ok shared c (codes "server") element_b shared_lt (public_element-lt b) in
    let unmasked : unmask masked (secret_to_element password prime) ≡ ok element_b =
      unmask-mask element_b (secret_to_element password prime) regular.inverse (public_element-lt b)
        regular.invertible in
    let client_tag : confirm_mac (shared_secret element_b a) c (codes "client") element_a ≡ ok tag =
      ap (λ (x : ℕ). confirm_mac x c (codes "client") element_a) agree ∙ t in
    let server_tag : confirm_mac (shared_secret element_b a) c (codes "server") element_b
        ≡ ok tag' =
      ap (λ (x : ℕ). confirm_mac x c (codes "server") element_b) agree ∙ t' in
    let client_keys : derive_session_keys (shared_secret element_b a) ≡ ok keys =
      ap derive_session_keys agree ∙ k in
    (
      keys,
      k,
      after (left_goes _ _ _ (ap (λ p. advance p []) (client_starts client_env password a ea)) refl)
          (after
            (right_goes (server_commit server_env password (covenant_commit (hex c))) [] [] refl
              refl)
            (after
              (right_goes _ _ _
                (ap (λ p. advance p [])
                  (server_answers server_env password c b eb
                    (sha1-IsBytes (be_bytes element_bytes element_a))
                    (length-sha1 (be_bytes element_bytes element_a))))
                refl)
              (after
                (left_goes
                  (client_challenge client_env password a c (covenant_challenge (wire masked))) []
                  [] refl refl)
                (after
                  (left_goes _ _ _
                    (ap (λ p. advance p [])
                      (client_answers client_env password c a masked element_b tag
                        regular.masked_in_range unmasked client_tag))
                    refl)
                  (after
                    (right_goes
                      (server_confirm server_env b c (covenant_confirm (wire element_a) (hex tag)))
                      [] [] refl refl)
                    (after
                      (right_goes _ _ _
                        (ap (λ p. advance p [])
                          (server_accepts server_env c element_a b tag tag' keys
                            regular.element_in_range
                            (commit_digest-ok element_a (public_element-lt a)) t bytes t' k))
                        refl)
                      (after
                        (left_goes (finished (ok (start keys true true))) [] []
                          (ap (λ r. some (r, [], []))
                            (client_accepts c (shared_secret element_b a) element_b tag' keys
                              server_tag bytes' client_keys))
                          refl)
                        here))))))),
    )

-- Between two ends with the same password, whatever order they go on in, every run of the
-- handshake from the start has at most eight steps and can be continued to the end at which each
-- has a session over the same keys, and these two sessions are paired in both directions, if the
-- client's element and the masked element are in the accepted range and the password element has
-- an inverse.
pub handshake-agrees :
    (client_env server_env : Environment) (password : Bytes) (k : ℕ)
    (t : System SessionState SessionState)
    → IsRegular
        (random_exponent client_env.randbelow)
        (random_exponent server_env.randbelow)
        password
    → Run k (started client_env server_env password) t
    → (keys : Keys) × (m : ℕ) × (k + m ≡ 8)
      × Run m t (ended keys)
      × Paired (start keys true true) (start keys false true)
      × Paired (start keys false true) (start keys true true)
handshake-agrees client_env server_env password k t regular run =
    let a : ℕ = random_exponent client_env.randbelow in
    let b : ℕ = random_exponent server_env.randbelow in
    let (keys, derived, straight) =
      straight-Run client_env server_env password a b refl refl regular in
    let (m, counts, rest) =
      Run-confluent 8 k (started client_env server_env password) t (ended keys)
        (ok (start keys true true)) (ok (start keys false true))
        (record { left_done = refl; right_done = refl }) straight run in
    (keys, m, counts, rest, start-Paired keys true true true, start-Paired keys false true true)
