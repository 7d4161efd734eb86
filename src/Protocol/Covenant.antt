-- ===== src/Protocol/Covenant.antt =====
-- protocol/covenant.py: the two sides of the Covenant handshake, as programs that send and receive
-- frames.
pub mod Elements
pub mod Steps
pub mod Agreement
pub mod Parts
pub mod Confirmed
pub mod Verified
pub mod Honest
pub mod Refusal
use priestly.Base.{
  ℕ, ◌+◌, ◌-◌, Bool, true, false, not, ◌&&◌, Option, none, some, List, [], ◌∷◌, ◌++◌, ltb, ◌==◌,
  if◌then◌else◌, length, Result, ok, raise, covenant_error, value_error, Exception, Bytes, to_bytes,
}
use priestly.Base as Base
use priestly.Base.Int.{ℤ, pos, negsuc}
use priestly.Python.Text.{Text, codes, text_eq, hex, from_hex, compare_digest}
use priestly.Python.Ints.{int16}
use priestly.Crypto.Covenant.{
  prime, element_bytes, random_exponent, public_element, commit_digest, secret_to_element, mask,
  unmask, shared_secret, confirm_mac, Keys, derive_session_keys,
}
use priestly.Protocol.Packets.{
  Frame, covenant_commit, covenant_challenge, covenant_confirm, auth_ok, auth_fail,
}
use priestly.Protocol.Session.{SessionState, start}
use priestly.Protocol.Process.{
  Process, finished, sending, return, throw, lift, send_frame, recv_frame, ◌>>=◌, ◌>>◌,
}

-- What the operating system and Python's tables and messages give: secrets.randbelow, the ASCII
-- form of a text's digits and spaces, and the message of int(text, 16).
pub record Environment : Type 0 where
  pub randbelow : ℕ → ℕ
  pub to_ascii : Text → Text
  pub int_error : Text → Text

unfoldable pub element_hex : ℕ → Result Text
element_hex value = Base.◌>>=◌ (to_bytes element_bytes value) λ b. ok (hex b)

-- The element, or the message of the CovenantError.
pub data Parsed : Type 0 where
  element : ℕ → Parsed
  refused : Text → Parsed

-- `1 < value < cv.P - 1`
abbrev pub in_range : ℤ → Bool
in_range (pos n) = ltb 1 n && ltb n (prime - 1)
in_range (negsuc n) = false

abbrev pub magnitude : ℤ → ℕ
magnitude (pos n) = n
magnitude (negsuc n) = 0

-- `_fail`: whether or not the frame can be sent.
abbrev pub fail : {A : Type 0} → Text → Process A
fail reason = sending (auth_fail reason) (λ r. throw covenant_error)

-- `if not b: _fail(ws, reason)`
abbrev pub require : Bool → Text → Process (Unit {0})
require b reason = if b then return tt else fail reason

-- `if not b: raise CovenantError(...)`
abbrev pub check : Bool → Process (Unit {0})
check b = if b then return tt else throw covenant_error

-- The client's tests of the class of a frame.
unfoldable pub expect_challenge : Frame → Process Text
expect_challenge (covenant_challenge masked_b) = return masked_b
expect_challenge f = throw covenant_error

unfoldable pub expect_auth_ok : Frame → Process Text
expect_auth_ok (auth_ok confirm_s) = return confirm_s
expect_auth_ok f = throw covenant_error

-- The server's.
unfoldable pub expect_commit : Frame → Process Text
expect_commit (covenant_commit commit) = return commit
expect_commit f = fail (codes "expected commit")

unfoldable pub expect_confirm : Frame → Process (Text × Text)
expect_confirm (covenant_confirm a confirm_c) = return (a, confirm_c)
expect_confirm f = fail (codes "expected confirm")

-- `bytes.fromhex(commit_frame.commit)`, whose ValueError fails the handshake.
unfoldable pub parse_commit : Result Bytes → Process Bytes
parse_commit (ok commit) = return commit
parse_commit (raise value_error) = fail (codes "malformed commit")
parse_commit (raise e) = throw e

-- `run_client` from the result on.
unfoldable pub client_result : ℕ → ℕ → Bytes → Frame → Process SessionState
client_result shared public_b commit result = do
  confirm_s ← expect_auth_ok result
  expected_s ← lift (confirm_mac shared commit (codes "server") public_b)
  same ← lift (compare_digest (hex expected_s) confirm_s)
  check same
  keys ← lift (derive_session_keys shared)
  return (start keys true true)

module _ (env : Environment) where
  -- `_parse_element`, from what int(text, 16) has read.
  abbrev pub checked_element : Text → Option ℤ → Parsed
  checked_element text none = refused (codes "malformed group element: " ++ env.int_error text)
  checked_element text (some value) =
      if in_range value
      then element (magnitude value)
      else refused (codes "group element out of range")

  unfoldable pub parse_element : Text → Parsed
  parse_element text = checked_element text (int16 env.to_ascii text)

  -- On the client's side a bad element only raises.
  abbrev pub element_or_raise : Parsed → Process ℕ
  element_or_raise (element n) = return n
  element_or_raise (refused reason) = throw covenant_error

  -- `_parse_element_or_fail`
  abbrev pub element_or_fail : Parsed → Process ℕ
  element_or_fail (element n) = return n
  element_or_fail (refused reason) = fail reason

  -- From the challenge on.
  unfoldable pub client_challenge : Bytes → ℕ → Bytes → Frame → Process SessionState
  client_challenge password a commit challenge = do
    masked_hex ← expect_challenge challenge
    masked_b ← element_or_raise (parse_element masked_hex)
    let pe = secret_to_element password prime
    public_b ← lift (unmask masked_b pe)
    let shared = shared_secret public_b a
    confirm_c ← lift (confirm_mac shared commit (codes "client") (public_element a))
    a_hex ← lift (element_hex (public_element a))
    send_frame (covenant_confirm a_hex (hex confirm_c))
    recv_frame >>= client_result shared public_b commit

  unfoldable pub run_client : Bytes → Process SessionState
  run_client password = do
    let a = random_exponent env.randbelow
    commit ← lift (commit_digest (public_element a))
    send_frame (covenant_commit (hex commit))
    recv_frame >>= client_challenge password a commit

  -- `run_server` from the client's confirmation on.
  unfoldable pub server_confirm : ℕ → Bytes → Frame → Process SessionState
  server_confirm b commit confirm_frame = do
    confirm ← expect_confirm confirm_frame
    public_a ← element_or_fail (parse_element confirm.0)
    digest ← lift (commit_digest public_a)
    require (text_eq digest commit) (codes "commit does not match revealed element")
    let shared = shared_secret public_a b
    expected_c ← lift (confirm_mac shared commit (codes "client") public_a)
    same ← lift (compare_digest (hex expected_c) confirm.1)
    require same (codes "client key confirmation failed")
    confirm_s ← lift (confirm_mac shared commit (codes "server") (public_element b))
    send_frame (auth_ok (hex confirm_s))
    keys ← lift (derive_session_keys shared)
    return (start keys false true)

  -- From the client's commitment on.
  unfoldable pub server_commit : Bytes → Frame → Process SessionState
  server_commit password commit_frame = do
    commit_hex ← expect_commit commit_frame
    commit ← parse_commit (from_hex commit_hex)
    require (length commit == 20) (codes "malformed commit")
    let b = random_exponent env.randbelow
    let pe = secret_to_element password prime
    masked_hex ← lift (element_hex (mask (public_element b) pe))
    send_frame (covenant_challenge masked_hex)
    recv_frame >>= server_confirm b commit

  unfoldable pub run_server : Bytes → Process SessionState
  run_server password = recv_frame >>= server_commit password
