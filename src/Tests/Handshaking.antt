-- ===== src/Tests/Handshaking.antt =====
-- The theorems on protocol/covenant.py at concrete inputs.
use priestly.Base.{
  from_bytes, ℕ, ◌+◌, ◌≡◌, refl, [], ◌∷◌, arith, List, Result, ok, raise, Bytes, true, false,
  length, ◌++◌, covenant_error,
}
use priestly.Base.Int.{◌-ℤ◌, ◌*ℤ◌, ◌%ℤ◌}
use priestly.Python.Text.{Text, codes, from_hex}
use priestly.Crypto.HmacSha256.{sign_bytes}
use priestly.Crypto.Covenant.{
  prime, modinv, extended_gcd, gcd_loop, mask, pow_mod, random_exponent, public_element,
  commit_digest, secret_to_element, Keys,
}
use priestly.Protocol.Packets.{
  Frame, covenant_commit, covenant_challenge, covenant_confirm, auth_ok, auth_fail,
}
use priestly.Protocol.Session.{start}
use priestly.Protocol.Session.Channel.{Paired}
use priestly.Protocol.Process.{play, ends}
use priestly.Protocol.Process.System.{Run, here}
use priestly.Protocol.Covenant.{Environment, run_server, server_commit, expect_commit, parse_commit}
use priestly.Protocol.Covenant.Elements.{InRange}
use priestly.Protocol.Covenant.Agreement.{IsRegular, started, ended, handshake-agrees}
use priestly.Protocol.Covenant.Honest.{
  client_frames, server_frames, agreed_keys, run_server-Returns, run_client-Returns,
}
use priestly.Protocol.Covenant.Confirmed.{IsConfirmed, run_server-IsConfirmed}
use priestly.Protocol.Covenant.Verified.{IsVerified, run_client-IsVerified}
use priestly.Protocol.Covenant.Refusal.{run_server-tells}

abbrev password : Bytes
password = codes "pw"

-- An operating system that draws this number.
abbrev drawing : ℕ → Environment
drawing n = record { randbelow = λ m. n; to_ascii = λ t. t; int_error = λ t. t }

-- The password's element of the group and its inverse.
abbrev password_element : ℕ
password_element =
    8663112735077026881465294703557132747400380836748797454305640094118808384058874807009855119829177130127357991581766687730081016858186282232728361006442225

abbrev password_inverse : ℕ
password_inverse =
    5629198474998668705149430769792211475914252101681539408661647070631589523824378231267732579741996923083839753814199611901646107766153533368764840327306041377750102588920931754137191978755468709809286030248156832761637726523160365149992124497990398241761973460900648584724393975439837191570029316232504895829087468591201611919277176564766150877546621467469651878354471692487442720664956596608227062962394761972818588668155319617809934364318757560174608320890804089028302656551699927223725684932348305933547362257949357620141625225395413943682641920261927789360352202896248118074380344693027622344738809776494072393458

element_of_password : secret_to_element password prime ≡ password_element
unfolding secret_to_element from_bytes sign_bytes
element_of_password = refl

inverse_of_password : modinv password_element prime ≡ ok password_inverse
unfolding modinv extended_gcd gcd_loop ◌-ℤ◌ ◌*ℤ◌ ◌%ℤ◌
inverse_of_password = refl

exponent_of_client : random_exponent (λ m. 2) ≡ 3
unfolding random_exponent
exponent_of_client = refl

exponent_of_server : random_exponent (λ m. 4) ≡ 5
unfolding random_exponent
exponent_of_server = refl

public_element-InRange : InRange (public_element 3)
unfolding public_element pow_mod
public_element-InRange = (omega arith, omega arith)

mask-InRange : InRange (mask (public_element 5) password_element)
unfolding public_element pow_mod mask
mask-InRange = (omega arith, omega arith)

regular : IsRegular 3 5 password
regular = record {
  element_in_range = public_element-InRange;
  masked_in_range = rw element_of_password mask-InRange;
  inverse = password_inverse;
  invertible = rw element_of_password inverse_of_password;
}

IsRegular-drawn :
    IsRegular
      (random_exponent (drawing 2).randbelow)
      (random_exponent (drawing 4).randbelow)
      password
IsRegular-drawn = rw (exponent_of_client, exponent_of_server) regular

handshake-agrees_example :
    (keys : Keys) × (m : ℕ) × (0 + m ≡ 8)
    × Run m (started (drawing 2) (drawing 4) password) (ended keys)
    × Paired (start keys true true) (start keys false true)
    × Paired (start keys false true) (start keys true true)
handshake-agrees_example =
    handshake-agrees (drawing 2) (drawing 4) password 0 (started (drawing 2) (drawing 4) password)
      IsRegular-drawn here

run_server-IsConfirmed_example :
    (commit_hex a_hex confirm_c : Text) × (commit : Bytes) × (rest : List (Result Frame))
    × (client_frames 3 5
        ≡ ok (covenant_commit commit_hex) ∷ ok (covenant_confirm a_hex confirm_c) ∷ rest)
    × (from_hex commit_hex ≡ ok commit)
    × (length commit ≡ 20)
    × IsConfirmed
        (drawing 4)
        (random_exponent (drawing 4).randbelow)
        commit
        a_hex
        confirm_c
        (start (agreed_keys 3 5) false true)
run_server-IsConfirmed_example =
    run_server-IsConfirmed (drawing 4) password (client_frames 3 5)
      (start (agreed_keys 3 5) false true)
      (run_server-Returns 3 5 (drawing 4) password exponent_of_server public_element-InRange)

run_client-IsVerified_example :
    (masked_b confirm_s : Text) × (commit : Bytes) × (rest : List (Result Frame)) × (server_frames 3
        5 password
      ≡ ok (covenant_challenge masked_b) ∷ ok (auth_ok confirm_s) ∷ rest)
    × (commit_digest (public_element (random_exponent (drawing 2).randbelow)) ≡ ok commit)
    × IsVerified
        (drawing 2)
        password
        (random_exponent (drawing 2).randbelow)
        commit
        masked_b
        confirm_s
        (start (agreed_keys 3 5) true true)
run_client-IsVerified_example =
    run_client-IsVerified (drawing 2) password (server_frames 3 5 password)
      (start (agreed_keys 3 5) true true)
      (run_client-Returns 3 5 (drawing 2) password exponent_of_client regular)

-- A client that sends a commitment of one byte.
abbrev short_commit : List (Result Frame)
short_commit = ok (covenant_commit (codes "00")) ∷ []

short_commit_refused :
    (play (run_server (drawing 4) password) short_commit).1 ≡ ends (raise covenant_error)
unfolding play run_server server_commit expect_commit from_hex parse_commit
short_commit_refused = refl

run_server-tells_example :
    (before : List Frame) × (reason : Text) × ((play
        (run_server (drawing 4) password)
        short_commit).0
      ≡ before ++ (auth_fail reason ∷ []))
run_server-tells_example =
    run_server-tells (drawing 4) password short_commit (λ h. cc h, tt) short_commit_refused
