-- ===== src/Tests/Exchange.antt =====
-- The theorems on crypto/covenant.py at concrete inputs.
use priestly.Base.{ℕ, ◌*◌, ◌%◌, ◌<◌, ◌≡◌, refl, arith, ok}
use priestly.Base.Int.{◌-ℤ◌, ◌*ℤ◌, ◌%ℤ◌}
use priestly.Crypto.Covenant.{
  prime, extended_gcd, gcd_loop, modinv, mask, unmask, public_element, shared_secret, Keys,
  derive_session_keys,
}
use priestly.Crypto.Covenant.Gcd.{Divides, Combination, extended_gcd-result, modinv-inverse}
use priestly.Crypto.Covenant.Exchange.{exchange-agree}
use priestly.Crypto.Covenant.Derivation.{IsKey, derive_session_keys-ok}

extended_gcd-result_example :
    Divides (extended_gcd 240 46).0 240
    × Divides (extended_gcd 240 46).0 46
    × Combination 240 46 (extended_gcd 240 46).0 (extended_gcd 240 46).1 (extended_gcd 240 46).2
extended_gcd-result_example = extended_gcd-result 240 46

inverse_of_three : modinv 3 11 ≡ ok 4
unfolding modinv extended_gcd gcd_loop ◌-ℤ◌ ◌*ℤ◌ ◌%ℤ◌
inverse_of_three = refl

modinv-inverse_example : (4 < 11) × (3 * 4 % 11 ≡ 1 % 11)
modinv-inverse_example = modinv-inverse 3 11 4 (omega arith) inverse_of_three

-- The inverse of 4 in the group.
abbrev quarter : ℕ
quarter =
    8079251517827751825084728481605957062204485310285059778210502437850185426658588555654922354340892336779475434477426047938651468302298757213439746546405538303043853128725443630067558949019559062221061547369396910276482161524852930811356655630548307635229759420131058879781419928967529250264513969412759715461820064494013725892433140381541770334840449885334119139790092079474182268294596147420159917975244300548542161806467757852834107329884048367909133302429269362056997147141342302161324159019312567238876482090687780293524243249517102638589896216645822910534054557769747749862163117065604243008977963126761340272640

inverse_of_four : modinv 4 prime ≡ ok quarter
unfolding modinv extended_gcd gcd_loop ◌-ℤ◌ ◌*ℤ◌ ◌%ℤ◌
inverse_of_four = refl

exchange-agree_example :
    (element : ℕ) × (unmask (mask (public_element 7) 4) 4 ≡ ok element)
    × (shared_secret element 5 ≡ shared_secret (public_element 5) 7)
    × (shared_secret element 5 < prime)
exchange-agree_example = exchange-agree 5 7 4 quarter inverse_of_four

derive_session_keys-ok_example :
    (keys : Keys) × (derive_session_keys 9 ≡ ok keys)
    × IsKey keys.client_write
    × IsKey keys.server_write
    × IsKey keys.client_mac
    × IsKey keys.server_mac
derive_session_keys-ok_example = derive_session_keys-ok 9 (omega arith)
