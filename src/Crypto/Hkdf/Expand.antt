-- ===== src/Crypto/Hkdf/Expand.antt =====
-- The length of the keying material, and the lengths that are refused.
use priestly.Base.{
  ℕ, zero, suc, ◌+◌, ◌-◌, ◌*◌, ◌/◌, ◌≤◌, ◌≡◌, ◌↔◌, refl, [], ◌∷◌, ◌++◌, arith, length,
  length-append, length-take, take, ok, raise, value_error, Bytes, IsByte, IsBytes, All-append,
  All-take,
}
use priestly.Base.Int.{ℤ, pos, negsuc}
use priestly.Crypto.HmacSha256.{sign_bytes}
use priestly.Crypto.HmacSha256.Tag.{length-sign_bytes, sign_bytes-IsBytes}
use priestly.Crypto.Hkdf.{expand_loop, hkdf_expand}

-- A length that HKDF-Expand can give: 255 blocks of 32 bytes at most.
abbrev pub Fits : ℤ → Type 0
Fits (pos n) = n ≤ 8160
Fits (negsuc m) = ⊥

module _ (prk info : Bytes) where
  length-expand_loop :
      (left counter : ℕ) (previous okm : Bytes)
      → length (expand_loop prk info left counter previous okm) ≡ length okm + 32 * left
  unfolding expand_loop
  length-expand_loop zero counter previous okm = omega arith
  length-expand_loop (suc left) counter previous okm =
      let next = sign_bytes prk (previous ++ (info ++ (counter ∷ []))) in
      omega (
        arith,
        length-expand_loop left (counter + 1) next (okm ++ next),
        length-append okm next,
        length-sign_bytes prk (previous ++ (info ++ (counter ∷ []))),
      )

  expand_loop-IsBytes :
      (left counter : ℕ) (previous okm : Bytes)
      → IsBytes okm
      → IsBytes (expand_loop prk info left counter previous okm)
  unfolding expand_loop
  expand_loop-IsBytes zero counter previous okm h = h
  expand_loop-IsBytes (suc left) counter previous okm h =
      let next = sign_bytes prk (previous ++ (info ++ (counter ∷ []))) in
      expand_loop-IsBytes left (counter + 1) next (okm ++ next) (
        All-append IsByte okm next h
          (sign_bytes-IsBytes prk (previous ++ (info ++ (counter ∷ [])))))

  pub hkdf_expand-length :
      (n : ℕ)
      → n ≤ 8160
      → (okm : Bytes) × (hkdf_expand prk info (pos n) ≡ ok okm) × (length okm ≡ n) × IsBytes okm
  unfolding hkdf_expand
  hkdf_expand-length n h =
      let rounds = (n + 32 - 1) / 32 in
      let all = expand_loop prk info rounds 1 [] [] in
      (
        take n all,
        ground arith,
        omega (arith, length-take n all, length-expand_loop rounds 1 [] []),
        All-take IsByte n all (expand_loop-IsBytes rounds 1 [] [] tt),
      )

  -- HKDF-Expand raises ValueError exactly for a negative length and for one above 8160.
  pub hkdf_expand-refused_iff : (z : ℤ) → (hkdf_expand prk info z ≡ raise value_error) ↔ (¬ Fits z)
  unfolding hkdf_expand
  hkdf_expand-refused_iff (pos n) = ground arith
  hkdf_expand-refused_iff (negsuc m) = (λ _ h. h, λ _. refl)
