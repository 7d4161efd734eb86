-- ===== src/Protocol/Covenant/Elements.antt =====
-- Group elements on the wire of protocol/covenant.py: written as 512 digits, and read back if they
-- are in range.
use priestly.Base.{
  ℕ, ◌-◌, ◌<◌, ◌≡◌, refl, sym, ap, ◌∙◌, Bool, true, Bool-cases, inl, inr, Option, none, some, [],
  ◌∷◌, arith, ltb, ltb→lt, lt→ltb, if◌then◌else◌, length, ok, Bytes, IsBytes, be_bytes, from_bytes,
  to_bytes-eq, length-be_bytes, be_bytes-IsBytes, from_bytes-be_bytes,
}
use priestly.Base.Int.{ℤ, pos, negsuc}
use priestly.Python.Text.{Text, codes, hex}
use priestly.Python.Ints.{int16}
use priestly.Python.Ints.Hexadecimal.{int16-hex}
use priestly.Crypto.Sha1.{sha1}
use priestly.Crypto.Covenant.{commit_digest, prime, element_bytes}
use priestly.Protocol.Covenant.{
  Environment, element_hex, Parsed, element, refused, in_range, magnitude, checked_element,
  parse_element,
}

-- The elements that the handshake accepts from the other end.
abbrev pub InRange : ℕ → Type 0
InRange v = (1 < v) × (v < prime - 1)

abbrev pub wire : ℕ → Text
wire v = hex (be_bytes element_bytes v)

pub element_hex-wire : (v : ℕ) → v < prime → element_hex v ≡ ok (wire v)
unfolding element_hex
element_hex-wire v h = rw (to_bytes-eq element_bytes v (omega (arith, h))) refl

-- The commitment to an element of the group.
abbrev pub commitment : ℕ → Bytes
commitment public = sha1 (be_bytes element_bytes public)

pub commit_digest-ok : (public : ℕ) → public < prime → commit_digest public ≡ ok (commitment public)
unfolding commit_digest
commit_digest-ok public h = rw (to_bytes-eq element_bytes public (omega (arith, h))) refl

in_range-pos : (v : ℕ) → InRange v → in_range (pos v) ≡ true
in_range-pos v (low, high) =
    let a : ltb 1 v ≡ true = lt→ltb 1 v low in
    let b : ltb v (prime - 1) ≡ true = lt→ltb v (prime - 1) high in rw (a, b) refl

int16-wire :
    (to_ascii : Text → Text) (bs : Bytes)
    → length bs ≡ 256
    → IsBytes bs
    → int16 to_ascii (hex bs) ≡ some (pos (from_bytes bs))
int16-wire to_ascii [] len h = absurd (omega (arith, len))
int16-wire to_ascii (b ∷ bs) len h = int16-hex to_ascii b bs h

module _ (env : Environment) where
  pub parse_element-wire : (v : ℕ) → InRange v → parse_element env (wire v) ≡ element v
  unfolding parse_element
  parse_element-wire v h =
      let e : int16 env.to_ascii (wire v) ≡ some (pos v) =
        int16-wire env.to_ascii (be_bytes element_bytes v) (length-be_bytes element_bytes v)
          (be_bytes-IsBytes element_bytes v)
        ∙ ap (λ (n : ℕ). some (pos n)) (from_bytes-be_bytes element_bytes v (omega (arith, h.1))) in
      rw (e, in_range-pos v h) refl

  in_range_inv : (z : ℤ) → in_range z ≡ true → InRange (magnitude z)
  in_range_inv (pos n) h = (ltb→lt 1 n (grind (arith, h)), ltb→lt n (prime - 1) (grind (arith, h)))
  in_range_inv (negsuc n) h = absurd (cc h)

  abbrev chosen : ℤ → Bool → Parsed
  chosen z b = if b then element (magnitude z) else refused (codes "group element out of range")

  checked_element-InRange :
      (t : Text) (o : Option ℤ) (v : ℕ) → checked_element env t o ≡ element v → InRange v
  checked_element-InRange t none v h = absurd (cc h)
  checked_element-InRange t (some z) v h = elim (Bool-cases (in_range z)) [
    | inl e ↦
        let same : magnitude z ≡ v = cc (sym (ap (chosen z) e) ∙ h) in
        let (low, high) = in_range_inv z e in (omega (arith, low, same), omega (arith, high, same))
    | inr e ↦ absurd (cc (sym (ap (chosen z) e) ∙ h))
  ]

  -- An element that is accepted is in range.
  pub parse_element-InRange : (t : Text) (v : ℕ) → parse_element env t ≡ element v → InRange v
  unfolding parse_element
  parse_element-InRange t v h = checked_element-InRange t (int16 env.to_ascii t) v h
