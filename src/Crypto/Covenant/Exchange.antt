-- ===== src/Crypto/Covenant/Exchange.antt =====
-- The exchange of crypto/covenant.py: both ends compute the same shared secret.
use priestly.Base.{ℕ, zero, suc, ◌+◌, ◌*◌, ◌/◌, ◌%◌, ◌^◌, ◌<◌, ◌≡◌, sym, ap, ◌∙◌, arith, ok}
use priestly.Crypto.Covenant.{
  prime, generator, pow_mod, public_element, mask, unmask, modinv, shared_secret,
}
use priestly.Crypto.Covenant.Gcd.{congruent, modinv-inverse}
use native.Mathlib.Nat.{
  div-add-mod, mod-eq_of_lt, mod-lt, mul_comm, mul_assoc, mul-one, mul-zero, mul-suc, add-zero,
  add-suc, pow-zero, pow-suc,
}

mul-mod_left : (x y m : ℕ) → x % m * y % m ≡ x * y % m
mul-mod_left x y m =
    congruent (x % m * y) (x * y) (x / m * y) 0 m
      (omega (arith, ap (λ (z : ℕ). z * y) (div-add-mod x m)))

mul-mod_right : (x y m : ℕ) → x * (y % m) % m ≡ x * y % m
mul-mod_right x y m =
    congruent (x * (y % m)) (x * y) (x * (y / m)) 0 m
      (omega (arith, ap (λ (z : ℕ). x * z) (div-add-mod y m)))

pow-mod : (x e m : ℕ) → (x % m) ^ e % m ≡ x ^ e % m
pow-mod x zero m = ap (λ (z : ℕ). z % m) (pow-zero (x % m) ∙ sym (pow-zero x))
pow-mod x (suc e) m =
    ap (λ (z : ℕ). z % m) (pow-suc (x % m) e)
    ∙ sym (mul-mod_left ((x % m) ^ e) (x % m) m)
    ∙ ap (λ (z : ℕ). z * (x % m) % m) (pow-mod x e m)
    ∙ mul-mod_left (x ^ e) (x % m) m
    ∙ mul-mod_right (x ^ e) x m
    ∙ ap (λ (z : ℕ). z % m) (sym (pow-suc x e))

pow-add : (x a b : ℕ) → x ^ (a + b) ≡ x ^ a * x ^ b
pow-add x a zero =
    omega (arith, ap (λ (z : ℕ). x ^ z) (add-zero a), ap (λ (z : ℕ). x ^ a * z) (pow-zero x))
pow-add x a (suc b) =
    ap (λ (z : ℕ). x ^ z) (add-suc a b)
    ∙ pow-suc x (a + b)
    ∙ ap (λ (z : ℕ). z * x) (pow-add x a b)
    ∙ mul_assoc (x ^ a) (x ^ b) x
    ∙ ap (λ (z : ℕ). x ^ a * z) (sym (pow-suc x b))

pow-pow : (x a b : ℕ) → (x ^ a) ^ b ≡ x ^ (a * b)
pow-pow x a zero = pow-zero (x ^ a) ∙ sym (ap (λ (z : ℕ). x ^ z) (mul-zero a) ∙ pow-zero x)
pow-pow x a (suc b) =
    pow-suc (x ^ a) b
    ∙ ap (λ (z : ℕ). z * x ^ a) (pow-pow x a b)
    ∙ sym (pow-add x (a * b) a)
    ∙ ap (λ (z : ℕ). x ^ z) (sym (mul-suc a b))

pow-swap : (x a b m : ℕ) → (x ^ a % m) ^ b % m ≡ (x ^ b % m) ^ a % m
pow-swap x a b m =
    pow-mod (x ^ a) b m
    ∙ ap (λ (z : ℕ). z % m)
        (pow-pow x a b ∙ ap (λ (z : ℕ). x ^ z) (mul_comm a b) ∙ sym (pow-pow x b a))
    ∙ sym (pow-mod (x ^ b) a m)

pub public_element-lt : (e : ℕ) → public_element e < prime
unfolding public_element pow_mod
public_element-lt e = mod-lt (generator ^ e) (omega arith)

-- An element of the group that is masked with a password element that has an inverse is unmasked
-- to itself.
pub unmask-mask :
    (element pe inverse : ℕ)
    → element < prime
    → modinv pe prime ≡ ok inverse
    → unmask (mask element pe) pe ≡ ok element
unfolding unmask mask
unmask-mask element pe inverse small e =
    let (less, unit) = modinv-inverse pe prime inverse (omega arith) e in
    let back : element * pe % prime * inverse % prime ≡ element =
      mul-mod_left (element * pe) inverse prime
      ∙ ap (λ (z : ℕ). z % prime) (mul_assoc element pe inverse)
      ∙ sym (mul-mod_right element (pe * inverse) prime)
      ∙ ap (λ (z : ℕ). element * z % prime) unit
      ∙ mul-mod_right element 1 prime
      ∙ ap (λ (z : ℕ). z % prime) (mul-one element)
      ∙ mod-eq_of_lt small in
    rw e (ap ok back)

-- Both ends come to the same secret from the element of the other.
pub shared_secret-agree :
    (a b : ℕ) → shared_secret (public_element b) a ≡ shared_secret (public_element a) b
unfolding shared_secret public_element pow_mod
shared_secret-agree a b = pow-swap generator b a prime

pub shared_secret-lt : (x e : ℕ) → shared_secret x e < prime
unfolding shared_secret pow_mod
shared_secret-lt x e = mod-lt (x ^ e) (omega arith)

-- If the password element has an inverse, the client unmasks the masked element of the server
-- without an error, and the secret it computes from it with its exponent is the one that the
-- server computes from the element of the client, below the prime.
pub exchange-agree :
    (a b pe inverse : ℕ)
    → modinv pe prime ≡ ok inverse
    → (element : ℕ) × (unmask (mask (public_element b) pe) pe ≡ ok element)
      × (shared_secret element a ≡ shared_secret (public_element a) b)
      × (shared_secret element a < prime)
exchange-agree a b pe inverse e = (
  public_element b,
  unmask-mask (public_element b) pe inverse (public_element-lt b) e,
  shared_secret-agree a b,
  shared_secret-lt (public_element b) a,
)

pub mask-lt : (element pe : ℕ) → mask element pe < prime
unfolding mask
mask-lt element pe = mod-lt (element * pe) (omega arith)
