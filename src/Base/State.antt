-- ===== src/Base/State.antt =====
-- Calls that change a state and may raise: what was changed before a raise stays changed.
use priestly.Base.Errors.{Exception, Result, ok, raise}
use priestly.Base.Tests.{if◌then◌else◌}
use mathlib.Core.Path.{◌≡◌, refl, ap}
use mathlib.Core.Bool.{Bool, true, false}

abbrev pub Action {ℓ} : Type ℓ → Type ℓ → Type ℓ
Action S A = S → Result A × S

abbrev pub return {ℓ} : {S A : Type ℓ} → A → Action S A
return a s = (ok a, s)

abbrev pub throw {ℓ} : {S A : Type ℓ} → Exception → Action S A
throw e s = (raise e, s)

abbrev pub lift {ℓ} : {S A : Type ℓ} → Result A → Action S A
lift r s = (r, s)

-- `if b: raise e`
abbrev pub throw_if {ℓ} : {S A : Type ℓ} → Bool → Exception → Action S A → Action S A
throw_if b e rest s = if b then (raise e, s) else rest s

abbrev pub proceed {ℓ} : {S A B : Type ℓ} → Result A → (A → Action S B) → Action S B
proceed (ok a) f s = f a s
proceed (raise e) f s = (raise e, s)

infixl 5 ◌>>=◌ ◌>>◌
abbrev pub ◌>>=◌ {ℓ} : {S A B : Type ℓ} → Action S A → (A → Action S B) → Action S B
◌>>=◌ m f s = let (r, s') = m s in proceed r f s'

abbrev pub ◌>>◌ {ℓ} : {S A B : Type ℓ} → Action S A → Action S B → Action S B
m >> n = m >>= λ _. n

-- A call that returned goes on with its value and its state.
pub bind-ok {ℓ} :
    {S A B : Type ℓ} (m : Action S A) (f : A → Action S B) (a : A) (s s' : S)
    → m s ≡ (ok a, s')
    → (m >>= f) s ≡ f a s'
bind-ok m f a s s' e = ap (λ r. proceed r.0 f r.1) e

-- A chain that returned has passed through each of its parts.
pub bind-went {ℓ} :
    {S A B : Type ℓ} (m : Action S A) (f : A → Action S B) (b : B) (s s'' : S)
    → (m >>= f) s ≡ (ok b, s'')
    → (a : A) × (s' : S) × (m s ≡ (ok a, s')) × (f a s' ≡ (ok b, s''))
bind-went {S = S} {A} {B} m f b s s'' e = split (m s) refl e
  where
    split :
        (r : Result A × S)
        → m s ≡ r
        → proceed r.0 f r.1 ≡ (ok b, s'')
        → (a : A) × (s' : S) × (m s ≡ (ok a, s')) × (f a s' ≡ (ok b, s''))
    split (ok a, s') p h = (a, s', p, h)
    split (raise x, s') p h = absurd (cc h)

pub throw_if-went {ℓ} :
    {S A : Type ℓ} (b : Bool) (x : Exception) (rest : Action S A) (a : A) (s s' : S)
    → throw_if b x rest s ≡ (ok a, s')
    → rest s ≡ (ok a, s')
throw_if-went true x rest a s s' e = absurd (cc e)
throw_if-went false x rest a s s' e = e
