-- ===== src/Base/Errors.antt =====
-- Python's exceptions as values: a call returns `ok` or `raise`s one of the classes the program
-- meets. Messages are kept only where the program sends them on.
use Prim.Native.Nat.{ℕ}
use mathlib.Core.Path.{◌≡◌, refl}
use mathlib.Core.Option.{Option}
use mathlib.Core.Bool.{Bool, true, false}

pub data Exception : Type 0 where
  value_error overflow_error index_error key_error type_error struct_error attribute_error :
      Exception
  authentication_error replay_error protocol_error covenant_error os_error : Exception
  -- With the code of the peer's Close frame, if it sent one.
  connection_closed : Option ℕ → Exception
  -- None of Python's: a loop of the model has used up its rounds.
  out_of_rounds : Exception

pub data Result {ℓ} (A : Type ℓ) : Type ℓ where
  ok : A → Result A
  raise : Exception → Result A

-- `if not b: raise e`
abbrev pub guard : Bool → Exception → Result (Unit {0})
guard true e = ok tt
guard false e = raise e

-- What follows a call runs only if the call returned.
infixl 5 ◌>>=◌ ◌>>◌
abbrev pub ◌>>=◌ {ℓ κ} : {A : Type ℓ} {B : Type κ} → Result A → (A → Result B) → Result B
raise exc >>= rest = raise exc
ok value >>= rest = rest value

abbrev pub ◌>>◌ {κ} : {B : Type κ} → Result (Unit {0}) → Result B → Result B
raise exc >> rest = raise exc
ok value >> rest = rest

-- A chain that returned has passed through each of its parts.
pub bind-returned {ℓ κ} :
    {A : Type ℓ} {B : Type κ} (m : Result A) (f : A → Result B) (b : B)
    → (m >>= f) ≡ ok b
    → (a : A) × (m ≡ ok a) × (f a ≡ ok b)
bind-returned (ok a) f b e = (a, refl, e)
bind-returned (raise x) f b e = absurd (cc e)

pub guard-returned {κ} :
    {B : Type κ} (test : Bool) (exc : Exception) (r : Result B) (b : B)
    → (guard test exc >> r) ≡ ok b
    → (test ≡ true) × (r ≡ ok b)
guard-returned true exc r b e = (refl, e)
guard-returned false exc r b e = absurd (cc e)
