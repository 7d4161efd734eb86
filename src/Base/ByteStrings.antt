-- ===== src/Base/ByteStrings.antt =====
-- Byte strings as lists of numbers below 256, and `int.to_bytes`, `int.from_bytes` (big-endian).
use native.Mathlib.Nat.{pow-suc}
use Prim.Native.Nat.{ℕ, zero, suc, ◌+◌, ◌*◌, ◌/◌, ◌%◌, ◌^◌, ◌<◌}
use mathlib.Core.Path.{◌≡◌, refl}
use mathlib.Core.List.{List, [], ◌∷◌, ◌++◌, foldl, foldl-append}
use native.Mathlib.Omega.{arith}
use priestly.Base.Tests.{ltb, lt→ltb, if◌then◌else◌}
use priestly.Base.Lists.{length, length-append, All, All-append}
use priestly.Base.Errors.{Result, ok, raise, overflow_error}

abbrev pub Bytes : Type 0
Bytes = List ℕ

abbrev pub IsByte : ℕ → Type 0
IsByte b = b < 256

abbrev pub IsBytes : Bytes → Type 0
IsBytes = All IsByte

-- The last `w` base-256 digits of `n`, the highest first.
unfoldable pub be_bytes : ℕ → ℕ → Bytes
be_bytes zero n = []
be_bytes (suc w) n = be_bytes w (n / 256) ++ (n % 256 ∷ [])

-- n.to_bytes(w, "big")
unfoldable pub to_bytes : ℕ → ℕ → Result Bytes
unfolding be_bytes
to_bytes w n = if ltb n (256 ^ w) then ok (be_bytes w n) else raise overflow_error

-- int.from_bytes(bs, "big")
unfoldable pub from_bytes : Bytes → ℕ
from_bytes = foldl (λ acc b. acc * 256 + b) 0

pub length-be_bytes : (w n : ℕ) → length (be_bytes w n) ≡ w
unfolding be_bytes
length-be_bytes zero n = refl
length-be_bytes (suc w) n =
    omega (arith, length-append (be_bytes w (n / 256)) (n % 256 ∷ []), length-be_bytes w (n / 256))

pub be_bytes-IsBytes : (w n : ℕ) → IsBytes (be_bytes w n)
unfolding be_bytes
be_bytes-IsBytes zero n = tt
be_bytes-IsBytes (suc w) n =
    All-append IsByte (be_bytes w (n / 256)) (n % 256 ∷ []) (be_bytes-IsBytes w (n / 256))
      (omega arith, tt)

pub from_bytes-append_one :
    (bs : Bytes) (b : ℕ) → from_bytes (bs ++ (b ∷ [])) ≡ from_bytes bs * 256 + b
unfolding from_bytes
from_bytes-append_one bs b = rw foldl-append

pub from_bytes-be_bytes : (w n : ℕ) → n < 256 ^ w → from_bytes (be_bytes w n) ≡ n
unfolding be_bytes
from_bytes-be_bytes zero n h = unfold from_bytes in omega arith
from_bytes-be_bytes (suc w) n h = omega (
  arith,
  from_bytes-append_one (be_bytes w (n / 256)) (n % 256),
  from_bytes-be_bytes w (n / 256) (omega (arith, pow-suc 256 w)),
)

pub to_bytes-eq : (w n : ℕ) → n < 256 ^ w → to_bytes w n ≡ ok (be_bytes w n)
unfolding to_bytes
to_bytes-eq w n h = rw (lt→ltb n (256 ^ w) h)
