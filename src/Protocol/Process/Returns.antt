-- ===== src/Protocol/Process/Returns.antt =====
-- What a program that has returned has gone through.
use priestly.Base.{◌≡◌, refl, List, [], ◌∷◌, Result, ok, raise}
use priestly.Protocol.Packets.{Frame}
use priestly.Protocol.Process.{Process, finished, ◌>>=◌, recv_frame, ends, play}

-- On this list of what it receives, with every frame sent, the program returns the value.
abbrev pub Returns : {A : Type 0} → Process A → List (Result Frame) → A → Type 0
Returns p script a = (play p script).1 ≡ ends (ok a)

pub lift-Returns :
    {A B : Type 0} (r : Result A) (g : A → Process B) (script : List (Result Frame)) (b : B)
    → Returns (finished r >>= g) script b
    → (a : A) × (r ≡ ok a) × Returns (g a) script b
unfolding play
lift-Returns (ok a) g script b h = (a, refl, h)
lift-Returns (raise e) g script b h = absurd (cc h)

pub recv_frame-Returns :
    {B : Type 0} (g : Frame → Process B) (script : List (Result Frame)) (b : B)
    → Returns (recv_frame >>= g) script b
    → (f : Frame) × (rest : List (Result Frame)) × (script ≡ ok f ∷ rest) × Returns (g f) rest b
unfolding play
recv_frame-Returns g [] b h = absurd (cc h)
recv_frame-Returns g (ok f ∷ rest) b h = (f, rest, refl, h)
recv_frame-Returns g (raise e ∷ rest) b h = absurd (cc h)

pub returned-Returns :
    {A : Type 0} (a : A) (script : List (Result Frame)) (b : A)
    → Returns (finished (ok a)) script b
    → b ≡ a
unfolding play
returned-Returns a script b h = cc h
