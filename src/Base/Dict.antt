-- ===== src/Base/Dict.antt =====
-- Python's `dict` with integer keys: an association list in insertion order. Writing to a key that
-- is there keeps its place.
use priestly.Base.Tests.{◌==◌, ==_iff, if◌then◌else◌}
use Prim.Native.Nat.{ℕ}
use mathlib.Core.Path.{◌≡◌, refl, sym, ap, ◌∙◌, subst}
use mathlib.Core.List.{List, [], ◌∷◌, ◌++◌}
use mathlib.Core.Option.{Option, none, some}
use mathlib.Core.Option as Option
use mathlib.Core.Bool.{Bool, true, false}
use native.Mathlib.Omega.{arith}

abbrev pub Dict {ℓ} : Type ℓ → Type ℓ
Dict V = List (ℕ × V)

module _ {ℓ} {V : Type ℓ} where
  -- d[k] = v
  unfoldable pub insert : ℕ → V → Dict V → Dict V
  insert k v [] = (k, v) ∷ []
  insert k v ((j, w) ∷ m) = if j == k then (k, v) ∷ m else (j, w) ∷ insert k v m

  -- d.get(k)
  unfoldable pub lookup : ℕ → Dict V → Option V
  lookup k [] = none
  lookup k ((j, v) ∷ m) = if j == k then some v else lookup k m

  -- No key stands twice.
  abbrev pub Distinct : Dict V → Type ℓ
  Distinct [] = Unit
  Distinct ((k, v) ∷ m) = (lookup k m ≡ none) × Distinct m

  pub lookup-insert :
      (written read : ℕ) (v : V) (m : Dict V)
      → lookup read (insert written v m) ≡ (if written == read then some v else lookup read m)
  unfolding lookup insert
  lookup-insert k j v [] = refl
  lookup-insert k j v ((i, w) ∷ m) = ground (arith, lookup-insert k j v m)

  pub insert-Distinct : (k : ℕ) (v : V) (m : Dict V) → Distinct m → Distinct (insert k v m)
  unfolding insert
  insert-Distinct k v [] h = (unfold lookup in refl, tt)
  insert-Distinct k v ((i, w) ∷ m) h =
      ground (arith, lookup-insert k i v m, insert-Distinct k v m h.1)

  -- A new key goes to the end.
  pub insert_fresh :
      (k : ℕ) (v : V) (m : Dict V) → lookup k m ≡ none → insert k v m ≡ m ++ ((k, v) ∷ [])
  unfolding lookup insert
  insert_fresh k v [] h = refl
  insert_fresh k v ((i, w) ∷ m) h = ground (arith, insert_fresh k v m)

  -- `d[k] = f(d[k])`, if the key is there.
  abbrev updated : ℕ → (V → V) → Dict V → Option V → Dict V
  updated k f m none = m
  updated k f m (some v) = insert k (f v) m

  unfoldable pub update : ℕ → (V → V) → Dict V → Dict V
  update k f m = updated k f m (lookup k m)

  lookup-updated :
      (k j : ℕ) (f : V → V) (m : Dict V) (o : Option V) (same : Bool)
      → (j == k) ≡ same
      → lookup j m ≡ o
      → lookup k (updated j f m o) ≡ (if same then Option.map f (lookup k m) else lookup k m)
  lookup-updated k j f m none true e h =
      let there : lookup k m ≡ none = ap (λ (n : ℕ). lookup n m) (sym ((==_iff j k).0 e)) ∙ h in
      there ∙ sym (ap (Option.map f) there)
  lookup-updated k j f m none false e h = refl
  lookup-updated k j f m (some v) true e h =
      let there : lookup k m ≡ some v = ap (λ (n : ℕ). lookup n m) (sym ((==_iff j k).0 e)) ∙ h in
      lookup-insert j k (f v) m
      ∙ ap (λ (b : Bool). if b then some (f v) else lookup k m) e
      ∙ sym (ap (Option.map f) there)
  lookup-updated k j f m (some v) false e h =
      lookup-insert j k (f v) m ∙ ap (λ (b : Bool). if b then some (f v) else lookup k m) e

  pub lookup-update :
      (k j : ℕ) (f : V → V) (m : Dict V)
      → lookup k (update j f m) ≡ (if j == k then Option.map f (lookup k m) else lookup k m)
  unfolding update
  lookup-update k j f m = lookup-updated k j f m (lookup j m) (j == k) refl refl

  updated-Distinct :
      (k : ℕ) (f : V → V) (m : Dict V) (o : Option V) → Distinct m → Distinct (updated k f m o)
  updated-Distinct k f m none h = h
  updated-Distinct k f m (some v) h = insert-Distinct k (f v) m h

  pub update-Distinct : (k : ℕ) (f : V → V) (m : Dict V) → Distinct m → Distinct (update k f m)
  unfolding update
  update-Distinct k f m h = updated-Distinct k f m (lookup k m) h

some_inj {ℓ} : {A : Type ℓ} {x y : A} → some x ≡ some y → x ≡ y
some_inj h = cc h

module _ {ℓ κ} {V : Type ℓ} (P : V → Type κ) where
  -- Every value has the property.
  abbrev pub AllValues : Dict V → Type κ
  AllValues [] = Unit
  AllValues ((k, v) ∷ m) = P v × AllValues m

  pub insert-AllValues : (k : ℕ) (v : V) (m : Dict V) → P v → AllValues m → AllValues (insert k v m)
  unfolding insert
  insert-AllValues k v [] p h = (p, tt)
  insert-AllValues k v ((j, w) ∷ m) p h = put (j == k) (insert-AllValues k v m p h.1)
    where
      put :
          (same : Bool)
          → AllValues (insert k v m)
          → AllValues (if same then (k, v) ∷ m else (j, w) ∷ insert k v m)
      put true rest = (p, h.1)
      put false rest = (h.0, rest)

  pub lookup-AllValues : (k : ℕ) (v : V) (m : Dict V) → AllValues m → lookup k m ≡ some v → P v
  unfolding lookup
  lookup-AllValues k v [] h e = absurd (cc e)
  lookup-AllValues k v ((j, w) ∷ m) h e = found (j == k) (lookup-AllValues k v m h.1) e
    where
      found :
          (same : Bool)
          → (lookup k m ≡ some v → P v)
          → (if same then some w else lookup k m) ≡ some v
          → P v
      found true rest e = subst P (some_inj e) h.0
      found false rest e = rest e

  updated-AllValues :
      (k : ℕ) (f : V → V) (m : Dict V) (o : Option V)
      → ((v : V) → P v → P (f v))
      → AllValues m
      → lookup k m ≡ o
      → AllValues (updated k f m o)
  updated-AllValues k f m none keeps h e = h
  updated-AllValues k f m (some v) keeps h e =
      insert-AllValues k (f v) m (keeps v (lookup-AllValues k v m h e)) h

  pub update-AllValues :
      (k : ℕ) (f : V → V) (m : Dict V)
      → ((v : V) → P v → P (f v))
      → AllValues m
      → AllValues (update k f m)
  unfolding update
  update-AllValues k f m keeps h = updated-AllValues k f m (lookup k m) keeps h refl
