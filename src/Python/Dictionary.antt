-- ===== src/Python/Dictionary.antt =====
-- Python's `dict` with texts as keys: an association list in insertion order.
use priestly.Base.{
  ◌≡◌, refl, sym, ap, ◌∙◌, Bool, true, false, Option, none, some, List, [], ◌∷◌, ◌++◌,
  if◌then◌else◌, arith,
}
use priestly.Python.Text.{Text, text_eq, text_eq_refl, text_eq→eq}

module _ {ℓ} {V : Type ℓ} where
  -- d[key] = value
  unfoldable pub set_item : Text → V → List (Text × V) → List (Text × V)
  set_item key value [] = (key, value) ∷ []
  set_item key value ((k, v) ∷ d) =
      let rest = set_item key value d in if text_eq k key then (k, value) ∷ d else (k, v) ∷ rest

  -- d.get(key)
  unfoldable pub get_item : Text → List (Text × V) → Option V
  get_item key [] = none
  get_item key ((k, v) ∷ d) = let rest = get_item key d in if text_eq k key then some v else rest

  -- No key stands twice.
  abbrev pub HasUniqueKeys : List (Text × V) → Type ℓ
  HasUniqueKeys [] = Unit
  HasUniqueKeys ((k, v) ∷ d) = (get_item k d ≡ none) × HasUniqueKeys d

  -- d.update(e)
  unfoldable pub update : List (Text × V) → List (Text × V) → List (Text × V)
  update d [] = d
  update d ((k, v) ∷ e) = update (set_item k v d) e

  abbrev pub or_else : Option V → Option V → Option V
  or_else none o = o
  or_else (some v) o = some v

  -- The last value that a list of pairs has for a key.
  abbrev pub last_value : Text → List (Text × V) → Option V
  last_value key [] = none
  last_value key ((k, v) ∷ e) = or_else (last_value key e) (if text_eq k key then some v else none)

  pub or_else-none : (o : Option V) → o ≡ or_else o none
  or_else-none none = refl
  or_else-none (some v) = refl

  pub or_else_assoc : (o p q : Option V) → or_else (or_else o p) q ≡ or_else o (or_else p q)
  or_else_assoc none p q = refl
  or_else_assoc (some v) p q = refl

  pub last_value-append :
      (key : Text) (d e : List (Text × V))
      → last_value key (d ++ e) ≡ or_else (last_value key e) (last_value key d)
  last_value-append key [] e = or_else-none (last_value key e)
  last_value-append key ((k, v) ∷ d) e =
      ap (λ (o : Option V). or_else o (if text_eq k key then some v else none))
        (last_value-append key d e)
      ∙ or_else_assoc (last_value key e) (last_value key d) _

  get_item-set_item :
      (key written : Text) (value : V) (d : List (Text × V))
      → get_item key (set_item written value d)
        ≡ (if text_eq written key then some value else get_item key d)
  unfolding get_item set_item
  get_item-set_item key written value [] = refl
  get_item-set_item key written value ((k, v) ∷ d) = ground (
    arith,
    text_eq→eq k written,
    text_eq→eq k key,
    text_eq→eq written key,
    text_eq_refl key,
    get_item-set_item key written value d,
  )

  pub get_item-update :
      (key : Text) (d e : List (Text × V))
      → get_item key (update d e) ≡ or_else (last_value key e) (get_item key d)
  unfolding update
  get_item-update key d [] = refl
  get_item-update key d ((k, v) ∷ e) =
      get_item-update key (set_item k v d) e
      ∙ ap (or_else (last_value key e)) (get_item-set_item key k v d ∙ either (text_eq k key))
      ∙ sym (or_else_assoc (last_value key e) _ (get_item key d))
    where
      either :
          (b : Bool)
          → (if b then some v else get_item key d)
            ≡ or_else (if b then some v else none) (get_item key d)
      either true = refl
      either false = refl

module _ {ℓ κ} {V : Type ℓ} {W : Type κ} where
  -- The same keys, each with what a function makes of its value.
  abbrev pub map_values : (V → W) → List (Text × V) → List (Text × W)
  map_values f [] = []
  map_values f ((k, v) ∷ d) = (k, f v) ∷ map_values f d
