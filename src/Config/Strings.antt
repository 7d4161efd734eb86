-- ===== src/Config/Strings.antt =====
-- String literals pass through the stripping of config.py unchanged.
use priestly.Base.{ℕ, ◌≡◌, refl, ap, ◌∙◌, false, [], ◌∷◌, ◌++◌, ◌==◌}
use priestly.Python.Text.{Text}
use priestly.Config.{
  quote, backslash, Mode, plain, string, in_string, starts, strip_from, strip_comments,
  strip_commas_from, strip_trailing_commas, cleaned,
}

-- What may stand between the quotes of a literal: a quote only behind a backslash.
pub data IsLiteral : Text → Type 0 where
  empty : IsLiteral []
  char :
      {cs : Text} (c : ℕ)
      → (c == quote) ≡ false
      → (c == backslash) ≡ false
      → IsLiteral cs
      → IsLiteral (c ∷ cs)
  escaped : {cs : Text} (c : ℕ) → IsLiteral cs → IsLiteral (backslash ∷ c ∷ cs)

in_string-plain_char :
    (c : ℕ) → (c == quote) ≡ false → (c == backslash) ≡ false → in_string c ≡ string
unfolding in_string
in_string-plain_char c p q = rw (p, q) refl

strip_from-literal :
    (body rest : Text)
    → IsLiteral body
    → strip_from string (body ++ (quote ∷ rest)) ≡ body ++ (quote ∷ strip_from plain rest)
unfolding strip_from in_string
strip_from-literal _ rest empty = refl
strip_from-literal _ rest (char {cs = cs} c p q h) =
    ap (λ (m : Mode). c ∷ strip_from m (cs ++ (quote ∷ rest))) (in_string-plain_char c p q)
    ∙ ap (λ (t : Text). c ∷ t) (strip_from-literal cs rest h)
strip_from-literal _ rest (escaped {cs = cs} c h) =
    ap (λ (t : Text). backslash ∷ c ∷ t) (strip_from-literal cs rest h)

strip_commas_from-literal :
    (body rest : Text)
    → IsLiteral body
    → strip_commas_from string (body ++ (quote ∷ rest))
      ≡ body ++ (quote ∷ strip_commas_from plain rest)
unfolding strip_commas_from in_string
strip_commas_from-literal _ rest empty = refl
strip_commas_from-literal _ rest (char {cs = cs} c p q h) =
    ap (λ (m : Mode). c ∷ strip_commas_from m (cs ++ (quote ∷ rest))) (in_string-plain_char c p q)
    ∙ ap (λ (t : Text). c ∷ t) (strip_commas_from-literal cs rest h)
strip_commas_from-literal _ rest (escaped {cs = cs} c h) =
    ap (λ (t : Text). backslash ∷ c ∷ t) (strip_commas_from-literal cs rest h)

-- A string literal, escapes included, passes through the stripping of comments and of trailing
-- commas unchanged, whatever looks like a comment or a trailing comma in it, and the text behind
-- it is stripped as if alone.
pub cleaned-literal :
    (body rest : Text)
    → IsLiteral body
    → cleaned (quote ∷ body ++ (quote ∷ rest)) ≡ quote ∷ body ++ (quote ∷ cleaned rest)
unfolding cleaned strip_comments strip_trailing_commas strip_from strip_commas_from starts
cleaned-literal body rest h =
    ap (λ (t : Text). strip_commas_from plain (quote ∷ t)) (strip_from-literal body rest h)
    ∙ ap (λ (t : Text). quote ∷ t) (strip_commas_from-literal body (strip_from plain rest) h)
