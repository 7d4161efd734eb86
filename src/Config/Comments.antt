-- ===== src/Config/Comments.antt =====
-- Comments and trailing commas of config.py: what is stripped.
use priestly.Base.{ℕ, ◌≡◌, refl, ap, ◌∙◌, Bool, true, false, ◌&&◌, [], ◌∷◌, ◌++◌, ◌==◌}
use priestly.Python.Text.{Text}
use priestly.Config.{
  newline, slash, star, hash, comma, plain, line, block, closing, starts, strip_from,
  strip_comments, strip_commas_from, strip_trailing_commas, is_blank, before_close, comes_next,
}

-- The text of a line comment has no newline.
pub data IsLine : Text → Type 0 where
  end : IsLine []
  char : {cs : Text} (c : ℕ) → (c == newline) ≡ false → IsLine cs → IsLine (c ∷ cs)

-- The text of a block comment: no star in it has a slash behind it.
pub data IsBlock : Text → Type 0 where
  end : IsBlock []
  char :
      {cs : Text} (c : ℕ)
      → ((c == star) && comes_next slash cs) ≡ false
      → IsBlock cs
      → IsBlock (c ∷ cs)

-- Its newlines.
abbrev pub newlines : Text → Text
newlines [] = []
newlines (c ∷ cs) = elim (c == newline) [ true ↦ newline ∷ newlines cs | false ↦ newlines cs ]

strip_from-IsLine :
    (body rest : Text)
    → IsLine body
    → strip_from line (body ++ (newline ∷ rest)) ≡ newline ∷ strip_from plain rest
unfolding strip_from
strip_from-IsLine _ rest end = refl
strip_from-IsLine _ rest (char {cs = cs} c p h) = rw (p, strip_from) (strip_from-IsLine cs rest h)

pub strip_comments-line :
    (body rest : Text)
    → IsLine body
    → (strip_comments (slash ∷ slash ∷ body ++ (newline ∷ rest)) ≡ newline ∷ strip_comments rest)
      × (strip_comments (hash ∷ body ++ (newline ∷ rest)) ≡ newline ∷ strip_comments rest)
unfolding strip_comments strip_from starts
strip_comments-line body rest h = (strip_from-IsLine body rest h, strip_from-IsLine body rest h)

-- A newline is kept where the comment is not over.
kept :
    (is_newline : Bool) (x y : Text) (over : Bool)
    → over ≡ false
    → elim over as (λ b. Text) [
      | true ↦ x
      | false ↦ elim is_newline as (λ b. Text) [ true ↦ newline ∷ y | false ↦ y ]
    ]
      ≡ elim is_newline as (λ b. Text) [ true ↦ newline ∷ [] | false ↦ [] ] ++ y
kept true x y false h = refl
kept false x y false h = refl
kept true x y true h = absurd (cc h)
kept false x y true h = absurd (cc h)

newlines_joined :
    (is_newline : Bool) (x y : Text)
    → elim is_newline as (λ b. Text) [ true ↦ newline ∷ [] | false ↦ [] ] ++ (x ++ y)
      ≡ elim is_newline as (λ b. Text) [ true ↦ newline ∷ x | false ↦ x ] ++ y
newlines_joined true x y = refl
newlines_joined false x y = refl

-- A character in a block comment that does not end it.
block_goes_on :
    (c : ℕ) (cs rest : Text)
    → ((c == star) && comes_next slash cs) ≡ false
    → strip_from block (c ∷ (cs ++ (star ∷ slash ∷ rest)))
      ≡ newlines (c ∷ []) ++ strip_from block (cs ++ (star ∷ slash ∷ rest))
unfolding strip_from
block_goes_on c [] rest h =
    kept (c == newline) (strip_from closing (star ∷ slash ∷ rest))
      (strip_from block (star ∷ slash ∷ rest)) ((c == star) && false) h
block_goes_on c (d ∷ cs) rest h =
    kept (c == newline) (strip_from closing (d ∷ (cs ++ (star ∷ slash ∷ rest))))
      (strip_from block (d ∷ (cs ++ (star ∷ slash ∷ rest)))) ((c == star) && (d == slash)) h

strip_from-IsBlock :
    (body rest : Text)
    → IsBlock body
    → strip_from block (body ++ (star ∷ slash ∷ rest)) ≡ newlines body ++ strip_from plain rest
unfolding strip_from
strip_from-IsBlock _ rest end = refl
strip_from-IsBlock _ rest (char {cs = cs} c p h) =
    block_goes_on c cs rest p
    ∙ ap (λ (t : Text). newlines (c ∷ []) ++ t) (strip_from-IsBlock cs rest h)
    ∙ newlines_joined (c == newline) (newlines cs) (strip_from plain rest)

-- A block comment is taken out and its newlines stay, so that the lines of the records are kept.
pub strip_comments-block :
    (body rest : Text)
    → IsBlock body
    → strip_comments (slash ∷ star ∷ body ++ (star ∷ slash ∷ rest))
      ≡ newlines body ++ strip_comments rest
unfolding strip_comments strip_from starts
strip_comments-block body rest h = strip_from-IsBlock body rest h

-- Blanks, and then a brace or a bracket that closes.
pub data IsClose : Text → Type 0 where
  brace : (rest : Text) → IsClose (125 ∷ rest)
  bracket : (rest : Text) → IsClose (93 ∷ rest)
  blank : {cs : Text} (c : ℕ) → is_blank c ≡ true → IsClose cs → IsClose (c ∷ cs)

before_close-IsClose : (t : Text) → IsClose t → before_close t ≡ true
unfolding before_close
before_close-IsClose _ (brace rest) = refl
before_close-IsClose _ (bracket rest) = refl
before_close-IsClose _ (blank {cs = cs} c b h) = rw (b, before_close) (before_close-IsClose cs h)

pub strip_trailing_commas-IsClose :
    (rest : Text) → IsClose rest → strip_trailing_commas (comma ∷ rest) ≡ strip_trailing_commas rest
unfolding strip_trailing_commas strip_commas_from
strip_trailing_commas-IsClose rest h =
    let e : before_close rest ≡ true = before_close-IsClose rest h in rw (e, strip_commas_from) refl
