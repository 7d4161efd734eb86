-- ===== src/Config.antt =====
-- config.py: the two passes over the text of JSONX, the configuration and the password of the
-- environment.
pub mod Strings
pub mod Comments
pub mod Loading
pub mod Password
pub mod Records
use priestly.Base.{
  ℕ, Bool, true, false, not, ◌&&◌, ◌||◌, Option, none, some, List, [], ◌∷◌, ◌==◌, if◌then◌else◌,
}
use priestly.Python.Text.{Text, codes}

abbrev pub quote : ℕ
quote = 34

abbrev pub backslash : ℕ
backslash = 92

abbrev pub newline : ℕ
newline = 10

abbrev pub slash : ℕ
slash = 47

abbrev pub star : ℕ
star = 42

abbrev pub hash : ℕ
hash = 35

abbrev pub comma : ℕ
comma = 44

-- `i + 1 < n and text[i + 1] == d`, of the characters after the one at `i`
abbrev pub comes_next : ℕ → Text → Bool
comes_next d [] = false
comes_next d (c ∷ cs) = c == d

-- What `_strip_comments` is in: plain text, a string (`in_string`), behind a backslash in a string
-- (`escaped`), a comment up to the end of the line, the star that opens a block comment, a block
-- comment, or the slash that closes it.
pub data Mode : Type 0 where
  plain string escape line opening block closing : Mode

-- What a character of plain text starts.
unfoldable pub starts : ℕ → Text → Mode
starts c cs =
    if c == quote
    then string
    else (if (c == hash) || ((c == slash) && comes_next slash cs)
        then line
        else (if (c == slash) && comes_next star cs then opening else plain))

-- The mode in a string after a character of it.
unfoldable pub in_string : ℕ → Mode
in_string c = if c == backslash then escape else (if c == quote then plain else string)

unfoldable pub strip_from : Mode → Text → Text
strip_from m [] = []
strip_from plain (c ∷ cs) = elim (starts c cs) [
  | line ↦ strip_from line cs
  | opening ↦ strip_from opening cs
  | string ↦ c ∷ strip_from string cs
  | _ ↦ c ∷ strip_from plain cs
]
strip_from string (c ∷ cs) = c ∷ strip_from (in_string c) cs
strip_from escape (c ∷ cs) = c ∷ strip_from string cs
strip_from line (c ∷ cs) = elim (c == newline) [
  | true ↦ c ∷ strip_from plain cs
  | false ↦ strip_from line cs
]
strip_from opening (c ∷ cs) = strip_from block cs
strip_from block (c ∷ cs) = elim cs [
  | [] ↦ []
  | d ∷ ds ↦ elim ((c == star) && (d == slash)) [
    | true ↦ strip_from closing cs
    | false ↦ elim (c == newline) [
      | true ↦ newline ∷ strip_from block cs
      | false ↦ strip_from block cs
    ]
  ]
]
strip_from closing (c ∷ cs) = strip_from plain cs

unfoldable pub strip_comments : Text → Text
strip_comments = strip_from plain

-- `text[j] in " \t\r\n"`
abbrev pub is_blank : ℕ → Bool
is_blank c = (c == 32) || (c == 9) || (c == 13) || (c == 10)

-- `text[j] in "}]"` at the first character that is no blank.
unfoldable pub before_close : Text → Bool
before_close [] = false
before_close (c ∷ cs) = elim (is_blank c) [
  | true ↦ before_close cs
  | false ↦ (c == 125) || (c == 93)
]

unfoldable pub strip_commas_from : Mode → Text → Text
strip_commas_from m [] = []
strip_commas_from string (c ∷ cs) = c ∷ strip_commas_from (in_string c) cs
strip_commas_from escape (c ∷ cs) = c ∷ strip_commas_from string cs
strip_commas_from m (c ∷ cs) = elim (c == quote) [
  | true ↦ c ∷ strip_commas_from string cs
  | false ↦ elim ((c == comma) && before_close cs) [
    | true ↦ strip_commas_from plain cs
    | false ↦ c ∷ strip_commas_from plain cs
  ]
]

unfoldable pub strip_trailing_commas : Text → Text
strip_trailing_commas = strip_commas_from plain

-- `cleaned` in parse_jsonx
unfoldable pub cleaned : Text → Text
cleaned text = strip_trailing_commas (strip_comments text)

-- ServerConfig: a validated configuration.
pub record ServerConfig : Type 0 where
  pub server_name : Text
  pub host : Text
  pub port : ℕ
  pub password : Option Text

-- Truth of `Optional[str]`.
abbrev pub is_truthy : Option Text → Bool
is_truthy none = false
is_truthy (some []) = false
is_truthy (some (c ∷ cs)) = true

unfoldable pub password_required : ServerConfig → Bool
password_required config = is_truthy config.password

abbrev pub password_env_vars : List Text
password_env_vars = codes "PRIESTLY_PASSWD" ∷ codes "PASSWD" ∷ []

-- The loop of `password_from_env` over the names.
unfoldable pub first_truthy : (Text → Option Text) → List Text → Option Text
first_truthy get [] = none
first_truthy get (name ∷ names) = if is_truthy (get name) then get name else first_truthy get names

unfoldable pub password_from_env : (Text → Option Text) → Option Text
password_from_env get = first_truthy get password_env_vars
