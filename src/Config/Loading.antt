-- ===== src/Config/Loading.antt =====
-- config.py: the records of a JSONX text, the file, and the password of the environment over it.
use priestly.Base.{
  ℕ, ◌&&◌, ◌||◌, Bool, true, false, Option, none, some, List, [], ◌∷◌, ◌==◌, leb, if◌then◌else◌,
  Result, ok, raise, ◌>>=◌, value_error, Bytes,
}
use priestly.Python.Text.{Text, codes}
use priestly.Python.Utf8.{decode}
use priestly.Python.Dictionary.{update}
use priestly.Config.{ServerConfig, cleaned, password_from_env}

-- json.loads, or none for its JSONDecodeError, and the pairs of a value that is a dict; and
-- ServerConfig.model_validate of pydantic.
pub record Reader : Type 1 where
  pub Value : Type 0
  pub loads : Text → Option Value
  pub as_dict : Value → Option (List (Text × Value))
  pub model_validate : List (Text × Value) → Result ServerConfig

-- The characters at which str.splitlines breaks.
abbrev pub is_line_break : ℕ → Bool
is_line_break c =
    (leb 10 c && leb c 13) || (leb 28 c && leb c 30) || (c == 133) || (c == 8232) || (c == 8233)

-- The characters that str.strip takes off.
abbrev pub is_white : ℕ → Bool
is_white c =
    (leb 9 c && leb c 13)
    || (leb 28 c && leb c 32)
    || (c == 133)
    || (c == 160)
    || (c == 5760)
    || (leb 8192 c && leb c 8202)
    || (c == 8232)
    || (c == 8233)
    || (c == 8239)
    || (c == 8287)
    || (c == 12288)

-- A character before the first of the lines.
abbrev pub onto : ℕ → List Text → List Text
onto c [] = (c ∷ []) ∷ []
onto c (line ∷ lines) = (c ∷ line) ∷ lines

unfoldable pub splitlines : Text → List Text
splitlines [] = []
splitlines (c ∷ []) = if is_line_break c then [] ∷ [] else (c ∷ []) ∷ []
splitlines (c ∷ d ∷ t) = elim ((c == 13) && (d == 10)) [
  | true ↦ [] ∷ splitlines t
  | false ↦ elim (is_line_break c) [
    | true ↦ [] ∷ splitlines (d ∷ t)
    | false ↦ onto c (splitlines (d ∷ t))
  ]
]

-- `not line.strip()`
unfoldable pub is_white_line : Text → Bool
is_white_line [] = true
is_white_line (c ∷ cs) = is_white c && is_white_line cs

-- Text mode reads each of "\r\n" and "\r" as "\n".
unfoldable pub universal_newlines : Text → Text
universal_newlines [] = []
universal_newlines (c ∷ []) = (if c == 13 then 10 else c) ∷ []
universal_newlines (c ∷ d ∷ t) = elim ((c == 13) && (d == 10)) [
  | true ↦ 10 ∷ universal_newlines t
  | false ↦ (if c == 13 then 10 else c) ∷ universal_newlines (d ∷ t)
]

abbrev pub default_config : ServerConfig
default_config = record {
  server_name = codes "priestly";
  host = codes "localhost";
  port = 8765;
  password = none;
}

-- The environment's password, if it has one.
abbrev pub override : Option Text → ServerConfig → ServerConfig
override none cfg = cfg
override (some p) cfg = record cfg { password = some p }

module _ (reader : Reader) where
  abbrev pub Record : Type 0
  Record = List (Text × reader.Value)

  abbrev pub required : {A : Type 0} → Option A → Result A
  required none = raise value_error
  required (some a) = ok a

  -- The record of a line; a line that has none raises ValueError.
  unfoldable pub read_record : Text → Result Record
  read_record line = required (reader.loads line) >>= λ value. required (reader.as_dict value)

  unfoldable pub merge_lines : List Text → Record → Result Record
  merge_lines [] merged = ok merged
  merge_lines (line ∷ lines) merged = elim (is_white_line line) [
    | true ↦ merge_lines lines merged
    | false ↦ read_record line >>= λ r. merge_lines lines (update merged r)
  ]

  unfoldable pub parse_jsonx : Text → Result Record
  parse_jsonx text = merge_lines (splitlines (cleaned text)) []

  -- The file at the path: none if there is none, and its bytes or the error of reading it.
  unfoldable pub load : Option (Result Bytes) → Result ServerConfig
  load none = ok default_config
  load (some content) = content >>= λ bytes. decode bytes >>= λ text.
      parse_jsonx (universal_newlines text) >>= λ merged. reader.model_validate merged

  unfoldable pub load_with_env : Option (Result Bytes) → (Text → Option Text) → Result ServerConfig
  load_with_env file get = load file >>= λ cfg. ok (override (password_from_env get) cfg)
