-- ===== src/Transport/Http.antt =====
-- Header blocks of HTTP in transport/ws.py: `_parse_headers`, and the test for a GET.
use priestly.Base.{
  ℕ, ◌+◌, ◌-◌, Bool, true, false, not, ◌&&◌, ◌||◌, List, [], ◌∷◌, ◌==◌, leb, if◌then◌else◌,
}
use priestly.Python.Text.{Text}
use priestly.Python.Dictionary.{set_item}

abbrev pub crlf : Text
crlf = 13 ∷ 10 ∷ []

-- block.split("\r\n"): the first line and the others.
unfoldable pub split_lines : Text → Text × List Text
split_lines [] = ([], [])
split_lines (c ∷ []) = (c ∷ [], [])
split_lines (c ∷ d ∷ t) = elim ((c == 13) && (d == 10)) [
  | true ↦ let (line, lines) = split_lines t in ([], line ∷ lines)
  | false ↦ let (line, lines) = split_lines (d ∷ t) in (c ∷ line, lines)
]

-- line.partition(":"), without the separator.
unfoldable pub partition : Text → Text × Text
partition [] = ([], [])
partition (c ∷ t) = elim (c == 58) [
  | true ↦ ([], t)
  | false ↦ let (name, value) = partition t in (c ∷ name, value)
]

-- The whitespace of Latin-1.
abbrev pub is_latin_space : ℕ → Bool
is_latin_space c = (leb 9 c && leb c 13) || (leb 28 c && leb c 32) || (c == 133) || (c == 160)

unfoldable pub lstrip : Text → Text
lstrip [] = []
lstrip (c ∷ t) = elim (is_latin_space c) [ true ↦ lstrip t | false ↦ c ∷ t ]

-- A character before what is left of the rest, unless both are nothing but space.
abbrev pub keep : ℕ → Text → Text
keep c [] = if is_latin_space c then [] else c ∷ []
keep c (d ∷ t) = c ∷ d ∷ t

unfoldable pub rstrip : Text → Text
rstrip [] = []
rstrip (c ∷ t) = keep c (rstrip t)

unfoldable pub strip : Text → Text
strip t = rstrip (lstrip t)

-- str.lower() and str.upper(), on the letters of Latin-1 that the comparisons here can meet:
-- lower-casing keeps to Latin-1, and no letter but a to z has one of A to Z as its upper case.
abbrev pub lower_char : ℕ → ℕ
lower_char c =
    if (leb 65 c && leb c 90) || (leb 192 c && leb c 222 && not (c == 215)) then c + 32 else c

unfoldable pub lower : Text → Text
lower [] = []
lower (c ∷ t) = lower_char c ∷ lower t

abbrev pub upper_char : ℕ → ℕ
upper_char c = if leb 97 c && leb c 122 then c - 32 else c

-- start_line.upper().startswith("GET")
unfoldable pub is_get : Text → Bool
is_get (g ∷ e ∷ t ∷ rest) = (upper_char g == 71) && (upper_char e == 69) && (upper_char t == 84)
is_get t = false

abbrev pub put_line : Text → List (Text × Text) → List (Text × Text)
put_line [] headers = headers
put_line (c ∷ line) headers =
    let (name, value) = partition (c ∷ line) in set_item (lower (strip name)) (strip value) headers

unfoldable pub put_lines : List Text → List (Text × Text) → List (Text × Text)
put_lines [] headers = headers
put_lines (line ∷ lines) headers = put_lines lines (put_line line headers)

-- `_parse_headers`
unfoldable pub parse_headers : Text → Text × List (Text × Text)
parse_headers block =
    let (start_line, lines) = split_lines block in (start_line, put_lines lines [])

abbrev pub Headers : Type 0
Headers = List (Text × Text)
