-- ===== src/Tests/Settings.antt =====
-- The theorems on config.py at concrete inputs.
use priestly.Base.{
  ◌≡◌, refl, List, [], ◌∷◌, ◌++◌, ◌||◌, Option, none, some, ok, ◌>>=◌, ◌==◌, if◌then◌else◌,
}
use priestly.Python.Text.{Text, codes, text_eq}
use priestly.Python.Dictionary.{set_item, get_item, update, last_value}
use priestly.Config.{
  starts, in_string, strip_from, strip_commas_from, before_close, password_required, is_truthy,
}
use priestly.Config.Loading.{
  Reader, default_config, splitlines, is_white_line, read_record, merge_lines, parse_jsonx, load,
  load_with_env,
}
use priestly.Config.Records.{written, get_item-parse_jsonx}
use priestly.Config.Password.{password_required-override}
use priestly.Config.{quote, slash, star, cleaned, strip_comments, strip_trailing_commas}
use priestly.Config.Strings.{IsLiteral, empty, escaped, cleaned-literal}
use priestly.Config.Strings as Strings
use priestly.Config.Comments as Comments
use priestly.Config.Comments.{
  IsLine, IsBlock, IsClose, brace, blank, newlines, strip_comments-line, strip_comments-block,
  strip_trailing_commas-IsClose,
}

-- "//\"" as a literal.
cleaned-literal_example :
    cleaned (quote ∷ (47 ∷ 47 ∷ 92 ∷ 34 ∷ []) ++ (quote ∷ (44 ∷ 125 ∷ [])))
    ≡ quote ∷ (47 ∷ 47 ∷ 92 ∷ 34 ∷ []) ++ (quote ∷ cleaned (44 ∷ 125 ∷ []))
cleaned-literal_example =
    cleaned-literal (47 ∷ 47 ∷ 92 ∷ 34 ∷ []) (44 ∷ 125 ∷ [])
      (Strings.char 47 refl refl (Strings.char 47 refl refl (escaped 34 empty)))

strip_comments-block_example :
    strip_comments (slash ∷ star ∷ (42 ∷ 10 ∷ []) ++ (star ∷ slash ∷ (49 ∷ [])))
    ≡ newlines (42 ∷ 10 ∷ []) ++ strip_comments (49 ∷ [])
strip_comments-block_example =
    strip_comments-block (42 ∷ 10 ∷ []) (49 ∷ [])
      (Comments.IsBlock.char 42 refl (Comments.IsBlock.char 10 refl Comments.IsBlock.end))

-- A reader of lines of an opening brace, a key of one character and its value.
abbrev toy_dict : Text → Option (List (Text × Text))
toy_dict (c ∷ k ∷ value) = if c == 123 then some ((k ∷ [], value) ∷ []) else none
toy_dict t = none

abbrev toy : Reader
toy = record {
  Value = Text;
  loads = λ line. some line;
  as_dict = toy_dict;
  model_validate = λ d. ok (default_config);
}

abbrev three_lines : Text
three_lines = codes "{a1" ++ (10 ∷ codes "// none" ++ (10 ∷ codes "{a2"))

abbrev passwd_only : Text → Option Text
passwd_only name = if text_eq name (codes "PASSWD") then some (codes "x") else none

three_lines_value :
    (parse_jsonx toy three_lines >>= λ merged. ok (get_item (codes "a") merged))
    ≡ ok (some (codes "2"))
unfolding parse_jsonx cleaned strip_comments strip_from starts in_string strip_trailing_commas
    strip_commas_from before_close splitlines is_white_line merge_lines read_record update set_item
    get_item text_eq
three_lines_value = refl

get_item-parse_jsonx_example :
    (parse_jsonx toy three_lines >>= λ merged. ok (get_item (codes "a") merged))
    ≡ (written toy (splitlines (cleaned three_lines)) >>= λ rs. ok (last_value (codes "a") rs))
get_item-parse_jsonx_example = get_item-parse_jsonx toy (codes "a") three_lines

password_required-override_example :
    (load_with_env toy none passwd_only >>= λ node. ok (password_required node))
    ≡ ok (
        is_truthy (passwd_only (codes "PRIESTLY_PASSWD"))
        || (is_truthy (passwd_only (codes "PASSWD")) || password_required default_config))
password_required-override_example =
    password_required-override toy none passwd_only default_config (unfold load in refl)
