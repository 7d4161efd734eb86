-- ===== src/Config/Records.antt =====
-- The records of a JSONX text, merged from top to bottom by parse_jsonx of config.py.
use priestly.Base.{
  ◌≡◌, refl, sym, ap, ◌∙◌, Bool, true, false, Option, List, [], ◌∷◌, ◌++◌, Result, ok, raise, ◌>>=◌,
}
use priestly.Python.Text.{Text}
use priestly.Python.Dictionary.{
  update, get_item, last_value, or_else, or_else-none, or_else_assoc, last_value-append,
  get_item-update,
}
use priestly.Config.{cleaned}
use priestly.Config.Loading.{
  Reader, Record, is_white_line, splitlines, read_record, merge_lines, parse_jsonx,
}

module _ (reader : Reader) where
  -- What the lines write, in their order.
  abbrev pub written : List Text → Result (Record reader)
  written [] = ok []
  written (line ∷ lines) = elim (is_white_line line) [
    | true ↦ written lines
    | false ↦ read_record reader line >>= λ r. written lines >>= λ rs. ok (r ++ rs)
  ]

  module _ (key : Text) where
    abbrev value_in : Result (Record reader) → Result (Option reader.Value)
    value_in m = m >>= λ d. ok (get_item key d)

    abbrev last_in : Result (Record reader) → Option reader.Value → Result (Option reader.Value)
    last_in m before = m >>= λ rs. ok (or_else (last_value key rs) before)

    last_in-append :
        (r merged : Record reader) (w : Result (Record reader))
        → last_in w (get_item key (update merged r))
          ≡ last_in (w >>= λ rs. ok (r ++ rs)) (get_item key merged)
    last_in-append r merged (raise e) = refl
    last_in-append r merged (ok rs) =
        ap (λ (o : Option reader.Value). ok (or_else (last_value key rs) o))
          (get_item-update key merged r)
        ∙ ap ok (
            sym (or_else_assoc (last_value key rs) (last_value key r) (get_item key merged))
            ∙ ap (λ (o : Option reader.Value). or_else o (get_item key merged))
                (sym (last_value-append key r rs)))

    get_item-merge_lines :
        (lines : List Text) (merged : Record reader)
        → value_in (merge_lines reader lines merged) ≡ last_in (written lines) (get_item key merged)
    unfolding merge_lines
    get_item-merge_lines [] merged = refl
    get_item-merge_lines (line ∷ lines) merged =
        by_line (is_white_line line) (read_record reader line) (λ m. get_item-merge_lines lines m)
      where
        by_line :
            (white : Bool) (read : Result (Record reader))
            → ((m : Record reader)
                → value_in (merge_lines reader lines m) ≡ last_in (written lines) (get_item key m))
            → value_in (elim white [
              | true ↦ merge_lines reader lines merged
              | false ↦ read >>= λ r. merge_lines reader lines (update merged r)
            ])
              ≡ last_in
                  (elim white [
                    | true ↦ written lines
                    | false ↦ read >>= λ r. written lines >>= λ rs. ok (r ++ rs)
                  ])
                  (get_item key merged)
        by_line true read rest = rest merged
        by_line false (raise e) rest = refl
        by_line false (ok r) rest = rest (update merged r) ∙ last_in-append r merged (written lines)

-- What parse_jsonx makes of a text has, for every key, the value that the records of the lines,
-- those with nothing but white space left out, give it last; and parse_jsonx raises what the first
-- line without a record raises.
pub get_item-parse_jsonx :
    (reader : Reader) (key text : Text)
    → (parse_jsonx reader text >>= λ merged. ok (get_item key merged))
      ≡ (written reader (splitlines (cleaned text)) >>= λ rs. ok (last_value key rs))
unfolding parse_jsonx get_item
get_item-parse_jsonx reader key text =
    get_item-merge_lines reader key (splitlines (cleaned text)) []
    ∙ drop_none (written reader (splitlines (cleaned text)))
  where
    drop_none :
        (w : Result (Record reader))
        → last_in reader key w (get_item key []) ≡ (w >>= λ rs. ok (last_value key rs))
    drop_none (raise e) = refl
    drop_none (ok rs) = ap ok (sym (or_else-none (last_value key rs)))
