-- ===== src/Transport/Opening/Accepts.antt =====
-- The client of transport/ws.py accepts what the server answers to its key.
use priestly.Base.{
  ℕ, ◌≡◌, refl, ap, ◌∙◌, Bool, true, false, not, ◌&&◌, List, [], ◌∷◌, ◌++◌, arith, All, ◌==◌, ok,
}
use priestly.Python.Text.{Text, codes, text_eq, text_eq_refl}
use priestly.Python.Base64.Graphic.{IsGraphic}
use priestly.Python.Dictionary.{set_item, get_item}
use priestly.Transport.Http.{
  Headers, split_lines, partition, is_latin_space, lstrip, keep, rstrip, strip, lower, put_lines,
  parse_headers,
}
use priestly.Transport.Opening.{accept_token, response, has_101, check_response}

abbrev pub no_return : Text → Bool
no_return [] = true
no_return (c ∷ t) = not (c == 13) && no_return t

pub parted : (x y : Bool) → not x && y ≡ true → (x ≡ false) × (y ≡ true)
parted true y h = absurd (cc h)
parted false y h = (refl, h)

pub graphic_no_return : (t : Text) → All IsGraphic t → no_return t ≡ true
graphic_no_return [] h = refl
graphic_no_return (c ∷ t) h =
    let other : (c == 13) ≡ false = not_return c h.0 in rw other (graphic_no_return t h.1)
  where
    not_return : (d : ℕ) → IsGraphic d → (d == 13) ≡ false
    not_return d g = ground arith

abbrev pub after_line : Text → Text × List Text → Text × List Text
after_line line (first, lines) = (line, first ∷ lines)

-- A line without a return, before its end.
pub split_lines-line :
    (line rest : Text)
    → no_return line ≡ true
    → split_lines (line ++ (13 ∷ 10 ∷ rest)) ≡ after_line line (split_lines rest)
unfolding split_lines
split_lines-line [] rest h = refl
split_lines-line (c ∷ []) rest h = rw ((parted (c == 13) true h).0, split_lines) refl
split_lines-line (c ∷ d ∷ line) rest h =
    let (other, more) = parted (c == 13) (no_return (d ∷ line)) h in
    rw (other, split_lines)
      (ap (λ (p : Text × List Text). (c ∷ p.0, p.1)) (split_lines-line (d ∷ line) rest more))

graphic_no_space : (c : ℕ) → IsGraphic c → is_latin_space c ≡ false
graphic_no_space c h = ground arith

pub rstrip-graphic : (t : Text) → All IsGraphic t → rstrip t ≡ t
unfolding rstrip
rstrip-graphic [] h = refl
rstrip-graphic (c ∷ t) h = ap (keep c) (rstrip-graphic t h.1) ∙ kept t
  where
    kept : (u : Text) → keep c u ≡ c ∷ u
    kept [] = rw (graphic_no_space c h.0) refl
    kept (d ∷ u) = refl

pub lstrip-graphic : (t : Text) → All IsGraphic t → lstrip t ≡ t
unfolding lstrip
lstrip-graphic [] h = refl
lstrip-graphic (c ∷ t) h = rw (graphic_no_space c h.0, lstrip) refl

-- The headers of the response.
abbrev pub response_headers : Text → Headers
response_headers token =
    (codes "upgrade", codes "websocket")
    ∷ (codes "connection", codes "Upgrade")
    ∷ (codes "sec-websocket-accept", token)
    ∷ []

abbrev pub status_line : Text
status_line = codes "HTTP/1.1 101 Switching Protocols"

abbrev pub token_line : Text → Text
token_line token = codes "Sec-WebSocket-Accept: " ++ token

abbrev last_end : Text
last_end = 13 ∷ 10 ∷ []

split_last : split_lines last_end ≡ ([], [] ∷ [])
unfolding split_lines
split_last = refl

split_lines-response :
    (token : Text)
    → All IsGraphic token
    → split_lines (response token) ≡ (
      status_line,
      codes "Upgrade: websocket" ∷ codes "Connection: Upgrade" ∷ token_line token ∷ [] ∷ [] ∷ [],
    )
split_lines-response token h =
    let end : Text = token_line token ++ (13 ∷ 10 ∷ last_end) in
    let middle : Text = codes "Connection: Upgrade" ++ (13 ∷ 10 ∷ end) in
    split_lines-line status_line (codes "Upgrade: websocket" ++ (13 ∷ 10 ∷ middle)) refl
    ∙ ap (after_line status_line) (
        split_lines-line (codes "Upgrade: websocket") middle refl
        ∙ ap (after_line (codes "Upgrade: websocket")) (
            split_lines-line (codes "Connection: Upgrade") end refl
            ∙ ap (after_line (codes "Connection: Upgrade")) (
                split_lines-line (token_line token) last_end (graphic_no_return token h)
                ∙ ap (after_line (token_line token)) split_last)))

put_lines-response :
    (token : Text)
    → All IsGraphic token
    → put_lines
        (codes "Upgrade: websocket" ∷ codes "Connection: Upgrade" ∷ token_line token ∷ [] ∷ [] ∷ [])
        []
      ≡ response_headers token
unfolding put_lines partition strip lstrip rstrip lower set_item text_eq
put_lines-response token h =
    ap (λ (t : Text). response_headers (rstrip t)) (lstrip-graphic token h)
    ∙ ap response_headers (rstrip-graphic token h)

-- Placeholder.
pub check_response-response :
    (key token : Text)
    → accept_token key ≡ ok token
    → All IsGraphic token
    → check_response key (parse_headers (response token)) ≡ ok (response_headers token)
unfolding check_response parse_headers has_101 get_item text_eq
check_response-response key token e h =
    ap (λ (p : Text × List Text). check_response key (p.0, put_lines p.1 []))
      (split_lines-response token h)
    ∙ ap (λ (hs : Headers). check_response key (status_line, hs)) (put_lines-response token h)
    ∙ rw (e, text_eq_refl token) refl
