-- ===== src/Tests/Doubles.antt =====
-- Concrete stand-ins for pydantic and json, for the tests.
use priestly.Base.{
  ℕ, zero, suc, ◌+◌, ◌≡◌, refl, sym, ap, ap₂, ◌∙◌, Bool, true, false, Option, none, some, List, [],
  ◌∷◌, ◌++◌, ◌==◌, arith, length, take, drop, take-append, drop-append, Result, ok, raise,
  value_error,
}
use priestly.Base.Int.{ℤ, pos, negsuc}
use priestly.Python.Text.{Text, codes, is_ascii}
use priestly.Protocol.Packets.{
  Handshake, Frame, hello, hello_ack, chat, SealedFrame, sealed, Packet, Pydantic,
}
use priestly.Python.Dictionary.{map_values}
use priestly.Chat.Relay.{Json}

abbrev pub greeting : Handshake
greeting = record {
  id = pos 1;
  user_id = pos 42;
  device_id = pos 1;
  timestamp = pos 0;
  status = codes "cli";
}

abbrev flag : Bool → ℕ
flag true = 1
flag false = 0

-- Of sealed frames with numbers that are not negative.
abbrev dump_sealed : ℕ → ℤ → ℤ → SealedFrame → Result Text
dump_sealed v (pos e) (pos n) f =
    ok (v ∷ 2 ∷ e ∷ n ∷ length f.direction ∷ length f.payload ∷ f.direction ++ (f.payload ++ f.tag))
dump_sealed v e n f = raise value_error

-- A serializer for the frames of an open node: the version, the kind, and the fields.
abbrev dump : ℤ → Frame → Result Text
dump (pos v) (chat text sender) = ok (v ∷ 0 ∷ length text ∷ text ++ sender)
dump (pos v) (hello_ack status name required) =
    ok (v ∷ 1 ∷ flag required ∷ length status ∷ status ++ name)
dump (pos v) (sealed f) = dump_sealed v f.epoch f.seq f
dump v f = raise value_error

abbrev read_sealed : ℕ → ℤ → ℤ → Text → Text → Text → Result Packet
read_sealed v e n direction payload tag = ok (record {
  version = pos v;
  frame =
      sealed (record { epoch = e; seq = n; direction = direction; payload = payload; tag = tag });
})

abbrev validate : Text → Result Packet
validate (v ∷ zero ∷ n ∷ rest) =
    ok (record { version = pos v; frame = chat (take n rest) (drop n rest) })
validate (v ∷ suc zero ∷ b ∷ n ∷ rest) =
    ok (record { version = pos v; frame = hello_ack (take n rest) (drop n rest) (b == 1) })
validate (v ∷ suc (suc zero) ∷ e ∷ n ∷ d ∷ p ∷ rest) =
    read_sealed v (pos e) (pos n) (take d rest) (take p (drop d rest)) (drop p (drop d rest))
validate (v ∷ suc (suc (suc k)) ∷ rest) = ok (record { version = pos v; frame = hello greeting })
validate t = raise value_error

flag-read : (b : Bool) → (flag b == 1) ≡ b
flag-read true = refl
flag-read false = refl

read_sealed-dump :
    (v : ℕ) (e n : ℤ) (f : SealedFrame) (t : Text)
    → f.epoch ≡ e
    → f.seq ≡ n
    → dump_sealed v e n f ≡ ok t
    → validate t ≡ ok (record { version = pos v; frame = sealed f })
read_sealed-dump v (pos e) (pos n) f t he hn h =
    let d : ℕ = length f.direction in
    let p : ℕ = length f.payload in
    let rest : Text = f.direction ++ (f.payload ++ f.tag) in
    let read : v ∷ 2 ∷ e ∷ n ∷ d ∷ p ∷ rest ≡ t = cc h in
    let after : drop d rest ≡ f.payload ++ f.tag =
      drop-append f.direction (f.payload ++ f.tag) d refl in
    ap validate (sym read)
    ∙ ap
        (λ (x : Text).
          read_sealed v (pos e) (pos n) x (take p (drop d rest)) (drop p (drop d rest)))
        (take-append f.direction (f.payload ++ f.tag) d refl)
    ∙ ap (λ (x : Text). read_sealed v (pos e) (pos n) f.direction (take p x) (drop p x)) after
    ∙ ap₂ (λ (x y : Text). read_sealed v (pos e) (pos n) f.direction x y)
        (take-append f.payload f.tag p refl) (drop-append f.payload f.tag p refl)
    ∙ ap₂ (λ (x y : ℤ). read_sealed v x y f.direction f.payload f.tag) (sym he) (sym hn)
read_sealed-dump v (negsuc e) n f t he hn h = absurd (cc h)
read_sealed-dump v (pos e) (negsuc n) f t he hn h = absurd (cc h)

pub dump-validate :
    (v : ℤ) (f : Frame) (t : Text)
    → dump v f ≡ ok t
    → validate t ≡ ok (record { version = v; frame = f })
dump-validate (pos v) (chat text sender) t h =
    let e : v ∷ 0 ∷ length text ∷ text ++ sender ≡ t = cc h in
    ap validate (sym e)
    ∙ ap₂ (λ (a b : Text). ok (record { version = pos v; frame = chat a b }))
        (take-append text sender (length text) refl) (drop-append text sender (length text) refl)
dump-validate (pos v) (hello_ack status name required) t h =
    let e : v ∷ 1 ∷ flag required ∷ length status ∷ status ++ name ≡ t = cc h in
    ap validate (sym e)
    ∙ ap₂
        (λ (a b : Text).
          ok (record { version = pos v; frame = hello_ack a b (flag required == 1) }))
        (take-append status name (length status) refl)
        (drop-append status name (length status) refl)
    ∙ ap (λ (b : Bool). ok (record { version = pos v; frame = hello_ack status name b }))
        (flag-read required)
dump-validate (pos v) (sealed f) t h = read_sealed-dump v f.epoch f.seq f t refl refl h
dump-validate v f t h = absurd (cc h)

abbrev pub serializer : Pydantic
serializer = record {
  model_dump_json = λ p. dump p.version p.frame;
  model_validate_json = validate;
  validates_dump = λ p t h. dump-validate p.version p.frame t h;
}

-- Every character as a row of ones, and the text and the sender behind one another.
abbrev row : ℕ → Text → Text
row zero t = 50 ∷ t
row (suc n) t = 49 ∷ row n t

abbrev rows : Text → Text → Text
rows [] rest = 51 ∷ rest
rows (c ∷ t) rest = row c (rows t rest)

abbrev read_rows : ℕ → Text → Text × Text
read_rows n [] = ([], [])
read_rows n (c ∷ t) = elim (c == 49) [
  | true ↦ read_rows (suc n) t
  | false ↦ elim (c == 50) [
    | true ↦ let (line, rest) = read_rows 0 t in (n ∷ line, rest)
    | false ↦ ([], t)
  ]
]

read_rows-row :
    (n k : ℕ) (t : Text) → read_rows k (row n t) ≡ ((n + k) ∷ (read_rows 0 t).0, (read_rows 0 t).1)
read_rows-row zero k t = ap (λ (j : ℕ). (j ∷ (read_rows 0 t).0, (read_rows 0 t).1)) (omega arith)
read_rows-row (suc n) k t =
    read_rows-row n (suc k) t
    ∙ ap (λ (j : ℕ). (j ∷ (read_rows 0 t).0, (read_rows 0 t).1)) (omega arith)

row_ascii : (n : ℕ) (t : Text) → is_ascii t ≡ true → is_ascii (row n t) ≡ true
unfolding is_ascii
row_ascii zero t h = h
row_ascii (suc n) t h = row_ascii n t h

pub rows_ascii : (t rest : Text) → is_ascii rest ≡ true → is_ascii (rows t rest) ≡ true
unfolding is_ascii
rows_ascii [] rest h = h
rows_ascii (c ∷ t) rest h = row_ascii c (rows t rest) (rows_ascii t rest h)

pub read_rows-rows : (t rest : Text) → read_rows 0 (rows t rest) ≡ (t, rest)
read_rows-rows [] rest = refl
read_rows-rows (c ∷ t) rest =
    read_rows-row c 0 (rows t rest)
    ∙ ap₂ (λ (j : ℕ) (p : Text × Text). (j ∷ p.0, p.1)) (omega arith) (read_rows-rows t rest)

no_text : is_ascii [] ≡ true
unfolding is_ascii
no_text = refl

-- The keys and values of a dict behind their number.
abbrev pairs : List (Text × Text) → Text
pairs [] = []
pairs ((k, v) ∷ d) = rows k (rows v (pairs d))

abbrev read_pairs : ℕ → Text → List (Text × Text)
read_pairs zero t = []
read_pairs (suc n) t =
    let (k, t') = read_rows 0 t in let (v, rest) = read_rows 0 t' in (k, v) ∷ read_pairs n rest

pub pairs_ascii : (d : List (Text × Text)) → is_ascii (pairs d) ≡ true
pairs_ascii [] = no_text
pairs_ascii ((k, v) ∷ d) = rows_ascii k (rows v (pairs d)) (rows_ascii v (pairs d) (pairs_ascii d))

pub read_pairs-pairs : (d : List (Text × Text)) → read_pairs (length d) (pairs d) ≡ d
read_pairs-pairs [] = refl
read_pairs-pairs ((k, v) ∷ d) =
    ap (λ (p : Text × Text). (p.0, (read_rows 0 p.1).0) ∷ read_pairs (length d) (read_rows 0 p.1).1)
      (read_rows-rows k (rows v (pairs d)))
    ∙ ap (λ (p : Text × Text). (k, p.0) ∷ read_pairs (length d) p.1) (read_rows-rows v (pairs d))
    ∙ ap (λ (r : List (Text × Text)). (k, v) ∷ r) (read_pairs-pairs d)

-- The values that come up in the tests: strings, and dicts of strings.
pub data Toy : Type 0 where
  line : Text → Toy
  table : List (Text × Text) → Toy

abbrev toy_str : Toy → Text
toy_str (line t) = t
toy_str (table d) = []

abbrev toy_dict : Toy → Option (List (Text × Toy))
toy_dict (line t) = none
toy_dict (table d) = some (map_values (λ v. line v) d)

abbrev first : Text → ℕ
first [] = 0
first (c ∷ t) = c

abbrev count : List (Text × Text) → Text
count d = length d ∷ []

abbrev toy_loads : Text → Toy
toy_loads t = let (n, rest) = read_rows 0 t in table (read_pairs (first n) rest)

abbrev pub counting_json : Json
counting_json = record {
  Value = Toy;
  string = λ t. line t;
  str = toy_str;
  as_dict = toy_dict;
  dumps = λ d. rows (count d) (pairs d);
  loads = λ t. ok (toy_loads t);
  dumps_ascii = λ d. rows_ascii (count d) (pairs d) (pairs_ascii d);
  loads_dumps = λ d unique. (
    table d,
    ap (λ (p : Text × Text). ok (table (read_pairs (first p.0) p.1)))
          (read_rows-rows (count d) (pairs d))
        ∙ ap (λ (r : List (Text × Text)). ok (table r)) (read_pairs-pairs d),
    refl,
  );
  str_string = λ t. refl;
}
