-- ===== src/Systemd/Grammar.antt =====
-- crates/elusive/src/systemd.pest: the grammar of unit files, by what each rule takes off a text. In
-- a rule that is not atomic, pest puts `WHITESPACE* ~ (COMMENT ~ WHITESPACE*)*` between the parts of
-- a sequence and of a repetition; WHITESPACE and COMMENT are atomic themselves. The text is UTF-8 in
-- bytes, and every rule stops at ASCII characters only.
pub mod Progress
pub mod Printer
pub mod Pieces
pub mod RoundTrip
pub mod Empty
pub mod Sound
pub mod Fuel
use elusive.Base.{
  ℕ, zero, suc, Bool, true, false, ◌&&◌, ◌||◌, Option, none, some, List, [], ◌∷◌, ◌++◌, Bytes, ◌==◌,
  leb, length, if◌then◌else◌, ok_or,
}
use elusive.Systemd.{Pair, section, property, eoi, ParseError, UnitParser}

abbrev pub Rest : Type 0
Rest = Option Bytes

abbrev pub Parsed : Type 0 → Type 0
Parsed A = Option (A × Bytes)

-- `NEWLINE`: `\n`, `\r\n` or `\r`.
abbrev pub after_return : Bytes → Bytes
after_return [] = []
after_return (c ∷ s) = if c == 10 then s else c ∷ s

unfoldable pub newline : Bytes → Rest
newline [] = none
newline (c ∷ s) = if c == 10 then some s else if c == 13 then some (after_return s) else none

-- `WHITESPACE*`
unfoldable pub spaces : Bytes → Bytes
spaces [] = []
spaces (c ∷ s) = if c == b' ' then spaces s else c ∷ s

abbrev pub is_newline : ℕ → Bool
is_newline c = (c == 10) || (c == 13)

-- `(!NEWLINE ~ ANY)*`
unfoldable pub line : Bytes → Bytes × Bytes
line [] = ([], [])
line (c ∷ s) = let (taken, rest) = line s in if is_newline c then ([], c ∷ s) else (c ∷ taken, rest)

-- `COMMENT`
unfoldable pub comment : Bytes → Rest
unfolding newline line
comment [] = none
comment (c ∷ s) = if (c == b'#') || (c == b';') then newline (line s).1 else none

-- `(COMMENT ~ WHITESPACE*)*`
unfoldable pub comments : ℕ → Bytes → Bytes
unfolding comment spaces
comments zero s = s
comments (suc fuel) s = elim (comment s) [ none ↦ s | some rest ↦ comments fuel (spaces rest) ]

-- What stands between two parts.
unfoldable pub skip : Bytes → Bytes
unfolding comments spaces
skip s = let rest = spaces s in comments (length rest) rest

-- `ASCII_ALPHA`
abbrev pub is_alpha : ℕ → Bool
is_alpha c = (leb 65 c && leb c 90) || (leb 97 c && leb c 122)

unfoldable pub letters : Bytes → Bytes × Bytes
letters [] = ([], [])
letters (c ∷ s) =
    let (taken, rest) = letters s in if is_alpha c then (c ∷ taken, rest) else ([], c ∷ s)

-- The `+` of an atomic rule.
abbrev pub nonempty : Bytes × Bytes → Parsed Bytes
nonempty ([], rest) = none
nonempty (c ∷ taken, rest) = some (c ∷ taken, rest)

unfoldable pub key : Bytes → Parsed Bytes
unfolding letters
key s = nonempty (letters s)

unfoldable pub value : Bytes → Parsed Bytes
unfolding line
value s = nonempty (line s)

unfoldable pub token : ℕ → Bytes → Rest
token c [] = none
token c (d ∷ s) = if c == d then some s else none

abbrev pub bind {ℓ κ} : {A : Type ℓ} {B : Type κ} → Option A → (A → Option B) → Option B
bind none f = none
bind (some a) f = f a

-- `section`
unfoldable pub section_rule : Bytes → Parsed Pair
unfolding token key skip
section_rule s =
    bind (token b'[' s)
      λ s. bind (key (skip s)) λ (name, s). bind (token b']' (skip s)) λ s. some (section name, s)

-- `property`
unfoldable pub property_rule : Bytes → Parsed Pair
unfolding token key value skip
property_rule s = bind (key s) λ (name, s).
    bind (token b'=' (skip s))
      λ s. bind (value (skip s)) λ (content, s). some (property name content, s)

-- `section | property`
unfoldable pub item : Bytes → Parsed Pair
unfolding section_rule property_rule
item s = elim (section_rule s) [ some parsed ↦ some parsed | none ↦ property_rule s ]

-- A repetition of `NEWLINE` from its second on, and `NEWLINE*`, `NEWLINE+`.
unfoldable pub more_newlines : ℕ → Bytes → Bytes
unfolding newline skip
more_newlines zero s = s
more_newlines (suc fuel) s = elim (newline (skip s)) [
  | none ↦ s
  | some rest ↦ more_newlines fuel rest
]

abbrev pub newlines_from : Bytes → Bytes
newlines_from s = more_newlines (length s) s

unfoldable pub newlines : Bytes → Bytes
unfolding newline more_newlines
newlines s = elim (newline s) [ none ↦ s | some rest ↦ newlines_from rest ]

-- `(section | property) ~ NEWLINE+`
unfoldable pub entry : Bytes → Parsed Pair
unfolding item newline more_newlines skip
entry s = bind (item s) λ (pair, s). bind (newline (skip s)) λ rest. some (pair, newlines_from rest)

-- The repetition of that, from its second on.
unfoldable pub entries : ℕ → Bytes → List Pair × Bytes
unfolding entry skip
entries zero s = ([], s)
entries (suc fuel) s = elim (entry (skip s)) [
  | none ↦ ([], s)
  | some (pair, rest) ↦ let (pairs, rest') = entries fuel rest in (pair ∷ pairs, rest')
]

-- `EOI`
abbrev pub end_of_input : List Pair → Bytes → Option (List Pair)
end_of_input pairs [] = some (pairs ++ (eoi ∷ []))
end_of_input pairs (c ∷ s) = none

abbrev pub unit_from : Pair × Bytes → Option (List Pair)
unit_from (pair, rest) =
    let (pairs, s) = entries (length rest) rest in end_of_input (pair ∷ pairs) (skip s)

-- `unit`
unfoldable pub unit : Bytes → Option (List Pair)
unfolding newlines entry entries skip
unit s = bind (entry (skip (newlines (skip s)))) unit_from

-- The parser of the rule `unit`, with the error that pest would give for the text.
abbrev pub unit_parser : (Bytes → ParseError) → UnitParser
unit_parser error content = ok_or (unit content) (error content)
