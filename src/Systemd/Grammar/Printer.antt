-- ===== src/Systemd/Grammar/Printer.antt =====
-- The plain form of a unit file, a pair on each line, which the grammar of
-- crates/elusive/src/systemd.pest is read against.
use elusive.Base.{true, false, ◌||◌, List, [], ◌∷◌, ◌++◌, Bytes, ◌==◌, ◌≡◌, All}
use elusive.Systemd.{Pair, section, property, eoi}
use elusive.Systemd.Grammar.{is_alpha, is_newline}

unfoldable pub print_pair : Pair → Bytes
print_pair (section name) = b'[' ∷ (name ++ (b']' ∷ 10 ∷ []))
print_pair (property name content) = name ++ (b'=' ∷ (content ++ (10 ∷ [])))
print_pair eoi = []

unfoldable pub print : List Pair → Bytes
unfolding print_pair
print [] = []
print (pair ∷ pairs) = print_pair pair ++ print pairs

-- A name of the rule `key`.
abbrev pub IsKey : Bytes → Type 0
IsKey [] = ⊥
IsKey (c ∷ s) = (is_alpha c ≡ true) × All (λ d. is_alpha d ≡ true) s

-- A value that is not taken for blanks or a comment.
abbrev pub IsValue : Bytes → Type 0
IsValue [] = ⊥
IsValue (c ∷ s) =
    ((((c == b' ') || (c == b'#') || (c == b';')) ≡ false) × (is_newline c ≡ false))
    × All (λ d. is_newline d ≡ false) s

abbrev pub IsPlain : Pair → Type 0
IsPlain (section name) = IsKey name
IsPlain (property name content) = IsKey name × IsValue content
IsPlain eoi = ⊥
