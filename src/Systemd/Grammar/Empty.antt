-- ===== src/Systemd/Grammar/Empty.antt =====
-- A unit with a key that has no value, which the grammar of crates/elusive/src/systemd.pest refuses.
use elusive.Base.{none, List, [], ◌∷◌, ◌++◌, Bytes, ◌≡◌, refl, All, arith}
use elusive.Systemd.{Pair}
use elusive.Systemd.Grammar.{line, value, token, section_rule, property_rule, item, entry, unit}
use elusive.Systemd.Grammar.Printer.{print, IsKey, IsPlain}
use elusive.Systemd.Grammar.Pieces.{section_rule-key, key-append}
use elusive.Systemd.Grammar.RoundTrip.{unit-append}

item_of_rules : (s : Bytes) → section_rule s ≡ none → property_rule s ≡ none → item s ≡ none
unfolding item
item_of_rules s n h = rw (n, item, h) refl

entry_of_rules : (s : Bytes) → section_rule s ≡ none → property_rule s ≡ none → entry s ≡ none
unfolding entry
entry_of_rules s n h = rw (item_of_rules s n h, entry) refl

no_value : (name rest : Bytes) → IsKey name → property_rule (name ++ (b'=' ∷ 10 ∷ rest)) ≡ none
unfolding property_rule token value line
no_value name rest k = rw (key-append name b'=' (10 ∷ rest) k refl) refl

-- a text in which plain pairs, one of them at least, are followed by a key with nothing between
-- its = and the end of the line, is refused, whatever follows.
pub unit-empty_value :
    (pair : Pair) (pairs : List Pair) (name rest : Bytes)
    → IsPlain pair
    → All IsPlain pairs
    → IsKey name
    → unit (print (pair ∷ pairs) ++ (name ++ (b'=' ∷ 10 ∷ rest))) ≡ none
unit-empty_value pair pairs [] rest k a n = absurd n
unit-empty_value pair pairs (c ∷ name) rest k a n =
    unit-append pair pairs (c ∷ (name ++ (b'=' ∷ 10 ∷ rest))) k a (ground arith) (
      entry_of_rules (c ∷ (name ++ (b'=' ∷ 10 ∷ rest)))
        (section_rule-key (c ∷ name) (b'=' ∷ 10 ∷ rest) n) (no_value (c ∷ name) rest n))
