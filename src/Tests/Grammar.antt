-- ===== src/Tests/Grammar.antt =====
-- Runs of the theorems on unit files.
use elusive.Base.{none, some, [], ◌∷◌, ◌++◌, ◌≡◌, refl, codes, Bytes, arith}
use elusive.Systemd.{Pair, section, property, eoi}
use elusive.Systemd.Grammar
use elusive.Systemd.Grammar.{unit, entry, entries, skip}
use elusive.Systemd.Grammar.Printer.{print}
use elusive.Systemd.Grammar.RoundTrip.{unit-print}
use elusive.Systemd.Grammar.Empty.{unit-empty_value}
use elusive.Systemd.Grammar.Fuel.{entries_done}

abbrev title : Pair
title = section (codes "Unit")

abbrev wanted : Pair
wanted = property (codes "Requires") (codes "a b")

unit-print_example : unit (print (title ∷ wanted ∷ [])) ≡ some (title ∷ wanted ∷ eoi ∷ [])
unit-print_example =
    unit-print title (wanted ∷ []) (refl, (refl, (refl, (refl, tt))))
      (
        (
          (refl, (refl, (refl, (refl, (refl, (refl, (refl, (refl, tt)))))))),
          ((refl, refl), (refl, (refl, tt))),
        ),
        tt,
      )

unit-empty_value_example :
    unit (print (title ∷ []) ++ (codes "Requires" ++ (b'=' ∷ 10 ∷ codes "Wants"))) ≡ none
unit-empty_value_example =
    unit-empty_value title [] (codes "Requires") (codes "Wants") (refl, (refl, (refl, (refl, tt))))
      tt (refl, (refl, (refl, (refl, (refl, (refl, (refl, (refl, tt))))))))

-- Blanks, comments and other line ends.
abbrev loose : Bytes
loose = codes " \r\n# c\n[ Unit ]  \r\n\n; d\n  A = # e\nx y\n"

loose_read : unit loose ≡ some (title ∷ property (codes "A") (codes "x y") ∷ eoi ∷ [])
unfolding unit Grammar.newlines Grammar.newline Grammar.more_newlines entry entries skip
    Grammar.comments Grammar.comment Grammar.spaces Grammar.item Grammar.section_rule
    Grammar.property_rule Grammar.token Grammar.key Grammar.value Grammar.letters Grammar.line
loose_read = refl

entries_done_example : entry (skip (entries 30 (codes "A=b\nC=\nD=e\n")).1) ≡ none
entries_done_example = entries_done 30 (codes "A=b\nC=\nD=e\n") (omega arith)
