-- ===== src/Systemd/Grammar/RoundTrip.antt =====
-- What the grammar of crates/elusive/src/systemd.pest makes of a printed unit.
use elusive.Base.{
  ℕ, zero, suc, ◌≤◌, true, ◌||◌, none, some, List, [], ◌∷◌, ◌++◌, Bytes, ◌==◌, length, ◌≡◌, refl,
  sym, ap, ◌∙◌, All, arith, append_assoc, append-nil, length-append,
}
use mathlib.Core.Path.{subst}
use elusive.Systemd.{Pair, section, property, eoi}
use elusive.Systemd.Grammar.{
  newline, spaces, comment, comments, skip, is_alpha, letters, key, token, section_rule,
  property_rule, item, more_newlines, newlines, entry, entries, end_of_input, unit_from, unit,
}
use elusive.Systemd.Grammar.Printer.{print_pair, print, IsPlain}
use elusive.Systemd.Grammar.Pieces.{section_rule-print, property_rule-print, section_rule-key}

-- What a pair can begin with.
abbrev pub Begins : Bytes → Type 0
Begins [] = Unit
Begins (c ∷ s) = ((c == b'[') || is_alpha c) ≡ true

more_newlines-Begins : (fuel : ℕ) (s : Bytes) → Begins s → more_newlines fuel s ≡ s
unfolding more_newlines newline skip comments spaces
more_newlines-Begins zero s b = refl
more_newlines-Begins (suc fuel) [] b = refl
more_newlines-Begins (suc fuel) (c ∷ s) b = ground arith

newlines-Begins : (s : Bytes) → Begins s → newlines s ≡ s
unfolding newlines newline
newlines-Begins [] b = refl
newlines-Begins (c ∷ s) b = ground arith

print_pair-Begins : (pair : Pair) (s : Bytes) → IsPlain pair → Begins (print_pair pair ++ s)
unfolding print_pair
print_pair-Begins (section name) s k = refl
print_pair-Begins (property [] content) s (k, v) = absurd k
print_pair-Begins (property (c ∷ name) content) s ((h, _), v) = ground arith
print_pair-Begins eoi s k = absurd k

print-Begins :
    (pairs : List Pair) (s : Bytes) → All IsPlain pairs → Begins s → Begins (print pairs ++ s)
unfolding print
print-Begins [] s a b = b
print-Begins (pair ∷ pairs) s (k, a) b =
    subst Begins (sym (append_assoc (print_pair pair) (print pairs) s))
      (print_pair-Begins pair (print pairs ++ s) k)

Begins-skip : (s : Bytes) → Begins s → skip s ≡ s
unfolding skip spaces comment comments
Begins-skip [] b = refl
Begins-skip (c ∷ s) b = ground arith

item-section :
    (s : Bytes) {parsed : Pair × Bytes} → section_rule s ≡ some parsed → item s ≡ some parsed
unfolding item
item-section s h = rw (h, item) refl

item-property :
    (s : Bytes) {parsed : Pair × Bytes}
    → section_rule s ≡ none
    → property_rule s ≡ some parsed
    → item s ≡ some parsed
unfolding item
item-property s n h = rw (n, item, h) refl

-- A printed pair is taken for itself, up to its line's end.
item-print_pair :
    (pair : Pair) (s : Bytes) → IsPlain pair → item (print_pair pair ++ s) ≡ some (pair, 10 ∷ s)
unfolding print_pair
item-print_pair (section name) s k =
    ap (λ r. item (b'[' ∷ r)) (append_assoc name (b']' ∷ 10 ∷ []) s)
    ∙ item-section (b'[' ∷ (name ++ (b']' ∷ 10 ∷ s))) (section_rule-print name s k)
item-print_pair (property name content) s (k, v) =
    ap item (
      append_assoc name (b'=' ∷ (content ++ (10 ∷ []))) s
      ∙ ap (λ r. name ++ (b'=' ∷ r)) (append_assoc content (10 ∷ []) s))
    ∙ item-property (name ++ (b'=' ∷ (content ++ (10 ∷ s))))
        (section_rule-key name (b'=' ∷ (content ++ (10 ∷ s))) k)
        (property_rule-print name content s k v)
item-print_pair eoi s k = absurd k

entry-print_pair :
    (pair : Pair) (s : Bytes)
    → IsPlain pair
    → Begins s
    → entry (print_pair pair ++ s) ≡ some (pair, s)
unfolding entry newline
entry-print_pair pair s k b =
    rw (item-print_pair pair s k, more_newlines-Begins (length s) s b) refl

entries_stop : (fuel : ℕ) (s : Bytes) → entry (skip s) ≡ none → entries (suc fuel) s ≡ ([], s)
unfolding entries
entries_stop fuel s h = rw (h, entries) refl

unit_step :
    (s rest : Bytes) (pair : Pair)
    → entry (skip (newlines (skip s))) ≡ some (pair, rest)
    → unit s ≡ unit_from (pair, rest)
unfolding unit
unit_step s rest pair h = rw (h, unit) refl

entry_nil : entry [] ≡ none
unfolding entry item section_rule property_rule token key letters
entry_nil = refl

entries_step :
    (fuel : ℕ) (s rest : Bytes) (pair : Pair)
    → entry (skip s) ≡ some (pair, rest)
    → entries (suc fuel) s ≡ (pair ∷ (entries fuel rest).0, (entries fuel rest).1)
unfolding entries
entries_step fuel s rest pair h = rw (h, entries) refl

-- The pairs in front of what is no entry.
entries-print :
    (fuel : ℕ) (pairs : List Pair) (s : Bytes)
    → All IsPlain pairs
    → Begins s
    → entry s ≡ none
    → length pairs ≤ fuel
    → entries fuel (print pairs ++ s) ≡ (pairs, s)
unfolding print
entries-print zero [] s a b e h = unfold entries in refl
entries-print zero (pair ∷ pairs) s a b e h = absurd (omega arith)
entries-print (suc fuel) [] s a b e h = entries_stop fuel s (ap entry (Begins-skip s b) ∙ e)
entries-print (suc fuel) (pair ∷ pairs) s (k, a) b e h =
    let rest = print pairs ++ s in
    ap (entries (suc fuel)) (append_assoc (print_pair pair) (print pairs) s)
    ∙ entries_step fuel (print_pair pair ++ rest) rest pair (
        ap entry (Begins-skip (print_pair pair ++ rest) (print_pair-Begins pair rest k))
        ∙ entry-print_pair pair rest k (print-Begins pairs s a b))
    ∙ ap (λ r. (pair ∷ r.0, r.1)) (entries-print fuel pairs s a b e (omega arith))

some_length : (pair : Pair) → IsPlain pair → 1 ≤ length (print_pair pair)
unfolding print_pair
some_length (section name) k = omega arith
some_length (property [] content) (k, v) = absurd k
some_length (property (c ∷ name) content) k = omega arith
some_length eoi k = absurd k

length-print : (pairs : List Pair) → All IsPlain pairs → length pairs ≤ length (print pairs)
unfolding print
length-print [] a = omega arith
length-print (pair ∷ pairs) (k, a) =
    omega (
      arith,
      length-append (print_pair pair) (print pairs),
      some_length pair k,
      length-print pairs a,
    )

-- Printed pairs in front of what is no entry.
pub unit-append :
    (pair : Pair) (pairs : List Pair) (s : Bytes)
    → IsPlain pair
    → All IsPlain pairs
    → Begins s
    → entry s ≡ none
    → unit (print (pair ∷ pairs) ++ s) ≡ end_of_input (pair ∷ pairs) s
unfolding print
unit-append pair pairs s k a b e =
    let rest = print pairs ++ s in
    let whole = print_pair pair ++ rest in
    let begins = print_pair-Begins pair rest k in
    ap unit (append_assoc (print_pair pair) (print pairs) s)
    ∙ unit_step whole rest pair (
        ap (λ x. entry (skip (newlines x))) (Begins-skip whole begins)
        ∙ ap (λ x. entry (skip x)) (newlines-Begins whole begins)
        ∙ ap entry (Begins-skip whole begins)
        ∙ entry-print_pair pair rest k (print-Begins pairs s a b))
    ∙ ap (λ r. end_of_input (pair ∷ r.0) (skip r.1))
        (entries-print (length rest) pairs s a b e
          (omega (arith, length-append (print pairs) s, length-print pairs a)))
    ∙ ap (end_of_input (pair ∷ pairs)) (Begins-skip s b)

-- sections and properties, one of them at least, printed one on each line, are read back as they
-- were, with the end of the input behind them. Names must be ASCII letters, and a value must be
-- there, on one line, and begin with no blank, # or ;.
pub unit-print :
    (pair : Pair) (pairs : List Pair)
    → IsPlain pair
    → All IsPlain pairs
    → unit (print (pair ∷ pairs)) ≡ some (pair ∷ (pairs ++ (eoi ∷ [])))
unit-print pair pairs k a =
    ap unit (sym (append-nil (print (pair ∷ pairs)))) ∙ unit-append pair pairs [] k a tt entry_nil
