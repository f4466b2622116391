-- ===== src/Systemd/Grammar/Sound.antt =====
-- What the rules of crates/elusive/src/systemd.pest accept.
use elusive.Base.{
  ℕ, zero, suc, true, false, ◌||◌, Bool-cases, Option-cases, Option, none, some, List, [], ◌∷◌,
  ◌++◌, Bytes, ◌==◌, length, ◌≡◌, ◌≢◌, refl, sym, ap, ◌∙◌, inl, inr, All, arith,
}
use mathlib.Core.Path.{subst}
use elusive.Systemd.{Pair, eoi}
use elusive.Systemd.Grammar.{
  newline, spaces, is_newline, line, comment, skip, is_alpha, letters, nonempty, key, value, token,
  bind, section_rule, property_rule, item, newlines, entry, entries, end_of_input, unit_from, unit,
}
use elusive.Systemd.Grammar.Progress.{skip_done, spaces-length}
use elusive.Systemd.Grammar.Printer.{print, print_pair, IsKey, IsValue, IsPlain}
use elusive.Systemd.Grammar.RoundTrip.{unit-print}

pub bind-some :
    {A B : Type 0} (o : Option A) (f : A → Option B) {b : B}
    → bind o f ≡ some b
    → (a : A) × (o ≡ some a) × (f a ≡ some b)
bind-some none f e = cc
bind-some (some a) f e = (a, refl, e)

pub some-injective : {A : Type 0} {a b : A} → ◌≡◌ {A = Option A} (some a) (some b) → a ≡ b
some-injective h = cc

letters-All : (s : Bytes) → All (λ c. is_alpha c ≡ true) (letters s).0
unfolding letters
letters-All [] = tt
letters-All (c ∷ s) = elim (Bool-cases (is_alpha c)) [
  | inl h ↦ rw h (h, letters-All s)
  | inr h ↦ rw h tt
]

line-All : (s : Bytes) → All (λ c. is_newline c ≡ false) (line s).0
unfolding line
line-All [] = tt
line-All (c ∷ s) = elim (Bool-cases (is_newline c)) [
  | inl h ↦ rw h tt
  | inr h ↦ rw h (h, line-All s)
]

pub nonempty-some :
    (r : Bytes × Bytes) {taken rest : Bytes}
    → nonempty r ≡ some (taken, rest)
    → (taken ≢ []) × (r ≡ (taken, rest))
nonempty-some ([], rest') e = cc
nonempty-some (c ∷ taken', rest') {taken} {rest} e =
    let same : (c ∷ taken', rest') ≡ (taken, rest) = some-injective e in
    ((λ z. cc (ap (λ r. r.0) same)), same)

IsKey-of_All : (name : Bytes) → name ≢ [] → All (λ c. is_alpha c ≡ true) name → IsKey name
IsKey-of_All [] n a = absurd (n refl)
IsKey-of_All (c ∷ name) n a = a

key-IsKey : (s name rest : Bytes) → key s ≡ some (name, rest) → IsKey name
unfolding key
key-IsKey s name rest e =
    let (n, same) = nonempty-some (letters s) e in
    IsKey-of_All name n
      (subst (λ (r : Bytes × Bytes). All (λ c. is_alpha c ≡ true) r.0) same (letters-All s))

-- What is left of a line is at its end, or at the text's.
line_end : (s : Bytes) → newline (line s).1 ≡ none → (line s).1 ≡ []
unfolding line newline
line_end [] h = refl
line_end (c ∷ s) h = elim (Bool-cases (is_newline c)) [
  | inl e ↦ ground arith
  | inr e ↦ rw e (line_end s (rw e at h))
]

not_blank : (c : ℕ) (s : Bytes) → spaces (c ∷ s) ≡ c ∷ s → (c == b' ') ≡ false
unfolding spaces
not_blank c s h = elim (Bool-cases (c == b' ')) [
  | inl e ↦
      let l : length (spaces s) ≡ suc (length s) = ap length (rw e at h) in
      absurd (omega (arith, spaces-length s))
  | inr e ↦ e
]

no_comment :
    (c : ℕ) (s : Bytes)
    → comment (c ∷ s) ≡ none
    → (line s).1 ≢ []
    → ((c == b'#') || (c == b';')) ≡ false
unfolding comment
no_comment c s h n = elim (Bool-cases ((c == b'#') || (c == b';'))) [
  | inl e ↦ absurd (n (line_end s (rw e at h)))
  | inr e ↦ e
]

-- A value behind what is skipped, where something follows.
value-IsValue :
    (t content rest : Bytes)
    → comment t ≡ none
    → spaces t ≡ t
    → rest ≢ []
    → value t ≡ some (content, rest)
    → IsValue content
unfolding value line
value-IsValue [] content rest n b r e = cc
value-IsValue (c ∷ t) content rest n b r e = elim (Bool-cases (is_newline c)) [
  | inl h ↦ cc (rw h at e)
  | inr h ↦
      let f : ◌≡◌ {A = Option (Bytes × Bytes)} (some (c ∷ (line t).0, (line t).1))
          (some (content, rest)) =
        (rw h at e) in
      let (_, same) = nonempty-some (c ∷ (line t).0, (line t).1) f in
      let blank = not_blank c t b in
      let hash = no_comment c t n (λ z. r (sym (ap (λ x. x.1) same) ∙ z)) in
      subst IsValue (ap (λ x. x.0) same) ((ground arith, h), line-All t)
]

section_rule-IsPlain :
    (s rest : Bytes) (pair : Pair) → section_rule s ≡ some (pair, rest) → IsPlain pair
unfolding section_rule
section_rule-IsPlain s rest pair e =
    let (s₁, _, e₁) = bind-some (token b'[' s) _ e in
    let (r₂, k, e₂) = bind-some (key (skip s₁)) _ e₁ in
    let (s₃, _, e₃) = bind-some (token b']' (skip r₂.1)) _ e₂ in
    subst IsPlain (ap (λ x. x.0) (some-injective e₃)) (key-IsKey (skip s₁) r₂.0 r₂.1 k)

property_rule-IsPlain :
    (s rest : Bytes) (pair : Pair) → rest ≢ [] → property_rule s ≡ some (pair, rest) → IsPlain pair
unfolding property_rule
property_rule-IsPlain s rest pair n e =
    let (r₁, k, e₁) = bind-some (key s) _ e in
    let (s₂, _, e₂) = bind-some (token b'=' (skip r₁.1)) _ e₁ in
    let (r₃, v, e₃) = bind-some (value (skip s₂)) _ e₂ in
    let same = some-injective e₃ in
    let (bare, blank, _) = skip_done s₂ in
    subst IsPlain (ap (λ x. x.0) same) (
      key-IsKey s r₁.0 r₁.1 k,
      value-IsValue (skip s₂) r₃.0 r₃.1 bare blank (λ z. n (sym (ap (λ x. x.1) same) ∙ z)) v,
    )

item-IsPlain :
    (s rest : Bytes) (pair : Pair) → rest ≢ [] → item s ≡ some (pair, rest) → IsPlain pair
unfolding item
item-IsPlain s rest pair n e = elim (Option-cases (section_rule s)) [
  | inl fails ↦ property_rule-IsPlain s rest pair n (rw (fails, item) at e)
  | inr (parsed, found) ↦ section_rule-IsPlain s rest pair (found ∙ (rw (found, item) at e))
]

followed : (s rest : Bytes) → newline (skip s) ≡ some rest → s ≢ []
unfolding newline skip spaces comment
followed [] rest e z = cc
followed (c ∷ s) rest e z = cc

pub entry-IsPlain : (s rest : Bytes) (pair : Pair) → entry s ≡ some (pair, rest) → IsPlain pair
unfolding entry
entry-IsPlain s rest pair e =
    let (r₁, i, e₁) = bind-some (item s) _ e in
    let (s₂, l, e₂) = bind-some (newline (skip r₁.1)) _ e₁ in
    subst IsPlain (ap (λ x. x.0) (some-injective e₂))
      (item-IsPlain s r₁.1 r₁.0 (followed r₁.1 s₂ l) i)

entries-IsPlain : (fuel : ℕ) (s : Bytes) → All IsPlain (entries fuel s).0
unfolding entries
entries-IsPlain zero s = tt
entries-IsPlain (suc fuel) s = elim (Option-cases (entry (skip s))) [
  | inl fails ↦ rw (fails, entries) tt
  | inr ((pair, rest), found) ↦
      rw (found, entries) (entry-IsPlain (skip s) rest pair found, entries-IsPlain fuel rest)
]

end_of_input-some :
    (pairs : List Pair) (s : Bytes) {ps : List Pair}
    → end_of_input pairs s ≡ some ps
    → pairs ++ (eoi ∷ []) ≡ ps
end_of_input-some pairs [] e = some-injective e
end_of_input-some pairs (c ∷ s) e = cc

-- What a unit that is accepted is made of.
pub unit-IsPlain :
    (s : Bytes) (ps : List Pair)
    → unit s ≡ some ps
    → (pair : Pair) × (pairs : List Pair) × IsPlain pair
      × All IsPlain pairs
      × (pair ∷ (pairs ++ (eoi ∷ [])) ≡ ps)
unfolding unit
unit-IsPlain s ps e =
    let ((pair, rest), first, e₁) = bind-some (entry (skip (newlines (skip s)))) unit_from e in
    let more = entries (length rest) rest in
    (
      pair,
      more.0,
      entry-IsPlain (skip (newlines (skip s))) rest pair first,
      entries-IsPlain (length rest) rest,
      end_of_input-some (pair ∷ more.0) (skip more.1) e₁,
    )

print-end : (pairs : List Pair) → print (pairs ++ (eoi ∷ [])) ≡ print pairs
unfolding print print_pair
print-end [] = refl
print-end (pair ∷ pairs) = ap (λ r. print_pair pair ++ r) (print-end pairs)

-- a text that the grammar of unit files accepts, however its blanks, comments and line ends are
-- laid out, yields the pairs that their plain form, one pair on each line, yields.
pub unit-normal : (s : Bytes) (ps : List Pair) → unit s ≡ some ps → unit (print ps) ≡ some ps
unit-normal s ps e =
    let (pair, pairs, plain, plains, same) = unit-IsPlain s ps e in
    subst (λ qs. unit (print qs) ≡ some qs) same
      (ap unit (print-end (pair ∷ pairs)) ∙ unit-print pair pairs plain plains)
