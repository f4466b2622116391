-- ===== src/Systemd/Grammar/Fuel.antt =====
-- The fuel of the repetitions of entries and newlines in crates/elusive/src/systemd.pest is enough.
use elusive.Base.{
  ℕ, zero, suc, ◌≤◌, ◌<◌, Option-cases, none, some, [], ◌∷◌, Bytes, length, ◌≡◌, refl, ◌∙◌, inl,
  inr, arith,
}
use mathlib.Core.Path.{subst}
use elusive.Systemd.{Pair}
use elusive.Systemd.Grammar.{
  newline, line, spaces, comments, skip, letters, key, value, token, section_rule, property_rule,
  item, more_newlines, entry, entries,
}
use elusive.Systemd.Grammar.Progress.{
  Shorter, newline-Shorter, line-length, letters-length, skip-length, token-Shorter,
}
use elusive.Systemd.Grammar.Sound.{bind-some, some-injective, nonempty-some}

newline_lt : (s : Bytes) {rest : Bytes} → newline s ≡ some rest → length rest < length s
newline_lt s e = subst (Shorter s) e (newline-Shorter s)

token_lt : (c : ℕ) (s : Bytes) {rest : Bytes} → token c s ≡ some rest → length rest < length s
token_lt c s e = subst (Shorter s) e (token-Shorter c s)

key_le : (s : Bytes) (r : Bytes × Bytes) → key s ≡ some r → length r.1 ≤ length s
unfolding key
key_le s r e =
    subst (λ (x : Bytes × Bytes). length x.1 ≤ length s) (nonempty-some (letters s) e).1
      (letters-length s)

value_le : (s : Bytes) (r : Bytes × Bytes) → value s ≡ some r → length r.1 ≤ length s
unfolding value
value_le s r e =
    subst (λ (x : Bytes × Bytes). length x.1 ≤ length s) (nonempty-some (line s) e).1
      (line-length s)

section_rule_lt : (s : Bytes) (r : Pair × Bytes) → section_rule s ≡ some r → length r.1 < length s
unfolding section_rule
section_rule_lt s r e =
    let (s₁, open_, e₁) = bind-some (token b'[' s) _ e in
    let (r₂, k, e₂) = bind-some (key (skip s₁)) _ e₁ in
    let (s₃, close, e₃) = bind-some (token b']' (skip r₂.1)) _ e₂ in
    subst (λ (x : Pair × Bytes). length x.1 < length s) (some-injective e₃)
      (omega (
        arith,
        token_lt b'[' s open_,
        key_le (skip s₁) r₂ k,
        token_lt b']' (skip r₂.1) close,
        skip-length s₁,
        skip-length r₂.1,
      ))

property_rule_lt : (s : Bytes) (r : Pair × Bytes) → property_rule s ≡ some r → length r.1 < length s
unfolding property_rule
property_rule_lt s r e =
    let (r₁, k, e₁) = bind-some (key s) _ e in
    let (s₂, equals, e₂) = bind-some (token b'=' (skip r₁.1)) _ e₁ in
    let (r₃, v, e₃) = bind-some (value (skip s₂)) _ e₂ in
    subst (λ (x : Pair × Bytes). length x.1 < length s) (some-injective e₃)
      (omega (
        arith,
        key_le s r₁ k,
        token_lt b'=' (skip r₁.1) equals,
        value_le (skip s₂) r₃ v,
        skip-length s₂,
        skip-length r₁.1,
      ))

item_lt : (s : Bytes) (r : Pair × Bytes) → item s ≡ some r → length r.1 < length s
unfolding item
item_lt s r e = elim (Option-cases (section_rule s)) [
  | inl fails ↦ property_rule_lt s r (rw (fails, item) at e)
  | inr (parsed, found) ↦ section_rule_lt s r (found ∙ (rw (found, item) at e))
]

-- A repetition of newlines stops where no newline follows.
pub more_newlines_done :
    (fuel : ℕ) (s : Bytes)
    → length s ≤ fuel
    → (newline (skip (more_newlines fuel s)) ≡ none) × (length (more_newlines fuel s) ≤ length s)
unfolding more_newlines
more_newlines_done zero [] h = (unfold newline skip spaces comments in refl, omega arith)
more_newlines_done zero (c ∷ s) h = absurd (omega arith)
more_newlines_done (suc fuel) s h = elim (Option-cases (newline (skip s))) [
  | inl e ↦ rw (e, more_newlines) (e, omega arith)
  | inr (rest, e) ↦
      let lt = newline_lt (skip s) e in
      let (d, l) = more_newlines_done fuel rest (omega (arith, lt, skip-length s)) in
      rw (e, more_newlines) (d, omega (arith, lt, skip-length s))
]

entry_lt : (s : Bytes) (r : Pair × Bytes) → entry s ≡ some r → length r.1 < length s
unfolding entry
entry_lt s r e =
    let (r₁, i, e₁) = bind-some (item s) _ e in
    let (s₂, l, e₂) = bind-some (newline (skip r₁.1)) _ e₁ in
    subst (λ (x : Pair × Bytes). length x.1 < length s) (some-injective e₂)
      (omega (
        arith,
        item_lt s r₁ i,
        newline_lt (skip r₁.1) l,
        skip-length r₁.1,
        (more_newlines_done (length s₂) s₂ (omega arith)).1,
      ))

-- the repetition of entries ends by itself: with the length of the text as fuel, or more, what is
-- left begins with no entry.
pub entries_done : (fuel : ℕ) (s : Bytes) → length s ≤ fuel → entry (skip (entries fuel s).1) ≡ none
unfolding entries
entries_done zero [] h =
    unfold entry item section_rule property_rule token key letters skip spaces comments in refl
entries_done zero (c ∷ s) h = absurd (omega arith)
entries_done (suc fuel) s h = elim (Option-cases (entry (skip s))) [
  | inl fails ↦ rw (fails, entries) fails
  | inr (r, found) ↦
      rw (found, entries)
        (entries_done fuel r.1 (omega (arith, entry_lt (skip s) r found, skip-length s)))
]
