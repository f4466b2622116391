-- ===== src/Systemd/Grammar/Progress.antt =====
-- How much the rules of crates/elusive/src/systemd.pest take off, and that the fuel of their
-- repetitions, the length of the text, is enough.
use elusive.Base.{
  ℕ, zero, suc, ◌≤◌, ◌<◌, ◌||◌, Bool-cases, Option-cases, none, some, [], ◌∷◌, Bytes, ◌==◌, length,
  ◌≡◌, refl, inl, inr, arith,
}
use mathlib.Core.Path.{subst}
use elusive.Systemd.Grammar.{newline, spaces, line, comment, comments, skip, letters, token, Rest}

-- A result is shorter than the text.
abbrev pub Shorter : Bytes → Rest → Type 0
Shorter s none = Unit
Shorter s (some rest) = length rest < length s

pub spaces-length : (s : Bytes) → length (spaces s) ≤ length s
unfolding spaces
spaces-length [] = omega arith
spaces-length (c ∷ s) = ground (arith, spaces-length s)

pub newline-Shorter : (s : Bytes) → Shorter s (newline s)
unfolding newline
newline-Shorter [] = tt
newline-Shorter (c ∷ []) = ground arith
newline-Shorter (c ∷ d ∷ s) = ground arith

pub line-length : (s : Bytes) → length (line s).1 ≤ length s
unfolding line
line-length [] = omega arith
line-length (c ∷ s) = ground (arith, line-length s)

pub letters-length : (s : Bytes) → length (letters s).1 ≤ length s
unfolding letters
letters-length [] = omega arith
letters-length (c ∷ s) = ground (arith, letters-length s)

Shorter-weaken : (s t : Bytes) (r : Rest) → length s ≤ length t → Shorter s r → Shorter t r
Shorter-weaken s t none h g = tt
Shorter-weaken s t (some rest) h g = omega arith

comment-Shorter : (s : Bytes) → Shorter s (comment s)
unfolding comment
comment-Shorter [] = tt
comment-Shorter (c ∷ s) = elim (Bool-cases ((c == b'#') || (c == b';'))) [
  | inl h ↦ rw h (
      Shorter-weaken (line s).1 (c ∷ s) (newline (line s).1) (omega (arith, line-length s))
        (newline-Shorter (line s).1))
  | inr h ↦ rw h tt
]

-- The repetition of comments, from what the first of them is.
comments_done :
    (fuel : ℕ) (s : Bytes)
    → length s ≤ fuel
    → (comment (comments fuel s) ≡ none) × (length (comments fuel s) ≤ length s)
unfolding comments
comments_done zero [] h = (unfold comment in refl, omega arith)
comments_done zero (c ∷ s) h = absurd (omega arith)
comments_done (suc fuel) s h = elim (Option-cases (comment s)) [
  | inl e ↦ rw (e, comments) (e, omega arith)
  | inr (rest, e) ↦
      let sh : length rest < length s = subst (Shorter s) e (comment-Shorter s) in
      let (d, l) = comments_done fuel (spaces rest) (omega (arith, spaces-length rest)) in
      rw (e, comments) (d, omega (arith, spaces-length rest))
]

spaces-spaces : (s : Bytes) → spaces (spaces s) ≡ spaces s
unfolding spaces
spaces-spaces [] = refl
spaces-spaces (c ∷ s) = ground (arith, spaces-spaces s)

comments-spaces : (fuel : ℕ) (s : Bytes) → spaces s ≡ s → spaces (comments fuel s) ≡ comments fuel s
unfolding comments
comments-spaces zero s h = h
comments-spaces (suc fuel) s h = elim (Option-cases (comment s)) [
  | inl e ↦ rw (e, comments) h
  | inr (rest, e) ↦ rw (e, comments) (comments-spaces fuel (spaces rest) (spaces-spaces rest))
]

-- Behind what is skipped there is no blank and no comment, and it is no longer than the text.
pub skip_done :
    (s : Bytes)
    → (comment (skip s) ≡ none) × (spaces (skip s) ≡ skip s) × (length (skip s) ≤ length s)
unfolding skip
skip_done s =
    let (d, l) = comments_done (length (spaces s)) (spaces s) (omega arith) in
    (
      d,
      comments-spaces (length (spaces s)) (spaces s) (spaces-spaces s),
      omega (arith, spaces-length s),
    )

pub skip-length : (s : Bytes) → length (skip s) ≤ length s
skip-length s = (skip_done s).2

pub token-Shorter : (c : ℕ) (s : Bytes) → Shorter s (token c s)
unfolding token
token-Shorter c [] = tt
token-Shorter c (d ∷ s) = ground arith
