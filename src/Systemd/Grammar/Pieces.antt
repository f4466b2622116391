-- ===== src/Systemd/Grammar/Pieces.antt =====
-- What the rules of crates/elusive/src/systemd.pest take off the parts of a printed pair.
use elusive.Base.{
  ℕ, true, false, ◌||◌, none, some, [], ◌∷◌, ◌++◌, Bytes, ◌==◌, ◌≡◌, refl, All, arith,
}
use elusive.Systemd.{section, property}
use elusive.Systemd.Grammar.{
  spaces, is_newline, line, comment, comments, skip, is_alpha, letters, key, value, token,
  section_rule, property_rule,
}
use elusive.Systemd.Grammar.Printer.{IsKey, IsValue}

-- A character that nothing skips.
abbrev pub IsSolid : ℕ → Type 0
IsSolid c = ((c == b' ') || (c == b'#') || (c == b';')) ≡ false

pub skip_solid : (c : ℕ) (s : Bytes) → IsSolid c → skip (c ∷ s) ≡ c ∷ s
unfolding skip comment spaces comments
skip_solid c s h = ground arith

letters-append :
    (name : Bytes) (c : ℕ) (s : Bytes)
    → All (λ d. is_alpha d ≡ true) name
    → is_alpha c ≡ false
    → letters (name ++ (c ∷ s)) ≡ (name, c ∷ s)
unfolding letters
letters-append [] c s a h = ground arith
letters-append (d ∷ name) c s (e, a) h = rw (letters-append name c s a h) (ground arith)

line-append :
    (content s : Bytes)
    → All (λ d. is_newline d ≡ false) content
    → line (content ++ (10 ∷ s)) ≡ (content, 10 ∷ s)
unfolding line
line-append [] s a = refl
line-append (d ∷ content) s (e, a) = rw (line-append content s a) (ground arith)

pub key-append :
    (name : Bytes) (c : ℕ) (s : Bytes)
    → IsKey name
    → is_alpha c ≡ false
    → key (name ++ (c ∷ s)) ≡ some (name, c ∷ s)
unfolding key
key-append [] c s k h = absurd k
key-append (d ∷ name) c s k h = rw (letters-append (d ∷ name) c s k h) refl

pub alpha-IsSolid : (c : ℕ) → is_alpha c ≡ true → IsSolid c
alpha-IsSolid c h = ground arith

skip-key : (name s : Bytes) → IsKey name → skip (name ++ s) ≡ name ++ s
skip-key [] s k = absurd k
skip-key (c ∷ name) s (h, _) = skip_solid c (name ++ s) (alpha-IsSolid c h)

value-append :
    (content s : Bytes)
    → IsValue content
    → value (skip (content ++ (10 ∷ s))) ≡ some (content, 10 ∷ s)
unfolding value
value-append [] s v = absurd v
value-append (c ∷ content) s ((h, n), a) =
    rw (skip_solid c (content ++ (10 ∷ s)) h, line-append (c ∷ content) s (n, a)) refl

pub section_rule-print :
    (name s : Bytes)
    → IsKey name
    → section_rule (b'[' ∷ (name ++ (b']' ∷ 10 ∷ s))) ≡ some (section name, 10 ∷ s)
unfolding section_rule token
section_rule-print name s k =
    rw (skip-key name (b']' ∷ 10 ∷ s) k, key-append name b']' (10 ∷ s) k refl) refl

pub property_rule-print :
    (name content s : Bytes)
    → IsKey name
    → IsValue content
    → property_rule (name ++ (b'=' ∷ (content ++ (10 ∷ s)))) ≡ some (property name content, 10 ∷ s)
unfolding property_rule token
property_rule-print name content s k v =
    rw (key-append name b'=' (content ++ (10 ∷ s)) k refl, value-append content s v) refl

pub section_rule-key : (name s : Bytes) → IsKey name → section_rule (name ++ s) ≡ none
unfolding section_rule token
section_rule-key [] s k = absurd k
section_rule-key (c ∷ name) s (h, _) = ground arith
