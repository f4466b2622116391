-- ===== src/Base/Outcome.antt =====
-- Rust's `Result`, with further outcomes for a panic (`expect`, `unwrap`) and for a recursion that
-- goes on when the fuel of its model is used up, and methods on a
-- `&mut self`: the state comes back beside the result, since what was written before an early
-- return stays written.
use mathlib.Core.Path.{◌≡◌, refl, ap}
use mathlib.Core.Option.{Option, none, some}

pub data Result {ℓ} (E A : Type ℓ) : Type ℓ where
  ok : A → Result E A
  err : E → Result E A
  panic : Result E A
  diverge : Result E A

module _ {ℓ} {E A B : Type ℓ} where
  -- `r?` followed by the rest.
  abbrev pub and_then : Result E A → (A → Result E B) → Result E B
  and_then (ok a) f = f a
  and_then (err e) f = err e
  and_then panic f = panic
  and_then diverge f = diverge

  abbrev pub map_ok : (A → B) → Result E A → Result E B
  map_ok f (ok a) = ok (f a)
  map_ok f (err e) = err e
  map_ok f panic = panic
  map_ok f diverge = diverge

-- `From::from`, which `?` applies to an error.
abbrev pub map_err {ℓ} : {D E A : Type ℓ} → (D → E) → Result D A → Result E A
map_err f (ok a) = ok a
map_err f (err e) = err (f e)
map_err f panic = panic
map_err f diverge = diverge

abbrev pub ok_or {ℓ} : {E A : Type ℓ} → Option A → E → Result E A
ok_or none e = err e
ok_or (some a) e = ok a

abbrev pub expect {ℓ} : {E A : Type ℓ} → Option A → Result E A
expect none = panic
expect (some a) = ok a

-- A method that may change the state `S`.
abbrev pub Exec {ℓ} : Type ℓ → Type ℓ → Type ℓ → Type ℓ
Exec S E A = S → Result E A × S

module _ {ℓ} {S E : Type ℓ} where
  abbrev pub pure : {A : Type ℓ} → A → Exec S E A
  pure a s = (ok a, s)

  abbrev pub throw : {A : Type ℓ} → E → Exec S E A
  throw e s = (err e, s)

  -- A computation that does not touch the state.
  abbrev pub lift : {A : Type ℓ} → Result E A → Exec S E A
  lift r s = (r, s)

  abbrev pub continue : {A B : Type ℓ} → Result E A → (A → Exec S E B) → Exec S E B
  continue (ok a) f s = f a s
  continue (err e) f s = (err e, s)
  continue panic f s = (panic, s)
  continue diverge f s = (diverge, s)

  infixl 5 ◌>>=◌ ◌>>◌
  abbrev pub ◌>>=◌ : {A B : Type ℓ} → Exec S E A → (A → Exec S E B) → Exec S E B
  ◌>>=◌ m f s = let r = m s in continue r.0 f r.1

  abbrev pub ◌>>◌ : {A B : Type ℓ} → Exec S E A → Exec S E B → Exec S E B
  m >> k = m >>= λ _. k

pub ok-injective {ℓ} : {E A : Type ℓ} {a b : A} → ◌≡◌ {A = Result E A} (ok a) (ok b) → a ≡ b
ok-injective e = cc

-- Inversions: what a success of the whole says of the parts.
module _ {ℓ} {E A B : Type ℓ} where
  pub and_then-ok :
      (r : Result E A) (f : A → Result E B) {b : B}
      → and_then r f ≡ ok b
      → (a : A) × (r ≡ ok a) × (f a ≡ ok b)
  and_then-ok (ok a) f h = (a, refl, h)
  and_then-ok (err e) f h = cc
  and_then-ok panic f h = cc
  and_then-ok diverge f h = cc

  pub map_ok-ok :
      (f : A → B) (r : Result E A) {b : B} → map_ok f r ≡ ok b → (a : A) × (r ≡ ok a) × (f a ≡ b)
  map_ok-ok f (ok a) h = (a, refl, cc)
  map_ok-ok f (err e) h = cc
  map_ok-ok f panic h = cc
  map_ok-ok f diverge h = cc

module _ {ℓ} {E A : Type ℓ} where
  pub ok_or-ok : (o : Option A) (e : E) {a : A} → ok_or o e ≡ ok a → o ≡ some a
  ok_or-ok none e h = cc
  ok_or-ok (some a) e h = cc

  pub expect-ok : (o : Option A) {a : A} → expect {E = E} o ≡ ok a → o ≡ some a
  expect-ok none h = cc
  expect-ok (some a) h = cc

pub map_err-ok {ℓ} :
    {D E A : Type ℓ} (f : D → E) (r : Result D A) {a : A} → map_err f r ≡ ok a → r ≡ ok a
map_err-ok f (ok a) h = cc
map_err-ok f (err e) h = cc
map_err-ok f panic h = cc
map_err-ok f diverge h = cc

pub continue-ok {ℓ} :
    {S E A B : Type ℓ} (r : Result E A) (f : A → Exec S E B) (s : S) {b : B} {s' : S}
    → continue r f s ≡ (ok b, s')
    → (a : A) × (r ≡ ok a) × (f a s ≡ (ok b, s'))
continue-ok (ok a) f s h = (a, refl, h)
continue-ok (err e) f s h = cc (ap (λ p. p.0) h)
continue-ok panic f s h = cc (ap (λ p. p.0) h)
continue-ok diverge f s h = cc (ap (λ p. p.0) h)

-- Steps that leave the state as it was.
pub continue-and_then {ℓ} :
    {S E A B : Type ℓ} (r : Result E A) (f : A → Exec S E B) (g : A → Result E B) (s : S)
    → ((a : A) → f a s ≡ (g a, s))
    → continue r f s ≡ (and_then r g, s)
continue-and_then (ok a) f g s h = h a
continue-and_then (err e) f g s h = refl
continue-and_then panic f g s h = refl
continue-and_then diverge f g s h = refl
