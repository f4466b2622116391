-- ===== src/Base/Order.antt =====
-- `Ord`: a comparison with the laws of a total order, for numbers and, lexicographically, lists.
use Prim.Native.Nat.{ℕ, compare, Ordering}
use mathlib.Core.Path.{◌≡◌, refl}
use mathlib.Core.Logic.{◌⊎◌, inl, inr, ◌↔◌, ◌≢◌}
use mathlib.Core.Bool.{Bool, true, false}
use mathlib.Core.List.{List, [], ◌∷◌}
use native.Mathlib.Omega.{arith}

-- `Ordering::reverse`
abbrev pub flip : Ordering → Ordering
flip Ordering.lt = Ordering.gt
flip Ordering.eq = Ordering.eq
flip Ordering.gt = Ordering.lt

-- `Ordering::then_with`
abbrev pub then_with : Ordering → Ordering → Ordering
then_with Ordering.lt o = Ordering.lt
then_with Ordering.eq o = o
then_with Ordering.gt o = Ordering.gt

-- To split on a comparison and keep the equation.
pub Ordering-cases : (o : Ordering) → (o ≡ Ordering.lt) ⊎ (o ≡ Ordering.eq) ⊎ (o ≡ Ordering.gt)
Ordering-cases Ordering.lt = inl refl
Ordering-cases Ordering.eq = inr (inl refl)
Ordering-cases Ordering.gt = inr (inr refl)

pub record Ord {ℓ} (A : Type ℓ) : Type ℓ where
  pub cmp : A → A → Ordering
  pub cmp_refl : (a : A) → cmp a a ≡ Ordering.eq
  pub cmp_eq : (a b : A) → cmp a b ≡ Ordering.eq → a ≡ b
  pub cmp_flip : (a b : A) → cmp b a ≡ flip (cmp a b)
  pub cmp_trans :
      (a b c : A) → cmp a b ≡ Ordering.lt → cmp b c ≡ Ordering.lt → cmp a c ≡ Ordering.lt

pub nat_refl : (a : ℕ) → compare a a ≡ Ordering.eq
nat_refl a = ground arith

pub nat_eq : (a b : ℕ) → compare a b ≡ Ordering.eq → a ≡ b
nat_eq a b h = ground arith

pub nat_flip : (a b : ℕ) → compare b a ≡ flip (compare a b)
nat_flip a b = ground arith

pub nat_trans :
    (a b c : ℕ) → compare a b ≡ Ordering.lt → compare b c ≡ Ordering.lt → compare a c ≡ Ordering.lt
nat_trans a b c h k = ground arith

instance abbrev pub nat_ord : Ord ℕ
nat_ord = record {
  cmp = compare;
  cmp_refl = nat_refl;
  cmp_eq = nat_eq;
  cmp_flip = nat_flip;
  cmp_trans = nat_trans;
}

module _ {ℓ} {A : Type ℓ} ⦃o : Ord A⦄ where
  -- The derived order of slices and of `Components`.
  abbrev pub lex : List A → List A → Ordering
  lex [] [] = Ordering.eq
  lex [] (b ∷ bs) = Ordering.lt
  lex (a ∷ as') [] = Ordering.gt
  lex (a ∷ as') (b ∷ bs) = then_with (o.cmp a b) (lex as' bs)

  pub lex_refl : (as' : List A) → lex as' as' ≡ Ordering.eq
  lex_refl [] = refl
  lex_refl (a ∷ as') = rw (o.cmp_refl a) (lex_refl as')

  pub lex_eq : (as' bs : List A) → lex as' bs ≡ Ordering.eq → as' ≡ bs
  lex_eq [] [] h = refl
  lex_eq [] (b ∷ bs) h = cc
  lex_eq (a ∷ as') [] h = cc
  lex_eq (a ∷ as') (b ∷ bs) h = ground (arith, o.cmp_eq a b, lex_eq as' bs)

  pub lex-flip : (as' bs : List A) → lex bs as' ≡ flip (lex as' bs)
  lex-flip [] [] = refl
  lex-flip [] (b ∷ bs) = refl
  lex-flip (a ∷ as') [] = refl
  lex-flip (a ∷ as') (b ∷ bs) = ground (arith, o.cmp_flip a b, lex-flip as' bs)

  pub lex_trans :
      (as' bs cs : List A)
      → lex as' bs ≡ Ordering.lt
      → lex bs cs ≡ Ordering.lt
      → lex as' cs ≡ Ordering.lt
  lex_trans [] [] cs h k = cc
  lex_trans [] (b ∷ bs) [] h k = cc
  lex_trans [] (b ∷ bs) (c ∷ cs) h k = refl
  lex_trans (a ∷ as') [] cs h k = cc
  lex_trans (a ∷ as') (b ∷ bs) [] h k = cc
  lex_trans (a ∷ as') (b ∷ bs) (c ∷ cs) h k =
      ground (arith, o.cmp_eq a b, o.cmp_eq b c, o.cmp_trans a b c, lex_trans as' bs cs)

  instance unfoldable pub list_ord : Ord (List A)
  list_ord = record {
    cmp = lex;
    cmp_refl = lex_refl;
    cmp_eq = lex_eq;
    cmp_flip = lex-flip;
    cmp_trans = lex_trans;
  }

-- `a == b` for a type whose equality agrees with its order.
abbrev pub same {ℓ} : {A : Type ℓ} ⦃o : Ord A⦄ → A → A → Bool
same ⦃o⦄ a b = elim (o.cmp a b) [ Ordering.eq ↦ true | _ ↦ false ]

module _ {ℓ} {A : Type ℓ} ⦃o : Ord A⦄ where
  pub same_refl : (a : A) → same a a ≡ true
  same_refl a = ground (arith, o.cmp_refl a)

  pub same_ne : (a b : A) → a ≢ b → same a b ≡ false
  same_ne a b n = ground (arith, o.cmp_eq a b)

  pub same-eq : (a b : A) → same a b ≡ true → a ≡ b
  same-eq a b h = ground (arith, o.cmp_eq a b)

module _ {ℓ} {A : Type ℓ} ⦃o : Ord A⦄ where
  eq-of_cmp : (a b : A) → (o.cmp a b ≡ Ordering.eq) ↔ (a ≡ b)
  eq-of_cmp a b = (o.cmp_eq a b, λ e. rw e (o.cmp_refl b))

  -- To split on whether two values are equal.
  pub eq_cases : (a b : A) → (a ≡ b) ⊎ (a ≢ b)
  eq_cases a b = elim (Ordering-cases (o.cmp a b)) [
    | inl h ↦ inr (λ e. cc (h, (eq-of_cmp a b).1 e))
    | inr (inl h) ↦ inl (o.cmp_eq a b h)
    | inr (inr h) ↦ inr (λ e. cc (h, (eq-of_cmp a b).1 e))
  ]
