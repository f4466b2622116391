-- ===== src/OrdMap/Laws.antt =====
-- What `get` answers after `insert` and `remove`, and that the keys stay in order.
use Prim.Native.Nat.{Ordering}
use mathlib.Core.Path.{subst}
use elusive.Base.{
  none, some, [], ◌∷◌, ◌≡◌, ◌≢◌, refl, sym, ap, ◌∙◌, inl, inr, ◌⊎◌, arith, if◌then◌else◌,
}
use elusive.Base.Order.{Ord, same, flip, Ordering-cases}
use elusive.OrdMap.{OrdMap, get, insert, remove, Above, IsSorted}

module _ {ℓ} {K V : Type ℓ} ⦃o : Ord K⦄ where
  pub get-insert :
      (j k : K) (v : V) (m : OrdMap K V)
      → get j (insert k v m) ≡ (if same j k then some v else get j m)
  unfolding get insert
  get-insert j k v [] = ground arith
  get-insert j k v ((i, w) ∷ m) = ground (
    arith,
    get-insert j k v m,
    o.cmp_eq k i,
    o.cmp_eq j k,
    o.cmp_eq j i,
    o.cmp_flip j k,
    o.cmp_flip k i,
    o.cmp_flip j i,
    o.cmp_trans j k i,
    o.cmp_trans i k j,
  )

  pub get-insert_self : (k : K) (v : V) (m : OrdMap K V) → get k (insert k v m) ≡ some v
  get-insert_self k v m = ground (arith, get-insert k k v m, o.cmp_refl k)

  pub get-insert_ne : (j k : K) (v : V) (m : OrdMap K V) → j ≢ k → get j (insert k v m) ≡ get j m
  get-insert_ne j k v m h = ground (arith, get-insert j k v m, o.cmp_eq j k)

  Above-insert :
      (i k : K) (v : V) (m : OrdMap K V)
      → o.cmp i k ≡ Ordering.lt
      → Above i m
      → Above i (insert k v m)
  unfolding insert
  Above-insert i k v [] h a = h
  Above-insert i k v ((j, w) ∷ m) h a = ground arith

  pub insert-IsSorted : (k : K) (v : V) (m : OrdMap K V) → IsSorted m → IsSorted (insert k v m)
  unfolding insert
  insert-IsSorted k v [] s = (tt, tt)
  insert-IsSorted k v ((j, w) ∷ m) (a, s) = elim (Ordering-cases (o.cmp k j)) [
    | inl h ↦ rw (h, insert) (h, (a, s))
    | inr (inl h) ↦ rw (h, insert) (subst (λ i. Above i m) (sym (o.cmp_eq k j h)) a, s)
    | inr (inr h) ↦
        rw (h, insert)
          (Above-insert j k v m (o.cmp_flip k j ∙ ap flip h) a, insert-IsSorted k v m s)
  ]

  Above-trans : (i j : K) (m : OrdMap K V) → o.cmp i j ≡ Ordering.lt → Above j m → Above i m
  Above-trans i j [] h a = tt
  Above-trans i j ((k, w) ∷ m) h a = o.cmp_trans i j k h a

  -- A key below all others is not there.
  get_of_Above : (k : K) (m : OrdMap K V) → Above k m → get k m ≡ none
  unfolding get
  get_of_Above k [] a = refl
  get_of_Above k ((j, w) ∷ m) a = ground arith

  pub get-remove_self : (k : K) (m : OrdMap K V) → IsSorted m → get k (remove k m) ≡ none
  unfolding get remove
  get-remove_self k [] s = refl
  get-remove_self k ((j, w) ∷ m) (a, s) =
      ground (arith, get-remove_self k m s, get_of_Above k m, o.cmp_eq k j)

  pub get-remove_ne : (j k : K) (m : OrdMap K V) → IsSorted m → j ≢ k → get j (remove k m) ≡ get j m
  unfolding get remove
  get-remove_ne j k [] s h = refl
  get-remove_ne j k ((i, w) ∷ m) (a, s) h = ground (
    arith,
    get-remove_ne j k m s h,
    get_of_Above j m,
    Above-trans j i m,
    o.cmp_eq k i,
    o.cmp_eq j i,
  )

  -- Either the head goes, or it stays in front.
  remove_cases :
      (k j : K) (w : V) (m : OrdMap K V)
      → (remove k ((j, w) ∷ m) ≡ m)
        ⊎ ((rest : OrdMap K V) × (remove k ((j, w) ∷ m) ≡ (j, w) ∷ rest))
  unfolding remove
  remove_cases k j w m = ground arith

  Above-remove : (i k : K) (m : OrdMap K V) → IsSorted m → Above i m → Above i (remove k m)
  unfolding remove
  Above-remove i k [] s a = tt
  Above-remove i k ((j, w) ∷ m) (b, s) a = elim (remove_cases k j w m) [
    | inl e ↦ rw e (Above-trans i j m a b)
    | inr (rest, e) ↦ rw e a
  ]

  pub remove-IsSorted : (k : K) (m : OrdMap K V) → IsSorted m → IsSorted (remove k m)
  unfolding remove
  remove-IsSorted k [] s = tt
  remove-IsSorted k ((j, w) ∷ m) (a, s) = elim (Ordering-cases (o.cmp k j)) [
    | inl h ↦ rw (h, remove) (a, s)
    | inr (inl h) ↦ rw (h, remove) s
    | inr (inr h) ↦ rw (h, remove) (Above-remove j k m s a, remove-IsSorted k m s)
  ]
