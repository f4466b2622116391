-- ===== src/OrdMap/Sorting.antt =====
-- Sorting by keys, as Archive.serialize does.
use elusive.Base.{[], ◌∷◌, ◌≡◌, refl, ap, ◌∙◌, suc, inl, inr, All, length, arith}
use elusive.Base.Order.{Ord, Ordering-cases}
use elusive.OrdMap.{OrdMap, Above, IsSorted, place, sort_by_key}

module _ {ℓ} {K V : Type ℓ} ⦃o : Ord K⦄ where
  place_of_Above : (k : K) (v : V) (m : OrdMap K V) → Above k m → place k v m ≡ (k, v) ∷ m
  unfolding place
  place_of_Above k v [] a = refl
  place_of_Above k v ((j, w) ∷ m) a = ground arith

  place-All {κ} :
      (P : K × V → Type κ) (k : K) (v : V) (m : OrdMap K V)
      → P (k, v)
      → All P m
      → All P (place k v m)
  unfolding place
  place-All P k v [] h hs = (h, tt)
  place-All P k v ((j, w) ∷ m) h (g, gs) = elim (Ordering-cases (o.cmp k j)) [
    | inl e ↦ rw (e, place) (h, (g, gs))
    | inr (inl e) ↦ rw (e, place) (h, (g, gs))
    | inr (inr e) ↦ rw (e, place) (g, place-All P k v m h gs)
  ]

  -- Sorting keeps what holds of every item.
  pub sort_by_key-All {κ} : (P : K × V → Type κ) (m : OrdMap K V) → All P m → All P (sort_by_key m)
  unfolding sort_by_key
  sort_by_key-All P [] h = tt
  sort_by_key-All P ((k, v) ∷ m) (h, hs) =
      place-All P k v (sort_by_key m) h (sort_by_key-All P m hs)

  length-place : (k : K) (v : V) (m : OrdMap K V) → length (place k v m) ≡ suc (length m)
  unfolding place
  length-place k v [] = refl
  length-place k v ((j, w) ∷ m) = ground (arith, length-place k v m)

  pub length-sort_by_key : (m : OrdMap K V) → length (sort_by_key m) ≡ length m
  unfolding sort_by_key
  length-sort_by_key [] = refl
  length-sort_by_key ((k, v) ∷ m) = length-place k v (sort_by_key m) ∙ ap suc (length-sort_by_key m)

  pub sort_by_key_of_sorted : (m : OrdMap K V) → IsSorted m → sort_by_key m ≡ m
  unfolding sort_by_key
  sort_by_key_of_sorted [] s = refl
  sort_by_key_of_sorted ((k, v) ∷ m) (a, s) =
      rw (sort_by_key_of_sorted m s) (place_of_Above k v m a)
