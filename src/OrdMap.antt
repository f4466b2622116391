-- ===== src/OrdMap.antt =====
-- `std::collections::BTreeMap`: an association list in the order of its keys, which is the order
-- of `into_iter`. Also `slice::sort_by`, the stable sort.
pub mod Laws
pub mod Positions
pub mod Sorting
pub mod Permutations
use Prim.Native.Nat.{Ordering}
use elusive.Base.{Bool, true, false, Option, none, some, List, [], ◌∷◌, ◌≡◌}
use elusive.Base.Order.{Ord}

abbrev pub OrdMap {ℓ} : Type ℓ → Type ℓ → Type ℓ
OrdMap K V = List (K × V)

module _ {ℓ} {K V : Type ℓ} ⦃o : Ord K⦄ where
  unfoldable pub get : K → OrdMap K V → Option V
  get k [] = none
  get k ((j, v) ∷ m) = elim (o.cmp k j) [
    | Ordering.lt ↦ none
    | Ordering.eq ↦ some v
    | Ordering.gt ↦ get k m
  ]

  abbrev pub contains_key : K → OrdMap K V → Bool
  contains_key k m = elim (get k m) [ none ↦ false | some _ ↦ true ]

  unfoldable pub insert : K → V → OrdMap K V → OrdMap K V
  insert k v [] = (k, v) ∷ []
  insert k v ((j, w) ∷ m) = elim (o.cmp k j) [
    | Ordering.lt ↦ (k, v) ∷ (j, w) ∷ m
    | Ordering.eq ↦ (k, v) ∷ m
    | Ordering.gt ↦ (j, w) ∷ insert k v m
  ]

  unfoldable pub remove : K → OrdMap K V → OrdMap K V
  remove k [] = []
  remove k ((j, w) ∷ m) = elim (o.cmp k j) [
    | Ordering.lt ↦ (j, w) ∷ m
    | Ordering.eq ↦ m
    | Ordering.gt ↦ (j, w) ∷ remove k m
  ]

  -- Every key of the map lies above `k`.
  abbrev pub Above : K → OrdMap K V → Type 0
  Above k [] = Unit
  Above k ((j, _) ∷ _) = ◌≡◌ {A = Ordering} (o.cmp k j) Ordering.lt

  -- The keys rise strictly, as in every `BTreeMap`.
  abbrev pub IsSorted : OrdMap K V → Type 0
  IsSorted [] = Unit
  IsSorted ((j, _) ∷ m) = Above j m × IsSorted m

  -- `sort_by(|l, r| l.0.cmp(&r.0))` by insertion, which leaves equal keys in their order.
  unfoldable pub place : K → V → List (K × V) → List (K × V)
  place k v [] = (k, v) ∷ []
  place k v ((j, w) ∷ m) = elim (o.cmp k j) [
    | Ordering.gt ↦ (j, w) ∷ place k v m
    | _ ↦ (k, v) ∷ (j, w) ∷ m
  ]

  unfoldable pub sort_by_key : List (K × V) → List (K × V)
  unfolding place
  sort_by_key [] = []
  sort_by_key ((k, v) ∷ m) = place k v (sort_by_key m)
