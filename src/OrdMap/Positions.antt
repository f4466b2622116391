-- ===== src/OrdMap/Positions.antt =====
-- Where a key stands in a map: what is looked up below it is found in front of it.
use Prim.Native.Nat.{Ordering}
use elusive.Base.{some, [], ◌∷◌, ◌++◌, ◌≡◌, arith}
use elusive.Base.Order.{Ord}
use elusive.OrdMap.{OrdMap, get, Above, IsSorted}

module _ {ℓ} {K V : Type ℓ} ⦃o : Ord K⦄ where
  pub get_in_front :
      (d p : K) (e : V) (front back : OrdMap K V)
      → o.cmp d p ≡ Ordering.lt
      → get d (front ++ ((p, e) ∷ back)) ≡ get d front
  unfolding get
  get_in_front d p e [] back h = rw h
  get_in_front d p e ((j, w) ∷ front) back h = ground (arith, get_in_front d p e front back h)

  below_later :
      (j p : K) (e : V) (front back : OrdMap K V)
      → Above j (front ++ ((p, e) ∷ back))
      → IsSorted (front ++ ((p, e) ∷ back))
      → o.cmp j p ≡ Ordering.lt
  below_later j p e [] back a s = a
  below_later j p e ((i, w) ∷ front) back a (b, s) =
      o.cmp_trans j i p a (below_later i p e front back b s)

  pub get_at :
      (p : K) (e : V) (front back : OrdMap K V)
      → IsSorted (front ++ ((p, e) ∷ back))
      → get p (front ++ ((p, e) ∷ back)) ≡ some e
  unfolding get
  get_at p e [] back s = rw (o.cmp_refl p)
  get_at p e ((j, w) ∷ front) back (a, s) =
      ground (arith, get_at p e front back s, o.cmp_flip j p, below_later j p e front back a s)
