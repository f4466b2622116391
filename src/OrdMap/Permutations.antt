-- ===== src/OrdMap/Permutations.antt =====
-- Sorting by keys forgets the order that the items come in.
use mathlib.Core.List.{Perm, Pairwise, Mem, Permᴰ, mem-cons_self, forall_mem-cons, not-mem-nil}
use mathlib.Core.List.Permᴰ
use mathlib.Core.Logic.{∥∥₁_elim}
use elusive.Base.{List, [], ◌∷◌, ◌≡◌, ◌≢◌, refl, sym, ap, ◌∙◌, All, arith}
use elusive.Base.Order.{Ord}
use elusive.OrdMap.{place, sort_by_key}

module _ {ℓ} {K V : Type ℓ} ⦃o : Ord K⦄ where
  -- No key stands twice.
  abbrev pub DistinctKeys : List (K × V) → Type ℓ
  DistinctKeys = Pairwise (λ x y. x.0 ≢ y.0)

  place-place :
      (k : K) (v : V) (j : K) (w : V) (m : List (K × V))
      → k ≢ j
      → place k v (place j w m) ≡ place j w (place k v m)
  unfolding place
  place-place k v j w [] n = ground (arith, o.cmp_flip k j, o.cmp_eq k j)
  place-place k v j w ((i, u) ∷ m) n = ground (
    arith,
    o.cmp_flip k j,
    o.cmp_flip j i,
    o.cmp_flip k i,
    o.cmp_eq k j,
    o.cmp_eq k i,
    o.cmp_eq j i,
    o.cmp_trans k j i,
    o.cmp_trans j k i,
    o.cmp_trans k i j,
    o.cmp_trans j i k,
    place-place k v j w m n,
  )

  sort_by_key-swap :
      (x y : K × V) (m : List (K × V))
      → DistinctKeys (x ∷ y ∷ m)
      → sort_by_key (x ∷ y ∷ m) ≡ sort_by_key (y ∷ x ∷ m)
  unfolding sort_by_key
  sort_by_key-swap x y m (Pairwise.cons h d) =
      place-place x.0 x.1 y.0 y.1 (sort_by_key m) (h y mem-cons_self)

  sort_by_key-Permᴰ :
      {l m : List (K × V)} → Permᴰ l m → DistinctKeys l → sort_by_key l ≡ sort_by_key m
  unfolding sort_by_key
  sort_by_key-Permᴰ Permᴰ.nil d = refl
  sort_by_key-Permᴰ (Permᴰ.cons {b = b} {l₁ = l} e p) (Pairwise.cons _ d) =
      ap (λ (x : K × V). sort_by_key (x ∷ l)) e ∙ ap (place b.0 b.1) (sort_by_key-Permᴰ p d)
  sort_by_key-Permᴰ (Permᴰ.swap {a} {b} {a' = a'} {b' = b'} {l = l} e f) d =
      sort_by_key-swap a b l d
      ∙ ap (λ (x : K × V). sort_by_key (x ∷ a ∷ l)) f
      ∙ ap (λ (x : K × V). sort_by_key (a' ∷ x ∷ l)) e
  sort_by_key-Permᴰ (Permᴰ.trans p q) d =
      sort_by_key-Permᴰ p d
      ∙ sort_by_key-Permᴰ q (
          Permᴰ.pairwise {R = λ (x y : K × V). x.0 ≢ y.0} (λ a b. hlevel) (λ x y n e. n (sym e)) p
            d)

  pub sort_by_key-perm :
      IsSet (List (K × V))
      → {l m : List (K × V)} → Perm l m
      → DistinctKeys l
      → sort_by_key l ≡ sort_by_key m
  sort_by_key-perm s {l} {m} p d =
      ∥∥₁_elim p (s (sort_by_key l) (sort_by_key m)) (λ π. sort_by_key-Permᴰ π d)

  apart-Mem :
      (k : K) (m : List (K × V)) → All (λ (y : K × V). k ≢ y.0) m → (x : K × V) → Mem x m → k ≢ x.0
  apart-Mem k [] h = λ x i. absurd (not-mem-nil i)
  apart-Mem k (y ∷ m) (h, hs) =
      (forall_mem-cons {p = λ (x : K × V). k ≢ x.0} (λ x. hlevel)).1 (h, apart-Mem k m hs)

  pub DistinctKeys-cons :
      (x : K × V) (m : List (K × V))
      → All (λ (y : K × V). x.0 ≢ y.0) m
      → DistinctKeys m
      → DistinctKeys (x ∷ m)
  DistinctKeys-cons x m h d = Pairwise.cons (apart-Mem x.0 m h) d
