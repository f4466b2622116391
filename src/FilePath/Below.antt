-- ===== src/FilePath/Below.antt =====
-- Paths and their parents in the order of paths.
use Prim.Native.Nat.{Ordering}
use elusive.Base.{◌≡◌, refl, some, [], ◌∷◌, arith}
use elusive.Base.Order.{list_ord}
use elusive.FilePath.{FilePath, root_dir, component_ord, path_ord, parent}

pub parent-lt : (p dir : FilePath) → parent p ≡ some dir → path_ord.cmp dir p ≡ Ordering.lt
unfolding parent path_ord
parent-lt [] dir h = cc
parent-lt (root_dir ∷ []) dir h = cc
parent-lt (c ∷ []) dir h = ground arith
parent-lt (c ∷ d ∷ p) [] h = refl
parent-lt (c ∷ d ∷ p) (b ∷ dir) h = ground (arith, parent-lt (d ∷ p) dir, component_ord.cmp_refl c)
