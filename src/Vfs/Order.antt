-- ===== src/Vfs/Order.antt =====
-- The order in which a filesystem is written out.
use mathlib.Core.Path.{subst}
use elusive.Base.{true, some, List, ◌∷◌, ◌++◌, ◌≡◌, arith}
use elusive.FilePath.{FilePath, path_ord, parent}
use elusive.FilePath.Below.{parent-lt}
use elusive.OrdMap.{contains_key, IsSorted}
use elusive.OrdMap.Positions.{get_in_front, get_at}
use elusive.Entry.{Entry}
use elusive.Vfs.{Vfs, contains, into_iter}
use elusive.Vfs.Growth.{IsTree}

-- in the list of a sorted filesystem where every path lies in a directory that is there, the
-- directory of an entry stands in front of the entry.
pub into_iter-parent_first :
    (v : Vfs) (front back : List (FilePath × Entry)) (p dir : FilePath) (entry : Entry)
    → IsTree v
    → IsSorted v.inner
    → into_iter v ≡ front ++ ((p, entry) ∷ back)
    → parent p ≡ some dir
    → contains_key dir front ≡ true
unfolding contains
into_iter-parent_first v front back p dir entry t s e h =
    ground (arith, t p dir here h, get_in_front dir p entry front back (parent-lt p dir h))
  where
    here : contains v p ≡ true
    here = ground (arith, get_at p entry front back (subst IsSorted e s))
