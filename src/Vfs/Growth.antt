-- ===== src/Vfs/Growth.antt =====
-- crates/elusive/src/vfs.rs: the relation between a filesystem and one that has grown from it,
-- entry by entry.
use elusive.Base.{
  true, false, Option, none, some, ◌≡◌, ◌≢◌, refl, sym, arith, List, [], ◌∷◌, inl, inr, Bool-cases,
  ap, ◌∙◌,
}
use mathlib.Core.Path.{subst}
use mathlib.Core.List.{reverse}
use elusive.Base.Order.{eq_cases}
use elusive.FilePath.{FilePath, path_ord, parent, ancestors}
use elusive.OrdMap.{IsSorted}
use elusive.OrdMap.Laws.{get-insert, insert-IsSorted}
use elusive.Entry
use elusive.Entry.{Entry}
use elusive.Vfs.CreateDir.{ParentReady, create_dir_cases}
use elusive.Vfs.CreateDirs.{create_dirs_cons, create_dirs_cons_cases}
use elusive.Vfs.{
  Vfs, lookup, contains, contains_file, contains_dir, put, create_dir, create_dirs, create_dir_all,
  create_entry,
}

abbrev pub ParentThere : Vfs → Option FilePath → Type 0
ParentThere v none = Unit
ParentThere v (some dir) = contains v dir ≡ true

pub data Grows (v : Vfs) : Vfs → Type 0 where
  here : Grows v v
  next :
      {w : Vfs}
      → Grows v w
      → (p : FilePath) (entry : Entry) → contains_file w p ≡ false
      → ParentThere w (parent p)
      → Grows v (put p entry w)

pub Grows-trans : {u v w : Vfs} → Grows u v → Grows v w → Grows u w
Grows-trans g here = g
Grows-trans g (next h p entry f r) = next (Grows-trans g h) p entry f r

ParentThere-of_ready : (v : Vfs) (o : Option FilePath) → ParentReady v o → ParentThere v o
ParentThere-of_ready v none r = tt
ParentThere-of_ready v (some dir) r = r.0

pub create_dir-Grows : (p : FilePath) (v : Vfs) → Grows v (create_dir p v).1
create_dir-Grows p v = elim (create_dir_cases p v) [
  | inl e ↦ rw e here
  | inr (e, f, r) ↦ rw e (next here p Entry.directory f (ParentThere-of_ready v (parent p) r))
]

create_dirs-Grows : (ds : List FilePath) (v : Vfs) → Grows v (create_dirs ds v).1
create_dirs-Grows [] v = unfold create_dirs in here
create_dirs-Grows (d ∷ ds) v = elim (create_dirs_cons_cases d ds v) [
  | inl done ↦
      rw (create_dirs_cons d ds v done)
        (Grows-trans (create_dir-Grows d v) (create_dirs-Grows ds (create_dir d v).1))
  | inr last ↦ rw last (create_dir-Grows d v)
]

-- create_dir_all, whatever its result, only adds entries, each below a directory that is there and
-- none over a regular file.
pub create_dir_all-Grows : (p : FilePath) (v : Vfs) → Grows v (create_dir_all p v).1
unfolding create_dir_all
create_dir_all-Grows p v = elim (Bool-cases (contains_dir v p)) [
  | inl there ↦ rw (there, create_dir_all) here
  | inr missing ↦ rw (missing, create_dir_all) (create_dirs-Grows (reverse (ancestors p)) v)
]

pub create_entry-Grows :
    (p : FilePath) (entry : Entry) (v : Vfs)
    → ParentThere v (parent p)
    → Grows v (create_entry p entry v).1
unfolding create_entry
create_entry-Grows p entry v r = elim (Bool-cases (contains_file v p)) [
  | inl there ↦ rw (there, create_entry) here
  | inr free ↦ rw (free, create_entry) (next here p entry free r)
]

pub contains-put :
    (p q : FilePath) (entry : Entry) (v : Vfs)
    → contains v q ≡ true
    → contains (put p entry v) q ≡ true
unfolding contains
contains-put p q entry v h = ground (arith, get-insert q p entry v.inner)

pub contains-put_self : (p : FilePath) (entry : Entry) (v : Vfs) → contains (put p entry v) p ≡ true
unfolding contains
contains-put_self p entry v = ground (arith, get-insert p p entry v.inner, path_ord.cmp_refl p)

pub contains-put_inv :
    (p q : FilePath) (entry : Entry) (v : Vfs)
    → q ≢ p
    → contains (put p entry v) q ≡ true
    → contains v q ≡ true
unfolding contains
contains-put_inv p q entry v n h = ground (arith, get-insert q p entry v.inner, path_ord.cmp_eq q p)

-- No path is taken away.
pub Grows-contains :
    {v w : Vfs} (q : FilePath) → Grows v w → contains v q ≡ true → contains w q ≡ true
Grows-contains q here h = h
Grows-contains q (next g p entry f r) h = contains-put p q entry _ (Grows-contains q g h)

-- A regular file keeps its metadata and its data.
pub Grows-contains_file :
    {v w : Vfs} (q : FilePath) → Grows v w → contains_file v q ≡ true → lookup w q ≡ lookup v q
unfolding contains_file
Grows-contains_file q here h = refl
Grows-contains_file q (next {w} g p entry f r) h =
    ground (arith, Grows-contains_file q g h, get-insert q p entry w.inner, path_ord.cmp_eq q p)

-- The keys stay in order.
pub Grows-IsSorted : {v w : Vfs} → Grows v w → IsSorted v.inner → IsSorted w.inner
Grows-IsSorted here s = s
Grows-IsSorted (next g p entry f r) s = insert-IsSorted p entry _ (Grows-IsSorted g s)

-- Every path lies in a directory that is there.
abbrev pub IsTree : Vfs → Type 0
IsTree v = (p dir : FilePath) → contains v p ≡ true → parent p ≡ some dir → contains v dir ≡ true

put-IsTree :
    (q : FilePath) (entry : Entry) (v : Vfs)
    → ParentThere v (parent q)
    → IsTree v
    → IsTree (put q entry v)
put-IsTree q entry v r t p dir h e = contains-put q dir entry v (elim (eq_cases p q) [
  | inl same ↦ subst (ParentThere v) (ap parent (sym same) ∙ e) r
  | inr other ↦ t p dir (contains-put_inv q p entry v other h) e
])

pub Grows-IsTree : {v w : Vfs} → Grows v w → IsTree v → IsTree w
Grows-IsTree here t = t
Grows-IsTree (next g p entry f r) t = put-IsTree p entry _ r (Grows-IsTree g t)
