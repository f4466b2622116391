-- ===== src/Vfs/CreateAll.antt =====
-- Vfs.create_dir_all of crates/elusive/src/vfs.rs: when it succeeds, and what it changes.
use mathlib.Core.Path.{subst}
use mathlib.Core.List.{reverse}
use elusive.Base.{
  true, false, ◌≡◌, ◌≢◌, ◌↔◌, ok, arith, List, [], ◌∷◌, All, Bool-cases, inl, inr, All-map, ap,
}
use elusive.FilePath.{
  FilePath, root_dir, cur_dir, parent_dir, normal, root, path_ord, parent, ancestors,
}
use elusive.FilePath.Prefixes.{from_top, from_top_last, IsProper, reverse-ancestors}
use elusive.Vfs.{Vfs, lookup, contains, contains_file, contains_dir, create_dirs, create_dir_all}
use elusive.Vfs.CreateDir.{HoldsDir}
use elusive.Vfs.Growth.{Grows-contains_file, create_dir_all-Grows}
use elusive.Vfs.CreateDirs.{
  create_dirs-frame, contains_file-create_dirs, contains-create_dirs, create_dirs-Settled,
  create_dirs_again, create_dirs-prefixes, create_dirs_no_file, Settled,
}

create_dirs_twice :
    (ds : List FilePath) (v w : Vfs) → create_dirs ds v ≡ (ok tt, w) → create_dirs ds w ≡ (ok tt, w)
create_dirs_twice ds v w h =
    create_dirs_again ds w
      (subst (λ r. All (Settled r.1) ds) h (create_dirs-Settled ds v (ap (λ r. r.0) h)))

-- a second call of create_dir_all, after one that succeeded, succeeds and changes nothing.
pub create_dir_all_again :
    (p : FilePath) (v w : Vfs) → create_dir_all p v ≡ (ok tt, w) → create_dir_all p w ≡ (ok tt, w)
unfolding create_dir_all
create_dir_all_again p v w h = elim (Bool-cases (contains_dir v p)) [
  | inl there ↦ ground arith
  | inr missing ↦ ground (arith, create_dirs_twice (reverse (ancestors p)) v w)
]

create_dirs_target :
    (p : FilePath) (v : Vfs)
    → (create_dirs (reverse (ancestors p)) v).0 ≡ ok tt
    → HoldsDir (lookup (create_dirs (reverse (ancestors p)) v).1 p)
create_dirs_target p v h = rw (reverse-ancestors p) (
    from_top_last (λ d. HoldsDir (lookup (create_dirs (from_top p) v).1 d)) p
      (All-map (λ d s. s.0) (from_top p)
        (create_dirs-Settled (from_top p) v (rw (reverse-ancestors p) at h))))

-- after create_dir_all has succeeded, the path holds a directory or a symlink.
pub create_dir_all-HoldsDir :
    (p : FilePath) (v : Vfs)
    → (create_dir_all p v).0 ≡ ok tt
    → HoldsDir (lookup (create_dir_all p v).1 p)
unfolding create_dir_all
create_dir_all-HoldsDir p v h = elim (Bool-cases (contains_dir v p)) [
  | inl there ↦ unfold contains_dir in ground arith
  | inr missing ↦ rw missing (create_dirs_target p v (rw missing at h))
]

-- create_dir_all, whatever its result, leaves alone every path that is not the path itself or one
-- of the directories above it.
pub create_dir_all-frame :
    (p q : FilePath) (v : Vfs)
    → All (λ d. q ≢ d) (from_top p)
    → lookup (create_dir_all p v).1 q ≡ lookup v q
unfolding create_dir_all
create_dir_all-frame p q v h =
    ground (arith, reverse-ancestors p, create_dirs-frame q (from_top p) v h)

contains_file-create_dir_all :
    (p q : FilePath) (v : Vfs) → contains_file (create_dir_all p v).1 q ≡ contains_file v q
unfolding create_dir_all
contains_file-create_dir_all p q v =
    ground (arith, contains_file-create_dirs q (reverse (ancestors p)) v)

pub contains-create_dir_all :
    (p q : FilePath) (v : Vfs) → contains v q ≡ true → contains (create_dir_all p v).1 q ≡ true
unfolding create_dir_all
contains-create_dir_all p q v h = ground (arith, contains-create_dirs q (reverse (ancestors p)) v h)

create_dirs-from_top :
    (p : FilePath) (v : Vfs)
    → IsProper p
    → All (λ d. contains_file v d ≡ false) (from_top p)
    → (create_dirs (from_top p) v).0 ≡ ok tt
create_dirs-from_top [] v n f = create_dirs-prefixes [] [] v (unfold parent in tt) n f
create_dirs-from_top (root_dir ∷ p) v n f = create_dirs-prefixes root p v (unfold parent in tt) n f
create_dirs-from_top (cur_dir ∷ p) v n f =
    create_dirs-prefixes [] (cur_dir ∷ p) v (unfold parent in tt) n f
create_dirs-from_top (parent_dir ∷ p) v n f =
    create_dirs-prefixes [] (parent_dir ∷ p) v (unfold parent in tt) n f
create_dirs-from_top (normal a ∷ p) v n f =
    create_dirs-prefixes [] (normal a ∷ p) v (unfold parent in tt) n f

-- where the path holds no entry of the directories' mode 0o040755 and the root stands at most in
-- front of it, create_dir_all succeeds exactly if none of its ancestors, the path included, holds
-- an entry of the mode 0o100644, which is the one mode that counts as a regular file.
pub create_dir_all-ok_iff :
    (p : FilePath) (v : Vfs)
    → IsProper p
    → contains_dir v p ≡ false
    → ((create_dir_all p v).0 ≡ ok tt)
      ↔ All (λ d. contains_file v d ≡ false) (reverse (ancestors p))
unfolding create_dir_all
create_dir_all-ok_iff p v n missing =
    rw (missing, reverse-ancestors p)
      (λ h. create_dirs_no_file (from_top p) v h, λ f. create_dirs-from_top p v n f)

-- an entry of the mode 0o100644, the one mode that counts as a regular file, is after
-- create_dir_all the entry that it was, whatever the result, also on the way to the path.
pub lookup-create_dir_all_file :
    (p q : FilePath) (v : Vfs)
    → contains_file v q ≡ true
    → lookup (create_dir_all p v).1 q ≡ lookup v q
lookup-create_dir_all_file p q v h = Grows-contains_file q (create_dir_all-Grows p v) h
