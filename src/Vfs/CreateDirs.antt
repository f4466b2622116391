-- ===== src/Vfs/CreateDirs.antt =====
-- `create_dir` on a list of paths, as the loop of `create_dir_all` calls it.
use mathlib.Core.Path.{subst}
use elusive.Base.{
  true, false, Option, none, some, ◌≡◌, refl, ◌≢◌, ok, arith, List, [], ◌∷◌, ◌++◌, All, inl, inr,
  All-map, sym, ◌∙◌, ◌⊎◌,
}
use elusive.FilePath.{FilePath, root_dir, path_ord, parent, prefixes}
use elusive.FilePath.Names.{parent-append}
use elusive.Vfs.{Vfs, lookup, contains, contains_file, create_dir, create_dirs}
use elusive.Vfs.CreateDir.{
  HoldsDir, ParentReady, create_dir-frame, create_dir-ok_iff, create_dir-HoldsDir,
  contains_file-create_dir, contains-create_dir, create_dir-HoldsDir_stable,
}

pub HoldsDir-contains : (v : Vfs) (q : FilePath) → HoldsDir (lookup v q) → contains v q ≡ true
unfolding contains
HoldsDir-contains v q h = ground arith

-- The state after a list of calls, by whether the first succeeds.
pub create_dirs_cons :
    (d : FilePath) (ds : List FilePath) (v : Vfs)
    → (create_dir d v).0 ≡ ok tt
    → create_dirs (d ∷ ds) v ≡ create_dirs ds (create_dir d v).1
unfolding create_dirs
create_dirs_cons d ds v h = rw h

pub create_dirs_cons_inv :
    (d : FilePath) (ds : List FilePath) (v : Vfs)
    → (create_dirs (d ∷ ds) v).0 ≡ ok tt
    → (create_dir d v).0 ≡ ok tt
unfolding create_dirs
create_dirs_cons_inv d ds v h = ground arith

-- Either the first call succeeds, or the list ends with it.
pub create_dirs_cons_cases :
    (d : FilePath) (ds : List FilePath) (v : Vfs)
    → ((create_dir d v).0 ≡ ok tt) ⊎ ((create_dirs (d ∷ ds) v).1 ≡ (create_dir d v).1)
unfolding create_dirs
create_dirs_cons_cases d ds v = ground arith

module _ (q : FilePath) where
  pub create_dirs-frame :
      (ds : List FilePath) (v : Vfs)
      → All (λ d. q ≢ d) ds
      → lookup (create_dirs ds v).1 q ≡ lookup v q
  unfolding create_dirs
  create_dirs-frame [] v h = refl
  create_dirs-frame (d ∷ ds) v (n, h) =
      ground (arith, create_dir-frame d q v n, create_dirs-frame ds (create_dir d v).1 h)

  pub contains_file-create_dirs :
      (ds : List FilePath) (v : Vfs) → contains_file (create_dirs ds v).1 q ≡ contains_file v q
  unfolding create_dirs
  contains_file-create_dirs [] v = refl
  contains_file-create_dirs (d ∷ ds) v =
      ground
        (arith, contains_file-create_dir d q v, contains_file-create_dirs ds (create_dir d v).1)

  pub contains-create_dirs :
      (ds : List FilePath) (v : Vfs) → contains v q ≡ true → contains (create_dirs ds v).1 q ≡ true
  unfolding create_dirs
  contains-create_dirs [] v h = h
  contains-create_dirs (d ∷ ds) v h =
      ground (arith, contains-create_dir d q v h, contains-create_dirs ds (create_dir d v).1)

  pub create_dirs-HoldsDir_stable :
      (ds : List FilePath) (v : Vfs)
      → HoldsDir (lookup v q)
      → HoldsDir (lookup (create_dirs ds v).1 q)
  create_dirs-HoldsDir_stable [] v h = unfold create_dirs in h
  create_dirs-HoldsDir_stable (d ∷ ds) v h = elim (create_dirs_cons_cases d ds v) [
    | inl done ↦
        rw (create_dirs_cons d ds v done)
          (create_dirs-HoldsDir_stable ds (create_dir d v).1 (create_dir-HoldsDir_stable d q v h))
    | inr last ↦ rw last (create_dir-HoldsDir_stable d q v h)
  ]

-- A call on a directory that is there, below one that is there, does nothing.
create_dir_again :
    (p : FilePath) (v : Vfs)
    → HoldsDir (lookup v p)
    → ParentReady v (parent p)
    → create_dir p v ≡ (ok tt, v)
unfolding create_dir
create_dir_again p v h r = ground arith

ParentReady-stable :
    (ds : List FilePath) (o : Option FilePath) (v : Vfs)
    → ParentReady v o
    → ParentReady (create_dirs ds v).1 o
ParentReady-stable ds none v r = tt
ParentReady-stable ds (some q) v r =
    (contains-create_dirs q ds v r.0, contains_file-create_dirs q ds v ∙ r.1)

ParentReady-create_dir :
    (p : FilePath) (o : Option FilePath) (v : Vfs)
    → ParentReady v o
    → ParentReady (create_dir p v).1 o
ParentReady-create_dir p none v r = tt
ParentReady-create_dir p (some q) v r =
    (contains-create_dir p q v r.0, contains_file-create_dir p q v ∙ r.1)

abbrev pub Settled : Vfs → FilePath → Type 0
Settled v d = HoldsDir (lookup v d) × ParentReady v (parent d)

pub create_dirs-Settled :
    (ds : List FilePath) (v : Vfs)
    → (create_dirs ds v).0 ≡ ok tt
    → All (Settled (create_dirs ds v).1) ds
create_dirs-Settled [] v h = tt
create_dirs-Settled (d ∷ ds) v h =
    let first = create_dirs_cons_inv d ds v h in
    let step = create_dirs_cons d ds v first in
    let after = (create_dir d v).1 in
    subst (λ r. All (Settled r.1) (d ∷ ds)) (sym step)
      (
        (
          create_dirs-HoldsDir_stable d ds after (create_dir-HoldsDir d v first),
          ParentReady-stable ds (parent d) after
              (ParentReady-create_dir d (parent d) v ((create_dir-ok_iff d v).0 first).0),
        ),
        create_dirs-Settled ds after (rw step at h),
      )

pub create_dirs_again :
    (ds : List FilePath) (v : Vfs) → All (Settled v) ds → create_dirs ds v ≡ (ok tt, v)
unfolding create_dirs
create_dirs_again [] v h = refl
create_dirs_again (d ∷ ds) v (s, h) =
    ground (arith, create_dir_again d v s.0 s.1, create_dirs_again ds v h)

-- Below a directory that is ready, the calls on its extensions fail only at a regular file.
pub create_dirs-prefixes :
    (front rest : FilePath) (v : Vfs)
    → ParentReady v (parent front)
    → All (λ c. c ≢ root_dir) rest
    → All (λ d. contains_file v d ≡ false) (prefixes front rest)
    → (create_dirs (prefixes front rest) v).0 ≡ ok tt
unfolding prefixes
create_dirs-prefixes front [] v r n f =
    rw (create_dirs_cons front [] v ((create_dir-ok_iff front v).1 (r, f.0)))
      (unfold create_dirs in refl)
create_dirs-prefixes front (c ∷ rest) v r n f =
    let made = (create_dir-ok_iff front v).1 (r, f.0) in
    rw (create_dirs_cons front (prefixes (front ++ (c ∷ [])) rest) v made) (
      create_dirs-prefixes (front ++ (c ∷ [])) rest (create_dir front v).1
        (rw (parent-append front c n.0) (
          HoldsDir-contains (create_dir front v).1 front (create_dir-HoldsDir front v made),
          contains_file-create_dir front front v ∙ f.0,
        ))
        n.1 (All-map (λ d e. contains_file-create_dir front d v ∙ e) _ f.1))

pub create_dirs_no_file :
    (ds : List FilePath) (v : Vfs)
    → (create_dirs ds v).0 ≡ ok tt
    → All (λ d. contains_file v d ≡ false) ds
create_dirs_no_file [] v h = tt
create_dirs_no_file (d ∷ ds) v h =
    let first = create_dirs_cons_inv d ds v h in
    (
      ((create_dir-ok_iff d v).0 first).1,
      All-map (λ e k. sym (contains_file-create_dir d e v) ∙ k) ds
          (create_dirs_no_file ds (create_dir d v).1 (rw (create_dirs_cons d ds v first) at h)),
    )
