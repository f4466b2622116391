-- ===== src/Vfs/CreateDir.antt =====
-- `create_dir` and `create_entry`: when they succeed, and what they change.
use elusive.Base.{true, false, ◌||◌, Option, none, some, ◌≡◌, ◌≢◌, ◌↔◌, ◌⊎◌, ok, err, arith}
use elusive.FilePath.{FilePath, path_ord, parent}
use elusive.OrdMap.Laws.{get-insert, get-insert_self, get-insert_ne}
use elusive.Entry
use elusive.Entry.{Entry}
use elusive.Vfs.{put, Vfs, VfsError, lookup, contains, contains_file, make_dir, create_dir}

-- The path holds a directory, or a symlink that the code takes for one.
abbrev pub HoldsDir : Option Entry → Type 0
HoldsDir none = ⊥
HoldsDir (some entry) = (Entry.is_dir entry || Entry.is_symlink entry) ≡ true

-- What `create_dir` asks of the parent.
abbrev pub ParentReady : Vfs → Option FilePath → Type 0
ParentReady v none = Unit
ParentReady v (some dir) = (contains v dir ≡ true) × (contains_file v dir ≡ false)

make_dir-frame :
    (p q : FilePath) (old : Option Entry) (v : Vfs)
    → q ≢ p
    → lookup (make_dir p old v).1 q ≡ lookup v q
make_dir-frame p q none v h = get-insert_ne q p Entry.directory v.inner h
make_dir-frame p q (some entry) v h = ground (arith, get-insert_ne q p Entry.directory v.inner h)

-- create_dir, whatever its result, leaves alone every path but its own.
pub create_dir-frame : (p q : FilePath) (v : Vfs) → q ≢ p → lookup (create_dir p v).1 q ≡ lookup v q
unfolding create_dir
create_dir-frame p q v h = ground (arith, make_dir-frame p q (lookup v p) v h)

-- a call of create_dir that returns an error has changed nothing.
pub create_dir-err :
    (p : FilePath) (v : Vfs) {e : VfsError} → (create_dir p v).0 ≡ err e → (create_dir p v).1 ≡ v
unfolding create_dir
create_dir-err p v h = ground arith

-- create_dir succeeds exactly if the parent, where the path has one, is there and is not a regular
-- file, and the path itself is not a regular file.
pub create_dir-ok_iff :
    (p : FilePath) (v : Vfs)
    → ((create_dir p v).0 ≡ ok tt) ↔ (ParentReady v (parent p) × (contains_file v p ≡ false))
unfolding create_dir
create_dir-ok_iff p v = ground arith

-- after create_dir has succeeded, the path holds a directory or a symlink.
pub create_dir-HoldsDir :
    (p : FilePath) (v : Vfs) → (create_dir p v).0 ≡ ok tt → HoldsDir (lookup (create_dir p v).1 p)
unfolding create_dir
create_dir-HoldsDir p v h = ground (arith, get-insert_self p Entry.directory v.inner)

-- No call makes a regular file, or replaces one.
pub contains_file-create_dir :
    (p q : FilePath) (v : Vfs) → contains_file (create_dir p v).1 q ≡ contains_file v q
unfolding create_dir
contains_file-create_dir p q v =
    ground (arith, get-insert q p Entry.directory v.inner, path_ord.cmp_eq q p)

-- No call takes a path away.
pub contains-create_dir :
    (p q : FilePath) (v : Vfs) → contains v q ≡ true → contains (create_dir p v).1 q ≡ true
unfolding create_dir
contains-create_dir p q v h =
    ground (arith, get-insert q p Entry.directory v.inner, path_ord.cmp_eq q p)

-- What is there afterwards was there before, or is the new directory.
pub contains-create_dir_inv :
    (p q : FilePath) (v : Vfs) → contains (create_dir p v).1 q ≡ true → q ≢ p → contains v q ≡ true
unfolding contains
contains-create_dir_inv p q v h n = ground (arith, create_dir-frame p q v n)

pub create_dir-HoldsDir_stable :
    (p q : FilePath) (v : Vfs) → HoldsDir (lookup v q) → HoldsDir (lookup (create_dir p v).1 q)
unfolding create_dir
create_dir-HoldsDir_stable p q v h =
    ground (arith, get-insert q p Entry.directory v.inner, path_ord.cmp_eq q p)

-- Either nothing changes, or the new directory is put below a parent that is there.
pub create_dir_cases :
    (p : FilePath) (v : Vfs)
    → ((create_dir p v).1 ≡ v)
      ⊎ (((create_dir p v).1 ≡ put p Entry.directory v)
          × (contains_file v p ≡ false)
          × ParentReady v (parent p))
unfolding create_dir
create_dir_cases p v = ground arith
