-- ===== src/Vfs.antt =====
-- crates/elusive/src/vfs.rs: the virtual filesystem that an archive is made from.
pub mod CreateDir
pub mod CreateDirs
pub mod CreateAll
pub mod CreateEntry
pub mod Growth
pub mod Order
use mathlib.Core.List.{reverse}
use elusive.Base.{
  ℕ, Bool, true, false, not, ◌||◌, Option, none, some, List, [], ◌∷◌, if◌then◌else◌, ok, Exec, pure,
  throw, ◌>>=◌, ◌>>◌,
}
use elusive.FilePath.{FilePath, root, parent, ancestors, path_ord}
use elusive.OrdMap.{OrdMap, get, insert, contains_key}
use elusive.Entry
use elusive.Entry.{Entry}

pub data VfsError : Type 0 where
  no_such_file_or_directory : FilePath → VfsError
  not_a_directory : FilePath → VfsError
  file_exists : FilePath → VfsError

pub record Vfs : Type 0 where
  pub inner : OrdMap FilePath Entry

-- `Vfs::new` and `Vfs::default`
abbrev pub new : Vfs
new = record { inner = (root, Entry.directory) ∷ [] }

abbrev pub lookup : Vfs → FilePath → Option Entry
lookup v p = get p v.inner

unfoldable pub contains : Vfs → FilePath → Bool
contains v p = contains_key p v.inner

unfoldable pub contains_dir : Vfs → FilePath → Bool
contains_dir v p = elim (get p v.inner) [ some entry ↦ Entry.is_dir entry | none ↦ false ]

unfoldable pub contains_file : Vfs → FilePath → Bool
contains_file v p = elim (get p v.inner) [ some entry ↦ Entry.is_file entry | none ↦ false ]

abbrev pub put : FilePath → Entry → Vfs → Vfs
put p entry v = record { inner = insert p entry v.inner }

-- The test of `create_dir` on the parent.
abbrev pub check_parent : Option FilePath → Exec Vfs VfsError Unit
check_parent none v = pure tt v
check_parent (some dir) v =
    if not (contains v dir)
    then throw (no_such_file_or_directory dir) v
    else if contains_file v dir
    then throw (not_a_directory dir) v
    else pure tt v

-- The rest of `create_dir`, by what the path holds already.
abbrev pub make_dir : FilePath → Option Entry → Exec Vfs VfsError Unit
make_dir p none v = (ok tt, put p Entry.directory v)
make_dir p (some entry) v =
    if Entry.is_dir entry || Entry.is_symlink entry
    then pure tt v
    else if Entry.is_file entry
    then throw (file_exists p) v
    else (ok tt, put p Entry.directory v)

unfoldable pub create_dir : FilePath → Exec Vfs VfsError Unit
unfolding contains contains_file
create_dir p = do check_parent (parent p); λ v. make_dir p (lookup v p) v

-- `for dir in … { self.create_dir(dir)?; }`
unfoldable pub create_dirs : List FilePath → Exec Vfs VfsError Unit
create_dirs [] = pure tt
create_dirs (dir ∷ dirs) = create_dir dir >> create_dirs dirs

unfoldable pub create_dir_all : FilePath → Exec Vfs VfsError Unit
unfolding contains_dir
create_dir_all p v = if contains_dir v p then pure tt v else create_dirs (reverse (ancestors p)) v

unfoldable pub create_entry : FilePath → Entry → Exec Vfs VfsError Unit
unfolding contains_file
create_entry p entry v =
    if contains_file v p then throw (file_exists p) v else (ok tt, put p entry v)

-- `into_iter`: the entries in the order of their paths.
abbrev pub into_iter : Vfs → List (FilePath × Entry)
into_iter v = v.inner
