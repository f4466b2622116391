-- ===== src/Initramfs/Links.antt =====
-- Initramfs.add_symlink of crates/elusive/src/initramfs.rs.
use elusive.Base.{Bytes, true, false, ok, ◌≡◌, refl, ◌↔◌, ◌>>◌, Bool-cases, inl, inr}
use elusive.FilePath.{parse, FilePath, parent}
use elusive.Entry
use elusive.Vfs.{Vfs, contains, create_entry}
use elusive.Initramfs.{on_vfs, create_parent, add_symlink}
use elusive.Initramfs.Files.{Establishes, continue-Establishes, create_entry-Establishes}

link-Establishes :
    (p : FilePath) (target : Bytes)
    → Establishes p (create_parent (parent p) >> on_vfs (create_entry p (Entry.symlink target)))
link-Establishes p target v h =
    continue-Establishes p (create_parent (parent p) v).0 _ (create_parent (parent p) v).1
      (λ _. create_entry-Establishes p (Entry.symlink target)) h

-- a call of add_symlink that succeeds, on a path that was not there, has put the path exactly if
-- the filesystem did not hold the target: a link to something that is there is left out.
pub add_symlink-added_iff :
    (p : FilePath) (target : Bytes) (v : Vfs)
    → contains v p ≡ false
    → (add_symlink p target v).0 ≡ ok tt
    → (contains (add_symlink p target v).1 p ≡ true) ↔ (contains v (parse target) ≡ false)
unfolding add_symlink
add_symlink-added_iff p target v free h = elim (Bool-cases (contains v (parse target))) [
  | inl held ↦ rw held ((λ e. cc), (λ e. cc))
  | inr absent ↦ rw absent ((λ _. refl), (λ _. link-Establishes p target v (rw absent at h)))
]
