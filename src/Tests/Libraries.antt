-- ===== src/Tests/Libraries.antt =====
-- A binary with its library, on a machine that has just the two.
use elusive.Base.{
  Among, true, false, [], ◌∷◌, ◌≡◌, ◌≢◌, ◌||◌, ◌⊎◌, All, refl, inl, inr, Bool, Bool-cases, codes,
  ok, err, if◌then◌else◌, List, sym,
}
use mathlib.Core.Path.{subst}
use elusive.Base.Order
use elusive.Base.Order.{same, same-eq}
use elusive.Text
use elusive.FilePath
use elusive.FilePath.{FilePath, root_dir, normal, parent, path_ord}
use elusive.Host.{os_error}
use elusive.OrdMap
use elusive.Device
use elusive.Entry
use elusive.Elf
use elusive.Elf.{linked_libraries}
use elusive.Search
use elusive.Vfs
use elusive.Vfs.{Vfs, contains}
use elusive.Initramfs.{Env, add_elf, each}
use elusive.Initramfs.Binaries.{above}
use elusive.Initramfs.Libraries.{LeafFiles, itself, library, add_elf_complete}
use elusive.Tests.Machine.{env}

abbrev init : FilePath
init = root_dir ∷ normal (codes "init") ∷ []

abbrev libc : FilePath
libc = root_dir ∷ normal (codes "usr") ∷ normal (codes "lib") ∷ normal (codes "libc.so") ∷ []

abbrev known : FilePath → Bool
known p = same p init || same p libc

abbrev two_files : Env
two_files = record env {
  host = record env.host {
    exists = known;
    read = λ p. if known p then ok (codes "ELF") else err (os_error 21);
  };
}

known-cases : (p : FilePath) → known p ≡ true → (p ≡ init) ⊎ (p ≡ libc)
known-cases p h = elim (Bool-cases (same p init)) [
  | inl e ↦ inl (same-eq p init e)
  | inr n ↦ inr (same-eq p libc (rw n at h))
]

directories_fail :
    (q : FilePath) (needed : List FilePath)
    → known q ≡ false
    → linked_libraries two_files.host two_files.object q ≢ ok needed
unfolding linked_libraries
directories_fail q needed h e = cc (rw h at e)

all_unknown :
    (q : FilePath) (ds : List FilePath)
    → Among q ds
    → All (λ d. known d ≡ false) ds
    → known q ≡ false
all_unknown q [] m h = absurd m
all_unknown q (d ∷ ds) (inl e) (h, hs) = subst (λ x. known x ≡ false) (sym e) h
all_unknown q (d ∷ ds) (inr m) (h, hs) = all_unknown q ds m hs

above_unknown :
    (p : FilePath) → (p ≡ init) ⊎ (p ≡ libc) → All (λ d. known d ≡ false) (above (parent p))
unfolding parent FilePath.prefixes Order.list_ord path_ord
above_unknown p (inl e) =
    subst (λ x. All (λ d. known d ≡ false) (above (parent x))) (sym e) (refl, tt)
above_unknown p (inr e) =
    subst (λ x. All (λ d. known d ≡ false) (above (parent x))) (sym e) (refl, (refl, (refl, tt)))

leaves : LeafFiles two_files
leaves p q needed there m =
    directories_fail q needed
      (all_unknown q (above (parent p)) m (above_unknown p (known-cases p there)))

abbrev image : Vfs
image = (add_elf two_files 3 init Vfs.new).1

needs_libc : linked_libraries two_files.host two_files.object init ≡ ok (libc ∷ [])
unfolding linked_libraries Elf.scan_headers Elf.scan_dynamic Elf.scan_dyn Elf.find_table Elf.resolve
    Elf.find_library Elf.library_search_paths Search.paths Search.search_paths Search.find_existing
    FilePath.parse FilePath.join Text.split Order.list_ord path_ord
needs_libc = refl

added : add_elf two_files 3 init Vfs.new ≡ (ok tt, image)
unfolding add_elf linked_libraries Elf.scan_headers Elf.scan_dynamic Elf.scan_dyn Elf.find_table
    Elf.resolve Elf.find_library Elf.library_search_paths Search.paths Search.search_paths
    Search.find_existing FilePath.parse FilePath.join Text.split Order.list_ord path_ord each
    Vfs.create_dir Vfs.create_entry Vfs.create_dir_all Entry.try_from contains Vfs.contains_file
    Vfs.contains_dir Vfs.create_dirs parent FilePath.ancestors FilePath.prefixes
    FilePath.component_ord OrdMap.insert OrdMap.get Device.major Device.minor
added = refl

add_elf_complete_example : contains image libc ≡ true
unfolding path_ord
add_elf_complete_example =
    add_elf_complete two_files 3 init init libc Vfs.new image leaves refl added
      (library itself (unfold contains OrdMap.get in refl) (libc ∷ []) needs_libc libc (inl refl))
