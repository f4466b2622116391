-- ===== src/Tests/Filesystem.antt =====
-- Runs of the theorems on the filesystem.
use elusive.Base.{false, [], ◌∷◌, ◌≡◌, ◌↔◌, refl, codes, ok, All}
use elusive.Base.Order
use elusive.Base.Order.{same}
use mathlib.Core.List.{reverse}
use elusive.FilePath
use elusive.FilePath.{FilePath, root_dir, normal, root, parent, path_ord, ancestors}
use elusive.OrdMap
use elusive.OrdMap.{contains_key, IsSorted}
use elusive.Entry
use elusive.Entry.{Entry}
use elusive.Vfs.{Vfs, lookup, contains_file, contains_dir, create_dir_all}
use elusive.Vfs.CreateAll.{create_dir_all-frame, lookup-create_dir_all_file, create_dir_all-ok_iff}

abbrev etc : FilePath
etc = root_dir ∷ normal (codes "etc") ∷ []

abbrev motd : FilePath
motd = root_dir ∷ normal (codes "etc") ∷ normal (codes "motd") ∷ []

abbrev conf : FilePath
conf = root_dir ∷ normal (codes "etc") ∷ normal (codes "motd.d") ∷ []

abbrev below_motd : FilePath
below_motd = root_dir ∷ normal (codes "etc") ∷ normal (codes "motd") ∷ normal (codes "x") ∷ []

abbrev hello : Entry
hello = Entry.file (codes "hello")

-- `/`, `/etc` and the file `/etc/motd`.
abbrev files : Vfs
files = record { inner = (root, Entry.directory) ∷ (etc, Entry.directory) ∷ (motd, hello) ∷ [] }

abbrev below_conf : FilePath
below_conf = root_dir ∷ normal (codes "etc") ∷ normal (codes "motd.d") ∷ normal (codes "d") ∷ []

create_dir_all-ok_iff_example :
    ((create_dir_all below_motd files).0 ≡ ok tt)
    ↔ All (λ d. contains_file files d ≡ false) (reverse (ancestors below_motd))
unfolding contains_dir path_ord Order.list_ord FilePath.component_ord OrdMap.get
create_dir_all-ok_iff_example =
    create_dir_all-ok_iff below_motd files ((λ e. cc), ((λ e. cc), ((λ e. cc), tt))) refl

create_dir_all-frame_example : lookup (create_dir_all below_conf files).1 motd ≡ lookup files motd
unfolding FilePath.prefixes
create_dir_all-frame_example =
    create_dir_all-frame below_conf motd files
      ((λ e. cc), ((λ e. cc), ((λ e. cc), ((λ e. cc), tt))))

lookup-create_dir_all_file_example :
    lookup (create_dir_all below_motd files).1 motd ≡ lookup files motd
unfolding contains_file path_ord Order.list_ord FilePath.component_ord OrdMap.get
lookup-create_dir_all_file_example = lookup-create_dir_all_file below_motd motd files refl
