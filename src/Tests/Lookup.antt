-- ===== src/Tests/Lookup.antt =====
-- Runs of the theorems on searches and on the headers of a binary.
use elusive.Base.{[], ◌∷◌, refl, codes, All, length, ◌==◌}
use elusive.Base.Order
use elusive.FilePath
use elusive.FilePath.{FilePath, root_dir, normal, join}
use elusive.Host.{Host}
use elusive.Search
use elusive.Search.{find_existing, search_paths}
use elusive.Elf
use elusive.Elf.{Scan, ProgramHeader, scan_headers, start, linked_libraries}
use elusive.Elf.Needed.{IsLibrary, linked_libraries-exist}
use elusive.Text
use elusive.Tests.Machine.{host, object}

abbrev usr_bin : FilePath
usr_bin = root_dir ∷ normal (codes "usr") ∷ normal (codes "bin") ∷ []

abbrev usr_local_bin : FilePath
usr_local_bin = root_dir ∷ normal (codes "usr") ∷ normal (codes "local") ∷ normal (codes "bin") ∷ []

abbrev name : FilePath
name = normal (codes "init") ∷ []

-- Only the paths of five components exist.
abbrev sparse : Host
sparse = record host { exists = λ p. length p == 5 }

abbrev scanned : Scan
scanned = record { strtab = 64; strsz = 8; offsets = 0 ∷ 0 ∷ [] }

abbrev libc : FilePath
libc = root_dir ∷ normal (codes "usr") ∷ normal (codes "lib") ∷ normal (codes "libc.so") ∷ []

linked_libraries-exist_example : All (IsLibrary host) (libc ∷ [])
unfolding linked_libraries scan_headers Elf.scan_dynamic Elf.scan_dyn Elf.find_table Elf.resolve
    Elf.find_library Elf.library_search_paths Search.paths search_paths find_existing FilePath.parse
    join Text.split Order.list_ord
linked_libraries-exist_example = linked_libraries-exist host object usr_bin (libc ∷ []) refl
