-- ===== src/Elf.antt =====
-- crates/elusive/src/elf.rs: finding binaries and libraries, and the libraries that a binary needs.
-- The `object` crate, which takes the file apart, is a parameter.
pub mod Dynamic
pub mod Needed
use elusive.Base.{
  ℕ, ◌^◌, Bool, Option, none, some, List, [], ◌∷◌, ◌++◌, Bytes, ltb, ◌==◌, if◌then◌else◌, Result,
  ok, err, panic, and_then, map_ok, map_err, ok_or, expect,
}
use elusive.FilePath.{FilePath, parse}
use elusive.Host.{Host, IoError}
use elusive.Search.{search_paths, paths}

-- `object::Error`
pub data ObjectError : Type 0 where
  object_error : ℕ → ObjectError

pub data FileKind : Type 0 where
  elf64 : FileKind
  other_kind : ℕ → FileKind

-- An entry of a dynamic section, as `d_tag` and `d_val` read it.
pub record Dyn : Type 0 where
  pub tag : ℕ
  pub val : ℕ

-- A program header: its type, its dynamic section and the data behind a range of addresses.
pub record ProgramHeader : Type 0 where
  pub p_type : ℕ
  pub dynamic : Result ObjectError (Option (List Dyn))
  pub data_range : ℕ → ℕ → Result ObjectError (Option Bytes)

-- What the program uses of the `object` crate. `program_headers` stands for the three calls that
-- parse the header, its byte order and the table; `string_at` is `StringTable::get`.
pub record ObjectLib : Type 0 where
  pub kind : Bytes → Result ObjectError FileKind
  pub program_headers : Bytes → Result ObjectError (List ProgramHeader)
  pub string_at : Bytes → ℕ → Option Bytes

abbrev pub pt_dynamic : ℕ
pt_dynamic = 2

abbrev pub dt_needed : ℕ
dt_needed = 1

abbrev pub dt_strtab : ℕ
dt_strtab = 5

abbrev pub dt_strsz : ℕ
dt_strsz = 10

-- `BINARY_SEARCH_PATHS`
unfoldable pub binary_search_paths : List FilePath
unfolding paths
binary_search_paths = paths (
    "/usr/bin/" ∷ "/usr/sbin/" ∷ "/usr/local/bin/" ∷ "/usr/local/sbin/" ∷ "/usr/lib/systemd/"
    ∷ "/usr/lib/systemd/system-generators/" ∷ "/bin/" ∷ "/sbin/" ∷ [])

-- `LIBRARY_SEARCH_PATHS`
unfoldable pub library_search_paths : List FilePath
unfolding paths
library_search_paths = paths (
    "/usr/lib/" ∷ "/usr/lib64/" ∷ "/usr/lib/systemd/" ∷ "/usr/lib64/systemd/" ∷ "/lib/" ∷ "/lib64"
    ∷ [])

pub data ElfError : Type 0 where
  input_output : IoError → ElfError
  parsing : ObjectError → ElfError
  not_64_bit_elf : ElfError
  binary_not_found : FilePath → ElfError
  library_not_found : FilePath → ElfError

unfoldable pub find_binary : Host → FilePath → Result ElfError FilePath
unfolding search_paths binary_search_paths
find_binary h name = ok_or (search_paths h name binary_search_paths) (binary_not_found name)

unfoldable pub find_library : Host → FilePath → Result ElfError FilePath
find_library h name = ok_or (search_paths h name library_search_paths) (library_not_found name)

-- The variables of the loop over the headers.
pub record Scan : Type 0 where
  pub strtab : ℕ
  pub strsz : ℕ
  pub offsets : List ℕ

unfoldable pub scan_dyn : Scan → Dyn → Scan
scan_dyn s d =
    if d.tag == dt_strtab
    then record s { strtab = d.val }
    else if d.tag == dt_strsz
    then record s { strsz = d.val }
    else if d.tag == dt_needed
    then record s { offsets = s.offsets ++ (d.val ∷ []) }
    else s

unfoldable pub scan_dynamic : Scan → List Dyn → Scan
scan_dynamic s [] = s
scan_dynamic s (d ∷ ds) = scan_dynamic (scan_dyn s d) ds

abbrev pub scan_optional : Scan → Option (List Dyn) → Scan
scan_optional s none = s
scan_optional s (some ds) = scan_dynamic s ds

-- `for header in headers`
unfoldable pub scan_headers : Scan → List ProgramHeader → Result ElfError Scan
scan_headers s [] = ok s
scan_headers s (header ∷ headers) =
    let skip = scan_headers s headers in
    let enter =
      and_then (map_err parsing header.dynamic)
        λ dynamic. scan_headers (scan_optional s dynamic) headers in
    if header.p_type == pt_dynamic then enter else skip

-- The first range of data that some header has for the table's addresses.
unfoldable pub find_table : ℕ → ℕ → List ProgramHeader → Option Bytes
find_table strtab strsz [] = none
find_table strtab strsz (header ∷ headers) = elim (header.data_range strtab strsz) [
  | ok (some range) ↦ some range
  | _ ↦ find_table strtab strsz headers
]

-- The library at one offset of the string table.
abbrev pub library_at : Host → ObjectLib → Bytes → ℕ → Result ElfError FilePath
library_at h o table offset =
    if ltb offset (2 ^ 32)
    then (and_then (expect (o.string_at table offset)) λ name. find_library h (parse name))
    else panic

-- `for offset in offsets`
unfoldable pub resolve : Host → ObjectLib → Bytes → List ℕ → Result ElfError (List FilePath)
resolve h o table [] = ok []
resolve h o table (offset ∷ offsets) =
    and_then (library_at h o table offset)
      λ path. map_ok (λ needed. path ∷ needed) (resolve h o table offsets)

abbrev pub resolve_in : Host → ObjectLib → Option Bytes → List ℕ → Result ElfError (List FilePath)
resolve_in h o none offsets = ok []
resolve_in h o (some table) offsets = resolve h o table offsets

abbrev pub start : Scan
start = record { strtab = 0; strsz = 0; offsets = [] }

abbrev pub check_kind : FileKind → Result ElfError Unit
check_kind elf64 = ok tt
check_kind (other_kind _) = err not_64_bit_elf

unfoldable pub linked_libraries : Host → ObjectLib → FilePath → Result ElfError (List FilePath)
linked_libraries h o path = and_then (map_err input_output (h.read path)) λ bytes.
    and_then (map_err parsing (o.kind bytes)) λ kind. and_then (check_kind kind) λ _.
      and_then (map_err parsing (o.program_headers bytes)) λ headers.
        and_then (scan_headers start headers)
          λ s. resolve_in h o (find_table s.strtab s.strsz headers) s.offsets
