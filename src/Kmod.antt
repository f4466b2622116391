-- ===== src/Kmod.antt =====
-- crates/elusive/src/kmod.rs: kernel modules, by way of libkmod, which is a parameter.
pub mod Install
pub mod Format
pub mod Handles
use elusive.Base.{
  ℕ, Bool, true, false, not, Option, none, some, List, [], ◌∷◌, ◌++◌, Bytes, codes, ltb,
  if◌then◌else◌, length, take, Result, ok, err, panic, and_then, map_ok, map_err, ok_or, expect,
}
use elusive.Base.Order.{same, nat_ord, list_ord}
use elusive.FilePath.{
  FilePath, normal, parse, join, file_name, to_bytes, os_str, set_file_name, set_extension,
}
use elusive.Host.{Host, IoError}
use elusive.Text.{split, strip_prefix, is_utf8, nul_terminated}

abbrev pub unknown_module : Bytes
unknown_module = codes "unknown"

abbrev pub magic_elf : Bytes
magic_elf = 0x7f ∷ b'E' ∷ b'L' ∷ b'F' ∷ []

abbrev pub magic_gz : Bytes
magic_gz = 0x1f ∷ 0x8b ∷ []

abbrev pub magic_zstd : Bytes
magic_zstd = 0x28 ∷ 0xb5 ∷ 0x2f ∷ 0xfd ∷ []

abbrev pub format_min_bytes_len : ℕ
format_min_bytes_len = 6

pub data KmodError : Type 0 where
  input_output : IoError → KmodError
  utf8_conversion : KmodError
  interior_nul_byte : ℕ → KmodError
  context_new_failed : KmodError
  module_from_name_failed : Bytes → KmodError
  module_from_path_failed : FilePath → KmodError
  module_get_info_failed : Bytes → KmodError
  too_small_for_magic : KmodError
  unknown_magic : KmodError
  bad_directory : FilePath → KmodError
  module_built_in : KmodError

-- A `kmod_module` by what libkmod's getters answer: null pointers and negative results are `none`.
-- The information is the list of its keys and values.
pub record KmodModule : Type 0 where
  pub get_name : Option Bytes
  pub get_path : Option Bytes
  pub get_info : Option (List (Bytes × Bytes))

-- A `kmod_ctx` by what its lookups answer. The lookup of a name that no module has is no failure:
-- the list is empty then.
pub record KmodCtx : Type 0 where
  pub new_from_lookup : Bytes → Option (List KmodModule)
  pub new_from_path : Bytes → Option KmodModule

-- What the getters answer for a null pointer.
abbrev pub null_module : KmodModule
null_module = record { get_name = none; get_path = none; get_info = none }

-- `kmod_module_get_module` on the first item of a list; an empty list is a null pointer.
abbrev pub get_module : List KmodModule → KmodModule
get_module [] = null_module
get_module (m ∷ ms) = m

-- libkmod: `kmod_new`; and `uname`, whose release is the kernel's.
pub record KmodLib : Type 0 where
  pub kmod_new : Bytes → Option KmodCtx
  pub uname : Result IoError Bytes

pub record Kmod : Type 0 where
  pub kernel_release : Bytes
  pub ctx : KmodCtx

pub record Module : Type 0 where
  pub kernel_release : Bytes
  pub inner : KmodModule

-- `CString::new(bytes)?`
abbrev pub c_string : Bytes → Result KmodError Bytes
c_string bytes = map_err interior_nul_byte (nul_terminated 0 bytes)

-- `Path::new("/usr/lib/modules")`
abbrev pub modules_dir : FilePath
modules_dir = parse (codes "/usr/lib/modules")

-- `get_kernel_release`
unfoldable pub get_kernel_release : KmodLib → Result KmodError Bytes
get_kernel_release lib =
    and_then (map_err input_output lib.uname)
      λ release. if is_utf8 release then ok release else panic

unfoldable pub kmod_init_ctx : KmodLib → FilePath → Result KmodError KmodCtx
kmod_init_ctx lib dir =
    and_then (c_string (to_bytes dir)) λ cstring. ok_or (lib.kmod_new cstring) context_new_failed

-- `Kmod::new`
unfoldable pub new : KmodLib → Result KmodError Kmod
unfolding get_kernel_release kmod_init_ctx
new lib = and_then (get_kernel_release lib) λ kernel_release.
    and_then (kmod_init_ctx lib (join modules_dir (parse kernel_release)))
      λ ctx. ok (record { kernel_release = kernel_release; ctx = ctx })

-- `Kmod::with_directory`. `lossy` is `to_string_lossy`, which keeps what is UTF-8.
unfoldable pub with_directory : Host → KmodLib → (Bytes → Bytes) → FilePath → Result KmodError Kmod
unfolding kmod_init_ctx file_name join
with_directory h lib lossy dir =
    if not (h.exists (join dir (normal (codes "kernel") ∷ [])))
    then err (bad_directory dir)
    else and_then (expect (file_name dir)) λ filename.
      and_then (kmod_init_ctx lib dir)
        λ ctx. ok (record { kernel_release = lossy filename; ctx = ctx })

-- `Module::from_name`
unfoldable pub module_from_name : Kmod → Bytes → Result KmodError Module
module_from_name kmod name = and_then (c_string name) λ cstr.
    and_then (ok_or (kmod.ctx.new_from_lookup cstr) (module_from_name_failed name))
      λ list. ok (record { kernel_release = kmod.kernel_release; inner = get_module list })

-- `Module::from_path`
unfoldable pub module_from_path : Kmod → FilePath → Result KmodError Module
module_from_path kmod path = and_then (c_string (to_bytes path)) λ cstr.
    and_then (ok_or (kmod.ctx.new_from_path cstr) (module_from_path_failed path))
      λ inner. ok (record { kernel_release = kmod.kernel_release; inner = inner })

-- `cstr.to_str().ok()`
abbrev pub utf8_or_none : Option Bytes → Option Bytes
utf8_or_none none = none
utf8_or_none (some bytes) = if is_utf8 bytes then some bytes else none

-- `name`
unfoldable pub name : Module → Option Bytes
name m = utf8_or_none m.inner.get_name

-- `host_path`
unfoldable pub host_path : Module → Option FilePath
host_path m = elim m.inner.get_path [ none ↦ none | some bytes ↦ some (parse bytes) ]

unfoldable pub is_builtin : Module → Bool
unfolding host_path
is_builtin m = elim (host_path m) [ none ↦ true | some _ ↦ false ]

-- `skip_while(|component| component.as_os_str() != "kernel")`
unfoldable pub skip_to_kernel : FilePath → FilePath
unfolding list_ord
skip_to_kernel [] = []
skip_to_kernel (c ∷ p) = if same (os_str c) (codes "kernel") then c ∷ p else skip_to_kernel p

-- `extend`, which pushes one component after the other.
unfoldable pub extend : FilePath → FilePath → FilePath
unfolding join
extend base [] = base
extend base (c ∷ p) = extend (join base (c ∷ [])) p

-- `install_path`
unfoldable pub install_path : Module → Result KmodError FilePath
unfolding host_path skip_to_kernel extend name
install_path m = and_then (ok_or (host_path m) module_built_in) λ host_path.
    let base = join modules_dir (parse m.kernel_release) in
    let path = extend base (skip_to_kernel host_path) in
    and_then (expect (name m)) λ name. ok (set_extension (set_file_name path name) (codes "ko"))

-- `ModuleInfo`
pub record ModuleInfo : Type 0 where
  pub aliases : List Bytes
  pub depends : List Bytes
  pub softpre : List Bytes
  pub softpost : List Bytes

abbrev pub no_info : ModuleInfo
no_info = record { aliases = []; depends = []; softpre = []; softpost = [] }

-- `to_str()?`
abbrev pub to_str : Bytes → Result KmodError Bytes
to_str bytes = if is_utf8 bytes then ok bytes else err utf8_conversion

-- The parts of `split(',')` that are not empty.
unfoldable pub nonempty : List Bytes → List Bytes
unfolding list_ord
nonempty [] = []
nonempty (s ∷ ss) = if same s [] then nonempty ss else s ∷ nonempty ss

-- What a soft dependency adds: `pre: ` or `post: ` and the name.
abbrev pub add_softdep : Bytes → ModuleInfo → ModuleInfo
add_softdep value info = elim (strip_prefix (codes "pre: ") value) [
  | some softdep ↦ record info { softpre = info.softpre ++ (softdep ∷ []) }
  | none ↦ elim (strip_prefix (codes "post: ") value) [
    | some softdep ↦ record info { softpost = info.softpost ++ (softdep ∷ []) }
    | none ↦ info
  ]
]

-- The `match` on the key.
unfoldable pub add_item : Bytes → Bytes → ModuleInfo → Result KmodError ModuleInfo
unfolding nonempty split strip_prefix
add_item key value info =
    if same key (codes "alias")
    then map_ok (λ v. record info { aliases = info.aliases ++ (v ∷ []) }) (to_str value)
    else if same key (codes "depends")
    then map_ok (λ v. record info { depends = info.depends ++ nonempty (split b',' v) })
        (to_str value)
    else if same key (codes "softdep")
    then map_ok (λ v. add_softdep v info) (to_str value)
    else ok info

-- `while !item.is_null()`
unfoldable pub add_items : List (Bytes × Bytes) → ModuleInfo → Result KmodError ModuleInfo
unfolding add_item
add_items [] info = ok info
add_items ((key, value) ∷ items) info =
    and_then (to_str key) λ key. and_then (add_item key value info) λ info'. add_items items info'

-- The name for an error message.
abbrev pub name_or_unknown : Option Bytes → Bytes
name_or_unknown none = unknown_module
name_or_unknown (some name) = name

-- `ModuleInfo::new`, `Module::info`
unfoldable pub info : Module → Result KmodError ModuleInfo
unfolding add_items name
info m =
    and_then (ok_or m.inner.get_info (module_get_info_failed (name_or_unknown (name m))))
      λ items. add_items items no_info

pub data ModuleFormat : Type 0 where
  elf zstd gzip : ModuleFormat

-- `ModuleFormat::from_bytes`
unfoldable pub from_bytes : Bytes → Result KmodError ModuleFormat
unfolding list_ord
from_bytes bytes =
    if ltb (length bytes) format_min_bytes_len
    then err too_small_for_magic
    else if same (take 4 bytes) magic_elf
    then ok elf
    else if same (take 4 bytes) magic_zstd
    then ok zstd
    else if same (take 2 bytes) magic_gz
    then ok gzip
    else err unknown_magic

-- `ModuleFormat::extension`
abbrev pub extension : ModuleFormat → Bytes
extension elf = codes "ko"
extension zstd = codes "ko.zst"
extension gzip = codes "ko.gz"
