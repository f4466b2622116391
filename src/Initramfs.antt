-- ===== src/Initramfs.antt =====
-- crates/elusive/src/initramfs.rs: the builder of the initramfs. Its one field is the filesystem,
-- which is the state of every method. The recursive methods take fuel: `diverge` says that a
-- recursion goes deeper than that.
pub mod Growth
pub mod Steps
pub mod Files
pub mod Build
pub mod Ends
pub mod Elves
pub mod Binaries
pub mod Libraries
pub mod Cycles
pub mod Ranked
pub mod Returns
pub mod Terminates
pub mod Links
pub mod Missing
pub mod Achieves
pub mod Requests
pub mod Preserves
pub mod Closure
pub mod Copies
pub mod Contents
pub mod StaysWithin
pub mod Extent
use elusive.Base.{
  ℕ, zero, suc, Bool, true, false, not, Option, none, some, List, [], ◌∷◌, ◌++◌, Bytes, String,
  codes, if◌then◌else◌, Result, ok, err, panic, diverge, and_then, map_ok, map_err, expect, Exec,
  pure, throw, lift, ◌>>=◌, ◌>>◌,
}
use elusive.FilePath.{
  FilePath, Component, parent_dir, normal, parse, join, parent, strip_prefix, file_name,
  is_absolute, root,
}
use elusive.Host.{Host, IoError, WalkError, not_found, HostMetadata}
use elusive.Entry
use elusive.Entry.{Entry, try_from}
use elusive.Vfs
use elusive.Vfs.{Vfs, VfsError, contains, create_dir, create_dir_all, create_entry, into_iter}
use elusive.Elf.{ObjectLib, ElfError, find_binary, linked_libraries}
use elusive.Kmod
use elusive.Kmod.{
  KmodLib, KmodError, Kmod, Module, ModuleFormat, module_from_name, module_from_path, is_builtin,
  install_path, host_path, from_bytes,
}
use elusive.Systemd
use elusive.Systemd.{UnitParser, UnitError, UnitFile}
use elusive.Newc.{Archive, from}
use elusive.Config

-- The machine and the libraries that the builder uses: the file system, `object`, libkmod, pest's
-- parser of units, `to_string_lossy` and the two decoders.
pub record Env : Type 0 where
  pub host : Host
  pub object : ObjectLib
  pub kmod : KmodLib
  pub unit_parser : UnitParser
  pub to_string_lossy : Bytes → Bytes
  pub zstd_decode : Bytes → Result IoError Bytes
  pub gzip_decode : Bytes → Result IoError Bytes

pub data InitramfsError : Type 0 where
  input_output : IoError → InitramfsError
  walk_failed : WalkError → InitramfsError
  vfs_failed : VfsError → InitramfsError
  kmod_failed : KmodError → InitramfsError
  system_failed : UnitError → InitramfsError
  elf_failed : ElfError → InitramfsError

abbrev pub Build : Type 0 → Type 0
Build A = Exec Vfs InitramfsError A

-- `?` on a call of the filesystem.
abbrev pub on_vfs : Exec Vfs VfsError Unit → Build Unit
on_vfs m v = let r = m v in (map_err vfs_failed r.0, r.1)

-- `for item in items { act(item)?; }`
unfoldable pub each : {A : Type 0} → (A → Build Unit) → List A → Build Unit
each act [] = pure tt
each act (x ∷ xs) = act x >> each act xs

-- `ROOT_DIRS`
abbrev pub root_dirs : List String
root_dirs = "/dev" ∷ "/etc" ∷ "/proc" ∷ "/root" ∷ "/run" ∷ "/sys" ∷ "/tmp" ∷ "/usr" ∷ "/var" ∷ []

-- `ROOT_SYMLINKS`
abbrev pub root_symlinks : List (String × String)
root_symlinks =
    ("/bin", "usr/bin")
    ∷ ("/lib", "usr/lib")
    ∷ ("/lib64", "usr/lib")
    ∷ ("/sbin", "usr/bin")
    ∷ ("/usr/lib64", "lib")
    ∷ ("/usr/sbin", "bin")
    ∷ ("/var/run", "../run")
    ∷ []

abbrev pub path : String → FilePath
path s = parse (codes s)

abbrev pub add_root_dir : String → Build Unit
add_root_dir dir = on_vfs (create_dir (path dir))

abbrev pub add_root_symlink : String × String → Build Unit
add_root_symlink (src, dest) = on_vfs (create_entry (path src) (Entry.symlink (codes dest)))

-- `Initramfs::new`
unfoldable pub new : Build Unit
unfolding each parse create_dir create_entry
new = each add_root_dir root_dirs >> each add_root_symlink root_symlinks

-- `if let Some(parent) = path.parent() { self.vfs.create_dir_all(parent)?; }`
abbrev pub create_parent : Option FilePath → Build Unit
create_parent none = pure tt
create_parent (some dir) = on_vfs (create_dir_all dir)

-- `self.vfs.contains(path)`, and an early return.
abbrev pub unless_contained : FilePath → Build Unit → Build Unit
unless_contained p m v = if contains v p then (ok tt, v) else m v

-- `uncompress_module`
unfoldable pub uncompress_module : Env → Bytes → ModuleFormat → Result IoError Bytes
uncompress_module env bytes Kmod.elf = ok bytes
uncompress_module env bytes Kmod.zstd = env.zstd_decode bytes
uncompress_module env bytes Kmod.gzip = env.gzip_decode bytes

unfoldable pub add_symlink : FilePath → Bytes → Build Unit
add_symlink p target =
    unless_contained (parse target)
      do create_parent (parent p); on_vfs (create_entry p (Entry.symlink target))

-- The modules that a module depends on, softly too.
abbrev pub all_depends : Kmod.ModuleInfo → List Bytes
all_depends info = info.depends ++ (info.softpre ++ info.softpost)

-- `Path::new("..").join(name)`
abbrev pub unit_target : Bytes → Bytes
unit_target name = if is_absolute (parse name) then name else codes "../" ++ name

abbrev pub install_unit : Bytes → Option FilePath → Build Unit
install_unit name none = pure tt
install_unit name (some p) = add_symlink p (unit_target name)

-- The unit file itself, unless it is there.
abbrev pub put_unit : UnitFile → Build Unit
put_unit unit = unless_contained unit.path do
  dir ← lift (expect (parent unit.path))
  on_vfs (create_dir_all dir)
  on_vfs (create_entry unit.path (Entry.file unit.content))

module _ (env : Env) where
  -- `File::open(source)?`, `Entry::try_from(file)?` and `create_entry(dest, entry)?`
  abbrev pub copy_file : FilePath → FilePath → Build Unit
  copy_file source dest = do
    file ← lift (map_err input_output (env.host.open_file source))
    entry ← lift (map_err input_output (try_from file))
    on_vfs (create_entry dest entry)

  -- `if !path.exists()` with its error.
  abbrev pub check_exists : FilePath → Build Unit
  check_exists p = if env.host.exists p then pure tt else throw (input_output (not_found p))

  -- `add_entrypoint`
  unfoldable pub add_entrypoint : Bytes → FilePath → Build Unit
  add_entrypoint name source =
      let dest = root ++ (normal name ∷ []) in
      unless_contained dest (do check_exists source; copy_file source dest)

  -- `add_init`, `add_shutdown`
  abbrev pub add_init : FilePath → Build Unit
  add_init = add_entrypoint (codes "init")

  abbrev pub add_shutdown : FilePath → Build Unit
  add_shutdown = add_entrypoint (codes "shutdown")

  abbrev pub resolve_binary : FilePath → Result InitramfsError FilePath
  resolve_binary p = if is_absolute p then ok p else map_err elf_failed (find_binary env.host p)

  -- The part of `add_elf` that puts the binary itself.
  abbrev pub put_binary : FilePath → Build Unit
  put_binary p = do create_parent (parent p); check_exists p; copy_file p p

  unfoldable pub add_elf : ℕ → FilePath → Build Unit
  unfolding each
  add_elf zero p = lift diverge
  add_elf (suc fuel) p = do
    p ← lift (resolve_binary p)
    unless_contained p do
      put_binary p
      libraries ← lift (map_err elf_failed (linked_libraries env.host env.object p))
      each (add_elf fuel) libraries

  -- `copy_file`, unless the destination is there already (`continue`).
  abbrev pub copy_missing : FilePath → FilePath → Build Unit
  copy_missing source dest = unless_contained dest (copy_file source dest)

  -- One entry of the walk through a source directory.
  abbrev pub copy_walked : FilePath → FilePath → Result WalkError FilePath → Build Unit
  copy_walked source destination entry = do
    source_path ← lift (map_err walk_failed entry)
    inner ← lift (expect (strip_prefix source source_path))
    copy_missing source_path (join destination inner)

  abbrev pub copy_source : FilePath → FilePath → HostMetadata → Build Unit
  copy_source destination source metadata =
      if metadata.is_dir then each (copy_walked source destination) (env.host.walk source) else do
        name ← lift (expect (file_name source))
        copy_missing source (join destination (normal name ∷ []))

  abbrev pub add_source : FilePath → FilePath → Build Unit
  add_source destination source = do
    check_exists source
    metadata ← lift (map_err input_output (env.host.metadata source))
    copy_source destination source metadata

  unfoldable pub add_files : List FilePath → FilePath → Build Unit
  unfolding each strip_prefix join file_name
  add_files sources destination = do
    on_vfs (create_dir_all destination)
    each (add_source destination) sources

  -- The file of a module, uncompressed, at its place.
  abbrev pub put_module : Module → FilePath → Build Unit
  put_module module_ dest = do
    source ← lift (expect (host_path module_))
    compressed ← lift (map_err input_output (env.host.read source))
    format ← lift (map_err kmod_failed (from_bytes compressed))
    bytes ← lift (map_err input_output (uncompress_module env compressed format))
    on_vfs (create_entry dest (Entry.file bytes))

  unfoldable pub add_module : ℕ → Kmod → Module → Build Unit
  unfolding each
  add_module zero kmod module_ = lift diverge
  add_module (suc fuel) kmod module_ =
      let depend : Bytes → Build Unit = λ name.
        (lift (map_err kmod_failed (module_from_name kmod name)) >>= add_module fuel kmod) in
      let rest : Build Unit = (do
        info ← lift (map_err kmod_failed (Kmod.info module_))
        each depend (all_depends info)
        dest ← lift (map_err kmod_failed (install_path module_))
        create_parent (parent dest)
        unless_contained dest (put_module module_ dest)) in
      if is_builtin module_ then pure tt else rest

  unfoldable pub add_module_from_name : ℕ → Kmod → Bytes → Build Unit
  unfolding add_module
  add_module_from_name fuel kmod name = do
    module_ ← lift (map_err kmod_failed (module_from_name kmod name))
    add_module fuel kmod module_

  unfoldable pub add_module_from_path : ℕ → Kmod → FilePath → Build Unit
  unfolding add_module
  add_module_from_path fuel kmod p = do
    module_ ← lift (map_err kmod_failed (module_from_path kmod p))
    add_module fuel kmod module_

  unfoldable pub add_systemd_unit : ℕ → Bytes → Build Unit
  unfolding each add_elf add_symlink
  add_systemd_unit zero name = lift diverge
  add_systemd_unit (suc fuel) name = do
    unit ← lift (map_err system_failed (Systemd.from_name env.host env.unit_parser name))
    put_unit unit
    each (λ binary. add_elf fuel (parse binary)) unit.binaries
    install_unit name unit.install_path
    each (add_systemd_unit fuel) unit.dependencies

  abbrev pub add_kernel_module : ℕ → Kmod → Config.KernelModule → Build Unit
  add_kernel_module fuel kmod (Config.name name) = add_module_from_name fuel kmod name
  add_kernel_module fuel kmod (Config.path p) = add_module_from_path fuel kmod p

  -- One module of the configuration.
  abbrev pub add_config_module : ℕ → Kmod → Config.Module → Build Unit
  add_config_module fuel kmod m = do
    each (λ (b : Config.Binary). add_elf fuel b.path) m.binaries
    each (λ (f : Config.File). add_files f.sources f.destination) m.files
    each (λ (l : Config.Symlink). add_symlink l.path l.target) m.symlinks
    each (add_kernel_module fuel kmod) m.kernel_modules
    each (λ (u : Config.UnitName). add_systemd_unit fuel u.name) m.units

  abbrev pub add_optional_shutdown : Option FilePath → Build Unit
  add_optional_shutdown none = pure tt
  add_optional_shutdown (some p) = add_shutdown p

  -- The libkmod context, of the configured directory or of the running kernel.
  abbrev pub open_kmod : Option FilePath → Result InitramfsError Kmod
  open_kmod none = map_err kmod_failed (Kmod.new env.kmod)
  open_kmod (some p) =
      if env.host.exists p
      then map_err kmod_failed (Kmod.with_directory env.host env.kmod env.to_string_lossy p)
      else err (input_output (not_found p))

  unfoldable pub from_config : ℕ → Config.Initramfs → List Config.Module → Build Unit
  unfolding new add_entrypoint add_files add_symlink add_module_from_name add_module_from_path
      add_systemd_unit
  from_config fuel config modules = do
    new
    add_init config.init
    add_optional_shutdown config.shutdown
    kmod ← lift (open_kmod config.settings.kernel_module_path)
    each (add_config_module fuel kmod) modules

-- `into_archive`
abbrev pub into_archive : Vfs → Archive
into_archive v = from (into_iter v)

-- `Initramfs::from_config(…)` from nothing: `Vfs::default()` is the first state.
abbrev pub build :
    Env → ℕ → Config.Initramfs → List Config.Module → Result InitramfsError Unit × Vfs
build env fuel config modules = from_config env fuel config modules Vfs.new
