-- ===== src/Initramfs/Requests.antt =====
-- The configuration that crates/elusive/src/initramfs.rs builds from, as a specification: the
-- paths that it asks for.
use elusive.Base.{false, true, some, List, ◌∷◌, [], ◌++◌, ◌≡◌, Bytes, Among, Result, ok, codes}
use elusive.FilePath.{FilePath, root, normal, parse, join, strip_prefix, file_name, parent}
use elusive.Host.{HostMetadata}
use elusive.Elf.{linked_libraries}
use elusive.FilePath.Prefixes.{from_top}
use elusive.Vfs
use elusive.Vfs.{contains}
use elusive.Initramfs.Binaries.{above}
use elusive.Kmod
use elusive.Kmod.{
  Kmod, Module, KmodError, module_from_name, module_from_path, is_builtin, install_path,
}
use elusive.Systemd
use elusive.Systemd.{UnitFile}
use elusive.Config
use elusive.Initramfs.{Env, new, resolve_binary, all_depends, unit_target, open_kmod}
use elusive.Initramfs.Achieves.{Item, at, program, link}

-- The modules that a module needs, itself among them; a module that is built in needs no other.
pub data NeedsModule (kmod : Kmod) (goal : Module) : Module → Type 0 where
  this : NeedsModule kmod goal goal
  dependency :
      (m next : Module) (info : Kmod.ModuleInfo) (name : Bytes)
      → is_builtin m ≡ false
      → Kmod.info m ≡ ok info
      → Among name (all_depends info)
      → module_from_name kmod name ≡ ok next
      → NeedsModule kmod goal next
      → NeedsModule kmod goal m

-- The units that a unit requires, itself among them, as they are read.
pub data NeedsUnit (env : Env) (goal : Bytes) (found : UnitFile) : Bytes → Type 0 where
  this : Systemd.from_name env.host env.unit_parser goal ≡ ok found → NeedsUnit env goal found goal
  required :
      (name next : Bytes) (unit : UnitFile)
      → Systemd.from_name env.host env.unit_parser name ≡ ok unit
      → Among next unit.dependencies
      → NeedsUnit env goal found next
      → NeedsUnit env goal found name

-- The program, and the libraries that it needs, directly or through other libraries.
pub data Linked (env : Env) (goal : FilePath) : FilePath → Type 0 where
  this : Linked env goal goal
  library :
      (p l next : FilePath) (needed : List FilePath)
      → linked_libraries env.host env.object p ≡ ok needed
      → Among l needed
      → resolve_binary env l ≡ ok next
      → Linked env goal next
      → Linked env goal p

-- What a unit that has been read asks for: its file, its binaries, and its link.
pub data UnitItem (env : Env) (name : Bytes) (unit : UnitFile) : Item → Type 0 where
  unit_file : UnitItem env name unit (at unit.path)
  unit_binary :
      (binary : Bytes) (p : FilePath)
      → Among binary unit.binaries
      → resolve_binary env (parse binary) ≡ ok p
      → UnitItem env name unit (program p)
  unit_link :
      (p : FilePath)
      → unit.install_path ≡ some p
      → UnitItem env name unit (link p (parse (unit_target name)))

-- What a source of files asks for below the destination.
pub data SourceItem (env : Env) (destination source : FilePath) : Item → Type 0 where
  whole_file :
      (metadata : HostMetadata) (name : Bytes)
      → env.host.metadata source ≡ ok metadata
      → metadata.is_dir ≡ false
      → file_name source ≡ some name
      → SourceItem env destination source (at (join destination (normal name ∷ [])))
  walked :
      (metadata : HostMetadata) (entry inner : FilePath)
      → env.host.metadata source ≡ ok metadata
      → metadata.is_dir ≡ true
      → Among (ok entry) (env.host.walk source)
      → strip_prefix source entry ≡ some inner
      → SourceItem env destination source (at (join destination inner))

-- The lookup of a configured kernel module.
abbrev pub find_module : Kmod → Config.KernelModule → Result KmodError Module
find_module kmod (Config.name name) = module_from_name kmod name
find_module kmod (Config.path p) = module_from_path kmod p

-- What a module of the configuration asks for.
pub data ModuleItem (env : Env) (kmod : Kmod) (m : Config.Module) : Item → Type 0 where
  binary :
      (b : Config.Binary) (p : FilePath)
      → Among b m.binaries
      → resolve_binary env b.path ≡ ok p
      → ModuleItem env kmod m (program p)
  destination : (f : Config.File) → Among f m.files → ModuleItem env kmod m (at f.destination)
  file :
      (f : Config.File) (source : FilePath) (i : Item)
      → Among f m.files
      → Among source f.sources
      → SourceItem env f.destination source i
      → ModuleItem env kmod m i
  symlink :
      (l : Config.Symlink)
      → Among l m.symlinks
      → ModuleItem env kmod m (link l.path (parse l.target))
  kernel_module :
      (k : Config.KernelModule) (first needed : Module) (p : FilePath)
      → Among k m.kernel_modules
      → find_module kmod k ≡ ok first
      → NeedsModule kmod needed first
      → is_builtin needed ≡ false
      → install_path needed ≡ ok p
      → ModuleItem env kmod m (at p)
  unit :
      (u : Config.UnitName) (name : Bytes) (found : UnitFile) (i : Item)
      → Among u m.units
      → NeedsUnit env name found u.name
      → UnitItem env name found i
      → ModuleItem env kmod m i

-- What a configuration asks for.
pub data Requested (env : Env) (config : Config.Initramfs) (modules : List Config.Module)
    : Item → Type 0 where
  init : Requested env config modules (at (root ++ (normal (codes "init") ∷ [])))
  shutdown :
      (p : FilePath)
      → config.shutdown ≡ some p
      → Requested env config modules (at (root ++ (normal (codes "shutdown") ∷ [])))
  of_module :
      (m : Config.Module) (kmod : Kmod) (i : Item)
      → Among m modules
      → open_kmod env config.settings.kernel_module_path ≡ ok kmod
      → ModuleItem env kmod m i
      → Requested env config modules i

-- The paths that a configuration leads to: the skeleton that every image starts from, what is asked
-- for, the libraries of the programs, and the directories above all these.
pub data Wanted (env : Env) (config : Config.Initramfs) (modules : List Config.Module)
    : FilePath → Type 0 where
  skeleton : (p : FilePath) → contains (new Vfs.new).1 p ≡ true → Wanted env config modules p
  asked : (p : FilePath) → Requested env config modules (at p) → Wanted env config modules p
  linked :
      (p q : FilePath)
      → Requested env config modules (program p)
      → Linked env q p
      → Wanted env config modules q
  link_path :
      (p target : FilePath)
      → Requested env config modules (link p target)
      → Wanted env config modules p
  ancestor :
      (p q : FilePath)
      → Wanted env config modules p
      → Among q (from_top p)
      → Wanted env config modules q
  above_parent :
      (p q : FilePath)
      → Wanted env config modules p
      → Among q (above (parent p))
      → Wanted env config modules q

-- The paths that are not put for a program: the skeleton, what is asked for otherwise, and the
-- directories above all that is put.
pub data Foreign (env : Env) (config : Config.Initramfs) (modules : List Config.Module)
    : FilePath → Type 0 where
  of_skeleton : (p : FilePath) → contains (new Vfs.new).1 p ≡ true → Foreign env config modules p
  of_path : (p : FilePath) → Requested env config modules (at p) → Foreign env config modules p
  of_link :
      (p target : FilePath)
      → Requested env config modules (link p target)
      → Foreign env config modules p
  ancestor :
      (p q : FilePath)
      → Foreign env config modules p
      → Among q (from_top p)
      → Foreign env config modules q
  above_parent :
      (p q : FilePath)
      → Foreign env config modules p
      → Among q (above (parent p))
      → Foreign env config modules q
  above_program :
      (p q r : FilePath)
      → Requested env config modules (program p)
      → Linked env q p
      → Among r (above (parent q))
      → Foreign env config modules r

-- What a program needs, where the libraries of a foreign path are not looked at.
pub data Followed (env : Env) (config : Config.Initramfs) (modules : List Config.Module)
    (p : FilePath) : FilePath → Type 0 where
  itself : Followed env config modules p p
  library :
      (q l : FilePath) (needed : List FilePath)
      → Followed env config modules p q
      → (Foreign env config modules q → ⊥)
      → linked_libraries env.host env.object q ≡ ok needed
      → Among l needed
      → Followed env config modules p l
