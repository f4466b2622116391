-- ===== src/Microcode.antt =====
-- crates/elusive/src/microcode.rs: the builder of microcode bundles, a filesystem with two flags.
pub mod Contents
use elusive.Base.{
  Bool, true, false, Option, none, some, List, [], ◌∷◌, ◌++◌, Bytes, codes, if◌then◌else◌, Result,
  ok, map_ok, map_err, and_then, Exec, pure, lift, ◌>>=◌, ◌>>◌,
}
use elusive.FilePath.{FilePath, parse, join}
use elusive.Host.{Host, IoError, DirEntry}
use elusive.Entry
use elusive.Entry.{Entry}
use elusive.Vfs
use elusive.Vfs.{Vfs, VfsError, create_dir_all, create_entry, into_iter}
use elusive.Newc.{Archive, from}
use elusive.Config

-- `UCODE_TREE`
abbrev pub ucode_tree : FilePath
ucode_tree = parse (codes "/kernel/x86/microcode")

abbrev pub amd_ucode_name : FilePath
amd_ucode_name = parse (codes "AuthenticAMD.bin")

abbrev pub intel_ucode_name : FilePath
intel_ucode_name = parse (codes "GenuineIntel.bin")

pub data MicrocodeError : Type 0 where
  input_output : IoError → MicrocodeError
  vfs_failed : VfsError → MicrocodeError

pub record MicrocodeBundle : Type 0 where
  pub amd : Bool
  pub intel : Bool
  pub vfs : Vfs

abbrev pub Bundle : Type 0
Bundle = Exec MicrocodeBundle MicrocodeError Unit

-- `MicrocodeBundle::new`
unfoldable pub new : Result MicrocodeError MicrocodeBundle
unfolding create_dir_all parse
new =
    let made = create_dir_all ucode_tree Vfs.new in
    map_ok (λ _. record { amd = false; intel = false; vfs = made.1 }) (map_err vfs_failed made.0)

-- `if entry.file_type()?.is_file() { data.extend(fs::read(entry.path())?); }`
abbrev pub extend_file : Host → Bytes → FilePath → Bool → Result MicrocodeError Bytes
extend_file h buf p true = map_ok (λ bytes. buf ++ bytes) (map_err input_output (h.read p))
extend_file h buf p false = ok buf

-- `for entry in fs::read_dir(dir)?`
unfoldable pub bundle_entries :
    Host → Bytes → List (Result IoError DirEntry) → Result MicrocodeError Bytes
bundle_entries h buf [] = ok buf
bundle_entries h buf (item ∷ items) = and_then (map_err input_output item) λ entry.
    and_then (map_err input_output entry.is_file)
      λ is_file. and_then (extend_file h buf entry.path is_file) λ buf'. bundle_entries h buf' items

unfoldable pub bundle_ucode : Host → FilePath → Result MicrocodeError Bytes
unfolding bundle_entries
bundle_ucode h dir = and_then (map_err input_output (h.read_dir dir)) (bundle_entries h [])

-- `self.vfs.create_entry(path, entry)?`
abbrev pub put_entry : FilePath → Entry → Bundle
put_entry p entry b =
    let made = create_entry p entry b.vfs in (map_err vfs_failed made.0, record b { vfs = made.1 })

abbrev pub set_amd : Bundle
set_amd b = (ok tt, record b { amd = true })

abbrev pub set_intel : Bundle
set_intel b = (ok tt, record b { intel = true })

-- What the two methods do where their flag is not set.
abbrev pub put_blob : Host → FilePath → FilePath → Bundle
put_blob h name p = do
  bytes ← lift (bundle_ucode h p)
  put_entry (join ucode_tree name) (Entry.file bytes)

unfoldable pub add_amd_ucode : Host → FilePath → Bundle
unfolding bundle_ucode create_entry join parse
add_amd_ucode h p b = if b.amd then (ok tt, b) else (put_blob h amd_ucode_name p >> set_amd) b

unfoldable pub add_intel_ucode : Host → FilePath → Bundle
unfolding bundle_ucode create_entry join parse
add_intel_ucode h p b =
    if b.intel then (ok tt, b) else (put_blob h intel_ucode_name p >> set_intel) b

-- `if let Some(path) = &… { … }`
abbrev pub optional : (FilePath → Bundle) → Option FilePath → Bundle
optional act none = pure tt
optional act (some p) = act p

abbrev pub finish :
    Result MicrocodeError Unit × MicrocodeBundle → Result MicrocodeError MicrocodeBundle
finish (r, b) = map_ok (λ _. b) r

-- `MicrocodeBundle::from_config`
unfoldable pub from_config : Host → Config.Microcode → Result MicrocodeError MicrocodeBundle
unfolding new add_amd_ucode add_intel_ucode
from_config h config = and_then new λ b. finish (
    (optional (add_amd_ucode h) config.amd_ucode >> optional (add_intel_ucode h) config.intel_ucode)
      b)

-- `into_archive`
abbrev pub into_archive : MicrocodeBundle → Archive
into_archive b = from (into_iter b.vfs)
