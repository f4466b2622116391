-- ===== src/Tests/Microcode.antt =====
-- Runs of the theorems on microcode bundles.
use elusive.Base.{true, false, none, some, [], ◌∷◌, ◌++◌, ◌≡◌, refl, codes, ok, map_ok}
use elusive.FilePath.{path_ord, FilePath, root_dir, normal}
use elusive.Host.{Host}
use elusive.Entry
use elusive.Newc.{from}
use elusive.Config
use elusive.Vfs
use elusive.Microcode
use elusive.Microcode.{MicrocodeBundle, add_amd_ucode, from_config, into_archive}
use elusive.Microcode.Contents.{from_config-archive, directories, blob_path}
use elusive.Tests.Machine.{host}

abbrev ucode : FilePath
ucode = root_dir ∷ normal (codes "ucode") ∷ []

-- Every directory holds two regular files and a directory; every file holds `ab`.
abbrev blobs : Host
blobs = record host {
  read = λ p. ok (codes "ab");
  read_dir = λ p. ok (
      ok (record { path = p; is_file = ok true })
      ∷ ok (record { path = p; is_file = ok false })
      ∷ ok (record { path = p; is_file = ok true })
      ∷ []);
}

abbrev config : Config.Microcode
config = record { amd_ucode = some ucode; intel_ucode = none }

from_config-archive_example :
    map_ok into_archive (from_config blobs config)
    ≡ ok (
        from
          (directories ++ ((blob_path (codes "AuthenticAMD.bin"), Entry.file (codes "abab")) ∷ [])))
unfolding Microcode.bundle_ucode
from_config-archive_example =
    from_config-archive blobs config
      ((blob_path (codes "AuthenticAMD.bin"), Entry.file (codes "abab")) ∷ []) [] refl refl

abbrev added : MicrocodeBundle
added = (add_amd_ucode blobs ucode (record { amd = false; intel = false; vfs = Vfs.new })).1
