-- ===== src/Cli/Image.antt =====
-- `elusive` of crates/elusive/src/cli.rs, from the configuration to the file that it leaves: what an
-- independent reader of the format finds there.
use elusive.Base.{ℕ, Option, List}
use elusive.FilePath.{FilePath, path_ord}
use elusive.Vfs.{Vfs}
use elusive.Config
use elusive.Initramfs.{build}
use elusive.Cli.{System, Args}

module _ (sys : System) (fuel : ℕ) (args : Args) (modules : Option FilePath)
    (config : Config.Initramfs) (selected : List Config.Module) where
  abbrev image : Vfs
  image = (build sys.env fuel config selected).1
