-- ===== src/Tests/Image.antt =====
-- A run of the program and the image that it leaves.
use elusive.Base.{some, [], ◌∷◌, ◌++◌, codes, Result}
use elusive.Base.Order
use elusive.Text
use elusive.FilePath
use elusive.FilePath.{FilePath, root, normal}
use elusive.Device
use elusive.Entry
use elusive.Vfs
use elusive.Vfs.{Vfs}
use elusive.Kmod
use elusive.Encoder
use elusive.Initramfs
use elusive.Io.{Drive}
use elusive.Cli
use elusive.Cli.{Args, run}
use elusive.Tests.Program.{system, to_image, empty, plain}

abbrev uncompressed : Args
uncompressed = record to_image { encoder = some Encoder.no_encoder }

abbrev tree : Vfs
tree = (Initramfs.build system.env 1 plain []).1

abbrev init_path : FilePath
init_path = root ++ (normal (codes "init") ∷ [])

abbrev outcome : Result Cli.CliError Unit × Drive
outcome = run system 1 uncompressed empty
