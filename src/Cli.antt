-- ===== src/Cli.antt =====
-- crates/elusive/src/cli.rs: the program, from its arguments to the bytes that it writes. clap, which
-- reads the arguments, and serde_yaml are parameters.
pub mod Selection
pub mod Loading
pub mod Configuration
pub mod Run
pub mod Frame
pub mod Success
pub mod Image
use elusive.Base.{
  ℕ, Bool, true, false, not, ◌&&◌, ◌||◌, Option, none, some, List, [], ◌∷◌, ◌++◌, Bytes, codes,
  if◌then◌else◌, Result, ok, err, and_then, map_ok, map_err, ok_or, Exec, pure, throw, lift, ◌>>=◌,
  ◌>>◌,
}
use elusive.Base.Order.{nat_ord, list_ord}
use elusive.FilePath.{FilePath, parse}
use elusive.Host.{IoError, DirEntry}
use elusive.OrdMap.{OrdMap, get, insert, remove}
use elusive.Vfs
use elusive.Newc.{serialize}
use elusive.Encoder
use elusive.Encoder.{Encoder, EncoderError}
use elusive.Encoder.Stream.{GzEncoder, ZstdEncoder, write_archive}
use elusive.Config
use elusive.Initramfs
use elusive.Initramfs.{Env, InitramfsError, from_config}
use elusive.Microcode
use elusive.Microcode.{MicrocodeError}
use elusive.Io.{
  Machine, Drive, Output, Stream, input_from_path, reads, output_from_path, held_by, hold, write,
}
use elusive.Io.Buffer.{BufWriter}

-- `DEFAULT_CONFIG_PATH`
unfoldable pub default_config_path : FilePath
unfolding parse
default_config_path = parse (codes "/etc/elusive.yaml")

-- `DEFAULT_CONFDIR_PATHS`
unfoldable pub default_confdir_paths : List FilePath
unfolding parse
default_confdir_paths =
    parse (codes "/etc/elusive.d") ∷ parse (codes "/usr/share/elusive/elusive.d") ∷ []

pub data YamlError : Type 0 where
  yaml_error : ℕ → YamlError

-- `ConfigurationError`, and the errors that `anyhow` takes in.
pub data CliError : Type 0 where
  skip_without_parameter : CliError
  unknown_module : Bytes → CliError
  expected_file : FilePath → CliError
  expected_directory : FilePath → CliError
  io_failed : IoError → CliError
  yaml_failed : YamlError → CliError
  initramfs_failed : InitramfsError → CliError
  microcode_failed : MicrocodeError → CliError
  encoder_failed : EncoderError → CliError

pub data Command : Type 0 where
  initramfs : Option FilePath → Option FilePath → FilePath → Command
  microcode : FilePath → Command

pub record Args : Type 0 where
  pub config : Option FilePath
  pub confdir : Option (List FilePath)
  pub skip_default_paths : Bool
  pub encoder : Option Encoder
  pub command : Command

-- What the program runs on: the machine, the builder's libraries, the compressors with their states,
-- the number of processors, the capacity of a `BufWriter`, and serde_yaml.
pub record System : Type 1 where
  pub machine : Machine
  pub env : Env
  pub gzip_state : Type 0
  pub zstd_state : Type 0
  pub gz : GzEncoder (BufWriter Bytes) gzip_state
  pub zs : ZstdEncoder (BufWriter Bytes) zstd_state
  pub nproc : ℕ
  pub buffer_size : ℕ
  pub parse_initramfs : Bytes → Result YamlError Config.Initramfs
  pub parse_microcode : Bytes → Result YamlError Config.Microcode
  pub parse_module : Bytes → Result YamlError Config.Module

-- `let config_path = match …`
unfoldable pub config_path : Option FilePath → Bool → Result CliError FilePath
config_path (some path) skip = ok path
config_path none false = ok default_config_path
config_path none true = err skip_without_parameter

-- `let confdir_paths = match …`
unfoldable pub confdir_paths : Option (List FilePath) → Bool → Result CliError (List FilePath)
confdir_paths (some paths) false = ok (paths ++ default_confdir_paths)
confdir_paths (some paths) true = ok paths
confdir_paths none false = ok default_confdir_paths
confdir_paths none true = err skip_without_parameter

module _ (sys : System) where
  abbrev pub read_file : FilePath → Result CliError Bytes
  read_file p = map_err io_failed (sys.env.host.read p)

  -- The top-level configuration.
  abbrev pub load_config :
      {A : Type 0} → (Bytes → Result YamlError A) → FilePath → Result CliError A
  load_config parse_yaml p =
      if not (sys.env.host.exists p) || not (sys.machine.is_file p)
      then err (expected_file p)
      else (and_then (read_file p) λ bytes. map_err yaml_failed (parse_yaml bytes))

  abbrev pub Modules : Type 0
  Modules = OrdMap Bytes Config.Module

  -- One entry of a configuration directory.
  unfoldable pub load_entry : Result IoError DirEntry → Modules → Result CliError Modules
  unfolding insert list_ord
  load_entry item modules = and_then (map_err io_failed item) λ entry.
      if sys.machine.is_file entry.path
      then (and_then (read_file entry.path) λ bytes.
          and_then (map_err yaml_failed (sys.parse_module bytes)) λ m. ok (insert m.name m modules))
      else ok modules

  unfoldable pub load_entries : List (Result IoError DirEntry) → Modules → Result CliError Modules
  unfolding load_entry
  load_entries [] modules = ok modules
  load_entries (item ∷ items) modules = and_then (load_entry item modules) (load_entries items)

  -- One configuration directory, which need not exist.
  unfoldable pub load_dir : FilePath → Modules → Result CliError Modules
  unfolding load_entries
  load_dir p modules =
      if not (sys.env.host.exists p)
      then ok modules
      else if not (sys.machine.is_dir p)
      then err (expected_directory p)
      else (and_then (map_err io_failed (sys.env.host.read_dir p))
          λ items. load_entries items modules)

  -- `for path in confdir_paths`
  unfoldable pub load_dirs : List FilePath → Modules → Result CliError Modules
  unfolding load_dir
  load_dirs [] modules = ok modules
  load_dirs (p ∷ ps) modules = and_then (load_dir p modules) (load_dirs ps)

-- `for name in &config.modules`
unfoldable pub select :
    List Bytes → OrdMap Bytes Config.Module → Result CliError (List Config.Module)
unfolding get remove list_ord
select [] modules = ok []
select (name ∷ names) modules =
    and_then (ok_or (get name modules) (unknown_module name))
      λ m. map_ok (λ selected. m ∷ selected) (select names (remove name modules))

-- `if let Some(path) = modules`
abbrev pub override_modules : Option FilePath → Config.Initramfs → Config.Initramfs
override_modules none config = config
override_modules (some p) config = record config {
  settings = record { kernel_module_path = some p };
}

-- What `from_config` has built, and its error.
abbrev pub built : Result InitramfsError Unit × Vfs.Vfs → Result CliError Vfs.Vfs
built (r, v) = map_err initramfs_failed (map_ok (λ _. v) r)

abbrev pub unwrap_or_zstd : Option Encoder → Encoder
unwrap_or_zstd none = Encoder.zstd
unwrap_or_zstd (some encoder) = encoder

abbrev pub Program : Type 0 → Type 0
Program A = Exec Drive CliError A

abbrev pub on_drive : {A : Type 0} → Exec Drive IoError A → Program A
on_drive m w = let r = m w in (map_err io_failed r.0, r.1)

module _ (sys : System) where
  -- The configuration with the modules that it selects.
  unfoldable pub configure :
      Args → Option FilePath → Result CliError (Config.Initramfs × List Config.Module)
  unfolding config_path confdir_paths load_dirs select
  configure args modules = and_then (config_path args.config args.skip_default_paths) λ config_path.
      and_then (confdir_paths args.confdir args.skip_default_paths) λ confdir_paths.
        and_then (load_config sys sys.parse_initramfs config_path) λ config.
          and_then (load_dirs sys confdir_paths []) λ available.
            map_ok (λ selected. (override_modules modules config, selected))
              (select config.modules available)

  -- The bytes of the initramfs, up to its serialization.
  unfoldable pub initramfs_bytes : ℕ → Args → Option FilePath → Result CliError Bytes
  unfolding configure serialize
  initramfs_bytes fuel args modules = and_then (configure args modules) λ (config, selected).
      and_then (built (Initramfs.build sys.env fuel config selected))
        λ v. map_err io_failed (serialize (Initramfs.into_archive v))

  -- The bytes of the microcode bundle, up to its serialization.
  unfoldable pub microcode_bytes : Args → Result CliError Bytes
  unfolding config_path confdir_paths serialize
  microcode_bytes args = and_then (config_path args.config args.skip_default_paths) λ config_path.
      and_then (confdir_paths args.confdir args.skip_default_paths) λ _.
        and_then (load_config sys sys.parse_microcode config_path) λ config.
          and_then (map_err microcode_failed (Microcode.from_config sys.env.host config))
            λ bundle. map_err io_failed (serialize (Microcode.into_archive bundle))

  -- `if let Some(path) = ucode`: what will be copied.
  unfoldable pub open_ucode : Option FilePath → Program (Option Stream)
  unfolding input_from_path reads
  open_ucode none = pure none
  open_ucode (some p) = do
    read ← on_drive (input_from_path sys.env.host sys.machine p)
    pure (some (reads sys.machine read))

  -- The copy and `encoder.encode(&serialized, output)?`, through the `BufWriter`.
  unfoldable pub write_output : Output → Encoder → Option Stream → Bytes → Program Unit
  unfolding write_archive write hold
  write_output output encoder ucode bytes w =
      let r =
        write_archive (write sys.machine output) sys.buffer_size io_failed encoder_failed sys.gz
          sys.zs sys.nproc encoder ucode bytes (held_by output w) in
      (r.0, hold output r.1 w)

  -- `elusive`
  unfoldable pub run : ℕ → Args → Program Unit
  unfolding initramfs_bytes microcode_bytes open_ucode output_from_path write_output
  run fuel args = elim args.command [
    | initramfs ucode modules output ↦ do
      serialized ← lift (initramfs_bytes fuel args modules)
      output ← on_drive (output_from_path sys.env.host sys.machine output)
      read ← open_ucode ucode
      write_output output (unwrap_or_zstd args.encoder) read serialized
    | microcode output ↦ do
      serialized ← lift (microcode_bytes args)
      output ← on_drive (output_from_path sys.env.host sys.machine output)
      write_output output (unwrap_or_zstd args.encoder) none serialized
  ]
