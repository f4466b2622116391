-- ===== src/Tests/Program.antt =====
-- Runs of the theorems on the program.
use elusive.Base.{
  ℕ, arith, append_assoc, ◌++◌, true, false, not, Bool, panic, diverge, none, some, [], ◌∷◌, ◌≡◌,
  ◌↔◌, refl, codes, Bytes, sym, ok, err, Result,
}
use elusive.Base.Order
use elusive.Text
use elusive.FilePath
use elusive.FilePath.{FilePath, root_dir, normal, parent, join, path_ord}
use elusive.Host.{IoError, not_found}
use elusive.OrdMap
use elusive.OrdMap.{get, insert}
use elusive.Device
use elusive.Entry
use elusive.Vfs
use elusive.Newc
use elusive.Kmod
use elusive.Encoder
use elusive.Config
use elusive.Initramfs
use elusive.Initramfs.{Env}
use elusive.Io.{Machine, Drive, Output, Stream, output_from_path, set_file, write}
use elusive.Io.Buffer.{BufWriter}
use elusive.Io.Buffer.Delivery.{Takes, total}
use elusive.Encoder.Stream.Refinement.{Compressors, Compresses}
use elusive.Cli
use elusive.Cli.{
  System, Args, Command, initramfs, microcode, select, run, io_failed, initramfs_bytes,
}
use elusive.Cli.Selection.{select-ok_iff, Distinct, Finds}
use elusive.Cli.Configuration.{Selects, configure-Selects}
use elusive.Io
use elusive.Cli.Success.{Creates, run-Leaves}
use elusive.Cli.Frame.{run-frame}
use elusive.Cli.Run.{Leaves, to_file, run-Holds, run-ucode_missing, Holds}
use elusive.Tests.Machine.{host, env}

abbrev pub file : Bytes → FilePath
file name = root_dir ∷ normal name ∷ []

-- The microcode bundle.
abbrev two_reads : Stream
two_reads = record { chunks = (1 ∷ []) ∷ (2 ∷ []) ∷ []; ending = ok tt }

-- Every call of `write` takes one byte.
abbrev one_byte : Output → Bytes → Bytes → Result IoError ℕ
one_byte output held [] = ok 0
one_byte output held (b ∷ bytes) = ok 1

abbrev machine : Machine
machine = record {
  is_file = λ p. true;
  is_dir = λ p. true;
  current_dir = ok (root_dir ∷ []);
  create = λ p. ok tt;
  locate = λ p. p;
  stdin = record { chunks = []; ending = ok tt };
  open_input = λ p. ok two_reads;
  divide = λ bytes. bytes ∷ [];
  accept = one_byte;
}

abbrev pub plain : Config.Initramfs
plain = record {
  init = file (codes "sbin");
  shutdown = none;
  settings = record { kernel_module_path = none };
  modules = [];
}

-- A machine without a directory of configurations, and where `/u` is not there.
abbrev pub system : System
system = record {
  machine = machine;
  env = env;
  gzip_state = Bytes;
  zstd_state = Bytes;
  gz = record {
    new = [];
    write_all = λ bytes (z, out). (ok tt, (z ++ bytes, out));
    finish = λ z out. (ok tt, record out { buf = out.buf ++ z });
  };
  zs = record {
    new = ok [];
    multithread = λ n z. ok z;
    write_all = λ bytes (z, out). (ok tt, (z ++ bytes, out));
    finish = λ z out. (ok tt, record out { buf = out.buf ++ (1 ∷ z) });
  };
  nproc = 4;
  buffer_size = 8192;
  parse_initramfs = λ bytes. ok plain;
  parse_microcode = λ bytes. ok (record { amd_ucode = none; intel_ucode = none });
  parse_module = λ bytes. err (Cli.yaml_error 1);
}

abbrev args_of : Command → Args
args_of command = record {
  config = some (file (codes "c"));
  confdir = some [];
  skip_default_paths = true;
  encoder = none;
  command = command;
}

abbrev pub empty : Drive
empty = record { stdout = []; files = [] }

abbrev pub to_image : Args
to_image = args_of (initramfs none none (file (codes "i")))

abbrev pub streams : Compressors
streams = record { gz_encode = λ bytes. bytes; zstd_encode = λ bytes. 1 ∷ bytes }

pub image-Takes : Takes Bytes (to_file system (file (codes "i"))) (λ x. x)
unfolding write
image-Takes = record { takes = λ b bytes w. (0, omega arith, refl, refl) }

abbrev image_held : BufWriter Bytes → Bytes
image_held = total (to_file system (file (codes "i"))) (λ x. x) image-Takes

image-Compresses : Compresses system.gz system.zs 4 image_held streams Encoder.zstd
image-Compresses = (
  [],
  [],
  refl,
  refl,
  (λ bytes out. (refl, refl, sym (append_assoc out.inner out.buf (1 ∷ bytes)))),
)

abbrev image_run : Result Cli.CliError Unit × Drive
image_run = run system 1 to_image empty

-- The bundle `/u`, which is not there: `exists` fails for it alone.
abbrev without_ucode : System
without_ucode = record system {
  env = record env { host = record host { exists = λ p. not (Order.same p (file (codes "u"))) } };
}

abbrev with_ucode : Args
with_ucode = args_of (initramfs (some (file (codes "u"))) none (file (codes "i")))

-- What is serialized for the image.
abbrev value_or_empty : Result Cli.CliError Bytes → Bytes
value_or_empty (ok bytes) = bytes
value_or_empty _ = []

abbrev is_ok : Result Cli.CliError Bytes → Bool
is_ok (ok bytes) = true
is_ok _ = false

is_ok-ok : (r : Result Cli.CliError Bytes) → is_ok r ≡ true → r ≡ ok (value_or_empty r)
is_ok-ok (ok bytes) h = refl
is_ok-ok (err e) h = cc
is_ok-ok panic h = cc
is_ok-ok diverge h = cc

abbrev pub plain_bytes : Bytes
plain_bytes = value_or_empty (initramfs_bytes system 1 to_image none)

pub plain_made : initramfs_bytes system 1 to_image none ≡ ok plain_bytes
unfolding initramfs_bytes Cli.configure Cli.config_path Cli.confdir_paths Cli.load_dirs select
    Initramfs.from_config Initramfs.new Initramfs.add_entrypoint Initramfs.each Vfs.create_dir
    Vfs.create_entry Vfs.create_dir_all Entry.try_from Vfs.contains Vfs.contains_file
    Vfs.contains_dir Vfs.create_dirs FilePath.parse Text.split parent FilePath.ancestors
    FilePath.prefixes join path_ord Order.list_ord FilePath.component_ord insert get Kmod.new
    Kmod.get_kernel_release Kmod.kmod_init_ctx Text.is_utf8 Text.nul_terminated Device.major
    Device.minor FilePath.to_bytes Newc.serialize Newc.serialize_entries Newc.serialize_entry
    FilePath.strip_prefix OrdMap.sort_by_key
plain_made = is_ok-ok (initramfs_bytes system 1 to_image none) refl

pub can_create : Creates system (file (codes "i")) (file (codes "i"))
unfolding path_ord parent
can_create = record { not_dash = refl; absolute = refl; parent_there = refl; creates = refl }

image_run-ok : image_run ≡ (ok tt, image_run.1)
unfolding Cli.open_ucode
image_run-ok = λ i. (
  (run-Leaves system 1 to_image none none (file (codes "i")) (file (codes "i")) streams plain_bytes
        none empty image-Takes refl plain_made can_create refl tt image-Compresses).0
      i,
  image_run.1,
)

run-Holds_example :
    (serialized : Bytes) × (initramfs_bytes system 1 to_image none ≡ ok serialized)
    × Holds system none (file (codes "i")) streams Encoder.zstd serialized empty image_run.1
unfolding path_ord
run-Holds_example =
    run-Holds system 1 to_image none none (file (codes "i")) (file (codes "i")) streams empty
      image_run.1 image-Takes refl refl refl image-Compresses image_run-ok

abbrev old : Drive
old = record { stdout = []; files = (file (codes "i"), 7 ∷ []) ∷ [] }

run-ucode_missing_example :
    run without_ucode 1 with_ucode old
    ≡ (err (io_failed (not_found (file (codes "u")))), set_file (file (codes "i")) [] old)
unfolding initramfs_bytes Cli.configure Cli.config_path Cli.confdir_paths Cli.load_dirs select
    Initramfs.from_config Initramfs.new Initramfs.add_entrypoint Initramfs.each Vfs.create_dir
    Vfs.create_entry Vfs.create_dir_all Entry.try_from Vfs.contains Vfs.contains_file
    Vfs.contains_dir Vfs.create_dirs FilePath.parse Text.split parent FilePath.ancestors
    FilePath.prefixes join path_ord Order.list_ord FilePath.component_ord insert get Kmod.new
    Kmod.get_kernel_release Kmod.kmod_init_ctx Text.is_utf8 Text.nul_terminated Device.major
    Device.minor FilePath.to_bytes Newc.serialize Newc.serialize_entries Newc.serialize_entry
    FilePath.strip_prefix OrdMap.sort_by_key
run-ucode_missing_example =
    run-ucode_missing without_ucode 1 with_ucode (file (codes "u")) none (file (codes "i"))
      (file (codes "i")) (value_or_empty (initramfs_bytes without_ucode 1 with_ucode none)) old refl
      (is_ok-ok (initramfs_bytes without_ucode 1 with_ucode none) refl) refl refl refl refl refl
      refl refl

abbrev to_bundle : Args
to_bundle = args_of (microcode (file (codes "i")))

abbrev other : FilePath
other = root_dir ∷ []

abbrev kept : Drive
kept = record { stdout = []; files = (other, 9 ∷ []) ∷ (file (codes "i"), 7 ∷ []) ∷ [] }

run-frame_example : get other (run system 1 to_bundle kept).1.files ≡ get other kept.files
run-frame_example = run-frame system 1 to_bundle other kept (λ p e n. cc)

abbrev module_of : Bytes → Config.Module
module_of name = record {
  name = name;
  binaries = [];
  files = [];
  symlinks = [];
  kernel_modules = [];
  units = [];
}

abbrev available : OrdMap.OrdMap Bytes Config.Module
available = (codes "a", module_of (codes "a")) ∷ (codes "bb", module_of (codes "bb")) ∷ []

select-ok_iff_example :
    (select (codes "bb" ∷ codes "a" ∷ []) available
      ≡ ok (module_of (codes "bb") ∷ module_of (codes "a") ∷ []))
    ↔ (Distinct (codes "bb" ∷ codes "a" ∷ [])
        × Finds available
            (codes "bb" ∷ codes "a" ∷ [])
            (module_of (codes "bb") ∷ module_of (codes "a") ∷ []))
unfolding Order.list_ord
select-ok_iff_example =
    select-ok_iff (codes "bb" ∷ codes "a" ∷ []) available
      (module_of (codes "bb") ∷ module_of (codes "a") ∷ []) (refl, (tt, tt))

-- A directory with one module, which the configuration selects.
abbrev with_module : System
with_module = record system {
  env = record env {
    host = record host {
      read = λ p. ok (codes "m");
      read_dir = λ p. ok (ok (record { path = file (codes "m"); is_file = ok true }) ∷ []);
    };
  };
  parse_initramfs = λ bytes. ok (record plain { modules = codes "m" ∷ [] });
  parse_module = λ bytes. ok (module_of bytes);
}

abbrev from_directory : Args
from_directory = record to_image { confdir = some (file (codes "d") ∷ []) }

configure-Selects_example :
    Selects with_module from_directory (codes "m" ∷ []) (module_of (codes "m") ∷ [])
unfolding Cli.configure Cli.config_path Cli.confdir_paths Cli.load_dirs Cli.load_dir
    Cli.load_entries Cli.load_entry select insert get OrdMap.remove Order.list_ord
configure-Selects_example =
    configure-Selects with_module from_directory none (record plain { modules = codes "m" ∷ [] })
      (module_of (codes "m") ∷ []) refl

abbrev image_bytes : Bytes
image_bytes = value_or_empty (initramfs_bytes system 1 with_ucode none)

run-Leaves_example :
    Leaves (run system 1 with_ucode old) (file (codes "i")) (1 ∷ 2 ∷ 1 ∷ image_bytes)
unfolding initramfs_bytes Cli.configure Cli.config_path Cli.confdir_paths Cli.load_dirs select
    Initramfs.from_config Initramfs.new Initramfs.add_entrypoint Initramfs.each Vfs.create_dir
    Vfs.create_entry Vfs.create_dir_all Entry.try_from Vfs.contains Vfs.contains_file
    Vfs.contains_dir Vfs.create_dirs FilePath.parse Text.split parent FilePath.ancestors
    FilePath.prefixes join path_ord Order.list_ord FilePath.component_ord insert get Kmod.new
    Kmod.get_kernel_release Kmod.kmod_init_ctx Text.is_utf8 Text.nul_terminated Device.major
    Device.minor FilePath.to_bytes Newc.serialize Newc.serialize_entries Newc.serialize_entry
    FilePath.strip_prefix OrdMap.sort_by_key Io.input_from_path Io.reads Cli.open_ucode
run-Leaves_example =
    run-Leaves system 1 with_ucode (some (file (codes "u"))) none (file (codes "i"))
      (file (codes "i")) streams image_bytes (some two_reads) old image-Takes refl
      (is_ok-ok (initramfs_bytes system 1 with_ucode none) refl) can_create refl refl
      image-Compresses
