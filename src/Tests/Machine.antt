-- ===== src/Tests/Machine.antt =====
-- A machine for the examples. Every absolute path is a regular file; every binary needs `libc.so`,
-- `libc.so` too; a walk finds a directory `a` and a file `b` in it.
use elusive.Base.{pos, true, false, some, [], ◌∷◌, ◌++◌, codes, ok}
use elusive.FilePath.{normal, is_absolute}
use elusive.Host.{Host, HostFile, HostMetadata}
use elusive.Elf.{ObjectLib, ProgramHeader, elf64, dt_needed, dt_strtab, dt_strsz, pt_dynamic}
use elusive.Kmod.{KmodLib, KmodModule}
use elusive.Systemd.{UnitParser, section, property}
use elusive.Initramfs.{Env}

abbrev pub regular : HostMetadata
regular = record { mode = 0o100644; mtime = pos 5; rdev = 0; is_dir = false }

abbrev pub some_file : HostFile
some_file = record { metadata = ok regular; read_to_end = ok (1 ∷ 2 ∷ []) }

abbrev pub host : Host
host = record {
  exists = is_absolute;
  open_file = λ p. ok some_file;
  metadata = λ p. ok (record regular { is_dir = true });
  read = λ p. ok (codes "[Unit]");
  read_dir = λ p. ok [];
  walk = λ p.
      ok (p ++ (normal (codes "a") ∷ []))
      ∷ ok (p ++ (normal (codes "a") ∷ normal (codes "b") ∷ []))
      ∷ [];
}

abbrev pub dynamic_header : ProgramHeader
dynamic_header = record {
  p_type = pt_dynamic;
  dynamic = ok (
      some (
        record { tag = dt_strtab; val = 64 }
        ∷ record { tag = dt_strsz; val = 8 }
        ∷ record { tag = dt_needed; val = 0 }
        ∷ []));
  data_range = λ address size. ok (some (codes "libc.so"));
}

abbrev pub object : ObjectLib
object = record {
  kind = λ bytes. ok elf64;
  program_headers = λ bytes. ok (dynamic_header ∷ []);
  string_at = λ table offset. some table;
}

-- The one module, which is a file and depends on itself.
abbrev pub loop_module : KmodModule
loop_module = record {
  get_name = some (codes "loop");
  get_path = some (codes "/usr/lib/modules/6.1/kernel/loop.ko");
  get_info = some ((codes "depends", codes "loop") ∷ []);
}

abbrev pub kmod : KmodLib
kmod = record {
  kmod_new = λ dir. some (record {
    new_from_lookup = λ name. some (loop_module ∷ []);
    new_from_path = λ p. some loop_module;
  });
  uname = ok (codes "6.1");
}

-- Every unit requires `loop.target`.
abbrev pub unit_parser : UnitParser
unit_parser content =
    ok (section (codes "Unit") ∷ property (codes "Requires") (codes "loop.target") ∷ [])

abbrev pub env : Env
env = record {
  host = host;
  object = object;
  kmod = kmod;
  unit_parser = unit_parser;
  to_string_lossy = λ bytes. bytes;
  zstd_decode = λ bytes. ok bytes;
  gzip_decode = λ bytes. ok bytes;
}
