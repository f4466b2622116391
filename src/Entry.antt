-- ===== src/Entry.antt =====
-- crates/elusive/src/vfs.rs: `Metadata` and `Entry`, and how an entry is read from a file.
use elusive.Base.{
  ℕ, Bool, not, Option, none, some, Bytes, ◌==◌, if◌then◌else◌, ℤ, pos, negsuc, Result, ok, panic,
  and_then, map_ok,
}
use elusive.Device.{major, minor}
use elusive.Host.{IoError, HostFile}

abbrev pub directory_mode : ℕ
directory_mode = 0o040_755

abbrev pub file_mode : ℕ
file_mode = 0o100_644

abbrev pub symlink_mode : ℕ
symlink_mode = 0o120_000

pub record Metadata : Type 0 where
  pub mode : ℕ
  pub uid : ℕ
  pub gid : ℕ
  pub nlink : ℕ
  pub mtime : ℕ
  pub dev_major : ℕ
  pub dev_minor : ℕ
  pub rdev_major : ℕ
  pub rdev_minor : ℕ

-- `..Default::default()` with the mode given.
abbrev pub with_mode : ℕ → Metadata
with_mode mode = record {
  mode = mode;
  uid = 0;
  gid = 0;
  nlink = 0;
  mtime = 0;
  dev_major = 0;
  dev_minor = 0;
  rdev_major = 0;
  rdev_minor = 0;
}

pub record Entry : Type 0 where
  pub metadata : Metadata
  pub content : Option Bytes

abbrev pub directory : Entry
directory = record { metadata = with_mode directory_mode; content = none }

abbrev pub file : Bytes → Entry
file content = record { metadata = with_mode file_mode; content = some content }

-- The target as it is written.
abbrev pub symlink : Bytes → Entry
symlink target = record { metadata = with_mode symlink_mode; content = some target }

abbrev pub is_dir : Entry → Bool
is_dir e = e.metadata.mode == directory_mode

abbrev pub is_file : Entry → Bool
is_file e = e.metadata.mode == file_mode

abbrev pub is_symlink : Entry → Bool
is_symlink e = e.metadata.mode == symlink_mode

-- `try_into::<u64>().expect(…)` on an `i64`.
abbrev pub to_u64 : ℤ → Result IoError ℕ
to_u64 (pos n) = ok n
to_u64 (negsuc n) = panic

-- `Entry::try_from(file)`
unfoldable pub try_from : HostFile → Result IoError Entry
unfolding major minor
try_from f = and_then f.metadata λ m. and_then (to_u64 m.mtime) λ mtime.
    let metadata = record (with_mode m.mode) {
      mtime = mtime;
      rdev_major = major m.rdev;
      rdev_minor = minor m.rdev;
    } in
    if not m.is_dir
    then map_ok (λ buf. record { metadata = metadata; content = some buf }) f.read_to_end
    else ok (record { metadata = metadata; content = none })
