-- ===== src/Host.antt =====
-- The machine that the program runs on. The file system is not under the repository, so it is a
-- parameter: a record of what each call of `std::fs`, `std::path` and `walkdir` answers.
use elusive.Base.{ℕ, ℤ, Bool, List, Bytes, Result}
use elusive.FilePath.{FilePath}

-- `io::Error`: the kinds that the program makes itself, and those of the system.
pub data IoError : Type 0 where
  not_found : FilePath → IoError
  interior_nul : ℕ → IoError
  invalid_data write_zero : IoError
  os_error : ℕ → IoError

-- What `std::fs::Metadata` tells of a file.
pub record HostMetadata : Type 0 where
  pub mode : ℕ
  pub mtime : ℤ
  pub rdev : ℕ
  pub is_dir : Bool

-- An open `std::fs::File`.
pub record HostFile : Type 0 where
  pub metadata : Result IoError HostMetadata
  pub read_to_end : Result IoError Bytes

-- An entry of `fs::read_dir`: its path, and whether its type is that of a regular file.
pub record DirEntry : Type 0 where
  pub path : FilePath
  pub is_file : Result IoError Bool

-- `walkdir::Error`
pub data WalkError : Type 0 where
  walk_error : ℕ → WalkError

pub record Host : Type 0 where
  -- `Path::exists`
  pub exists : FilePath → Bool
  -- `File::open`
  pub open_file : FilePath → Result IoError HostFile
  -- `fs::metadata`, of which `file_type().is_dir()` is used
  pub metadata : FilePath → Result IoError HostMetadata
  -- `fs::read`
  pub read : FilePath → Result IoError Bytes
  -- `fs::read_dir`
  pub read_dir : FilePath → Result IoError (List (Result IoError DirEntry))
  -- `WalkDir::new(p).min_depth(1)`
  pub walk : FilePath → List (Result WalkError FilePath)
