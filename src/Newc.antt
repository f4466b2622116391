-- ===== src/Newc.antt =====
-- crates/elusive/src/newc.rs: the serializer of cpio archives in the newc format.
pub mod Reader
pub mod Chunk
pub mod Fields
pub mod Header
pub mod RoundTrip
pub mod Permutation
pub mod Writable
use elusive.Base.{
  ℕ, ◌+◌, ◌-◌, ◌%◌, ◌^◌, Bool, true, false, Option, none, some, List, [], ◌∷◌, ◌++◌, Bytes, codes,
  ◌==◌, length, replicate, if◌then◌else◌, Result, ok, err, panic, map_ok, map_err, Exec, pure, lift,
  expect, ◌>>=◌, ◌>>◌,
}
use elusive.Base.Order.{same}
use elusive.FilePath.{FilePath, normal, root, strip_prefix, to_bytes, path_ord, component_ord}
use elusive.Hex.{format_08x}
use elusive.OrdMap.{sort_by_key}
use elusive.Host.{IoError, interior_nul}
use elusive.Text.{nul_terminated}
use elusive.Entry
use elusive.Entry.{Entry, Metadata}

-- `MAGIC`
abbrev pub magic : Bytes
magic = codes "070701"

-- `TRAILER`
abbrev pub trailer : Bytes
trailer = codes "TRAILER!!!"

-- `Path::new(TRAILER)`
abbrev pub trailer_path : FilePath
trailer_path = normal trailer ∷ []

abbrev pub ino_offset : ℕ
ino_offset = 1337

pub record Archive : Type 0 where
  pub entries : List (FilePath × Entry)

-- `Archive::from`
abbrev pub from : List (FilePath × Entry) → Archive
from value = record { entries = value }

pub record NewcSerializer : Type 0 where
  pub count : ℕ
  pub buf : Bytes

abbrev pub new : NewcSerializer
new = record { count = 0; buf = [] }

-- `pad_buf`
unfoldable pub pad_buf : Bytes → Bytes
pad_buf buf = let rem = length buf % 4 in if rem == 0 then buf else buf ++ replicate (4 - rem) 0

-- `entry.data`'s length, or 0.
abbrev pub file_size : Option Bytes → ℕ
file_size none = 0
file_size (some bytes) = length bytes

-- The header: the magic number and thirteen fields, the last of them the unused checksum.
unfoldable pub header : ℕ → Metadata → ℕ → ℕ → Bytes
header ino m size filename_len =
    magic
    ++ (format_08x ino
        ++ (format_08x m.mode
            ++ (format_08x m.uid
                ++ (format_08x m.gid
                    ++ (format_08x m.nlink
                        ++ (format_08x m.mtime
                            ++ (format_08x size
                                ++ (format_08x m.dev_major
                                    ++ (format_08x m.dev_minor
                                        ++ (format_08x m.rdev_major
                                            ++ (format_08x m.rdev_minor
                                                ++ (format_08x filename_len
                                                    ++ format_08x 0))))))))))))

-- `write_all(&data)` and the padding behind it, for an entry that has data.
abbrev pub write_data : Option Bytes → Bytes → Bytes
write_data none buf = buf
write_data (some bytes) buf = pad_buf (buf ++ bytes)

-- What `serialize_entry` does from the number of the inode on, with the name that it writes.
abbrev pub write_entry : Entry → Bytes → Exec NewcSerializer IoError Unit
write_entry entry filename s =
    let ino = (s.count + ino_offset) % 2 ^ 64 in
    let head = header ino entry.metadata (file_size entry.content) (length filename) in
    (
      ok tt,
      record {
        count = (s.count + 1) % 2 ^ 64;
        buf = write_data entry.content (pad_buf (s.buf ++ head ++ filename));
      },
    )

-- The path without the root in front, but for the trailer's.
abbrev pub relative : FilePath → Result IoError FilePath
relative p = if same p trailer_path then ok p else expect (strip_prefix root p)

unfoldable pub serialize_entry : FilePath → Entry → Exec NewcSerializer IoError Unit
serialize_entry p entry = if same p root then pure tt else do
  path ← lift (relative p)
  filename ← lift (map_err interior_nul (nul_terminated 0 (to_bytes path)))
  write_entry entry filename

-- `for (path, entry) in self.entries`
unfoldable pub serialize_entries : List (FilePath × Entry) → Exec NewcSerializer IoError Unit
serialize_entries [] = pure tt
serialize_entries ((p, entry) ∷ rest) = serialize_entry p entry >> serialize_entries rest

-- The archive's bytes: its entries in the order of their paths, and the trailer.
abbrev pub serialize_all : List (FilePath × Entry) → Exec NewcSerializer IoError Unit
serialize_all entries =
    serialize_entries (sort_by_key entries) >> serialize_entry trailer_path Entry.directory

abbrev pub into_inner : Result IoError Unit × NewcSerializer → Result IoError Bytes
into_inner (r, s) = map_ok (λ _. s.buf) r

unfoldable pub serialize : Archive → Result IoError Bytes
serialize archive = into_inner (serialize_all archive.entries new)
