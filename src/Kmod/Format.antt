-- ===== src/Kmod/Format.antt =====
-- ModuleFormat.from_bytes of crates/elusive/src/kmod.rs: the format of a module by its first
-- bytes.
use elusive.Base.{◌++◌, ◌≡◌, ◌≤◌, refl, Bytes, ok, arith, length, ltb, false}
use elusive.Base.Order.{list_ord}
use elusive.Kmod
use elusive.Kmod.{ModuleFormat, from_bytes, format_min_bytes_len, magic_elf, magic_zstd, magic_gz}

-- What a file of the format begins with.
abbrev pub magic_of : ModuleFormat → Bytes
magic_of Kmod.elf = magic_elf
magic_of Kmod.zstd = magic_zstd
magic_of Kmod.gzip = magic_gz

long_enough :
    (bytes : Bytes)
    → format_min_bytes_len ≤ length bytes
    → ltb (length bytes) format_min_bytes_len ≡ false
long_enough bytes h = ground arith

-- a file of at least six bytes that begins with the magic number of a format, ELF, zstd or gzip,
-- is taken for that format.
pub from_bytes-magic :
    (format : ModuleFormat) (rest : Bytes)
    → format_min_bytes_len ≤ length (magic_of format ++ rest)
    → from_bytes (magic_of format ++ rest) ≡ ok format
unfolding from_bytes
from_bytes-magic Kmod.elf rest h = rw (long_enough (magic_elf ++ rest) h) refl
from_bytes-magic Kmod.zstd rest h = rw (long_enough (magic_zstd ++ rest) h) refl
from_bytes-magic Kmod.gzip rest h = rw (long_enough (magic_gz ++ rest) h) refl
