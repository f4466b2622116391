-- ===== src/Newc/Header.antt =====
-- crates/elusive/src/newc.rs: when the header has its fixed size.
use elusive.Base.{
  ℕ, ◌*◌, ◌≤◌, ◌≡◌, ◌↔◌, List, [], ◌∷◌, arith, length, length-append, length-replicate, replicate,
  All, ◌-◌,
}
use elusive.Hex.{lower_hex, format_08x}
use elusive.Hex.Field.{length-format_08x_large}
use elusive.Entry.{Metadata}
use elusive.Newc.{magic, header}
use elusive.Newc.Reader.{header_len}
use elusive.Newc.Fields.{
  IsU32, FitsFields, field_bytes, fields, header-fields, fields-All, length-field_bytes,
}

length-format_08x_ge : (n : ℕ) → 8 ≤ length (format_08x n)
unfolding format_08x
length-format_08x_ge n = omega (
  arith,
  length-append (replicate (8 - length (lower_hex 16 n)) b'0') (lower_hex 16 n),
  length-replicate {A = ℕ} (8 - length (lower_hex 16 n)) b'0',
)

length-field_bytes_ge : (ns : List ℕ) → 8 * length ns ≤ length (field_bytes ns)
length-field_bytes_ge [] = omega arith
length-field_bytes_ge (n ∷ ns) = omega (
  arith,
  length-append (format_08x n) (field_bytes ns),
  length-format_08x_ge n,
  length-field_bytes_ge ns,
)

format_08x-IsU32 : (n : ℕ) → length (format_08x n) ≤ 8 → IsU32 n
format_08x-IsU32 n h = ground (arith, length-format_08x_large n)

field_bytes-All : (ns : List ℕ) → length (field_bytes ns) ≤ 8 * length ns → All IsU32 ns
field_bytes-All [] h = tt
field_bytes-All (n ∷ ns) h =
    let one = length-append (format_08x n) (field_bytes ns) in
    (
      format_08x-IsU32 n (omega (arith, h, one, length-field_bytes_ge ns)),
      field_bytes-All ns (omega (arith, h, one, length-format_08x_ge n)),
    )

-- the header of an entry has the 110 bytes that the format gives it exactly if the number of the
-- inode, the mode, the owner's numbers, the number of links, the time, the size of the data, the
-- device numbers and the size of the name are all below 2 ^ 32; a larger number makes it longer.
pub length-header_iff :
    (ino : ℕ) (m : Metadata) (size name_size : ℕ)
    → (length (header ino m size name_size) ≡ header_len) ↔ FitsFields ino m size name_size
length-header_iff ino m size name_size =
    let ns = fields ino m size name_size in
    let all = length-append magic (field_bytes ns) in
    rw (header-fields ino m size name_size) (
      (λ e.
          let (a, (b, (c, (d, (f, (g, (h, (i, (j, (k, (l, (n, _)))))))))))) =
            field_bytes-All ns (omega (arith, e, all)) in
          record {
            ino_fits = a;
            mode_fits = b;
            uid_fits = c;
            gid_fits = d;
            nlink_fits = f;
            mtime_fits = g;
            size_fits = h;
            dev_major_fits = i;
            dev_minor_fits = j;
            rdev_major_fits = k;
            rdev_minor_fits = l;
            name_fits = n;
          }),
      (λ fits. omega (arith, all, length-field_bytes ns (fields-All ino m size name_size fits))),
    )
