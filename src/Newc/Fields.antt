-- ===== src/Newc/Fields.antt =====
-- crates/elusive/src/newc.rs: the chunk of one entry, read by the reader.
use mathlib.Core.Path.{subst}
use elusive.Base.{
  ℕ, ◌+◌, ◌-◌, ◌*◌, ◌^◌, ◌<◌, ◌≡◌, refl, sym, ap, ◌∙◌, Option, none, some, List, [], ◌∷◌, ◌++◌,
  append_assoc, append-nil, Bytes, arith, ==_iff, length, length-append, length-replicate,
  replicate, take, drop, take_append, drop_append, All,
}
use elusive.Base.Order.{same_refl, nat_ord, list_ord}
use elusive.Hex.{format_08x}
use elusive.Hex.Field.{read_hex-format_08x}
use elusive.Entry.{Entry, Metadata}
use elusive.Newc.{magic, header, file_size}
use elusive.Newc.Reader.{
  Member, pad_len, header_len, read_field, read_fields, read_body, read_member,
}
use elusive.Newc.Chunk.{chunk, data_bytes}

-- What a header field of eight digits can hold.
abbrev pub IsU32 : ℕ → Type 0
IsU32 n = n < 2 ^ 32

abbrev pub field_bytes : List ℕ → Bytes
field_bytes [] = []
field_bytes (n ∷ ns) = format_08x n ++ field_bytes ns

read_field-format :
    (n : ℕ) (rest : Bytes) → IsU32 n → read_field (format_08x n ++ rest) ≡ some (n, rest)
unfolding read_field
read_field-format n rest h =
    let (len, value) = read_hex-format_08x n h in
    rw (take_append 8 (format_08x n) rest len, drop_append 8 (format_08x n) rest len, len, value)

read_fields-field_bytes :
    (ns : List ℕ) (rest : Bytes)
    → All IsU32 ns
    → read_fields (length ns) (field_bytes ns ++ rest) ≡ some (ns, rest)
unfolding read_fields
read_fields-field_bytes [] rest h = refl
read_fields-field_bytes (n ∷ ns) rest (h, hs) = rw (
  append_assoc,
  read_field-format n (field_bytes ns ++ rest) h,
  read_fields-field_bytes ns rest hs,
)

pub length-field_bytes : (ns : List ℕ) → All IsU32 ns → length (field_bytes ns) ≡ 8 * length ns
length-field_bytes [] h = refl
length-field_bytes (n ∷ ns) (h, hs) = omega (
  arith,
  length-append (format_08x n) (field_bytes ns),
  (read_hex-format_08x n h).0,
  length-field_bytes ns hs,
)

abbrev pub fields : ℕ → Metadata → ℕ → ℕ → List ℕ
fields ino m size name_size =
    ino ∷ m.mode ∷ m.uid ∷ m.gid ∷ m.nlink ∷ m.mtime ∷ size ∷ m.dev_major ∷ m.dev_minor
    ∷ m.rdev_major ∷ m.rdev_minor ∷ name_size ∷ 0 ∷ []

pub header-fields :
    (ino : ℕ) (m : Metadata) (size name_size : ℕ)
    → header ino m size name_size ≡ magic ++ field_bytes (fields ino m size name_size)
unfolding header
header-fields ino m size name_size = rw append-nil

-- Every number of the header fits its field.
pub record FitsFields (ino : ℕ) (m : Metadata) (size name_size : ℕ) : Type 0 where
  pub ino_fits : IsU32 ino
  pub mode_fits : IsU32 m.mode
  pub uid_fits : IsU32 m.uid
  pub gid_fits : IsU32 m.gid
  pub nlink_fits : IsU32 m.nlink
  pub mtime_fits : IsU32 m.mtime
  pub size_fits : IsU32 size
  pub dev_major_fits : IsU32 m.dev_major
  pub dev_minor_fits : IsU32 m.dev_minor
  pub rdev_major_fits : IsU32 m.rdev_major
  pub rdev_minor_fits : IsU32 m.rdev_minor
  pub name_fits : IsU32 name_size

pub fields-All :
    (ino : ℕ) (m : Metadata) (size name_size : ℕ)
    → FitsFields ino m size name_size
    → All IsU32 (fields ino m size name_size)
fields-All ino m size name_size f = omega arith

abbrev member : ℕ → Metadata → Bytes → Bytes → Member
member ino m name content = record { ino = ino; metadata = m; name = name; content = content }

zeros_dropped : (s rest : Bytes) (k : ℕ) → drop (length s + k) (s ++ (replicate k 0 ++ rest)) ≡ rest
zeros_dropped s rest k =
    ap (λ t. drop (length s + k) t) (sym (append_assoc s (replicate k 0) rest))
    ∙ drop_append (length s + k) (s ++ replicate k 0) rest
        (omega (arith, length-append s (replicate k 0), length-replicate {A = ℕ} k 0))

read_body-member :
    (ino : ℕ) (m : Metadata) (name content rest : Bytes)
    → let name_size = length (name ++ (0 ∷ [])) in
      read_body (fields ino m (length content) name_size) (
        (name ++ (0 ∷ []))
        ++ (replicate (pad_len (header_len + name_size)) 0
            ++ (content ++ (replicate (pad_len (length content)) 0 ++ rest))))
      ≡ some (member ino m name content, rest)
unfolding read_body
read_body-member ino m name content rest = rw (
  after,
  take_append (length filename) filename tail refl,
  front,
  take_append (length content) content more refl,
  zeros_dropped content rest (pad_len (length content)),
  same_refl filename,
  (==_iff (length content) (length content)).1 refl,
)
  where
    filename : Bytes
    filename = name ++ (0 ∷ [])

    more : Bytes
    more = replicate (pad_len (length content)) 0 ++ rest

    tail : Bytes
    tail = replicate (pad_len (header_len + length filename)) 0 ++ (content ++ more)

    after :
        drop (length filename + pad_len (header_len + length filename)) (filename ++ tail)
        ≡ content ++ more
    after = zeros_dropped filename (content ++ more) (pad_len (header_len + length filename))

    front : take (length filename - 1) (filename ++ tail) ≡ name
    front =
        ap (λ t. take (length filename - 1) t) (append_assoc name (0 ∷ []) tail)
        ∙ take_append (length filename - 1) name ((0 ∷ []) ++ tail)
            (omega (arith, length-append name (0 ∷ [])))

length-header :
    (ino : ℕ) (m : Metadata) (size name_size : ℕ)
    → FitsFields ino m size name_size
    → length (header ino m size name_size) ≡ header_len
length-header ino m size name_size f = rw header-fields (
    omega
      (arith, length-field_bytes (fields ino m size name_size) (fields-All ino m size name_size f)))

-- The length of a chunk's padding, with the header counted.
chunk_padding :
    (ino : ℕ) (m : Metadata) (size : ℕ) (filename : Bytes)
    → FitsFields ino m size (length filename)
    → length (header ino m size (length filename) ++ filename) ≡ header_len + length filename
chunk_padding ino m size filename f = omega (
  arith,
  length-append (header ino m size (length filename)) filename,
  length-header ino m size (length filename) f,
)

-- The member of an entry.
abbrev pub member_of : ℕ → Entry → Bytes → Member
member_of ino entry name = member ino entry.metadata name (data_bytes entry.content)

file_size-length : (content : Option Bytes) → file_size content ≡ length (data_bytes content)
file_size-length none = refl
file_size-length (some bytes) = refl

-- The bytes of a chunk, part by part.
layout : List ℕ → Bytes → Bytes → Bytes → Bytes
layout ns filename content rest =
    magic
    ++ (field_bytes ns
        ++ (filename
            ++ (replicate (pad_len (header_len + length filename)) 0
                ++ (content ++ (replicate (pad_len (length content)) 0 ++ rest)))))

chunk-layout :
    (ino : ℕ) (entry : Entry) (filename rest : Bytes)
    → FitsFields ino entry.metadata (file_size entry.content) (length filename)
    → chunk ino entry filename ++ rest
      ≡ layout
          (fields ino entry.metadata (length (data_bytes entry.content)) (length filename))
          filename
          (data_bytes entry.content)
          rest
unfolding layout
chunk-layout ino entry filename rest f =
    rw
      (
        chunk_padding ino entry.metadata (file_size entry.content) filename f,
        header-fields,
        file_size-length entry.content,
      )
      (simp append_assoc)

read_thirteen :
    (ns : List ℕ) (rest : Bytes)
    → length ns ≡ 13
    → All IsU32 ns
    → read_fields 13 (field_bytes ns ++ rest) ≡ some (ns, rest)
read_thirteen ns rest h a =
    subst (λ k. read_fields k (field_bytes ns ++ rest) ≡ some (ns, rest)) h
      (read_fields-field_bytes ns rest a)

read_layout :
    (ns : List ℕ) (filename content rest : Bytes)
    → length ns ≡ 13
    → All IsU32 ns
    → read_member (layout ns filename content rest)
      ≡ read_body ns (
          filename
          ++ (replicate (pad_len (header_len + length filename)) 0
              ++ (content ++ (replicate (pad_len (length content)) 0 ++ rest))))
unfolding layout read_member list_ord
read_layout ns filename content rest h a = rw (read_thirteen ns _ h a)

-- In front of anything else, a chunk reads back as its member.
pub read_member-chunk :
    (ino : ℕ) (entry : Entry) (name rest : Bytes)
    → FitsFields ino entry.metadata (file_size entry.content) (length (name ++ (0 ∷ [])))
    → read_member (chunk ino entry (name ++ (0 ∷ [])) ++ rest)
      ≡ some (member_of ino entry name, rest)
read_member-chunk ino entry name rest f =
    ap read_member (chunk-layout ino entry (name ++ (0 ∷ [])) rest f)
    ∙ read_layout _ (name ++ (0 ∷ [])) (data_bytes entry.content) rest refl (
        rw (file_size-length entry.content) at
          (fields-All ino entry.metadata (file_size entry.content) (length (name ++ (0 ∷ []))) f))
    ∙ read_body-member ino entry.metadata name (data_bytes entry.content) rest
