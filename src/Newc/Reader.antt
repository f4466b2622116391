-- ===== src/Newc/Reader.antt =====
-- The newc format as its documentation describes it, read from the front: an independent account of
-- the bytes that the serializer writes. A member is a header, its name with a NUL, and its data;
-- name and data end with zeros up to a multiple of four bytes. The member `TRAILER!!!` is the last.
use elusive.Base.{
  ℕ, zero, suc, ◌+◌, ◌-◌, ◌%◌, ◌&&◌, Option, none, some, List, [], ◌∷◌, ◌++◌, Bytes, ◌==◌, length,
  take, drop, if◌then◌else◌,
}
use elusive.Base.Order.{same, nat_ord, list_ord}
use elusive.Hex.{read_hex}
use elusive.Entry.{Metadata}
use elusive.Newc.{magic, trailer}

pub record Member : Type 0 where
  pub ino : ℕ
  pub metadata : Metadata
  pub name : Bytes
  pub content : Bytes

-- The zeros behind a part of the given length.
abbrev pub pad_len : ℕ → ℕ
pad_len n = (4 - n % 4) % 4

abbrev pub header_len : ℕ
header_len = 110

infixl 5 ◌>>=◌
abbrev pub ◌>>=◌ : {A B : Type 0} → Option A → (A → Option B) → Option B
none >>= f = none
some a >>= f = f a

unfoldable pub read_field : Bytes → Option (ℕ × Bytes)
unfolding read_hex
read_field s =
    if length (take 8 s) == 8
    then (do n ← read_hex (some 0) (take 8 s); some (n, drop 8 s))
    else none

unfoldable pub read_fields : ℕ → Bytes → Option (List ℕ × Bytes)
unfolding read_field
read_fields zero s = some ([], s)
read_fields (suc k) s = do
  (n, s') ← read_field s
  (ns, rest) ← read_fields k s'
  some (n ∷ ns, rest)

-- The name and the data, by the fields of the header.
unfoldable pub read_body : List ℕ → Bytes → Option (Member × Bytes)
unfolding list_ord
read_body
      (ino ∷ mode ∷ uid ∷ gid ∷ nlink ∷ mtime ∷ size ∷ dev_major ∷ dev_minor ∷ rdev_major
        ∷ rdev_minor ∷ name_size ∷ check ∷ [])
      s =
    let name = take (name_size - 1) s in
    let after = drop (name_size + pad_len (header_len + name_size)) s in
    let content = take size after in
    if same (take name_size s) (name ++ (0 ∷ [])) && length content == size
    then some (
      record {
        ino = ino;
        metadata = record {
          mode = mode;
          uid = uid;
          gid = gid;
          nlink = nlink;
          mtime = mtime;
          dev_major = dev_major;
          dev_minor = dev_minor;
          rdev_major = rdev_major;
          rdev_minor = rdev_minor;
        };
        name = name;
        content = content;
      },
      drop (size + pad_len size) after,
    )
    else none
read_body _ s = none

unfoldable pub read_member : Bytes → Option (Member × Bytes)
read_member s =
    if same (take 6 s) magic
    then (do (fields, rest) ← read_fields 13 (drop 6 s); read_body fields rest)
    else none

-- The members in front of the trailer; `fuel` bounds the members that are read.
unfoldable pub read_archive : ℕ → Bytes → Option (List Member)
read_archive zero s = none
read_archive (suc fuel) s = do
  (member, rest) ← read_member s
  let more = read_archive fuel rest
  if same member.name trailer then some [] else (do members ← more; some (member ∷ members))
