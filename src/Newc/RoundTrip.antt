-- ===== src/Newc/RoundTrip.antt =====
-- crates/elusive/src/newc.rs: the whole archive, written by the serializer and read by the
-- reader.
use elusive.Base.{
  ℕ, zero, suc, ◌+◌, ◌%◌, ◌^◌, ◌<◌, ◌≡◌, ◌≢◌, refl, sym, ap, ◌∙◌, true, false, some, List, [], ◌∷◌,
  ◌++◌, append_assoc, append-nil, Bytes, arith, inl, inr, Bool-cases, ==_ne, length, drop, All,
  if◌then◌else◌, ok, map_ok, ◌>>◌, continue, Exec,
}
use elusive.Base.Order.{same, same_refl, same_ne}
use elusive.FilePath.{
  FilePath, root_dir, cur_dir, parent_dir, normal, root, is_absolute, strip_prefix, to_bytes,
  path_ord,
}
use elusive.Host.{IoError}
use elusive.Text.{nul_terminated}
use elusive.Entry
use elusive.Entry.{Entry, Metadata}
use elusive.OrdMap.{IsSorted, sort_by_key}
use elusive.OrdMap.Sorting.{sort_by_key-All, length-sort_by_key, sort_by_key_of_sorted}
use elusive.Vfs.{Vfs, into_iter}
use elusive.Newc.{
  from, NewcSerializer, trailer, trailer_path, ino_offset, file_size, write_entry, serialize_entry,
  serialize_entries, serialize, relative, into_inner,
}
use elusive.Newc.Reader.{Member, read_member, read_archive}
use elusive.Newc.Chunk.{IsAligned, chunk, chunk-IsAligned, append-IsAligned, write_entry-chunk}
use elusive.Newc.Fields.{FitsFields, member_of, read_member-chunk}

-- The name of a path in the archive.
abbrev pub relative_name : FilePath → Bytes
relative_name p = to_bytes (drop 1 p)

-- The path is absolute, and its name and the fields of its header can be written.
pub record IsWritable (p : FilePath) (entry : Entry) : Type 0 where
  pub absolute : is_absolute p ≡ true
  pub no_nul : All (λ b. b ≢ 0) (relative_name p)
  pub not_trailer : relative_name p ≢ trailer
  pub fits :
      FitsFields 0 entry.metadata (file_size entry.content) (length (relative_name p ++ (0 ∷ [])))

nul_terminated-ok :
    (i : ℕ) (bytes : Bytes)
    → All (λ b. b ≢ 0) bytes
    → nul_terminated i bytes ≡ ok (bytes ++ (0 ∷ []))
unfolding nul_terminated
nul_terminated-ok i [] h = refl
nul_terminated-ok i (b ∷ bytes) (n, h) = rw (==_ne b 0 n, nul_terminated-ok (i + 1) bytes h)

relative_absolute : (p : FilePath) → relative (root_dir ∷ p) ≡ ok p
unfolding path_ord strip_prefix
relative_absolute p = refl

-- An entry below the root is written under its name.
serialize_entry-write :
    (p : FilePath) (entry : Entry) (s : NewcSerializer)
    → same p root ≡ false
    → is_absolute p ≡ true
    → All (λ b. b ≢ 0) (relative_name p)
    → serialize_entry p entry s ≡ write_entry entry (relative_name p ++ (0 ∷ [])) s
unfolding serialize_entry
serialize_entry-write (root_dir ∷ p) entry s below a h =
    rw (below, relative_absolute p, nul_terminated-ok 0 (to_bytes p) h)
serialize_entry-write [] entry s below a h = cc
serialize_entry-write (cur_dir ∷ p) entry s below a h = cc
serialize_entry-write (parent_dir ∷ p) entry s below a h = cc
serialize_entry-write (normal n ∷ p) entry s below a h = cc

serialize_entry-root :
    (p : FilePath) (entry : Entry) (s : NewcSerializer)
    → same p root ≡ true
    → serialize_entry p entry s ≡ (ok tt, s)
unfolding serialize_entry
serialize_entry-root p entry s e = rw e

abbrev next_count : ℕ → ℕ
next_count n = (n + 1) % 2 ^ 64

abbrev ino_of : ℕ → ℕ
ino_of n = (n + ino_offset) % 2 ^ 64

-- The members that the entries become; `n` entries are written already, and the root is left out.
unfoldable pub members : ℕ → List (FilePath × Entry) → List Member
members n [] = []
members n ((p, entry) ∷ rest) =
    let later = members (next_count n) rest in
    let here = members n rest in
    if same p root then here else member_of (ino_of n) entry (relative_name p) ∷ later

-- The bytes of the entries, and of the trailer behind them.
unfoldable pub chunks : ℕ → List (FilePath × Entry) → Bytes
chunks n [] = chunk (ino_of n) Entry.directory (trailer ++ (0 ∷ []))
chunks n ((p, entry) ∷ rest) =
    let later = chunks (next_count n) rest in
    let here = chunks n rest in
    if same p root then here else chunk (ino_of n) entry (relative_name p ++ (0 ∷ [])) ++ later

abbrev pub AllWritable : List (FilePath × Entry) → Type 0
AllWritable = All (λ pe. IsWritable pe.0 pe.1)

serialize_trailer :
    (s : NewcSerializer)
    → serialize_entry trailer_path Entry.directory s
      ≡ write_entry Entry.directory (trailer ++ (0 ∷ [])) s
unfolding serialize_entry nul_terminated path_ord to_bytes
serialize_trailer s = refl

abbrev start : ℕ → Bytes → NewcSerializer
start n buf = record { count = n; buf = buf }

serialize_entry-chunk :
    (p : FilePath) (entry : Entry) (n : ℕ) (buf : Bytes)
    → IsWritable p entry
    → same p root ≡ false
    → IsAligned buf
    → serialize_entry p entry (start n buf)
      ≡ (ok tt, start (next_count n) (buf ++ chunk (ino_of n) entry (relative_name p ++ (0 ∷ []))))
serialize_entry-chunk p entry n buf w below a =
    serialize_entry-write p entry (start n buf) below w.absolute w.no_nul
    ∙ write_entry-chunk entry (relative_name p ++ (0 ∷ [])) (start n buf) a

serialize_trailer-chunk :
    (n : ℕ) (buf : Bytes)
    → IsAligned buf
    → serialize_entry trailer_path Entry.directory (start n buf) ≡ (
      ok tt,
      start (next_count n) (buf ++ chunk (ino_of n) Entry.directory (trailer ++ (0 ∷ []))),
    )
serialize_trailer-chunk n buf a =
    serialize_trailer (start n buf)
    ∙ write_entry-chunk Entry.directory (trailer ++ (0 ∷ [])) (start n buf) a

-- The entries and the trailer.
abbrev rest_of : List (FilePath × Entry) → Exec NewcSerializer IoError Unit
rest_of m = serialize_entries m >> serialize_entry trailer_path Entry.directory

rest_of_nil : (s : NewcSerializer) → rest_of [] s ≡ serialize_entry trailer_path Entry.directory s
unfolding serialize_entries
rest_of_nil s = refl

rest_of_cons :
    (p : FilePath) (entry : Entry) (m : List (FilePath × Entry)) (s t : NewcSerializer)
    → serialize_entry p entry s ≡ (ok tt, t)
    → rest_of ((p, entry) ∷ m) s ≡ rest_of m t
unfolding serialize_entries
rest_of_cons p entry m s t e =
    ap
      (λ r.
        ◌>>◌ (λ u. continue r.0 (λ _. serialize_entries m) r.1)
          (serialize_entry trailer_path Entry.directory) s)
      e

serialize_entries-chunks :
    (m : List (FilePath × Entry)) (n : ℕ) (buf : Bytes)
    → AllWritable m
    → IsAligned buf
    → into_inner (rest_of m (start n buf)) ≡ ok (buf ++ chunks n m)
unfolding chunks
serialize_entries-chunks [] n buf w a =
    ap into_inner (rest_of_nil (start n buf) ∙ serialize_trailer-chunk n buf a)
serialize_entries-chunks ((p, entry) ∷ m) n buf (w, ws) a = elim (Bool-cases (same p root)) [
  | inl top ↦
      rw (top, chunks)
        (ap into_inner (rest_of_cons p entry m _ _ (serialize_entry-root p entry (start n buf) top))
          ∙ serialize_entries-chunks m n buf ws a)
  | inr below ↦
      rw (below, chunks)
        (ap into_inner (rest_of_cons p entry m _ _ (serialize_entry-chunk p entry n buf w below a))
          ∙ serialize_entries-chunks m (next_count n) _ ws (
              append-IsAligned buf _ a
                (chunk-IsAligned (ino_of n) entry (relative_name p ++ (0 ∷ []))))
          ∙ ap ok (
              append_assoc buf (chunk (ino_of n) entry (relative_name p ++ (0 ∷ [])))
                (chunks (next_count n) m)))
]

read_archive_more :
    (fuel : ℕ) (s rest : Bytes) (member : Member) (members : List Member)
    → read_member s ≡ some (member, rest)
    → member.name ≢ trailer
    → read_archive fuel rest ≡ some members
    → read_archive (suc fuel) s ≡ some (member ∷ members)
unfolding read_archive
read_archive_more fuel s rest member members e n more = rw (e, same_ne member.name trailer n, more)

read_archive_last :
    (fuel : ℕ) (s rest : Bytes) (member : Member)
    → read_member s ≡ some (member, rest)
    → member.name ≡ trailer
    → read_archive (suc fuel) s ≡ some []
unfolding read_archive
read_archive_last fuel s rest member e n = rw (e, n, same_refl trailer)

with_ino :
    (n : ℕ) (m : Metadata) (size name_size : ℕ)
    → n + ino_offset < 2 ^ 32
    → FitsFields 0 m size name_size
    → FitsFields (ino_of n) m size name_size
with_ino n m size name_size h f = omega arith

read_archive-chunks :
    (m : List (FilePath × Entry)) (n fuel : ℕ)
    → AllWritable m
    → n + length m + ino_offset < 2 ^ 32
    → length m < fuel
    → read_archive fuel (chunks n m) ≡ some (members n m)
unfolding chunks members
read_archive-chunks m n zero w h e = absurd (omega arith)
read_archive-chunks [] n (suc fuel) w h e =
    read_archive_last fuel _ [] (member_of (ino_of n) Entry.directory trailer)
      (ap read_member (sym (append-nil _))
        ∙ read_member-chunk (ino_of n) Entry.directory trailer [] (omega arith))
      refl
read_archive-chunks ((p, entry) ∷ m) n (suc fuel) (w, ws) h e = elim (Bool-cases (same p root)) [
  | inl top ↦
      rw (top, chunks, members) (read_archive-chunks m n (suc fuel) ws (omega arith) (omega arith))
  | inr below ↦
      rw (below, chunks, members)
        (read_archive_more fuel _ _ _ _
          (read_member-chunk (ino_of n) entry (relative_name p) (chunks (next_count n) m)
            (with_ino n entry.metadata _ _ (omega arith) w.fits))
          w.not_trailer (read_archive-chunks m (next_count n) fuel ws (omega arith) (omega arith)))
]

-- the serializer, which pads its one growing buffer to multiples of four, writes what the format
-- says of each member by itself: for the entries in the order of their paths, without the root,
-- numbered from the first inode on, a chunk of header, name and data, each padded by its own
-- length, and the trailer's chunk behind them. Every path must be absolute, its name free of NUL
-- and not the trailer's, and every header field below 2 ^ 32.
pub serialize-chunks :
    (entries : List (FilePath × Entry))
    → AllWritable entries
    → serialize (from entries) ≡ ok (chunks 0 (sort_by_key entries))
unfolding serialize
serialize-chunks entries w =
    serialize_entries-chunks (sort_by_key entries) 0 []
      (sort_by_key-All (λ pe. IsWritable pe.0 pe.1) entries w) refl

-- whatever the order of the entries, the serialized archive reads back, by an independent reader
-- of the newc format, as its members in the order of their paths: nothing is lost, added or
-- changed, and the root alone is left out. Every path must be absolute, its name free of NUL and
-- not the trailer's, and every header field below 2 ^ 32.
pub serialize_reads_back :
    (entries : List (FilePath × Entry))
    → AllWritable entries
    → length entries + ino_offset < 2 ^ 32
    → map_ok (read_archive (suc (length entries))) (serialize (from entries))
      ≡ ok (some (members 0 (sort_by_key entries)))
serialize_reads_back entries w h =
    ap (map_ok (read_archive (suc (length entries)))) (serialize-chunks entries w)
    ∙ ap ok (
        read_archive-chunks (sort_by_key entries) 0 (suc (length entries))
          (sort_by_key-All (λ pe. IsWritable pe.0 pe.1) entries w)
          (omega (arith, length-sort_by_key {0} {K = FilePath} {V = Entry} entries))
          (omega (arith, length-sort_by_key {0} {K = FilePath} {V = Entry} entries)))

-- The archive of a filesystem holds its entries in its own order.
pub serialize-into_iter :
    (v : Vfs)
    → IsSorted v.inner
    → AllWritable (into_iter v)
    → length (into_iter v) + ino_offset < 2 ^ 32
    → map_ok (read_archive (suc (length (into_iter v)))) (serialize (from (into_iter v)))
      ≡ ok (some (members 0 (into_iter v)))
serialize-into_iter v s w h =
    serialize_reads_back (into_iter v) w h ∙ rw (sort_by_key_of_sorted (into_iter v) s)
