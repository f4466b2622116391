-- ===== src/Tests/Archive.antt =====
-- Runs of the theorems on archives.
use elusive.Base.{◌↔◌, ◌≡◌, refl, [], ◌∷◌, codes, ok, some, map_ok, length, arith, List}
use Prim.Native.Nat.{Ordering}
use elusive.FilePath
use elusive.FilePath.{FilePath, root_dir, normal, root, path_ord, parent}
use elusive.OrdMap
use elusive.OrdMap.{contains_key}
use elusive.Base.Order
use elusive.Entry
use elusive.Entry.{Entry}
use elusive.Vfs.{Vfs, contains}
use elusive.Vfs.Growth.{IsTree}
use elusive.Newc.{header}
use elusive.Newc.Fields.{FitsFields}
use elusive.Newc.Header.{length-header_iff}
use elusive.Newc.{serialize, from}
use elusive.Newc.Reader.{read_archive}
use elusive.Newc.RoundTrip.{IsWritable, members, chunks, serialize-chunks, serialize_reads_back}
use elusive.Newc.Permutation.{serialize-perm}
use elusive.OrdMap.Permutations.{DistinctKeys, DistinctKeys-cons}
use mathlib.Core.List.{Pairwise}
use mathlib.Core.List.Perm
use elusive.Newc.Fields.{FitsFields}

abbrev etc : FilePath
etc = root_dir ∷ normal (codes "etc") ∷ []

abbrev motd : FilePath
motd = root_dir ∷ normal (codes "etc") ∷ normal (codes "motd") ∷ []

abbrev hello : Entry
hello = Entry.file (codes "hello")

abbrev shuffled : List (FilePath × Entry)
shuffled = (motd, hello) ∷ (root, Entry.directory) ∷ (etc, Entry.directory) ∷ []

motd_fits : FitsFields 0 hello.metadata 5 9
motd_fits = record {
  ino_fits = omega arith;
  mode_fits = omega arith;
  uid_fits = omega arith;
  gid_fits = omega arith;
  nlink_fits = omega arith;
  mtime_fits = omega arith;
  size_fits = omega arith;
  dev_major_fits = omega arith;
  dev_minor_fits = omega arith;
  rdev_major_fits = omega arith;
  rdev_minor_fits = omega arith;
  name_fits = omega arith;
}

motd-IsWritable : IsWritable motd hello
unfolding FilePath.to_bytes
motd-IsWritable = record {
  absolute = refl;
  no_nul = (
    (λ e. cc),
    ((λ e. cc), ((λ e. cc), ((λ e. cc), ((λ e. cc), ((λ e. cc), ((λ e. cc), ((λ e. cc), tt))))))),
  );
  not_trailer = λ e. cc;
  fits = motd_fits;
}

etc_fits : FitsFields 0 Entry.directory.metadata 0 4
etc_fits = record {
  ino_fits = omega arith;
  mode_fits = omega arith;
  uid_fits = omega arith;
  gid_fits = omega arith;
  nlink_fits = omega arith;
  mtime_fits = omega arith;
  size_fits = omega arith;
  dev_major_fits = omega arith;
  dev_minor_fits = omega arith;
  rdev_major_fits = omega arith;
  rdev_minor_fits = omega arith;
  name_fits = omega arith;
}

etc-IsWritable : IsWritable etc Entry.directory
unfolding FilePath.to_bytes
etc-IsWritable = record {
  absolute = refl;
  no_nul = ((λ e. cc), ((λ e. cc), ((λ e. cc), tt)));
  not_trailer = λ e. cc;
  fits = etc_fits;
}

root_fits : FitsFields 0 Entry.directory.metadata 0 1
root_fits = record {
  ino_fits = omega arith;
  mode_fits = omega arith;
  uid_fits = omega arith;
  gid_fits = omega arith;
  nlink_fits = omega arith;
  mtime_fits = omega arith;
  size_fits = omega arith;
  dev_major_fits = omega arith;
  dev_minor_fits = omega arith;
  rdev_major_fits = omega arith;
  rdev_minor_fits = omega arith;
  name_fits = omega arith;
}

root-IsWritable : IsWritable root Entry.directory
unfolding FilePath.to_bytes
root-IsWritable = record { absolute = refl; no_nul = tt; not_trailer = λ e. cc; fits = root_fits }

serialize_reads_back_example :
    map_ok (read_archive 4) (serialize (from shuffled))
    ≡ ok (some (members 0 (OrdMap.sort_by_key shuffled)))
serialize_reads_back_example =
    serialize_reads_back shuffled (motd-IsWritable, (root-IsWritable, (etc-IsWritable, tt)))
      (omega arith)

length-header_iff_example :
    (length (header 4096 (Entry.with_mode 0o100644) 4294967296 5) ≡ 110)
    ↔ FitsFields 4096 (Entry.with_mode 0o100644) 4294967296 5
length-header_iff_example = length-header_iff 4096 (Entry.with_mode 0o100644) 4294967296 5

-- `/`, `/etc` and the file `/etc/motd`.
abbrev files : Vfs
files = record { inner = (root, Entry.directory) ∷ (etc, Entry.directory) ∷ (motd, hello) ∷ [] }

etc_after_root : path_ord.cmp etc root ≡ Ordering.gt
unfolding path_ord Order.list_ord FilePath.component_ord
etc_after_root = refl

files-IsTree : IsTree files
unfolding contains OrdMap.get parent
files-IsTree p dir h e = ground (
  arith,
  path_ord.cmp_eq p root,
  path_ord.cmp_eq p etc,
  path_ord.cmp_eq p motd,
  path_ord.cmp_refl root,
  path_ord.cmp_refl etc,
  etc_after_root,
)

shuffled-DistinctKeys : DistinctKeys shuffled
shuffled-DistinctKeys =
    DistinctKeys-cons (motd, hello) _ ((λ e. cc), ((λ e. cc), tt))
      (DistinctKeys-cons (root, Entry.directory) _ ((λ e. cc), tt)
        (DistinctKeys-cons (etc, Entry.directory) [] tt Pairwise.nil))

serialize-perm_example :
    serialize (from shuffled)
    ≡ serialize (from ((root, Entry.directory) ∷ (motd, hello) ∷ (etc, Entry.directory) ∷ []))
serialize-perm_example =
    serialize-perm (Perm.swap (root, Entry.directory) (motd, hello) ((etc, Entry.directory) ∷ []))
      shuffled-DistinctKeys

serialize-chunks_example : serialize (from shuffled) ≡ ok (chunks 0 (OrdMap.sort_by_key shuffled))
serialize-chunks_example =
    serialize-chunks shuffled (motd-IsWritable, (root-IsWritable, (etc-IsWritable, tt)))
