-- ===== src/Newc/Permutation.antt =====
-- Archive.serialize of crates/elusive/src/newc.rs: the order of the entries.
use mathlib.Core.List.{Perm}
use elusive.Base.{List, ◌≡◌, ap, ◌>>◌}
use elusive.FilePath.{FilePath, path_ord}
use elusive.OrdMap.Permutations.{DistinctKeys, sort_by_key-perm}
use elusive.Entry
use elusive.Entry.{Entry}
use elusive.Newc.{
  serialize, from, into_inner, serialize_entries, serialize_entry, trailer_path, new,
}

entries_set : IsSet (List (FilePath × Entry))
entries_set = hlevel

-- archives with the same entries in another order serialize to the same result, where no path
-- stands twice.
pub serialize-perm :
    {entries entries' : List (FilePath × Entry)}
    → Perm entries entries'
    → DistinctKeys entries
    → serialize (from entries) ≡ serialize (from entries')
unfolding serialize
serialize-perm p d =
    ap
      (λ sorted.
        into_inner ((serialize_entries sorted >> serialize_entry trailer_path Entry.directory) new))
      (sort_by_key-perm entries_set p d)
