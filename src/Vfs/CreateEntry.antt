-- ===== src/Vfs/CreateEntry.antt =====
-- `create_entry`: what it puts and what it leaves alone.
use elusive.Base.{false, ◌≡◌, ◌↔◌, ok, arith, if◌then◌else◌, some}
use elusive.Base.Order.{same}
use elusive.FilePath.{FilePath, path_ord}
use elusive.OrdMap.Laws.{get-insert}
use elusive.Entry.{Entry}
use elusive.Vfs.{Vfs, lookup, contains_file, create_entry}

-- create_entry succeeds exactly if its path is not a regular file.
pub create_entry-ok_iff :
    (p : FilePath) (entry : Entry) (v : Vfs)
    → ((create_entry p entry v).0 ≡ ok tt) ↔ (contains_file v p ≡ false)
unfolding create_entry
create_entry-ok_iff p entry v = ground arith

-- after create_entry has succeeded, its path holds the entry, and every other path holds what it
-- held.
pub lookup-create_entry :
    (p q : FilePath) (entry : Entry) (v : Vfs)
    → (create_entry p entry v).0 ≡ ok tt
    → lookup (create_entry p entry v).1 q ≡ (if same q p then some entry else lookup v q)
unfolding create_entry
lookup-create_entry p q entry v h = ground (arith, get-insert q p entry v.inner)
