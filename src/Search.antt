-- ===== src/Search.antt =====
-- crates/elusive/src/search.rs: the first of some directories that has a file.
pub mod First
use elusive.Base.{Bool, Option, none, some, List, [], ◌∷◌, Bytes, if◌then◌else◌, map, String, codes}
use elusive.FilePath.{FilePath, join, parse}
use elusive.Host.{Host}

-- `list.find(|path| path.exists())`
unfoldable pub find_existing : Host → List FilePath → Option FilePath
find_existing h [] = none
find_existing h (p ∷ ps) = if h.exists p then some p else find_existing h ps

unfoldable pub search_paths : Host → FilePath → List FilePath → Option FilePath
unfolding find_existing
search_paths h name paths = find_existing h (map (λ path. join path name) paths)

-- A table of paths, as the source spells them.
unfoldable pub paths : List String → List FilePath
unfolding parse
paths [] = []
paths (s ∷ ss) = parse (codes s) ∷ paths ss
