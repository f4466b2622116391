-- ===== src/Initramfs/Files.antt =====
-- Initramfs.add_files of crates/elusive/src/initramfs.rs, and what walkdir documents of a walk.
use mathlib.Core.Path.{subst}
use mathlib.Core.List.{map-append}
use elusive.Base.{
  true, Option, none, some, List, [], ◌∷◌, ◌++◌, ◌≡◌, refl, sym, ap, ◌∙◌, Bytes, map, All, All-map,
  Among, All_Among, append_assoc, append-nil, Result, ok, err, panic, diverge, lift, continue,
  expect, map_err, ◌>>=◌, arith,
}
use elusive.FilePath.{FilePath, normal, parent, join, file_name}
use elusive.FilePath.Names.{parent-append, strip_prefix-append, join_name}
use elusive.Host.{WalkError, HostMetadata}
use elusive.Entry.{Entry, try_from}
use elusive.Vfs.{Vfs, contains, create_entry}
use elusive.Vfs.Growth.{Grows, here, Grows-contains, ParentThere, contains-put_self}
use elusive.Initramfs.{
  Env, InitramfsError, Build, input_output, on_vfs, each, unless_contained, copy_file, copy_missing,
  copy_walked, copy_source, add_source, add_files,
}
use elusive.Initramfs.Growth.{
  GrowsUnder, then-Grows, lift-Grows, unless_contained-Grows, each-Grows, check_exists-Grows,
  copy_file-Grows, if-Grows, place-Grows,
}

-- The path below a directory that the names spell.
abbrev pub below : List Bytes → FilePath
below names = map normal names

-- The rest of a walk, where the directories of `seen` have come: a path that is yielded lies right
-- in one of them.
abbrev pub WalkFrom : FilePath → List (List Bytes) → List (Result WalkError FilePath) → Type 0
WalkFrom source seen [] = Unit
WalkFrom source seen (ok p ∷ rest) =
    (names : List Bytes) × (name : Bytes) × (p ≡ source ++ below (names ++ (name ∷ [])))
    × Among names seen
    × WalkFrom source ((names ++ (name ∷ [])) ∷ seen) rest
WalkFrom source seen (err e ∷ rest) = WalkFrom source seen rest
WalkFrom source seen (panic ∷ rest) = ⊥
WalkFrom source seen (diverge ∷ rest) = ⊥

-- What walkdir documents of a walk of depth at least one: directories come before their contents.
abbrev pub IsWalk : FilePath → List (Result WalkError FilePath) → Type 0
IsWalk source entries = WalkFrom source ([] ∷ []) entries

-- A success puts the path there.
abbrev pub Establishes : FilePath → Build Unit → Type 0
Establishes p m = (v : Vfs) → (m v).0 ≡ ok tt → contains (m v).1 p ≡ true

pub continue-Establishes :
    {A : Type 0} (p : FilePath) (r : Result InitramfsError A) (f : A → Build Unit) (v : Vfs)
    → ((a : A) → Establishes p (f a))
    → (continue r f v).0 ≡ ok tt
    → contains (continue r f v).1 p ≡ true
continue-Establishes p (ok a) f v g h = g a v h
continue-Establishes p (err e) f v g h = cc
continue-Establishes p panic f v g h = cc
continue-Establishes p diverge f v g h = cc

pub create_entry-Establishes :
    (p : FilePath) (entry : Entry) → Establishes p (on_vfs (create_entry p entry))
unfolding create_entry
create_entry-Establishes p entry v h = ground (arith, contains-put_self p entry v)

join-below : (base : FilePath) (names : List Bytes) → join base (below names) ≡ base ++ below names
unfolding join
join-below [] [] = refl
join-below [] (name ∷ names) = refl
join-below (c ∷ base) [] = refl
join-below (c ∷ base) (name ∷ names) = refl

parent-below :
    (base : FilePath) (names : List Bytes) (name : Bytes)
    → parent (base ++ below (names ++ (name ∷ []))) ≡ some (base ++ below names)
parent-below base names name =
    ap parent (
      ap (λ p. base ++ p) (map-append normal names (name ∷ []))
      ∙ sym (append_assoc base (below names) (normal name ∷ [])))
    ∙ parent-append (base ++ below names) (normal name) (λ e. cc)

pub unless_contained-Establishes :
    (p : FilePath) (m : Build Unit) → Establishes p m → Establishes p (unless_contained p m)
unless_contained-Establishes p m g v h = ground (arith, g v)

module _ (env : Env) where
  pub copy_file-Establishes :
      (source dest : FilePath) → Establishes dest (copy_file env source dest)
  copy_file-Establishes source dest v h =
      continue-Establishes dest (map_err input_output (env.host.open_file source)) _ v
        (λ file w.
          continue-Establishes dest (map_err input_output (try_from file)) _ w
            λ entry. create_entry-Establishes dest entry)
        h

  copy_missing-Establishes :
      (source dest : FilePath) → Establishes dest (copy_missing env source dest)
  copy_missing-Establishes source dest =
      unless_contained-Establishes dest (copy_file env source dest)
        (copy_file-Establishes source dest)

  copy_missing-Grows :
      (source dest : FilePath) → GrowsUnder (parent dest) (copy_missing env source dest)
  copy_missing-Grows source dest =
      unless_contained-Grows (parent dest) dest (copy_file env source dest)
        (copy_file-Grows env source dest)

  -- What the program does with an entry of the walk.
  copy_walked-below :
      (source destination : FilePath) (names : List Bytes) (v : Vfs)
      → copy_walked env source destination (ok (source ++ below names)) v
        ≡ copy_missing env (source ++ below names) (destination ++ below names) v
  copy_walked-below source destination names v = rw (strip_prefix-append, join-below) refl

  walk-Grows :
      (source destination : FilePath) (seen : List (List Bytes))
      (entries : List (Result WalkError FilePath)) (v : Vfs)
      → WalkFrom source seen entries
      → All (λ names. contains v (destination ++ below names) ≡ true) seen
      → Grows v (each (copy_walked env source destination) entries v).1
  unfolding each GrowsUnder
  walk-Grows source destination seen [] v w h = here
  walk-Grows source destination seen (err e ∷ rest) v w h = here
  walk-Grows source destination seen (panic ∷ rest) v w h = absurd w
  walk-Grows source destination seen (diverge ∷ rest) v w h = absurd w
  walk-Grows source destination seen (ok p ∷ rest) v (names, name, e, m, w) h =
      subst (λ q. Grows v (each (copy_walked env source destination) (ok q ∷ rest) v).1) (sym e)
        (then-Grows step (λ _. each (copy_walked env source destination) rest) v grown
          λ a done.
            walk-Grows source destination ((names ++ (name ∷ [])) ∷ seen) rest (step v).1 w (
              subst (λ r. r.0 ≡ ok tt → contains r.1 (destination ++ inner) ≡ true) (sym same)
                  (copy_missing-Establishes (source ++ inner) (destination ++ inner) v) done,
              All-map (λ ns. Grows-contains (destination ++ below ns) grown) seen h,
            ))
    where
      inner : FilePath
      inner = below (names ++ (name ∷ []))

      step : Build Unit
      step = copy_walked env source destination (ok (source ++ inner))

      same : step v ≡ copy_missing env (source ++ inner) (destination ++ inner) v
      same = copy_walked-below source destination (names ++ (name ∷ [])) v

      room : ParentThere v (parent (destination ++ inner))
      room =
          subst (ParentThere v) (sym (parent-below destination names name))
            (All_Among (λ ns. contains v (destination ++ below ns) ≡ true) seen names m h)

      grown : Grows v (step v).1
      grown =
          subst (λ r. Grows v r.1) (sym same)
            (copy_missing-Grows (source ++ inner) (destination ++ inner) v room)

  -- A directory is copied under the destination, entry by entry; a file is copied into it.
  copy_source-Grows :
      (destination source : FilePath) (metadata : HostMetadata)
      → IsWalk source (env.host.walk source)
      → GrowsUnder (some destination) (copy_source env destination source metadata)
  unfolding GrowsUnder
  copy_source-Grows destination source metadata w =
      if-Grows (some destination) metadata.is_dir _ _
        (λ v there.
          walk-Grows source destination ([] ∷ []) (env.host.walk source) v w
            (rw append-nil there, tt))
        (copied (file_name source))
    where
      copied :
          (o : Option Bytes)
          → GrowsUnder (some destination) (
              lift (expect o) >>= λ name.
              copy_missing env source (join destination (normal name ∷ [])))
      copied none v there = here
      copied (some name) v there =
          copy_missing-Grows source (join destination (normal name ∷ [])) v
            (rw (join_name, parent-append destination (normal name) (λ e. cc)) there)

  -- add_files, from every filesystem, or from every one that has a given directory, only adds
  -- entries, each below a directory that is there and none over a regular file. The walks through
  -- directories must yield a directory before its contents.
  pub add_files-Grows :
      (o : Option FilePath) (sources : List FilePath) (destination : FilePath)
      → ((source : FilePath) → IsWalk source (env.host.walk source))
      → GrowsUnder o (add_files env sources destination)
  unfolding add_files
  add_files-Grows o sources destination w =
      place-Grows o (some destination) (each (add_source env destination) sources) (
        each-Grows (some destination) (add_source env destination) sources λ source.
          check_exists-Grows env (some destination) source _ (
            lift-Grows (some destination) (map_err input_output (env.host.metadata source)) _
              λ metadata. copy_source-Grows destination source metadata (w source)))
