-- ===== src/Initramfs/Extent.antt =====
-- The methods of the builder in crates/elusive/src/initramfs.rs: the paths that they may add.
pub mod Modules
pub mod Units
pub mod Build
use elusive.Base.{
  ℕ, zero, suc, true, false, Option, none, some, List, [], ◌∷◌, ◌++◌, ◌≡◌, inl, refl, ap, Bytes,
  Among, Result, ok, diverge, lift, map_err, expect, expect-ok, ◌>>=◌, ◌>>◌,
}
use mathlib.Core.Path.{subst}
use elusive.FilePath.{parse, FilePath, root, normal, parent, join, strip_prefix, file_name}
use elusive.FilePath.Prefixes.{from_top}
use elusive.Host.{HostMetadata, WalkError}
use elusive.Entry
use elusive.Elf.{linked_libraries}
use elusive.Initramfs.{
  Env, elf_failed, input_output, walk_failed, on_vfs, each, create_parent, copy_file, copy_missing,
  copy_walked, copy_source, add_source, add_files, put_binary, resolve_binary, add_elf, add_symlink,
  add_entrypoint, check_exists,
}
use elusive.Elf.{find_binary}
use elusive.Vfs.{create_entry}
use elusive.Initramfs.Achieves.{Item, at, program, link}
use elusive.Initramfs.Requests.{Linked, this, library, SourceItem, whole_file, walked}
use elusive.Initramfs.StaysWithin.{
  StaysWithin, IsUpward, bind-StaysWithin, lift-StaysWithin, lift_plain-StaysWithin, if-StaysWithin,
  unless_contained-StaysWithin, each-StaysWithin, create_entry-StaysWithin,
  create_dir_all-StaysWithin, create_parent-StaysWithin, check_exists-StaysWithin,
  copy_file-StaysWithin, put_binary-StaysWithin,
}

-- The paths that an item may lead to are in the set.
abbrev pub Reaches : Env → (FilePath → Type 0) → Item → Type 0
Reaches env S (at p) = S p
Reaches env S (program p) = (q : FilePath) → Linked env q p → S q
Reaches env S (link p target) = S p

module _ (env : Env) (S : FilePath → Type 0) (up : IsUpward S) where
  pub add_symlink-StaysWithin :
      (p : FilePath) (target : Bytes) → S p → StaysWithin S (add_symlink p target)
  unfolding add_symlink
  add_symlink-StaysWithin p target s = unless_contained-StaysWithin S (parse target) _ (
      bind-StaysWithin S (create_parent (parent p)) _ (create_parent-StaysWithin S up p s)
        λ _. create_entry-StaysWithin S p (Entry.symlink target) s)

  pub add_entrypoint-StaysWithin :
      (name : Bytes) (source : FilePath)
      → S (root ++ (normal name ∷ []))
      → StaysWithin S (add_entrypoint env name source)
  unfolding add_entrypoint
  add_entrypoint-StaysWithin name source s =
      let dest = root ++ (normal name ∷ []) in
      unless_contained-StaysWithin S dest _ (
        bind-StaysWithin S (check_exists env source) (λ _. copy_file env source dest)
          (check_exists-StaysWithin S up env source)
          (λ _. copy_file-StaysWithin S up env source dest s))

  pub add_elf-StaysWithin :
      (fuel : ℕ) (name : FilePath)
      → ((p : FilePath) → resolve_binary env name ≡ ok p → Reaches env S (program p))
      → StaysWithin S (add_elf env fuel name)
  unfolding add_elf
  add_elf-StaysWithin zero name s = λ v q h. inl h
  add_elf-StaysWithin (suc fuel) name s =
      lift_plain-StaysWithin S (resolve_binary env name) _ λ p e.
        unless_contained-StaysWithin S p _ (
          bind-StaysWithin S (put_binary env p) _ (put_binary-StaysWithin S up env p (s p e p this))
            λ _.
              lift-StaysWithin S elf_failed (linked_libraries env.host env.object p) _
                λ libraries found. each-StaysWithin S (add_elf env fuel) libraries λ l m.
                  add_elf-StaysWithin fuel l
                    λ next r q n. s p e q (library p l next libraries found m r n))

  copy_missing-StaysWithin :
      (source dest : FilePath) → S dest → StaysWithin S (copy_missing env source dest)
  copy_missing-StaysWithin source dest s =
      unless_contained-StaysWithin S dest (copy_file env source dest)
        (copy_file-StaysWithin S up env source dest s)

  module _ (destination source : FilePath) where
    walked-StaysWithin :
        (metadata : HostMetadata)
        → env.host.metadata source ≡ ok metadata
        → metadata.is_dir ≡ true
        → ((p : FilePath) → SourceItem env destination source (at p) → S p)
        → (entry : Result WalkError FilePath) → Among entry (env.host.walk source)
        → StaysWithin S (copy_walked env source destination entry)
    walked-StaysWithin metadata e d s entry m = lift-StaysWithin S walk_failed entry _ λ p found.
        lift_plain-StaysWithin S (expect (strip_prefix source p)) _ λ inner stripped.
          copy_missing-StaysWithin p (join destination inner) (
            s (join destination inner) (
              walked metadata p inner e d (subst (λ x. Among x (env.host.walk source)) found m)
                (expect-ok (strip_prefix source p) stripped)))

    add_source-StaysWithin :
        ((p : FilePath) → SourceItem env destination source (at p) → S p)
        → StaysWithin S (add_source env destination source)
    add_source-StaysWithin s =
        bind-StaysWithin S (check_exists env source) _ (check_exists-StaysWithin S up env source)
          λ _. lift-StaysWithin S input_output (env.host.metadata source) _ λ metadata e.
            if-StaysWithin S metadata.is_dir _ _
              (λ d.
                each-StaysWithin S (copy_walked env source destination) (env.host.walk source)
                  (walked-StaysWithin metadata e d s))
              λ f. lift_plain-StaysWithin S (expect (file_name source)) _ λ name n.
                copy_missing-StaysWithin source (join destination (normal name ∷ []))
                  (s _ (whole_file metadata name e f (expect-ok (file_name source) n)))

  pub add_files-StaysWithin :
      (sources : List FilePath) (destination : FilePath)
      → S destination
      → ((source p : FilePath)
          → Among source sources
          → SourceItem env destination source (at p)
          → S p)
      → StaysWithin S (add_files env sources destination)
  unfolding add_files
  add_files-StaysWithin sources destination d s =
      bind-StaysWithin S (create_parent (some destination)) _
        (create_dir_all-StaysWithin S destination λ q. up.within destination q d)
        λ _.
          each-StaysWithin S (add_source env destination) sources
            λ source m. add_source-StaysWithin destination source λ p asked. s source p m asked
