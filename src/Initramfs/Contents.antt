-- ===== src/Initramfs/Contents.antt =====
-- The methods of the builder in crates/elusive/src/initramfs.rs: what their success has put.
pub mod Modules
pub mod Units
pub mod Build
use elusive.Base.{
  ℕ, zero, suc, true, false, Option, none, some, List, [], ◌∷◌, ◌++◌, ◌≡◌, refl, sym, ap, inl, inr,
  Bytes, Among, Bool-cases, Result, ok, diverge, lift, map_err, map_err-ok, expect, ◌>>=◌, ◌>>◌,
  arith,
}
use mathlib.Core.Path.{subst}
use elusive.FilePath.{FilePath, root, normal, parse, parent, join, strip_prefix, file_name}
use elusive.Host.{HostMetadata, WalkError}
use elusive.Entry
use elusive.Entry.{try_from}
use elusive.Vfs.{contains, create_dir_all, create_entry}
use elusive.Vfs.CreateAll.{create_dir_all-HoldsDir}
use elusive.Elf.{linked_libraries}
use elusive.Kmod
use elusive.Kmod.{Kmod, Module, module_from_name, is_builtin, install_path}
use elusive.Systemd
use elusive.Systemd.{UnitFile}
use elusive.Initramfs.{
  Env, elf_failed, kmod_failed, input_output, walk_failed, system_failed, on_vfs, each,
  create_parent, copy_file, copy_missing, copy_walked, copy_source, add_source, add_files,
  put_binary, resolve_binary, add_elf, add_symlink, add_entrypoint, unless_contained, check_exists,
  add_module, all_depends, put_module, put_unit, install_unit, unit_target, add_systemd_unit,
}
use elusive.Initramfs.Growth.{GrowsUnder, create_parent-Grows, on_vfs-ok}
use elusive.Initramfs.Steps.{
  add_elf-Grows, add_symlink-Grows, add_module-Grows, add_systemd_unit-Grows,
}
use elusive.Initramfs.Files.{
  Establishes, create_entry-Establishes, copy_file-Establishes, unless_contained-Establishes,
}
use elusive.Initramfs.Elves.{put_binary-Establishes}
use elusive.Initramfs.Achieves.{
  Item, at, link, Achieves, Keeps, bind-Keeps, lift-Keeps, if-Keeps, unless_contained-Keeps,
  each-Keeps, last-Achieves, first-Achieves, found-Achieves, each-Achieves, Grows-Keeps,
  create_entry-Keeps,
}
use elusive.Initramfs.Requests.{NeedsModule, this, dependency, SourceItem, whole_file, walked}

pub add_symlink-Achieves :
    (p : FilePath) (target : Bytes) → Achieves (link p (parse target)) (add_symlink p target)
unfolding add_symlink
add_symlink-Achieves p target v h = elim (Bool-cases (contains v (parse target))) [
  | inl there ↦ rw there (inr there)
  | inr missing ↦ rw missing (
      inl (
        last-Achieves (at p) (create_parent (parent p))
          (λ _. on_vfs (create_entry p (Entry.symlink target)))
          (λ _. create_entry-Establishes p (Entry.symlink target)) v (rw missing at h)))
]

module _ (env : Env) where
  copy_file-Keeps : (i : Item) (source dest : FilePath) → Keeps i (copy_file env source dest)
  copy_file-Keeps i source dest =
      lift-Keeps i (map_err input_output (env.host.open_file source)) _ λ file.
        lift-Keeps i (map_err input_output (try_from file)) _
          λ entry. create_entry-Keeps i dest entry

  check_exists-Keeps : (i : Item) (source : FilePath) → Keeps i (check_exists env source)
  check_exists-Keeps i source = if-Keeps i (env.host.exists source) _ _ (λ v h. h) (λ v h. h)

  pub add_entrypoint-Achieves :
      (name : Bytes) (source : FilePath)
      → Achieves (at (root ++ (normal name ∷ []))) (add_entrypoint env name source)
  unfolding add_entrypoint
  add_entrypoint-Achieves name source = unless_contained-Establishes dest _ (
      last-Achieves (at dest) (check_exists env source) _
        (λ _. copy_file-Establishes env source dest))
    where
      dest : FilePath
      dest = root ++ (normal name ∷ [])

  pub add_entrypoint-Keeps :
      (i : Item) (name : Bytes) (source : FilePath) → Keeps i (add_entrypoint env name source)
  unfolding add_entrypoint
  add_entrypoint-Keeps i name source =
      let dest = root ++ (normal name ∷ []) in
      unless_contained-Keeps i dest _ (
        bind-Keeps i (check_exists env source) (λ _. copy_file env source dest)
          (check_exists-Keeps i source) (λ _. copy_file-Keeps i source dest))

  pub add_elf-Keeps : (i : Item) (fuel : ℕ) (name : FilePath) → Keeps i (add_elf env fuel name)
  add_elf-Keeps i fuel name =
      Grows-Keeps i (add_elf env fuel name) (add_elf-Grows env none fuel name)

  pub add_elf-Achieves :
      (fuel : ℕ) (name p : FilePath)
      → resolve_binary env name ≡ ok p
      → Achieves (at p) (add_elf env fuel name)
  unfolding add_elf
  add_elf-Achieves zero name p e = λ v h. cc
  add_elf-Achieves (suc fuel) name p e = found-Achieves (at p) (resolve_binary env name) _ e (
      unless_contained-Establishes p _ (
        first-Achieves (at p) (put_binary env p) _ (put_binary-Establishes env p) λ _.
          lift-Keeps (at p) (map_err elf_failed (linked_libraries env.host env.object p)) _
            λ libraries.
              each-Keeps (at p) (add_elf env fuel) libraries (add_elf-Keeps (at p) fuel)))

  module _ (i : Item) where
    copy_missing-Keeps : (source dest : FilePath) → Keeps i (copy_missing env source dest)
    copy_missing-Keeps source dest =
        unless_contained-Keeps i dest (copy_file env source dest) (copy_file-Keeps i source dest)

    copy_walked-Keeps :
        (source destination : FilePath) (entry : Result WalkError FilePath)
        → Keeps i (copy_walked env source destination entry)
    copy_walked-Keeps source destination entry = lift-Keeps i (map_err walk_failed entry) _ λ p.
        lift-Keeps i (expect (strip_prefix source p)) _
          λ inner. copy_missing-Keeps p (join destination inner)

    copy_source-Keeps :
        (destination source : FilePath) (metadata : HostMetadata)
        → Keeps i (copy_source env destination source metadata)
    copy_source-Keeps destination source metadata =
        if-Keeps i metadata.is_dir _ _
          (each-Keeps i _ (env.host.walk source) (copy_walked-Keeps source destination))
          (lift-Keeps i (expect (file_name source)) _
            λ name. copy_missing-Keeps source (join destination (normal name ∷ [])))

    add_source-Keeps : (destination source : FilePath) → Keeps i (add_source env destination source)
    add_source-Keeps destination source =
        bind-Keeps i (check_exists env source) _ (check_exists-Keeps i source) λ _.
          lift-Keeps i (map_err input_output (env.host.metadata source)) _
            (copy_source-Keeps destination source)

    sources-Keeps :
        (sources : List FilePath) (destination : FilePath)
        → Keeps i (each (add_source env destination) sources)
    sources-Keeps sources destination =
        each-Keeps i (add_source env destination) sources (add_source-Keeps destination)

    pub add_files-Keeps :
        (sources : List FilePath) (destination : FilePath)
        → Keeps i (add_files env sources destination)
    unfolding add_files
    add_files-Keeps sources destination =
        bind-Keeps i (create_parent (some destination)) _
          (Grows-Keeps i (create_parent (some destination))
            (create_parent-Grows none (some destination)))
          (λ _. sources-Keeps sources destination)

  copy_missing-Establishes :
      (source dest : FilePath) → Establishes dest (copy_missing env source dest)
  copy_missing-Establishes source dest =
      unless_contained-Establishes dest (copy_file env source dest)
        (copy_file-Establishes env source dest)

  -- A source that is there, by its metadata.
  copy_source-Achieves :
      (destination source : FilePath) (i : Item)
      → SourceItem env destination source i
      → (metadata : HostMetadata) × (env.host.metadata source ≡ ok metadata)
        × Achieves i (copy_source env destination source metadata)
  copy_source-Achieves destination source i (whole_file metadata name e f n) = (
    metadata,
    e,
    rw f (
        found-Achieves i (expect (file_name source)) _ (ap expect n)
          (copy_missing-Establishes source (join destination (normal name ∷ [])))),
  )
  copy_source-Achieves destination source i (walked metadata entry inner e f m s) = (
    metadata,
    e,
    rw f (
        each-Achieves i (copy_walked env source destination) (env.host.walk source) (ok entry) m
          (found-Achieves i (expect (strip_prefix source entry))
            (λ q. copy_missing env entry (join destination q)) (ap expect s)
            (copy_missing-Establishes entry (join destination inner)))
          (copy_walked-Keeps i source destination)),
  )

  add_source-Achieves :
      (destination source : FilePath) (i : Item)
      → SourceItem env destination source i
      → Achieves i (add_source env destination source)
  add_source-Achieves destination source i asked =
      let (metadata, e, put) = copy_source-Achieves destination source i asked in
      last-Achieves i (check_exists env source) _ λ _.
        found-Achieves i (map_err input_output (env.host.metadata source)) _
          (ap (map_err input_output) e) put

  pub add_files-Achieves :
      (sources : List FilePath) (destination source : FilePath) (i : Item)
      → Among source sources
      → SourceItem env destination source i
      → Achieves i (add_files env sources destination)
  unfolding add_files
  add_files-Achieves sources destination source i m asked =
      last-Achieves i (create_parent (some destination)) _ λ _.
        each-Achieves i (add_source env destination) sources source m
          (add_source-Achieves destination source i asked) (add_source-Keeps i destination)

  pub add_files-destination :
      (sources : List FilePath) (destination : FilePath)
      → Achieves (at destination) (add_files env sources destination)
  unfolding add_files contains
  add_files-destination sources destination =
      first-Achieves (at destination) (create_parent (some destination)) _
        (λ v h. ground (
          arith,
          create_dir_all-HoldsDir destination v (on_vfs-ok (create_dir_all destination) v h),
        ))
        (λ _. sources-Keeps (at destination) sources destination)
