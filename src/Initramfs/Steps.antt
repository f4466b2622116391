-- ===== src/Initramfs/Steps.antt =====
-- How the methods of crates/elusive/src/initramfs.rs, add_files aside, change the filesystem.
use elusive.Base.{ℕ, zero, suc, Option, none, some, [], ◌∷◌, ◌++◌, map_err, expect, Bytes}
use mathlib.Core.Path.{subst}
use elusive.FilePath.{FilePath, parse, parent, root, normal}
use elusive.Entry
use elusive.Vfs.{create_entry}
use elusive.Elf.{linked_libraries}
use elusive.Kmod
use elusive.Kmod.{
  Kmod, Module, module_from_name, module_from_path, is_builtin, install_path, host_path, from_bytes,
}
use elusive.Systemd
use elusive.Systemd.{UnitFile}
use elusive.Initramfs.{
  Env, elf_failed, kmod_failed, input_output, system_failed, on_vfs, each, put_binary,
  add_entrypoint, resolve_binary, add_elf, add_symlink, uncompress_module, put_module, all_depends,
  add_module, add_module_from_name, add_module_from_path, put_unit, unit_target, install_unit,
  add_systemd_unit,
}
use elusive.Initramfs.Growth.{
  GrowsUnder, bind-Grows, lift-Grows, if-Grows, pure-Grows, diverge-Grows, expect-Grows,
  unless_contained-Grows, each-Grows, place-Grows, create_entry-GrowsUnder, check_exists-Grows,
  copy_file-Grows, put_binary-Grows,
}

pub add_symlink-Grows :
    (o : Option FilePath) (p : FilePath) (target : Bytes) → GrowsUnder o (add_symlink p target)
unfolding add_symlink
add_symlink-Grows o p target =
    unless_contained-Grows o (parse target) _
      (place-Grows o (parent p) _ (create_entry-GrowsUnder p (Entry.symlink target)))

pub install_unit-Grows :
    (o : Option FilePath) (name : Bytes) (p : Option FilePath) → GrowsUnder o (install_unit name p)
install_unit-Grows o name none = pure-Grows o
install_unit-Grows o name (some p) = add_symlink-Grows o p (unit_target name)

pub put_unit-Grows : (o : Option FilePath) (unit : UnitFile) → GrowsUnder o (put_unit unit)
put_unit-Grows o unit = unless_contained-Grows o unit.path _ (
    expect-Grows o (parent unit.path) _ λ dir e.
      place-Grows o (some dir) (on_vfs (create_entry unit.path (Entry.file unit.content))) (
        subst (λ q. GrowsUnder q (on_vfs (create_entry unit.path (Entry.file unit.content)))) e
          (create_entry-GrowsUnder unit.path (Entry.file unit.content))))

module _ (env : Env) where
  pub add_entrypoint-Grows :
      (name : Bytes) (source : FilePath) → GrowsUnder (some root) (add_entrypoint env name source)
  unfolding add_entrypoint parent
  add_entrypoint-Grows name source =
      unless_contained-Grows (some root) (root ++ (normal name ∷ [])) _ (
        check_exists-Grows env (some root) source _
          (copy_file-Grows env source (root ++ (normal name ∷ []))))

  pub add_elf-Grows :
      (o : Option FilePath) (fuel : ℕ) (p : FilePath) → GrowsUnder o (add_elf env fuel p)
  unfolding add_elf
  add_elf-Grows o zero p = diverge-Grows o
  add_elf-Grows o (suc fuel) p = lift-Grows o (resolve_binary env p) _ λ p'.
      unless_contained-Grows o p' _ (
        bind-Grows o (put_binary env p') _ (put_binary-Grows env o p') λ _.
          lift-Grows o (map_err elf_failed (linked_libraries env.host env.object p')) _
            λ libraries. each-Grows o (add_elf env fuel) libraries (add_elf-Grows o fuel))

  put_module-Grows :
      (m : Module) (dest : FilePath) → GrowsUnder (parent dest) (put_module env m dest)
  put_module-Grows m dest = lift-Grows (parent dest) (expect (host_path m)) _ λ source.
      lift-Grows (parent dest) (map_err input_output (env.host.read source)) _ λ compressed.
        lift-Grows (parent dest) (map_err kmod_failed (from_bytes compressed)) _ λ format.
          lift-Grows (parent dest) (map_err input_output (uncompress_module env compressed format))
            _ λ bytes. create_entry-GrowsUnder dest (Entry.file bytes)

  pub add_module-Grows :
      (o : Option FilePath) (fuel : ℕ) (kmod : Kmod) (m : Module)
      → GrowsUnder o (add_module env fuel kmod m)
  unfolding add_module
  add_module-Grows o zero kmod m = diverge-Grows o
  add_module-Grows o (suc fuel) kmod m = if-Grows o (is_builtin m) _ _ (pure-Grows o) (
      lift-Grows o (map_err kmod_failed (Kmod.info m)) _ λ info.
        bind-Grows o _ _
          (each-Grows o _ (all_depends info) λ name.
            lift-Grows o (map_err kmod_failed (module_from_name kmod name)) _
              λ dep. add_module-Grows o fuel kmod dep)
          λ _. lift-Grows o (map_err kmod_failed (install_path m)) _ λ dest.
            place-Grows o (parent dest) _
              (unless_contained-Grows (parent dest) dest _ (put_module-Grows m dest)))

  pub add_module_from_name-Grows :
      (o : Option FilePath) (fuel : ℕ) (kmod : Kmod) (name : Bytes)
      → GrowsUnder o (add_module_from_name env fuel kmod name)
  unfolding add_module_from_name
  add_module_from_name-Grows o fuel kmod name =
      lift-Grows o (map_err kmod_failed (module_from_name kmod name)) _
        (add_module-Grows o fuel kmod)

  pub add_module_from_path-Grows :
      (o : Option FilePath) (fuel : ℕ) (kmod : Kmod) (p : FilePath)
      → GrowsUnder o (add_module_from_path env fuel kmod p)
  unfolding add_module_from_path
  add_module_from_path-Grows o fuel kmod p =
      lift-Grows o (map_err kmod_failed (module_from_path kmod p)) _ (add_module-Grows o fuel kmod)

  pub add_systemd_unit-Grows :
      (o : Option FilePath) (fuel : ℕ) (name : Bytes)
      → GrowsUnder o (add_systemd_unit env fuel name)
  unfolding add_systemd_unit
  add_systemd_unit-Grows o zero name = diverge-Grows o
  add_systemd_unit-Grows o (suc fuel) name =
      lift-Grows o (map_err system_failed (Systemd.from_name env.host env.unit_parser name)) _
        λ unit. bind-Grows o (put_unit unit) _ (put_unit-Grows o unit) λ _.
          bind-Grows o (each (λ binary. add_elf env fuel (parse binary)) unit.binaries) _
            (each-Grows o _ unit.binaries λ binary. add_elf-Grows o fuel (parse binary))
            λ _.
              bind-Grows o (install_unit name unit.install_path) _
                (install_unit-Grows o name unit.install_path)
                λ _. each-Grows o _ unit.dependencies (add_systemd_unit-Grows o fuel)
