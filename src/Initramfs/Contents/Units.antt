-- ===== src/Initramfs/Contents/Units.antt =====
-- Initramfs.add_systemd_unit of crates/elusive/src/initramfs.rs: what its success has put.
use elusive.Base.{
  ℕ, zero, suc, Option, none, some, ◌≡◌, sym, ap, Bytes, Among, lift, map_err, expect, ◌>>◌,
}
use mathlib.Core.Path.{subst}
use elusive.FilePath.{FilePath, parse, parent}
use elusive.Entry
use elusive.Vfs.{create_dir_all}
use elusive.Systemd
use elusive.Systemd.{UnitFile}
use elusive.Initramfs.{
  Env, Build, system_failed, on_vfs, each, add_elf, put_unit, install_unit, unit_target,
  add_systemd_unit,
}
use elusive.Initramfs.Steps.{install_unit-Grows, add_systemd_unit-Grows}
use elusive.Initramfs.Files.{Establishes, create_entry-Establishes, unless_contained-Establishes}
use elusive.Initramfs.Achieves.{
  Item, at, link, Achieves, Keeps, bind-Keeps, each-Keeps, last-Achieves, first-Achieves,
  found-Achieves, each-Achieves, Grows-Keeps,
}
use elusive.Initramfs.Requests.{
  NeedsUnit, this, required, UnitItem, unit_file, unit_binary, unit_link,
}
use elusive.Initramfs.Contents.{add_elf-Achieves, add_elf-Keeps, add_symlink-Achieves}

put_unit-Establishes : (unit : UnitFile) → Establishes unit.path (put_unit unit)
put_unit-Establishes unit = unless_contained-Establishes unit.path _ (
    last-Achieves (at unit.path) (lift (expect (parent unit.path))) _ λ dir.
      last-Achieves (at unit.path) (on_vfs (create_dir_all dir)) _
        λ _. create_entry-Establishes unit.path (Entry.file unit.content))

install_unit-Achieves :
    (name : Bytes) (o : Option FilePath) (p : FilePath)
    → o ≡ some p
    → Achieves (link p (parse (unit_target name))) (install_unit name o)
install_unit-Achieves name o p e =
    subst (λ q. Achieves (link p (parse (unit_target name))) (install_unit name q)) (sym e)
      (add_symlink-Achieves p (unit_target name))

module _ (env : Env) where
  pub add_systemd_unit-Keeps :
      (i : Item) (fuel : ℕ) (name : Bytes) → Keeps i (add_systemd_unit env fuel name)
  add_systemd_unit-Keeps i fuel name =
      Grows-Keeps i (add_systemd_unit env fuel name) (add_systemd_unit-Grows env none fuel name)

  module _ (fuel : ℕ) (name : Bytes) (unit : UnitFile) where
    abbrev add_binary : Bytes → Build Unit
    add_binary binary = add_elf env fuel (parse binary)

    abbrev add_required : Build Unit
    add_required = each (add_systemd_unit env fuel) unit.dependencies

    abbrev link_unit : Build Unit
    link_unit = install_unit name unit.install_path >> add_required

    abbrev fill_unit : Build Unit
    fill_unit = each add_binary unit.binaries >> link_unit

    required-Keeps : (i : Item) → Keeps i add_required
    required-Keeps i =
        each-Keeps i (add_systemd_unit env fuel) unit.dependencies (add_systemd_unit-Keeps i fuel)

    link-Keeps : (i : Item) → Keeps i link_unit
    link-Keeps i =
        bind-Keeps i (install_unit name unit.install_path) _
          (Grows-Keeps i (install_unit name unit.install_path)
            (install_unit-Grows none name unit.install_path))
          (λ _. required-Keeps i)

    fill-Keeps : (i : Item) → Keeps i fill_unit
    fill-Keeps i =
        bind-Keeps i (each add_binary unit.binaries) _
          (each-Keeps i add_binary unit.binaries λ b. add_elf-Keeps env i fuel (parse b))
          (λ _. link-Keeps i)

    own-Achieves : (i : Item) → UnitItem env name unit i → Achieves i (put_unit unit >> fill_unit)
    own-Achieves _ unit_file =
        first-Achieves (at unit.path) (put_unit unit) (λ _. fill_unit) (put_unit-Establishes unit)
          (λ _. fill-Keeps (at unit.path))
    own-Achieves _ (unit_binary binary p m e) =
        last-Achieves (at p) (put_unit unit) (λ _. fill_unit)
          λ _.
            first-Achieves (at p) (each add_binary unit.binaries) (λ _. link_unit)
              (each-Achieves (at p) add_binary unit.binaries binary m
                (add_elf-Achieves env fuel (parse binary) p e)
                (λ b. add_elf-Keeps env (at p) fuel (parse b)))
              (λ _. link-Keeps (at p))
    own-Achieves _ (unit_link p e) =
        let i = link p (parse (unit_target name)) in
        last-Achieves i (put_unit unit) (λ _. fill_unit)
          λ _.
            last-Achieves i (each add_binary unit.binaries) (λ _. link_unit)
              λ _.
                first-Achieves i (install_unit name unit.install_path) (λ _. add_required)
                  (install_unit-Achieves name unit.install_path p e) (λ _. required-Keeps i)

    required-Achieves :
        (i : Item) (next : Bytes)
        → Among next unit.dependencies
        → Achieves i (add_systemd_unit env fuel next)
        → Achieves i (put_unit unit >> fill_unit)
    required-Achieves i next m g =
        last-Achieves i (put_unit unit) (λ _. fill_unit)
          λ _.
            last-Achieves i (each add_binary unit.binaries) (λ _. link_unit)
              λ _.
                last-Achieves i (install_unit name unit.install_path) (λ _. add_required)
                  λ _.
                    each-Achieves i (add_systemd_unit env fuel) unit.dependencies next m g
                      (add_systemd_unit-Keeps i fuel)

  -- What a unit asks for is put, with what the units that it requires ask for.
  pub add_systemd_unit-Achieves :
      (fuel : ℕ) (name goal : Bytes) (found : UnitFile) (i : Item)
      → NeedsUnit env goal found name
      → UnitItem env goal found i
      → Achieves i (add_systemd_unit env fuel name)
  unfolding add_systemd_unit
  add_systemd_unit-Achieves zero name goal found i n asked = λ v h. cc
  add_systemd_unit-Achieves (suc fuel) _ goal found i (this e) asked =
      found-Achieves i (map_err system_failed (Systemd.from_name env.host env.unit_parser goal)) _
        (ap (map_err system_failed) e) (own-Achieves fuel goal found i asked)
  add_systemd_unit-Achieves (suc fuel) _ goal found i (required name next unit e m n) asked =
      found-Achieves i (map_err system_failed (Systemd.from_name env.host env.unit_parser name)) _
        (ap (map_err system_failed) e)
        (required-Achieves fuel name unit i next m
          (add_systemd_unit-Achieves fuel next goal found i n asked))
