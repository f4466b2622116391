-- ===== src/Initramfs/Extent/Units.antt =====
-- Initramfs.add_systemd_unit of crates/elusive/src/initramfs.rs: the paths that it may add.
use elusive.Base.{ℕ, zero, suc, Option, none, some, ◌≡◌, inl, refl, Bytes, expect, expect-ok}
use elusive.FilePath.{FilePath, parse, parent}
use elusive.Entry
use elusive.Vfs.{create_dir_all}
use elusive.Systemd
use elusive.Systemd.{UnitFile}
use elusive.Initramfs.{
  Env, system_failed, on_vfs, each, add_elf, put_unit, install_unit, unit_target, add_systemd_unit,
}
use elusive.Initramfs.Achieves.{Item}
use elusive.Initramfs.Requests.{
  NeedsUnit, this, required, UnitItem, unit_file, unit_binary, unit_link,
}
use elusive.Initramfs.StaysWithin.{
  StaysWithin, IsUpward, bind-StaysWithin, lift-StaysWithin, lift_plain-StaysWithin,
  create_dir_all-StaysWithin, unless_contained-StaysWithin, each-StaysWithin,
  create_entry-StaysWithin,
}
use elusive.Initramfs.Extent.{Reaches, add_elf-StaysWithin, add_symlink-StaysWithin}

module _ (env : Env) (S : FilePath → Type 0) (up : IsUpward S) where
  -- What the units that a unit requires ask for leads to paths of the set.
  abbrev UnitsIn : Bytes → Type 0
  UnitsIn name =
      (goal : Bytes) (found : UnitFile) (i : Item)
      → NeedsUnit env goal found name
      → UnitItem env goal found i
      → Reaches env S i

  pub put_unit-StaysWithin : (unit : UnitFile) → S unit.path → StaysWithin S (put_unit unit)
  put_unit-StaysWithin unit s = unless_contained-StaysWithin S unit.path _ (
      lift_plain-StaysWithin S (expect (parent unit.path)) _ λ dir e.
        bind-StaysWithin S (on_vfs (create_dir_all dir)) _
          (create_dir_all-StaysWithin S dir
            λ q m. up.above_it unit.path q s (rw (expect-ok (parent unit.path) e) m))
          λ _. create_entry-StaysWithin S unit.path (Entry.file unit.content) s)

  pub install_unit-StaysWithin :
      (name : Bytes) (o : Option FilePath)
      → ((p : FilePath) → o ≡ some p → S p)
      → StaysWithin S (install_unit name o)
  install_unit-StaysWithin name none s = λ v q h. inl h
  install_unit-StaysWithin name (some p) s =
      add_symlink-StaysWithin env S up p (unit_target name) (s p refl)

  pub add_systemd_unit-StaysWithin :
      (fuel : ℕ) (name : Bytes) → UnitsIn name → StaysWithin S (add_systemd_unit env fuel name)
  unfolding add_systemd_unit
  add_systemd_unit-StaysWithin zero name s = λ v q h. inl h
  add_systemd_unit-StaysWithin (suc fuel) name s =
      lift-StaysWithin S system_failed (Systemd.from_name env.host env.unit_parser name) _ λ unit e.
        bind-StaysWithin S (put_unit unit) _
          (put_unit-StaysWithin unit (s name unit _ (this e) unit_file))
          λ _.
            bind-StaysWithin S (each (λ b. add_elf env fuel (parse b)) unit.binaries) _
              (each-StaysWithin S _ unit.binaries λ b m.
                add_elf-StaysWithin env S up fuel (parse b)
                  λ p r. s name unit _ (this e) (unit_binary b p m r))
              λ _.
                bind-StaysWithin S (install_unit name unit.install_path) _
                  (install_unit-StaysWithin name unit.install_path
                    λ p i. s name unit _ (this e) (unit_link p i))
                  λ _. each-StaysWithin S (add_systemd_unit env fuel) unit.dependencies λ next m.
                    add_systemd_unit-StaysWithin fuel next
                      λ goal found i n. s goal found i (required name next unit e m n)
