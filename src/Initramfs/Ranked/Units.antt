-- ===== src/Initramfs/Ranked/Units.antt =====
-- Initramfs.add_systemd_unit of crates/elusive/src/initramfs.rs, where the required units have no
-- cycle.
use elusive.Base.{
  Among, ℕ, zero, suc, ◌<◌, ◌+◌, Option, none, some, List, [], ◌∷◌, Bytes, codes, length, ◌≡◌, ◌≢◌,
  inl, inr, Bool-cases, arith, ok, diverge,
}
use elusive.Text.{is_utf8, split}
use elusive.Base.Order.{nat_ord, list_ord}
use elusive.OrdMap.{get}
use elusive.FilePath.{FilePath, parse, parent}
use elusive.Host.{Host}
use elusive.Entry
use elusive.Entry.{Entry}
use elusive.Vfs.{Vfs}
use elusive.Systemd
use elusive.Systemd.{
  UnitFile, UnitParser, Section, Properties, find_unit, read_to_string, first_part, cmd_exec_path,
  exec_paths, service_binaries, first_value, required_units, unit_of, collect, parse_failed,
}
use elusive.Initramfs.{
  Env, system_failed, each, create_parent, add_elf, add_symlink, put_unit, install_unit,
  unit_target, resolve_binary, add_systemd_unit,
}
use elusive.Initramfs.Elves.{IsClosed, add_elf_terminates}
use elusive.Initramfs.Ends.{
  Answers, map_err-ends, and_then-ends, map_ok-ends, ok_or-ends, expect-ends, create_parent-ends,
}
use elusive.Initramfs.Returns.{
  Returns, then-Returns, expect-Returns, lift-Returns, unless_contained-Returns, each-Returns,
  create_entry-Returns,
}

first_part-ends : (parts : List Bytes) → first_part parts ≢ diverge
first_part-ends [] = λ d. cc
first_part-ends (s ∷ ss) = λ d. cc

exec_paths-ends : (commands : List Bytes) → exec_paths commands ≢ diverge
unfolding exec_paths cmd_exec_path
exec_paths-ends [] = λ d. cc
exec_paths-ends (command ∷ commands) =
    and_then-ends _ _ (map_ok-ends _ (first_part (split b' ' command)) (first_part-ends _))
      λ path _. map_ok-ends _ (exec_paths commands) (exec_paths-ends commands)

service_binaries-ends : (o : Option Section) → service_binaries o ≢ diverge
service_binaries-ends none = λ d. cc
service_binaries-ends (some service) =
    and_then-ends _ _ (expect-ends _) λ commands _. exec_paths-ends commands

required_units-ends : (o : Option (List Bytes)) → required_units o ≢ diverge
required_units-ends none = λ d. cc
required_units-ends (some []) = λ d. cc
required_units-ends (some (value ∷ values)) = λ d. cc

unit_of-ends :
    (h : Host) (name : Bytes) (path : FilePath) (content : Bytes) (properties : Properties)
    → unit_of h name path content properties ≢ diverge
unfolding unit_of
unit_of-ends h name path content properties =
    and_then-ends _ _ (service_binaries-ends (get (codes "Service") properties)) λ binaries _.
      and_then-ends _ _ (expect-ends (get (codes "Unit") properties)) λ section _.
        and_then-ends _ _ (required_units-ends (get (codes "Requires") section))
          λ dependencies _ d. cc

read_to_string-ends :
    (h : Host) (path : FilePath) → h.read path ≢ diverge → read_to_string h path ≢ diverge
read_to_string-ends h path r = and_then-ends _ _ (map_err-ends Systemd.input_output _ r) λ bytes _.
    elim (Bool-cases (is_utf8 bytes)) [
      | inl text ↦ rw text (λ d. cc)
      | inr other ↦ rw other (λ d. cc)
    ]

from_name-ends :
    (h : Host) (parser : UnitParser) (name : Bytes)
    → ((p : FilePath) → h.read p ≢ diverge)
    → ((content : Bytes) → parser content ≢ diverge)
    → Systemd.from_name h parser name ≢ diverge
unfolding Systemd.from_name find_unit
from_name-ends h parser name reads parses = and_then-ends _ _ (ok_or-ends _ _) λ path _.
    and_then-ends _ _ (read_to_string-ends h path (reads path)) λ content _.
      and_then-ends _ _ (map_err-ends parse_failed (parser content) (parses content))
        λ pairs _. unit_of-ends h name path content (collect pairs [] [])

put_unit-Returns : (unit : UnitFile) → Returns (put_unit unit)
put_unit-Returns unit = unless_contained-Returns unit.path _ (
    expect-Returns (parent unit.path) _ λ dir.
      then-Returns (create_parent (some dir)) _ (create_parent-ends (some dir))
        (create_entry-Returns unit.path (Entry.file unit.content)))

install_unit-Returns : (name : Bytes) (o : Option FilePath) → Returns (install_unit name o)
unfolding add_symlink
install_unit-Returns name none = λ v d. cc
install_unit-Returns name (some p) = unless_contained-Returns (parse (unit_target name)) _ (
    then-Returns (create_parent (parent p)) _ (create_parent-ends (parent p))
      (create_entry-Returns p (Entry.symlink (unit_target name))))

-- The units that a unit requires rank below it, and its binaries are among the paths.
pub record UnitsDescend (env : Env) (ps : List FilePath) (rank : Bytes → ℕ) : Type 0 where
  pub requires :
      (name next : Bytes) (unit : UnitFile)
      → Systemd.from_name env.host env.unit_parser name ≡ ok unit
      → Among next unit.dependencies
      → rank next < rank name
  pub binaries :
      (name binary : Bytes) (unit : UnitFile) (p : FilePath)
      → Systemd.from_name env.host env.unit_parser name ≡ ok unit
      → Among binary unit.binaries
      → resolve_binary env (parse binary) ≡ ok p
      → Among p ps

pub add_systemd_unit_terminates :
    (env : Env) (ps : List FilePath) (rank : Bytes → ℕ) (fuel : ℕ) (name : Bytes) (v : Vfs)
    → Answers env
    → IsClosed env ps
    → UnitsDescend env ps rank
    → ((content : Bytes) → env.unit_parser content ≢ diverge)
    → suc (rank name + length ps) < fuel
    → (add_systemd_unit env fuel name v).0 ≢ diverge
unfolding add_systemd_unit
add_systemd_unit_terminates env ps rank zero name v a c u parses h = absurd (omega arith)
add_systemd_unit_terminates env ps rank (suc fuel) name v a c u parses h =
    lift-Returns system_failed (Systemd.from_name env.host env.unit_parser name) _
      (from_name-ends env.host env.unit_parser name a.reads parses)
      (λ unit known. then-Returns (put_unit unit) _ (put_unit-Returns unit) (
        then-Returns (each (λ b. add_elf env fuel (parse b)) unit.binaries) _
          (each-Returns _ unit.binaries λ b m w.
            add_elf_terminates env ps (parse b) w fuel a c
              (λ p r. u.binaries name b unit p known m r) (omega arith))
          (then-Returns (install_unit name unit.install_path) _
            (install_unit-Returns name unit.install_path)
            (each-Returns (add_systemd_unit env fuel) unit.dependencies λ next m w.
              add_systemd_unit_terminates env ps rank fuel next w a c u parses
                (omega (arith, u.requires name next unit known m))))))
      v
