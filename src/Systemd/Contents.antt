-- ===== src/Systemd/Contents.antt =====
-- Unit.from_name of crates/elusive/src/systemd.rs: the dependencies and the binaries of a unit.
use elusive.Base.{
  ok-injective, Option, none, some, List, [], ◌∷◌, Bytes, codes, ok, and_then, and_then-ok, map_err,
  map_err-ok, expect, expect-ok, ◌≡◌, sym, ap, ◌∙◌,
}
use mathlib.Core.Path.{subst}
use elusive.Base.Order.{nat_ord, list_ord}
use elusive.Text.{split}
use elusive.Host.{Host}
use elusive.OrdMap.{get}
use elusive.Systemd.{
  Pair, UnitParser, UnitFile, UnitError, Section, or_default, collect, exec_paths, without_slices,
  service_binaries, required_units, find_unit, read_to_string, unit_of, from_name, parse_failed,
}
use elusive.Systemd.Properties.{values, written, values-collect}

-- The words of the first value, but for the slices.
abbrev pub required : List Bytes → List Bytes
required [] = []
required (value ∷ values) = without_slices (split b' ' value)

-- What a unit is read as.
pub record Reads (h : Host) (parser : UnitParser) (name : Bytes) (unit : UnitFile) : Type 0 where
  pub found : find_unit h name ≡ ok unit.path
  pub content : read_to_string h unit.path ≡ ok unit.content
  pub pairs : List Pair
  pub parsed : parser unit.content ≡ ok pairs
  pub depends : unit.dependencies ≡ required (written (codes "Unit") (codes "Requires") [] pairs)
  pub starts :
      exec_paths (written (codes "Service") (codes "ExecStart") [] pairs) ≡ ok unit.binaries

required_units-ok :
    (o : Option (List Bytes)) (deps : List Bytes)
    → required_units o ≡ ok deps
    → deps ≡ required (or_default o)
required_units-ok none deps e = sym (ok-injective e)
required_units-ok (some []) deps e = cc
required_units-ok (some (value ∷ values)) deps e = sym (ok-injective e)

expected_paths :
    (o : Option (List Bytes)) (binaries : List Bytes)
    → and_then (expect {E = UnitError} o) exec_paths ≡ ok binaries
    → exec_paths (or_default o) ≡ ok binaries
expected_paths none binaries e = cc
expected_paths (some commands) binaries e = e

service_binaries-ok :
    (o : Option Section) (binaries : List Bytes)
    → service_binaries o ≡ ok binaries
    → exec_paths (or_default (get (codes "ExecStart") (or_default o))) ≡ ok binaries
service_binaries-ok none binaries e = unfold get exec_paths in e
service_binaries-ok (some service) binaries e =
    expected_paths (get (codes "ExecStart") service) binaries e

from_empty :
    (wanted key : Bytes) (pairs : List Pair)
    → values wanted key (collect pairs [] []) ≡ written wanted key [] pairs
unfolding get
from_empty wanted key pairs = values-collect wanted key [] pairs []

-- a unit that from_name answers with is the file that was found, and what its text was parsed to:
-- its dependencies are the words, slices left out, of the first value of Requires over all
-- sections named Unit, and its binaries are the paths of all the commands of ExecStart over all
-- sections named Service, in the order of the text.
pub from_name-Reads :
    (h : Host) (parser : UnitParser) (name : Bytes) (unit : UnitFile)
    → from_name h parser name ≡ ok unit
    → Reads h parser name unit
unfolding from_name unit_of
from_name-Reads h parser name unit e =
    let (path, found, e₁) = and_then-ok (find_unit h name) _ e in
    let (content, read, e₂) = and_then-ok (read_to_string h path) _ e₁ in
    let (pairs, parsed, e₃) = and_then-ok (map_err parse_failed (parser content)) _ e₂ in
    let properties = collect pairs [] [] in
    let (binaries, starts, e₄) =
      and_then-ok (service_binaries (get (codes "Service") properties)) _ e₃ in
    let (s, there, e₅) = and_then-ok (expect (get (codes "Unit") properties)) _ e₄ in
    let (deps, requires, e₆) = and_then-ok (required_units (get (codes "Requires") s)) _ e₅ in
    subst (Reads h parser name) (ok-injective e₆) (record {
      found = found;
      content = read;
      pairs = pairs;
      parsed = map_err-ok parse_failed (parser content) parsed;
      depends =
          required_units-ok (get (codes "Requires") s) deps requires
          ∙ ap (λ o. required (or_default (get (codes "Requires") (or_default o))))
              (sym (expect-ok (get (codes "Unit") properties) there))
          ∙ ap required (from_empty (codes "Unit") (codes "Requires") pairs);
      starts =
          ap exec_paths (sym (from_empty (codes "Service") (codes "ExecStart") pairs))
          ∙ service_binaries-ok (get (codes "Service") properties) binaries starts;
    })
