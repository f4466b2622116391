-- ===== src/Tests/RankedUnits.antt =====
-- A unit that requires another one, which requires none.
use elusive.Base.{
  All, Among, ℕ, ◌<◌, some, List, [], ◌∷◌, ◌++◌, ◌≡◌, ◌≢◌, refl, sym, ap, ◌∙◌, inl, inr, codes,
  Bytes, Result, ok, diverge, length, arith, and_then-ok, Bool-cases, if◌then◌else◌, ok-injective,
}
use mathlib.Core.Path.{subst}
use elusive.Base.Order
use elusive.Base.Order.{same, nat_ord, list_ord}
use elusive.Text
use elusive.FilePath
use elusive.FilePath.{FilePath, path_ord}
use elusive.OrdMap
use elusive.Search
use elusive.Host.{HostFile}
use elusive.Elf
use elusive.Initramfs.Elves.{IsClosed}
use elusive.Systemd
use elusive.Systemd.{UnitFile, UnitParser, UnitError, section, property, Pair}
use elusive.Initramfs.{Env, path}
use elusive.Initramfs.Ends.{Answers}
use elusive.Initramfs.Ranked.Units.{UnitsDescend}
use elusive.Kmod
use elusive.Tests.Machine.{env}
use elusive.Tests.Ranked

abbrev front_content : Bytes
front_content = codes "[Unit] Requires=leaf.target"

abbrev front : List Pair
front = section (codes "Unit") ∷ property (codes "Requires") (codes "leaf.target") ∷ []

abbrev leaf : List Pair
leaf = section (codes "Unit") ∷ property (codes "Description") (codes "leaf") ∷ []

abbrev pub parser : UnitParser
parser content = if same content front_content then ok front else ok leaf

abbrev pub two_units : Env
two_units = record env {
  host = record env.host {
    read = λ p.
        if same p (path "/usr/lib/systemd/system/front.target")
        then ok front_content
        else if same p (path "/usr/lib/modules/6.1/kernel/leaf.ko")
        then ok (Kmod.magic_elf ++ (0 ∷ 0 ∷ []))
        else ok (codes "[Unit]");
  };
  kmod = record env.kmod { kmod_new = λ dir. some Ranked.kmod.ctx };
  unit_parser = parser;
}

abbrev deps_of : Result UnitError UnitFile → List Bytes
deps_of (ok unit) = unit.dependencies
deps_of _ = []

-- What a unit of this machine requires.
pub leaf_only :
    (name next : Bytes) (unit : UnitFile)
    → Systemd.from_name two_units.host parser name ≡ ok unit
    → Among next unit.dependencies
    → next ≡ codes "leaf.target"
unfolding Systemd.from_name Systemd.collect Systemd.push_value Systemd.unit_of
    Systemd.without_slices Text.split Text.ends_with OrdMap.get OrdMap.insert
leaf_only name next unit e m =
    let (p, _, e₁) = and_then-ok (Systemd.find_unit two_units.host name) _ e in
    let (content, _, e₂) = and_then-ok (Systemd.read_to_string two_units.host p) _ e₁ in
    elim (Bool-cases (same content front_content)) [
      | inl front' ↦
          let d : codes "leaf.target" ∷ [] ≡ unit.dependencies = ap deps_of (rw front' at e₂) in
          elim (subst (Among next) (sym d) m) [ inl e₃ ↦ e₃ | inr no' ↦ absurd no' ]
      | inr other ↦
          let d : [] ≡ unit.dependencies = ap deps_of (rw other at e₂) in
          absurd (subst (Among next) (sym d) m)
    ]

abbrev pub rank : Bytes → ℕ
rank name = length (deps_of (Systemd.from_name two_units.host parser name))

leaf_rank : rank (codes "leaf.target") ≡ 0
unfolding Systemd.from_name Systemd.collect Systemd.push_value Systemd.unit_of
    Systemd.without_slices Text.split Text.ends_with OrdMap.get OrdMap.insert Systemd.find_unit
    Systemd.unit_search_paths Search.paths Search.search_paths Search.find_existing Text.is_utf8
    FilePath.parse FilePath.join Order.list_ord path_ord FilePath.component_ord
leaf_rank = refl

pub front_rank : rank (codes "front.target") ≡ 1
unfolding Systemd.from_name Systemd.collect Systemd.push_value Systemd.unit_of
    Systemd.without_slices Text.split Text.ends_with OrdMap.get OrdMap.insert Systemd.find_unit
    Systemd.unit_search_paths Search.paths Search.search_paths Search.find_existing Text.is_utf8
    FilePath.parse FilePath.join Order.list_ord path_ord FilePath.component_ord
front_rank = refl

positive : (n : Bytes) (names : List Bytes) → Among n names → 0 < length names
positive n [] m = absurd m
positive n (k ∷ names) m = omega arith

abbrev binaries_of : Result UnitError UnitFile → List Bytes
binaries_of (ok unit) = unit.binaries
binaries_of _ = []

no_binaries :
    (name binary : Bytes) (unit : UnitFile)
    → Systemd.from_name two_units.host parser name ≡ ok unit
    → Among binary unit.binaries
    → ⊥
unfolding Systemd.from_name Systemd.collect Systemd.push_value Systemd.unit_of
    Systemd.without_slices Text.split Text.ends_with OrdMap.get OrdMap.insert
no_binaries name binary unit e m =
    let (p, _, e₁) = and_then-ok (Systemd.find_unit two_units.host name) _ e in
    let (content, _, e₂) = and_then-ok (Systemd.read_to_string two_units.host p) _ e₁ in
    elim (Bool-cases (same content front_content)) [
      | inl front' ↦
          let d : [] ≡ unit.binaries = ap binaries_of (rw front' at e₂) in
          subst (Among binary) (sym d) m
      | inr other ↦
          let d : [] ≡ unit.binaries = ap binaries_of (rw other at e₂) in
          subst (Among binary) (sym d) m
    ]

pub descend : (ps : List FilePath) → UnitsDescend two_units ps rank
descend ps = record {
  requires = λ name next unit e m.
      let same' : rank next ≡ 0 = ap rank (leaf_only name next unit e m) ∙ leaf_rank in
      let count : rank name ≡ length unit.dependencies = ap (λ r. length (deps_of r)) e in
      omega (arith, same', count, positive next unit.dependencies m);
  binaries = λ name binary unit p e m r. absurd (no_binaries name binary unit e m);
}

pub reads : (p : FilePath) → two_units.host.read p ≢ diverge
reads p = elim (Bool-cases (same p (path "/usr/lib/systemd/system/front.target"))) [
  | inl front' ↦ rw front' (λ d. cc)
  | inr other ↦ elim (Bool-cases (same p (path "/usr/lib/modules/6.1/kernel/leaf.ko"))) [
    | inl leaf' ↦ rw (other, leaf') (λ d. cc)
    | inr rest ↦ rw (other, rest) (λ d. cc)
  ]
]

pub parses : (content : Bytes) → parser content ≢ diverge
parses content = elim (Bool-cases (same content front_content)) [
  | inl front' ↦ rw front' (λ d. cc)
  | inr other ↦ rw other (λ d. cc)
]

pub answers : Answers two_units
answers = record {
  opens = λ p d. cc;
  metadata = λ p f e d. subst (λ (g : HostFile). g.metadata ≢ diverge) (ok-injective e) (λ c. cc) d;
  read_to_end =
      λ p f e d. subst (λ (g : HostFile). g.read_to_end ≢ diverge) (ok-injective e) (λ c. cc) d;
  reads = reads;
  kinds = λ bytes d. cc;
  headers = λ bytes d. cc;
  dynamics = λ bytes hs e.
      subst (All (λ (h : Elf.ProgramHeader). h.dynamic ≢ diverge)) (ok-injective e) ((λ d. cc), tt);
}

closed : IsClosed two_units []
closed = record { absolute = λ p m. absurd m; libraries = λ p needed m e. absurd m }
