-- ===== src/Tests/Terminates.antt =====
-- A build that ends, on a machine with a program, a library, a module and two units.
use elusive.Base.{
  All, Among, ◌<◌, ◌+◌, suc, none, List, [], ◌∷◌, ◌≡◌, ◌≢◌, refl, sym, ◌∙◌, inl, inr, true, codes,
  ok, diverge, arith, ok-injective,
}
use mathlib.Core.Path.{subst}
use elusive.Base.Order
use elusive.Text
use elusive.FilePath
use elusive.FilePath.{FilePath, is_absolute, path_ord}
use elusive.Search
use elusive.Elf
use elusive.Kmod
use elusive.Kmod.{Module}
use elusive.Config
use elusive.Initramfs.{path, build, open_kmod, resolve_binary}
use elusive.Initramfs.Elves.{IsClosed}
use elusive.Initramfs.Ranked.{Descends}
use elusive.Initramfs.Requests.{find_module}
use elusive.Initramfs.Terminates.{Halts}
use elusive.Initramfs.Terminates.Build.{IsBounded, IsEnough, build_terminates}
use elusive.Tests.Ranked
use elusive.Tests.RankedUnits
use elusive.Tests.RankedUnits.{two_units}

abbrev init_path : FilePath
init_path = path "/usr/bin/init"

abbrev libc_path : FilePath
libc_path = path "/usr/lib/libc.so"

abbrev paths : List FilePath
paths = init_path ∷ libc_path ∷ []

needs_libc :
    (Elf.linked_libraries two_units.host two_units.object init_path ≡ ok (libc_path ∷ []))
    × (Elf.linked_libraries two_units.host two_units.object libc_path ≡ ok (libc_path ∷ []))
unfolding Elf.linked_libraries Elf.scan_headers Elf.scan_dynamic Elf.scan_dyn Elf.find_table
    Elf.resolve Elf.find_library Elf.library_search_paths Search.paths Search.search_paths
    Search.find_existing FilePath.parse FilePath.join Text.split Order.list_ord path_ord
    FilePath.component_ord
needs_libc = (refl, refl)

found_init : resolve_binary two_units (path "init") ≡ ok init_path
unfolding Elf.find_binary Elf.binary_search_paths Search.paths Search.search_paths
    Search.find_existing FilePath.parse FilePath.join Text.split Order.list_ord
found_init = refl

within :
    (p : FilePath) (needed : List FilePath)
    → Elf.linked_libraries two_units.host two_units.object p ≡ ok (libc_path ∷ [])
    → Elf.linked_libraries two_units.host two_units.object p ≡ ok needed
    → All (λ l. Among l paths) needed
within p needed known e =
    subst (All (λ l. Among l paths)) (ok-injective (sym known ∙ e)) (inr (inl refl), tt)

closed : IsClosed two_units paths
unfolding FilePath.parse Text.split Order.list_ord
closed = record {
  absolute = λ p m. elim m [
    | inl e ↦ subst (λ q. is_absolute q ≡ true) (sym e) refl
    | inr m' ↦ elim m' [ inl e ↦ subst (λ q. is_absolute q ≡ true) (sym e) refl | inr n ↦ absurd n ]
  ];
  libraries = λ p needed m e. elim m [
    | inl s ↦
        within init_path needed needs_libc.0
          (subst (λ q. Elf.linked_libraries two_units.host two_units.object q ≡ ok needed) s e)
    | inr m' ↦ elim m' [
      | inl s ↦
          within libc_path needed needs_libc.1
            (subst (λ q. Elf.linked_libraries two_units.host two_units.object q ≡ ok needed) s e)
      | inr n ↦ absurd n
    ]
  ];
}

halts : Halts two_units
halts = record {
  answers = RankedUnits.answers;
  unpacks = record { reads = RankedUnits.reads; zstd = λ b d. cc; gzip = λ b d. cc };
  metadata = λ p d. cc;
  walks = λ p entry m. elim m [
    | inl e ↦ subst (λ x. x ≢ diverge) (sym e) (λ d. cc)
    | inr m' ↦ elim m' [ inl e ↦ subst (λ x. x ≢ diverge) (sym e) (λ d. cc) | inr n ↦ absurd n ]
  ];
  parses = RankedUnits.parses;
  uname = λ d. cc;
}

abbrev base : Config.Module
base = record {
  name = codes "base";
  binaries = record { path = path "init" } ∷ [];
  files = record { sources = path "/etc/conf" ∷ []; destination = path "/opt/conf" } ∷ [];
  symlinks = record { path = path "/opt/link"; target = codes "conf" } ∷ [];
  kernel_modules = Config.name (codes "leaf") ∷ [];
  units = record { name = codes "front.target" } ∷ [];
}

abbrev config : Config.Initramfs
config = record {
  init = path "/usr/lib/systemd/systemd";
  shutdown = none;
  settings = record { kernel_module_path = none };
  modules = codes "base" ∷ [];
}

opened : open_kmod two_units none ≡ ok Ranked.kmod
unfolding Kmod.new Kmod.get_kernel_release Kmod.kmod_init_ctx Text.is_utf8 Text.nul_terminated
    FilePath.join FilePath.parse FilePath.to_bytes Text.split Order.list_ord
opened = refl

bounded : IsBounded two_units config paths Ranked.rank RankedUnits.rank
bounded = record {
  closed = closed;
  modules_descend =
      λ kmod o. subst (λ k. Descends k Ranked.rank) (ok-injective (sym opened ∙ o)) Ranked.descends;
  units_descend = RankedUnits.descend paths;
}

enough : IsEnough two_units config paths Ranked.rank RankedUnits.rank 6 base
enough = record {
  binaries = λ b p m e. elim m [
    | inl s ↦ inl (
        ok-injective (
          sym (subst (λ (x : Config.Binary). resolve_binary two_units x.path ≡ ok p) s e)
          ∙ found_init))
    | inr n ↦ absurd n
  ];
  paths = omega arith;
  kernel_modules = λ kmod k found o m e. elim m [
    | inl s ↦
        let named : find_module kmod (Config.name (codes "leaf")) ≡ ok found =
          subst (λ x. find_module kmod x ≡ ok found) s e in
        let known : find_module Ranked.kmod (Config.name (codes "leaf")) ≡ ok found =
          subst (λ c. find_module c (Config.name (codes "leaf")) ≡ ok found)
            (ok-injective (sym o ∙ opened)) named in
        omega (arith, Ranked.leaf_rank (codes "leaf") found known)
    | inr n ↦ absurd n
  ];
  units = λ u m. elim m [
    | inl s ↦
        subst (λ (x : Config.UnitName). suc (RankedUnits.rank x.name + 2) < 6) (sym s)
          (omega (arith, RankedUnits.front_rank))
    | inr n ↦ absurd n
  ];
}

build_terminates_example : (build two_units 6 config (base ∷ [])).0 ≢ diverge
build_terminates_example =
    build_terminates two_units config (base ∷ []) paths Ranked.rank RankedUnits.rank 6 halts bounded
      λ m a. elim a [
        | inl s ↦
            subst (IsEnough two_units config paths Ranked.rank RankedUnits.rank 6) (sym s) enough
        | inr n ↦ absurd n
      ]
