-- ===== src/Tests/Ranked.antt =====
-- A module whose dependencies have none.
use elusive.Base.{
  ok-injective, Among, ℕ, ◌<◌, some, List, [], ◌∷◌, ◌≡◌, refl, ap, codes, Bytes, Result, ok, length,
  arith, and_then-ok,
}
use mathlib.Core.Path.{subst}
use elusive.Kmod
use elusive.Kmod.{Kmod, KmodModule, KmodError, Module, ModuleInfo, module_from_name, is_builtin}
use elusive.Initramfs.{all_depends}
use elusive.Initramfs.Ranked.{Unpacks, Descends}
use elusive.Tests.Machine.{env}

abbrev pub leaf : KmodModule
leaf = record {
  get_name = some (codes "leaf");
  get_path = some (codes "/usr/lib/modules/6.1/kernel/leaf.ko");
  get_info = some [];
}

abbrev pub kmod : Kmod
kmod = record {
  kernel_release = codes "6.1";
  ctx = record { new_from_lookup = λ name. some (leaf ∷ []); new_from_path = λ p. some leaf };
}

abbrev pub tree : Module
tree = record {
  kernel_release = codes "6.1";
  inner = record leaf { get_info = some ((codes "depends", codes "a,b") ∷ []) };
}

abbrev depends_of : Result KmodError ModuleInfo → ℕ
depends_of (ok info) = length (all_depends info)
depends_of _ = 0

abbrev pub rank : Module → ℕ
rank m = depends_of (Kmod.info m)

pub unpacks : Unpacks env
unpacks = record { reads = λ p d. cc; zstd = λ bytes d. cc; gzip = λ bytes d. cc }

pub leaf_rank : (n : Bytes) (d : Module) → module_from_name kmod n ≡ ok d → rank d ≡ 0
unfolding module_from_name Kmod.info Kmod.add_items
leaf_rank n d e =
    let (_, _, f) = and_then-ok (Kmod.c_string n) _ e in
    subst (λ x. rank x ≡ 0) (ok-injective f) refl

positive : (n : Bytes) (names : List Bytes) → Among n names → 0 < length names
positive n [] m = absurd m
positive n (k ∷ names) m = omega arith

pub descends : Descends kmod rank
descends m d info n file found among named =
    let r : rank m ≡ length (all_depends info) = ap depends_of found in
    omega (arith, r, leaf_rank n d named, positive n (all_depends info) among)
