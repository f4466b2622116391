-- ===== src/Tests/Programs.antt =====
-- A build with a program that needs a library, which needs itself, on the machine of the examples.
use elusive.Base.{
  [], ◌∷◌, ◌≡◌, true, none, some, ℕ, suc, ◌≤◌, length, refl, sym, ◌∙◌, inl, inr, codes, ok,
  ok-injective, Among, All, arith, Option-cases,
}
use mathlib.Core.Path.{subst}
use elusive.Base.Order
use elusive.Base.Order.{Ordering-cases}
use elusive.Text
use elusive.FilePath
use elusive.FilePath.{FilePath, path_ord, parent}
use elusive.FilePath.Lengths.{from_top-length, parent-length}
use elusive.OrdMap
use elusive.OrdMap.{OrdMap, contains_key}
use elusive.Device
use elusive.Entry
use elusive.Entry.{Entry}
use elusive.Elf
use elusive.Elf.{linked_libraries}
use elusive.Search
use elusive.Vfs
use elusive.Vfs.{Vfs, contains, create_dir, create_entry, create_dir_all}
use elusive.Kmod
use elusive.Kmod.{Kmod}
use elusive.Config
use elusive.Initramfs
use elusive.Initramfs.{Env, path, build, add_elf, each, resolve_binary}
use elusive.Initramfs.Achieves.{at, program, link}
use elusive.Initramfs.Binaries.{above}
use elusive.Initramfs.Requests.{
  Requested, init, shutdown, of_module, ModuleItem, binary, destination, file, symlink,
  kernel_module, unit, Linked, this, Foreign, of_skeleton, of_path, of_link, ancestor, above_parent,
  above_program, Followed, itself,
}
use elusive.Initramfs.Closure.{build_libraries}
use elusive.Tests.Machine.{env, loop_module}

abbrev programs : Config.Module
programs = record {
  name = codes "programs";
  binaries = record { path = path "/usr/bin/init" } ∷ [];
  files = [];
  symlinks = [];
  kernel_modules = [];
  units = [];
}

abbrev config : Config.Initramfs
config = record {
  init = path "/usr/lib/systemd/systemd";
  shutdown = none;
  settings = record { kernel_module_path = none };
  modules = codes "programs" ∷ [];
}

abbrev image : Vfs
image = (build env 4 config (programs ∷ [])).1

abbrev program_place : FilePath
program_place = path "/usr/bin/init"

abbrev library_place : FilePath
library_place = path "/usr/lib/libc.so"

built : build env 4 config (programs ∷ []) ≡ (ok tt, image)
unfolding Initramfs.from_config Initramfs.new Initramfs.add_entrypoint each create_dir create_entry
    create_dir_all Entry.try_from contains Vfs.contains_file Vfs.contains_dir Vfs.create_dirs
    FilePath.parse Text.split parent FilePath.ancestors FilePath.prefixes FilePath.join path_ord
    Order.list_ord FilePath.component_ord OrdMap.insert OrdMap.get Kmod.new Kmod.get_kernel_release
    Kmod.kmod_init_ctx Text.is_utf8 Text.nul_terminated Device.major Device.minor FilePath.to_bytes
    add_elf Elf.find_binary Elf.binary_search_paths Search.paths Search.search_paths
    Search.find_existing Elf.linked_libraries Elf.scan_headers Elf.scan_dynamic Elf.scan_dyn
    Elf.find_table Elf.resolve Elf.find_library Elf.library_search_paths
built = refl

libraries : (p : FilePath) → linked_libraries env.host env.object p ≡ ok (library_place ∷ [])
unfolding Elf.linked_libraries Elf.scan_headers Elf.scan_dynamic Elf.scan_dyn Elf.find_table
    Elf.resolve Elf.find_library Elf.library_search_paths Search.paths Search.search_paths
    Search.find_existing FilePath.parse Text.split FilePath.join Order.list_ord
    FilePath.component_ord Text.is_utf8 Text.nul_terminated
libraries p = refl

library_resolved : resolve_binary env library_place ≡ ok library_place
unfolding FilePath.parse Text.split Order.list_ord
library_resolved = refl

library_short : length library_place ≤ 4
unfolding FilePath.parse Text.split Order.list_ord
library_short = omega arith

program_short : length program_place ≤ 4
unfolding FilePath.parse Text.split Order.list_ord
program_short = omega arith

program_long : length program_place ≤ 3 → ⊥
unfolding FilePath.parse Text.split Order.list_ord
program_long h = omega (arith, h)

program_resolved : resolve_binary env program_place ≡ ok program_place
unfolding FilePath.parse Text.split Order.list_ord
program_resolved = refl

-- The directories above a path are shorter.
above-length :
    (p q : FilePath) (n : ℕ) → length p ≤ suc n → Among q (above (parent p)) → length q ≤ n
above-length p q n h m = elim (Option-cases (parent p)) [
  | inl e ↦ absurd (subst (λ o. Among q (above o)) e m)
  | inr (d, e) ↦
      from_top-length d q n (omega (arith, h, parent-length p d e))
        (subst (λ o. Among q (above o)) e m)
]

contains_key-All :
    (P : FilePath → Type 0) (q : FilePath) (m : OrdMap FilePath Entry)
    → All (λ e. P e.0) m
    → contains_key q m ≡ true
    → P q
unfolding OrdMap.get
contains_key-All P q [] a h = cc h
contains_key-All P q ((k, e) ∷ m) (a, r) h = elim (Ordering-cases (path_ord.cmp q k)) [
  | inl l ↦ cc (rw (contains_key, l) at h)
  | inr (inl l) ↦ subst P (sym (path_ord.cmp_eq q k l)) a
  | inr (inr l) ↦ contains_key-All P q m r (rw (contains_key, l) at h)
]

skeleton-length : (q : FilePath) → contains (Initramfs.new Vfs.new).1 q ≡ true → length q ≤ 3
unfolding Initramfs.new each contains create_dir create_entry Vfs.contains_file FilePath.parse
    Text.split parent path_ord Order.list_ord FilePath.component_ord OrdMap.insert OrdMap.get
skeleton-length q h =
    contains_key-All (λ k. length k ≤ 3) q (Initramfs.new Vfs.new).1.inner (ground arith) h

library_found :
    (l next : FilePath)
    → Among l (library_place ∷ [])
    → resolve_binary env l ≡ ok next
    → next ≡ library_place
library_found l next (inl e) r =
    ok-injective (sym (subst (λ x. resolve_binary env x ≡ ok next) e r) ∙ library_resolved)
library_found l next (inr m) r = absurd m

Linked-length : (q p : FilePath) → length p ≤ 4 → Linked env q p → length q ≤ 4
Linked-length q p h this = h
Linked-length q p h (Linked.library _ l next needed e m r n) =
    Linked-length q next
      (subst (λ x. length x ≤ 4)
        (sym (library_found l next (subst (Among l) (ok-injective (sym e ∙ libraries p)) m) r))
        library_short)
      n

program_found :
    (kmod : Kmod) (p : FilePath) → ModuleItem env kmod programs (program p) → p ≡ program_place
program_found kmod p (binary b _ (inl e) r) =
    ok-injective (sym (subst (λ x. resolve_binary env x.path ≡ ok p) e r) ∙ program_resolved)
program_found kmod p (binary b _ (inr m) r) = absurd m
program_found kmod p (file f source _ m b i) = absurd m
program_found kmod p (unit u name found _ m n i) = absurd m

no_path : (kmod : Kmod) (p : FilePath) → ModuleItem env kmod programs (at p) → ⊥
no_path kmod p (destination f m) = m
no_path kmod p (file f source _ m b i) = m
no_path kmod p (kernel_module k first needed _ m f n b e) = m
no_path kmod p (unit u name found _ m n i) = m

no_link : (kmod : Kmod) (p t : FilePath) → ModuleItem env kmod programs (link p t) → ⊥
no_link kmod p t (file f source _ m b i) = m
no_link kmod p t (symlink l m) = m
no_link kmod p t (unit u name found _ m n i) = m

Foreign-length : (q : FilePath) → Foreign env config (programs ∷ []) q → length q ≤ 3
Foreign-length q (of_skeleton _ h) = skeleton-length q h
Foreign-length q (of_path _ init) = omega arith
Foreign-length q (of_path _ (shutdown p e)) = cc e
Foreign-length q (of_path _ (of_module m kmod _ (inl e) o i)) =
    absurd (no_path kmod q (subst (λ x. ModuleItem env kmod x (at q)) e i))
Foreign-length q (of_path _ (of_module m kmod _ (inr n) o i)) = absurd n
Foreign-length q (of_link _ t (of_module m kmod _ (inl e) o i)) =
    absurd (no_link kmod q t (subst (λ x. ModuleItem env kmod x (link q t)) e i))
Foreign-length q (of_link _ t (of_module m kmod _ (inr n) o i)) = absurd n
Foreign-length q (ancestor p _ f m) = from_top-length p q 3 (Foreign-length p f) m
Foreign-length q (above_parent p _ f m) = above-length p q 3 (omega (arith, Foreign-length p f)) m
Foreign-length q (above_program p r _ (of_module n kmod _ (inl e) o i) l m) =
    let is = program_found kmod p (subst (λ x. ModuleItem env kmod x (program p)) e i) in
    above-length r q 3 (Linked-length r p (subst (λ x. length x ≤ 4) (sym is) program_short) l) m
Foreign-length q (above_program p r _ (of_module n kmod _ (inr k) o i) l m) = absurd k

abbrev context : Kmod
context = record {
  kernel_release = codes "6.1";
  ctx = record {
    new_from_lookup = λ name. some (loop_module ∷ []);
    new_from_path = λ p. some loop_module;
  };
}

opened : Initramfs.open_kmod env none ≡ ok context
unfolding Kmod.new Kmod.get_kernel_release Kmod.kmod_init_ctx Text.is_utf8 Text.nul_terminated
    FilePath.join FilePath.parse FilePath.to_bytes Text.split Order.list_ord
opened = refl

program_requested : Requested env config (programs ∷ []) (program program_place)
program_requested =
    of_module programs context (program program_place) (inl refl) opened
      (binary (record { path = program_place }) program_place (inl refl) program_resolved)

build_libraries_example : contains image library_place ≡ true
build_libraries_example =
    build_libraries env 4 config (programs ∷ []) image program_place library_place built
      program_requested
      (Followed.library program_place library_place (library_place ∷ []) itself
        (λ f. program_long (Foreign-length program_place f)) (libraries program_place) (inl refl))
