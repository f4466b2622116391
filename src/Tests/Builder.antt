-- ===== src/Tests/Builder.antt =====
-- The builder on a small machine.
use elusive.Base.{
  Among, true, false, none, some, [], ◌∷◌, ◌≡◌, ◌≢◌, ◌↔◌, refl, sym, ◌∙◌, inl, inr, codes, ok, All,
  arith, diverge, Result,
}
use elusive.Base.Order
use elusive.Text
use elusive.FilePath
use elusive.FilePath.{FilePath, normal, parent, root, path_ord, is_absolute}
use elusive.Host.{HostFile}
use elusive.OrdMap
use elusive.OrdMap.{contains_key}
use elusive.Device
use elusive.Entry
use elusive.Entry.{Entry}
use elusive.Vfs
use elusive.Vfs.{Vfs, contains, into_iter, create_dir, create_entry, create_dir_all}
use elusive.Kmod
use elusive.Systemd
use elusive.Elf
use elusive.Search
use elusive.Config
use elusive.Initramfs
use elusive.Initramfs.{
  path, build, add_elf, add_symlink, add_files, add_systemd_unit, add_module, all_depends, each,
}
use elusive.Initramfs.{put_binary}
use elusive.Initramfs.Build.{build-parent}
use elusive.Initramfs.Copies.{Copied, put_binary-Copied, add_entrypoint-Copied}
use elusive.Initramfs.Elves.{add_elf_terminates, IsClosed}
use elusive.Initramfs.Ends.{Answers}
use elusive.OrdMap.{IsSorted}
use mathlib.Core.Path.{subst}
use elusive.Initramfs.Files.{IsWalk}
use elusive.Initramfs.Cycles.{
  RequiresWithin, DependsWithin, add_systemd_unit-cyclic, add_module-cyclic,
}
use elusive.Initramfs.Links.{add_symlink-added_iff}
use elusive.Tests.Machine.{env, host, loop_module}

pub walks : (p : FilePath) → IsWalk p (host.walk p)
walks p = ([], codes "a", refl, inl refl, (codes "a" ∷ [], codes "b", refl, inl refl, tt))

abbrev base_module : Config.Module
base_module = record {
  name = codes "base";
  binaries = [];
  files = record { sources = path "/etc/conf" ∷ []; destination = path "/opt/conf" } ∷ [];
  symlinks = record { path = path "/opt/link"; target = codes "conf" } ∷ [];
  kernel_modules = [];
  units = [];
}

abbrev config : Config.Initramfs
config = record {
  init = path "/usr/lib/systemd/systemd";
  shutdown = none;
  settings = record { kernel_module_path = none };
  modules = codes "base" ∷ [];
}

abbrev image : Vfs
image = (build env 3 config (base_module ∷ [])).1

abbrev file_entry : Entry
file_entry = record (Entry.file (1 ∷ 2 ∷ [])) {
  metadata = record (Entry.with_mode 0o100644) { mtime = 5 };
}

copied : contains image (path "/opt/conf/a/b") ≡ true
unfolding Initramfs.from_config Initramfs.new add_files add_symlink Initramfs.add_entrypoint each
    create_dir create_entry create_dir_all Entry.try_from contains Vfs.contains_file
    Vfs.contains_dir Vfs.create_dirs FilePath.parse Text.split parent FilePath.ancestors
    FilePath.prefixes FilePath.join FilePath.strip_prefix FilePath.file_name path_ord Order.list_ord
    FilePath.component_ord OrdMap.insert OrdMap.get Kmod.new Kmod.get_kernel_release
    Kmod.kmod_init_ctx Text.is_utf8 Text.nul_terminated Device.major Device.minor FilePath.to_bytes
copied = refl

build-parent_example : contains image (path "/opt/conf/a") ≡ true
unfolding parent FilePath.parse Text.split Order.list_ord
build-parent_example =
    build-parent env walks 3 config (base_module ∷ []) (path "/opt/conf/a/b") (path "/opt/conf/a")
      copied refl

abbrev binary_put : Vfs
binary_put = (put_binary env (path "/usr/bin/init") Vfs.new).1

put : put_binary env (path "/usr/bin/init") Vfs.new ≡ (ok tt, binary_put)
unfolding create_dir create_entry create_dir_all Entry.try_from contains Vfs.contains_file
    Vfs.contains_dir Vfs.create_dirs FilePath.parse Text.split parent FilePath.ancestors
    FilePath.prefixes path_ord Order.list_ord FilePath.component_ord OrdMap.insert OrdMap.get
    Device.major Device.minor
put = refl

abbrev entrypoint_put : Vfs
entrypoint_put =
    (Initramfs.add_entrypoint env (codes "init") (path "/usr/lib/systemd/systemd") Vfs.new).1

entrypoint_made :
    Initramfs.add_entrypoint env (codes "init") (path "/usr/lib/systemd/systemd") Vfs.new
    ≡ (ok tt, entrypoint_put)
unfolding Initramfs.add_entrypoint create_entry Entry.try_from contains Vfs.contains_file
    FilePath.parse Text.split path_ord Order.list_ord FilePath.component_ord OrdMap.insert
    OrdMap.get Device.major Device.minor
entrypoint_made = refl

put_binary-Copied_example : Copied env (path "/usr/bin/init") (path "/usr/bin/init") binary_put
put_binary-Copied_example = put_binary-Copied env (path "/usr/bin/init") Vfs.new binary_put put

add_entrypoint-Copied_example :
    Copied env (path "/usr/lib/systemd/systemd") (path "/init") entrypoint_put
unfolding contains FilePath.parse Text.split Order.list_ord path_ord OrdMap.get
add_entrypoint-Copied_example =
    add_entrypoint-Copied env (codes "init") (path "/usr/lib/systemd/systemd") Vfs.new
      entrypoint_put refl entrypoint_made

abbrev ok_of : (E : Type 0) {A : Type 0} → A → Result E A
ok_of E a = ok a

ok_inj : {E A : Type 0} {a b : A} → ok_of E a ≡ ok_of E b → a ≡ b
ok_inj e = cc

answers : Answers env
answers = record {
  opens = λ p d. cc;
  metadata = λ p f e d. subst (λ (g : HostFile). g.metadata ≢ diverge) (ok_inj e) (λ c. cc) d;
  read_to_end = λ p f e d. subst (λ (g : HostFile). g.read_to_end ≢ diverge) (ok_inj e) (λ c. cc) d;
  reads = λ p d. cc;
  kinds = λ bytes d. cc;
  headers = λ bytes d. cc;
  dynamics = λ bytes hs e.
      subst (All (λ (h : Elf.ProgramHeader). h.dynamic ≢ diverge)) (ok_inj e) ((λ d. cc), tt);
}

abbrev init_path : FilePath
init_path =
    FilePath.root_dir ∷ normal (codes "usr") ∷ normal (codes "bin") ∷ normal (codes "init") ∷ []

abbrev libc_path : FilePath
libc_path =
    FilePath.root_dir ∷ normal (codes "usr") ∷ normal (codes "lib") ∷ normal (codes "libc.so") ∷ []

needs_libc : (p : FilePath) → Elf.linked_libraries host env.object p ≡ ok (libc_path ∷ [])
unfolding Elf.linked_libraries Elf.scan_headers Elf.scan_dynamic Elf.scan_dyn Elf.find_table
    Elf.resolve Elf.find_library Elf.library_search_paths Search.paths Search.search_paths
    Search.find_existing FilePath.parse FilePath.join Text.split Order.list_ord
needs_libc p = refl

closed : IsClosed env (init_path ∷ libc_path ∷ [])
closed = record {
  absolute = λ p m. elim m [
    | inl e ↦ subst (λ q. is_absolute q ≡ true) (sym e) refl
    | inr m' ↦ elim m' [ inl e ↦ subst (λ q. is_absolute q ≡ true) (sym e) refl | inr n ↦ absurd n ]
  ];
  libraries = λ p needed m e.
      subst (All (λ l. Among l (init_path ∷ libc_path ∷ []))) (ok_inj (sym (needs_libc p) ∙ e))
        (inr (inl refl), tt);
}

found_init : Initramfs.resolve_binary env (path "init") ≡ ok init_path
unfolding Elf.find_binary Elf.binary_search_paths Search.paths Search.search_paths
    Search.find_existing FilePath.parse FilePath.join Text.split Order.list_ord
found_init = refl

add_elf_terminates_example : (add_elf env 3 (path "init") Vfs.new).0 ≢ diverge
add_elf_terminates_example =
    add_elf_terminates env (init_path ∷ libc_path ∷ []) (path "init") Vfs.new 3 answers closed
      (λ p e. inl (ok_inj (sym e ∙ found_init))) (omega arith)

add_symlink-added_iff_example :
    (contains (add_symlink (path "/opt/link") (codes "/opt") Vfs.new).1 (path "/opt/link") ≡ true)
    ↔ (contains Vfs.new (path "/opt") ≡ false)
unfolding Initramfs.from_config Initramfs.new add_files add_symlink Initramfs.add_entrypoint each
    create_dir create_entry create_dir_all Entry.try_from contains Vfs.contains_file
    Vfs.contains_dir Vfs.create_dirs FilePath.parse Text.split parent FilePath.ancestors
    FilePath.prefixes FilePath.join FilePath.strip_prefix FilePath.file_name path_ord Order.list_ord
    FilePath.component_ord OrdMap.insert OrdMap.get Kmod.new Kmod.get_kernel_release
    Kmod.kmod_init_ctx Text.is_utf8 Text.nul_terminated Device.major Device.minor FilePath.to_bytes
add_symlink-added_iff_example =
    add_symlink-added_iff (path "/opt/link") (codes "/opt") Vfs.new refl refl

abbrev loop_unit : Systemd.UnitFile
loop_unit = record {
  path = path "/usr/lib/systemd/system/loop.target";
  content = codes "[Unit]";
  binaries = [];
  dependencies = codes "loop.target" ∷ [];
  install_path = some (path "/usr/lib/systemd/system/initrd.target.wants/loop.target");
}

loop_unit_read : Systemd.from_name host env.unit_parser (codes "loop.target") ≡ ok loop_unit
unfolding Systemd.from_name Systemd.find_unit Systemd.unit_search_paths Systemd.unit_install_paths
    Systemd.collect Systemd.push_value Systemd.unit_of Systemd.exec_paths Systemd.without_slices
    Search.paths Search.search_paths Search.find_existing Text.is_utf8 Text.split Text.ends_with
    FilePath.parse FilePath.join FilePath.extension FilePath.file_name FilePath.split_extension
    FilePath.split_dot Order.list_ord OrdMap.get OrdMap.insert
loop_unit_read = refl

requires : RequiresWithin env (λ name. name ≡ codes "loop.target")
requires name unit s e = (
  codes "loop.target",
  subst (λ (u : Systemd.UnitFile). Among (codes "loop.target") u.dependencies)
      (ok_inj (
        sym (
          subst (λ n. Systemd.from_name host env.unit_parser n ≡ ok loop_unit) (sym s)
            loop_unit_read)
        ∙ e))
      (inl refl),
  refl,
)

add_systemd_unit-cyclic_example : (add_systemd_unit env 9 (codes "loop.target") Vfs.new).0 ≢ ok tt
add_systemd_unit-cyclic_example =
    add_systemd_unit-cyclic env (λ name. name ≡ codes "loop.target") 9 (codes "loop.target") Vfs.new
      requires refl

abbrev loop : Kmod.Module
loop = record { kernel_release = codes "6.1"; inner = loop_module }

abbrev context : Kmod.Kmod
context = record {
  kernel_release = codes "6.1";
  ctx = record {
    new_from_lookup = λ name. some (loop_module ∷ []);
    new_from_path = λ p. some loop_module;
  };
}

abbrev self_depends : Kmod.ModuleInfo
self_depends = record Kmod.no_info { depends = codes "loop" ∷ [] }

loop-info : Kmod.info loop ≡ ok self_depends
unfolding Kmod.info Kmod.add_items Kmod.add_item Kmod.nonempty Kmod.name Text.is_utf8 Text.split
    Order.list_ord
loop-info = refl

loop_found : Kmod.module_from_name context (codes "loop") ≡ ok loop
unfolding Kmod.module_from_name Text.nul_terminated
loop_found = refl

loop_is_file : Kmod.is_builtin loop ≡ false
unfolding Kmod.is_builtin
loop_is_file = refl

depends : DependsWithin context (λ m. m ≡ loop)
depends m s = (
  subst (λ n. Kmod.is_builtin n ≡ false) (sym s) loop_is_file,
  λ info e. (
    codes "loop",
    subst (λ (i : Kmod.ModuleInfo). Among (codes "loop") (all_depends i))
        (ok_inj (sym (subst (λ n. Kmod.info n ≡ ok self_depends) (sym s) loop-info) ∙ e))
        (inl refl),
    λ d f. ok_inj (sym f ∙ loop_found),
  ),
)

add_module-cyclic_example : (add_module env 9 context loop Vfs.new).0 ≢ ok tt
add_module-cyclic_example =
    add_module-cyclic env context (λ m. m ≡ loop) 9 loop Vfs.new depends refl
