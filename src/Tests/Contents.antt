-- ===== src/Tests/Contents.antt =====
-- A build with a program, a tree of files, a link and a kernel module, on the machine of the
-- examples with a module that depends on nothing.
use elusive.Base.{[], ◌∷◌, ◌++◌, ◌≡◌, true, false, none, some, refl, inl, codes, ok}
use elusive.Base.Order
use elusive.Text
use elusive.FilePath
use elusive.FilePath.{FilePath, path_ord, parent}
use elusive.OrdMap
use elusive.Device
use elusive.Entry
use elusive.Elf
use elusive.Search
use elusive.Vfs
use elusive.Vfs.{Vfs, contains, create_dir, create_entry, create_dir_all}
use elusive.Kmod
use elusive.Kmod.{Kmod, KmodModule, Module}
use elusive.Config
use elusive.Initramfs
use elusive.Initramfs.{
  Env, path, build, add_elf, add_files, add_symlink, add_module, open_kmod, each,
}
use elusive.Initramfs.Achieves.{at}
use elusive.Initramfs.Requests.{Requested, of_module, kernel_module, this, Wanted}
use elusive.Initramfs.Contents.Build.{build_contents}
use elusive.Initramfs.Extent.Build.{build_extent}
use elusive.Tests.Machine.{env}

abbrev leaf : KmodModule
leaf = record {
  get_name = some (codes "leaf");
  get_path = some (codes "/lib/modules/6.1/kernel/leaf.ko.zst");
  get_info = some [];
}

abbrev leaf_context : Kmod
leaf_context = record {
  kernel_release = codes "6.1";
  ctx = record { new_from_lookup = λ name. some (leaf ∷ []); new_from_path = λ p. some leaf };
}

abbrev leaf_module : Module
leaf_module = record { kernel_release = codes "6.1"; inner = leaf }

abbrev machine : Env
machine = record env {
  host = record env.host { read = λ p. ok (Kmod.magic_zstd ++ (0 ∷ 0 ∷ [])) };
  kmod = record env.kmod { kmod_new = λ dir. some leaf_context.ctx };
}

abbrev base : Config.Module
base = record {
  name = codes "base";
  binaries = record { path = path "init" } ∷ [];
  files = record { sources = path "/etc/conf" ∷ []; destination = path "/opt/conf" } ∷ [];
  symlinks = record { path = path "/opt/link"; target = codes "conf" } ∷ [];
  kernel_modules = Config.name (codes "leaf") ∷ [];
  units = [];
}

abbrev config : Config.Initramfs
config = record {
  init = path "/usr/lib/systemd/systemd";
  shutdown = some (path "/usr/lib/systemd/systemd-shutdown");
  settings = record { kernel_module_path = none };
  modules = codes "base" ∷ [];
}

abbrev image : Vfs
image = (build machine 3 config (base ∷ [])).1

abbrev leaf_place : FilePath
leaf_place = path "/usr/lib/modules/6.1/kernel/leaf.ko"

built : build machine 3 config (base ∷ []) ≡ (ok tt, image)
unfolding Initramfs.from_config Initramfs.new add_files add_symlink Initramfs.add_entrypoint each
    create_dir create_entry create_dir_all Entry.try_from contains Vfs.contains_file
    Vfs.contains_dir Vfs.create_dirs FilePath.parse Text.split parent FilePath.ancestors
    FilePath.prefixes FilePath.join FilePath.strip_prefix FilePath.file_name path_ord Order.list_ord
    FilePath.component_ord OrdMap.insert OrdMap.get Kmod.new Kmod.get_kernel_release
    Kmod.kmod_init_ctx Text.is_utf8 Text.nul_terminated Device.major Device.minor FilePath.to_bytes
    add_elf Elf.find_binary Elf.binary_search_paths Search.paths Search.search_paths
    Search.find_existing Elf.linked_libraries Elf.scan_headers Elf.scan_dynamic Elf.scan_dyn
    Elf.find_table Elf.resolve Elf.find_library Elf.library_search_paths add_module
    Initramfs.add_module_from_name Kmod.module_from_name Kmod.is_builtin Kmod.info Kmod.add_items
    Kmod.name Kmod.install_path Kmod.host_path Kmod.skip_to_kernel Kmod.extend Kmod.from_bytes
    Initramfs.uncompress_module FilePath.set_file_name FilePath.set_extension
    FilePath.split_extension FilePath.split_dot
built = refl

opened : open_kmod machine none ≡ ok leaf_context
unfolding Kmod.new Kmod.get_kernel_release Kmod.kmod_init_ctx Text.is_utf8 Text.nul_terminated
    FilePath.join FilePath.parse FilePath.to_bytes Text.split Order.list_ord
opened = refl

found : Kmod.module_from_name leaf_context (codes "leaf") ≡ ok leaf_module
unfolding Kmod.module_from_name Text.nul_terminated
found = refl

leaf_is_file : Kmod.is_builtin leaf_module ≡ false
unfolding Kmod.is_builtin
leaf_is_file = refl

leaf_installed : Kmod.install_path leaf_module ≡ ok leaf_place
unfolding Kmod.install_path Kmod.host_path Kmod.skip_to_kernel Kmod.extend Kmod.name Text.is_utf8
    FilePath.set_file_name FilePath.set_extension FilePath.split_extension FilePath.split_dot
    FilePath.join FilePath.parse Text.split Order.list_ord FilePath.file_name parent
leaf_installed = refl

leaf_requested : Requested machine config (base ∷ []) (at leaf_place)
leaf_requested = of_module base leaf_context (at leaf_place) (inl refl) opened (
    kernel_module (Config.name (codes "leaf")) leaf_module leaf_module leaf_place (inl refl) found
      this leaf_is_file leaf_installed)

build_contents_example : contains image leaf_place ≡ true
build_contents_example =
    build_contents machine 3 config (base ∷ []) image (at leaf_place) built leaf_requested

abbrev libc_place : FilePath
libc_place = path "/usr/lib/libc.so"

library_there : contains image libc_place ≡ true
unfolding Initramfs.from_config Initramfs.new add_files add_symlink Initramfs.add_entrypoint each
    create_dir create_entry create_dir_all Entry.try_from contains Vfs.contains_file
    Vfs.contains_dir Vfs.create_dirs FilePath.parse Text.split parent FilePath.ancestors
    FilePath.prefixes FilePath.join FilePath.strip_prefix FilePath.file_name path_ord Order.list_ord
    FilePath.component_ord OrdMap.insert OrdMap.get Kmod.new Kmod.get_kernel_release
    Kmod.kmod_init_ctx Text.is_utf8 Text.nul_terminated Device.major Device.minor FilePath.to_bytes
    add_elf Elf.find_binary Elf.binary_search_paths Search.paths Search.search_paths
    Search.find_existing Elf.linked_libraries Elf.scan_headers Elf.scan_dynamic Elf.scan_dyn
    Elf.find_table Elf.resolve Elf.find_library Elf.library_search_paths add_module
    Initramfs.add_module_from_name Kmod.module_from_name Kmod.is_builtin Kmod.info Kmod.add_items
    Kmod.name Kmod.install_path Kmod.host_path Kmod.skip_to_kernel Kmod.extend Kmod.from_bytes
    Initramfs.uncompress_module FilePath.set_file_name FilePath.set_extension
    FilePath.split_extension FilePath.split_dot
library_there = refl

build_extent_example : Wanted machine config (base ∷ []) libc_place
build_extent_example = build_extent machine 3 config (base ∷ []) libc_place library_there
