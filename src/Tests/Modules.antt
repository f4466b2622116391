-- ===== src/Tests/Modules.antt =====
-- Runs of the theorems on kernel modules.
use elusive.Base.{◌↔◌, some, none, [], ◌∷◌, ◌++◌, ◌≡◌, ◌≢◌, refl, ap, length, map, codes, ok, Bytes}
use elusive.Base.Order
use elusive.Text
use elusive.FilePath
use elusive.FilePath.{FilePath, root_dir, normal}
use elusive.Kmod
use elusive.Vfs
use elusive.Kmod.Handles.{info_held, info_held-balanced_iff}
use elusive.Initramfs.{add_module_from_name}
use elusive.Initramfs.Missing.{add_module_from_name-missing}
use elusive.Tests.Machine.{env}
use elusive.Kmod.{Module, ModuleInfo, KmodModule, install_path, from_bytes, modules_dir}
use elusive.Kmod.Install.{install_path-kernel, install_path-outside, release_dir, ko_name}

abbrev in_tree : Module
in_tree = record {
  kernel_release = codes "6.1";
  inner = record {
    get_name = some (codes "loop");
    get_path = some (codes "/usr/lib/modules/6.1/kernel/drivers/loop.ko.zst");
    get_info = none;
  };
}

abbrev out_of_tree : Module
out_of_tree = record {
  kernel_release = codes "6.1";
  inner = record {
    get_name = some (codes "loop");
    get_path = some (codes "/opt/loop.ko");
    get_info = none;
  };
}

by_length : {a b : Bytes} → length a ≢ length b → a ≢ b
by_length n e = n (ap length e)

install_path-kernel_example :
    install_path in_tree
    ≡ ok (
        release_dir in_tree
        ++ (map normal (codes "kernel" ∷ codes "drivers" ∷ [])
            ++ (normal (ko_name (codes "loop")) ∷ [])))
unfolding Kmod.host_path Kmod.name FilePath.parse Text.split Text.is_utf8 Order.list_ord
install_path-kernel_example =
    install_path-kernel in_tree
      (root_dir
        ∷ normal (codes "usr")
        ∷ normal (codes "lib")
        ∷ normal (codes "modules")
        ∷ normal (codes "6.1")
        ∷ [])
      (codes "drivers" ∷ []) (codes "loop.ko.zst") (codes "loop") refl refl
      (
        by_length (λ e. cc),
        (
          by_length (λ e. cc),
          (by_length (λ e. cc), (by_length (λ e. cc), (by_length (λ e. cc), tt))),
        ),
      )

install_path-outside_example :
    install_path out_of_tree ≡ ok (modules_dir ++ (normal (ko_name (codes "loop")) ∷ []))
unfolding Kmod.host_path Kmod.name FilePath.parse Text.split Text.is_utf8 Order.list_ord
install_path-outside_example =
    install_path-outside out_of_tree
      (root_dir ∷ normal (codes "opt") ∷ normal (codes "loop.ko") ∷ []) (codes "6.1") (codes "loop")
      refl refl refl (by_length (λ e. cc), (by_length (λ e. cc), (by_length (λ e. cc), tt)))

-- A module whose information is no UTF-8.
abbrev strange : Module
strange = record {
  kernel_release = codes "6.1";
  inner = record in_tree.inner { get_info = some ((0xff ∷ [], codes "x") ∷ []) };
}

info_held-balanced_iff_example :
    ((info_held strange 0).0 ≡ Kmod.info strange)
    × (((info_held strange 0).1 ≡ 0) ↔ ((i : ModuleInfo) × (Kmod.info strange ≡ ok i)))
info_held-balanced_iff_example = info_held-balanced_iff strange ((0xff ∷ [], codes "x") ∷ []) 0 refl

strange_leaks : (info_held strange 0).1 ≡ 1
unfolding info_held Kmod.add_items Kmod.name Text.is_utf8
strange_leaks = refl

abbrev no_modules : Kmod.Kmod
no_modules = record {
  kernel_release = codes "6.1";
  ctx = record { new_from_lookup = λ name. some []; new_from_path = λ p. none };
}

add_module_from_name-missing_example :
    add_module_from_name env 1 no_modules (codes "lop") Vfs.new ≡ (ok tt, Vfs.new)
unfolding Text.nul_terminated
add_module_from_name-missing_example =
    add_module_from_name-missing env 0 no_modules (codes "lop") (codes "lop" ++ (0 ∷ [])) Vfs.new
      refl refl
