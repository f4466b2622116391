-- ===== src/Kmod/Install.antt =====
-- Module.install_path of crates/elusive/src/kmod.rs: where a module is installed.
use mathlib.Core.List.{map-append}
use elusive.FilePath.Names.{join_name, file_name-append}
use elusive.Base.{
  map, ap, sym, ◌∙◌, append_assoc, append-nil, some, [], ◌∷◌, ◌++◌, ◌≡◌, ◌≢◌, refl, All, Bytes,
  codes, List, ok,
}
use elusive.Base.Order.{same_ne, list_ord}
use elusive.FilePath.{
  FilePath, normal, os_str, Component, replace_last, file_stem, set_file_name, set_extension, join,
  parse,
}
use elusive.Kmod.{Module, host_path, name, install_path, skip_to_kernel, extend, modules_dir}

skip_to_kernel-prefix :
    (front rest : FilePath)
    → All (λ c. os_str c ≢ codes "kernel") front
    → skip_to_kernel (front ++ (normal (codes "kernel") ∷ rest)) ≡ normal (codes "kernel") ∷ rest
unfolding skip_to_kernel list_ord
skip_to_kernel-prefix [] rest h = refl
skip_to_kernel-prefix (c ∷ front) rest (n, h) =
    rw (same_ne (os_str c) (codes "kernel") n) (skip_to_kernel-prefix front rest h)

skip_to_kernel-outside :
    (p : FilePath) → All (λ c. os_str c ≢ codes "kernel") p → skip_to_kernel p ≡ []
unfolding skip_to_kernel list_ord
skip_to_kernel-outside [] h = refl
skip_to_kernel-outside (c ∷ p) (n, h) =
    rw (same_ne (os_str c) (codes "kernel") n) (skip_to_kernel-outside p h)

extend-names :
    (base : FilePath) (names : List Bytes)
    → extend base (map normal names) ≡ base ++ map normal names
unfolding extend
extend-names base [] = sym (append-nil base)
extend-names base (n ∷ names) =
    ap (λ b. extend b (map normal names)) (join_name base n)
    ∙ extend-names (base ++ (normal n ∷ [])) names
    ∙ append_assoc base (normal n ∷ []) (map normal names)

replace_last-append :
    (p : FilePath) (c : Component) (n : Bytes)
    → replace_last (p ++ (c ∷ [])) n ≡ p ++ (normal n ∷ [])
unfolding replace_last
replace_last-append [] c n = refl
replace_last-append (b ∷ []) c n = refl
replace_last-append (b ∷ d ∷ p) c n = ap (λ q. b ∷ q) (replace_last-append (d ∷ p) c n)

-- The name of the file that is installed.
abbrev pub ko_name : Bytes → Bytes
ko_name n = file_stem n ++ (b'.' ∷ codes "ko")

set_file_name-append :
    (p : FilePath) (last n : Bytes)
    → set_file_name (p ++ (normal last ∷ [])) n ≡ p ++ (normal n ∷ [])
unfolding set_file_name
set_file_name-append p last n =
    rw (set_file_name, file_name-append p last) (replace_last-append p (normal last) n)

set_extension-append :
    (p : FilePath) (n : Bytes)
    → set_extension (p ++ (normal n ∷ [])) (codes "ko") ≡ p ++ (normal (ko_name n) ∷ [])
unfolding set_extension
set_extension-append p n =
    rw (set_extension, file_name-append p n) (replace_last-append p (normal n) (ko_name n))

named :
    (p : FilePath) (last n : Bytes)
    → set_extension (set_file_name (p ++ (normal last ∷ [])) n) (codes "ko")
      ≡ p ++ (normal (ko_name n) ∷ [])
named p last n = rw (set_file_name-append p last n) (set_extension-append p n)

-- The directory of the kernel's release.
abbrev pub release_dir : Module → FilePath
release_dir m = join modules_dir (parse m.kernel_release)

-- a module whose file lies below a directory named kernel is installed below the directory of the
-- release, under the same directories from kernel on, as the module's name with the extension ko.
-- No component in front of kernel may be named so.
pub install_path-kernel :
    (m : Module) (front : FilePath) (dirs : List Bytes) (last n : Bytes)
    → host_path m ≡ some (front ++ (normal (codes "kernel") ∷ map normal (dirs ++ (last ∷ []))))
    → name m ≡ some n
    → All (λ c. os_str c ≢ codes "kernel") front
    → install_path m
      ≡ ok (release_dir m ++ (map normal (codes "kernel" ∷ dirs) ++ (normal (ko_name n) ∷ [])))
unfolding install_path
install_path-kernel m front dirs last n e f h =
    rw (e, f, skip_to_kernel-prefix front (map normal (dirs ++ (last ∷ []))) h)
      (ap ok (
        ap (λ p. set_extension (set_file_name p n) (codes "ko"))
          (extend-names (release_dir m) (codes "kernel" ∷ (dirs ++ (last ∷ [])))
            ∙ ap (λ q. release_dir m ++ (normal (codes "kernel") ∷ q))
                (map-append normal dirs (last ∷ []))
            ∙ sym (
                append_assoc (release_dir m) (map normal (codes "kernel" ∷ dirs))
                  (normal last ∷ [])))
        ∙ named (release_dir m ++ map normal (codes "kernel" ∷ dirs)) last n
        ∙ append_assoc (release_dir m) (map normal (codes "kernel" ∷ dirs))
            (normal (ko_name n) ∷ [])))

-- a module whose file lies below no directory named kernel is installed beside the directory of
-- the release, not in it, where the release is one component: the path does not depend on the
-- release.
pub install_path-outside :
    (m : Module) (p : FilePath) (release n : Bytes)
    → host_path m ≡ some p
    → name m ≡ some n
    → parse m.kernel_release ≡ normal release ∷ []
    → All (λ c. os_str c ≢ codes "kernel") p
    → install_path m ≡ ok (modules_dir ++ (normal (ko_name n) ∷ []))
unfolding install_path extend
install_path-outside m p release n e f r h =
    rw (e, f, r, skip_to_kernel-outside p h, join_name modules_dir release)
      (ap ok (named modules_dir release n))
