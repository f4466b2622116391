-- ===== src/Initramfs/Ranked.antt =====
-- Initramfs.add_module of crates/elusive/src/initramfs.rs, where the dependencies have no cycle.
pub mod Units
use elusive.Base.{
  Among, ℕ, zero, suc, ◌<◌, ◌+◌, false, List, [], ◌∷◌, Bytes, ◌≡◌, ◌≢◌, refl, inl, inr, Bool-cases,
  arith, ok, diverge, lift, expect, map_err, map_err-ok, ◌>>=◌, ◌>>◌,
}
use elusive.Text.{nul_terminated}
use elusive.FilePath.{FilePath, parent}
use elusive.Entry
use elusive.Vfs.{Vfs, contains}
use elusive.Kmod
use elusive.Kmod.{
  Kmod, KmodError, Module, module_from_name, is_builtin, install_path, host_path, from_bytes,
  ModuleFormat, ModuleInfo, add_item, add_items, to_str, c_string, no_info, add_softdep,
  name_or_unknown, name,
}
use elusive.Initramfs.{
  Env, Build, input_output, kmod_failed, vfs_failed, each, create_parent, unless_contained,
  uncompress_module, put_module, all_depends, add_module,
}
use elusive.Initramfs.Returns.{each-Returns}
use elusive.Initramfs.Ends.{
  continue-ends, map_err-ends, and_then-ends, ok_or-ends, expect-ends, create_parent-ends,
  create_entry-ends,
}

-- The calls return that read and uncompress a module.
pub record Unpacks (env : Env) : Type 0 where
  pub reads : (p : FilePath) → env.host.read p ≢ diverge
  pub zstd : (bytes : Bytes) → env.zstd_decode bytes ≢ diverge
  pub gzip : (bytes : Bytes) → env.gzip_decode bytes ≢ diverge

pub nul_terminated-ends : (i : ℕ) (bytes : Bytes) → nul_terminated i bytes ≢ diverge
unfolding nul_terminated
nul_terminated-ends i [] d = cc
nul_terminated-ends i (b ∷ bytes) d = ground (arith, nul_terminated-ends (i + 1) bytes)

to_str-ends : (bytes : Bytes) → to_str bytes ≢ diverge
to_str-ends bytes d = ground arith

pub module_from_name-ends : (kmod : Kmod) (name : Bytes) → module_from_name kmod name ≢ diverge
unfolding module_from_name
module_from_name-ends kmod name =
    and_then-ends (c_string name) _
      (map_err-ends Kmod.interior_nul_byte _ (nul_terminated-ends 0 name))
      λ cstr _.
        and_then-ends _ _
          (ok_or-ends (kmod.ctx.new_from_lookup cstr) (Kmod.module_from_name_failed name))
          λ inner _ d. cc

add_item-ends : (key value : Bytes) (info : ModuleInfo) → add_item key value info ≢ diverge
unfolding add_item
add_item-ends key value info d = ground (arith, to_str-ends value)

add_items-ends : (items : List (Bytes × Bytes)) (info : ModuleInfo) → add_items items info ≢ diverge
unfolding add_items
add_items-ends [] info = λ d. cc
add_items-ends ((key, value) ∷ items) info =
    and_then-ends (to_str key) _ (to_str-ends key) λ key' _.
      and_then-ends (add_item key' value info) _ (add_item-ends key' value info)
        λ info' _. add_items-ends items info'

info-ends : (m : Module) → Kmod.info m ≢ diverge
unfolding Kmod.info
info-ends m =
    and_then-ends _ _
      (ok_or-ends m.inner.get_info (Kmod.module_get_info_failed (name_or_unknown (name m))))
      λ items _. add_items-ends items no_info

install_path-ends : (m : Module) → install_path m ≢ diverge
unfolding install_path
install_path-ends m =
    and_then-ends _ _ (ok_or-ends (host_path m) Kmod.module_built_in)
      λ p _. and_then-ends _ _ (expect-ends (name m)) λ n _ d. cc

from_bytes-ends : (bytes : Bytes) → from_bytes bytes ≢ diverge
unfolding from_bytes
from_bytes-ends bytes d = ground arith

uncompress_module-ends :
    (env : Env) (bytes : Bytes) (format : ModuleFormat)
    → Unpacks env
    → uncompress_module env bytes format ≢ diverge
unfolding uncompress_module
uncompress_module-ends env bytes Kmod.elf u = λ d. cc
uncompress_module-ends env bytes Kmod.zstd u = u.zstd bytes
uncompress_module-ends env bytes Kmod.gzip u = u.gzip bytes

put_module-ends :
    (env : Env) (m : Module) (dest : FilePath) (v : Vfs)
    → Unpacks env
    → (put_module env m dest v).0 ≢ diverge
put_module-ends env m dest v u =
    continue-ends (expect (host_path m)) _ v (expect-ends (host_path m)) λ source _.
      continue-ends (map_err input_output (env.host.read source)) _ v
        (map_err-ends input_output _ (u.reads source))
        λ compressed _.
          continue-ends (map_err kmod_failed (from_bytes compressed)) _ v
            (map_err-ends kmod_failed _ (from_bytes-ends compressed))
            λ format _.
              continue-ends (map_err input_output (uncompress_module env compressed format)) _ v
                (map_err-ends input_output _ (uncompress_module-ends env compressed format u))
                λ bytes _. map_err-ends vfs_failed _ (create_entry-ends dest (Entry.file bytes) v)

-- Each dependency of a module that is a file ranks below it.
abbrev pub Descends : Kmod → (Module → ℕ) → Type 0
Descends kmod rank =
    (m d : Module) (info : ModuleInfo) (n : Bytes)
    → is_builtin m ≡ false
    → Kmod.info m ≡ ok info
    → Among n (all_depends info)
    → module_from_name kmod n ≡ ok d
    → rank d < rank m

-- What follows the dependencies.
install-ends :
    (env : Env) (m : Module) (v : Vfs)
    → Unpacks env
    → ((lift (map_err kmod_failed (install_path m)) >>= λ dest.
          (create_parent (parent dest) >> unless_contained dest (put_module env m dest)))
        v).0
      ≢ diverge
install-ends env m v u =
    continue-ends (map_err kmod_failed (install_path m)) _ v
      (map_err-ends kmod_failed (install_path m) (install_path-ends m))
      λ dest _.
        continue-ends (create_parent (parent dest) v).0 _ (create_parent (parent dest) v).1
          (create_parent-ends (parent dest) v) λ _ _. placed dest (create_parent (parent dest) v).1
  where
    placed :
        (dest : FilePath) (w : Vfs) → (unless_contained dest (put_module env m dest) w).0 ≢ diverge
    placed dest w = elim (Bool-cases (contains w dest)) [
      | inl there ↦ rw there (λ d. cc)
      | inr missing ↦ rw missing (put_module-ends env m dest w u)
    ]

-- where modules can be ranked so that each dependency, hard or soft, of a module that is a file
-- ranks below it, fuel above the rank of a module is enough for add_module, from every state, if
-- reading a file and the two decoders return.
pub add_module_terminates :
    (env : Env) (kmod : Kmod) (rank : Module → ℕ) (fuel : ℕ) (m : Module) (v : Vfs)
    → Unpacks env
    → Descends kmod rank
    → rank m < fuel
    → (add_module env fuel kmod m v).0 ≢ diverge
unfolding add_module
add_module_terminates env kmod rank zero m v u d h = absurd (omega arith)
add_module_terminates env kmod rank (suc fuel) m v u d h = elim (Bool-cases (is_builtin m)) [
  | inl built_in ↦ rw built_in (λ z. cc)
  | inr file ↦ rw file (
      continue-ends (map_err kmod_failed (Kmod.info m)) _ v
        (map_err-ends kmod_failed (Kmod.info m) (info-ends m))
        λ info found.
          let depend : Bytes → Build Unit = λ n.
            (lift (map_err kmod_failed (module_from_name kmod n)) >>= add_module env fuel kmod) in
          continue-ends (each depend (all_depends info) v).0 _ (each depend (all_depends info) v).1
            (each-Returns depend (all_depends info)
              (λ n among w.
                continue-ends (map_err kmod_failed (module_from_name kmod n))
                  (add_module env fuel kmod) w
                  (map_err-ends kmod_failed (module_from_name kmod n)
                    (module_from_name-ends kmod n))
                  λ next named. add_module_terminates env kmod rank fuel next w u d (
                    omega (
                      arith,
                      d m next info n file (map_err-ok kmod_failed (Kmod.info m) found) among
                          (map_err-ok kmod_failed (module_from_name kmod n) named),
                    )))
              v)
            λ _ _. install-ends env m (each depend (all_depends info) v).1 u)
]
