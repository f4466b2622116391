-- ===== src/Initramfs/Terminates.antt =====
-- Initramfs.from_config of crates/elusive/src/initramfs.rs: it returns.
pub mod Build
use elusive.Base.{
  Among, ℕ, suc, ◌+◌, ◌<◌, Option, none, some, List, [], ◌∷◌, Bytes, length, codes, ◌≡◌, ◌≢◌,
  Bool-cases, inl, inr, arith, Result, ok, diverge, lift, expect, map_err, ◌>>=◌, ◌>>◌,
}
use elusive.Text.{is_utf8}
use elusive.FilePath.{FilePath, normal, parse, parent, join, strip_prefix, file_name, to_bytes}
use elusive.Host.{Host, HostMetadata, WalkError}
use elusive.Entry
use elusive.Vfs
use elusive.Vfs.{Vfs, create_dir, create_entry}
use elusive.Kmod
use elusive.Kmod.{
  KmodLib, Kmod, Module, KmodError, module_from_name, module_from_path, c_string, kmod_init_ctx,
  get_kernel_release, modules_dir,
}
use elusive.Config
use elusive.Initramfs
use elusive.Initramfs.{
  Env, input_output, walk_failed, kmod_failed, vfs_failed, each, path, root_dirs, root_symlinks,
  add_root_dir, add_root_symlink, create_parent, copy_file, copy_missing, copy_walked, copy_source,
  add_source, add_files, add_elf, add_symlink, add_module, add_module_from_name,
  add_module_from_path, add_kernel_module, add_systemd_unit, add_config_module, add_entrypoint,
  add_optional_shutdown, open_kmod, from_config, build, resolve_binary, check_exists,
}
use elusive.Initramfs.Requests.{find_module}
use elusive.Initramfs.Ends.{
  Answers, continue-ends, map_err-ends, and_then-ends, ok_or-ends, expect-ends, create_parent-ends,
  create_dir-ends, create_entry-ends, copy_file-ends,
}
use elusive.Initramfs.Elves.{IsClosed, add_elf_terminates}
use elusive.Initramfs.Ranked.{
  Unpacks, Descends, add_module_terminates, nul_terminated-ends, module_from_name-ends,
}
use elusive.Initramfs.Ranked.Units.{UnitsDescend, add_systemd_unit_terminates}
use elusive.Initramfs.Returns.{
  Returns, then-Returns, lift-Returns, expect-Returns, if-Returns, unless_contained-Returns,
  each-Returns, create_entry-Returns, check_exists-Returns, add_entrypoint-Returns,
}

-- Every call of the machine and of the libraries returns.
pub record Halts (env : Env) : Type 0 where
  pub answers : Answers env
  pub unpacks : Unpacks env
  pub metadata : (p : FilePath) → env.host.metadata p ≢ diverge
  pub walks :
      (p : FilePath) (entry : Result WalkError FilePath)
      → Among entry (env.host.walk p)
      → entry ≢ diverge
  pub parses : (content : Bytes) → env.unit_parser content ≢ diverge
  pub uname : env.kmod.uname ≢ diverge

pub module_from_path-ends : (kmod : Kmod) (p : FilePath) → module_from_path kmod p ≢ diverge
unfolding module_from_path
module_from_path-ends kmod p =
    and_then-ends (c_string (to_bytes p)) _
      (map_err-ends Kmod.interior_nul_byte _ (nul_terminated-ends 0 (to_bytes p)))
      λ cstr _.
        and_then-ends _ _
          (ok_or-ends (kmod.ctx.new_from_path cstr) (Kmod.module_from_path_failed p))
          λ inner _ d. cc

kmod_init_ctx-ends : (lib : KmodLib) (dir : FilePath) → kmod_init_ctx lib dir ≢ diverge
unfolding kmod_init_ctx
kmod_init_ctx-ends lib dir =
    and_then-ends (c_string (to_bytes dir)) _
      (map_err-ends Kmod.interior_nul_byte _ (nul_terminated-ends 0 (to_bytes dir)))
      λ cstr _. ok_or-ends (lib.kmod_new cstr) Kmod.context_new_failed

get_kernel_release-ends : (lib : KmodLib) → lib.uname ≢ diverge → get_kernel_release lib ≢ diverge
unfolding get_kernel_release
get_kernel_release-ends lib h =
    and_then-ends (map_err Kmod.input_output lib.uname) _
      (map_err-ends Kmod.input_output lib.uname h)
      λ release _. elim (Bool-cases (is_utf8 release)) [
        | inl text ↦ rw text (λ d. cc)
        | inr other ↦ rw other (λ d. cc)
      ]

new-ends : (lib : KmodLib) → lib.uname ≢ diverge → Kmod.new lib ≢ diverge
unfolding Kmod.new
new-ends lib h =
    and_then-ends (get_kernel_release lib) _ (get_kernel_release-ends lib h) λ release _.
      and_then-ends (kmod_init_ctx lib (join modules_dir (parse release))) _
        (kmod_init_ctx-ends lib (join modules_dir (parse release))) λ ctx _ d. cc

with_directory-ends :
    (h : Host) (lib : KmodLib) (lossy : Bytes → Bytes) (dir : FilePath)
    → Kmod.with_directory h lib lossy dir ≢ diverge
unfolding Kmod.with_directory
with_directory-ends h lib lossy dir =
    elim (Bool-cases (h.exists (join dir (normal (codes "kernel") ∷ [])))) [
      | inl there ↦ rw there (
          and_then-ends _ _ (expect-ends (file_name dir)) λ name _.
            and_then-ends (kmod_init_ctx lib dir) _ (kmod_init_ctx-ends lib dir) λ ctx _ d. cc)
      | inr missing ↦ rw missing (λ d. cc)
    ]

pub add_symlink-Returns : (p : FilePath) (target : Bytes) → Returns (add_symlink p target)
unfolding add_symlink
add_symlink-Returns p target = unless_contained-Returns (parse target) _ (
    then-Returns (create_parent (parent p)) _ (create_parent-ends (parent p))
      (create_entry-Returns p (Entry.symlink target)))

pub new-Returns : Returns Initramfs.new
unfolding Initramfs.new
new-Returns =
    then-Returns (each add_root_dir root_dirs) (each add_root_symlink root_symlinks)
      (each-Returns add_root_dir root_dirs
        λ dir _ v. map_err-ends vfs_failed _ (create_dir-ends (path dir) v))
      (each-Returns add_root_symlink root_symlinks
        λ link _. create_entry-Returns (path link.0) (Entry.symlink (codes link.1)))

module _ (env : Env) (halts : Halts env) where
  pub open_kmod-ends : (o : Option FilePath) → open_kmod env o ≢ diverge
  open_kmod-ends none = map_err-ends kmod_failed _ (new-ends env.kmod halts.uname)
  open_kmod-ends (some p) = elim (Bool-cases (env.host.exists p)) [
    | inl there ↦
        rw there
          (map_err-ends kmod_failed _ (with_directory-ends env.host env.kmod env.to_string_lossy p))
    | inr missing ↦ rw missing (λ d. cc)
  ]

  copy_missing-Returns : (source dest : FilePath) → Returns (copy_missing env source dest)
  copy_missing-Returns source dest =
      unless_contained-Returns dest (copy_file env source dest)
        (copy_file-ends env halts.answers source dest)

  add_source-Returns : (destination source : FilePath) → Returns (add_source env destination source)
  add_source-Returns destination source =
      then-Returns (check_exists env source) _ (check_exists-Returns env halts.answers source) (
        lift-Returns input_output (env.host.metadata source) _ (halts.metadata source) λ metadata _.
          if-Returns metadata.is_dir _ _
            (each-Returns (copy_walked env source destination) (env.host.walk source) λ entry m.
              lift-Returns walk_failed entry _ (halts.walks source entry m) λ p _.
                expect-Returns (strip_prefix source p) _
                  λ inner. copy_missing-Returns p (join destination inner))
            (expect-Returns (file_name source) _
              λ name. copy_missing-Returns source (join destination (normal name ∷ []))))

  pub add_files-Returns :
      (sources : List FilePath) (destination : FilePath)
      → Returns (add_files env sources destination)
  unfolding add_files
  add_files-Returns sources destination =
      then-Returns (create_parent (some destination)) _ (create_parent-ends (some destination)) (
        each-Returns (add_source env destination) sources
          λ source _. add_source-Returns destination source)

  pub add_optional_shutdown-Returns : (o : Option FilePath) → Returns (add_optional_shutdown env o)
  add_optional_shutdown-Returns none = λ v d. cc
  add_optional_shutdown-Returns (some p) =
      add_entrypoint-Returns env halts.answers (codes "shutdown") p
