-- ===== src/Initramfs/Terminates/Build.antt =====
-- Initramfs.from_config of crates/elusive/src/initramfs.rs: fuel that is enough.
use elusive.Base.{Among, ℕ, suc, ◌+◌, ◌<◌, List, Bytes, length, codes, ◌≡◌, ◌≢◌, ok, diverge}
use elusive.FilePath.{FilePath}
use elusive.Vfs
use elusive.Kmod.{Kmod, Module, module_from_name, module_from_path}
use elusive.Config
use elusive.Initramfs
use elusive.Initramfs.{
  Env, kmod_failed, each, add_files, add_elf, add_symlink, add_module, add_module_from_name,
  add_module_from_path, add_kernel_module, add_systemd_unit, add_config_module, add_entrypoint,
  add_optional_shutdown, open_kmod, from_config, build, resolve_binary,
}
use elusive.Initramfs.Requests.{find_module}
use elusive.Initramfs.Ends.{continue-ends}
use elusive.Initramfs.Elves.{IsClosed, add_elf_terminates}
use elusive.Initramfs.Ranked.{Descends, add_module_terminates, module_from_name-ends}
use elusive.Initramfs.Ranked.Units.{UnitsDescend, add_systemd_unit_terminates}
use elusive.Initramfs.Returns.{
  Returns, then-Returns, lift-Returns, each-Returns, add_entrypoint-Returns,
}
use elusive.Initramfs.Terminates.{
  Halts, module_from_path-ends, new-Returns, add_symlink-Returns, open_kmod-ends, add_files-Returns,
  add_optional_shutdown-Returns,
}

-- What bounds the recursions: a finite set of paths that is closed under needing a library, and
-- ranks that fall along dependencies.
pub record IsBounded (env : Env) (config : Config.Initramfs) (ps : List FilePath)
    (rank : Module → ℕ) (unit_rank : Bytes → ℕ) : Type 0 where
  pub closed : IsClosed env ps
  pub modules_descend :
      (kmod : Kmod)
      → open_kmod env config.settings.kernel_module_path ≡ ok kmod
      → Descends kmod rank
  pub units_descend : UnitsDescend env ps unit_rank

-- The fuel is above what a module of the configuration starts with.
pub record IsEnough (env : Env) (config : Config.Initramfs) (ps : List FilePath) (rank : Module → ℕ)
    (unit_rank : Bytes → ℕ) (fuel : ℕ) (m : Config.Module) : Type 0 where
  pub binaries :
      (b : Config.Binary) (p : FilePath)
      → Among b m.binaries
      → resolve_binary env b.path ≡ ok p
      → Among p ps
  pub paths : length ps < fuel
  pub kernel_modules :
      (kmod : Kmod) (k : Config.KernelModule) (found : Module)
      → open_kmod env config.settings.kernel_module_path ≡ ok kmod
      → Among k m.kernel_modules
      → find_module kmod k ≡ ok found
      → rank found < fuel
  pub units : (u : Config.UnitName) → Among u m.units → suc (unit_rank u.name + length ps) < fuel

module _ (env : Env) (config : Config.Initramfs) (ps : List FilePath) (rank : Module → ℕ)
    (unit_rank : Bytes → ℕ) (fuel : ℕ) (halts : Halts env)
    (bounded : IsBounded env config ps rank unit_rank) where
  add_kernel_module-Returns :
      (kmod : Kmod) (k : Config.KernelModule)
      → open_kmod env config.settings.kernel_module_path ≡ ok kmod
      → ((found : Module) → find_module kmod k ≡ ok found → rank found < fuel)
      → Returns (add_kernel_module env fuel kmod k)
  unfolding add_module_from_name add_module_from_path
  add_kernel_module-Returns kmod (Config.name name) o h =
      lift-Returns kmod_failed (module_from_name kmod name) (add_module env fuel kmod)
        (module_from_name-ends kmod name)
        λ m e v.
          add_module_terminates env kmod rank fuel m v halts.unpacks
            (bounded.modules_descend kmod o) (h m e)
  add_kernel_module-Returns kmod (Config.path p) o h =
      lift-Returns kmod_failed (module_from_path kmod p) (add_module env fuel kmod)
        (module_from_path-ends kmod p)
        λ m e v.
          add_module_terminates env kmod rank fuel m v halts.unpacks
            (bounded.modules_descend kmod o) (h m e)

  add_config_module-Returns :
      (kmod : Kmod) (m : Config.Module)
      → open_kmod env config.settings.kernel_module_path ≡ ok kmod
      → IsEnough env config ps rank unit_rank fuel m
      → Returns (add_config_module env fuel kmod m)
  add_config_module-Returns kmod m o enough =
      then-Returns (each (λ (b : Config.Binary). add_elf env fuel b.path) m.binaries) _
        (each-Returns _ m.binaries λ b a v.
          add_elf_terminates env ps b.path v fuel halts.answers bounded.closed
            (λ p e. enough.binaries b p a e) enough.paths)
        (then-Returns (each (λ (f : Config.File). add_files env f.sources f.destination) m.files) _
          (each-Returns _ m.files λ f _. add_files-Returns env halts f.sources f.destination)
          (then-Returns (each (λ (l : Config.Symlink). add_symlink l.path l.target) m.symlinks) _
            (each-Returns _ m.symlinks λ l _. add_symlink-Returns l.path l.target)
            (then-Returns (each (add_kernel_module env fuel kmod) m.kernel_modules) _
              (each-Returns _ m.kernel_modules λ k a.
                add_kernel_module-Returns kmod k o
                  λ found e. enough.kernel_modules kmod k found o a e)
              (each-Returns (λ (u : Config.UnitName). add_systemd_unit env fuel u.name) m.units
                λ u a v.
                  add_systemd_unit_terminates env ps unit_rank fuel u.name v halts.answers
                    bounded.closed bounded.units_descend halts.parses (enough.units u a)))))

-- the builder returns, if every call of the machine and of the libraries does, and its recursions
-- are bounded: the binaries of the configuration and of the units, and with a binary the libraries
-- that it needs, lie in a finite set of absolute paths, and modules and units are ranked so that
-- each ranks above those that it depends on. Fuel above the number of the paths, above the ranks
-- of the configured kernel modules, and more than one above the rank of each configured unit plus
-- the number of the paths, is enough.
pub build_terminates :
    (env : Env) (config : Config.Initramfs) (modules : List Config.Module) (ps : List FilePath)
    (rank : Module → ℕ) (unit_rank : Bytes → ℕ) (fuel : ℕ)
    → Halts env
    → IsBounded env config ps rank unit_rank
    → ((m : Config.Module) → Among m modules → IsEnough env config ps rank unit_rank fuel m)
    → (build env fuel config modules).0 ≢ diverge
unfolding from_config
build_terminates env config modules ps rank unit_rank fuel halts bounded enough =
    then-Returns Initramfs.new _ new-Returns
      (then-Returns (add_entrypoint env (codes "init") config.init) _
        (add_entrypoint-Returns env halts.answers (codes "init") config.init)
        (then-Returns (add_optional_shutdown env config.shutdown) _
          (add_optional_shutdown-Returns env halts config.shutdown)
          λ v.
            continue-ends (open_kmod env config.settings.kernel_module_path)
              (λ kmod. each (add_config_module env fuel kmod) modules) v
              (open_kmod-ends env halts config.settings.kernel_module_path)
              λ kmod o.
                each-Returns (add_config_module env fuel kmod) modules
                  (λ m a.
                    add_config_module-Returns env config ps rank unit_rank fuel halts bounded kmod m
                      o (enough m a))
                  v))
      Vfs.new
