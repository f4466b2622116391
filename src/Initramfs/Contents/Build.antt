-- ===== src/Initramfs/Contents/Build.antt =====
-- Initramfs.from_config of crates/elusive/src/initramfs.rs: the filesystem of a success, against
-- the configuration.
use elusive.Base.{
  ℕ, none, some, Option, List, ◌++◌, ◌∷◌, [], ◌≡◌, sym, ap, ok, lift, codes, Among, ◌>>=◌, ◌>>◌,
}
use mathlib.Core.Path.{subst}
use elusive.FilePath.{parse, FilePath, root, normal}
use elusive.Vfs
use elusive.Vfs.{Vfs}
use elusive.Kmod.{Kmod}
use elusive.Config
use elusive.Initramfs
use elusive.Initramfs.{
  Env, Build, each, add_elf, add_files, add_symlink, add_kernel_module, add_systemd_unit,
  add_config_module, add_entrypoint, add_optional_shutdown, open_kmod, from_config, build,
}
use elusive.Initramfs.Steps.{add_symlink-Grows}
use elusive.Initramfs.Achieves.{
  Item, at, link, Holds, Achieves, Keeps, bind-Keeps, lift-Keeps, each-Keeps, last-Achieves,
  first-Achieves, found-Achieves, each-Achieves, Grows-Keeps,
}
use elusive.Initramfs.Requests.{
  ModuleItem, binary, destination, file, symlink, kernel_module, unit, Requested, init, shutdown,
  of_module,
}
use elusive.Initramfs.Contents.{
  add_entrypoint-Keeps, add_entrypoint-Achieves, add_elf-Achieves, add_elf-Keeps,
  add_files-Achieves, add_files-Keeps, add_files-destination, add_symlink-Achieves,
}
use elusive.Initramfs.Contents.Modules.{add_kernel_module-Keeps, add_kernel_module-Achieves}
use elusive.Initramfs.Contents.Units.{add_systemd_unit-Keeps, add_systemd_unit-Achieves}

module _ (env : Env) (fuel : ℕ) (kmod : Kmod) (m : Config.Module) where
  abbrev add_binary : Config.Binary → Build Unit
  add_binary b = add_elf env fuel b.path

  abbrev add_file : Config.File → Build Unit
  add_file f = add_files env f.sources f.destination

  abbrev add_link : Config.Symlink → Build Unit
  add_link l = add_symlink l.path l.target

  abbrev add_unit : Config.UnitName → Build Unit
  add_unit u = add_systemd_unit env fuel u.name

  -- The rest of a module of the configuration, from its units up.
  abbrev from_units : Build Unit
  from_units = each add_unit m.units

  abbrev from_kernel_modules : Build Unit
  from_kernel_modules = each (add_kernel_module env fuel kmod) m.kernel_modules >> from_units

  abbrev from_symlinks : Build Unit
  from_symlinks = each add_link m.symlinks >> from_kernel_modules

  abbrev from_files : Build Unit
  from_files = each add_file m.files >> from_symlinks

  module _ (i : Item) where
    units-Keeps : Keeps i from_units
    units-Keeps = each-Keeps i add_unit m.units λ u. add_systemd_unit-Keeps env i fuel u.name

    kernel_modules-Keeps : Keeps i from_kernel_modules
    kernel_modules-Keeps =
        bind-Keeps i (each (add_kernel_module env fuel kmod) m.kernel_modules) (λ _. from_units)
          (each-Keeps i _ m.kernel_modules (add_kernel_module-Keeps env i fuel kmod))
          (λ _. units-Keeps)

    link-Keeps : (l : Config.Symlink) → Keeps i (add_link l)
    link-Keeps l = Grows-Keeps i (add_link l) (add_symlink-Grows none l.path l.target)

    symlinks-Keeps : Keeps i from_symlinks
    symlinks-Keeps =
        bind-Keeps i (each add_link m.symlinks) (λ _. from_kernel_modules)
          (each-Keeps i add_link m.symlinks link-Keeps) (λ _. kernel_modules-Keeps)

    file-Keeps : (f : Config.File) → Keeps i (add_file f)
    file-Keeps f = add_files-Keeps env i f.sources f.destination

    files-Keeps : Keeps i from_files
    files-Keeps =
        bind-Keeps i (each add_file m.files) (λ _. from_symlinks)
          (each-Keeps i add_file m.files file-Keeps) (λ _. symlinks-Keeps)

    add_config_module-Keeps : Keeps i (add_config_module env fuel kmod m)
    add_config_module-Keeps =
        bind-Keeps i (each add_binary m.binaries) (λ _. from_files)
          (each-Keeps i add_binary m.binaries λ b. add_elf-Keeps env i fuel b.path)
          (λ _. files-Keeps)

    after_binaries : Achieves i from_files → Achieves i (add_config_module env fuel kmod m)
    after_binaries = λ g. last-Achieves i (each add_binary m.binaries) (λ _. from_files) λ _. g

    file-Achieves :
        (f : Config.File)
        → Among f m.files
        → Achieves i (add_file f)
        → Achieves i (add_config_module env fuel kmod m)
    file-Achieves f a g = after_binaries (
        first-Achieves i (each add_file m.files) (λ _. from_symlinks)
          (each-Achieves i add_file m.files f a g file-Keeps) (λ _. symlinks-Keeps))

    after_files : Achieves i from_symlinks → Achieves i (add_config_module env fuel kmod m)
    after_files =
        λ g. after_binaries (last-Achieves i (each add_file m.files) (λ _. from_symlinks) λ _. g)

    after_symlinks : Achieves i from_kernel_modules → Achieves i (add_config_module env fuel kmod m)
    after_symlinks = λ g.
        after_files (last-Achieves i (each add_link m.symlinks) (λ _. from_kernel_modules) λ _. g)

  add_config_module-Achieves :
      (i : Item) → ModuleItem env kmod m i → Achieves i (add_config_module env fuel kmod m)
  add_config_module-Achieves _ (binary b p a e) =
      first-Achieves (at p) (each add_binary m.binaries) (λ _. from_files)
        (each-Achieves (at p) add_binary m.binaries b a (add_elf-Achieves env fuel b.path p e)
          (λ c. add_elf-Keeps env (at p) fuel c.path))
        (λ _. files-Keeps (at p))
  add_config_module-Achieves _ (destination f a) =
      file-Achieves (at f.destination) f a (add_files-destination env f.sources f.destination)
  add_config_module-Achieves i (file f source _ a b asked) =
      file-Achieves i f a (add_files-Achieves env f.sources f.destination source i b asked)
  add_config_module-Achieves _ (symlink l a) =
      let i = link l.path (parse l.target) in
      after_files i (
        first-Achieves i (each add_link m.symlinks) (λ _. from_kernel_modules)
          (each-Achieves i add_link m.symlinks l a (add_symlink-Achieves l.path l.target)
            (link-Keeps i))
          (λ _. kernel_modules-Keeps i))
  add_config_module-Achieves _ (kernel_module k start needed p a f n b e) = after_symlinks (at p) (
      first-Achieves (at p) (each (add_kernel_module env fuel kmod) m.kernel_modules)
        (λ _. from_units)
        (each-Achieves (at p) (add_kernel_module env fuel kmod) m.kernel_modules k a
          (add_kernel_module-Achieves env fuel kmod k start needed p f n b e)
          (add_kernel_module-Keeps env (at p) fuel kmod))
        (λ _. units-Keeps (at p)))
  add_config_module-Achieves i (unit u name found _ a n asked) = after_symlinks i (
      last-Achieves i (each (add_kernel_module env fuel kmod) m.kernel_modules) (λ _. from_units)
        λ _.
          each-Achieves i add_unit m.units u a
            (add_systemd_unit-Achieves env fuel u.name name found i n asked)
            (λ w. add_systemd_unit-Keeps env i fuel w.name))

add_optional_shutdown-Keeps :
    (env : Env) (i : Item) (o : Option FilePath) → Keeps i (add_optional_shutdown env o)
add_optional_shutdown-Keeps env i none = λ v h. h
add_optional_shutdown-Keeps env i (some p) = add_entrypoint-Keeps env i (codes "shutdown") p

add_optional_shutdown-Achieves :
    (env : Env) (o : Option FilePath) (p : FilePath)
    → o ≡ some p
    → Achieves (at (root ++ (normal (codes "shutdown") ∷ []))) (add_optional_shutdown env o)
add_optional_shutdown-Achieves env o p e =
    subst
      (λ q. Achieves (at (root ++ (normal (codes "shutdown") ∷ []))) (add_optional_shutdown env q))
      (sym e) (add_entrypoint-Achieves env (codes "shutdown") p)

module _ (env : Env) (fuel : ℕ) (config : Config.Initramfs) (modules : List Config.Module) where
  abbrev from_modules : Build Unit
  from_modules = lift (open_kmod env config.settings.kernel_module_path) >>= λ kmod.
      each (add_config_module env fuel kmod) modules

  abbrev from_shutdown : Build Unit
  from_shutdown = add_optional_shutdown env config.shutdown >> from_modules

  modules-Keeps : (i : Item) → Keeps i from_modules
  modules-Keeps i = lift-Keeps i (open_kmod env config.settings.kernel_module_path) _ λ kmod.
      each-Keeps i (add_config_module env fuel kmod) modules
        λ m. add_config_module-Keeps env fuel kmod m i

  shutdown-Keeps : (i : Item) → Keeps i from_shutdown
  shutdown-Keeps i =
      bind-Keeps i (add_optional_shutdown env config.shutdown) (λ _. from_modules)
        (add_optional_shutdown-Keeps env i config.shutdown) (λ _. modules-Keeps i)

  from_config-Achieves :
      (i : Item) → Requested env config modules i → Achieves i (from_config env fuel config modules)
  unfolding from_config
  from_config-Achieves i asked =
      last-Achieves i Initramfs.new
        (λ _. add_entrypoint env (codes "init") config.init >> from_shutdown) λ _. entries i asked
    where
      entries :
          (j : Item)
          → Requested env config modules j
          → Achieves j (add_entrypoint env (codes "init") config.init >> from_shutdown)
      entries _ init =
          first-Achieves (at (root ++ (normal (codes "init") ∷ [])))
            (add_entrypoint env (codes "init") config.init) (λ _. from_shutdown)
            (add_entrypoint-Achieves env (codes "init") config.init)
            (λ _. shutdown-Keeps (at (root ++ (normal (codes "init") ∷ []))))
      entries _ (shutdown p e) =
          let j = at (root ++ (normal (codes "shutdown") ∷ [])) in
          last-Achieves j (add_entrypoint env (codes "init") config.init) (λ _. from_shutdown)
            λ _.
              first-Achieves j (add_optional_shutdown env config.shutdown) (λ _. from_modules)
                (add_optional_shutdown-Achieves env config.shutdown p e) (λ _. modules-Keeps j)
      entries j (of_module m kmod _ a o asked') =
          last-Achieves j (add_entrypoint env (codes "init") config.init) (λ _. from_shutdown)
            λ _.
              last-Achieves j (add_optional_shutdown env config.shutdown) (λ _. from_modules)
                λ _. found-Achieves j (open_kmod env config.settings.kernel_module_path) _ o (
                  each-Achieves j (add_config_module env fuel kmod) modules m a
                    (add_config_module-Achieves env fuel kmod m j asked')
                    (λ n. add_config_module-Keeps env fuel kmod n j))

-- a build that succeeds has an entry at every path that its configuration asks for: those of init
-- and of the shutdown script, if there is one, and for every module the path that each binary's
-- name resolves to, the destination of every file set and below it the path of each file and of
-- each entry of a walked directory, the path of each symlink unless its target has an entry, that
-- of each kernel module that is not built in and of the modules that it depends on, also softly,
-- and that of each unit and of the units that it requires, with the paths of their binaries and,
-- unless its target has an entry, that of the link that enables it.
pub build_contents :
    (env : Env) (fuel : ℕ) (config : Config.Initramfs) (modules : List Config.Module) (w : Vfs)
    (i : Item)
    → build env fuel config modules ≡ (ok tt, w)
    → Requested env config modules i
    → Holds w i
build_contents env fuel config modules w i e asked =
    subst (λ r. Holds r.1 i) e
      (from_config-Achieves env fuel config modules i asked Vfs.new (ap (λ r. r.0) e))
