-- ===== src/Initramfs/Extent/Build.antt =====
-- Initramfs.from_config of crates/elusive/src/initramfs.rs: the filesystem holds nothing that the
-- configuration does not lead to.
use elusive.Base.{
  ℕ, true, none, some, Option, List, ◌++◌, ◌∷◌, [], ◌≡◌, refl, inl, inr, lift, codes, ◌>>=◌, ◌>>◌,
}
use elusive.FilePath.{parse, FilePath, root, normal}
use elusive.Vfs
use elusive.Vfs.{contains}
use elusive.Kmod.{Kmod}
use elusive.Config
use elusive.Initramfs
use elusive.Initramfs.{
  Env, each, add_elf, add_files, add_symlink, add_kernel_module, add_systemd_unit,
  add_config_module, add_entrypoint, add_optional_shutdown, open_kmod, from_config, build,
}
use elusive.Initramfs.Achieves.{Item, at, program, link}
use elusive.Initramfs.Requests.{
  ModuleItem, binary, destination, file, symlink, kernel_module, unit, Requested, init, shutdown,
  of_module, Wanted, skeleton, asked, linked, link_path, ancestor, above_parent,
}
use elusive.Initramfs.StaysWithin.{
  StaysWithin, IsUpward, continue-StaysWithin, bind-StaysWithin, lift_plain-StaysWithin,
  each-StaysWithin,
}
use elusive.Initramfs.Extent.{
  Reaches, add_symlink-StaysWithin, add_entrypoint-StaysWithin, add_elf-StaysWithin,
  add_files-StaysWithin,
}
use elusive.Initramfs.Extent.Modules.{add_kernel_module-StaysWithin}
use elusive.Initramfs.Extent.Units.{add_systemd_unit-StaysWithin}

module _ (env : Env) (S : FilePath → Type 0) (up : IsUpward S) where
  add_config_module-StaysWithin :
      (fuel : ℕ) (kmod : Kmod) (m : Config.Module)
      → ((i : Item) → ModuleItem env kmod m i → Reaches env S i)
      → StaysWithin S (add_config_module env fuel kmod m)
  add_config_module-StaysWithin fuel kmod m s =
      bind-StaysWithin S (each (λ (b : Config.Binary). add_elf env fuel b.path) m.binaries) _
        (each-StaysWithin S _ m.binaries
          λ b a. add_elf-StaysWithin env S up fuel b.path λ p e. s (program p) (binary b p a e))
        λ _.
          bind-StaysWithin S
            (each (λ (f : Config.File). add_files env f.sources f.destination) m.files) _
            (each-StaysWithin S _ m.files λ f a.
              add_files-StaysWithin env S up f.sources f.destination
                (s (at f.destination) (destination f a))
                λ source p b i. s (at p) (file f source (at p) a b i))
            λ _.
              bind-StaysWithin S
                (each (λ (l : Config.Symlink). add_symlink l.path l.target) m.symlinks) _
                (each-StaysWithin S _ m.symlinks λ l a.
                  add_symlink-StaysWithin env S up l.path l.target
                    (s (link l.path (parse l.target)) (symlink l a)))
                λ _.
                  bind-StaysWithin S (each (add_kernel_module env fuel kmod) m.kernel_modules) _
                    (each-StaysWithin S _ m.kernel_modules λ k a.
                      add_kernel_module-StaysWithin env S up kmod fuel k λ start f needed p n b e.
                        s (at p) (kernel_module k start needed p a f n b e))
                    λ _.
                      each-StaysWithin S (λ (u : Config.UnitName). add_systemd_unit env fuel u.name)
                        m.units
                        λ u a.
                          add_systemd_unit-StaysWithin env S up fuel u.name
                            λ name found i n g. s i (unit u name found i a n g)

  add_optional_shutdown-StaysWithin :
      (o : Option FilePath)
      → ((p : FilePath) → o ≡ some p → S (root ++ (normal (codes "shutdown") ∷ [])))
      → StaysWithin S (add_optional_shutdown env o)
  add_optional_shutdown-StaysWithin none s = λ v q h. inl h
  add_optional_shutdown-StaysWithin (some p) s =
      add_entrypoint-StaysWithin env S up (codes "shutdown") p (s p refl)

module _ (env : Env) (config : Config.Initramfs) (modules : List Config.Module) where
  Wanted-IsUpward : IsUpward (Wanted env config modules)
  Wanted-IsUpward = record { within = ancestor; above_it = above_parent }

  requested-Reaches :
      (i : Item) → Requested env config modules i → Reaches env (Wanted env config modules) i
  requested-Reaches (at p) r = asked p r
  requested-Reaches (program p) r = λ q l. linked p q r l
  requested-Reaches (link p target) r = link_path p target r

  -- What follows the skeleton.
  configured-StaysWithin :
      (fuel : ℕ)
      → StaysWithin (Wanted env config modules) (
          add_entrypoint env (codes "init") config.init
          >> (add_optional_shutdown env config.shutdown
              >> (lift (open_kmod env config.settings.kernel_module_path) >>= λ kmod.
                  each (add_config_module env fuel kmod) modules)))
  configured-StaysWithin fuel =
      let S = Wanted env config modules in
      let up = Wanted-IsUpward in
      bind-StaysWithin S (add_entrypoint env (codes "init") config.init) _
        (add_entrypoint-StaysWithin env S up (codes "init") config.init (asked _ init))
        λ _.
          bind-StaysWithin S (add_optional_shutdown env config.shutdown) _
            (add_optional_shutdown-StaysWithin env S up config.shutdown
              λ p e. asked _ (shutdown p e))
            λ _.
              lift_plain-StaysWithin S (open_kmod env config.settings.kernel_module_path) _
                λ kmod o. each-StaysWithin S (add_config_module env fuel kmod) modules λ m a.
                  add_config_module-StaysWithin env S up fuel kmod m
                    λ i r. requested-Reaches i (of_module m kmod i a o r)

-- every path in the filesystem of a build, also of one that stops with an error, is led to by the
-- configuration: it belongs to the skeleton that every image starts from, or it is a path that the
-- configuration asks for, a library that a program asked for needs, directly or through other
-- libraries, or a directory above one of these.
pub build_extent :
    (env : Env) (fuel : ℕ) (config : Config.Initramfs) (modules : List Config.Module) (q : FilePath)
    → contains (build env fuel config modules).1 q ≡ true
    → Wanted env config modules q
unfolding from_config
build_extent env fuel config modules q h =
    elim (continue-StaysWithin (Wanted env config modules) (Initramfs.new Vfs.new).0 _
      (λ _ _. configured-StaysWithin env config modules fuel) (Initramfs.new Vfs.new).1 q h) [
        | inl there ↦ skeleton q there
        | inr wanted ↦ wanted
      ]
