-- ===== src/Initramfs/Closure.antt =====
-- Initramfs.from_config of crates/elusive/src/initramfs.rs: the libraries of the programs.
use elusive.Base.{
  All_Among, ℕ, zero, suc, none, some, Option, List, ◌++◌, ◌∷◌, [], ◌≡◌, refl, ap, inl, inr, Bytes,
  codes, ok, lift, continue-ok, true, ◌>>=◌, ◌>>◌,
}
use mathlib.Core.Path.{subst}
use elusive.FilePath.{FilePath, root, normal, parse}
use elusive.Vfs
use elusive.Vfs.{Vfs, contains}
use elusive.Kmod.{Kmod}
use elusive.Systemd
use elusive.Systemd.{UnitFile}
use elusive.Config
use elusive.Initramfs
use elusive.Initramfs.{
  Env, Build, system_failed, each, add_elf, add_files, add_symlink, add_kernel_module,
  add_systemd_unit, put_unit, install_unit, unit_target, add_config_module, add_entrypoint,
  add_optional_shutdown, open_kmod, from_config, build, resolve_binary,
}
use elusive.Initramfs.Steps.{add_symlink-Grows, put_unit-Grows, install_unit-Grows}
use elusive.Initramfs.Achieves.{Item, at, program, link, Grows-Keeps}
use elusive.Initramfs.Requests.{
  Linked, NeedsUnit, this, required, UnitItem, unit_file, unit_binary, unit_link, ModuleItem,
  binary, destination, file, symlink, kernel_module, unit, Requested, init, shutdown, of_module,
  Foreign, of_skeleton, of_path, of_link, above_program, Followed, itself, library,
}
use elusive.Initramfs.StaysWithin.{IsUpward}
use elusive.Initramfs.Contents.{add_entrypoint-Keeps, add_files-Keeps}
use elusive.Initramfs.Contents.Modules.{add_kernel_module-Keeps}
use elusive.Initramfs.Contents.Build.{build_contents}
use elusive.Initramfs.Extent.{
  add_symlink-StaysWithin, add_entrypoint-StaysWithin, add_files-StaysWithin,
}
use elusive.Initramfs.Extent.Modules.{add_kernel_module-StaysWithin}
use elusive.Initramfs.Extent.Units.{put_unit-StaysWithin, install_unit-StaysWithin}
use elusive.Initramfs.Libraries.{Complete, Covered}
use elusive.Initramfs.Preserves.{
  Preserves, then-Preserves, lift-Preserves, lift_plain-Preserves, each-Preserves, frame-Preserves,
  add_elf-Preserves,
}

module _ (env : Env) (S : FilePath → Type 0) (up : IsUpward S) where
  -- What an item leads to is of the set, but for programs, which are covered with their libraries.
  abbrev Admits : Item → Type 0
  Admits (at p) = S p
  Admits (program p) = (q : FilePath) → Linked env q p → Covered env S q
  Admits (link p target) = S p

  add_systemd_unit-Preserves :
      (fuel : ℕ) (name : Bytes)
      → ((goal : Bytes) (found : UnitFile) (i : Item)
          → NeedsUnit env goal found name
          → UnitItem env goal found i
          → Admits i)
      → Preserves env S (add_systemd_unit env fuel name)
  unfolding add_systemd_unit
  add_systemd_unit-Preserves zero name s = λ v h. cc
  add_systemd_unit-Preserves (suc fuel) name s =
      lift-Preserves env S system_failed (Systemd.from_name env.host env.unit_parser name) _
        λ found e.
          then-Preserves env S (put_unit found) _
            (frame-Preserves env S (put_unit found)
              (put_unit-StaysWithin env S up found (s name found _ (this e) unit_file))
              λ l. Grows-Keeps (at l) (put_unit found) (put_unit-Grows none found))
            (then-Preserves env S (each (λ b. add_elf env fuel (parse b)) found.binaries) _
              (each-Preserves env S _ found.binaries λ b m.
                add_elf-Preserves env S fuel (parse b)
                  λ p r. s name found (program p) (this e) (unit_binary b p m r))
              (then-Preserves env S (install_unit name found.install_path) _
                (frame-Preserves env S (install_unit name found.install_path)
                  (install_unit-StaysWithin env S up name found.install_path λ p i.
                    s name found (link p (parse (unit_target name))) (this e) (unit_link p i))
                  λ l.
                    Grows-Keeps (at l) (install_unit name found.install_path)
                      (install_unit-Grows none name found.install_path))
                (each-Preserves env S (add_systemd_unit env fuel) found.dependencies λ next m.
                  add_systemd_unit-Preserves fuel next
                    λ goal u i n. s goal u i (required name next found e m n))))

  add_config_module-Preserves :
      (fuel : ℕ) (kmod : Kmod) (m : Config.Module)
      → ((i : Item) → ModuleItem env kmod m i → Admits i)
      → Preserves env S (add_config_module env fuel kmod m)
  add_config_module-Preserves fuel kmod m s =
      then-Preserves env S (each (λ (b : Config.Binary). add_elf env fuel b.path) m.binaries) _
        (each-Preserves env S _ m.binaries
          λ b a. add_elf-Preserves env S fuel b.path λ p e. s (program p) (binary b p a e))
        (then-Preserves env S
          (each (λ (f : Config.File). add_files env f.sources f.destination) m.files) _
          (each-Preserves env S _ m.files λ f a.
            frame-Preserves env S (add_files env f.sources f.destination)
              (add_files-StaysWithin env S up f.sources f.destination
                (s (at f.destination) (destination f a))
                λ source p b i. s (at p) (file f source (at p) a b i))
              λ l. add_files-Keeps env (at l) f.sources f.destination)
          (then-Preserves env S
            (each (λ (l : Config.Symlink). add_symlink l.path l.target) m.symlinks) _
            (each-Preserves env S _ m.symlinks λ l a.
              frame-Preserves env S (add_symlink l.path l.target)
                (add_symlink-StaysWithin env S up l.path l.target
                  (s (link l.path (parse l.target)) (symlink l a)))
                λ q.
                  Grows-Keeps (at q) (add_symlink l.path l.target)
                    (add_symlink-Grows none l.path l.target))
            (then-Preserves env S (each (add_kernel_module env fuel kmod) m.kernel_modules) _
              (each-Preserves env S _ m.kernel_modules λ k a.
                frame-Preserves env S (add_kernel_module env fuel kmod k)
                  (add_kernel_module-StaysWithin env S up kmod fuel k
                    λ start f needed p n b e. s (at p) (kernel_module k start needed p a f n b e))
                  λ l. add_kernel_module-Keeps env (at l) fuel kmod k)
              (each-Preserves env S (λ (u : Config.UnitName). add_systemd_unit env fuel u.name)
                m.units
                λ u a.
                  add_systemd_unit-Preserves fuel u.name
                    λ name found i n g. s i (unit u name found i a n g)))))

  entrypoint-Preserves :
      (name : Bytes) (source : FilePath)
      → S (root ++ (normal name ∷ []))
      → Preserves env S (add_entrypoint env name source)
  entrypoint-Preserves name source s =
      frame-Preserves env S (add_entrypoint env name source)
        (add_entrypoint-StaysWithin env S up name source s)
        λ l. add_entrypoint-Keeps env (at l) name source

  shutdown-Preserves :
      (o : Option FilePath)
      → ((p : FilePath) → o ≡ some p → S (root ++ (normal (codes "shutdown") ∷ [])))
      → Preserves env S (add_optional_shutdown env o)
  shutdown-Preserves none s = λ v h c. c
  shutdown-Preserves (some p) s = entrypoint-Preserves (codes "shutdown") p (s p refl)

module _ (env : Env) (fuel : ℕ) (config : Config.Initramfs) (modules : List Config.Module) where
  Foreign-IsUpward : IsUpward (Foreign env config modules)
  Foreign-IsUpward = record { within = Foreign.ancestor; above_it = Foreign.above_parent }

  requested-Admits :
      (i : Item)
      → Requested env config modules i
      → Admits env (Foreign env config modules) Foreign-IsUpward i
  requested-Admits (at p) r = of_path p r
  requested-Admits (program p) r = λ q l _ a _ m _. above_program p q a r l m
  requested-Admits (link p target) r = of_link p target r

  entries-Preserves : Preserves env (Foreign env config modules) (
      add_entrypoint env (codes "init") config.init
      >> (add_optional_shutdown env config.shutdown
          >> (lift (open_kmod env config.settings.kernel_module_path) >>= λ kmod.
              each (add_config_module env fuel kmod) modules)))
  entries-Preserves =
      let S = Foreign env config modules in
      then-Preserves env S (add_entrypoint env (codes "init") config.init) _
        (entrypoint-Preserves env S Foreign-IsUpward (codes "init") config.init
          (of_path (root ++ (normal (codes "init") ∷ [])) init))
        (then-Preserves env S (add_optional_shutdown env config.shutdown) _
          (shutdown-Preserves env S Foreign-IsUpward config.shutdown
            λ p e. of_path (root ++ (normal (codes "shutdown") ∷ [])) (shutdown p e))
          (lift_plain-Preserves env S (open_kmod env config.settings.kernel_module_path) _ λ kmod o.
            each-Preserves env S (add_config_module env fuel kmod) modules λ m a.
              add_config_module-Preserves env S Foreign-IsUpward fuel kmod m
                λ i r. requested-Admits i (of_module m kmod i a o r)))

  from_config-Complete :
      (w : Vfs)
      → build env fuel config modules ≡ (ok tt, w)
      → Complete env (Foreign env config modules) [] w
  unfolding from_config
  from_config-Complete w e =
      let start = Initramfs.new Vfs.new in
      let (_, e₁, rest) = continue-ok start.0 _ start.1 e in
      subst (λ r. Complete env (Foreign env config modules) [] r.1) rest
        (entries-Preserves start.1 (ap (λ r. r.0) rest)
          λ q needed there old l. absurd (old (of_skeleton q there)))

  Followed-contained :
      (p q : FilePath) (w : Vfs)
      → Complete env (Foreign env config modules) [] w
      → contains w p ≡ true
      → Followed env config modules p q
      → contains w q ≡ true
  Followed-contained p q w c h itself = h
  Followed-contained p q w c h (library r _ needed f old l m) =
      elim (c r needed (Followed-contained p r w c h f) old l) [
        | inl none_open ↦ absurd none_open
        | inr a ↦ All_Among (λ k. contains w k ≡ true) needed q m a
      ]

-- a build that succeeds holds, for every program that its configuration asks for, every library
-- that the program needs, directly or through other libraries; the libraries of a path that is put
-- otherwise than for a program are not followed.
pub build_libraries :
    (env : Env) (fuel : ℕ) (config : Config.Initramfs) (modules : List Config.Module) (w : Vfs)
    (p q : FilePath)
    → build env fuel config modules ≡ (ok tt, w)
    → Requested env config modules (program p)
    → Followed env config modules p q
    → contains w q ≡ true
build_libraries env fuel config modules w p q e r f =
    Followed-contained env fuel config modules p q w
      (from_config-Complete env fuel config modules w e)
      (build_contents env fuel config modules w (program p) e r) f
