-- ===== src/Initramfs/Build.antt =====
-- Initramfs.from_config of crates/elusive/src/initramfs.rs: the filesystem that is built.
use elusive.Base.{
  length, suc, ◌+◌, ◌<◌, ◌^◌, map_ok, ok, ℕ, true, Option, none, some, List, [], ◌∷◌, ◌≡◌, refl,
  All, All-map, codes, arith, String,
}
use elusive.FilePath.{FilePath, root, parent, parse}
use elusive.Text
use elusive.OrdMap
use elusive.Base.Order
use elusive.FilePath.{path_ord}
use elusive.FilePath
use elusive.OrdMap.{IsSorted, contains_key}
use elusive.Entry
use elusive.Entry.{Entry}
use elusive.Vfs
use elusive.Vfs.{Vfs, contains, into_iter, create_dir}
use elusive.Vfs.Growth.{
  Grows, here, Grows-contains, Grows-IsSorted, Grows-IsTree, IsTree, ParentThere, create_dir-Grows,
  create_entry-Grows,
}
use elusive.Kmod.{Kmod}
use elusive.Newc.{serialize, ino_offset}
use elusive.Newc.Reader.{read_archive}
use elusive.Newc.RoundTrip.{AllWritable, members, serialize-into_iter}
use elusive.Config
use elusive.Initramfs
use elusive.Initramfs.{
  Env, Build, each, path, root_dirs, root_symlinks, add_root_dir, add_root_symlink,
  add_config_module, add_entrypoint, add_kernel_module, add_optional_shutdown, add_elf, add_files,
  add_symlink, add_systemd_unit, open_kmod, from_config, build, into_archive,
}
use elusive.Initramfs.Growth.{
  GrowsUnder, Grows-ParentThere, then-Grows, bind-Grows, lift-Grows, each-Grows, pure-Grows,
}
use elusive.Initramfs.Steps.{
  add_symlink-Grows, add_entrypoint-Grows, add_elf-Grows, add_module_from_name-Grows,
  add_module_from_path-Grows, add_systemd_unit-Grows,
}
use elusive.Initramfs.Files.{IsWalk, add_files-Grows}

root_dirs-Grows : (dirs : List String) (v : Vfs) → Grows v (each add_root_dir dirs v).1
unfolding GrowsUnder
root_dirs-Grows dirs v =
    each-Grows none add_root_dir dirs (λ dir w there. create_dir-Grows (path dir) w) v tt

symlinks-Grows :
    (links : List (String × String)) (v : Vfs)
    → All (λ link. ParentThere v (parent (path link.0))) links
    → Grows v (each add_root_symlink links v).1
unfolding each
symlinks-Grows [] v h = here
symlinks-Grows (link ∷ links) v (there, h) =
    then-Grows (add_root_symlink link) (λ _. each add_root_symlink links) v grown
      λ a e.
        symlinks-Grows links (add_root_symlink link v).1
          (All-map (λ l. Grows-ParentThere (parent (path l.0)) grown) links h)
  where
    grown : Grows v (add_root_symlink link v).1
    grown = create_entry-Grows (path link.0) (Entry.symlink (codes link.1)) v there

parents_there :
    All
      (λ (link : String × String).
        ParentThere (each add_root_dir root_dirs Vfs.new).1 (parent (path link.0)))
      root_symlinks
unfolding each contains create_dir parse parent Text.split path_ord Order.list_ord
    FilePath.component_ord OrdMap.insert OrdMap.get
parents_there = (refl, (refl, (refl, (refl, (refl, (refl, (refl, tt)))))))

root_there : contains Vfs.new root ≡ true
unfolding contains path_ord Order.list_ord FilePath.component_ord OrdMap.get
root_there = refl

new-IsTree : IsTree Vfs.new
unfolding contains OrdMap.get parent
new-IsTree p dir h e = ground (arith, path_ord.cmp_eq p root)

-- The skeleton that `new` starts from.
new-Grows : Grows Vfs.new (Initramfs.new Vfs.new).1
unfolding Initramfs.new
new-Grows =
    then-Grows (each add_root_dir root_dirs) (λ _. each add_root_symlink root_symlinks) Vfs.new
      (root_dirs-Grows root_dirs Vfs.new)
      λ a e. symlinks-Grows root_symlinks (each add_root_dir root_dirs Vfs.new).1 parents_there

module _ (env : Env) (walks : (p : FilePath) → IsWalk p (env.host.walk p)) where
  add_kernel_module-Grows :
      (o : Option FilePath) (fuel : ℕ) (kmod : Kmod) (m : Config.KernelModule)
      → GrowsUnder o (add_kernel_module env fuel kmod m)
  add_kernel_module-Grows o fuel kmod (Config.name n) = add_module_from_name-Grows env o fuel kmod n
  add_kernel_module-Grows o fuel kmod (Config.path p) = add_module_from_path-Grows env o fuel kmod p

  add_config_module-Grows :
      (o : Option FilePath) (fuel : ℕ) (kmod : Kmod) (m : Config.Module)
      → GrowsUnder o (add_config_module env fuel kmod m)
  add_config_module-Grows o fuel kmod m =
      bind-Grows o (each (λ (b : Config.Binary). add_elf env fuel b.path) m.binaries) _
        (each-Grows o _ m.binaries λ b. add_elf-Grows env o fuel b.path)
        λ _.
          bind-Grows o (each (λ (f : Config.File). add_files env f.sources f.destination) m.files) _
            (each-Grows o _ m.files λ f. add_files-Grows env o f.sources f.destination walks)
            λ _.
              bind-Grows o (each (λ (l : Config.Symlink). add_symlink l.path l.target) m.symlinks) _
                (each-Grows o _ m.symlinks λ l. add_symlink-Grows o l.path l.target)
                λ _.
                  bind-Grows o (each (add_kernel_module env fuel kmod) m.kernel_modules) _
                    (each-Grows o _ m.kernel_modules (add_kernel_module-Grows o fuel kmod))
                    λ _.
                      each-Grows o (λ (u : Config.UnitName). add_systemd_unit env fuel u.name)
                        m.units λ u. add_systemd_unit-Grows env o fuel u.name

  add_optional_shutdown-Grows :
      (p : Option FilePath) → GrowsUnder (some root) (add_optional_shutdown env p)
  add_optional_shutdown-Grows none = pure-Grows (some root)
  add_optional_shutdown-Grows (some p) = add_entrypoint-Grows env (codes "shutdown") p

  pub build-Grows :
      (fuel : ℕ) (config : Config.Initramfs) (modules : List Config.Module)
      → Grows Vfs.new (build env fuel config modules).1
  unfolding from_config GrowsUnder
  build-Grows fuel config modules = then-Grows Initramfs.new _ Vfs.new new-Grows λ _ e.
      bind-Grows (some root) (add_entrypoint env (codes "init") config.init) _
        (add_entrypoint-Grows env (codes "init") config.init)
        (λ _.
          bind-Grows (some root) (add_optional_shutdown env config.shutdown) _
            (add_optional_shutdown-Grows config.shutdown)
            λ _. lift-Grows (some root) (open_kmod env config.settings.kernel_module_path) _ λ kmod.
              each-Grows (some root) (add_config_module env fuel kmod) modules
                (add_config_module-Grows (some root) fuel kmod))
        (Initramfs.new Vfs.new).1 (Grows-contains root new-Grows root_there)

  -- the entries of the filesystem that the builder makes, also when it stops with an error, stand
  -- in strictly increasing order of their paths, so none is named twice. The walks through
  -- directories must yield a directory before its contents.
  pub build-IsSorted :
      (fuel : ℕ) (config : Config.Initramfs) (modules : List Config.Module)
      → IsSorted (into_iter (build env fuel config modules).1)
  build-IsSorted fuel config modules = Grows-IsSorted (build-Grows fuel config modules) (tt, tt)

  build-IsTree :
      (fuel : ℕ) (config : Config.Initramfs) (modules : List Config.Module)
      → IsTree (build env fuel config modules).1
  build-IsTree fuel config modules = Grows-IsTree (build-Grows fuel config modules) new-IsTree

  -- the filesystem that the builder makes from any configuration, also when it stops with an
  -- error, has an entry for the parent of every path that it has an entry for: a directory, or
  -- whatever else was put there, such as a link. The walks through directories must yield a
  -- directory before its contents.
  pub build-parent :
      (fuel : ℕ) (config : Config.Initramfs) (modules : List Config.Module) (p dir : FilePath)
      → contains (build env fuel config modules).1 p ≡ true
      → parent p ≡ some dir
      → contains (build env fuel config modules).1 dir ≡ true
  build-parent fuel config modules p dir h e = build-IsTree fuel config modules p dir h e

  -- the archive of the filesystem that the builder makes from any configuration, also when it
  -- stops with an error, serializes, and reads back, by an independent reader of the newc format,
  -- as the entries of that filesystem in their order, the root left out. The walks through
  -- directories must yield a directory before its contents, every path of the filesystem must be
  -- absolute, its name free of NUL and not the trailer's, and every header field below 2 ^ 32.
  pub build_reads_back :
      (fuel : ℕ) (config : Config.Initramfs) (modules : List Config.Module)
      → AllWritable (into_iter (build env fuel config modules).1)
      → length (into_iter (build env fuel config modules).1) + ino_offset < 2 ^ 32
      → map_ok
          (read_archive (suc (length (into_iter (build env fuel config modules).1))))
          (serialize (into_archive (build env fuel config modules).1))
        ≡ ok (some (members 0 (into_iter (build env fuel config modules).1)))
  build_reads_back fuel config modules =
      serialize-into_iter (build env fuel config modules).1 (build-IsSorted fuel config modules)
