-- ===== src/Initramfs/Contents/Modules.antt =====
-- Initramfs.add_module of crates/elusive/src/initramfs.rs: the modules that its success has put.
use elusive.Base.{ℕ, zero, suc, false, none, ◌≡◌, ap, Bytes, ok, lift, map_err, expect, ◌>>=◌, ◌>>◌}
use elusive.FilePath.{FilePath, parent}
use elusive.Entry
use elusive.Kmod
use elusive.Kmod.{
  Kmod, Module, ModuleInfo, module_from_name, module_from_path, is_builtin, install_path, host_path,
  from_bytes,
}
use elusive.Config
use elusive.Initramfs.{
  Env, Build, kmod_failed, input_output, each, create_parent, unless_contained, uncompress_module,
  put_module, all_depends, add_module, add_module_from_name, add_module_from_path,
  add_kernel_module,
}
use elusive.Initramfs.Growth.{create_parent-Grows}
use elusive.Initramfs.Steps.{add_module-Grows}
use elusive.Initramfs.Files.{Establishes, create_entry-Establishes, unless_contained-Establishes}
use elusive.Initramfs.Achieves.{
  Item, at, Achieves, Keeps, bind-Keeps, lift-Keeps, unless_contained-Keeps, last-Achieves,
  first-Achieves, found-Achieves, each-Achieves, Grows-Keeps, create_entry-Keeps,
}
use elusive.Initramfs.Requests.{NeedsModule, this, dependency, find_module}

module _ (env : Env) where
  put_module-Establishes : (m : Module) (dest : FilePath) → Establishes dest (put_module env m dest)
  put_module-Establishes m dest = last-Achieves (at dest) (lift (expect (host_path m))) _ λ source.
      last-Achieves (at dest) (lift (map_err input_output (env.host.read source))) _ λ compressed.
        last-Achieves (at dest) (lift (map_err kmod_failed (from_bytes compressed))) _ λ format.
          last-Achieves (at dest)
            (lift (map_err input_output (uncompress_module env compressed format))) _
            λ bytes. create_entry-Establishes dest (Entry.file bytes)

  put_module-Keeps : (i : Item) (m : Module) (dest : FilePath) → Keeps i (put_module env m dest)
  put_module-Keeps i m dest = lift-Keeps i (expect (host_path m)) _ λ source.
      lift-Keeps i (map_err input_output (env.host.read source)) _ λ compressed.
        lift-Keeps i (map_err kmod_failed (from_bytes compressed)) _ λ format.
          lift-Keeps i (map_err input_output (uncompress_module env compressed format)) _
            λ bytes. create_entry-Keeps i dest (Entry.file bytes)

  add_module-Keeps :
      (i : Item) (fuel : ℕ) (kmod : Kmod) (m : Module) → Keeps i (add_module env fuel kmod m)
  add_module-Keeps i fuel kmod m =
      Grows-Keeps i (add_module env fuel kmod m) (add_module-Grows env none fuel kmod m)

  module _ (fuel : ℕ) (kmod : Kmod) where
    -- A dependency, by its name.
    abbrev depend : Bytes → Build Unit
    depend name =
        lift (map_err kmod_failed (module_from_name kmod name)) >>= add_module env fuel kmod

    -- The module itself, once what it depends on is put.
    abbrev install : Module → Build Unit
    install m = lift (map_err kmod_failed (install_path m)) >>= λ dest.
        create_parent (parent dest) >> unless_contained dest (put_module env m dest)

    depend-Keeps : (i : Item) (name : Bytes) → Keeps i (depend name)
    depend-Keeps i name =
        lift-Keeps i (map_err kmod_failed (module_from_name kmod name)) _
          (add_module-Keeps i fuel kmod)

    install-Keeps : (i : Item) (m : Module) → Keeps i (install m)
    install-Keeps i m = lift-Keeps i (map_err kmod_failed (install_path m)) _ λ dest.
        bind-Keeps i (create_parent (parent dest)) _
          (Grows-Keeps i (create_parent (parent dest)) (create_parent-Grows none (parent dest)))
          λ _. unless_contained-Keeps i dest (put_module env m dest) (put_module-Keeps i m dest)

    install-Achieves :
        (m : Module) (dest : FilePath) → install_path m ≡ ok dest → Achieves (at dest) (install m)
    install-Achieves m dest e =
        found-Achieves (at dest) (map_err kmod_failed (install_path m)) _
          (ap (map_err kmod_failed) e)
          (last-Achieves (at dest) (create_parent (parent dest)) _ λ _.
            unless_contained-Establishes dest (put_module env m dest)
              (put_module-Establishes m dest))

  -- A module that is not built in is put, with the modules that it needs.
  add_module-Achieves :
      (fuel : ℕ) (kmod : Kmod) (m needed : Module) (dest : FilePath)
      → NeedsModule kmod needed m
      → is_builtin needed ≡ false
      → install_path needed ≡ ok dest
      → Achieves (at dest) (add_module env fuel kmod m)
  unfolding add_module
  add_module-Achieves zero kmod m needed dest n b e = λ v h. cc
  add_module-Achieves (suc fuel) kmod m _ dest this b e = rw b (
      last-Achieves (at dest) (lift (map_err kmod_failed (Kmod.info m))) _ λ info.
        last-Achieves (at dest) (each (depend fuel kmod) (all_depends info))
          (λ _. install fuel kmod m) λ _. install-Achieves fuel kmod m dest e)
  add_module-Achieves (suc fuel) kmod m needed dest (dependency _ next info name b' i a l n) b e =
      rw b' (
        found-Achieves (at dest) (map_err kmod_failed (Kmod.info m)) _ (ap (map_err kmod_failed) i)
          (first-Achieves (at dest) (each (depend fuel kmod) (all_depends info))
            (λ _. install fuel kmod m)
            (each-Achieves (at dest) (depend fuel kmod) (all_depends info) name a
              (found-Achieves (at dest) (map_err kmod_failed (module_from_name kmod name)) _
                (ap (map_err kmod_failed) l) (add_module-Achieves fuel kmod next needed dest n b e))
              (depend-Keeps fuel kmod (at dest)))
            λ _. install-Keeps fuel kmod (at dest) m))

  pub add_kernel_module-Keeps :
      (i : Item) (fuel : ℕ) (kmod : Kmod) (k : Config.KernelModule)
      → Keeps i (add_kernel_module env fuel kmod k)
  unfolding add_module_from_name add_module_from_path
  add_kernel_module-Keeps i fuel kmod (Config.name name) =
      lift-Keeps i (map_err kmod_failed (module_from_name kmod name)) _
        (add_module-Keeps i fuel kmod)
  add_kernel_module-Keeps i fuel kmod (Config.path p) =
      lift-Keeps i (map_err kmod_failed (module_from_path kmod p)) _ (add_module-Keeps i fuel kmod)

  pub add_kernel_module-Achieves :
      (fuel : ℕ) (kmod : Kmod) (k : Config.KernelModule) (m needed : Module) (dest : FilePath)
      → find_module kmod k ≡ ok m
      → NeedsModule kmod needed m
      → is_builtin needed ≡ false
      → install_path needed ≡ ok dest
      → Achieves (at dest) (add_kernel_module env fuel kmod k)
  unfolding add_module_from_name add_module_from_path
  add_kernel_module-Achieves fuel kmod (Config.name name) m needed dest f n b e =
      found-Achieves (at dest) (map_err kmod_failed (module_from_name kmod name))
        (add_module env fuel kmod) (ap (map_err kmod_failed) f)
        (add_module-Achieves fuel kmod m needed dest n b e)
  add_kernel_module-Achieves fuel kmod (Config.path p) m needed dest f n b e =
      found-Achieves (at dest) (map_err kmod_failed (module_from_path kmod p))
        (add_module env fuel kmod) (ap (map_err kmod_failed) f)
        (add_module-Achieves fuel kmod m needed dest n b e)
