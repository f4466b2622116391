-- ===== src/Initramfs/Extent/Modules.antt =====
-- Initramfs.add_module of crates/elusive/src/initramfs.rs: the paths that it may add.
use elusive.Base.{ℕ, zero, suc, false, ◌≡◌, inl, ok, expect}
use elusive.FilePath.{FilePath, parent}
use elusive.Entry
use elusive.Kmod
use elusive.Kmod.{
  Kmod, Module, module_from_name, module_from_path, is_builtin, install_path, host_path, from_bytes,
}
use elusive.Config
use elusive.Initramfs.{
  Env, kmod_failed, input_output, each, create_parent, uncompress_module, put_module, all_depends,
  add_module, add_module_from_name, add_module_from_path, add_kernel_module,
}
use elusive.Initramfs.Requests.{NeedsModule, this, dependency, find_module}
use elusive.Initramfs.StaysWithin.{
  StaysWithin, IsUpward, bind-StaysWithin, lift-StaysWithin, lift_plain-StaysWithin, if-StaysWithin,
  unless_contained-StaysWithin, each-StaysWithin, create_entry-StaysWithin,
  create_parent-StaysWithin,
}

module _ (env : Env) (S : FilePath → Type 0) (up : IsUpward S) (kmod : Kmod) where
  -- The places of the modules that a module needs are in the set.
  abbrev PlacesIn : Module → Type 0
  PlacesIn m =
      (needed : Module) (p : FilePath)
      → NeedsModule kmod needed m
      → is_builtin needed ≡ false
      → install_path needed ≡ ok p
      → S p

  put_module-StaysWithin :
      (m : Module) (dest : FilePath) → S dest → StaysWithin S (put_module env m dest)
  put_module-StaysWithin m dest s = lift_plain-StaysWithin S (expect (host_path m)) _ λ source _.
      lift-StaysWithin S input_output (env.host.read source) _ λ compressed _.
        lift-StaysWithin S kmod_failed (from_bytes compressed) _ λ format _.
          lift-StaysWithin S input_output (uncompress_module env compressed format) _
            λ bytes _. create_entry-StaysWithin S dest (Entry.file bytes) s

  add_module-StaysWithin :
      (fuel : ℕ) (m : Module) → PlacesIn m → StaysWithin S (add_module env fuel kmod m)
  unfolding add_module
  add_module-StaysWithin zero m s = λ v q h. inl h
  add_module-StaysWithin (suc fuel) m s =
      if-StaysWithin S (is_builtin m) _ _ (λ _ v q h. inl h)
        λ b. lift-StaysWithin S kmod_failed (Kmod.info m) _ λ info i.
          bind-StaysWithin S (each _ (all_depends info)) _
            (each-StaysWithin S _ (all_depends info) λ name a.
              lift-StaysWithin S kmod_failed (module_from_name kmod name) _ λ next f.
                add_module-StaysWithin fuel next
                  λ needed p n. s needed p (dependency m next info name b i a f n))
            λ _. lift-StaysWithin S kmod_failed (install_path m) _ λ dest e.
              bind-StaysWithin S (create_parent (parent dest)) _
                (create_parent-StaysWithin S up dest (s m dest this b e))
                λ _.
                  unless_contained-StaysWithin S dest (put_module env m dest)
                    (put_module-StaysWithin m dest (s m dest this b e))

  pub add_kernel_module-StaysWithin :
      (fuel : ℕ) (k : Config.KernelModule)
      → ((m : Module) → find_module kmod k ≡ ok m → PlacesIn m)
      → StaysWithin S (add_kernel_module env fuel kmod k)
  unfolding add_module_from_name add_module_from_path
  add_kernel_module-StaysWithin fuel (Config.name name) s =
      lift-StaysWithin S kmod_failed (module_from_name kmod name) (add_module env fuel kmod)
        λ m e. add_module-StaysWithin fuel m (s m e)
  add_kernel_module-StaysWithin fuel (Config.path p) s =
      lift-StaysWithin S kmod_failed (module_from_path kmod p) (add_module env fuel kmod)
        λ m e. add_module-StaysWithin fuel m (s m e)
