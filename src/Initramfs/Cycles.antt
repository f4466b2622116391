-- ===== src/Initramfs/Cycles.antt =====
-- Initramfs.add_systemd_unit and add_module of crates/elusive/src/initramfs.rs, on units that
-- require each other and modules that depend on each other.
use elusive.Base.{
  ℕ, zero, suc, false, List, [], ◌∷◌, ◌≡◌, ◌≢◌, refl, sym, inl, inr, Among, Bytes, Result, ok, err,
  panic, diverge, continue, map_err, map_err-ok,
}
use mathlib.Core.Path.{subst}
use elusive.FilePath.{parse}
use elusive.Vfs.{Vfs}
use elusive.Systemd
use elusive.Systemd.{UnitFile}
use elusive.Kmod
use elusive.Kmod.{Kmod, Module, module_from_name, is_builtin}
use elusive.Initramfs.{
  Env, InitramfsError, Build, system_failed, kmod_failed, each, put_unit, add_elf, install_unit,
  all_depends, add_module, add_systemd_unit,
}

continue-ok :
    {A : Type 0} (r : Result InitramfsError A) (f : A → Build Unit) (v : Vfs)
    → (continue r f v).0 ≡ ok tt
    → (a : A) × (r ≡ ok a) × ((f a v).0 ≡ ok tt)
continue-ok (ok a) f v h = (a, refl, h)
continue-ok (err e) f v h = cc
continue-ok panic f v h = cc
continue-ok diverge f v h = cc

-- A loop that succeeds has succeeded on every item.
each-ok :
    (act : Bytes → Build Unit) (xs : List Bytes) (v : Vfs) (x : Bytes)
    → (each act xs v).0 ≡ ok tt
    → Among x xs
    → (w : Vfs) × ((act x w).0 ≡ ok tt)
unfolding each
each-ok act [] v x h m = absurd m
each-ok act (y ∷ ys) v x h m =
    let (_, e, rest) = continue-ok (act y v).0 (λ _. each act ys) (act y v).1 h in
    elim m [
      | inl same ↦ (v, subst (λ z. (act z v).0 ≡ ok tt) (sym same) e)
      | inr later ↦ each-ok act ys (act y v).1 x rest later
    ]

-- Every unit of a set requires a unit of the set.
abbrev pub RequiresWithin : Env → (Bytes → Type 0) → Type 0
RequiresWithin env S =
    (name : Bytes) (unit : UnitFile)
    → S name
    → Systemd.from_name env.host env.unit_parser name ≡ ok unit
    → (next : Bytes) × Among next unit.dependencies × S next

-- if every unit of a set that can be read requires a unit of the set, add_systemd_unit succeeds on
-- none of them, for no fuel and from no state.
pub add_systemd_unit-cyclic :
    (env : Env) (S : Bytes → Type 0) (fuel : ℕ) (name : Bytes) (v : Vfs)
    → RequiresWithin env S
    → S name
    → (add_systemd_unit env fuel name v).0 ≢ ok tt
unfolding add_systemd_unit
add_systemd_unit-cyclic env S zero name v w s h = cc
add_systemd_unit-cyclic env S (suc fuel) name v w s h =
    let (unit, e, h₁) =
      continue-ok (map_err system_failed (Systemd.from_name env.host env.unit_parser name)) _ v h in
    let (_, _, h₂) = continue-ok (put_unit unit v).0 _ (put_unit unit v).1 h₁ in
    let (_, _, h₃) =
      continue-ok
        (each (λ binary. add_elf env fuel (parse binary)) unit.binaries (put_unit unit v).1).0 _ _
        h₂ in
    let (_, _, h₄) = continue-ok (install_unit name unit.install_path _).0 _ _ h₃ in
    let (next, m, s') =
      w name unit s
        (map_err-ok system_failed (Systemd.from_name env.host env.unit_parser name) e) in
    let (u, h₅) = each-ok (add_systemd_unit env fuel) unit.dependencies _ next h₄ m in
    add_systemd_unit-cyclic env S fuel next u w s' h₅

-- Every module of a set is a file and depends on a module of the set, softly or not.
abbrev pub DependsWithin : Kmod → (Module → Type 0) → Type 0
DependsWithin kmod S =
    (m : Module)
    → S m
    → (is_builtin m ≡ false)
      × ((info : Kmod.ModuleInfo)
          → Kmod.info m ≡ ok info
          → (next : Bytes) × Among next (all_depends info)
            × ((d : Module) → module_from_name kmod next ≡ ok d → S d))

-- if every module of a set is a file that depends, softly or not, on a module of the set,
-- add_module succeeds on none of them, for no fuel and from no state.
pub add_module-cyclic :
    (env : Env) (kmod : Kmod) (S : Module → Type 0) (fuel : ℕ) (m : Module) (v : Vfs)
    → DependsWithin kmod S
    → S m
    → (add_module env fuel kmod m v).0 ≢ ok tt
unfolding add_module
add_module-cyclic env kmod S zero m v w s h = cc
add_module-cyclic env kmod S (suc fuel) m v w s h =
    let (file, depends) = w m s in
    let (info, e, h₁) = continue-ok (map_err kmod_failed (Kmod.info m)) _ v (rw file at h) in
    let (_, each_ok, _) = continue-ok (each _ (all_depends info) v).0 _ _ h₁ in
    let (next, among, inside) = depends info (map_err-ok kmod_failed (Kmod.info m) e) in
    let (u, h₃) = each-ok _ (all_depends info) v next each_ok among in
    let (d, e', h₄) = continue-ok (map_err kmod_failed (module_from_name kmod next)) _ u h₃ in
    add_module-cyclic env kmod S fuel d u w
      (inside d (map_err-ok kmod_failed (module_from_name kmod next) e')) h₄
