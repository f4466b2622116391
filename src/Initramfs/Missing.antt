-- ===== src/Initramfs/Missing.antt =====
-- Initramfs.add_module_from_name of crates/elusive/src/initramfs.rs, on a name that libkmod does not
-- find.
use elusive.Base.{ℕ, suc, [], some, ◌≡◌, refl, ok, Bytes}
use elusive.Vfs.{Vfs}
use elusive.Kmod.{Kmod, c_string, module_from_name, is_builtin, host_path}
use elusive.Initramfs.{Env, add_module, add_module_from_name}

-- add_module_from_name on a name that is a C string and that libkmod finds no module for, where
-- the lookup answers with an empty list, succeeds and changes nothing.
pub add_module_from_name-missing :
    (env : Env) (fuel : ℕ) (kmod : Kmod) (name cstr : Bytes) (v : Vfs)
    → c_string name ≡ ok cstr
    → kmod.ctx.new_from_lookup cstr ≡ some []
    → add_module_from_name env (suc fuel) kmod name v ≡ (ok tt, v)
unfolding add_module_from_name add_module module_from_name is_builtin host_path
add_module_from_name-missing env fuel kmod name cstr v c e = rw (c, e) refl
