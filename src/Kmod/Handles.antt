-- ===== src/Kmod/Handles.antt =====
-- crates/elusive/src/kmod.rs: the lists that libkmod allocates for the program, and that the program
-- has to give back. The state is their number.
use elusive.Base.{
  ℕ, ◌+◌, ◌-◌, some, List, [], ◌∷◌, ◌≡◌, ◌↔◌, refl, Bytes, Result, ok, err, panic, diverge, Exec,
  lift, continue, continue-and_then, ok_or, ◌>>=◌, ◌>>◌, arith,
}
use elusive.Kmod.{
  KmodError, Kmod, Module, ModuleInfo, c_string, get_module, module_from_name_failed,
  module_get_info_failed, module_from_name, name, name_or_unknown, add_items, no_info, info,
}

abbrev pub Held : Type 0 → Type 0
Held A = Exec ℕ KmodError A

-- An empty list is a null pointer, for which nothing is allocated.
abbrev pub size : {A : Type 0} → List A → ℕ
size [] = 0
size (x ∷ xs) = 1

-- What libkmod hands over.
abbrev pub handed : {A : Type 0} → List A → Held Unit
handed list held = (ok tt, size list + held)

-- `kmod_module_unref_list`, `kmod_module_info_free_list`
abbrev pub freed : {A : Type 0} → List A → Held Unit
freed list held = (ok tt, held - size list)

-- `Module::from_name`
unfoldable pub from_name_held : Kmod → Bytes → Held Module
from_name_held kmod name = do
  cstr ← lift (c_string name)
  list ← lift (ok_or (kmod.ctx.new_from_lookup cstr) (module_from_name_failed name))
  handed list
  freed list
  λ held. (ok (record { kernel_release = kmod.kernel_release; inner = get_module list }), held)

-- `ModuleInfo::new`: an error in the loop returns before the list is freed.
unfoldable pub info_held : Module → Held ModuleInfo
unfolding add_items name
info_held m = do
  items ← lift (ok_or m.inner.get_info (module_get_info_failed (name_or_unknown (name m))))
  handed items
  info ← lift (add_items items no_info)
  freed items
  λ held. (ok info, held)

restored : {A : Type 0} (list : List A) (held : ℕ) → (size list + held) - size list ≡ held
restored list held = omega arith

pub from_name_held-balanced :
    (kmod : Kmod) (name : Bytes) (held : ℕ)
    → from_name_held kmod name held ≡ (module_from_name kmod name, held)
unfolding from_name_held module_from_name
from_name_held-balanced kmod name held = continue-and_then (c_string name) _ _ held λ cstr.
    continue-and_then (ok_or (kmod.ctx.new_from_lookup cstr) (module_from_name_failed name)) _ _
      held λ list. rw (restored list held) refl

-- The loop over the list and what follows.
abbrev loop_held : List (Bytes × Bytes) → Result KmodError ModuleInfo → Held ModuleInfo
loop_held items r held = continue r (λ info. freed items >> λ h. (ok info, h)) (size items + held)

loop_held-balanced_iff :
    (items : List (Bytes × Bytes)) (r : Result KmodError ModuleInfo) (held : ℕ)
    → add_items items no_info ≡ r
    → ((loop_held items r held).0 ≡ r)
      × (((loop_held items r held).1 ≡ held) ↔ ((i : ModuleInfo) × (r ≡ ok i)))
unfolding add_items
loop_held-balanced_iff items (ok i) held e = (refl, ((λ _. (i, refl)), λ _. restored items held))
loop_held-balanced_iff [] (err x) held e = cc
loop_held-balanced_iff [] panic held e = cc
loop_held-balanced_iff [] diverge held e = cc
loop_held-balanced_iff (item ∷ items) (err x) held e =
    (refl, ((λ l. absurd (omega arith)), λ (i, s). cc))
loop_held-balanced_iff (item ∷ items) panic held e =
    (refl, ((λ l. absurd (omega arith)), λ (i, s). cc))
loop_held-balanced_iff (item ∷ items) diverge held e =
    (refl, ((λ l. absurd (omega arith)), λ (i, s). cc))

-- when libkmod has answered with a list, ModuleInfo::new gives the list back exactly if its result
-- is a success; its result does not depend on the number of lists that are held.
pub info_held-balanced_iff :
    (m : Module) (items : List (Bytes × Bytes)) (held : ℕ)
    → m.inner.get_info ≡ some items
    → ((info_held m held).0 ≡ info m)
      × (((info_held m held).1 ≡ held) ↔ ((i : ModuleInfo) × (info m ≡ ok i)))
unfolding info_held info
info_held-balanced_iff m items held e =
    rw e (loop_held-balanced_iff items (add_items items no_info) held refl)
