-- ===== src/Cli/Selection.antt =====
-- `elusive` of crates/elusive/src/cli.rs: the modules that the configuration selects by their names.
use elusive.Base.{
  some, List, [], ◌∷◌, ◌≡◌, ◌≢◌, ◌↔◌, refl, sym, ◌∙◌, All, Bytes, ok, ok_or, ok_or-ok, and_then-ok,
  map_ok-ok,
}
use elusive.Base.Order.{nat_ord, list_ord}
use elusive.OrdMap.{OrdMap, IsSorted, get, remove}
use elusive.OrdMap.Laws.{get-remove_self, get-remove_ne, remove-IsSorted}
use mathlib.Core.Path.{subst}
use elusive.Config
use elusive.Cli.{unknown_module, select}

abbrev pub Modules : Type 0
Modules = OrdMap Bytes Config.Module

-- No name stands twice.
abbrev pub Distinct : List Bytes → Type 0
Distinct [] = Unit
Distinct (name ∷ names) = All (λ n. name ≢ n) names × Distinct names

-- The modules that the names lead to, one for each.
abbrev pub Finds : Modules → List Bytes → List Config.Module → Type 0
Finds available [] [] = Unit
Finds available (name ∷ names) (m ∷ ms) = (get name available ≡ some m) × Finds available names ms
Finds available [] (m ∷ ms) = ⊥
Finds available (name ∷ names) [] = ⊥

Finds-remove :
    (name : Bytes) (available : Modules) (names : List Bytes) (ms : List Config.Module)
    → IsSorted available
    → All (λ n. name ≢ n) names
    → Finds (remove name available) names ms ↔ Finds available names ms
Finds-remove name available [] [] s d = (λ h. h, λ h. h)
Finds-remove name available [] (m ∷ ms) s d = (λ h. h, λ h. h)
Finds-remove name available (n ∷ names) [] s d = (λ h. h, λ h. h)
Finds-remove name available (n ∷ names) (m ∷ ms) s (e, d) =
    let same = get-remove_ne n name available s (λ h. e (sym h)) in
    let rest = Finds-remove name available names ms s d in
    ((λ h. (sym same ∙ h.0, rest.0 h.1)), (λ h. (same ∙ h.0, rest.1 h.1)))

-- What is removed is not found any more.
Finds-avoids :
    (name : Bytes) (available : Modules) (names : List Bytes) (ms : List Config.Module)
    → IsSorted available
    → Finds (remove name available) names ms
    → All (λ n. name ≢ n) names
Finds-avoids name available [] ms s h = tt
Finds-avoids name available (n ∷ names) [] s h = absurd h
Finds-avoids name available (n ∷ names) (m ∷ ms) s (e, h) = (
  (λ same. cc (get-remove_self name available s, e, same)),
  Finds-avoids name available names ms s h,
)

selected :
    (names : List Bytes) (available : Modules) (ms : List Config.Module)
    → IsSorted available
    → select names available ≡ ok ms
    → Distinct names × Finds available names ms
unfolding select
selected [] available [] s h = (tt, tt)
selected [] available (m ∷ ms) s h = cc
selected (name ∷ names) available ms s h =
    let (m, e, h₁) = and_then-ok (ok_or (get name available) (unknown_module name)) _ h in
    let (rest, f, h₂) = map_ok-ok (λ l. m ∷ l) (select names (remove name available)) h₁ in
    let (d, found) =
      selected names (remove name available) rest (remove-IsSorted name available s) f in
    let avoids = Finds-avoids name available names rest s found in
    subst (λ l. Distinct (name ∷ names) × Finds available (name ∷ names) l) h₂
      (
        (avoids, d),
        (
          ok_or-ok (get name available) (unknown_module name) e,
          (Finds-remove name available names rest s avoids).0 found,
        ),
      )

select-found :
    (names : List Bytes) (available : Modules) (ms : List Config.Module)
    → IsSorted available
    → Distinct names
    → Finds available names ms
    → select names available ≡ ok ms
unfolding select
select-found [] available [] s d h = refl
select-found [] available (m ∷ ms) s d h = absurd h
select-found (name ∷ names) available [] s d h = absurd h
select-found (name ∷ names) available (m ∷ ms) s (avoids, d) (e, h) =
    rw
      (
        e,
        select-found names (remove name available) ms (remove-IsSorted name available s) d
            ((Finds-remove name available names ms s avoids).1 h),
      )
      refl

-- where the available modules stand in strictly increasing order of their names, the loop over the
-- names of the configuration succeeds with a list of modules exactly if no name stands twice and
-- each name leads to the module at its place in the list.
pub select-ok_iff :
    (names : List Bytes) (available : Modules) (ms : List Config.Module)
    → IsSorted available
    → (select names available ≡ ok ms) ↔ (Distinct names × Finds available names ms)
select-ok_iff names available ms s =
    (selected names available ms s, λ h. select-found names available ms s h.0 h.1)
