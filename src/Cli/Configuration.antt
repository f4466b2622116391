-- ===== src/Cli/Configuration.antt =====
-- The configuration of `elusive` in crates/elusive/src/cli.rs: which modules it selects.
use elusive.Base.{
  Option, none, some, List, [], ◌∷◌, Bytes, ok, and_then-ok, map_ok-ok, ◌≡◌, refl, sym, ◌∙◌,
}
use mathlib.Core.Path.{subst}
use elusive.Base.Order.{nat_ord, list_ord}
use elusive.FilePath.{FilePath}
use elusive.OrdMap.{OrdMap, get}
use elusive.Config
use elusive.Cli.{
  System, Args, config_path, confdir_paths, load_config, load_dirs, override_modules, select,
  configure,
}
use elusive.Cli.Selection.{Distinct, Finds, select-ok_iff}
use elusive.Cli.Loading.{last_named, modules_in, load_dirs-last}

-- Each name leads to the last module of that name.
abbrev pub Leads : List Config.Module → List Bytes → List Config.Module → Type 0
Leads all [] [] = Unit
Leads all (name ∷ names) (m ∷ ms) = (last_named name all ≡ some m) × Leads all names ms
Leads all [] (m ∷ ms) = ⊥
Leads all (name ∷ names) [] = ⊥

Finds-Leads :
    (all : List Config.Module) (names : List Bytes) (ms : List Config.Module)
    (available : OrdMap Bytes Config.Module)
    → ((name : Bytes) → get name available ≡ last_named name all)
    → Finds available names ms
    → Leads all names ms
Finds-Leads all [] [] available h f = tt
Finds-Leads all [] (m ∷ ms) available h f = f
Finds-Leads all (name ∷ names) [] available h f = f
Finds-Leads all (name ∷ names) (m ∷ ms) available h (e, f) =
    (sym (h name) ∙ e, Finds-Leads all names ms available h f)

-- What a configuration that could be read selects, by the directories that it was read from.
pub record Selects (sys : System) (args : Args) (names : List Bytes) (ms : List Config.Module)
    : Type 0 where
  pub dirs : List FilePath
  pub read_from : confdir_paths args.confdir args.skip_default_paths ≡ ok dirs
  pub once : Distinct names
  pub leads : Leads (modules_in sys dirs) names ms

override_modules-names :
    (p : Option FilePath) (config : Config.Initramfs)
    → (override_modules p config).modules ≡ config.modules
override_modules-names none config = refl
override_modules-names (some p) config = refl

-- where the configuration of the initramfs command can be read, no module is named twice in it,
-- and the modules that are built are, name by name, the last of that name that was read, over the
-- configuration directories in their order and the files of each as the system lists them.
pub configure-Selects :
    (sys : System) (args : Args) (modules : Option FilePath) (config : Config.Initramfs)
    (ms : List Config.Module)
    → configure sys args modules ≡ ok (config, ms)
    → Selects sys args config.modules ms
unfolding configure
configure-Selects sys args modules config ms e =
    let (path, _, f) = and_then-ok (config_path args.config args.skip_default_paths) _ e in
    let (dirs, found, g) = and_then-ok (confdir_paths args.confdir args.skip_default_paths) _ f in
    let (loaded, _, h) = and_then-ok (load_config sys sys.parse_initramfs path) _ g in
    let (available, all, k) = and_then-ok (load_dirs sys dirs []) _ h in
    let (chosen, selected, same) =
      map_ok-ok (λ s. (override_modules modules loaded, s)) (select loaded.modules available) k in
    let (d, finds) =
      (select-ok_iff loaded.modules available chosen (load_dirs-last sys dirs available [] all).0).0
        selected in
    let names = override_modules-names modules loaded in
    subst (λ (r : Config.Initramfs × List Config.Module). Selects sys args r.0.modules r.1) same
      (subst (λ ns. Selects sys args ns chosen) (sym names)
        (record {
          dirs = dirs;
          read_from = found;
          once = d;
          leads =
              Finds-Leads (modules_in sys dirs) loaded.modules chosen available
                (λ name. (load_dirs-last sys dirs available name all).1) finds;
        }))
