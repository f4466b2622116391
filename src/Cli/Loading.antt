-- ===== src/Cli/Loading.antt =====
-- The modules that `elusive` of crates/elusive/src/cli.rs finds in the configuration directories.
use elusive.Base.{
  ok-injective, Bool-cases, Option, none, some, List, [], ◌∷◌, ◌++◌, Bytes, if◌then◌else◌, Result,
  ok, err, panic, diverge, and_then-ok, map_err, map_err-ok, ◌≡◌, refl, sym, ap, ◌∙◌, inl, inr,
  arith,
}
use mathlib.Core.Path.{subst}
use elusive.Base.Order.{same, nat_ord, list_ord}
use elusive.FilePath.{FilePath}
use elusive.Host.{IoError, DirEntry}
use elusive.OrdMap.{OrdMap, get, insert, IsSorted}
use elusive.OrdMap.Laws.{get-insert, insert-IsSorted}
use elusive.Config
use elusive.Cli.{
  System, Modules, io_failed, yaml_failed, read_file, load_entry, load_entries, load_dir, load_dirs,
}

-- The modules one after the other, the later in place of an earlier of the same name.
abbrev pub insert_all : List Config.Module → OrdMap Bytes Config.Module → OrdMap Bytes Config.Module
insert_all [] modules = modules
insert_all (m ∷ ms) modules = insert_all ms (insert m.name m modules)

abbrev pub or_else : {A : Type 0} → Option A → Option A → Option A
or_else none b = b
or_else (some a) b = some a

-- The last module of a name.
abbrev pub last_named : Bytes → List Config.Module → Option Config.Module
last_named name [] = none
last_named name (m ∷ ms) = or_else (last_named name ms) (if same name m.name then some m else none)

get-insert_all :
    (name : Bytes) (ms : List Config.Module) (modules : OrdMap Bytes Config.Module)
    → get name (insert_all ms modules) ≡ or_else (last_named name ms) (get name modules)
get-insert_all name [] modules = refl
get-insert_all name (m ∷ ms) modules =
    get-insert_all name ms (insert m.name m modules)
    ∙ ground (arith, get-insert name m.name m modules)

insert_all-IsSorted :
    (ms : List Config.Module) (modules : OrdMap Bytes Config.Module)
    → IsSorted modules
    → IsSorted (insert_all ms modules)
insert_all-IsSorted [] modules s = s
insert_all-IsSorted (m ∷ ms) modules s =
    insert_all-IsSorted ms (insert m.name m modules) (insert-IsSorted m.name m modules s)

insert_all-append :
    (ms ns : List Config.Module) (modules : OrdMap Bytes Config.Module)
    → insert_all ns (insert_all ms modules) ≡ insert_all (ms ++ ns) modules
insert_all-append [] ns modules = refl
insert_all-append (m ∷ ms) ns modules = insert_all-append ms ns (insert m.name m modules)

or_else-none : {A : Type 0} (o : Option A) → or_else o none ≡ o
or_else-none none = refl
or_else-none (some a) = refl

module _ (sys : System) where
  abbrev pub parsed : Result IoError Bytes → List Config.Module
  parsed (ok bytes) = elim (sys.parse_module bytes) [ ok m ↦ m ∷ [] | _ ↦ [] ]
  parsed _ = []

  -- The module of an entry, where it is a file.
  abbrev pub module_of : Result IoError DirEntry → List Config.Module
  module_of (ok entry) =
      if sys.machine.is_file entry.path then parsed (sys.env.host.read entry.path) else []
  module_of _ = []

  abbrev pub modules_of : List (Result IoError DirEntry) → List Config.Module
  modules_of [] = []
  modules_of (item ∷ items) = module_of item ++ modules_of items

  abbrev pub listed : Result IoError (List (Result IoError DirEntry)) → List Config.Module
  listed (ok items) = modules_of items
  listed _ = []

  -- The modules of directories, those of one that is not there left out.
  abbrev pub modules_in : List FilePath → List Config.Module
  modules_in [] = []
  modules_in (p ∷ ps) =
      (if sys.env.host.exists p then listed (sys.env.host.read_dir p) else []) ++ modules_in ps

  parsed-ok :
      (r : Result IoError Bytes) (bytes : Bytes) (m : Config.Module)
      → r ≡ ok bytes
      → sys.parse_module bytes ≡ ok m
      → parsed r ≡ m ∷ []
  parsed-ok r bytes m e f = ap parsed e ∙ rw (f, parsed) refl

  load_entry-insert_all :
      (item : Result IoError DirEntry) (modules modules' : Modules sys)
      → load_entry sys item modules ≡ ok modules'
      → insert_all (module_of item) modules ≡ modules'
  unfolding load_entry
  load_entry-insert_all (ok entry) modules modules' e =
      elim (Bool-cases (sys.machine.is_file entry.path)) [
        | inl file ↦
            let (bytes, r, f) = and_then-ok (read_file sys entry.path) _ (rw file at e) in
            let (m, y, g) = and_then-ok (map_err yaml_failed (sys.parse_module bytes)) _ f in
            let one : parsed (sys.env.host.read entry.path) ≡ m ∷ [] =
              parsed-ok (sys.env.host.read entry.path) bytes m
                (map_err-ok io_failed (sys.env.host.read entry.path) r)
                (map_err-ok yaml_failed (sys.parse_module bytes) y) in
            rw file (ap (λ ms. insert_all ms modules) one ∙ ok-injective g)
        | inr other ↦ rw other (ok-injective (rw other at e))
      ]
  load_entry-insert_all (err x) modules modules' e = cc
  load_entry-insert_all panic modules modules' e = cc
  load_entry-insert_all diverge modules modules' e = cc

  load_entries-insert_all :
      (items : List (Result IoError DirEntry)) (modules modules' : Modules sys)
      → load_entries sys items modules ≡ ok modules'
      → insert_all (modules_of items) modules ≡ modules'
  unfolding load_entries
  load_entries-insert_all [] modules modules' e = ok-injective e
  load_entries-insert_all (item ∷ items) modules modules' e =
      let (next, f, g) = and_then-ok (load_entry sys item modules) (load_entries sys items) e in
      sym (insert_all-append (module_of item) (modules_of items) modules)
      ∙ ap (insert_all (modules_of items)) (load_entry-insert_all item modules next f)
      ∙ load_entries-insert_all items next modules' g

  load_dir-insert_all :
      (p : FilePath) (modules modules' : Modules sys)
      → load_dir sys p modules ≡ ok modules'
      → insert_all (if sys.env.host.exists p then listed (sys.env.host.read_dir p) else []) modules
        ≡ modules'
  unfolding load_dir
  load_dir-insert_all p modules modules' e = elim (Bool-cases (sys.env.host.exists p)) [
    | inr missing ↦ rw missing (ok-injective (rw missing at e))
    | inl there ↦ elim (Bool-cases (sys.machine.is_dir p)) [
      | inr other ↦ cc (rw (there, other) at e)
      | inl dir ↦
          let (items, r, f) =
            and_then-ok (map_err io_failed (sys.env.host.read_dir p)) _ (rw (there, dir) at e) in
          rw there (
            ap (λ l. insert_all (listed l) modules)
              (map_err-ok io_failed (sys.env.host.read_dir p) r)
            ∙ load_entries-insert_all items modules modules' f)
    ]
  ]

  load_dirs-insert_all :
      (ps : List FilePath) (modules modules' : Modules sys)
      → load_dirs sys ps modules ≡ ok modules'
      → insert_all (modules_in ps) modules ≡ modules'
  unfolding load_dirs
  load_dirs-insert_all [] modules modules' e = ok-injective e
  load_dirs-insert_all (p ∷ ps) modules modules' e =
      let (next, f, g) = and_then-ok (load_dir sys p modules) (load_dirs sys ps) e in
      sym (
        insert_all-append (if sys.env.host.exists p then listed (sys.env.host.read_dir p) else [])
          (modules_in ps) modules)
      ∙ ap (insert_all (modules_in ps)) (load_dir-insert_all p modules next f)
      ∙ load_dirs-insert_all ps next modules' g

  -- A later module wins.
  pub load_dirs-last :
      (ps : List FilePath) (available : Modules sys) (name : Bytes)
      → load_dirs sys ps [] ≡ ok available
      → IsSorted available × (get name available ≡ last_named name (modules_in ps))
  unfolding get
  load_dirs-last ps available name e =
      let all = load_dirs-insert_all ps [] available e in
      (
        subst IsSorted all (insert_all-IsSorted (modules_in ps) [] tt),
        ap (get name) (sym all)
            ∙ get-insert_all name (modules_in ps) []
            ∙ or_else-none (last_named name (modules_in ps)),
      )
