-- ===== src/Initramfs/Binaries.antt =====
-- Initramfs.add_elf of crates/elusive/src/initramfs.rs: what putting a binary adds.
use elusive.Base.{
  Bool, true, false, Option, none, some, List, [], ◌∷◌, ◌≡◌, ◌≢◌, refl, sym, ap, ◌∙◌, inl, inr, ◌⊎◌,
  Bool-cases, All, Among, arith, if◌then◌else◌, Result, ok, err, panic, diverge, continue,
  continue-ok, pure, throw, map_err, ◌>>◌,
}
use mathlib.Core.Path.{subst}
use elusive.Base.Order.{same, same-eq, same_refl}
use elusive.FilePath.{FilePath, parent, path_ord}
use elusive.FilePath.Prefixes.{from_top}
use elusive.OrdMap.Laws.{get-insert_ne}
use elusive.Host.{not_found}
use elusive.Entry.{Entry, try_from}
use elusive.Vfs.{Vfs, lookup, contains, create_entry}
use elusive.Vfs.CreateAll.{create_dir_all-frame}
use elusive.Initramfs.{
  Env, Build, InitramfsError, input_output, on_vfs, create_parent, copy_file, put_binary,
}

-- The directories above a path.
abbrev pub above : Option FilePath → List FilePath
above none = []
above (some dir) = from_top dir

-- The path holds after the call what it held.
abbrev Leaves : {A : Type 0} → FilePath → Build A → Type 0
Leaves q m = (v : Vfs) → lookup (m v).1 q ≡ lookup v q

continue-Leaves :
    {A B : Type 0} (q : FilePath) (r : Result InitramfsError A) (f : A → Build B)
    → ((a : A) → Leaves q (f a))
    → Leaves q (continue r f)
continue-Leaves q (ok a) f h v = h a v
continue-Leaves q (err e) f h v = refl
continue-Leaves q panic f h v = refl
continue-Leaves q diverge f h v = refl

create_entry-Leaves :
    (p q : FilePath) (entry : Entry) → q ≢ p → Leaves q (on_vfs (create_entry p entry))
unfolding create_entry
create_entry-Leaves p q entry n v = ground (arith, get-insert_ne q p entry v.inner n)

create_parent-Leaves :
    (o : Option FilePath) (q : FilePath) → All (λ d. q ≢ d) (above o) → Leaves q (create_parent o)
create_parent-Leaves none q a v = refl
create_parent-Leaves (some dir) q a v = create_dir_all-frame dir q v a

copy_file-Leaves : (env : Env) (source p q : FilePath) → q ≢ p → Leaves q (copy_file env source p)
copy_file-Leaves env source p q n =
    continue-Leaves q (map_err input_output (env.host.open_file source)) _ λ file.
      continue-Leaves q (map_err input_output (try_from file)) _
        λ entry. create_entry-Leaves p q entry n

put_binary-Leaves :
    (env : Env) (p q : FilePath)
    → q ≢ p
    → All (λ d. q ≢ d) (above (parent p))
    → Leaves q (put_binary env p)
put_binary-Leaves env p q n a v =
    continue-Leaves q (create_parent (parent p) v).0 _ (λ _. checked (env.host.exists p))
      (create_parent (parent p) v).1
    ∙ create_parent-Leaves (parent p) q a v
  where
    checked :
        (there : Bool)
        → Leaves q
            ((if there then pure tt else throw (input_output (not_found p))) >> copy_file env p p)
    checked true w = copy_file-Leaves env p p q n w
    checked false w = refl

ne_of_same : (q d : FilePath) → same q d ≡ false → q ≢ d
ne_of_same q d n e =
    let s : same q q ≡ false = subst (λ x. same q x ≡ false) (sym e) n in let t = same_refl q in cc

pub contains_same :
    (v w : Vfs) (q : FilePath) → lookup w q ≡ lookup v q → contains w q ≡ true → contains v q ≡ true
unfolding contains
contains_same v w q e h = ground (arith, e, h)

pub Among-or_apart : (q : FilePath) (ds : List FilePath) → Among q ds ⊎ All (λ d. q ≢ d) ds
Among-or_apart q [] = inr tt
Among-or_apart q (d ∷ ds) = elim (Bool-cases (same q d)) [
  | inl e ↦ inl (inl (same-eq q d e))
  | inr n ↦ elim (Among-or_apart q ds) [ inl m ↦ inl (inr m) | inr a ↦ inr (ne_of_same q d n, a) ]
]

-- What put_binary adds: the binary and directories above it.
pub put_binary-added :
    (env : Env) (p q : FilePath) (v : Vfs)
    → contains (put_binary env p v).1 q ≡ true
    → (contains v q ≡ true) ⊎ (q ≡ p) ⊎ Among q (above (parent p))
put_binary-added env p q v h = elim (Among-or_apart q (p ∷ above (parent p))) [
  | inl (inl e) ↦ inr (inl e)
  | inl (inr m) ↦ inr (inr m)
  | inr (n, a) ↦ inl (contains_same v (put_binary env p v).1 q (put_binary-Leaves env p q n a v) h)
]

pub put_binary-exists :
    (env : Env) (p : FilePath) (v w : Vfs)
    → put_binary env p v ≡ (ok tt, w)
    → env.host.exists p ≡ true
put_binary-exists env p v w e =
    let (_, _, f) = continue-ok (create_parent (parent p) v).0 _ (create_parent (parent p) v).1 e in
    elim (Bool-cases (env.host.exists p)) [
      | inl there ↦ there
      | inr missing ↦ cc (ap (λ r. r.0) (rw missing at f))
    ]
