-- ===== src/Initramfs/Returns.antt =====
-- The builder of crates/elusive/src/initramfs.rs: a calculus of the methods that return, whatever the
-- state that they start from.
use elusive.Base.{
  Among, Bytes, Bool, true, false, Option, List, [], ◌∷◌, ◌≡◌, ◌≢◌, refl, inl, inr, Bool-cases,
  Result, ok, diverge, lift, expect, map_err, map_err-ok, if◌then◌else◌, ◌>>=◌, ◌>>◌,
}
use elusive.FilePath.{FilePath}
use elusive.Entry.{Entry}
use elusive.Vfs.{Vfs, contains, create_entry}
use elusive.Initramfs.{
  Env, InitramfsError, Build, vfs_failed, on_vfs, each, unless_contained, check_exists,
  add_entrypoint,
}
use elusive.Initramfs.Ends.{
  Answers, continue-ends, map_err-ends, expect-ends, create_entry-ends, copy_file-ends,
}

-- The computation returns, from every state.
abbrev pub Returns : Build Unit → Type 0
Returns m = (v : Vfs) → (m v).0 ≢ diverge

pub then-Returns : (m : Build Unit) (k : Build Unit) → Returns m → Returns k → Returns (m >> k)
then-Returns m k h g v = continue-ends (m v).0 (λ _. k) (m v).1 (h v) λ _ _. g (m v).1

-- A call that returns, with what it has answered.
pub lift-Returns :
    {D A : Type 0} (f : D → InitramfsError) (r : Result D A) (g : A → Build Unit)
    → r ≢ diverge
    → ((a : A) → r ≡ ok a → Returns (g a))
    → Returns (lift (map_err f r) >>= g)
lift-Returns f r g h k v =
    continue-ends (map_err f r) g v (map_err-ends f r h) λ a e. k a (map_err-ok f r e) v

pub expect-Returns :
    {A : Type 0} (o : Option A) (f : A → Build Unit)
    → ((a : A) → Returns (f a))
    → Returns (lift (expect o) >>= f)
expect-Returns o f h v = continue-ends (expect o) f v (expect-ends o) λ a _. h a v

pub if-Returns :
    (b : Bool) (m k : Build Unit) → Returns m → Returns k → Returns (if b then m else k)
if-Returns true m k h g = h
if-Returns false m k h g = g

pub unless_contained-Returns :
    (p : FilePath) (m : Build Unit) → Returns m → Returns (unless_contained p m)
unless_contained-Returns p m h v = elim (Bool-cases (contains v p)) [
  | inl there ↦ rw there (λ d. cc)
  | inr missing ↦ rw missing (h v)
]

pub each-Returns :
    {A : Type 0} (act : A → Build Unit) (xs : List A)
    → ((x : A) → Among x xs → Returns (act x))
    → Returns (each act xs)
unfolding each
each-Returns act [] h = λ v d. cc
each-Returns act (x ∷ xs) h =
    then-Returns (act x) (each act xs) (h x (inl refl)) (each-Returns act xs λ y m. h y (inr m))

pub create_entry-Returns : (p : FilePath) (entry : Entry) → Returns (on_vfs (create_entry p entry))
create_entry-Returns p entry v = map_err-ends vfs_failed _ (create_entry-ends p entry v)

module _ (env : Env) (answers : Answers env) where
  pub check_exists-Returns : (p : FilePath) → Returns (check_exists env p)
  check_exists-Returns p = if-Returns (env.host.exists p) _ _ (λ v d. cc) (λ v d. cc)

  pub add_entrypoint-Returns :
      (name : Bytes) (source : FilePath) → Returns (add_entrypoint env name source)
  unfolding add_entrypoint
  add_entrypoint-Returns name source = unless_contained-Returns _ _ (
      then-Returns (check_exists env source) _ (check_exists-Returns source)
        (copy_file-ends env answers source _))
