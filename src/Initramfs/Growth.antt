-- ===== src/Initramfs/Growth.antt =====
-- How the methods of the builder grow its filesystem: a calculus of such computations, and the
-- methods that put one entry.
use elusive.Base.{
  Bool, true, false, Option, none, some, List, [], ◌∷◌, ◌≡◌, refl, inl, inr, Bool-cases,
  if◌then◌else◌, Result, ok, err, panic, expect, diverge, lift, map_err, map_err-ok, continue, pure,
  ◌>>=◌, ◌>>◌, throw, arith,
}
use elusive.FilePath.{FilePath, parent}
use elusive.Entry.{Entry, try_from}
use elusive.Vfs.{Vfs, VfsError, contains, create_dir_all, create_entry}
use elusive.Vfs.CreateAll.{create_dir_all-HoldsDir}
use elusive.Vfs.Growth.{
  Grows, here, Grows-trans, Grows-contains, ParentThere, create_dir_all-Grows, create_entry-Grows,
}
use elusive.Initramfs.{
  Env, InitramfsError, Build, vfs_failed, input_output, on_vfs, each, create_parent,
  unless_contained, copy_file, check_exists, put_binary,
}

-- The computation grows every filesystem that has the given directory.
unfoldable pub GrowsUnder : {A : Type 0} → Option FilePath → Build A → Type 0
GrowsUnder o m = (v : Vfs) → ParentThere v o → Grows v (m v).1

pub Grows-ParentThere :
    {v w : Vfs} (o : Option FilePath) → Grows v w → ParentThere v o → ParentThere w o
Grows-ParentThere none g h = tt
Grows-ParentThere (some dir) g h = Grows-contains dir g h

continue-Grows :
    {A B : Type 0} (r : Result InitramfsError A) (f : A → Build B) (v : Vfs)
    → ((a : A) → r ≡ ok a → Grows v (f a v).1)
    → Grows v (continue r f v).1
continue-Grows (ok a) f v h = h a refl
continue-Grows (err e) f v h = here
continue-Grows panic f v h = here
continue-Grows diverge f v h = here

pub then-Grows :
    {A B : Type 0} (m : Build A) (f : A → Build B) (v : Vfs)
    → Grows v (m v).1
    → ((a : A) → (m v).0 ≡ ok a → Grows (m v).1 (f a (m v).1).1)
    → Grows v ((m >>= f) v).1
then-Grows m f v g h = Grows-trans g (continue-Grows (m v).0 f (m v).1 h)

pub pure-Grows : (o : Option FilePath) → GrowsUnder o (pure tt)
unfolding GrowsUnder
pure-Grows o v there = here

pub throw-Grows : (o : Option FilePath) (e : InitramfsError) → GrowsUnder o (throw {A = Unit} e)
unfolding GrowsUnder
throw-Grows o e v there = here

pub bind-Grows :
    {A B : Type 0} (o : Option FilePath) (m : Build A) (f : A → Build B)
    → GrowsUnder o m
    → ((a : A) → GrowsUnder o (f a))
    → GrowsUnder o (m >>= f)
unfolding GrowsUnder
bind-Grows o m f g h v there =
    then-Grows m f v (g v there) λ a e. h a (m v).1 (Grows-ParentThere o (g v there) there)

pub lift-Grows :
    {A B : Type 0} (o : Option FilePath) (r : Result InitramfsError A) (f : A → Build B)
    → ((a : A) → GrowsUnder o (f a))
    → GrowsUnder o (lift r >>= f)
unfolding GrowsUnder
lift-Grows o r f h = bind-Grows o (lift r) f (λ v there. here) h

pub diverge-Grows : (o : Option FilePath) → GrowsUnder o (lift {A = Unit} diverge)
unfolding GrowsUnder
diverge-Grows o v there = here

-- `expect`, with what it has found.
pub expect-Grows :
    (o q : Option FilePath) (f : FilePath → Build Unit)
    → ((dir : FilePath) → q ≡ some dir → GrowsUnder o (f dir))
    → GrowsUnder o (lift (expect q) >>= f)
unfolding GrowsUnder
expect-Grows o none f h v there = here
expect-Grows o (some dir) f h v there = h dir refl v there

pub if-Grows :
    {A : Type 0} (o : Option FilePath) (b : Bool) (m k : Build A)
    → GrowsUnder o m
    → GrowsUnder o k
    → GrowsUnder o (if b then m else k)
if-Grows o true m k g h = g
if-Grows o false m k g h = h

pub unless_contained-Grows :
    (o : Option FilePath) (p : FilePath) (m : Build Unit)
    → GrowsUnder o m
    → GrowsUnder o (unless_contained p m)
unfolding GrowsUnder
unless_contained-Grows o p m g v there = elim (Bool-cases (contains v p)) [
  | inl there' ↦ rw there' here
  | inr missing ↦ rw missing (g v there)
]

pub each-Grows :
    {A : Type 0} (o : Option FilePath) (act : A → Build Unit) (xs : List A)
    → ((x : A) → GrowsUnder o (act x))
    → GrowsUnder o (each act xs)
unfolding each
each-Grows o act [] h = pure-Grows o
each-Grows o act (x ∷ xs) h =
    bind-Grows o (act x) (λ _. each act xs) (h x) (λ _. each-Grows o act xs h)

pub create_parent-Grows : (o q : Option FilePath) → GrowsUnder o (create_parent q)
unfolding GrowsUnder
create_parent-Grows o none v there = here
create_parent-Grows o (some dir) v there = create_dir_all-Grows dir v

pub on_vfs-ok :
    (m : Vfs → Result VfsError Unit × Vfs) (v : Vfs) → (on_vfs m v).0 ≡ ok tt → (m v).0 ≡ ok tt
on_vfs-ok m v h = map_err-ok vfs_failed (m v).0 h

-- Once its parent is made, there is room for the entry.
pub create_parent-ParentThere :
    (q : Option FilePath) (v : Vfs)
    → (create_parent q v).0 ≡ ok tt
    → ParentThere (create_parent q v).1 q
unfolding contains
create_parent-ParentThere none v h = tt
create_parent-ParentThere (some dir) v h =
    ground (arith, create_dir_all-HoldsDir dir v (on_vfs-ok (create_dir_all dir) v h))

pub place-Grows :
    (o q : Option FilePath) (m : Build Unit) → GrowsUnder q m → GrowsUnder o (create_parent q >> m)
unfolding GrowsUnder
place-Grows o q m g v there =
    then-Grows (create_parent q) (λ _. m) v (create_parent-Grows o q v there)
      λ a e. g (create_parent q v).1 (create_parent-ParentThere q v e)

pub create_entry-GrowsUnder :
    (p : FilePath) (entry : Entry) → GrowsUnder (parent p) (on_vfs (create_entry p entry))
unfolding GrowsUnder
create_entry-GrowsUnder p entry v there = create_entry-Grows p entry v there

module _ (env : Env) where
  pub check_exists-Grows :
      (o : Option FilePath) (p : FilePath) (m : Build Unit)
      → GrowsUnder o m
      → GrowsUnder o (check_exists env p >> m)
  check_exists-Grows o p m g =
      bind-Grows o (check_exists env p) (λ _. m)
        (if-Grows o (env.host.exists p) (pure tt) _ (pure-Grows o) (throw-Grows o _)) (λ _. g)

  pub copy_file-Grows :
      (source dest : FilePath) → GrowsUnder (parent dest) (copy_file env source dest)
  copy_file-Grows source dest =
      lift-Grows (parent dest) (map_err input_output (env.host.open_file source)) _ λ file.
        lift-Grows (parent dest) (map_err input_output (try_from file)) _
          λ entry. create_entry-GrowsUnder dest entry

  pub put_binary-Grows : (o : Option FilePath) (p : FilePath) → GrowsUnder o (put_binary env p)
  put_binary-Grows o p =
      place-Grows o (parent p) (check_exists env p >> copy_file env p p)
        (check_exists-Grows (parent p) p (copy_file env p p) (copy_file-Grows p p))
