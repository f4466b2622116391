-- ===== src/Initramfs/Achieves.antt =====
-- The builder of crates/elusive/src/initramfs.rs: a calculus of what a success of its methods has
-- put into the filesystem, and of what they leave there.
use elusive.Base.{
  Bool, true, false, none, List, [], ◌∷◌, ◌≡◌, refl, inl, inr, ◌⊎◌, Among, Result, ok, err, panic,
  diverge, lift, continue, ◌>>=◌, if◌then◌else◌, Bool-cases, arith,
}
use mathlib.Core.Path.{subst}
use elusive.FilePath.{FilePath}
use elusive.Entry.{Entry}
use elusive.Vfs.{Vfs, contains, put, create_entry}
use elusive.Vfs.Growth.{Grows, Grows-contains, contains-put}
use elusive.Initramfs.{InitramfsError, Build, on_vfs, each, unless_contained}
use elusive.Initramfs.Growth.{GrowsUnder}

-- What a configuration asks for: a path, a program, which brings its libraries, or a link, which is
-- left out where its target is there.
pub data Item : Type 0 where
  at program : FilePath → Item
  link : FilePath → FilePath → Item

abbrev pub Holds : Vfs → Item → Type 0
Holds v (at p) = contains v p ≡ true
Holds v (program p) = contains v p ≡ true
Holds v (link p target) = (contains v p ≡ true) ⊎ (contains v target ≡ true)

-- A success has put the item there.
abbrev pub Achieves : Item → Build Unit → Type 0
Achieves i m = (v : Vfs) → (m v).0 ≡ ok tt → Holds (m v).1 i

-- The item stays, also when the computation stops with an error.
abbrev pub Keeps : {A : Type 0} → Item → Build A → Type 0
Keeps i m = (v : Vfs) → Holds v i → Holds (m v).1 i

module _ (i : Item) where
  continue-Keeps :
      {A B : Type 0} (r : Result InitramfsError A) (f : A → Build B) (v : Vfs)
      → ((a : A) → Keeps i (f a))
      → Holds v i
      → Holds (continue r f v).1 i
  continue-Keeps (ok a) f v k h = k a v h
  continue-Keeps (err e) f v k h = h
  continue-Keeps panic f v k h = h
  continue-Keeps diverge f v k h = h

  pub bind-Keeps :
      {A B : Type 0} (m : Build A) (f : A → Build B)
      → Keeps i m
      → ((a : A) → Keeps i (f a))
      → Keeps i (m >>= f)
  bind-Keeps m f k l v h = continue-Keeps (m v).0 f (m v).1 l (k v h)

  pub lift-Keeps :
      {A B : Type 0} (r : Result InitramfsError A) (f : A → Build B)
      → ((a : A) → Keeps i (f a))
      → Keeps i (lift r >>= f)
  lift-Keeps r f k v h = continue-Keeps r f v k h

  pub if-Keeps :
      {A : Type 0} (b : Bool) (m k : Build A) → Keeps i m → Keeps i k → Keeps i (if b then m else k)
  if-Keeps true m k g h = g
  if-Keeps false m k g h = h

  pub unless_contained-Keeps :
      (p : FilePath) (m : Build Unit) → Keeps i m → Keeps i (unless_contained p m)
  unless_contained-Keeps p m k v h = elim (Bool-cases (contains v p)) [
    | inl there ↦ rw there h
    | inr missing ↦ rw missing (k v h)
  ]

  pub each-Keeps :
      {A : Type 0} (act : A → Build Unit) (xs : List A)
      → ((x : A) → Keeps i (act x))
      → Keeps i (each act xs)
  unfolding each
  each-Keeps act [] k = λ v h. h
  each-Keeps act (x ∷ xs) k = bind-Keeps (act x) (λ _. each act xs) (k x) (λ _. each-Keeps act xs k)

  continue-Achieves :
      {A : Type 0} (r : Result InitramfsError A) (f : A → Build Unit) (v : Vfs)
      → ((a : A) → r ≡ ok a → (f a v).0 ≡ ok tt → Holds (f a v).1 i)
      → (continue r f v).0 ≡ ok tt
      → Holds (continue r f v).1 i
  continue-Achieves (ok a) f v g h = g a refl h
  continue-Achieves (err e) f v g h = cc
  continue-Achieves panic f v g h = cc
  continue-Achieves diverge f v g h = cc

  -- What comes last puts it.
  pub last-Achieves :
      {A : Type 0} (m : Build A) (f : A → Build Unit)
      → ((a : A) → Achieves i (f a))
      → Achieves i (m >>= f)
  last-Achieves m f g v h = continue-Achieves (m v).0 f (m v).1 (λ a _. g a (m v).1) h

  -- What comes first puts it, and it stays.
  pub first-Achieves :
      (m : Build Unit) (f : Unit → Build Unit)
      → Achieves i m
      → ((a : Unit) → Keeps i (f a))
      → Achieves i (m >>= f)
  first-Achieves m f g k v h = continue-Achieves (m v).0 f (m v).1 (λ a e _. k a (m v).1 (g v e)) h

  -- What a lookup has found decides the rest.
  pub found-Achieves :
      {A : Type 0} (r : Result InitramfsError A) (f : A → Build Unit) {a : A}
      → r ≡ ok a
      → Achieves i (f a)
      → Achieves i (lift r >>= f)
  found-Achieves r f e g v h = rw e (g v (rw e at h))

  pub each-Achieves :
      {A : Type 0} (act : A → Build Unit) (xs : List A) (x : A)
      → Among x xs
      → Achieves i (act x)
      → ((y : A) → Keeps i (act y))
      → Achieves i (each act xs)
  unfolding each
  each-Achieves act [] x m g k = absurd m
  each-Achieves act (y ∷ ys) x (inl e) g k =
      first-Achieves (act y) (λ _. each act ys) (subst (λ z. Achieves i (act z)) e g)
        (λ _. each-Keeps act ys k)
  each-Achieves act (y ∷ ys) x (inr m) g k =
      last-Achieves (act y) (λ _. each act ys) (λ _. each-Achieves act ys x m g k)

pub Holds-Grows : {v w : Vfs} (i : Item) → Grows v w → Holds v i → Holds w i
Holds-Grows (at p) g h = Grows-contains p g h
Holds-Grows (program p) g h = Grows-contains p g h
Holds-Grows (link p target) g (inl h) = inl (Grows-contains p g h)
Holds-Grows (link p target) g (inr h) = inr (Grows-contains target g h)

pub Grows-Keeps : {A : Type 0} (i : Item) (m : Build A) → GrowsUnder none m → Keeps i m
unfolding GrowsUnder
Grows-Keeps i m g v h = Holds-Grows i (g v tt) h

Holds-put :
    (i : Item) (p : FilePath) (entry : Entry) (v : Vfs) → Holds v i → Holds (put p entry v) i
Holds-put (at q) p entry v h = contains-put p q entry v h
Holds-put (program q) p entry v h = contains-put p q entry v h
Holds-put (link q target) p entry v (inl h) = inl (contains-put p q entry v h)
Holds-put (link q target) p entry v (inr h) = inr (contains-put p target entry v h)

pub create_entry-Keeps :
    (i : Item) (p : FilePath) (entry : Entry) → Keeps i (on_vfs (create_entry p entry))
unfolding create_entry
create_entry-Keeps i p entry v h = ground (arith, Holds-put i p entry v h)
