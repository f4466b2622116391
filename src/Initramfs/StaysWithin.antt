-- ===== src/Initramfs/StaysWithin.antt =====
-- The builder of crates/elusive/src/initramfs.rs: a calculus of the paths that its methods may add.
use elusive.Base.{
  Bool, true, false, Option, none, some, List, [], ◌∷◌, ◌≡◌, refl, sym, inl, inr, ◌⊎◌, Among,
  Result, ok, err, panic, diverge, lift, map_err, continue, ◌>>=◌, if◌then◌else◌, Bool-cases, pure,
  throw, arith,
}
use mathlib.Core.Path.{subst}
use elusive.Base.Order.{eq_cases}
use elusive.FilePath.{FilePath, path_ord, parent}
use elusive.FilePath.Prefixes.{from_top}
use elusive.Host.{not_found}
use elusive.Entry.{Entry, try_from}
use elusive.Vfs.{Vfs, contains, create_dir_all, create_entry}
use elusive.Vfs.CreateAll.{create_dir_all-frame}
use elusive.Vfs.Growth.{contains-put_inv}
use elusive.Initramfs.{
  Env, InitramfsError, Build, input_output, on_vfs, each, unless_contained, create_parent,
  copy_file, check_exists, put_binary,
}
use elusive.Initramfs.Binaries.{above, Among-or_apart, contains_same}

-- A path after the call was there before, or is one of the set; also when the call fails.
abbrev pub StaysWithin : {A : Type 0} → (FilePath → Type 0) → Build A → Type 0
StaysWithin S m = (v : Vfs) (q : FilePath) → contains (m v).1 q ≡ true → (contains v q ≡ true) ⊎ S q

-- The set holds, with a path, the directories above it.
pub record IsUpward (S : FilePath → Type 0) : Type 0 where
  pub within : (p q : FilePath) → S p → Among q (from_top p) → S q
  pub above_it : (p q : FilePath) → S p → Among q (above (parent p)) → S q

module _ (S : FilePath → Type 0) where
  pub continue-StaysWithin :
      {A B : Type 0} (r : Result InitramfsError A) (f : A → Build B)
      → ((a : A) → r ≡ ok a → StaysWithin S (f a))
      → StaysWithin S (continue r f)
  continue-StaysWithin (ok a) f g = g a refl
  continue-StaysWithin (err e) f g = λ v q h. inl h
  continue-StaysWithin panic f g = λ v q h. inl h
  continue-StaysWithin diverge f g = λ v q h. inl h

  pub bind-StaysWithin :
      {A B : Type 0} (m : Build A) (f : A → Build B)
      → StaysWithin S m
      → ((a : A) → StaysWithin S (f a))
      → StaysWithin S (m >>= f)
  bind-StaysWithin m f g k v q h = elim (continue-StaysWithin (m v).0 f (λ a _. k a) (m v).1 q h) [
    | inl there ↦ g v q there
    | inr s ↦ inr s
  ]

  -- A lookup, with what it has found.
  pub lift-StaysWithin :
      {D A B : Type 0} (f : D → InitramfsError) (r : Result D A) (g : A → Build B)
      → ((a : A) → r ≡ ok a → StaysWithin S (g a))
      → StaysWithin S (lift (map_err f r) >>= g)
  lift-StaysWithin f (ok a) g k = k a refl
  lift-StaysWithin f (err e) g k = λ v q h. inl h
  lift-StaysWithin f panic g k = λ v q h. inl h
  lift-StaysWithin f diverge g k = λ v q h. inl h

  pub lift_plain-StaysWithin :
      {A B : Type 0} (r : Result InitramfsError A) (g : A → Build B)
      → ((a : A) → r ≡ ok a → StaysWithin S (g a))
      → StaysWithin S (lift r >>= g)
  lift_plain-StaysWithin r g k v q h = continue-StaysWithin r g k v q h

  pub if-StaysWithin :
      {A : Type 0} (b : Bool) (m k : Build A)
      → (b ≡ true → StaysWithin S m)
      → (b ≡ false → StaysWithin S k)
      → StaysWithin S (if b then m else k)
  if-StaysWithin true m k g h = g refl
  if-StaysWithin false m k g h = h refl

  pub unless_contained-StaysWithin :
      (p : FilePath) (m : Build Unit) → StaysWithin S m → StaysWithin S (unless_contained p m)
  unless_contained-StaysWithin p m g v q h = elim (Bool-cases (contains v p)) [
    | inl there ↦ inl (rw there at h)
    | inr missing ↦ g v q (rw missing at h)
  ]

  pub each-StaysWithin :
      {A : Type 0} (act : A → Build Unit) (xs : List A)
      → ((x : A) → Among x xs → StaysWithin S (act x))
      → StaysWithin S (each act xs)
  unfolding each
  each-StaysWithin act [] g = λ v q h. inl h
  each-StaysWithin act (x ∷ xs) g =
      bind-StaysWithin (act x) (λ _. each act xs) (g x (inl refl))
        (λ _. each-StaysWithin act xs (λ y m. g y (inr m)))

  pub create_entry-StaysWithin :
      (p : FilePath) (entry : Entry) → S p → StaysWithin S (on_vfs (create_entry p entry))
  unfolding create_entry
  create_entry-StaysWithin p entry s v q h = elim (eq_cases q p) [
    | inl same ↦ inr (subst S (sym same) s)
    | inr other ↦ inl (ground (arith, contains-put_inv p q entry v other))
  ]

  pub create_dir_all-StaysWithin :
      (dir : FilePath)
      → ((q : FilePath) → Among q (from_top dir) → S q)
      → StaysWithin S (on_vfs (create_dir_all dir))
  create_dir_all-StaysWithin dir s v q h = elim (Among-or_apart q (from_top dir)) [
    | inl m ↦ inr (s q m)
    | inr apart ↦
        inl (contains_same v (create_dir_all dir v).1 q (create_dir_all-frame dir q v apart) h)
  ]

  module _ (up : IsUpward S) where
    pub create_parent-StaysWithin : (p : FilePath) → S p → StaysWithin S (create_parent (parent p))
    create_parent-StaysWithin p s = made (parent p) (up.above_it p)
      where
        made :
            (o : Option FilePath)
            → ((q : FilePath) → S p → Among q (above o) → S q)
            → StaysWithin S (create_parent o)
        made none g = λ v q h. inl h
        made (some dir) g = create_dir_all-StaysWithin dir (λ q. g q s)

    module _ (env : Env) where
      pub check_exists-StaysWithin : (p : FilePath) → StaysWithin S (check_exists env p)
      check_exists-StaysWithin p =
          if-StaysWithin (env.host.exists p) (pure tt) (throw (input_output (not_found p)))
            (λ _ v q h. inl h) (λ _ v q h. inl h)

      pub copy_file-StaysWithin :
          (source dest : FilePath) → S dest → StaysWithin S (copy_file env source dest)
      copy_file-StaysWithin source dest s =
          lift-StaysWithin input_output (env.host.open_file source) _ λ file _.
            lift-StaysWithin input_output (try_from file) _
              λ entry _. create_entry-StaysWithin dest entry s

      pub put_binary-StaysWithin : (p : FilePath) → S p → StaysWithin S (put_binary env p)
      put_binary-StaysWithin p s =
          bind-StaysWithin (create_parent (parent p)) _ (create_parent-StaysWithin p s) λ _.
            bind-StaysWithin (check_exists env p) _ (check_exists-StaysWithin p)
              λ _. copy_file-StaysWithin p p s
