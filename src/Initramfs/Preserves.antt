-- ===== src/Initramfs/Preserves.antt =====
-- The builder of crates/elusive/src/initramfs.rs: a calculus of the methods whose success leaves
-- every program with its libraries.
use elusive.Base.{
  Among, All, ℕ, zero, suc, true, List, [], ◌∷◌, ◌≡◌, refl, ap, inl, inr, Result, ok, err, panic,
  diverge, lift, map_err, map_err-ok, continue-ok, continue, ◌>>=◌, ◌>>◌,
}
use elusive.FilePath.{FilePath}
use elusive.Vfs.{Vfs, contains}
use elusive.Initramfs.{Env, InitramfsError, Build, each, resolve_binary, add_elf}
use elusive.Initramfs.Achieves.{at, Keeps}
use elusive.Initramfs.Requests.{Linked}
use elusive.Initramfs.StaysWithin.{StaysWithin}
use elusive.Initramfs.Libraries.{Complete, Covered, add_elf-named}

add_elf-resolves :
    (env : Env) (fuel : ℕ) (name : FilePath) (v : Vfs)
    → (add_elf env fuel name v).0 ≡ ok tt
    → (p : FilePath) × (resolve_binary env name ≡ ok p)
unfolding add_elf
add_elf-resolves env zero name v h = cc
add_elf-resolves env (suc fuel) name v h =
    let (p, e, _) =
      continue-ok (resolve_binary env name) _ v
        (ap (λ x. (x, (add_elf env (suc fuel) name v).1)) h) in
    (p, e)

module _ (env : Env) (Old : FilePath → Type 0) where
  -- A success leaves the binaries that are not of the set with their libraries.
  abbrev pub Preserves : Build Unit → Type 0
  Preserves m = (v : Vfs) → (m v).0 ≡ ok tt → Complete env Old [] v → Complete env Old [] (m v).1

  continue-Preserves :
      {A : Type 0} (r : Result InitramfsError A) (f : A → Build Unit) (v : Vfs)
      → ((a : A) → r ≡ ok a → Preserves (f a) × Complete env Old [] v)
      → (continue r f v).0 ≡ ok tt
      → Complete env Old [] (continue r f v).1
  continue-Preserves (ok a) f v g h = let (k, c) = g a refl in k v h c
  continue-Preserves (err e) f v g h = cc
  continue-Preserves panic f v g h = cc
  continue-Preserves diverge f v g h = cc

  pub then-Preserves : (m k : Build Unit) → Preserves m → Preserves k → Preserves (m >> k)
  then-Preserves m k g l v h c = continue-Preserves (m v).0 (λ _. k) (m v).1 (λ _ e. (l, g v e c)) h

  -- A lookup, with what it has found.
  pub lift-Preserves :
      {D A : Type 0} (f : D → InitramfsError) (r : Result D A) (g : A → Build Unit)
      → ((a : A) → r ≡ ok a → Preserves (g a))
      → Preserves (lift (map_err f r) >>= g)
  lift-Preserves f r g k v h c =
      continue-Preserves (map_err f r) g v (λ a e. (k a (map_err-ok f r e), c)) h

  pub lift_plain-Preserves :
      {A : Type 0} (r : Result InitramfsError A) (g : A → Build Unit)
      → ((a : A) → r ≡ ok a → Preserves (g a))
      → Preserves (lift r >>= g)
  lift_plain-Preserves r g k v h c = continue-Preserves r g v (λ a e. (k a e, c)) h

  pub each-Preserves :
      {A : Type 0} (act : A → Build Unit) (xs : List A)
      → ((x : A) → Among x xs → Preserves (act x))
      → Preserves (each act xs)
  unfolding each
  each-Preserves act [] g = λ v h c. c
  each-Preserves act (x ∷ xs) g =
      then-Preserves (act x) (each act xs) (g x (inl refl))
        (each-Preserves act xs λ y m. g y (inr m))

  kept :
      (m : Build Unit) (v : Vfs) (ls : List FilePath)
      → ((l : FilePath) → Keeps (at l) m)
      → All (λ l. contains v l ≡ true) ls
      → All (λ l. contains (m v).1 l ≡ true) ls
  kept m v [] k h = tt
  kept m v (l ∷ ls) k (h, hs) = (k l v h, kept m v ls k hs)

  -- What adds paths of the set only, and takes none away.
  pub frame-Preserves :
      (m : Build Unit) → StaysWithin Old m → ((l : FilePath) → Keeps (at l) m) → Preserves m
  frame-Preserves m s k v h c q needed there old found = elim (s v q there) [
    | inl before ↦ elim (c q needed before old found) [
      | inl open_ ↦ inl open_
      | inr a ↦ inr (kept m v needed k a)
    ]
    | inr o ↦ absurd (old o)
  ]

  pub add_elf-Preserves :
      (fuel : ℕ) (name : FilePath)
      → ((p : FilePath)
          → resolve_binary env name ≡ ok p
          → (q : FilePath) → Linked env q p
          → Covered env Old q)
      → Preserves (add_elf env fuel name)
  add_elf-Preserves fuel name g v h c =
      let (p, r) = add_elf-resolves env fuel name v h in
      (add_elf-named env Old fuel name p v (add_elf env fuel name v).1 r (g p r) c
        (ap (λ x. (x, (add_elf env fuel name v).1)) h)).0
