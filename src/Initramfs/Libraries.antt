-- ===== src/Initramfs/Libraries.antt =====
-- Initramfs.add_elf of crates/elusive/src/initramfs.rs: the libraries that come with a binary.
use elusive.Base.{
  ok-injective, ℕ, zero, suc, true, false, none, List, [], ◌∷◌, ◌≡◌, ◌≢◌, refl, sym, ap, ◌∙◌, inl,
  inr, ◌⊎◌, Bool-cases, All, Among, All_Among, ok, continue-ok, lift, map_err, map_err-ok, ◌>>=◌,
  ◌>>◌,
}
use mathlib.Core.Path.{subst}
use elusive.FilePath.{FilePath, parent, path_ord, is_absolute}
use elusive.Elf.{linked_libraries}
use elusive.Elf.Needed.{IsLibrary, linked_libraries-exist}
use elusive.Vfs.{Vfs, contains}
use elusive.Vfs.Growth.{Grows, here, Grows-trans, Grows-contains}
use elusive.Initramfs.{Env, elf_failed, each, put_binary, resolve_binary, add_elf}
use elusive.Initramfs.Growth.{GrowsUnder, put_binary-Grows}
use elusive.Initramfs.Steps.{add_elf-Grows}
use elusive.Initramfs.Elves.{put_binary-Establishes}
use elusive.Initramfs.Requests.{Linked}
use elusive.Initramfs.Binaries.{above, put_binary-added, put_binary-exists}

-- A file that the object crate reads the libraries of is no directory above a file that exists.
abbrev pub LeafFiles : Env → Type 0
LeafFiles env =
    (p q : FilePath) (needed : List FilePath)
    → env.host.exists p ≡ true
    → Among q (above (parent p))
    → linked_libraries env.host env.object q ≢ ok needed

module _ (env : Env) (Old : FilePath → Type 0) where
  -- What is not of the set has its libraries, but for the binaries that are being added.
  abbrev pub Complete : List FilePath → Vfs → Type 0
  Complete open_ v =
      (q : FilePath) (needed : List FilePath)
      → contains v q ≡ true
      → (Old q → ⊥)
      → linked_libraries env.host env.object q ≡ ok needed
      → Among q open_ ⊎ All (λ l. contains v l ≡ true) needed

  -- The directories above a file that can be read as binaries are of the set.
  abbrev pub Covered : FilePath → Type 0
  Covered p =
      env.host.exists p ≡ true
      → (q : FilePath) (needed : List FilePath) → Among q (above (parent p))
      → linked_libraries env.host env.object q ≡ ok needed
      → Old q

  -- What a successful call does to the invariant.
  abbrev pub Adds : ℕ → Type 0
  Adds fuel =
      (open_ : List FilePath) (p : FilePath) (v w : Vfs)
      → is_absolute p ≡ true
      → ((q : FilePath) → Linked env q p → Covered q)
      → Complete open_ v
      → add_elf env fuel p v ≡ (ok tt, w)
      → Complete open_ w × (contains w p ≡ true)

  contained-All :
      {v w : Vfs} (ls : List FilePath)
      → Grows v w
      → All (λ l. contains v l ≡ true) ls
      → All (λ l. contains w l ≡ true) ls
  contained-All [] g h = tt
  contained-All (l ∷ ls) g (h, hs) = (Grows-contains l g h, contained-All ls g hs)

  -- Putting a binary opens it.
  put_binary-Complete :
      (open_ : List FilePath) (p : FilePath) (v : Vfs)
      → Covered p
      → Complete open_ v
      → env.host.exists p ≡ true
      → Complete (p ∷ open_) (put_binary env p v).1
  unfolding GrowsUnder
  put_binary-Complete open_ p v covered c there q needed h old l =
      elim (put_binary-added env p q v h) [
        | inl before ↦ elim (c q needed before old l) [
          | inl m ↦ inl (inr m)
          | inr a ↦ inr (contained-All needed (put_binary-Grows env none p v tt) a)
        ]
        | inr (inl e) ↦ inl (inl e)
        | inr (inr m) ↦ absurd (old (covered there q needed m l))
      ]

  -- A binary whose libraries are there is closed.
  close :
      (open_ : List FilePath) (p : FilePath) (v : Vfs) (needed : List FilePath)
      → linked_libraries env.host env.object p ≡ ok needed
      → All (λ l. contains v l ≡ true) needed
      → Complete (p ∷ open_) v
      → Complete open_ v
  close open_ p v needed l a c q needed' h old l' = elim (c q needed' h old l') [
    | inl (inl e) ↦ inr (
        subst (All (λ l. contains v l ≡ true))
          (ok-injective
            (sym l ∙ subst (λ x. linked_libraries env.host env.object x ≡ ok needed') e l'))
          a)
    | inl (inr m) ↦ inl m
    | inr a' ↦ inr a'
  ]

  each-Adds :
      (fuel : ℕ) (open_ : List FilePath) (ls : List FilePath) (v w : Vfs)
      → Adds fuel
      → All (IsLibrary env.host) ls
      → ((l q : FilePath) → Among l ls → is_absolute l ≡ true → Linked env q l → Covered q)
      → Complete open_ v
      → each (add_elf env fuel) ls v ≡ (ok tt, w)
      → Grows v w × Complete open_ w × All (λ l. contains w l ≡ true) ls
  unfolding each GrowsUnder
  each-Adds fuel open_ [] v w ih a k c e =
      let d : v ≡ w = ap (λ r. r.1) e in (subst (Grows v) d here, subst (Complete open_) d c, tt)
  each-Adds fuel open_ (l ∷ ls) v w ih ((_, a), as') k c e =
      let first = add_elf env fuel l v in
      let (_, e₁, f) = continue-ok first.0 (λ _. each (add_elf env fuel) ls) first.1 e in
      let (c₁, there) =
        ih open_ l v first.1 a (λ q n. k l q (inl refl) a n) c (ap (λ r. (r, first.1)) e₁) in
      let (g, c₂, all) = each-Adds fuel open_ ls first.1 w ih as' (λ x q m. k x q (inr m)) c₁ f in
      (Grows-trans (add_elf-Grows env none fuel l v tt) g, c₂, (Grows-contains l g there, all))

  -- What follows once the path is known not to be there.
  put-Adds :
      (fuel : ℕ) (open_ : List FilePath) (p : FilePath) (v w : Vfs)
      → Adds fuel
      → ((q : FilePath) → Linked env q p → Covered q)
      → Complete open_ v
      → (put_binary env p
            >> (lift (map_err elf_failed (linked_libraries env.host env.object p))
                >>= each (add_elf env fuel)))
          v
        ≡ (ok tt, w)
      → Complete open_ w × (contains w p ≡ true)
  put-Adds fuel open_ p v w ih k c e =
      let put = put_binary env p v in
      let (_, e₁, f) = continue-ok put.0 _ put.1 e in
      let (needed, e₂, g) =
        continue-ok (map_err elf_failed (linked_libraries env.host env.object p)) _ put.1 f in
      let l = map_err-ok elf_failed (linked_libraries env.host env.object p) e₂ in
      let (grows, c₁, all) =
        each-Adds fuel (p ∷ open_) needed put.1 w ih
          (linked_libraries-exist env.host env.object p needed l)
          (λ x q m a n. k q (Linked.library p x x needed l m (rw a refl) n))
          (put_binary-Complete open_ p v (k p Linked.this) c
            (put_binary-exists env p v put.1 (ap (λ r. (r, put.1)) e₁)))
          g in
      (close open_ p w needed l all c₁, Grows-contains p grows (put_binary-Establishes env p v e₁))

  add_elf-Adds : (fuel : ℕ) → Adds fuel
  unfolding add_elf
  add_elf-Adds zero open_ p v w a k c e = cc (ap (λ r. r.0) e)
  add_elf-Adds (suc fuel) open_ p v w a k c e = elim (Bool-cases (contains v p)) [
    | inl there ↦
        let d : v ≡ w = ap (λ r. r.1) (rw (a, there) at e) in
        (subst (Complete open_) d c, subst (λ x. contains x p ≡ true) d there)
    | inr free ↦ put-Adds fuel open_ p v w (add_elf-Adds fuel) k c (rw (a, free) at e)
  ]

  -- By a name that is resolved first.
  pub add_elf-named :
      (fuel : ℕ) (name p : FilePath) (v w : Vfs)
      → resolve_binary env name ≡ ok p
      → ((q : FilePath) → Linked env q p → Covered q)
      → Complete [] v
      → add_elf env fuel name v ≡ (ok tt, w)
      → Complete [] w × (contains w p ≡ true)
  unfolding add_elf
  add_elf-named zero name p v w r k c e = cc (ap (λ x. x.0) e)
  add_elf-named (suc fuel) name p v w r k c e = elim (Bool-cases (contains v p)) [
    | inl old ↦
        let d : v ≡ w = ap (λ x. x.1) (rw (r, old) at e) in
        (subst (Complete []) d c, subst (λ x. contains x p ≡ true) d old)
    | inr free ↦ put-Adds fuel [] p v w (add_elf-Adds fuel) k c (rw (r, free) at e)
  ]

-- What a binary needs, directly or through libraries, where a path that `v` holds is not followed.
pub data Needs (env : Env) (v : Vfs) (p : FilePath) : FilePath → Type 0 where
  itself : Needs env v p p
  library :
      {q : FilePath}
      → Needs env v p q
      → contains v q ≡ false
      → (needed : List FilePath) → linked_libraries env.host env.object q ≡ ok needed
      → (l : FilePath) → Among l needed
      → Needs env v p l

Needs-contained :
    (env : Env) (v w : Vfs) (p q : FilePath)
    → Complete env (λ x. contains v x ≡ true) [] w
    → contains w p ≡ true
    → Needs env v p q
    → contains w q ≡ true
Needs-contained env v w p q c h itself = h
Needs-contained env v w p q c h (library {q = r} n old needed l _ m) =
    elim (c r needed (Needs-contained env v w p r c h n) (λ o. cc) l) [
      | inl none_open ↦ absurd none_open
      | inr a ↦ All_Among (λ k. contains w k ≡ true) needed q m a
    ]

-- after a call of add_elf that succeeds, the filesystem holds the binary, as its name resolves,
-- and every library that it needs, directly or through other libraries; the libraries of a path
-- that was there before are not followed. No directory above a file that exists may be readable as
-- a binary.
pub add_elf_complete :
    (env : Env) (fuel : ℕ) (name p q : FilePath) (v w : Vfs)
    → LeafFiles env
    → resolve_binary env name ≡ ok p
    → add_elf env fuel name v ≡ (ok tt, w)
    → Needs env v p q
    → contains w q ≡ true
add_elf_complete env fuel name p q v w leaf r e n =
    let (c, there) =
      add_elf-named env (λ x. contains v x ≡ true) fuel name p v w r
        (λ x _ exists y needed m l. absurd (leaf x y needed exists m l))
        (λ x needed h o l. absurd (o h)) e in
    Needs-contained env v w p q c there n
