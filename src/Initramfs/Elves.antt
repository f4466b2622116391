-- ===== src/Initramfs/Elves.antt =====
-- Initramfs.add_elf of crates/elusive/src/initramfs.rs: how deep its recursion goes.
use elusive.Base.{
  ℕ, zero, suc, ◌≤◌, ◌<◌, Bool, true, false, none, List, [], ◌∷◌, ◌≡◌, ◌≢◌, inl, inr, Bool-cases,
  All, Among, arith, length, if◌then◌else◌, ok, diverge, lift, pure, throw, map_err-ok, map_err,
  ◌>>=◌, ◌>>◌,
}
use mathlib.Core.Path.{subst}
use elusive.FilePath.{FilePath, parent, is_absolute, path_ord}
use elusive.Host.{not_found}
use elusive.Elf.{linked_libraries}
use elusive.Vfs.{Vfs, contains}
use elusive.Vfs.Growth.{Grows, Grows-contains}
use elusive.Initramfs.{
  Env, input_output, elf_failed, each, create_parent, copy_file, put_binary, resolve_binary,
  add_elf,
}
use elusive.Initramfs.Growth.{GrowsUnder, put_binary-Grows}
use elusive.Initramfs.Ends.{
  Answers, continue-ends, map_err-ends, resolve_binary-ends, linked_libraries-ends, put_binary-ends,
}
use elusive.Initramfs.Steps.{add_elf-Grows}
use elusive.Initramfs.Files.{Establishes, continue-Establishes, copy_file-Establishes}

-- How many of the paths are not in the filesystem yet.
abbrev pub missing : Vfs → List FilePath → ℕ
missing v [] = 0
missing v (p ∷ ps) = if contains v p then missing v ps else suc (missing v ps)

missing_bound : (v : Vfs) (ps : List FilePath) → missing v ps ≤ length ps
missing_bound v [] = omega arith
missing_bound v (p ∷ ps) = ground (arith, missing_bound v ps)

missing-Grows : {v w : Vfs} (ps : List FilePath) → Grows v w → missing w ps ≤ missing v ps
missing-Grows [] g = omega arith
missing-Grows (p ∷ ps) g = ground (arith, missing-Grows ps g, Grows-contains p g)

missing_lt :
    {v w : Vfs} (p : FilePath) (ps : List FilePath)
    → Grows v w
    → Among p ps
    → contains v p ≡ false
    → contains w p ≡ true
    → missing w ps < missing v ps
missing_lt p [] g m a b = absurd m
missing_lt {v} {w} p (q ∷ ps) g (inl e) a b =
    rw (subst (λ x. contains v x ≡ false) e a, subst (λ x. contains w x ≡ true) e b)
      (ground (arith, missing-Grows ps g))
missing_lt p (q ∷ ps) g (inr m) a b = ground (arith, missing_lt p ps g m a b, Grows-contains q g)

-- The paths are absolute, and the libraries that one of them needs are among them.
pub record IsClosed (env : Env) (ps : List FilePath) : Type 0 where
  pub absolute : (p : FilePath) → Among p ps → is_absolute p ≡ true
  pub libraries :
      (p : FilePath) (needed : List FilePath)
      → Among p ps
      → linked_libraries env.host env.object p ≡ ok needed
      → All (λ l. Among l ps) needed

pub put_binary-Establishes : (env : Env) (p : FilePath) → Establishes p (put_binary env p)
put_binary-Establishes env p v h =
    continue-Establishes p (create_parent (parent p) v).0 _ (create_parent (parent p) v).1
      (λ _ w e. checked (env.host.exists p) w e) h
  where
    checked :
        (there : Bool)
        → Establishes p
            ((if there then pure tt else throw (input_output (not_found p))) >> copy_file env p p)
    checked true w e = copy_file-Establishes env p p w e
    checked false w e = cc

module _ (env : Env) (ps : List FilePath) (answers : Answers env) (closed : IsClosed env ps) where
  abbrev Ends : ℕ → Type 0
  Ends fuel =
      (p : FilePath) (v : Vfs)
      → Among p ps
      → missing v ps < fuel
      → (add_elf env fuel p v).0 ≢ diverge

  libraries-Ends :
      (fuel : ℕ) (libraries : List FilePath) (v : Vfs)
      → Ends fuel
      → All (λ l. Among l ps) libraries
      → missing v ps < fuel
      → (each (add_elf env fuel) libraries v).0 ≢ diverge
  unfolding each GrowsUnder
  libraries-Ends fuel [] v ih a h = λ d. cc
  libraries-Ends fuel (l ∷ libraries) v ih (m, a) h =
      continue-ends (add_elf env fuel l v).0 (λ _. each (add_elf env fuel) libraries)
        (add_elf env fuel l v).1 (ih l v m h)
        λ _ _.
          libraries-Ends fuel libraries (add_elf env fuel l v).1 ih a
            (omega (arith, missing-Grows ps (add_elf-Grows env none fuel l v tt)))

  -- What follows once the binary is put.
  put-Ends :
      (fuel : ℕ) (p : FilePath) (v : Vfs)
      → Ends fuel
      → Among p ps
      → contains v p ≡ false
      → missing v ps < suc fuel
      → ((put_binary env p
            >> (lift (map_err elf_failed (linked_libraries env.host env.object p))
                >>= each (add_elf env fuel)))
          v).0
        ≢ diverge
  unfolding GrowsUnder
  put-Ends fuel p v ih m free h =
      continue-ends (put_binary env p v).0 _ (put_binary env p v).1
        (put_binary-ends env answers p v)
        λ _ done.
          continue-ends (map_err elf_failed (linked_libraries env.host env.object p)) _
            (put_binary env p v).1
            (map_err-ends elf_failed (linked_libraries env.host env.object p)
              (linked_libraries-ends env answers p))
            λ needed e.
              libraries-Ends fuel needed (put_binary env p v).1 ih
                (closed.libraries p needed m
                  (map_err-ok elf_failed (linked_libraries env.host env.object p) e))
                (omega (
                  arith,
                  missing_lt p ps (put_binary-Grows env none p v tt) m free
                      (put_binary-Establishes env p v done),
                ))

  add_elf-Ends : (fuel : ℕ) → Ends fuel
  unfolding add_elf
  add_elf-Ends zero p v m h = absurd (omega arith)
  add_elf-Ends (suc fuel) p v m h = rw (closed.absolute p m) (elim (Bool-cases (contains v p)) [
    | inl there ↦ rw there (λ d. cc)
    | inr free ↦ rw free (put-Ends fuel p v (add_elf-Ends fuel) m free h)
  ])

-- the recursion of add_elf through the needed libraries comes to an end, also when libraries need
-- each other: fuel above the number of a finite set of absolute paths is enough, if the set holds
-- the binary and, with a binary, the libraries that it needs, and if every call of the machine and
-- of the object crate returns.
pub add_elf_terminates :
    (env : Env) (ps : List FilePath) (name : FilePath) (v : Vfs) (fuel : ℕ)
    → Answers env
    → IsClosed env ps
    → ((p : FilePath) → resolve_binary env name ≡ ok p → Among p ps)
    → length ps < fuel
    → (add_elf env fuel name v).0 ≢ diverge
unfolding add_elf
add_elf_terminates env ps name v zero answers closed start h = absurd (omega arith)
add_elf_terminates env ps name v (suc fuel) answers closed start h =
    continue-ends (resolve_binary env name) _ v (resolve_binary-ends env name) λ p e.
      elim (Bool-cases (contains v p)) [
        | inl there ↦ rw there (λ d. cc)
        | inr free ↦ rw free (
            put-Ends env ps answers closed fuel p v (add_elf-Ends env ps answers closed fuel)
              (start p e) free (omega (arith, missing_bound v ps)))
      ]
