-- ===== src/Io/Frame.antt =====
-- crates/elusive/src/io.rs: the files that an output changes.
use elusive.Base.{
  [], ◌≡◌, ◌≢◌, refl, arith, Bytes, Bool-cases, inl, inr, Result, ok, err, panic, diverge, continue,
}
use elusive.Base.Order.{same}
use elusive.FilePath.{FilePath, path_ord, parent}
use elusive.Host.{Host, IoError}
use elusive.OrdMap.{get}
use elusive.OrdMap.Laws.{get-insert_ne}
use elusive.Io.{
  Machine, Drive, Output, standard, created, dash, absolute_path, parent_exists, create_below,
  output_from_path, hold, set_file, input_from_path,
}

-- Writing to the output does not change the file.
abbrev pub Avoids : FilePath → Output → Type 0
Avoids q standard = Unit
Avoids q (created at_) = q ≢ at_

pub hold-Avoids :
    (q : FilePath) (output : Output) (bytes : Bytes) (w : Drive)
    → Avoids q output
    → get q (hold output bytes w).files ≡ get q w.files
unfolding hold
hold-Avoids q standard bytes w a = refl
hold-Avoids q (created at_) bytes w a = get-insert_ne q at_ bytes w.files a

-- Nothing is read that is written here.
pub input_from_path-same :
    (h : Host) (m : Machine) (p : FilePath) (w : Drive) → (input_from_path h m p w).1 ≡ w
unfolding input_from_path
input_from_path-same h m p w = ground arith

-- The file is not the one that the output path leads to.
abbrev pub Elsewhere : Machine → FilePath → FilePath → Type 0
Elsewhere m output q = (p : FilePath) → absolute_path m output ≡ ok p → q ≢ m.locate p

-- The call leaves the file alone, and its output will.
abbrev pub Leaves : FilePath → Drive → Result IoError Output × Drive → Type 0
Leaves q w (ok output, w') = (get q w'.files ≡ get q w.files) × Avoids q output
Leaves q w (err e, w') = get q w'.files ≡ get q w.files
Leaves q w (panic, w') = get q w'.files ≡ get q w.files
Leaves q w (diverge, w') = get q w'.files ≡ get q w.files

create-Leaves :
    (m : Machine) (p q : FilePath) (w : Drive) (r : Result IoError Unit)
    → q ≢ m.locate p
    → Leaves q w
        (continue {A = Unit} r (λ _ w'. (ok (created (m.locate p)), set_file (m.locate p) [] w')) w)
create-Leaves m p q w (ok a) n = (get-insert_ne q (m.locate p) [] w.files n, n)
create-Leaves m p q w (err e) n = refl
create-Leaves m p q w panic n = refl
create-Leaves m p q w diverge n = refl

create_below-Leaves :
    (h : Host) (m : Machine) (p q : FilePath) (w : Drive)
    → q ≢ m.locate p
    → Leaves q w (create_below h m p w)
create_below-Leaves h m p q w n = elim (Bool-cases (parent_exists h (parent p))) [
  | inl there ↦ rw there (create-Leaves m p q w (m.create p) n)
  | inr missing ↦ rw missing refl
]

absolute-Leaves :
    (h : Host) (m : Machine) (q : FilePath) (w : Drive) (r : Result IoError FilePath)
    → ((p : FilePath) → r ≡ ok p → q ≢ m.locate p)
    → Leaves q w (continue r (λ p. create_below h m p) w)
absolute-Leaves h m q w (ok p) n = create_below-Leaves h m p q w (n p refl)
absolute-Leaves h m q w (err e) n = refl
absolute-Leaves h m q w panic n = refl
absolute-Leaves h m q w diverge n = refl

pub output_from_path-Leaves :
    (h : Host) (m : Machine) (output q : FilePath) (w : Drive)
    → Elsewhere m output q
    → Leaves q w (output_from_path h m output w)
unfolding output_from_path
output_from_path-Leaves h m output q w n = elim (Bool-cases (same output dash)) [
  | inl dashed ↦ rw dashed (refl, tt)
  | inr other ↦ rw other (absolute-Leaves h m q w (absolute_path m output) n)
]
