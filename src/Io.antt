-- ===== src/Io.antt =====
-- crates/elusive/src/io.rs: the input and the output of the program, a file or a standard stream.
-- `Drive` is what the files of the machine hold that the program has created.
pub mod Frame
pub mod Buffer
use elusive.Base.{
  ℕ, take, Bool, true, false, not, ◌||◌, Option, none, some, List, [], ◌∷◌, ◌++◌, ◌≡◌, Bytes, codes,
  if◌then◌else◌, Result, ok, err, and_then, map_ok, Exec, lift, throw, ◌>>=◌, ◌>>◌,
}
use elusive.Base.Order.{same}
use elusive.FilePath.{FilePath, Component, normal, path_ord, parent, join, is_absolute}
use elusive.Host.{Host, IoError, not_found}
use elusive.OrdMap.{OrdMap, get, insert}

-- An output: standard output, or a file by where it is.
pub data Output : Type 0 where
  standard : Output
  created : FilePath → Output

-- What the calls of `read` bring, one after the other, and how they end.
pub record Stream : Type 0 where
  pub chunks : List Bytes
  pub ending : Result IoError Unit

-- The calls on the machine that `Host` has not. `locate` is the file that a path leads to, by
-- the working directory and through links; `create` says whether `File::create` succeeds; `accept`
-- is what a call of `write` answers, by the output, what it has taken before and the bytes;
-- `divide` is how the calls of `read` divide what a created file holds.
pub record Machine : Type 0 where
  pub is_file : FilePath → Bool
  pub is_dir : FilePath → Bool
  pub current_dir : Result IoError FilePath
  pub create : FilePath → Result IoError Unit
  pub locate : FilePath → FilePath
  pub stdin : Stream
  pub open_input : FilePath → Result IoError Stream
  pub divide : Bytes → List Bytes
  pub accept : Output → Bytes → Bytes → Result IoError ℕ

-- What the program has written: to standard output, and to the files that it has created.
pub record Drive : Type 0 where
  pub stdout : Bytes
  pub files : OrdMap FilePath Bytes

-- What a created file holds.
abbrev pub written : Machine → Drive → FilePath → Option Bytes
written m w p = get (m.locate p) w.files

-- The file behind a located path gets another content.
abbrev pub set_file : FilePath → Bytes → Drive → Drive
set_file at_ bytes w = record w { files = insert at_ bytes w.files }

-- The path `-`
abbrev pub dash : FilePath
dash = normal (codes "-") ∷ []

pub data Input : Type 0 where
  standard : Input
  opened : Stream → Input

-- `Path::exists`, created files counted in.
abbrev pub exists_now : Host → Machine → Drive → FilePath → Bool
exists_now h m w p = elim (written m w p) [ some _ ↦ true | none ↦ h.exists p ]

-- `File::open`, created files counted in.
abbrev pub open_now : Machine → Drive → FilePath → Result IoError Input
open_now m w p = elim (written m w p) [
  | some bytes ↦ ok (opened (record { chunks = m.divide bytes; ending = ok tt }))
  | none ↦ map_ok opened (m.open_input p)
]

-- `Input::from_path`
unfoldable pub input_from_path : Host → Machine → FilePath → Exec Drive IoError Input
unfolding get
input_from_path h m p w =
    if same p dash
    then (ok standard, w)
    else if not (exists_now h m w p)
    then (err (not_found p), w)
    else (open_now m w p, w)

-- `Read for Input`
unfoldable pub reads : Machine → Input → Stream
reads m standard = m.stdin
reads m (opened stream) = stream

-- `let absolute = …`
abbrev pub absolute_path : Machine → FilePath → Result IoError FilePath
absolute_path m p = if is_absolute p then ok p else map_ok (λ dir. join dir p) m.current_dir

-- `absolute.parent().map(Path::exists).unwrap_or(false)`
abbrev pub parent_exists : Host → Option FilePath → Bool
parent_exists h none = false
parent_exists h (some dir) = h.exists dir

-- `File::create`: the file is empty afterwards.
abbrev pub create_file : Machine → FilePath → Exec Drive IoError Output
create_file m p = do
  _ ← lift (m.create p)
  λ w. (ok (created (m.locate p)), set_file (m.locate p) [] w)

-- `if !absolute.parent()…`, and the file.
abbrev pub create_below : Host → Machine → FilePath → Exec Drive IoError Output
create_below h m p = if parent_exists h (parent p) then create_file m p else throw (not_found p)

-- `Output::from_path`
unfoldable pub output_from_path : Host → Machine → FilePath → Exec Drive IoError Output
unfolding join parent insert
output_from_path h m p =
    if same p dash
    then (λ w. (ok standard, w))
    else do absolute ← lift (absolute_path m p); create_below h m absolute

abbrev pub or_empty : Option Bytes → Bytes
or_empty none = []
or_empty (some bytes) = bytes

-- What the output has taken before.
abbrev pub held_by : Output → Drive → Bytes
held_by standard w = w.stdout
held_by (created at_) w = or_empty (get at_ w.files)

-- The output has taken these bytes in all.
unfoldable pub hold : Output → Bytes → Drive → Drive
unfolding insert
hold standard bytes w = record w { stdout = bytes }
hold (created at_) bytes w = set_file at_ bytes w

abbrev pub taken : Result IoError ℕ → Bytes → Bytes
taken (ok n) bytes = take n bytes
taken _ bytes = []

-- `Write for Output`, on what the output has taken: it takes as many bytes as it answers.
unfoldable pub write : Machine → Output → Bytes → Exec Bytes IoError ℕ
write m output bytes held = let r = m.accept output held bytes in (r, held ++ taken r bytes)
