-- ===== src/Initramfs/Copies.antt =====
-- The copies of files in crates/elusive/src/initramfs.rs: what the entry holds.
use elusive.Base.{
  true, false, none, some, [], ◌∷◌, ◌++◌, ◌≡◌, refl, sym, ap, inl, inr, ◌⊎◌, ℤ, pos, negsuc, ℕ,
  Bytes, Bool-cases, ok, map_err, map_err-ok, map_ok-ok, and_then-ok, continue-ok, ok-injective,
  ◌>>=◌,
}
use mathlib.Core.Path.{subst}
use elusive.Base.Order.{same_refl}
use elusive.FilePath.{FilePath, root, normal, parent, path_ord}
use elusive.Device.{major, minor}
use elusive.Host.{HostFile, HostMetadata}
use elusive.Entry.{Entry, Metadata, with_mode, to_u64, try_from}
use elusive.Vfs.{Vfs, lookup, contains, create_entry}
use elusive.Vfs.CreateEntry.{lookup-create_entry}
use elusive.Initramfs.{
  Env, input_output, create_parent, copy_file, check_exists, put_binary, add_entrypoint,
}
use elusive.Initramfs.Growth.{on_vfs-ok}

-- What the entry of a file is to hold: its mode, time and device numbers, and, unless it is a
-- directory, its bytes.
pub record IsCopy (file : HostFile) (entry : Entry) : Type 0 where
  pub metadata : HostMetadata
  pub known : file.metadata ≡ ok metadata
  pub same_mode : entry.metadata.mode ≡ metadata.mode
  pub same_mtime : pos entry.metadata.mtime ≡ metadata.mtime
  pub same_major : entry.metadata.rdev_major ≡ major metadata.rdev
  pub same_minor : entry.metadata.rdev_minor ≡ minor metadata.rdev
  pub same_content :
      ((metadata.is_dir ≡ true) × (entry.content ≡ none))
      ⊎ ((metadata.is_dir ≡ false)
          × ((bytes : Bytes) × (file.read_to_end ≡ ok bytes) × (entry.content ≡ some bytes)))

to_u64-pos : (t : ℤ) (n : ℕ) → to_u64 t ≡ ok n → pos n ≡ t
to_u64-pos (pos m) n e = ap pos (sym (ok-injective e))
to_u64-pos (negsuc m) n e = cc e

try_from-IsCopy : (file : HostFile) (entry : Entry) → try_from file ≡ ok entry → IsCopy file entry
unfolding try_from
try_from-IsCopy file entry e =
    let (m, known, f) = and_then-ok file.metadata _ e in
    let (mtime, time, g) = and_then-ok (to_u64 m.mtime) _ f in
    let metadata : Metadata = record (with_mode m.mode) {
      mtime = mtime;
      rdev_major = major m.rdev;
      rdev_minor = minor m.rdev;
    } in
    elim (Bool-cases m.is_dir) [
      | inl dir ↦
          let made : record { metadata = metadata; content = none } ≡ entry =
            ok-injective (rw dir at g) in
          subst (IsCopy file) made (record {
            metadata = m;
            known = known;
            same_mode = refl;
            same_mtime = to_u64-pos m.mtime mtime time;
            same_major = refl;
            same_minor = refl;
            same_content = inl (dir, refl);
          })
      | inr plain ↦
          let (bytes, read, made) =
            map_ok-ok (λ buf. record { metadata = metadata; content = some buf }) file.read_to_end
              (rw plain at g) in
          subst (IsCopy file) made (record {
            metadata = m;
            known = known;
            same_mode = refl;
            same_mtime = to_u64-pos m.mtime mtime time;
            same_major = refl;
            same_minor = refl;
            same_content = inr (plain, (bytes, read, refl));
          })
    ]

-- The path holds a copy of the source.
abbrev pub Copied : Env → FilePath → FilePath → Vfs → Type 0
Copied env source dest w =
    (file : HostFile) × (env.host.open_file source ≡ ok file)
    × ((entry : Entry) × (lookup w dest ≡ some entry) × IsCopy file entry)

copy_file-Copied :
    (env : Env) (source dest : FilePath) (v w : Vfs)
    → copy_file env source dest v ≡ (ok tt, w)
    → Copied env source dest w
copy_file-Copied env source dest v w e =
    let (file, e₁, f) = continue-ok (map_err input_output (env.host.open_file source)) _ v e in
    let (entry, e₂, g) = continue-ok (map_err input_output (try_from file)) _ v f in
    let done = on_vfs-ok (create_entry dest entry) v (ap (λ r. r.0) g) in
    (
      file,
      map_err-ok input_output (env.host.open_file source) e₁,
      (
        entry,
        subst (λ x. lookup x dest ≡ some entry) (ap (λ r. r.1) g)
            (rw (same_refl dest) at (lookup-create_entry dest dest entry v done)),
        try_from-IsCopy file entry (map_err-ok input_output (try_from file) e₂),
      ),
    )

checked-Copied :
    (env : Env) (source dest : FilePath) (v w : Vfs)
    → (check_exists env source >>= λ _. copy_file env source dest) v ≡ (ok tt, w)
    → Copied env source dest w
checked-Copied env source dest v w e =
    let r = check_exists env source v in
    let (_, _, f) = continue-ok r.0 (λ _. copy_file env source dest) r.1 e in
    copy_file-Copied env source dest r.1 w f

-- after a call of add_entrypoint that succeeds, on a filesystem that has no entry of the name
-- below the root, the entry there is a copy of the source file: it could be opened and read, and
-- the entry has its mode, modification time and device numbers, and exactly its bytes, none if it
-- is a directory.
pub add_entrypoint-Copied :
    (env : Env) (name : Bytes) (source : FilePath) (v w : Vfs)
    → contains v (root ++ (normal name ∷ [])) ≡ false
    → add_entrypoint env name source v ≡ (ok tt, w)
    → Copied env source (root ++ (normal name ∷ [])) w
unfolding add_entrypoint
add_entrypoint-Copied env name source v w free e =
    checked-Copied env source (root ++ (normal name ∷ [])) v w (rw free at e)

-- after put_binary has succeeded, the path of the binary holds a copy of the file of that path:
-- its mode, modification time and device numbers, and exactly its bytes, none if it is a
-- directory.
pub put_binary-Copied :
    (env : Env) (p : FilePath) (v w : Vfs) → put_binary env p v ≡ (ok tt, w) → Copied env p p w
put_binary-Copied env p v w e =
    let r = create_parent (parent p) v in
    let (_, _, f) = continue-ok r.0 _ r.1 e in checked-Copied env p p r.1 w f
