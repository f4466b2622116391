-- ===== src/Newc/Writable.antt =====
-- The test of what the newc format can hold, for crates/elusive/src/newc.rs.
use elusive.Base.{
  ℕ, ◌^◌, Bool, true, false, not, ◌&&◌, List, [], ◌∷◌, ◌++◌, Bytes, ltb, ◌==◌, length, ◌≡◌, ◌≢◌,
  refl, All, arith,
}
use mathlib.Core.Path.{subst}
use elusive.Base.Order.{same, same_refl, list_ord, nat_ord}
use elusive.FilePath.{FilePath, is_absolute}
use elusive.Entry.{Entry, Metadata}
use elusive.Newc.{file_size, trailer}
use elusive.Newc.Fields.{FitsFields, IsU32}
use elusive.Newc.RoundTrip.{relative_name, IsWritable, AllWritable}

abbrev pub u32 : ℕ → Bool
u32 n = ltb n (2 ^ 32)

-- Every number of a header but the inode's.
abbrev pub all_u32 : List ℕ → Bool
all_u32 [] = true
all_u32 (n ∷ ns) = u32 n && all_u32 ns

-- Every number of a header but the inode's.
abbrev pub numbers : Metadata → ℕ → ℕ → List ℕ
numbers m size name_size =
    m.mode ∷ m.uid ∷ m.gid ∷ m.nlink ∷ m.mtime ∷ size ∷ m.dev_major ∷ m.dev_minor ∷ m.rdev_major
    ∷ m.rdev_minor ∷ name_size ∷ []

abbrev pub no_nul : Bytes → Bool
no_nul [] = true
no_nul (b ∷ bytes) = not (b == 0) && no_nul bytes

abbrev pub is_writable : FilePath → Entry → Bool
is_writable p entry =
    is_absolute p
    && (no_nul (relative_name p)
        && (not (same (relative_name p) trailer)
            && all_u32 (
                numbers entry.metadata (file_size entry.content)
                  (length (relative_name p ++ (0 ∷ []))))))

abbrev pub all_writable : List (FilePath × Entry) → Bool
all_writable [] = true
all_writable ((p, entry) ∷ entries) = is_writable p entry && all_writable entries

both : (a b : Bool) → (a && b) ≡ true → (a ≡ true) × (b ≡ true)
both true b h = (refl, h)
both false b h = cc

all_u32-All : (ns : List ℕ) → all_u32 ns ≡ true → All IsU32 ns
all_u32-All [] h = tt
all_u32-All (n ∷ ns) h =
    let (a, as') = both (u32 n) (all_u32 ns) h in (ground arith, all_u32-All ns as')

numbers-FitsFields :
    (m : Metadata) (size name_size : ℕ)
    → All IsU32 (numbers m size name_size)
    → FitsFields 0 m size name_size
numbers-FitsFields m size name_size
      (
        mode,
        (
          uid,
          (gid, (nlink, (mtime, (data_size, (major, (minor, (rmajor, (rminor, (named, _))))))))),
        ),
      ) =
    record {
      ino_fits = omega arith;
      mode_fits = mode;
      uid_fits = uid;
      gid_fits = gid;
      nlink_fits = nlink;
      mtime_fits = mtime;
      size_fits = data_size;
      dev_major_fits = major;
      dev_minor_fits = minor;
      rdev_major_fits = rmajor;
      rdev_minor_fits = rminor;
      name_fits = named;
    }

no_nul-All : (bytes : Bytes) → no_nul bytes ≡ true → All (λ b. b ≢ 0) bytes
no_nul-All [] h = tt
no_nul-All (b ∷ bytes) h =
    let (n, hs) = both (not (b == 0)) (no_nul bytes) h in ((λ e. ground arith), no_nul-All bytes hs)

is_writable-IsWritable :
    (p : FilePath) (entry : Entry) → is_writable p entry ≡ true → IsWritable p entry
is_writable-IsWritable p entry h =
    let (a, h₁) = both (is_absolute p) _ h in
    let (n, h₂) = both (no_nul (relative_name p)) _ h₁ in
    let (t, f) = both (not (same (relative_name p) trailer)) _ h₂ in
    record {
      absolute = a;
      no_nul = no_nul-All (relative_name p) n;
      not_trailer = λ e.
          let r = same_refl trailer in
          let u : not (same trailer trailer) ≡ true =
            subst (λ x. not (same x trailer) ≡ true) e t in
          cc;
      fits =
          numbers-FitsFields entry.metadata (file_size entry.content)
            (length (relative_name p ++ (0 ∷ [])))
            (all_u32-All
              (numbers entry.metadata (file_size entry.content)
                (length (relative_name p ++ (0 ∷ []))))
              f);
    }

pub all_writable-AllWritable :
    (entries : List (FilePath × Entry)) → all_writable entries ≡ true → AllWritable entries
all_writable-AllWritable [] h = tt
all_writable-AllWritable ((p, entry) ∷ entries) h =
    let (w, ws) = both (is_writable p entry) (all_writable entries) h in
    (is_writable-IsWritable p entry w, all_writable-AllWritable entries ws)
