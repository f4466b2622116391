-- ===== src/Microcode/Contents.antt =====
-- MicrocodeBundle of crates/elusive/src/microcode.rs: what a bundle holds.
use elusive.Base.{
  Option, none, some, List, [], ◌∷◌, ◌++◌, ◌≡◌, refl, Bytes, codes, Result, ok, map_ok, map_ok-ok,
  arith,
}
use mathlib.Core.Path.{subst}
use elusive.Base.Order
use elusive.Text
use elusive.FilePath
use elusive.FilePath.{FilePath, root_dir, normal, root, path_ord}
use elusive.OrdMap
use elusive.Host.{Host}
use elusive.Entry
use elusive.Entry.{Entry}
use elusive.Vfs
use elusive.Newc.{from}
use elusive.Config
use elusive.Microcode.{
  MicrocodeError, MicrocodeBundle, bundle_ucode, add_amd_ucode, from_config, into_archive,
}

-- The path below `/kernel/x86/microcode`, or above it.
abbrev pub tree : FilePath → FilePath
tree rest = root_dir ∷ normal (codes "kernel") ∷ rest

abbrev pub blob_path : Bytes → FilePath
blob_path name = tree (normal (codes "x86") ∷ normal (codes "microcode") ∷ normal name ∷ [])

-- The directories of every bundle.
abbrev pub directories : List (FilePath × Entry)
directories =
    (root, Entry.directory)
    ∷ (tree [], Entry.directory)
    ∷ (tree (normal (codes "x86") ∷ []), Entry.directory)
    ∷ (tree (normal (codes "x86") ∷ normal (codes "microcode") ∷ []), Entry.directory)
    ∷ []

-- The entry of a vendor whose blobs are configured.
abbrev pub blob : Host → Bytes → Option FilePath → Result MicrocodeError (List (FilePath × Entry))
blob h name none = ok []
blob h name (some p) = map_ok (λ bytes. (blob_path name, Entry.file bytes) ∷ []) (bundle_ucode h p)

abbrev EndsAs : Host → Option FilePath → Option FilePath → List (FilePath × Entry) → Type 0
EndsAs h amd intel blobs =
    map_ok into_archive (from_config h (record { amd_ucode = amd; intel_ucode = intel }))
    ≡ ok (from (directories ++ blobs))

neither : (h : Host) → EndsAs h none none []
unfolding from_config Vfs.create_dirs FilePath.ancestors FilePath.prefixes FilePath.parent
    FilePath.join FilePath.parse Text.split Order.list_ord FilePath.component_ord path_ord
    OrdMap.get OrdMap.insert Vfs.contains Vfs.contains_file Vfs.contains_dir Vfs.create_dir
neither h = refl

amd_only :
    (h : Host) (p : FilePath) (bytes : Bytes)
    → bundle_ucode h p ≡ ok bytes
    → EndsAs h (some p) none ((blob_path (codes "AuthenticAMD.bin"), Entry.file bytes) ∷ [])
unfolding from_config Vfs.create_dirs FilePath.ancestors FilePath.prefixes FilePath.parent
    FilePath.join FilePath.parse Text.split Order.list_ord FilePath.component_ord path_ord
    OrdMap.get OrdMap.insert Vfs.contains Vfs.contains_file Vfs.contains_dir Vfs.create_dir
amd_only h p bytes e = rw e refl

intel_only :
    (h : Host) (p : FilePath) (bytes : Bytes)
    → bundle_ucode h p ≡ ok bytes
    → EndsAs h none (some p) ((blob_path (codes "GenuineIntel.bin"), Entry.file bytes) ∷ [])
unfolding from_config Vfs.create_dirs FilePath.ancestors FilePath.prefixes FilePath.parent
    FilePath.join FilePath.parse Text.split Order.list_ord FilePath.component_ord path_ord
    OrdMap.get OrdMap.insert Vfs.contains Vfs.contains_file Vfs.contains_dir Vfs.create_dir
intel_only h p bytes e = rw e refl

both :
    (h : Host) (p q : FilePath) (bytes other : Bytes)
    → bundle_ucode h p ≡ ok bytes
    → bundle_ucode h q ≡ ok other
    → EndsAs h (some p) (some q) (
        (blob_path (codes "AuthenticAMD.bin"), Entry.file bytes)
        ∷ (blob_path (codes "GenuineIntel.bin"), Entry.file other)
        ∷ [])
unfolding from_config Vfs.create_dirs FilePath.ancestors FilePath.prefixes FilePath.parent
    FilePath.join FilePath.parse Text.split Order.list_ord FilePath.component_ord path_ord
    OrdMap.get OrdMap.insert Vfs.contains Vfs.contains_file Vfs.contains_dir Vfs.create_dir
both h p q bytes other e f = rw (e, f) refl

abbrev found : List (FilePath × Entry) → Result MicrocodeError (List (FilePath × Entry))
found blobs = ok blobs

ok_blobs : {xs ys : List (FilePath × Entry)} → found xs ≡ found ys → xs ≡ ys
ok_blobs e = cc

joined :
    {xs ys amd intel : List (FilePath × Entry)} → xs ≡ amd → ys ≡ intel → xs ++ ys ≡ amd ++ intel
joined x y = cc

by_case :
    (h : Host) (o r : Option FilePath) (amd intel : List (FilePath × Entry))
    → blob h (codes "AuthenticAMD.bin") o ≡ ok amd
    → blob h (codes "GenuineIntel.bin") r ≡ ok intel
    → EndsAs h o r (amd ++ intel)
by_case h none none amd intel a i =
    subst (EndsAs h none none) (joined (ok_blobs a) (ok_blobs i)) (neither h)
by_case h (some p) none amd intel a i =
    let (bytes, e, x) = map_ok-ok _ (bundle_ucode h p) a in
    subst (EndsAs h (some p) none) (joined x (ok_blobs i)) (amd_only h p bytes e)
by_case h none (some q) amd intel a i =
    let (other, f, y) = map_ok-ok _ (bundle_ucode h q) i in
    subst (EndsAs h none (some q)) (joined (ok_blobs a) y) (intel_only h q other f)
by_case h (some p) (some q) amd intel a i =
    let (bytes, e, x) = map_ok-ok _ (bundle_ucode h p) a in
    let (other, f, y) = map_ok-ok _ (bundle_ucode h q) i in
    subst (EndsAs h (some p) (some q)) (joined x y) (both h p q bytes other e f)

-- where the blobs of the configured vendors can be read, from_config succeeds, and the archive of
-- the bundle has the directories down to /kernel/x86/microcode and in it one file for each
-- configured vendor, with the vendor's name and blobs, and nothing else.
pub from_config-archive :
    (h : Host) (config : Config.Microcode) (amd intel : List (FilePath × Entry))
    → blob h (codes "AuthenticAMD.bin") config.amd_ucode ≡ ok amd
    → blob h (codes "GenuineIntel.bin") config.intel_ucode ≡ ok intel
    → map_ok into_archive (from_config h config) ≡ ok (from (directories ++ (amd ++ intel)))
from_config-archive h config amd intel a i =
    by_case h config.amd_ucode config.intel_ucode amd intel a i

-- after add_amd_ucode has succeeded, a second call, with any path, succeeds and changes nothing.
pub add_amd_ucode_again :
    (h : Host) (p q : FilePath) (b c : MicrocodeBundle)
    → add_amd_ucode h p b ≡ (ok tt, c)
    → add_amd_ucode h q c ≡ (ok tt, c)
unfolding add_amd_ucode
add_amd_ucode_again h p q b c e = ground arith
