-- ===== src/Elf/Needed.antt =====
-- Elf.linked_libraries of crates/elusive/src/elf.rs: the resolution of the needed libraries.
use mathlib.Core.Path.{subst}
use elusive.Base.{
  ok-injective, map, ◌++◌, ℕ, true, List, [], ◌∷◌, ◌≡◌, ◌^◌, ltb, refl, ap, Bytes, length, All,
  Option, some, none, ok, Bool-cases, inl, inr, expect, suc, and_then-ok, map_ok-ok, ok_or-ok,
  map_err,
}
use elusive.Base.Order.{list_ord}
use elusive.Text.{split}
use elusive.FilePath.{FilePath, root_dir, cur_dir, parent_dir, normal, parse, join, is_absolute}
use elusive.Host.{Host}
use elusive.Search.{search_paths, paths}
use elusive.Search.First.{search_paths-some}
use elusive.Elf.{
  ObjectLib, find_library, library_at, resolve, resolve_in, linked_libraries, library_search_paths,
  scan_headers, find_table, start, library_not_found, input_output, parsing, check_kind,
}

-- What a library is answered with: it exists, by an absolute path.
abbrev pub IsLibrary : Host → FilePath → Type 0
IsLibrary h p = (h.exists p ≡ true) × (is_absolute p ≡ true)

join-absolute : (dir name : FilePath) → is_absolute dir ≡ true → is_absolute (join dir name) ≡ true
unfolding join
join-absolute [] name a = cc
join-absolute (root_dir ∷ dir) [] a = refl
join-absolute (root_dir ∷ dir) (root_dir ∷ name) a = refl
join-absolute (root_dir ∷ dir) (cur_dir ∷ name) a = refl
join-absolute (root_dir ∷ dir) (parent_dir ∷ name) a = refl
join-absolute (root_dir ∷ dir) (normal n ∷ name) a = refl
join-absolute (cur_dir ∷ dir) name a = cc
join-absolute (parent_dir ∷ dir) name a = cc
join-absolute (normal n ∷ dir) name a = cc

joined-absolute :
    (name : FilePath) (dirs : List FilePath)
    → All (λ dir. is_absolute dir ≡ true) dirs
    → All (λ q. is_absolute q ≡ true) (map (λ dir. join dir name) dirs)
joined-absolute name [] a = tt
joined-absolute name (dir ∷ dirs) (a, as') =
    (join-absolute dir name a, joined-absolute name dirs as')

library_search_paths-absolute : All (λ dir. is_absolute dir ≡ true) library_search_paths
unfolding library_search_paths paths parse split list_ord
library_search_paths-absolute = (refl, (refl, (refl, (refl, (refl, (refl, tt))))))

All-middle :
    {A : Type 0} (P : A → Type 0) (before after : List A) {a : A}
    → All P (before ++ (a ∷ after))
    → P a
All-middle P [] after (h, _) = h
All-middle P (b ∷ before) after (_, hs) = All-middle P before after hs

find_library-IsLibrary : (h : Host) (name p : FilePath) → find_library h name ≡ ok p → IsLibrary h p
unfolding find_library
find_library-IsLibrary h name p e =
    let first =
      search_paths-some h name library_search_paths p
        (ok_or-ok (search_paths h name library_search_paths) (library_not_found name) e) in
    (
      first.there,
      All-middle (λ q. is_absolute q ≡ true) first.before first.after
          (subst (All (λ q. is_absolute q ≡ true)) first.split
            (joined-absolute name library_search_paths library_search_paths-absolute)),
    )

library_at-IsLibrary :
    (h : Host) (o : ObjectLib) (table : Bytes) (offset : ℕ) (p : FilePath)
    → library_at h o table offset ≡ ok p
    → IsLibrary h p
library_at-IsLibrary h o table offset p e = elim (Bool-cases (ltb offset (2 ^ 32))) [
  | inl fits ↦
      let (name, _, found) = and_then-ok (expect (o.string_at table offset)) _ (rw fits at e) in
      find_library-IsLibrary h (parse name) p found
  | inr large ↦ cc (rw large at e)
]

resolve-IsLibrary :
    (h : Host) (o : ObjectLib) (table : Bytes) (offsets : List ℕ) (ps : List FilePath)
    → resolve h o table offsets ≡ ok ps
    → (length ps ≡ length offsets) × All (IsLibrary h) ps
unfolding resolve
resolve-IsLibrary h o table [] ps e =
    subst (λ qs. (length qs ≡ 0) × All (IsLibrary h) qs) (ok-injective e) (refl, tt)
resolve-IsLibrary h o table (offset ∷ offsets) ps e =
    let (p, first, more) = and_then-ok (library_at h o table offset) _ e in
    let (qs, rest, same) = map_ok-ok (λ needed. p ∷ needed) (resolve h o table offsets) more in
    let (len, there) = resolve-IsLibrary h o table offsets qs rest in
    subst (λ qs. (length qs ≡ length (offset ∷ offsets)) × All (IsLibrary h) qs) same
      (ap suc len, (library_at-IsLibrary h o table offset p first, there))

resolve_in-IsLibrary :
    (h : Host) (o : ObjectLib) (table : Option Bytes) (offsets : List ℕ) (ps : List FilePath)
    → resolve_in h o table offsets ≡ ok ps
    → All (IsLibrary h) ps
resolve_in-IsLibrary h o none offsets ps e = subst (All (IsLibrary h)) (ok-injective e) tt
resolve_in-IsLibrary h o (some table) offsets ps e = (resolve-IsLibrary h o table offsets ps e).1

-- every library that linked_libraries answers with exists and has an absolute path.
pub linked_libraries-exist :
    (h : Host) (o : ObjectLib) (path : FilePath) (ps : List FilePath)
    → linked_libraries h o path ≡ ok ps
    → All (IsLibrary h) ps
unfolding linked_libraries
linked_libraries-exist h o path ps e =
    let (bytes, _, e₁) = and_then-ok (map_err input_output (h.read path)) _ e in
    let (kind, _, e₂) = and_then-ok (map_err parsing (o.kind bytes)) _ e₁ in
    let (_, _, e₃) = and_then-ok (check_kind kind) _ e₂ in
    let (headers, _, e₄) = and_then-ok (map_err parsing (o.program_headers bytes)) _ e₃ in
    let (s, _, e₅) = and_then-ok (scan_headers start headers) _ e₄ in
    resolve_in-IsLibrary h o (find_table s.strtab s.strsz headers) s.offsets ps e₅
