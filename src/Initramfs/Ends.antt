-- ===== src/Initramfs/Ends.antt =====
-- Initramfs.add_elf of crates/elusive/src/initramfs.rs: the calls on a single binary, and what is
-- asked of the machine and of the object crate.
use elusive.Base.{
  ℕ, true, false, Bool, Option, none, some, List, [], ◌∷◌, ◌≡◌, ◌≢◌, refl, All, arith, inl, inr,
  Bool-cases, Bytes, if◌then◌else◌, Result, ok, err, panic, diverge, continue, map_err, map_err-ok,
  ℤ, pos, negsuc, map_ok, ok_or, expect, pure, throw, and_then, ◌>>◌, ◌^◌, ltb, ◌==◌,
}
use mathlib.Core.List.{reverse}
use elusive.FilePath.{FilePath, parse, ancestors, parent, is_absolute}
use elusive.Host.{Host, HostFile, not_found}
use elusive.Entry.{Entry, try_from, to_u64}
use elusive.Elf.{
  ObjectLib, ProgramHeader, Scan, ElfError, linked_libraries, find_binary, find_library,
  scan_headers, scan_optional, check_kind, start, resolve, resolve_in, library_at, find_table,
  pt_dynamic, parsing, FileKind, elf64, other_kind,
}
use elusive.Elf
use elusive.Vfs.{Vfs, create_dir_all, create_dirs, create_dir, create_entry}
use elusive.Initramfs.{
  Env, InitramfsError, Build, input_output, elf_failed, vfs_failed, create_parent, check_exists,
  copy_file, put_binary, resolve_binary,
}

-- What is asked of the machine and of `object`: every call returns.
pub record Answers (env : Env) : Type 0 where
  pub opens : (p : FilePath) → env.host.open_file p ≢ diverge
  pub metadata : (p : FilePath) (f : HostFile) → env.host.open_file p ≡ ok f → f.metadata ≢ diverge
  pub read_to_end :
      (p : FilePath) (f : HostFile) → env.host.open_file p ≡ ok f → f.read_to_end ≢ diverge
  pub reads : (p : FilePath) → env.host.read p ≢ diverge
  pub kinds : (bytes : Bytes) → env.object.kind bytes ≢ diverge
  pub headers : (bytes : Bytes) → env.object.program_headers bytes ≢ diverge
  pub dynamics :
      (bytes : Bytes) (hs : List ProgramHeader)
      → env.object.program_headers bytes ≡ ok hs
      → All (λ h. h.dynamic ≢ diverge) hs

pub continue-ends :
    {A : Type 0} (r : Result InitramfsError A) (f : A → Build Unit) (v : Vfs)
    → r ≢ diverge
    → ((a : A) → r ≡ ok a → (f a v).0 ≢ diverge)
    → (continue r f v).0 ≢ diverge
continue-ends (ok a) f v h g = g a refl
continue-ends (err e) f v h g = λ d. cc
continue-ends panic f v h g = λ d. cc
continue-ends diverge f v h g = absurd (h refl)

pub map_err-ends :
    {D E A : Type 0} (f : D → E) (r : Result D A) → r ≢ diverge → map_err f r ≢ diverge
map_err-ends f (ok a) h = λ d. cc
map_err-ends f (err e) h = λ d. cc
map_err-ends f panic h = λ d. cc
map_err-ends f diverge h = absurd (h refl)

pub and_then-ends :
    {E A B : Type 0} (r : Result E A) (f : A → Result E B)
    → r ≢ diverge
    → ((a : A) → r ≡ ok a → f a ≢ diverge)
    → and_then r f ≢ diverge
and_then-ends (ok a) f h g = g a refl
and_then-ends (err e) f h g = λ d. cc
and_then-ends panic f h g = λ d. cc
and_then-ends diverge f h g = absurd (h refl)

pub map_ok-ends : {E A B : Type 0} (f : A → B) (r : Result E A) → r ≢ diverge → map_ok f r ≢ diverge
map_ok-ends f (ok a) h = λ d. cc
map_ok-ends f (err e) h = λ d. cc
map_ok-ends f panic h = λ d. cc
map_ok-ends f diverge h = absurd (h refl)

pub ok_or-ends : {E A : Type 0} (o : Option A) (e : E) → ok_or o e ≢ diverge
ok_or-ends none e = λ d. cc
ok_or-ends (some a) e = λ d. cc

pub expect-ends : {E A : Type 0} (o : Option A) → expect {E = E} o ≢ diverge
expect-ends none = λ d. cc
expect-ends (some a) = λ d. cc

pub create_dir-ends : (p : FilePath) (v : Vfs) → (create_dir p v).0 ≢ diverge
unfolding create_dir
create_dir-ends p v d = ground arith

create_dirs-ends : (dirs : List FilePath) (v : Vfs) → (create_dirs dirs v).0 ≢ diverge
unfolding create_dirs
create_dirs-ends [] v d = cc
create_dirs-ends (dir ∷ dirs) v d =
    ground (arith, create_dir-ends dir v, create_dirs-ends dirs (create_dir dir v).1)

create_dir_all-ends : (p : FilePath) (v : Vfs) → (create_dir_all p v).0 ≢ diverge
unfolding create_dir_all
create_dir_all-ends p v d = ground (arith, create_dirs-ends (reverse (ancestors p)) v)

pub create_parent-ends : (q : Option FilePath) (v : Vfs) → (create_parent q v).0 ≢ diverge
create_parent-ends none v = λ d. cc
create_parent-ends (some dir) v =
    map_err-ends vfs_failed (create_dir_all dir v).0 (create_dir_all-ends dir v)

pub create_entry-ends :
    (p : FilePath) (entry : Entry) (v : Vfs) → (create_entry p entry v).0 ≢ diverge
unfolding create_entry
create_entry-ends p entry v d = ground arith

scan_headers-ends :
    (s : Scan) (hs : List ProgramHeader)
    → All (λ h. h.dynamic ≢ diverge) hs
    → scan_headers s hs ≢ diverge
unfolding scan_headers
scan_headers-ends s [] w = λ d. cc
scan_headers-ends s (h ∷ hs) (a, w) = elim (Bool-cases (h.p_type == pt_dynamic)) [
  | inl yes' ↦ rw yes' (
      and_then-ends (map_err parsing h.dynamic) _ (map_err-ends parsing h.dynamic a)
        λ dynamic e. scan_headers-ends (scan_optional s dynamic) hs w)
  | inr no' ↦ rw no' (scan_headers-ends s hs w)
]

found_at-ends :
    (h : Host) (o : Option Bytes)
    → and_then (expect o) (λ name. find_library h (parse name)) ≢ diverge
unfolding find_library
found_at-ends h none = λ d. cc
found_at-ends h (some name) = ok_or-ends _ _

library_at-ends :
    (h : Host) (o : ObjectLib) (table : Bytes) (offset : ℕ) → library_at h o table offset ≢ diverge
library_at-ends h o table offset = elim (Bool-cases (ltb offset (2 ^ 32))) [
  | inl small ↦ rw small (found_at-ends h (o.string_at table offset))
  | inr large ↦ rw large (λ d. cc)
]

resolve-ends :
    (h : Host) (o : ObjectLib) (table : Bytes) (offsets : List ℕ)
    → resolve h o table offsets ≢ diverge
unfolding resolve
resolve-ends h o table [] = λ d. cc
resolve-ends h o table (offset ∷ offsets) =
    and_then-ends (library_at h o table offset) _ (library_at-ends h o table offset) λ path e.
      map_ok-ends (λ needed. path ∷ needed) (resolve h o table offsets)
        (resolve-ends h o table offsets)

resolve_in-ends :
    (h : Host) (o : ObjectLib) (table : Option Bytes) (offsets : List ℕ)
    → resolve_in h o table offsets ≢ diverge
resolve_in-ends h o none offsets = λ d. cc
resolve_in-ends h o (some table) offsets = resolve-ends h o table offsets

check_kind-ends : (kind : FileKind) → check_kind kind ≢ diverge
check_kind-ends elf64 = λ d. cc
check_kind-ends (other_kind n) = λ d. cc

to_u64-ends : (t : ℤ) → to_u64 t ≢ diverge
to_u64-ends (pos n) = λ d. cc
to_u64-ends (negsuc n) = λ d. cc

pub resolve_binary-ends : (env : Env) (p : FilePath) → resolve_binary env p ≢ diverge
unfolding find_binary
resolve_binary-ends env p = elim (Bool-cases (is_absolute p)) [
  | inl absolute ↦ rw absolute (λ d. cc)
  | inr relative ↦ rw relative (map_err-ends elf_failed _ (ok_or-ends _ _))
]

-- The file is open.
try_from-ends :
    (f : HostFile) → f.metadata ≢ diverge → f.read_to_end ≢ diverge → try_from f ≢ diverge
unfolding try_from
try_from-ends f m r = and_then-ends f.metadata _ m λ metadata _.
    and_then-ends (to_u64 metadata.mtime) _ (to_u64-ends metadata.mtime) λ mtime _.
      elim (Bool-cases metadata.is_dir) [
        | inl dir ↦ rw dir (λ d. cc)
        | inr file ↦ rw file (map_ok-ends _ f.read_to_end r)
      ]

module _ (env : Env) (answers : Answers env) where
  pub linked_libraries-ends : (p : FilePath) → linked_libraries env.host env.object p ≢ diverge
  unfolding linked_libraries
  linked_libraries-ends p =
      and_then-ends _ _ (map_err-ends Elf.input_output (env.host.read p) (answers.reads p))
        λ bytes _.
          and_then-ends _ _ (map_err-ends parsing (env.object.kind bytes) (answers.kinds bytes))
            λ kind _. and_then-ends _ _ (check_kind-ends kind) λ _ _.
              and_then-ends (map_err parsing (env.object.program_headers bytes)) _
                (map_err-ends parsing (env.object.program_headers bytes) (answers.headers bytes))
                λ hs e.
                  and_then-ends _ _
                    (scan_headers-ends start hs (
                      answers.dynamics bytes hs
                        (map_err-ok parsing (env.object.program_headers bytes) e)))
                    λ s _.
                      resolve_in-ends env.host env.object (find_table s.strtab s.strsz hs) s.offsets

  pub copy_file-ends :
      (source dest : FilePath) (v : Vfs) → (copy_file env source dest v).0 ≢ diverge
  copy_file-ends source dest v =
      continue-ends (map_err input_output (env.host.open_file source)) _ v
        (map_err-ends input_output (env.host.open_file source) (answers.opens source))
        λ file e.
          let opened = map_err-ok input_output (env.host.open_file source) e in
          continue-ends (map_err input_output (try_from file)) _ v
            (map_err-ends input_output (try_from file) (
              try_from-ends file (answers.metadata source file opened)
                (answers.read_to_end source file opened)))
            λ entry _.
              map_err-ends vfs_failed (create_entry dest entry v).0 (create_entry-ends dest entry v)

  pub put_binary-ends : (p : FilePath) (v : Vfs) → (put_binary env p v).0 ≢ diverge
  put_binary-ends p v =
      continue-ends (create_parent (parent p) v).0 (λ _. check_exists env p >> copy_file env p p)
        (create_parent (parent p) v).1 (create_parent-ends (parent p) v)
        λ _ _. copied (env.host.exists p) (create_parent (parent p) v).1
    where
      copied :
          (there : Bool) (w : Vfs)
          → (((if there then pure tt else throw (input_output (not_found p))) >> copy_file env p p)
              w).0
            ≢ diverge
      copied true w = copy_file-ends p p w
      copied false w = λ d. cc
