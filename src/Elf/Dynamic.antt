-- ===== src/Elf/Dynamic.antt =====
-- Elf.linked_libraries of crates/elusive/src/elf.rs: the loop over the program headers.
use elusive.Base.{
  ℕ, Option, none, some, List, [], ◌∷◌, ◌++◌, ◌≡◌, sym, ◌∙◌, append_assoc, append-nil, arith, ◌==◌,
  if◌then◌else◌, Result, ok, err, panic, diverge, Bool-cases, inl, inr, and_then, map_err,
}
use elusive.Elf.{
  Dyn, ProgramHeader, Scan, dt_needed, pt_dynamic, scan_dyn, scan_dynamic, scan_optional,
  scan_headers, start, parsing, ObjectError,
}

-- The values of the entries tagged `DT_NEEDED`.
unfoldable pub needed_of : List Dyn → List ℕ
needed_of [] = []
needed_of (d ∷ ds) = if d.tag == dt_needed then d.val ∷ needed_of ds else needed_of ds

abbrev pub needed_of_optional : Option (List Dyn) → List ℕ
needed_of_optional none = []
needed_of_optional (some ds) = needed_of ds

abbrev pub needed_of_result : Result ObjectError (Option (List Dyn)) → List ℕ
needed_of_result (ok o) = needed_of_optional o
needed_of_result _ = []

-- The same over all dynamic headers.
unfoldable pub needed_of_headers : List ProgramHeader → List ℕ
needed_of_headers [] = []
needed_of_headers (header ∷ headers) =
    if header.p_type == pt_dynamic
    then needed_of_result header.dynamic ++ needed_of_headers headers
    else needed_of_headers headers

scan_dynamic-offsets :
    (ds : List Dyn) (s : Scan) → (scan_dynamic s ds).offsets ≡ s.offsets ++ needed_of ds
unfolding scan_dynamic needed_of scan_dyn
scan_dynamic-offsets [] s = sym (append-nil s.offsets)
scan_dynamic-offsets (d ∷ ds) s = ground (
  arith,
  scan_dynamic-offsets ds (scan_dyn s d),
  append_assoc s.offsets (d.val ∷ []) (needed_of ds),
)

scan_optional-offsets :
    (o : Option (List Dyn)) (s : Scan)
    → (scan_optional s o).offsets ≡ s.offsets ++ needed_of_optional o
scan_optional-offsets none s = sym (append-nil s.offsets)
scan_optional-offsets (some ds) s = scan_dynamic-offsets ds s

scan_enter :
    (headers : List ProgramHeader) (r : Result ObjectError (Option (List Dyn))) (s t : Scan)
    → ((s' : Scan)
        → scan_headers s' headers ≡ ok t
        → t.offsets ≡ s'.offsets ++ needed_of_headers headers)
    → (and_then (map_err parsing r) λ dynamic. scan_headers (scan_optional s dynamic) headers)
      ≡ ok t
    → t.offsets ≡ s.offsets ++ (needed_of_result r ++ needed_of_headers headers)
scan_enter headers (ok o) s t ih e =
    ih (scan_optional s o) e
    ∙ rw (scan_optional-offsets o s) (append_assoc s.offsets (needed_of_optional o) _)
scan_enter headers (err x) s t ih e = cc
scan_enter headers panic s t ih e = cc
scan_enter headers diverge s t ih e = cc

scan_headers-offsets :
    (headers : List ProgramHeader) (s t : Scan)
    → scan_headers s headers ≡ ok t
    → t.offsets ≡ s.offsets ++ needed_of_headers headers
unfolding scan_headers needed_of_headers
scan_headers-offsets [] s t e = ground (arith, append-nil s.offsets)
scan_headers-offsets (header ∷ headers) s t e = elim (Bool-cases (header.p_type == pt_dynamic)) [
  | inl dynamic ↦ rw dynamic (
      scan_enter headers header.dynamic s t (λ s'. scan_headers-offsets headers s' t)
        (rw dynamic at e))
  | inr other ↦ rw other (scan_headers-offsets headers s t (rw other at e))
]

-- when the loop over the program headers succeeds, the offsets that it has gathered are the values
-- of the entries tagged DT_NEEDED of all dynamic headers, in order.
pub scan_headers-start :
    (headers : List ProgramHeader) (t : Scan)
    → scan_headers start headers ≡ ok t
    → t.offsets ≡ needed_of_headers headers
scan_headers-start headers t e = scan_headers-offsets headers start t e
