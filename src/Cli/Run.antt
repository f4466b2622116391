-- ===== src/Cli/Run.antt =====
-- `elusive` of crates/elusive/src/cli.rs: what the output holds after a run.
use elusive.Base.{
  ℕ, true, false, Option, none, some, [], ◌++◌, ◌≡◌, refl, sym, ap, ◌∙◌, Bytes, Result, ok, err,
  map_err, map_err-ok, continue-ok, ok-injective, ◌>>=◌, Bool-cases, inl, inr,
}
use mathlib.Core.Path.{subst}
use elusive.Base.Order.{same}
use elusive.FilePath.{FilePath, path_ord, parent}
use elusive.OrdMap.{get}
use elusive.OrdMap.Laws.{get-insert_self}
use elusive.Host.{Host, not_found}
use elusive.Encoder.{Encoder}
use elusive.Encoder.Stream.Refinement.{Compressors, encode, Compresses}
use elusive.Encoder.Stream.Output.{bundle, Ended, write_archive-encode, write_archive-Ended}
use elusive.Io.{
  Machine, Drive, Output, Stream, created, dash, set_file, or_empty, absolute_path, parent_exists,
  create_below, input_from_path, output_from_path, held_by, hold, write,
}
use elusive.Io.Buffer.{Write}
use elusive.Io.Buffer.Delivery.{Takes, total}
use elusive.Cli.{
  System, Args, initramfs, CliError, io_failed, encoder_failed, on_drive, open_ucode, write_output,
  initramfs_bytes, unwrap_or_zstd, run,
}
use elusive.Cli.Frame.{open_ucode-same}

-- What is written to a file that the output has just created.
abbrev pub to_file : System → FilePath → Write Bytes
to_file sys at_ = write sys.machine (created at_)

-- The run has ended well, and the file holds the bytes.
abbrev pub Leaves : Result CliError Unit × Drive → FilePath → Bytes → Type 0
Leaves r at_ bytes = (r.0 ≡ ok tt) × (get at_ r.1.files ≡ some bytes)

pub write_output-Leaves :
    (sys : System) (at_ : FilePath) (c : Compressors) (chosen : Encoder) (ucode : Option Stream)
    (bytes : Bytes) (w : Drive) (t : Takes Bytes (to_file sys at_) (λ x. x))
    → Compresses sys.gz sys.zs sys.nproc (total (to_file sys at_) (λ x. x) t) c chosen
    → Ended ucode
    → get at_ w.files ≡ some []
    → Leaves
        (write_output sys (created at_) chosen ucode bytes w)
        at_
        (bundle ucode ++ encode c chosen bytes)
unfolding write_output hold
write_output-Leaves sys at_ c chosen ucode bytes w t k e h =
    let (done, content) =
      write_archive-encode (to_file sys at_) sys.buffer_size io_failed encoder_failed sys.gz sys.zs
        sys.nproc (λ x. x) t c chosen ucode bytes (held_by (created at_) w) k e in
    (
      done,
      get-insert_self at_ _ w.files
          ∙ ap some (content ∙ ap (λ o. or_empty o ++ (bundle ucode ++ encode c chosen bytes)) h),
    )

write_output-Ended :
    (sys : System) (at_ : FilePath) (chosen : Encoder) (ucode : Option Stream) (bytes : Bytes)
    (w : Drive)
    → (write_output sys (created at_) chosen ucode bytes w).0 ≡ ok tt
    → Ended ucode
unfolding write_output
write_output-Ended sys at_ chosen ucode bytes w e =
    write_archive-Ended (to_file sys at_) sys.buffer_size io_failed encoder_failed sys.gz sys.zs
      sys.nproc chosen ucode bytes (held_by (created at_) w) e

-- Where the output is created, in place of what was there.
create_file-ok :
    (h : Host) (m : Machine) (p : FilePath) (w w' : Drive) (output : Output)
    → create_below h m p w ≡ (ok output, w')
    → (output ≡ created (m.locate p)) × (w' ≡ set_file (m.locate p) [] w)
create_file-ok h m p w w' output e = elim (Bool-cases (parent_exists h (parent p))) [
  | inl there ↦
      let (_, _, f) = continue-ok (m.create p) _ w (rw there at e) in
      (cc (ap (λ r. r.0) f), ap (λ r. r.1) (sym f))
  | inr missing ↦ cc (ap (λ r. r.0) (rw missing at e))
]

output_from_path-ok :
    (h : Host) (m : Machine) (p : FilePath) (w w' : Drive) (output : Output)
    → same p dash ≡ false
    → output_from_path h m p w ≡ (ok output, w')
    → (path : FilePath) × (absolute_path m p ≡ ok path)
      × (output ≡ created (m.locate path))
      × (w' ≡ set_file (m.locate path) [] w)
unfolding output_from_path
output_from_path-ok h m p w w' output n e =
    let (path, a, f) = continue-ok (absolute_path m p) _ w (rw n at e) in
    let (o, d) = create_file-ok h m path w w' output f in (path, a, o, d)

-- What the output of a run holds: what is read of the microcode bundle, to its end, and behind it
-- what the encoder is to write.
pub record Holds (sys : System) (ucode : Option FilePath) (at_ : FilePath) (c : Compressors)
    (chosen : Encoder) (serialized : Bytes) (w w' : Drive) : Type 0 where
  pub stream : Option Stream
  pub opened : (open_ucode sys ucode (set_file at_ [] w)).0 ≡ ok stream
  pub ended : Ended stream
  pub content : get at_ w'.files ≡ some (bundle stream ++ encode c chosen serialized)

written-Holds :
    (sys : System) (ucode : Option FilePath) (output path : FilePath) (c : Compressors)
    (chosen : Encoder) (serialized : Bytes) (w w' : Drive)
    (t : Takes Bytes (to_file sys (sys.machine.locate path)) (λ x. x))
    → same output dash ≡ false
    → absolute_path sys.machine output ≡ ok path
    → Compresses sys.gz sys.zs sys.nproc
        (total (to_file sys (sys.machine.locate path)) (λ x. x) t)
        c
        chosen
    → (on_drive (output_from_path sys.env.host sys.machine output) >>= λ o.
          (open_ucode sys ucode >>= λ read. write_output sys o chosen read serialized))
        w
      ≡ (ok tt, w')
    → Holds sys ucode (sys.machine.locate path) c chosen serialized w w'
written-Holds sys ucode output path c chosen serialized w w' t n a k e =
    let opened = output_from_path sys.env.host sys.machine output w in
    let (o, e₁, f) = continue-ok (map_err io_failed opened.0) _ opened.1 e in
    let (path', a', eo, ed) =
      output_from_path-ok sys.env.host sys.machine output w opened.1 o n
        (ap (λ r. (r, opened.1)) (map_err-ok io_failed opened.0 e₁)) in
    let at_ = sys.machine.locate path in
    let empty = set_file at_ [] w in
    let same_at : sys.machine.locate path' ≡ at_ =
      ap sys.machine.locate (ok-injective (sym a' ∙ a)) in
    let g =
      subst
        (λ (r : Output × Drive).
          (open_ucode sys ucode >>= λ read. write_output sys r.0 chosen read serialized) r.1
          ≡ (ok tt, w'))
        (λ i.
          ((eo ∙ ap created same_at) i, (ed ∙ ap (λ (p : FilePath). set_file p [] w) same_at) i))
        f in
    let read = open_ucode sys ucode empty in
    let (stream, e₂, l) = continue-ok read.0 _ read.1 g in
    let ended = write_output-Ended sys at_ chosen stream serialized read.1 (ap (λ r. r.0) l) in
    let unchanged : get at_ read.1.files ≡ some [] =
      ap (λ (d : Drive). get at_ d.files) (open_ucode-same sys ucode empty)
      ∙ get-insert_self at_ [] w.files in
    record {
      stream = stream;
      opened = e₂;
      ended = ended;
      content =
          ap (λ (r : Result CliError Unit × Drive). get at_ r.1.files) (sym l)
          ∙ (write_output-Leaves sys at_ c chosen stream serialized read.1 t k ended unchanged).1;
    }

-- when a run of the initramfs command succeeds, and the output is not standard output, then the
-- archive was built and serialized, and the output holds what the reads of the microcode bundle
-- bring to its end, where one is named, and behind it what the encoder is to write for the
-- archive, zstd where none is named, and nothing else. The output must take at least one byte of
-- every call of write, and the compressor, if one is used, must leave a whole stream once it has
-- been fed and finished.
pub run-Holds :
    (sys : System) (fuel : ℕ) (args : Args) (ucode modules : Option FilePath)
    (output path : FilePath) (c : Compressors) (w w' : Drive)
    (t : Takes Bytes (to_file sys (sys.machine.locate path)) (λ x. x))
    → args.command ≡ initramfs ucode modules output
    → same output dash ≡ false
    → absolute_path sys.machine output ≡ ok path
    → Compresses sys.gz sys.zs sys.nproc
        (total (to_file sys (sys.machine.locate path)) (λ x. x) t)
        c
        (unwrap_or_zstd args.encoder)
    → run sys fuel args w ≡ (ok tt, w')
    → (serialized : Bytes) × (initramfs_bytes sys fuel args modules ≡ ok serialized)
      × Holds sys ucode (sys.machine.locate path) c (unwrap_or_zstd args.encoder) serialized w w'
unfolding run
run-Holds sys fuel args ucode modules output path c w w' t m n a k e =
    let (serialized, made, f) =
      continue-ok (initramfs_bytes sys fuel args modules) _ w (rw m at e) in
    (
      serialized,
      made,
      written-Holds sys ucode output path c (unwrap_or_zstd args.encoder) serialized w w' t n a k f,
    )

-- when the archive has been built and the output could be created, and the microcode bundle is not
-- there once the output is, the run fails with the bundle's path and leaves an empty output in
-- place of what was there.
pub run-ucode_missing :
    (sys : System) (fuel : ℕ) (args : Args) (ucode : FilePath) (modules : Option FilePath)
    (output path : FilePath) (serialized : Bytes) (w : Drive)
    → args.command ≡ initramfs (some ucode) modules output
    → initramfs_bytes sys fuel args modules ≡ ok serialized
    → same output dash ≡ false
    → same ucode dash ≡ false
    → absolute_path sys.machine output ≡ ok path
    → parent_exists sys.env.host (parent path) ≡ true
    → sys.machine.create path ≡ ok tt
    → get (sys.machine.locate ucode) (set_file (sys.machine.locate path) [] w).files ≡ none
    → sys.env.host.exists ucode ≡ false
    → run sys fuel args w
      ≡ (err (io_failed (not_found ucode)), set_file (sys.machine.locate path) [] w)
unfolding run output_from_path input_from_path open_ucode
run-ucode_missing sys fuel args ucode modules output path serialized w c made n u a there creates
      fresh missing =
    rw (c, made, n, a, there, creates, u, fresh, missing) refl
