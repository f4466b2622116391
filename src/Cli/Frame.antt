-- ===== src/Cli/Frame.antt =====
-- `elusive` of crates/elusive/src/cli.rs: the files that a run changes.
use elusive.Base.{
  ℕ, Option, none, some, ◌≡◌, refl, ap, ◌∙◌, Bytes, Result, ok, err, panic, diverge, map_err,
  continue,
}
use elusive.FilePath.{FilePath, path_ord}
use elusive.OrdMap.{get}
use elusive.Host.{IoError}
use elusive.Encoder.{Encoder}
use elusive.Io.{Drive, Input, Output, Stream, input_from_path, reads, output_from_path}
use elusive.Io.Frame.{
  Avoids, Elsewhere, Leaves, hold-Avoids, input_from_path-same, output_from_path-Leaves,
}
use elusive.Cli.{
  System, Args, Command, initramfs, microcode, CliError, io_failed, Program, open_ucode,
  write_output, initramfs_bytes, microcode_bytes, unwrap_or_zstd, run,
}

-- The program leaves the file as it is.
abbrev pub Keeps : {A : Type 0} → FilePath → Program A → Type 0
Keeps q m = (w : Drive) → get q (m w).1.files ≡ get q w.files

continue-Keeps :
    {A B : Type 0} (q : FilePath) (r : Result CliError A) (f : A → Program B)
    → ((a : A) → Keeps q (f a))
    → Keeps q (continue r f)
continue-Keeps q (ok a) f h w = h a w
continue-Keeps q (err e) f h w = refl
continue-Keeps q panic f h w = refl
continue-Keeps q diverge f h w = refl

pub open_ucode-same :
    (sys : System) (ucode : Option FilePath) (w : Drive) → (open_ucode sys ucode w).1 ≡ w
unfolding open_ucode
open_ucode-same sys none w = refl
open_ucode-same sys (some p) w =
    opened (input_from_path sys.env.host sys.machine p w)
    ∙ input_from_path-same sys.env.host sys.machine p w
  where
    opened :
        (r : Result IoError Input × Drive)
        → (continue {B = Option Stream}
            (map_err io_failed r.0)
            (λ i w'. (ok (some (reads sys.machine i)), w'))
            r.1).1
          ≡ r.1
    opened (ok i, w') = refl
    opened (err e, w') = refl
    opened (panic, w') = refl
    opened (diverge, w') = refl

write_output-Keeps :
    (sys : System) (q : FilePath) (output : Output) (chosen : Encoder) (ucode : Option Stream)
    (bytes : Bytes)
    → Avoids q output
    → Keeps q (write_output sys output chosen ucode bytes)
unfolding write_output
write_output-Keeps sys q output chosen ucode bytes a w = hold-Avoids q output _ w a

-- What follows once the output is open.
after-Keeps :
    (q : FilePath) (w : Drive) (r : Result IoError Output × Drive) (f : Output → Program Unit)
    → Leaves q w r
    → ((output : Output) → Avoids q output → Keeps q (f output))
    → get q (continue (map_err io_failed r.0) f r.1).1.files ≡ get q w.files
after-Keeps q w (ok output, w') f (same, a) h = h output a w' ∙ same
after-Keeps q w (err e, w') f same h = same
after-Keeps q w (panic, w') f same h = same
after-Keeps q w (diverge, w') f same h = same

-- The path of the output.
abbrev pub output_of : Command → FilePath
output_of (initramfs ucode modules output) = output
output_of (microcode output) = output

by_command-Keeps :
    (sys : System) (fuel : ℕ) (args : Args) (command : Command) (q : FilePath)
    → args.command ≡ command
    → Elsewhere sys.machine (output_of command) q
    → Keeps q (run sys fuel args)
unfolding run
by_command-Keeps sys fuel args (initramfs ucode modules output) q e n w = rw e (
    continue-Keeps q (initramfs_bytes sys fuel args modules) _
      (λ serialized w'.
        after-Keeps q w' (output_from_path sys.env.host sys.machine output w') _
          (output_from_path-Leaves sys.env.host sys.machine output q w' n)
          λ o a w''.
            let read = open_ucode sys ucode w'' in
            continue-Keeps q read.0
              (λ stream. write_output sys o (unwrap_or_zstd args.encoder) stream serialized)
              (λ stream.
                write_output-Keeps sys q o (unwrap_or_zstd args.encoder) stream serialized a)
              read.1
            ∙ ap (λ (d : Drive). get q d.files) (open_ucode-same sys ucode w''))
      w)
by_command-Keeps sys fuel args (microcode output) q e n w = rw e (
    continue-Keeps q (microcode_bytes sys args) _
      (λ serialized w'.
        after-Keeps q w' (output_from_path sys.env.host sys.machine output w') _
          (output_from_path-Leaves sys.env.host sys.machine output q w' n)
          λ o a. write_output-Keeps sys q o (unwrap_or_zstd args.encoder) none serialized a)
      w)

-- a run of either command, whatever its result, leaves alone every file but the one that the
-- output leads to.
pub run-frame :
    (sys : System) (fuel : ℕ) (args : Args) (q : FilePath) (w : Drive)
    → Elsewhere sys.machine (output_of args.command) q
    → get q (run sys fuel args w).1.files ≡ get q w.files
run-frame sys fuel args q w n = by_command-Keeps sys fuel args args.command q refl n w
