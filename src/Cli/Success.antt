-- ===== src/Cli/Success.antt =====
-- `elusive` of crates/elusive/src/cli.rs: when the initramfs command succeeds.
use elusive.Base.{ℕ, true, false, Option, [], ◌++◌, ◌≡◌, refl, Bytes, ok}
use elusive.Base.Order.{same}
use elusive.FilePath.{FilePath, path_ord, parent}
use elusive.OrdMap.Laws.{get-insert_self}
use elusive.Encoder.Stream.Refinement.{Compressors, encode, Compresses}
use elusive.Encoder.Stream.Output.{bundle, Ended}
use elusive.Io.{
  Drive, Stream, created, dash, set_file, absolute_path, parent_exists, output_from_path,
}
use elusive.Io.Buffer.Delivery.{Takes, total}
use elusive.Cli.{System, Args, initramfs, open_ucode, initramfs_bytes, unwrap_or_zstd, run}
use elusive.Cli.Frame.{open_ucode-same}
use elusive.Cli.Run.{Leaves, to_file, write_output-Leaves}

-- An output that can be created.
pub record Creates (sys : System) (output path : FilePath) : Type 0 where
  pub not_dash : same output dash ≡ false
  pub absolute : absolute_path sys.machine output ≡ ok path
  pub parent_there : parent_exists sys.env.host (parent path) ≡ true
  pub creates : sys.machine.create path ≡ ok tt

output_from_path-created :
    (sys : System) (output path : FilePath) (w : Drive)
    → Creates sys output path
    → output_from_path sys.env.host sys.machine output w
      ≡ (ok (created (sys.machine.locate path)), set_file (sys.machine.locate path) [] w)
unfolding output_from_path
output_from_path-created sys output path w c =
    rw (c.not_dash, c.absolute, c.parent_there, c.creates) refl

-- a run of the initramfs command ends well, and the output then holds the bytes of the microcode
-- bundle and behind them what the encoder is to write, where the archive could be built and
-- serialized, the output is not standard output, lies in a directory that exists and can be
-- created, and takes at least one byte of every call of write, the bundle, if one is named, can be
-- opened once the output is there and read to its end, and the compressor, if one is used, leaves
-- a whole stream once it has been fed and finished.
pub run-Leaves :
    (sys : System) (fuel : ℕ) (args : Args) (ucode modules : Option FilePath)
    (output path : FilePath) (c : Compressors) (serialized : Bytes) (stream : Option Stream)
    (w : Drive) (t : Takes Bytes (to_file sys (sys.machine.locate path)) (λ x. x))
    → args.command ≡ initramfs ucode modules output
    → initramfs_bytes sys fuel args modules ≡ ok serialized
    → Creates sys output path
    → (open_ucode sys ucode (set_file (sys.machine.locate path) [] w)).0 ≡ ok stream
    → Ended stream
    → Compresses sys.gz sys.zs sys.nproc
        (total (to_file sys (sys.machine.locate path)) (λ x. x) t)
        c
        (unwrap_or_zstd args.encoder)
    → Leaves
        (run sys fuel args w)
        (sys.machine.locate path)
        (bundle stream ++ encode c (unwrap_or_zstd args.encoder) serialized)
unfolding run
run-Leaves sys fuel args ucode modules output path c serialized stream w t m made o r ended k =
    let at_ = sys.machine.locate path in
    let empty = set_file at_ [] w in
    let read : open_ucode sys ucode empty ≡ (ok stream, empty) =
      λ i. (r i, open_ucode-same sys ucode empty i) in
    rw (m, made, output_from_path-created sys output path w o, read)
      (write_output-Leaves sys at_ c (unwrap_or_zstd args.encoder) stream serialized empty t k ended
        (get-insert_self at_ [] w.files))
