-- ===== src/Encoder/Stream.antt =====
-- Encoder.encode of crates/elusive/src/encoder.rs on an output that may fail, and the output of
-- crates/elusive/src/cli.rs around it. The two compressors are parameters: what they do to the
-- output when they are made, fed and finished.
pub mod Refinement
pub mod Output
use elusive.Base.{
  ℕ, Option, none, some, List, [], ◌∷◌, Bytes, pure, Result, ok, map_err, Exec, continue, lift,
  ◌>>=◌, ◌>>◌,
}
use elusive.Host.{IoError}
use elusive.Encoder.{Encoder, EncoderError, no_encoder, gzip, zstd, input_output}
use elusive.Io.{Stream}
use elusive.Io.Buffer.{Write, BufWriter, new, buffered, dropped}

-- `write_all` of an output of state `S`.
abbrev pub WriteAll : Type 0 → Type 0
WriteAll S = Bytes → Exec S IoError Unit

-- `flate2::write::GzEncoder`: its state, by the calls of `write_all` and of `finish`, which a drop
-- makes too.
pub record GzEncoder (S : Type 0) (G : Type 0) : Type 0 where
  pub new : G
  pub write_all : Bytes → Exec (G × S) IoError Unit
  pub finish : G → Exec S IoError Unit

-- `zstd::Encoder`
pub record ZstdEncoder (S : Type 0) (Z : Type 0) : Type 0 where
  pub new : Result IoError Z
  pub multithread : ℕ → Z → Result IoError Z
  pub write_all : Bytes → Exec (Z × S) IoError Unit
  pub finish : Z → Exec S IoError Unit

module _ {S G Z : Type 0} (gz : GzEncoder S G) (zs : ZstdEncoder S Z) where
  -- The encoder is dropped at the end of its branch, which finishes it and passes over an error.
  abbrev pub gzip_into : Bytes → Exec S IoError Unit
  gzip_into bytes out = let r = gz.write_all bytes (gz.new, out) in (r.0, (gz.finish r.1.0 r.1.1).1)

  -- `zstdenc.write_all(bytes)?` and `zstdenc.finish()?`
  abbrev pub zstd_finished : Bytes → Z → Exec S IoError Unit
  zstd_finished bytes z out =
      let r = zs.write_all bytes (z, out) in continue r.0 (λ _. zs.finish r.1.0) r.1.1

  abbrev pub zstd_into : ℕ → Bytes → Exec S IoError Unit
  zstd_into nproc bytes = do
    z ← lift zs.new
    z ← lift (zs.multithread nproc z)
    zstd_finished bytes z

  abbrev pub written_into : WriteAll S → ℕ → Encoder → Bytes → Exec S IoError Unit
  written_into write_all nproc no_encoder bytes = write_all bytes
  written_into write_all nproc gzip bytes = gzip_into bytes
  written_into write_all nproc zstd bytes = zstd_into nproc bytes

  -- `Encoder::encode`, with `num_cpus::get()`
  unfoldable pub encode_into : WriteAll S → ℕ → Encoder → Bytes → Exec S EncoderError Unit
  encode_into write_all nproc encoder bytes out =
      let r = written_into write_all nproc encoder bytes out in (map_err input_output r.0, r.1)

-- `?` on a result, in the error type around it.
abbrev pub failing : {S D E : Type 0} → (D → E) → Exec S D Unit → Exec S E Unit
failing f m s = let r = m s in (map_err f r.0, r.1)

module _ {W : Type 0} (write : Write W) (capacity : ℕ) where
  unfoldable pub copy_chunks : List Bytes → Exec (BufWriter W) IoError Unit
  unfolding buffered
  copy_chunks [] = pure tt
  copy_chunks (chunk ∷ chunks) = buffered write capacity chunk >> copy_chunks chunks

  -- `io::copy` from the microcode bundle, which writes what each read brings.
  abbrev pub copied : Option Stream → Exec (BufWriter W) IoError Unit
  copied none = pure tt
  copied (some stream) = copy_chunks stream.chunks >> lift stream.ending

  -- From `BufWriter::new(output)` to the end, where the buffer is dropped. `on_copy` and
  -- `on_encode` take the errors in.
  unfoldable pub write_archive :
      {G Z E : Type 0}
      → (IoError → E)
      → (EncoderError → E)
      → GzEncoder (BufWriter W) G
      → ZstdEncoder (BufWriter W) Z
      → ℕ
      → Encoder
      → Option Stream
      → Bytes
      → Exec W E Unit
  unfolding buffered dropped encode_into copy_chunks
  write_archive on_copy on_encode gz zs nproc encoder ucode bytes w =
      let r =
        (failing on_copy (copied ucode)
            >> failing on_encode (encode_into gz zs (buffered write capacity) nproc encoder bytes))
          (new write w) in
      (r.0, dropped write r.1)
