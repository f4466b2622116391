-- ===== src/Encoder/Stream/Refinement.antt =====
-- Encoder.encode of crates/elusive/src/encoder.rs, call by call, against the documented result of the
-- compressors: a whole stream for the bytes.
use elusive.Base.{ℕ, ◌++◌, ◌≡◌, refl, Bytes, ok}
use elusive.Encoder.{Encoder, no_encoder, gzip, zstd}
use elusive.Encoder.Stream.{WriteAll, GzEncoder, ZstdEncoder, encode_into}

-- The streams of the two formats.
pub record Compressors : Type 0 where
  pub gz_encode : Bytes → Bytes
  pub zstd_encode : Bytes → Bytes

-- What is to be written for some bytes.
abbrev pub encode : Compressors → Encoder → Bytes → Bytes
encode c no_encoder bytes = bytes
encode c gzip bytes = c.gz_encode bytes
encode c zstd bytes = c.zstd_encode bytes

-- An output that takes whatever is written, behind what it held.
abbrev pub TakesAll : {S : Type 0} → WriteAll S → (S → Bytes) → Type 0
TakesAll {S} write_all held =
    (bytes : Bytes) (out : S)
    → ((write_all bytes out).0 ≡ ok tt) × (held (write_all bytes out).1 ≡ held out ++ bytes)

module _ {S G Z : Type 0} (gz : GzEncoder S G) (zs : ZstdEncoder S Z) (nproc : ℕ) (held : S → Bytes)
    (c : Compressors) where
  -- A compressor that is fed some bytes and then finished has put a whole stream into the output.
  abbrev pub Compresses : Encoder → Type 0
  Compresses no_encoder = Unit
  Compresses gzip =
      (bytes : Bytes) (out : S)
      → let fed = gz.write_all bytes (gz.new, out) in
        (fed.0 ≡ ok tt) × (held (gz.finish fed.1.0 fed.1.1).1 ≡ held out ++ c.gz_encode bytes)
  Compresses zstd =
      (z z' : Z) × (zs.new ≡ ok z)
      × (zs.multithread nproc z ≡ ok z')
      × ((bytes : Bytes) (out : S)
          → let fed = zs.write_all bytes (z', out) in
            (fed.0 ≡ ok tt)
            × ((zs.finish fed.1.0 fed.1.1).0 ≡ ok tt)
            × (held (zs.finish fed.1.0 fed.1.1).1 ≡ held out ++ c.zstd_encode bytes))

  -- encode succeeds, and behind what the output held there is then what the encoder is to write:
  -- the bytes themselves, or the whole compressed stream for them. The output must take what is
  -- written to it, and the compressor that is used must leave a whole stream once it has been fed
  -- and finished.
  pub encode_into-encode :
      (write_all : WriteAll S) (encoder : Encoder) (bytes : Bytes) (out : S)
      → TakesAll write_all held
      → Compresses encoder
      → ((encode_into gz zs write_all nproc encoder bytes out).0 ≡ ok tt)
        × (held (encode_into gz zs write_all nproc encoder bytes out).1
            ≡ held out ++ encode c encoder bytes)
  unfolding encode_into
  encode_into-encode write_all no_encoder bytes out t h =
      let (done, there) = t bytes out in rw done (refl, there)
  encode_into-encode write_all gzip bytes out t h =
      let (done, there) = h bytes out in rw done (refl, there)
  encode_into-encode write_all zstd bytes out t (z, z', made, threads, h) =
      let (fed, done, there) = h bytes out in rw (made, threads, fed, done) (refl, there)
