-- ===== src/Encoder/Stream/Output.antt =====
-- The output of crates/elusive/src/cli.rs behind its `BufWriter`: what arrives, and what is noticed.
use elusive.Base.{
  ℕ, ◌+◌, ◌<◌, Option, none, some, List, [], ◌∷◌, ◌++◌, ◌≡◌, refl, sym, ap, ◌∙◌, Bytes, length,
  arith, continue, continue-ok, map_err-ok, lift, append_assoc, append-nil, length-append, ok,
  map_err,
}
use elusive.Host.{IoError}
use elusive.Encoder.{Encoder, EncoderError, no_encoder}
use elusive.Encoder.Stream.{
  GzEncoder, ZstdEncoder, encode_into, copy_chunks, copied, failing, write_archive,
}
use elusive.Encoder.Stream.Refinement.{Compressors, encode, Compresses, encode_into-encode}
use elusive.Io.{Stream}
use elusive.Io.Buffer.{Write, BufWriter, write_all, new, flush_buf, buffered, dropped}
use elusive.Io.Buffer.Delivery.{Takes, total, flush_buf-Takes, buffered-Adds}

abbrev pub joined : List Bytes → Bytes
joined [] = []
joined (chunk ∷ chunks) = chunk ++ joined chunks

-- What is read of the microcode bundle.
abbrev pub bundle : Option Stream → Bytes
bundle none = []
bundle (some stream) = joined stream.chunks

-- The reads come to the end of the bundle.
abbrev pub Ended : Option Stream → Type 0
Ended none = Unit
Ended (some stream) = stream.ending ≡ ok tt

module _ {W G Z E : Type 0} (write : Write W) (capacity : ℕ) (on_copy : IoError → E)
    (on_encode : EncoderError → E) (gz : GzEncoder (BufWriter W) G)
    (zs : ZstdEncoder (BufWriter W) Z) (nproc : ℕ) where
  module _ (content : W → Bytes) (t : Takes W write content) where
    abbrev held : BufWriter W → Bytes
    held = total write content t

    copy_chunks-Takes :
        (chunks : List Bytes) (b : BufWriter W)
        → ((copy_chunks write capacity chunks b).0 ≡ ok tt)
          × (held (copy_chunks write capacity chunks b).1 ≡ held b ++ joined chunks)
    unfolding copy_chunks
    copy_chunks-Takes [] b = (refl, sym (append-nil (held b)))
    copy_chunks-Takes (chunk ∷ chunks) b =
        let (done, first) = buffered-Adds write content t capacity chunk b in
        let (done', rest) = copy_chunks-Takes chunks (buffered write capacity chunk b).1 in
        rw done (done', rest ∙ rw first (append_assoc (held b) chunk (joined chunks)))

    pub copied-Takes :
        (ucode : Option Stream) (b : BufWriter W)
        → Ended ucode
        → ((copied write capacity ucode b).0 ≡ ok tt)
          × (held (copied write capacity ucode b).1 ≡ held b ++ bundle ucode)
    copied-Takes none b h = (refl, sym (append-nil (held b)))
    copied-Takes (some stream) b h =
        let (done, rest) = copy_chunks-Takes stream.chunks b in rw (done, h) (refl, rest)

    -- With an encoder that writes what it is to write.
    pub write_archive-encode :
        (c : Compressors) (encoder : Encoder) (ucode : Option Stream) (bytes : Bytes) (w : W)
        → Compresses gz zs nproc held c encoder
        → Ended ucode
        → ((write_archive write capacity on_copy on_encode gz zs nproc encoder ucode bytes w).0
            ≡ ok tt)
          × (content
                (write_archive write capacity on_copy on_encode gz zs nproc encoder ucode bytes w).1
              ≡ content w ++ (bundle ucode ++ encode c encoder bytes))
    unfolding write_archive dropped
    write_archive-encode c encoder ucode bytes w k h =
        let start = new write w in
        let (done, front) = copied-Takes ucode start h in
        let mid = (copied write capacity ucode start).1 in
        let (done', back) =
          encode_into-encode gz zs nproc held c (buffered write capacity) encoder bytes mid
            (buffered-Adds write content t capacity) k in
        let end = (encode_into gz zs (buffered write capacity) nproc encoder bytes mid).1 in
        let (_, _, handed) = flush_buf-Takes write content t end in
        rw (done, done')
          (
            refl,
            handed
                ∙ back
                ∙ rw front (
                    simp (append-nil)
                      (append_assoc (content w) (bundle ucode) (encode c encoder bytes))),
          )

    -- without compression, on an output that takes at least one byte of every call, the microcode
    -- bundle, if there is one and its reads come to its end, and behind it the archive arrive
    -- whole and in order behind what was there, for every capacity of the buffer, however the
    -- reads divide the bundle and however few bytes a call takes, and the result is a success.
    pub write_archive-Takes :
        (ucode : Option Stream) (bytes : Bytes) (w : W)
        → Ended ucode
        → ((write_archive write capacity on_copy on_encode gz zs nproc no_encoder ucode bytes w).0
            ≡ ok tt)
          × (content
                (write_archive write capacity on_copy on_encode gz zs nproc no_encoder ucode bytes
                  w).1
              ≡ content w ++ (bundle ucode ++ bytes))
    write_archive-Takes ucode bytes w h =
        write_archive-encode (record { gz_encode = λ x. x; zstd_encode = λ x. x }) no_encoder ucode
          bytes w tt h

  -- A success has read the bundle to its end.
  pub write_archive-Ended :
      (chosen : Encoder) (ucode : Option Stream) (bytes : Bytes) (w : W)
      → (write_archive write capacity on_copy on_encode gz zs nproc chosen ucode bytes w).0 ≡ ok tt
      → Ended ucode
  unfolding write_archive
  write_archive-Ended chosen none bytes w e = tt
  write_archive-Ended chosen (some stream) bytes w e =
      let r = copied write capacity (some stream) (new write w) in
      let rest =
        failing on_encode (encode_into gz zs (buffered write capacity) nproc chosen bytes) in
      let (_, e₁, _) =
        continue-ok (map_err on_copy r.0) (λ _. rest) r.1
          (ap (λ x. (x, (continue (map_err on_copy r.0) (λ _. rest) r.1).1)) e) in
      let c = copy_chunks write capacity stream.chunks (new write w) in
      let (_, _, e₂) =
        continue-ok c.0 (λ _. lift stream.ending) c.1
          (ap (λ x. (x, r.1)) (map_err-ok on_copy r.0 e₁)) in
      ap (λ x. x.0) e₂

  pushed :
      (bytes : Bytes) (b : BufWriter W)
      → length b.buf + length bytes < capacity
      → buffered write capacity bytes b ≡ (ok tt, record b { buf = b.buf ++ bytes })
  unfolding buffered
  pushed bytes b h = ground arith

  chunks_pushed :
      (chunks : List Bytes) (b : BufWriter W)
      → length b.buf + length (joined chunks) < capacity
      → copy_chunks write capacity chunks b ≡ (ok tt, record b { buf = b.buf ++ joined chunks })
  unfolding copy_chunks
  chunks_pushed [] b h = λ i. (ok tt, record b { buf = sym (append-nil b.buf) i })
  chunks_pushed (chunk ∷ chunks) b h =
      rw (pushed chunk b (omega (arith, h, length-append chunk (joined chunks)))) (
        chunks_pushed chunks (record b { buf = b.buf ++ chunk })
          (omega (arith, h, length-append chunk (joined chunks), length-append b.buf chunk))
        ∙ λ i. (ok tt, record b { buf = append_assoc b.buf chunk (joined chunks) i }))

  copied_pushed :
      (ucode : Option Stream) (b : BufWriter W)
      → Ended ucode
      → length b.buf + length (bundle ucode) < capacity
      → copied write capacity ucode b ≡ (ok tt, record b { buf = b.buf ++ bundle ucode })
  copied_pushed none b e h = λ i. (ok tt, record b { buf = sym (append-nil b.buf) i })
  copied_pushed (some stream) b e h = rw (chunks_pushed stream.chunks b h, e) refl

  -- without compression, when the reads of the microcode bundle come to its end and it and the
  -- archive together are shorter than the buffer, the result is a success whatever the output
  -- answers, since the only call that reaches the output is that of the dropped buffer.
  pub write_archive-unnoticed :
      (ucode : Option Stream) (bytes : Bytes) (w : W)
      → Ended ucode
      → length (bundle ucode) + length bytes < capacity
      → write_archive write capacity on_copy on_encode gz zs nproc no_encoder ucode bytes w
        ≡ (ok tt, (write_all write (bundle ucode ++ bytes) w).1)
  unfolding write_archive encode_into dropped flush_buf write_all
  write_archive-unnoticed ucode bytes w e h =
      rw
        (
          copied_pushed ucode (new write w) e (omega (arith, h)),
          pushed bytes (record { buf = bundle ucode; inner = w }) h,
        )
        refl
