-- ===== src/Tests/Encoders.antt =====
-- Runs of the theorems on encoders and outputs.
use elusive.Base.{ℕ, suc, ◌≤◌, [], ◌∷◌, ◌++◌, some, Bytes, length, take, ok, err, ◌≡◌, refl, arith}
use elusive.Host.{IoError, os_error}
use elusive.Io.{Stream}
use elusive.Encoder.{no_encoder, zstd, input_output}
use elusive.Encoder.Stream.{WriteAll, GzEncoder, ZstdEncoder, encode_into, write_archive}
use elusive.Encoder.Stream.Refinement.{Compressors, encode_into-encode}
use elusive.Encoder.Stream.Output.{write_archive-Takes, write_archive-unnoticed}
use elusive.Io.Buffer.{Write, BufWriter}
use elusive.Io.Buffer.Delivery.{Takes}

-- Compressors that put a byte in front, when they are finished.
abbrev gz : GzEncoder Bytes Bytes
gz = record {
  new = [];
  write_all = λ bytes (z, out). (ok tt, (z ++ bytes, out));
  finish = λ z out. (ok tt, out ++ (31 ∷ z));
}

abbrev zs : ZstdEncoder Bytes Bytes
zs = record {
  new = ok [];
  multithread = λ n z. ok z;
  write_all = λ bytes (z, out). (ok tt, (z ++ bytes, out));
  finish = λ z out. (ok tt, out ++ (40 ∷ z));
}

abbrev streams : Compressors
streams = record { gz_encode = λ bytes. 31 ∷ bytes; zstd_encode = λ bytes. 40 ∷ bytes }

-- An output in memory, `Vec<u8>`, which takes everything.
abbrev write_vec : WriteAll Bytes
write_vec bytes out = (ok tt, out ++ bytes)

encode_into-encode_example :
    ((encode_into gz zs write_vec 4 zstd (1 ∷ 2 ∷ []) (9 ∷ [])).0 ≡ ok tt)
    × ((encode_into gz zs write_vec 4 zstd (1 ∷ 2 ∷ []) (9 ∷ [])).1 ≡ 9 ∷ 40 ∷ 1 ∷ 2 ∷ [])
encode_into-encode_example =
    encode_into-encode gz zs 4 (λ out. out) streams write_vec zstd (1 ∷ 2 ∷ []) (9 ∷ [])
      (λ bytes out. (refl, refl)) ([], [], refl, refl, (λ bytes out. (refl, refl, refl)))

-- Two bytes at a time.
abbrev slow : Write Bytes
slow [] w = (ok 0, w)
slow (a ∷ []) w = (ok 1, w ++ (a ∷ []))
slow (a ∷ b ∷ bytes) w = (ok 2, w ++ (a ∷ b ∷ []))

slow-Takes : Takes Bytes slow (λ w. w)
slow-Takes = record { takes = taken }
  where
    taken :
        (b : ℕ) (bytes w : Bytes)
        → (n : ℕ) × (n ≤ length bytes)
          × ((slow (b ∷ bytes) w).0 ≡ ok (suc n))
          × ((slow (b ∷ bytes) w).1 ≡ w ++ (b ∷ take n bytes))
    taken b [] w = (0, omega arith, refl, refl)
    taken b (c ∷ bytes) w = (1, omega arith, refl, refl)

abbrev buffered_gz : GzEncoder (BufWriter Bytes) Unit
buffered_gz = record { new = tt; write_all = λ bytes s. (ok tt, s); finish = λ z out. (ok tt, out) }

abbrev buffered_zs : ZstdEncoder (BufWriter Bytes) Unit
buffered_zs = record {
  new = ok tt;
  multithread = λ n z. ok z;
  write_all = λ bytes s. (ok tt, s);
  finish = λ z out. (ok tt, out);
}

-- Three bytes, in two reads.
abbrev three : Stream
three = record { chunks = (1 ∷ 2 ∷ []) ∷ (3 ∷ []) ∷ []; ending = ok tt }

write_archive-Takes_example :
    ((write_archive slow 4
        (λ (e : IoError). input_output e)
        (λ e. e)
        buffered_gz
        buffered_zs
        4
        no_encoder
        (some three)
        (4 ∷ 5 ∷ 6 ∷ [])
        []).0
      ≡ ok tt)
    × ((write_archive slow 4
          (λ (e : IoError). input_output e)
          (λ e. e)
          buffered_gz
          buffered_zs
          4
          no_encoder
          (some three)
          (4 ∷ 5 ∷ 6 ∷ [])
          []).1
        ≡ 1 ∷ 2 ∷ 3 ∷ 4 ∷ 5 ∷ 6 ∷ [])
write_archive-Takes_example =
    write_archive-Takes slow 4 (λ (e : IoError). input_output e) (λ e. e) buffered_gz buffered_zs 4
      (λ w. w) slow-Takes (some three) (4 ∷ 5 ∷ 6 ∷ []) [] refl

-- A disk that is full.
abbrev full : Write Bytes
full bytes w = (err (os_error 28), w)

write_archive-unnoticed_example :
    write_archive full 8192
      (λ (e : IoError). input_output e)
      (λ e. e)
      buffered_gz
      buffered_zs
      4
      no_encoder
      (some three)
      (4 ∷ 5 ∷ 6 ∷ [])
      []
    ≡ (ok tt, [])
unfolding elusive.Io.Buffer.write_all elusive.Io.Buffer.write_rest
write_archive-unnoticed_example =
    write_archive-unnoticed full 8192 (λ (e : IoError). input_output e) (λ e. e) buffered_gz
      buffered_zs 4 (some three) (4 ∷ 5 ∷ 6 ∷ []) [] refl (omega arith)
