-- ===== src/Newc/Chunk.antt =====
-- NewcSerializer.serialize_entry of crates/elusive/src/newc.rs: what one entry adds to the
-- buffer.
use native.Mathlib.Decide.{ℕ_discrete}
use elusive.Base.{
  ℕ, ◌+◌, ◌-◌, ◌%◌, ◌^◌, ◌≡◌, ◌≢◌, sym, ap, ◌∙◌, Option, none, some, [], ◌++◌, append_assoc,
  append-nil, Bytes, arith, ==_iff, ==_ne, length, length-append, length-replicate, replicate, ok,
}
use elusive.Entry.{Entry}
use elusive.Newc.{NewcSerializer, pad_buf, header, file_size, write_data, write_entry, ino_offset}
use elusive.Newc.Reader.{pad_len}

abbrev pub IsAligned : Bytes → Type 0
IsAligned s = length s % 4 ≡ 0

abbrev pub aligned : Bytes → Bytes
aligned s = s ++ replicate (pad_len (length s)) 0

pub aligned-IsAligned : (s : Bytes) → IsAligned (aligned s)
aligned-IsAligned s = omega (
  arith,
  length-append s (replicate (pad_len (length s)) 0),
  length-replicate {A = ℕ} (pad_len (length s)) 0,
)

pub append-IsAligned : (s t : Bytes) → IsAligned s → IsAligned t → IsAligned (s ++ t)
append-IsAligned s t h k = omega (arith, length-append s t)

pad_len_full : (n : ℕ) → n % 4 ≡ 0 → pad_len n ≡ 0
pad_len_full n h = omega arith

pad_len_rest : (n : ℕ) → n % 4 ≢ 0 → 4 - n % 4 ≡ pad_len n
pad_len_rest n h = omega arith

pad_buf-aligned : (s : Bytes) → pad_buf s ≡ aligned s
unfolding pad_buf
pad_buf-aligned s = elim (ℕ_discrete (length s % 4) 0) [
  | yes e ↦
      rw ((==_iff (length s % 4) 0).1 e)
        (sym (append-nil s) ∙ ap (λ j. s ++ replicate j 0) (sym (pad_len_full (length s) e)))
  | no n ↦ rw (==_ne (length s % 4) 0 n) (ap (λ j. s ++ replicate j 0) (pad_len_rest (length s) n))
]

pub pad_buf-append : (s t : Bytes) → IsAligned s → pad_buf (s ++ t) ≡ s ++ aligned t
pad_buf-append s t h =
    pad_buf-aligned (s ++ t)
    ∙ append_assoc s t _
    ∙ ap (λ j. s ++ (t ++ replicate j 0)) (omega (arith, length-append s t))

abbrev pub data_bytes : Option Bytes → Bytes
data_bytes none = []
data_bytes (some bytes) = bytes

abbrev pub chunk : ℕ → Entry → Bytes → Bytes
chunk ino entry filename =
    aligned (header ino entry.metadata (file_size entry.content) (length filename) ++ filename)
    ++ aligned (data_bytes entry.content)

pub chunk-IsAligned :
    (ino : ℕ) (entry : Entry) (filename : Bytes) → IsAligned (chunk ino entry filename)
chunk-IsAligned ino entry filename =
    append-IsAligned _ _
      (aligned-IsAligned
        (header ino entry.metadata (file_size entry.content) (length filename) ++ filename))
      (aligned-IsAligned (data_bytes entry.content))

write_data-append :
    (content : Option Bytes) (s : Bytes)
    → IsAligned s
    → write_data content s ≡ s ++ aligned (data_bytes content)
write_data-append none s h = sym (append-nil s)
write_data-append (some bytes) s h = pad_buf-append s bytes h

-- on a buffer whose length is a multiple of four, writing an entry appends the header with the
-- name, padded to a multiple of four, and the data, padded likewise; the count goes up by one in
-- 64 bits.
pub write_entry-chunk :
    (entry : Entry) (filename : Bytes) (s : NewcSerializer)
    → IsAligned s.buf
    → write_entry entry filename s ≡ (
      ok tt,
      record {
        count = (s.count + 1) % 2 ^ 64;
        buf = s.buf ++ chunk ((s.count + ino_offset) % 2 ^ 64) entry filename;
      },
    )
write_entry-chunk entry filename s h =
    ap (λ b. (ok tt, record { count = (s.count + 1) % 2 ^ 64; buf = b }))
      (ap (write_data entry.content) (
          ap pad_buf (append_assoc s.buf head filename) ∙ pad_buf-append s.buf (head ++ filename) h)
        ∙ write_data-append entry.content (s.buf ++ aligned (head ++ filename)) (
            append-IsAligned s.buf (aligned (head ++ filename)) h
              (aligned-IsAligned (head ++ filename)))
        ∙ append_assoc s.buf (aligned (head ++ filename)) (aligned (data_bytes entry.content)))
  where
    head : Bytes
    head =
        header ((s.count + ino_offset) % 2 ^ 64) entry.metadata (file_size entry.content)
          (length filename)
