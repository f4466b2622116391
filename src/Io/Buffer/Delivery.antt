-- ===== src/Io/Buffer/Delivery.antt =====
-- What crates/elusive/src/cli.rs writes through a `BufWriter`, on an output that takes bytes.
use elusive.Base.{
  ℕ, zero, suc, ◌+◌, ◌≤◌, true, false, [], ◌∷◌, ◌++◌, ◌≡◌, refl, sym, ap, ◌∙◌, inl, inr, Bytes,
  length, take, drop, ltb, leb, take-drop, length-drop_le, append_assoc, append-nil, arith,
  Bool-cases, ok, Exec, if◌then◌else◌, ◌>>◌,
}
use elusive.Host.{IoError}
use elusive.Io.Buffer.{
  Write, BufWriter, write_rest, write_all, flush_buf, push, write_through, buffered,
}

-- An output that takes some of the bytes of every call, and what it has taken.
pub record Takes (W : Type 0) (write : Write W) (content : W → Bytes) : Type 0 where
  pub takes :
      (b : ℕ) (bytes : Bytes) (w : W)
      → (n : ℕ) × (n ≤ length bytes)
        × ((write (b ∷ bytes) w).0 ≡ ok (suc n))
        × (content (write (b ∷ bytes) w).1 ≡ content w ++ (b ∷ take n bytes))

module _ {W : Type 0} (write : Write W) (content : W → Bytes) (t : Takes W write content) where
  fits : (m n : ℕ) → n ≤ m → ltb m n ≡ false
  fits m n h = ground arith

  write_rest-Takes :
      (fuel : ℕ) (bytes : Bytes) (w : W)
      → length bytes ≤ fuel
      → ((write_rest write fuel bytes w).0 ≡ (ok tt, []))
        × (content (write_rest write fuel bytes w).1 ≡ content w ++ bytes)
  unfolding write_rest
  write_rest-Takes fuel [] w h = (refl, sym (append-nil (content w)))
  write_rest-Takes zero (b ∷ bytes) w h = absurd (omega arith)
  write_rest-Takes (suc fuel) (b ∷ bytes) w h =
      let (n, le, e, c) = t.takes b bytes w in
      let (done, rest) =
        write_rest-Takes fuel (drop n bytes) (write (b ∷ bytes) w).1
          (omega (arith, length-drop_le n bytes)) in
      rw (e, write_rest, fits (length bytes) n le)
        (done, rest ∙ rw (c, append_assoc) (ap (λ xs. content w ++ (b ∷ xs)) (take-drop n bytes)))

  write_all-Takes :
      (bytes : Bytes) (w : W)
      → ((write_all write bytes w).0 ≡ ok tt)
        × (content (write_all write bytes w).1 ≡ content w ++ bytes)
  unfolding write_all
  write_all-Takes bytes w =
      let (done, rest) = write_rest-Takes (length bytes) bytes w (omega arith) in
      (ap (λ r. r.0) done, rest)

  -- What the output has and what waits in the buffer.
  abbrev pub total : BufWriter W → Bytes
  total b = content b.inner ++ b.buf

  pub flush_buf-Takes :
      (b : BufWriter W)
      → ((flush_buf write b).0 ≡ ok tt)
        × ((flush_buf write b).1.buf ≡ [])
        × (content (flush_buf write b).1.inner ≡ total b)
  unfolding flush_buf
  flush_buf-Takes b =
      let (done, rest) = write_rest-Takes (length b.buf) b.buf b.inner (omega arith) in
      (ap (λ r. r.0) done, ap (λ r. r.1) done, rest)

  -- A step that succeeds and adds the bytes behind the others.
  abbrev pub Adds : Bytes → Exec (BufWriter W) IoError Unit → BufWriter W → Type 0
  Adds bytes m b = ((m b).0 ≡ ok tt) × (total (m b).1 ≡ total b ++ bytes)

  push-Adds : (bytes : Bytes) (b : BufWriter W) → Adds bytes (push write bytes) b
  push-Adds bytes b = (refl, sym (append_assoc (content b.inner) b.buf bytes))

  write_through-Adds :
      (bytes : Bytes) (b : BufWriter W) → b.buf ≡ [] → Adds bytes (write_through write bytes) b
  write_through-Adds bytes b e =
      let (done, rest) = write_all-Takes bytes b.inner in (done, simp (e, append-nil) rest)

  -- The end of a write, when the buffer is empty or the bytes fit.
  last-Adds :
      (capacity : ℕ) (bytes : Bytes) (b : BufWriter W)
      → (leb capacity (length bytes) ≡ true → b.buf ≡ [])
      → Adds bytes
          (if leb capacity (length bytes) then write_through write bytes else push write bytes)
          b
  last-Adds capacity bytes b h = elim (Bool-cases (leb capacity (length bytes))) [
    | inl large ↦ rw large (write_through-Adds bytes b (h large))
    | inr small ↦ rw small (push-Adds bytes b)
  ]

  flushed-Adds :
      (capacity : ℕ) (bytes : Bytes) (b : BufWriter W)
      → Adds bytes
          (flush_buf write
            >> (if leb capacity (length bytes)
                then write_through write bytes
                else push write bytes))
          b
  flushed-Adds capacity bytes b =
      let (done, empty, handed) = flush_buf-Takes b in
      let (ended, rest) = last-Adds capacity bytes (flush_buf write b).1 (λ _. empty) in
      rw done (ended, rest ∙ ap (λ xs. xs ++ bytes) (simp (empty, append-nil) handed))

  no_length : (bytes : Bytes) → length bytes ≡ 0 → bytes ≡ []
  no_length [] h = refl
  no_length (b ∷ bytes) h = absurd (omega arith)

  pub buffered-Adds :
      (capacity : ℕ) (bytes : Bytes) (b : BufWriter W)
      → Adds bytes (buffered write capacity bytes) b
  unfolding buffered
  buffered-Adds capacity bytes b = elim (Bool-cases (ltb (length b.buf + length bytes) capacity)) [
    | inl room ↦ rw room (push-Adds bytes b)
    | inr full ↦ elim (Bool-cases (ltb capacity (length b.buf + length bytes))) [
      | inl over ↦ rw (full, over) (flushed-Adds capacity bytes b)
      | inr exact ↦
          rw (full, exact) (last-Adds capacity bytes b λ large. no_length b.buf (ground arith))
    ]
  ]
