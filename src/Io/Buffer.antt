-- ===== src/Io/Buffer.antt =====
-- std's `Write` and `BufWriter`, by which crates/elusive/src/cli.rs writes to its output: an output
-- may take only a part of what it is given, or fail.
pub mod Delivery
use elusive.Base.{
  ℕ, zero, suc, ◌+◌, Bool, true, false, List, [], ◌∷◌, ◌++◌, Bytes, length, drop, ltb, leb, Result,
  ok, err, panic, diverge, Exec, pure, throw, lift, if◌then◌else◌, ◌>>=◌, ◌>>◌,
}
use elusive.Host.{IoError, write_zero}

-- `io::Write::write`, on the state of the output: how many of the bytes it has taken.
abbrev pub Write : Type 0 → Type 0
Write W = Bytes → Exec W IoError ℕ

-- `BufWriter`: what it has not handed on yet, and the output.
pub record BufWriter (W : Type 0) : Type 0 where
  pub buf : Bytes
  pub inner : W

module _ {W : Type 0} (write : Write W) where
  -- `io::Write::write_all` on some fuel, with what is left of the bytes when it stops.
  unfoldable pub write_rest : ℕ → Bytes → W → (Result IoError Unit × Bytes) × W
  write_rest fuel [] w = ((ok tt, []), w)
  write_rest zero (b ∷ bytes) w = ((diverge, b ∷ bytes), w)
  write_rest (suc fuel) (b ∷ bytes) w =
      let r = write (b ∷ bytes) w in
      elim r.0 [
        | ok zero ↦ ((err write_zero, b ∷ bytes), r.1)
        | ok (suc n) ↦
            if ltb (length bytes) n
            then ((panic, b ∷ bytes), r.1)
            else write_rest fuel (drop n bytes) r.1
        | err e ↦ ((err e, b ∷ bytes), r.1)
        | panic ↦ ((panic, b ∷ bytes), r.1)
        | diverge ↦ ((diverge, b ∷ bytes), r.1)
      ]

  -- `io::Write::write_all`: each write takes a byte at least, so there are at most as many.
  unfoldable pub write_all : Bytes → Exec W IoError Unit
  unfolding write_rest
  write_all bytes w = let r = write_rest (length bytes) bytes w in (r.0.0, r.1)

  -- `BufWriter::new`
  abbrev pub new : W → BufWriter W
  new w = record { buf = []; inner = w }

  -- `BufWriter::flush_buf`: what has not been taken stays in the buffer.
  unfoldable pub flush_buf : Exec (BufWriter W) IoError Unit
  unfolding write_rest
  flush_buf b =
      let r = write_rest (length b.buf) b.buf b.inner in
      (r.0.0, record { buf = r.0.1; inner = r.1 })

  abbrev pub push : Bytes → Exec (BufWriter W) IoError Unit
  push bytes b = (ok tt, record b { buf = b.buf ++ bytes })

  -- `get_mut().write_all(buf)`
  abbrev pub write_through : Bytes → Exec (BufWriter W) IoError Unit
  write_through bytes b = let r = write_all bytes b.inner in (r.0, record b { inner = r.1 })

  -- `BufWriter::write_all`, for a buffer of some capacity.
  unfoldable pub buffered : ℕ → Bytes → Exec (BufWriter W) IoError Unit
  unfolding write_all flush_buf
  buffered capacity bytes b =
      if ltb (length b.buf + length bytes) capacity
      then push bytes b
      else ((if ltb capacity (length b.buf + length bytes) then flush_buf else pure tt)
            >> (if leb capacity (length bytes) then write_through bytes else push bytes))
          b

  -- `Drop for BufWriter`, which passes over an error.
  unfoldable pub dropped : BufWriter W → W
  unfolding flush_buf
  dropped b = (flush_buf b).1.inner
