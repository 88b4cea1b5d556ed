-- ===== src/Stream.antt =====
-- The io.Writer and io.Reader that the encoders take: any writer, which may fail; a bytes.Buffer
-- written at its end; a bytes.Reader at its position, which is the list of bytes still to be read.
pub mod Laws
pub mod Sizes
use lightning_onion.Prelude.{
  ℕ, Bytes, [], ◌++◌, length, take, drop, Result, ok, eof, unexpected_eof, ltb, ◌==◌, if◌then◌else◌,
}
use lightning_onion.Prelude.Io.{Io, pure, fail, ◌>>=◌}
use lightning_onion.Bytes.{of_bytes}

abbrev pub Writer : Type 0 → Type 0
Writer W = Bytes → Io W (Unit {0})

-- `(*bytes.Buffer).Write` never fails.
unfoldable pub buffer_write : Writer Bytes
buffer_write xs buf = (ok tt, buf ++ xs)

-- `r.Read(p)` with `len(p) = n`: at most `n` bytes, and `io.EOF` when none is left. What a short
-- read does not fill stays as it is in `p`.
unfoldable pub read : ℕ → Io Bytes Bytes
read n r = if length r == 0 then fail eof r else (ok (take n r), drop n r)

-- `io.ReadFull(r, p)` with `len(p) = n`. A short rest is used up.
unfoldable pub read_full : ℕ → Io Bytes Bytes
read_full n r =
    if n == 0
    then pure [] r
    else if length r == 0
    then fail eof r
    else if ltb (length r) n
    then fail unexpected_eof []
    else (ok (take n r), drop n r)

-- `binary.Read(r, binary.BigEndian, v)` for an unsigned integer of `n` bytes.
unfoldable pub read_uint : ℕ → Io Bytes ℕ
unfolding read_full of_bytes
read_uint n = do bs ← read_full n; pure (of_bytes bs)
