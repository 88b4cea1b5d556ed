-- ===== src/Stream/Laws.antt =====
-- What a reader returns at the front of longer input.
use lightning_onion.Prelude.{
  ℕ, zero, suc, ◌^◌, ◌<◌, ◌≡◌, refl, arith, Bytes, [], ◌∷◌, ◌++◌, length, Error, ok, err, eof,
  unexpected_eof, take-append, drop-append, length-append, ==_of_ne, ltb_of_lt, ltb_of_le,
}
use lightning_onion.Bytes.{be_bytes}
use lightning_onion.Bytes.BigEndian.{length-be_bytes, of_bytes-be_bytes}
use lightning_onion.Stream.{read, read_full, read_uint}

-- `read_full` and `read` take the `n` bytes that stand in front.
pub read_full-append :
    (n : ℕ) (xs rest : Bytes) → length xs ≡ n → read_full n (xs ++ rest) ≡ (ok xs, rest)
unfolding read_full
read_full-append zero [] rest e = refl
read_full-append zero (x ∷ xs) rest e = absurd (omega arith)
read_full-append (suc n) xs rest e =
    let l = length-append xs rest in
    rw
      (
        ==_of_ne (suc n) 0 (omega arith),
        ==_of_ne (length (xs ++ rest)) 0 (omega (arith, l)),
        ltb_of_le (length (xs ++ rest)) (suc n) (omega (arith, l)),
        take-append (suc n) xs rest e,
        drop-append (suc n) xs rest e,
      )
      refl

pub read-append :
    (n : ℕ) (xs rest : Bytes) → length xs ≡ n → 0 < n → read n (xs ++ rest) ≡ (ok xs, rest)
unfolding read
read-append n xs rest e h =
    rw
      (
        ==_of_ne (length (xs ++ rest)) 0 (omega (arith, length-append xs rest)),
        take-append n xs rest e,
        drop-append n xs rest e,
      )
      refl

-- An unsigned integer that fits `n` bytes is read back.
pub read_uint-append :
    (n v : ℕ) (rest : Bytes) → v < 256 ^ n → read_uint n (be_bytes n v ++ rest) ≡ (ok v, rest)
unfolding read_uint
read_uint-append n v rest h =
    rw (read_full-append n (be_bytes n v) rest (length-be_bytes n v)) (rw (of_bytes-be_bytes n v h))

-- What `read_full` reports when the input is shorter than asked for.
abbrev pub short_error : Bytes → Error
short_error [] = eof
short_error (x ∷ r) = unexpected_eof

-- With less input than asked for there is an error, and nothing is left.
pub read_full_short : (n : ℕ) (r : Bytes) → length r < n → read_full n r ≡ (err (short_error r), [])
unfolding read_full
read_full_short zero r h = absurd (omega arith)
read_full_short (suc n) [] h = rw (==_of_ne (suc n) 0 (omega arith)) refl
read_full_short (suc n) (x ∷ r) h =
    rw
      (
        ==_of_ne (suc n) 0 (omega arith),
        ==_of_ne (length (x ∷ r)) 0 (omega arith),
        ltb_of_lt (length (x ∷ r)) (suc n) h,
      )
      refl
