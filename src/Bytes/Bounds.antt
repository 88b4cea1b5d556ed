-- ===== src/Bytes/Bounds.antt =====
-- Lists of bytes, each below 256.
use native.Mathlib.Nat.{pow-suc}
use lightning_onion.Prelude.{
  ℕ, zero, suc, ap, ◌+◌, ◌*◌, ◌/◌, ◌^◌, ◌<◌, arith, Bytes, [], ◌∷◌, ◌++◌, All, length, take, drop,
  replicate, bit_xor,
}
use lightning_onion.Bytes.{copy, be_from, of_bytes}
use lightning_onion.Bytes.Xor.{zip_xor, bit_xor_step, zero-bit_xor}

abbrev pub AreBytes : Bytes → Type 0
AreBytes bs = All (λ b. b < 256) bs

pub append-AreBytes : (xs ys : Bytes) → AreBytes xs → AreBytes ys → AreBytes (xs ++ ys)
append-AreBytes [] ys v w = w
append-AreBytes (x ∷ xs) ys v w = (v.0, append-AreBytes xs ys v.1 w)

pub take-AreBytes : (n : ℕ) (xs : Bytes) → AreBytes xs → AreBytes (take n xs)
unfolding take
take-AreBytes zero xs v = tt
take-AreBytes (suc n) [] v = tt
take-AreBytes (suc n) (x ∷ xs) v = (v.0, take-AreBytes n xs v.1)

pub drop-AreBytes : (n : ℕ) (xs : Bytes) → AreBytes xs → AreBytes (drop n xs)
unfolding drop
drop-AreBytes zero xs v = v
drop-AreBytes (suc n) [] v = tt
drop-AreBytes (suc n) (x ∷ xs) v = drop-AreBytes n xs v.1

pub replicate-AreBytes : (n b : ℕ) → b < 256 → AreBytes (replicate n b)
unfolding replicate
replicate-AreBytes zero b h = tt
replicate-AreBytes (suc n) b h = (h, replicate-AreBytes n b h)

pub copy-AreBytes : (dst src : Bytes) → AreBytes dst → AreBytes src → AreBytes (copy dst src)
unfolding copy
copy-AreBytes dst src v w =
    append-AreBytes (take (length dst) src) (drop (length src) dst)
      (take-AreBytes (length dst) src w) (drop-AreBytes (length src) dst v)

bit_xor_lt : (k a b : ℕ) → a < 2 ^ k → b < 2 ^ k → bit_xor a b < 2 ^ k
bit_xor_lt zero zero zero h j = omega (arith, zero-bit_xor 0)
bit_xor_lt zero (suc a) b h j = absurd (omega arith)
bit_xor_lt zero zero (suc b) h j = absurd (omega arith)
bit_xor_lt (suc k) a b h j =
    let p = pow-suc 2 k in
    omega (
      arith,
      p,
      bit_xor_step a b,
      bit_xor_lt k (a / 2) (b / 2) (omega (arith, p)) (omega (arith, p)),
    )

pub zip_xor-AreBytes : (xs ys : Bytes) → AreBytes xs → AreBytes ys → AreBytes (zip_xor xs ys)
unfolding zip_xor
zip_xor-AreBytes [] ys v w = tt
zip_xor-AreBytes (x ∷ xs) [] v w = tt
zip_xor-AreBytes (x ∷ xs) (y ∷ ys) v w = (bit_xor_lt 8 x y v.0 w.0, zip_xor-AreBytes xs ys v.1 w.1)

be_from_lt :
    (acc bound : ℕ) (bs : Bytes)
    → acc < bound
    → AreBytes bs
    → be_from acc bs < bound * 256 ^ length bs
unfolding be_from
be_from_lt acc bound [] h v = omega arith
be_from_lt acc bound (b ∷ bs) h v = omega (
  arith,
  v.0,
  ap (λ (t : ℕ). bound * t) (pow-suc 256 (length bs)),
  be_from_lt (acc * 256 + b) (bound * 256) bs (omega (arith, v.0)) v.1,
)

-- The integer of `n` bytes fits them.
pub of_bytes_lt : (bs : Bytes) → AreBytes bs → of_bytes bs < 256 ^ length bs
unfolding of_bytes
of_bytes_lt bs v = omega (arith, be_from_lt 0 1 bs (omega arith) v)
