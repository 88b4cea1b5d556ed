-- ===== src/Stream/Sizes.antt =====
-- What a reader returns, whatever the input.
use lightning_onion.Prelude.{
  ℕ, ◌≡◌, ◌≤◌, ◌<◌, ◌^◌, sym, inl, inr, arith, Bytes, length, take, length-take, Bool-cases, ltb,
  ◌==◌, ==_iff, Result, ok, err, panics,
}
use mathlib.Core.Path.{subst}
use lightning_onion.Prelude.Io.{Io, pure, continue, ◌>>=◌}
use lightning_onion.Prelude.Returns.{Returns, then-Returns}
use lightning_onion.Bytes.{of_bytes}
use lightning_onion.Bytes.Bounds.{AreBytes, take-AreBytes, drop-AreBytes, of_bytes_lt}
use lightning_onion.Stream.{read_full, read_uint}

-- An array of `n` bytes.
abbrev pub IsArray : ℕ → Bytes → Type 0
IsArray n bs = (length bs ≡ n) × AreBytes bs

-- As many bytes as asked for, if any, and bytes that are left.
pub read_full-Returns :
    (n : ℕ) (r : Bytes)
    → AreBytes r
    → Returns (IsArray n) (read_full n r).0 × AreBytes (read_full n r).1
unfolding read_full
read_full-Returns n r w = elim (Bool-cases (n == 0)) [
  | inl none_wanted ↦ rw none_wanted ((sym ((==_iff n 0).0 none_wanted), tt), w)
  | inr some_wanted ↦ elim (Bool-cases (length r == 0)) [
    | inl at_end ↦ rw (some_wanted, at_end) (tt, w)
    | inr more ↦ elim (Bool-cases (ltb (length r) n)) [
      | inl short ↦ rw (some_wanted, more, short) (tt, tt)
      | inr enough ↦
          let le : n ≤ length r = ground arith in
          let size : length (take n r) ≡ n = omega (arith, length-take n r) in
          rw (some_wanted, more, enough) ((size, take-AreBytes n r w), drop-AreBytes n r w)
    ]
  ]
]

-- An array in front of the rest of the input.
pub array_then {ℓ} :
    {B : Type ℓ} (Q : B → Type 0) (n : ℕ) (f : Bytes → Io Bytes B) (r : Bytes)
    → AreBytes r
    → ((bs : Bytes) → IsArray n bs → (t : Bytes) → AreBytes t → Returns Q (f bs t).0)
    → Returns Q ((read_full n >>= f) r).0
array_then Q n f r w g =
    then-Returns AreBytes (IsArray n) Q (read_full n) f r (read_full-Returns n r w) g

integer-Returns :
    (n : ℕ) (m : Result Bytes) (t : Bytes)
    → Returns (IsArray n) m
    → AreBytes t
    → let done = continue m (λ bs. pure (of_bytes bs)) t in
      Returns (λ v. v < 256 ^ n) done.0 × AreBytes done.1
integer-Returns n (ok bs) t v w = (subst (λ k. of_bytes bs < 256 ^ k) v.0 (of_bytes_lt bs v.1), w)
integer-Returns n (err e) t v w = (v, w)
integer-Returns n panics t v w = (v, w)

-- An integer of `n` bytes in front of the rest of the input.
pub uint_then {ℓ} :
    {B : Type ℓ} (Q : B → Type 0) (n : ℕ) (f : ℕ → Io Bytes B) (r : Bytes)
    → AreBytes r
    → ((v : ℕ) → v < 256 ^ n → (t : Bytes) → AreBytes t → Returns Q (f v t).0)
    → Returns Q ((read_uint n >>= f) r).0
unfolding read_uint
uint_then Q n f r w g =
    let got = read_full-Returns n r w in
    then-Returns AreBytes (λ v. v < 256 ^ n) Q (read_uint n) f r
      (integer-Returns n (read_full n r).0 (read_full n r).1 got.0 got.1) g
