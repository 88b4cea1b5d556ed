-- ===== src/Bytes/BigEndian.antt =====
-- Big-endian integers and their bytes.
use native.Mathlib.Nat.{pow-suc}
use lightning_onion.Prelude.{
  ℕ, zero, suc, ◌+◌, ◌*◌, ◌/◌, ◌%◌, ◌^◌, ◌≤◌, ◌<◌, ◌≡◌, refl, sym, ap, ◌∙◌, inl, inr, arith, [],
  ◌∷◌, ◌++◌, Bytes, length, length-append, ◌==◌, ==_iff, Bool-cases,
}
use lightning_onion.Bytes.{be_bytes, be_from, of_bytes, to_bytes, to_bytes_loop}

pub length-be_bytes : (k v : ℕ) → length (be_bytes k v) ≡ k
unfolding be_bytes
length-be_bytes zero v = refl
length-be_bytes (suc k) v =
    length-append (be_bytes k (v / 256)) ((v % 256) ∷ [])
    ∙ omega (arith, length-be_bytes k (v / 256))

be_from-append : (acc : ℕ) (xs ys : Bytes) → be_from acc (xs ++ ys) ≡ be_from (be_from acc xs) ys
unfolding be_from
be_from-append acc [] ys = refl
be_from-append acc (x ∷ xs) ys = be_from-append (acc * 256 + x) xs ys

be_from-be_bytes : (acc k v : ℕ) → v < 256 ^ k → be_from acc (be_bytes k v) ≡ acc * 256 ^ k + v
unfolding be_bytes be_from
be_from-be_bytes acc zero v h = omega arith
be_from-be_bytes acc (suc k) v h =
    be_from-append acc (be_bytes k (v / 256)) ((v % 256) ∷ [])
    ∙ omega (
      arith,
      pow-suc 256 k,
      ap (λ (t : ℕ). acc * t) (pow-suc 256 k),
      be_from-be_bytes acc k (v / 256) (omega (arith, pow-suc 256 k)),
    )

-- An integer that fits `k` bytes is read back from them.
pub of_bytes-be_bytes : (k v : ℕ) → v < 256 ^ k → of_bytes (be_bytes k v) ≡ v
unfolding of_bytes
of_bytes-be_bytes k v h = omega (arith, be_from-be_bytes 0 k v h)

digits_join : (n : ℕ) → n / 256 * 256 + n % 256 ≡ n
digits_join n = omega arith

-- Bytes in front of `acc` that a number contributes; the fuel is enough.
to_bytes_loop_lem :
    (f n : ℕ) (acc : Bytes) → n ≤ f → be_from 0 (to_bytes_loop f n acc) ≡ be_from n acc
unfolding to_bytes_loop be_from
to_bytes_loop_lem zero zero acc h = refl
to_bytes_loop_lem zero (suc n) acc h = absurd (omega arith)
to_bytes_loop_lem (suc f) n acc h = elim (Bool-cases (n == 0)) [
  | inl e ↦ rw e (ap (λ t. be_from t acc) (sym ((==_iff n 0).0 e)))
  | inr e ↦ rw e (
      to_bytes_loop_lem f (n / 256) ((n % 256) ∷ acc) (ground arith)
      ∙ ap (λ t. be_from t acc) (digits_join n))
]

-- `SetBytes` undoes `Bytes` at every natural number.
pub of_bytes-to_bytes : (n : ℕ) → of_bytes (to_bytes n) ≡ n
unfolding of_bytes to_bytes be_from
of_bytes-to_bytes n = to_bytes_loop_lem n n [] (omega arith)
