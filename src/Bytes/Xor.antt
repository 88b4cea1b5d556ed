-- ===== src/Bytes/Xor.antt =====
-- `xor` against a pointwise exclusive or of two slices, and the laws of the latter.
use Prim.Native.Nat.{digits, differ, bit_xor-bitwise}
use native.Mathlib.Nat.{pow-suc, zero-min, min-zero, suc-min-suc}
use lightning_onion.Prelude.{
  ℕ, zero, suc, ◌+◌, ◌*◌, ◌/◌, ◌%◌, ◌^◌, ◌≤◌, ◌<◌, min, bit_xor, ◌≡◌, refl, sym, ap, ap₂, arith, [],
  ◌∷◌, ◌++◌, Bytes, length, take, drop, replicate, ok, panics,
}
use lightning_onion.Bytes.{xor, xor_loop}

abbrev xor_digits : ℕ → ℕ → ℕ → ℕ
xor_digits n a b = digits (λ b. b) differ n a b

xor_digits_fuel : (n m a b : ℕ) → a ≤ n → a ≤ m → xor_digits n a b ≡ xor_digits m a b
xor_digits_fuel zero zero a b p q = refl
xor_digits_fuel zero (suc m) zero b p q = refl
xor_digits_fuel zero (suc m) (suc a) b p q = absurd (omega arith)
xor_digits_fuel (suc n) zero zero b p q = refl
xor_digits_fuel (suc n) zero (suc a) b p q = absurd (omega arith)
xor_digits_fuel (suc n) (suc m) zero b p q = refl
xor_digits_fuel (suc n) (suc m) (suc a) b p q =
    omega (arith, xor_digits_fuel n m (suc a / 2) (b / 2) (omega arith) (omega arith))

pub zero-bit_xor : (b : ℕ) → bit_xor 0 b ≡ b
zero-bit_xor b = bit_xor-bitwise 0 b

differ_digit : (x y : ℕ) → x < 2 → y < 2 → differ x y ≡ (x + y) % 2
differ_digit zero zero p q = refl
differ_digit zero (suc zero) p q = refl
differ_digit (suc zero) zero p q = refl
differ_digit (suc zero) (suc zero) p q = refl
differ_digit _ _ p q = absurd (omega arith)

-- One equation for the lowest digit.
pub bit_xor_step : (a b : ℕ) → bit_xor a b ≡ bit_xor (a / 2) (b / 2) * 2 + (a % 2 + b % 2) % 2
bit_xor_step zero b = omega (arith, zero-bit_xor b, zero-bit_xor (b / 2))
bit_xor_step (suc a) b = omega (
  arith,
  bit_xor-bitwise (suc a) b,
  bit_xor-bitwise (suc a / 2) (b / 2),
  differ_digit (suc a % 2) (b % 2) (omega arith) (omega arith),
  xor_digits_fuel a (suc a / 2) (suc a / 2) (b / 2) (omega arith) (omega arith),
)

bit_xor_halves :
    (a b : ℕ)
    → (bit_xor a b / 2 ≡ bit_xor (a / 2) (b / 2)) × (bit_xor a b % 2 ≡ (a % 2 + b % 2) % 2)
bit_xor_halves a b = omega (arith, bit_xor_step a b)

bit_xor_cancel_fuel : (n a b : ℕ) → a + b ≤ n → bit_xor (bit_xor a b) b ≡ a
bit_xor_cancel_fuel zero zero zero h = refl
bit_xor_cancel_fuel zero (suc a) b h = absurd (omega arith)
bit_xor_cancel_fuel zero zero (suc b) h = absurd (omega arith)
bit_xor_cancel_fuel (suc n) a b h = omega (
  arith,
  bit_xor_step (bit_xor a b) b,
  ap (λ t. bit_xor t (b / 2)) (bit_xor_halves a b).0,
  (bit_xor_halves a b).1,
  bit_xor_cancel_fuel n (a / 2) (b / 2) (omega arith),
)

-- Exclusive or with the same number twice changes nothing.
pub bit_xor_cancel : (a b : ℕ) → bit_xor (bit_xor a b) b ≡ a
bit_xor_cancel a b = bit_xor_cancel_fuel (a + b) a b (omega arith)

bit_xor-lt_fuel : (n a b : ℕ) → a < 2 ^ n → b < 2 ^ n → bit_xor a b < 2 ^ n
bit_xor-lt_fuel zero zero zero p q = omega arith
bit_xor-lt_fuel zero _ _ p q = absurd (omega arith)
bit_xor-lt_fuel (suc n) a b p q = omega (
  arith,
  pow-suc 2 n,
  bit_xor_step a b,
  bit_xor-lt_fuel n (a / 2) (b / 2) (omega (arith, pow-suc 2 n)) (omega (arith, pow-suc 2 n)),
)

-- The exclusive or of two bytes is a byte.
pub bit_xor-lt : (a b : ℕ) → a < 256 → b < 256 → bit_xor a b < 256
bit_xor-lt = bit_xor-lt_fuel 8

-- The slices byte by byte, as long as the shorter one.
unfoldable pub zip_xor : Bytes → Bytes → Bytes
zip_xor [] b = []
zip_xor (x ∷ a) [] = []
zip_xor (x ∷ a) (y ∷ b) = bit_xor x y ∷ zip_xor a b

pub length-zip_xor : (a b : Bytes) → length (zip_xor a b) ≡ min (length a) (length b)
unfolding zip_xor
length-zip_xor [] b = omega arith
length-zip_xor (x ∷ a) [] = omega arith
length-zip_xor (x ∷ a) (y ∷ b) = omega (arith, length-zip_xor a b)

-- A key stream that is long enough undoes itself.
pub zip_xor_cancel : (a b : Bytes) → length a ≤ length b → zip_xor (zip_xor a b) b ≡ a
unfolding zip_xor
zip_xor_cancel [] b h = refl
zip_xor_cancel (x ∷ a) [] h = absurd (omega arith)
zip_xor_cancel (x ∷ a) (y ∷ b) h = ap₂ ◌∷◌ (bit_xor_cancel x y) (zip_xor_cancel a b (omega arith))

-- Encrypting zeroes yields the key stream.
pub zip_xor-zeroes : (n : ℕ) (b : Bytes) → zip_xor (replicate n 0) b ≡ take n b
unfolding zip_xor replicate take
zip_xor-zeroes zero b = refl
zip_xor-zeroes (suc n) [] = refl
zip_xor-zeroes (suc n) (y ∷ b) = ap₂ ◌∷◌ (zero-bit_xor y) (zip_xor-zeroes n b)

zip_xor-nil : (a : Bytes) → zip_xor a [] ≡ []
unfolding zip_xor
zip_xor-nil [] = refl
zip_xor-nil (x ∷ a) = refl

pub take-zip_xor : (n : ℕ) (a b : Bytes) → take n (zip_xor a b) ≡ zip_xor (take n a) (take n b)
unfolding zip_xor take
take-zip_xor zero a b = refl
take-zip_xor (suc n) [] b = refl
take-zip_xor (suc n) (x ∷ a) [] = refl
take-zip_xor (suc n) (x ∷ a) (y ∷ b) = ap (λ t. bit_xor x y ∷ t) (take-zip_xor n a b)

pub drop-zip_xor : (n : ℕ) (a b : Bytes) → drop n (zip_xor a b) ≡ zip_xor (drop n a) (drop n b)
unfolding zip_xor drop
drop-zip_xor zero a b = refl
drop-zip_xor (suc n) [] b = refl
drop-zip_xor (suc n) (x ∷ a) [] = sym (zip_xor-nil (drop n a))
drop-zip_xor (suc n) (x ∷ a) (y ∷ b) = drop-zip_xor n a b

-- Only as much of the key stream as the message is long is used.
pub zip_xor-take : (a b : Bytes) → zip_xor a (take (length a) b) ≡ zip_xor a b
unfolding zip_xor take
zip_xor-take [] b = refl
zip_xor-take (x ∷ a) [] = refl
zip_xor-take (x ∷ a) (y ∷ b) = ap (λ t. bit_xor x y ∷ t) (zip_xor-take a b)

pub zip_xor-append :
    (a c b d : Bytes) → length a ≡ length b → zip_xor (a ++ c) (b ++ d) ≡ zip_xor a b ++ zip_xor c d
unfolding zip_xor
zip_xor-append [] c [] d e = refl
zip_xor-append [] c (y ∷ b) d e = absurd (omega arith)
zip_xor-append (x ∷ a) c [] d e = absurd (omega arith)
zip_xor-append (x ∷ a) c (y ∷ b) d e =
    ap (λ t. bit_xor x y ∷ t) (zip_xor-append a c b d (omega arith))

-- What stands beyond the key stream does not matter.
pub zip_xor-append_long : (a c b : Bytes) → length b ≤ length a → zip_xor (a ++ c) b ≡ zip_xor a b
unfolding zip_xor
zip_xor-append_long [] c [] h = zip_xor-nil c
zip_xor-append_long [] c (y ∷ b) h = absurd (omega arith)
zip_xor-append_long (x ∷ a) c [] h = refl
zip_xor-append_long (x ∷ a) c (y ∷ b) h =
    ap (λ t. bit_xor x y ∷ t) (zip_xor-append_long a c b (omega arith))

xor_loop_lem :
    (dst a b : Bytes)
    → min (length a) (length b) ≤ length dst
    → xor_loop dst a b ≡ ok (zip_xor a b ++ drop (min (length a) (length b)) dst)
unfolding xor_loop zip_xor drop
xor_loop_lem dst [] b h = rw (zero-min (length b)) refl
xor_loop_lem dst (x ∷ a) [] h = rw (min-zero (suc (length a))) refl
xor_loop_lem [] (x ∷ a) (y ∷ b) h = absurd (omega arith)
xor_loop_lem (d ∷ dst) (x ∷ a) (y ∷ b) h = rw (suc-min-suc, xor_loop_lem dst a b (omega arith)) refl

-- `xor` writes the exclusive or of the two slices to the front of `dst`, leaves what follows
-- there as it was and returns the shorter length, if `dst` is as long as that.
pub xor_eq_zip :
    (dst a b : Bytes)
    → min (length a) (length b) ≤ length dst
    → let n = min (length a) (length b) in xor dst a b ≡ ok (zip_xor a b ++ drop n dst, n)
unfolding xor
xor_eq_zip dst a b h = rw (xor_loop_lem dst a b h) refl

xor_loop_short :
    (dst a b : Bytes) → length dst < min (length a) (length b) → xor_loop dst a b ≡ panics
unfolding xor_loop
xor_loop_short dst [] b h = absurd (omega arith)
xor_loop_short dst (x ∷ a) [] h = absurd (omega arith)
xor_loop_short [] (x ∷ a) (y ∷ b) h = refl
xor_loop_short (d ∷ dst) (x ∷ a) (y ∷ b) h = rw (xor_loop_short dst a b (omega arith)) refl

-- If `dst` is shorter than both of the two slices, `xor` panics with an index out of range.
pub xor_short : (dst a b : Bytes) → length dst < min (length a) (length b) → xor dst a b ≡ panics
unfolding xor
xor_short dst a b h = rw (xor_loop_short dst a b h) refl
