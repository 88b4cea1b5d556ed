-- ===== src/Hex/RoundTrip.antt =====
-- Hexadecimal digits and the bytes that they stand for.
use lightning_onion.Prelude.{ℕ, ◌+◌, ◌*◌, ◌/◌, ◌%◌, ◌<◌, ◌≡◌, refl, arith, Bytes, some, [], ◌∷◌}
use lightning_onion.Bytes.Bounds.{AreBytes}
use lightning_onion.Hex.{hex_value, hex_digit, hex_encode, hex_decode}

hex_value-hex_digit : (n : ℕ) → n < 16 → hex_value (hex_digit n) ≡ some n
unfolding hex_value hex_digit
hex_value-hex_digit n h = ground arith

two_digits : (b : ℕ) → b / 16 * 16 + b % 16 ≡ b
two_digits b = omega arith

-- Bytes are read back from their digits.
pub hex_decode-hex_encode : (bs : Bytes) → AreBytes bs → hex_decode (hex_encode bs) ≡ some bs
unfolding hex_decode hex_encode
hex_decode-hex_encode [] v = refl
hex_decode-hex_encode (b ∷ bs) v =
    rw
      (
        hex_value-hex_digit (b / 16) (omega (arith, v.0)),
        hex_value-hex_digit (b % 16) (omega arith),
        hex_decode-hex_encode bs v.1,
        two_digits b,
      )
      refl
