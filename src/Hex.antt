-- ===== src/Hex.antt =====
-- What cmd/main.go uses of encoding/hex, fmt and strings, on texts as lists of bytes.
pub mod RoundTrip
use Prim.Native.Char.{code}
use Prim.Native.String.{String}
use lightning_onion.Prelude.{
  ℕ, ◌+◌, ◌-◌, ◌*◌, ◌/◌, ◌%◌, Bool, Bytes, Option, none, some, List, [], ◌∷◌, ◌++◌, leb, ltb, ◌==◌,
  ◌&&◌, ◌||◌, if◌then◌else◌,
}

-- The bytes of an ASCII text.
abbrev pub codes : String → Bytes
codes String.[] = []
codes (String.◌∷◌ c s) = code c ∷ codes s

abbrev in_range : ℕ → ℕ → ℕ → Bool
in_range lo hi x = leb lo x && leb x hi

unfoldable pub hex_value : ℕ → Option ℕ
hex_value x =
    if in_range b'0' b'9' x
    then some (x - b'0')
    else if in_range b'a' b'f' x
    then some (x - b'a' + 10)
    else if in_range b'A' b'F' x
    then some (x - b'A' + 10)
    else none

abbrev pub byte_before : Option ℕ → Option ℕ → Option Bytes → Option Bytes
byte_before (some hi) (some lo) (some bs) = some ((hi * 16 + lo) ∷ bs)
byte_before none lo bs = none
byte_before (some hi) none bs = none
byte_before (some hi) (some lo) none = none

-- `hex.DecodeString`; an odd length and any other character than a digit are errors.
unfoldable pub hex_decode : Bytes → Option Bytes
hex_decode [] = some []
hex_decode (x ∷ []) = none
hex_decode (x ∷ y ∷ rest) = byte_before (hex_value x) (hex_value y) (hex_decode rest)

unfoldable pub hex_digit : ℕ → ℕ
hex_digit n = if ltb n 10 then b'0' + n else b'a' + (n - 10)

-- `%x`
unfoldable pub hex_encode : Bytes → Bytes
hex_encode [] = []
hex_encode (b ∷ bs) = hex_digit (b / 16) ∷ hex_digit (b % 16) ∷ hex_encode bs

-- The white space of ASCII.
abbrev is_space : ℕ → Bool
is_space x = x == 32 || in_range 9 13 x

unfoldable pub trim_left : Bytes → Bytes
trim_left [] = []
trim_left (x ∷ xs) = let rest = trim_left xs in if is_space x then rest else x ∷ xs

-- A character in front of a trimmed text.
abbrev pub trim_end : ℕ → Bytes → Bytes
trim_end x [] = if is_space x then [] else x ∷ []
trim_end x (y ∷ ys) = x ∷ y ∷ ys

unfoldable pub trim_right : Bytes → Bytes
trim_right [] = []
trim_right (x ∷ xs) = trim_end x (trim_right xs)

-- `strings.TrimSpace`, for a text of ASCII characters.
unfoldable pub trim_space : Bytes → Bytes
unfolding trim_left trim_right
trim_space xs = trim_right (trim_left xs)
