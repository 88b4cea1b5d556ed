-- ===== src/Bytes.antt =====
-- The byte-slice routines: `xor` of crypto.go, `rightShift` of sphinx.go, and what the code uses
-- of Go itself: `copy`, slice expressions, big-endian integers, `big.Int` to and from bytes.
-- An index or a bound out of range panics.
pub mod Xor
pub mod Bounds
pub mod Shift
pub mod Copy
pub mod BigEndian
use lightning_onion.Prelude.{
  ℕ, zero, suc, ◌+◌, ◌-◌, ◌*◌, ◌/◌, ◌%◌, min, bit_xor, Option, none, some, List, [], ◌∷◌, ◌++◌,
  Bytes, length, take, drop, get_elem?, set, Result, ok, panics, ◌>>=◌, leb, ltb, ◌==◌, ◌&&◌,
  if◌then◌else◌,
}

-- `copy(dst, src)`: the shorter length is copied, and the rest of `dst` stays.
unfoldable pub copy : Bytes → Bytes → Bytes
copy dst src = take (length dst) src ++ drop (length src) dst

-- `xs[lo:hi]`, for a slice whose capacity is its length.
unfoldable pub slice : Bytes → ℕ → ℕ → Result Bytes
slice xs lo hi =
    if leb lo hi && leb hi (length xs) then ok (take (hi - lo) (drop lo xs)) else panics

-- `xs[i]`
unfoldable pub read_at : Bytes → ℕ → Result ℕ
read_at xs i = elim (get_elem? xs i) [ none ↦ panics | some x ↦ ok x ]

-- `xs[i] = v`
unfoldable pub write_at : Bytes → ℕ → ℕ → Result Bytes
write_at xs i v = if ltb i (length xs) then ok (set xs i v) else panics

-- The loop of `xor`: both slices are read and `dst` is written at the same index, so that `dst`
-- may also be one of the two.
unfoldable pub xor_loop : Bytes → Bytes → Bytes → Result Bytes
xor_loop dst [] b = ok dst
xor_loop dst (x ∷ a) [] = ok dst
xor_loop [] (x ∷ a) (y ∷ b) = panics
xor_loop (d ∷ dst) (x ∷ a) (y ∷ b) = do rest ← xor_loop dst a b; ok (bit_xor x y ∷ rest)

-- The new contents of `dst`, and the number of bytes that `xor` returns.
unfoldable pub xor : Bytes → Bytes → Bytes → Result (Bytes × ℕ)
xor dst a b = do out ← xor_loop dst a b; ok (out, min (length a) (length b))

-- The first loop of `rightShift`: `slice[num+i] = slice[i]` for `i` from `left - 1` down to 0.
unfoldable pub move_loop : ℕ → ℕ → Bytes → Result Bytes
unfolding read_at write_at
move_loop num zero xs = ok xs
move_loop num (suc i) xs = do x ← read_at xs i; ys ← write_at xs (num + i) x; move_loop num i ys

-- The second loop: `slice[i] = 0`, with `left` rounds to go.
unfoldable pub clear_loop : ℕ → ℕ → Bytes → Result Bytes
unfolding write_at
clear_loop zero i xs = ok xs
clear_loop (suc left) i xs = do ys ← write_at xs i 0; clear_loop left (i + 1) ys

unfoldable pub right_shift : Bytes → ℕ → Result Bytes
unfolding move_loop clear_loop
right_shift xs num = do ys ← move_loop num (length xs - num) xs; clear_loop num 0 ys

-- `binary.Write(w, binary.BigEndian, v)` for an unsigned integer of `k` bytes.
unfoldable pub be_bytes : ℕ → ℕ → Bytes
be_bytes zero v = []
be_bytes (suc k) v = be_bytes k (v / 256) ++ (v % 256) ∷ []

unfoldable pub be_from : ℕ → Bytes → ℕ
be_from acc [] = acc
be_from acc (b ∷ bs) = be_from (acc * 256 + b) bs

-- The integer of big-endian bytes: `binary.Read`, `(*big.Int).SetBytes`.
unfoldable pub of_bytes : Bytes → ℕ
unfolding be_from
of_bytes bs = be_from 0 bs

-- The digits of `n` in front of `acc`; each round needs one unit of fuel.
unfoldable pub to_bytes_loop : ℕ → ℕ → Bytes → Bytes
to_bytes_loop zero n acc = acc
to_bytes_loop (suc f) n acc =
    let more = to_bytes_loop f (n / 256) ((n % 256) ∷ acc) in if n == 0 then acc else more

-- `(*big.Int).Bytes`: big-endian, with no leading zero byte.
unfoldable pub to_bytes : ℕ → Bytes
unfolding to_bytes_loop
to_bytes n = to_bytes_loop n n []
