-- ===== src/Replays/Sets.antt =====
-- Replay sets: what is in one after Add and Merge, and its serialization.
use lightning_onion.Prelude.{
  ℕ, zero, suc, ◌^◌, ◌<◌, ◌≡◌, ◌≢◌, panics, refl, sym, ap, ◌∙◌, arith, Bool, false, List, [], ◌∷◌,
  ◌++◌, append_assoc, append-nil, Bytes, All, length, Result, ok, err, eof, unexpected_eof, ◌==◌,
  ◌||◌,
}
use lightning_onion.Bytes.{be_bytes, of_bytes}
use lightning_onion.Stream.{buffer_write, read_uint}
use lightning_onion.Stream.Laws.{read_uint-append, read_full-append}
use lightning_onion.Prelude.Io.{continue, pure}
use lightning_onion.GoMap.{nat_eq, has_key, insert, lookup}
use lightning_onion.GoMap.Laws.{has_key-insert}
use lightning_onion.Replays.{ReplaySet, new_replay_set, add, contains, merge, encode, decode}

-- Whether a number is in a list.
unfoldable pub among : List ℕ → ℕ → Bool
among [] i = false
among (x ∷ xs) i = (x == i) || among xs i

-- A set that is merged with a list of numbers contains what it contained and those numbers.
pub contains-merge :
    (rs : ReplaySet) (xs : List ℕ) (i : ℕ)
    → contains (merge rs xs) i ≡ (contains rs i || among xs i)
unfolding contains merge add among
contains-merge rs [] i = ground arith
contains-merge rs (x ∷ xs) i =
    ground (arith, contains-merge (insert x tt rs) xs i, has_key-insert x i tt rs)

-- The serialized elements of a set.
pub set_bytes : List ℕ → Bytes
set_bytes [] = []
set_bytes (x ∷ xs) = be_bytes 2 x ++ set_bytes xs

encode_set_buffer :
    (xs : List ℕ) (buf : Bytes) → encode buffer_write xs buf ≡ (ok tt, buf ++ set_bytes xs)
unfolding encode buffer_write set_bytes
encode_set_buffer [] buf = simp append-nil
encode_set_buffer (x ∷ xs) buf = encode_set_buffer xs (buf ++ be_bytes 2 x) ∙ simp append_assoc

-- What the element type uint16 says.
abbrev pub AreUint16 : List ℕ → Type 0
AreUint16 xs = All (λ x. x < 256 ^ 2) xs

read_nothing : read_uint 2 [] ≡ (err eof, [])
unfolding read_uint
read_nothing = refl

read_odd : (b : ℕ) → read_uint 2 (b ∷ []) ≡ (err unexpected_eof, [])
unfolding read_uint
read_odd b = refl

decode_end : (fuel : ℕ) (rs : ReplaySet) → decode (suc fuel) [] rs ≡ (ok tt, rs)
unfolding decode
decode_end fuel rs = rw (read_nothing) refl

decode_odd_end :
    (b fuel : ℕ) (rs : ReplaySet) → decode (suc fuel) (b ∷ []) rs ≡ (err unexpected_eof, rs)
unfolding decode
decode_odd_end b fuel rs = rw (read_odd b) refl

-- Decoding takes up the elements in front, and ends as what stands behind them makes it end.
decode-set_bytes :
    (rest : Bytes) (r : Result (Unit {0}))
    → ((fuel : ℕ) (rs : ReplaySet) → decode (suc fuel) rest rs ≡ (r, rs))
    → (xs : List ℕ) (fuel : ℕ) (rs : ReplaySet) → AreUint16 xs
    → length xs < fuel
    → decode fuel (set_bytes xs ++ rest) rs ≡ (r, merge rs xs)
unfolding decode set_bytes merge
decode-set_bytes rest r stop xs zero rs v h = absurd (omega arith)
decode-set_bytes rest r stop [] (suc fuel) rs v h = stop fuel rs
decode-set_bytes rest r stop (x ∷ xs) (suc fuel) rs v h =
    rw
      (
        append_assoc (be_bytes 2 x) (set_bytes xs) rest,
        read_uint-append 2 x (set_bytes xs ++ rest) v.0,
      )
      (decode-set_bytes rest r stop xs fuel (add rs x) v.1 (omega arith))

-- The serialized elements of a set, in whatever order Go ranges over them, are decoded into a set
-- with the same elements, if there is more fuel than there are elements.
pub decode-encode_set :
    (rs : ReplaySet) (order : List ℕ) (fuel : ℕ)
    → AreUint16 order
    → ((i : ℕ) → among order i ≡ contains rs i)
    → length order < fuel
    → (s : ReplaySet) × (decode fuel (encode buffer_write order []).1 new_replay_set ≡ (ok tt, s))
      × ((i : ℕ) → contains s i ≡ contains rs i)
unfolding contains new_replay_set has_key lookup
decode-encode_set rs order fuel v same h = (
  merge new_replay_set order,
  rw (encode_set_buffer order []) (
      ap (λ t. decode fuel t new_replay_set) (sym (append-nil (set_bytes order)))
      ∙ decode-set_bytes [] (ok tt) decode_end order fuel new_replay_set v h),
  λ i. contains-merge new_replay_set order i ∙ same i,
)

-- A byte that is left over at the end is reported as io.ErrUnexpectedEOF; the elements in front
-- of it have been added to the set by then.
pub decode-odd :
    (rs : ReplaySet) (order : List ℕ) (b fuel : ℕ)
    → AreUint16 order
    → length order < fuel
    → decode fuel ((encode buffer_write order []).1 ++ b ∷ []) rs
      ≡ (err unexpected_eof, merge rs order)
decode-odd rs order b fuel v h =
    rw (encode_set_buffer order [])
      (decode-set_bytes (b ∷ []) (err unexpected_eof) (decode_odd_end b) order fuel rs v h)

read_two : (a b : ℕ) (r : Bytes) → read_uint 2 (a ∷ b ∷ r) ≡ (ok (of_bytes (a ∷ b ∷ [])), r)
unfolding read_uint
read_two a b r =
    ap (λ x. continue x.0 (λ bs. pure (of_bytes bs)) x.1) (read_full-append 2 (a ∷ b ∷ []) r refl)

-- With more fuel than the input has bytes, decoding ends for every input, with a set or an error.
pub decode-ends :
    (fuel : ℕ) (r : Bytes) (rs : ReplaySet) → length r < fuel → (decode fuel r rs).0 ≢ panics
unfolding decode
decode-ends zero r rs h e = absurd (omega arith)
decode-ends (suc fuel) [] rs h e = cc (e, decode_end fuel rs)
decode-ends (suc fuel) (b ∷ []) rs h e = cc (e, decode_odd_end b fuel rs)
decode-ends (suc fuel) (a ∷ b ∷ r) rs h e =
    decode-ends fuel r (add rs (of_bytes (a ∷ b ∷ []))) (omega arith) (rw (read_two a b r) at e)
