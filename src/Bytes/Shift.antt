-- ===== src/Bytes/Shift.antt =====
-- `rightShift` in place, loop by loop, against its result in one piece.
use native.Mathlib.Nat.{add-suc, add-zero, zero-add}
use native.Mathlib.Numerals.{add-one}
use lightning_onion.Prelude.{
  ℕ, zero, suc, ◌+◌, ◌-◌, ◌≤◌, ◌<◌, ◌≡◌, sym, ap, ◌∙◌, arith, some, [], ◌++◌, append-nil,
  append_assoc, Bytes, length, take, drop, replicate, get_elem?, set, ok, get_elem?_lt, length-set,
  take-suc, get_elem?-set_self, take-set, drop-set, drop-set_after, drop-append, take-append-drop,
  length-take, drop_all, length-append,
}
use lightning_onion.Bytes.{read_at, write_at, move_loop, clear_loop, right_shift}

read_at_lem : (xs : Bytes) (i x : ℕ) → get_elem? xs i ≡ some x → read_at xs i ≡ ok x
unfolding read_at
read_at_lem xs i x e = rw (e, read_at)

write_at_lem : (xs : Bytes) (i v : ℕ) → i < length xs → write_at xs i v ≡ ok (set xs i v)
unfolding write_at
write_at_lem xs i v h = ground arith

-- What the first loop leaves: the bytes below `num + k` have moved up by `num`.
move_loop_lem :
    (num k : ℕ) (xs : Bytes)
    → num + k ≤ length xs
    → move_loop num k xs ≡ ok (take num xs ++ take k xs ++ drop (num + k) xs)
unfolding move_loop take
move_loop_lem num zero xs h = ap ok (
    sym (
      append_assoc (take num xs) [] (drop (num + 0) xs)
      ∙ ap (λ k. take num xs ++ drop k xs) (add-zero num)
      ∙ take-append-drop num xs))
move_loop_lem num (suc i) xs h =
    let (x, e) = get_elem?_lt xs i (omega arith) in
    let lt : num + i < length xs = omega arith in
    rw (read_at_lem xs i x e, write_at_lem xs (num + i) x lt)
      (move_loop_lem num i (set xs (num + i) x) (omega (arith, length-set xs (num + i) x))
        ∙ ap ok (
            rw
              (
                take-set num (num + i) xs x (omega arith),
                take-set i (num + i) xs x (omega arith),
                drop-set (num + i) xs x lt,
                take-suc i xs x e,
                add-suc num i,
              )
              (simp append_assoc)))

suc-add_move : (i n : ℕ) → suc i + n ≡ i + suc n
suc-add_move i n = omega arith

-- The second loop zeroes the `left` bytes from `i` on.
clear_loop_lem :
    (left i : ℕ) (xs : Bytes)
    → i + left ≤ length xs
    → clear_loop left i xs ≡ ok (take i xs ++ replicate left 0 ++ drop (i + left) xs)
unfolding clear_loop replicate
clear_loop_lem zero i xs h = ap ok (
    sym (
      append_assoc (take i xs) [] (drop (i + 0) xs)
      ∙ ap (λ k. take i xs ++ drop k xs) (add-zero i)
      ∙ take-append-drop i xs))
clear_loop_lem (suc left) i xs h =
    let lt : i < length xs = omega arith in
    rw (write_at_lem xs i 0 lt) (
      clear_loop_lem left (i + 1) (set xs i 0) (omega (arith, length-set xs i 0))
      ∙ ap ok (
          rw
            (
              add-one i,
              take-suc i (set xs i 0) 0 (get_elem?-set_self xs i 0 lt),
              take-set i i xs 0 (omega arith),
              drop-set_after (suc i + left) i xs 0 (omega arith),
              suc-add_move i left,
            )
            (simp append_assoc)))

length-take_le : (n : ℕ) (xs : Bytes) → n ≤ length xs → length (take n xs) ≡ n
length-take_le n xs h = omega (arith, length-take n xs)

length_parts :
    (num k : ℕ) (xs : Bytes) → num ≤ length xs → 0 + num ≤ length (take num xs ++ take k xs ++ [])
length_parts num k xs h = omega (
  arith,
  length-append (take num xs ++ take k xs) [],
  length-append (take num xs) (take k xs),
  length-take num xs,
)

-- For `num` up to the length, `rightShift` moves every byte up by `num`, drops the last `num` of
-- them and fills the front with zeroes.
pub right_shift_lem :
    (xs : Bytes) (num : ℕ)
    → num ≤ length xs
    → right_shift xs num ≡ ok (replicate num 0 ++ take (length xs - num) xs)
unfolding right_shift take
right_shift_lem xs num h =
    let k = length xs - num in
    let front = length-take_le num xs h in
    rw (move_loop_lem num k xs (omega arith), drop_all (num + k) xs (omega arith))
      (clear_loop_lem num 0 (take num xs ++ take k xs ++ []) (length_parts num k xs h)
        ∙ ap ok (rw (append-nil, zero-add num, drop-append num (take num xs) (take k xs) front)))
