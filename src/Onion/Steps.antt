-- ===== src/Onion/Steps.antt =====
-- The steps of one round of `NewOnionPacket` on a header of 1300 bytes.
use lightning_onion.Prelude.{
  ℕ, ◌-◌, ◌≤◌, ◌≡◌, ap, ◌∙◌, arith, Bytes, [], ◌++◌, append-nil, length, take, drop, replicate, ok,
  min, length-append, length-replicate, length-drop, take_all, drop_all, drop-append, leb_of_le,
}
use lightning_onion.Bytes.{copy, slice, xor, right_shift}
use lightning_onion.Bytes.Copy.{copy_front, copy_over, slice_lem}
use lightning_onion.Bytes.Shift.{right_shift_lem}
use lightning_onion.Bytes.Xor.{zip_xor, xor_eq_zip}
use lightning_onion.Onion.{override_tail}

pub shift_header :
    (m : Bytes) → length m ≡ 1300 → right_shift m 65 ≡ ok (replicate 65 0 ++ take 1235 m)
shift_header m e =
    right_shift_lem m 65 (omega arith) ∙ ap (λ n. ok (replicate 65 0 ++ take n m)) (omega arith)

pub slice_header : (s : Bytes) → length s ≡ 1365 → slice s 0 1300 ≡ ok (take 1300 s)
unfolding drop
slice_header s e = slice_lem s 0 1300 (omega arith)

pub copy_header :
    (enc m : Bytes)
    → length enc ≡ 65
    → length m ≡ 1300
    → copy (replicate 65 0 ++ take 1235 m) ([] ++ enc) ≡ enc ++ take 1235 m
copy_header enc m e k =
    let zeroes : Bytes = replicate 65 0 in
    let lz = length-replicate {A = ℕ} 65 0 in
    copy_front (zeroes ++ take 1235 m) enc (omega (arith, length-append zeroes (take 1235 m)))
    ∙ ap (λ t. enc ++ t) (drop-append (length enc) zeroes (take 1235 m) (omega arith))

-- In place, on slices of equal length.
pub xor_in_place :
    (a b : Bytes) (n : ℕ)
    → length a ≡ n
    → length b ≡ n
    → xor a a b ≡ ok (zip_xor a b, min (length a) (length b))
xor_in_place a b n e k =
    xor_eq_zip a a b (omega arith)
    ∙ ap (λ t. ok (t, min (length a) (length b)))
        (ap (λ t. zip_xor a b ++ t) (drop_all (min (length a) (length b)) a (omega arith))
          ∙ append-nil (zip_xor a b))

pub override_tail_lem :
    (m filler : Bytes)
    → length m ≡ 1300
    → length filler ≤ 1300
    → override_tail m filler ≡ ok (take (1300 - length filler) m ++ filler)
unfolding override_tail
override_tail_lem m filler e fits =
    let front = 1300 - length filler in
    rw (leb_of_le (length filler) (length m) (omega arith), e)
      (ap (λ t. ok (take front m ++ t))
        (copy_over (drop front m) filler (omega (arith, length-drop front m))
          ∙ take_all (length (drop front m)) filler (omega (arith, length-drop front m))))
