-- ===== src/Bytes/Copy.antt =====
-- What `copy` and a slice expression yield in the shapes in which the code uses them.
use lightning_onion.Prelude.{
  ℕ, ◌+◌, ◌-◌, ◌≤◌, ◌≡◌, ap, ◌∙◌, arith, ◌++◌, append-nil, Bytes, length, take, drop, ok, take_all,
  drop_all, length-take, length-drop, length-append,
}
use lightning_onion.Bytes.{copy, slice}

-- A source that fits replaces the front.
pub copy_front :
    (dst src : Bytes) → length src ≤ length dst → copy dst src ≡ src ++ drop (length src) dst
unfolding copy
copy_front dst src h = ap (λ t. t ++ drop (length src) dst) (take_all (length dst) src h)

-- A source that is as long as `dst`, or longer, replaces all of it.
pub copy_over : (dst src : Bytes) → length dst ≤ length src → copy dst src ≡ take (length dst) src
unfolding copy
copy_over dst src h =
    ap (λ t. take (length dst) src ++ t) (drop_all (length src) dst h) ∙ append-nil _

pub length-copy : (dst src : Bytes) → length (copy dst src) ≡ length dst
unfolding copy
length-copy dst src = omega (
  arith,
  length-append (take (length dst) src) (drop (length src) dst),
  length-take (length dst) src,
  length-drop (length src) dst,
)

add-sub_left : (n m : ℕ) → n + m - n ≡ m
add-sub_left n m = omega arith

pub slice_lem :
    (xs : Bytes) (lo n : ℕ) → lo + n ≤ length xs → slice xs lo (lo + n) ≡ ok (take n (drop lo xs))
unfolding slice
slice_lem xs lo n h = ground (arith, ap (λ k. take k (drop lo xs)) (add-sub_left lo n))
