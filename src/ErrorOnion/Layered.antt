-- ===== src/ErrorOnion/Layered.antt =====
-- `onionEncrypt` of crypto.go: a message under a layer.
use lightning_onion.Prelude.{
  ℕ, ◌+◌, ◌-◌, ◌≤◌, ◌≡◌, refl, sym, ap, ◌∙◌, arith, Bytes, length, take, drop, ok, take_all,
  length-drop,
}
use native.Mathlib.Nat.{zero-add}
use lightning_onion.Bytes.{slice}
use lightning_onion.Bytes.Copy.{slice_lem}
use lightning_onion.Bytes.Xor.{zip_xor, zip_xor_cancel, length-zip_xor}
use lightning_onion.Crypto.{Primitives, ammag}
use lightning_onion.Crypto.Laws.{Laws}
use lightning_onion.Crypto.Keys.{generate_cipher_stream_lem, length-stream_of, stream_of}
use lightning_onion.Process.Unwrap.{xor_fresh}
use lightning_onion.ErrorOnion.{onion_encrypt}

pub slice_front : (xs : Bytes) (n : ℕ) → n ≤ length xs → slice xs 0 n ≡ ok (take n xs)
unfolding drop
slice_front xs n h = ap (λ k. slice xs 0 k) (sym (zero-add n)) ∙ slice_lem xs 0 n (omega arith)

rejoin : (n k : ℕ) → n ≤ k → n + (k - n) ≡ k
rejoin n k h = omega arith

pub slice_back : (xs : Bytes) (n : ℕ) → n ≤ length xs → slice xs n (length xs) ≡ ok (drop n xs)
slice_back xs n h =
    let size = length xs - n in
    ap (λ k. slice xs n k) (sym (rejoin n (length xs) h))
    ∙ slice_lem xs n size (omega arith)
    ∙ ap ok (take_all size (drop n xs) (omega (arith, length-drop n xs)))

module _ (c : Primitives) (l : Laws c) where
  -- A message under one layer.
  unfoldable pub layered : Bytes → Bytes → Bytes
  layered s m = zip_xor m (stream_of c l ammag s (length m))

  pub length-layered : (s m : Bytes) → length (layered s m) ≡ length m
  unfolding layered
  length-layered s m = omega (
    arith,
    length-zip_xor m (stream_of c l ammag s (length m)),
    length-stream_of c l ammag s (length m),
  )

  pub onion_encrypt_lem : (s m : Bytes) → onion_encrypt c s m ≡ ok (layered s m)
  unfolding onion_encrypt layered
  onion_encrypt_lem s m =
      rw
        (
          generate_cipher_stream_lem c l ammag s (length m),
          xor_fresh (length m) m (stream_of c l ammag s (length m)) refl
              (length-stream_of c l ammag s (length m)),
        )
        refl

  pub layered_cancel : (s m : Bytes) → layered s (layered s m) ≡ m
  unfolding layered
  layered_cancel s m =
      ap (λ n. zip_xor (zip_xor m (stream_of c l ammag s (length m))) (stream_of c l ammag s n))
        (length-layered s m)
      ∙ zip_xor_cancel m (stream_of c l ammag s (length m))
          (omega (arith, length-stream_of c l ammag s (length m)))
