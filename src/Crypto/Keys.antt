-- ===== src/Crypto/Keys.antt =====
-- Lengths of what crypto.go derives, and the key stream that a secret stands for.
use lightning_onion.Prelude.{ℕ, ◌≡◌, ap, ◌∙◌, arith, Bytes, length, ok, length-replicate, take_all}
use lightning_onion.Bytes.Copy.{length-copy}
use lightning_onion.Bytes.Bounds.{AreBytes}
use lightning_onion.Bytes.Xor.{zip_xor-zeroes}
use lightning_onion.Crypto.{Primitives, calc_mac, generate_key, generate_cipher_stream}
use lightning_onion.Crypto.Laws.{Laws}

module _ (c : Primitives) where
  pub length-calc_mac : (key msg : Bytes) → length (calc_mac c key msg) ≡ 32
  unfolding calc_mac
  length-calc_mac key msg = length-copy _ _ ∙ length-replicate 32 0

  pub length-generate_key : (t s : Bytes) → length (generate_key c t s) ≡ 32
  unfolding generate_key
  length-generate_key t s = length-copy _ _ ∙ length-replicate 32 0

module _ (c : Primitives) (l : Laws c) where
  -- The first `n` bytes of the key stream under the key that is derived from a secret.
  unfoldable pub stream_of : Bytes → Bytes → ℕ → Bytes
  stream_of key_type secret n =
      (l.cipher (generate_key c key_type secret) (length-generate_key c key_type secret)).0 n

  pub length-stream_of : (t s : Bytes) (n : ℕ) → length (stream_of t s n) ≡ n
  unfolding stream_of
  length-stream_of t s n = (l.cipher (generate_key c t s) (length-generate_key c t s)).2 n

  pub stream_of-AreBytes : (t s : Bytes) (n : ℕ) → AreBytes (stream_of t s n)
  unfolding stream_of
  stream_of-AreBytes t s n = (l.cipher (generate_key c t s) (length-generate_key c t s)).3 n

  -- A derived key always makes a cipher, so that no key stream panics.
  pub generate_cipher_stream_lem :
      (t s : Bytes) (n : ℕ) → generate_cipher_stream c (generate_key c t s) n ≡ ok (stream_of t s n)
  unfolding stream_of generate_cipher_stream
  generate_cipher_stream_lem t s n =
      let r = l.cipher (generate_key c t s) (length-generate_key c t s) in
      rw (r.1, generate_cipher_stream)
        (ap ok (zip_xor-zeroes n (r.0 n) ∙ take_all n (r.0 n) (omega (arith, r.2 n))))
