-- ===== src/Circuits/Truncated.antt =====
-- `Decode` of `Circuit` on an encoding that breaks off within the last key.
use lightning_onion.Prelude.{
  ℕ, zero, suc, ◌-◌, ◌≤◌, ◌<◌, ◌≡◌, refl, ap, ◌∙◌, arith, some, Bytes, List, [], ◌∷◌, ◌++◌,
  append_assoc, length, drop, replicate, length-replicate, take_all, drop_all, ok, ==_of_ne,
}
use lightning_onion.Bytes.Copy.{copy_front}
use lightning_onion.Stream.{read}
use lightning_onion.Crypto.{Primitives, KeyFormat}
use lightning_onion.Crypto.Laws.{Laws}
use lightning_onion.Circuits.{read_array, decode_keys, parse_key, decode_circuit}
use lightning_onion.Circuits.RoundTrip.{
  read_array-append, key_bytes, parse_key-serialize, AreOnCurve, decode_circuit-front,
}

drop-replicate : (k n : ℕ) → drop k (replicate n 0) ≡ replicate {A = ℕ} (n - k) 0
unfolding drop replicate
drop-replicate zero n = let e : n ≡ n - 0 = omega arith in ap (λ m. replicate m 0) e
drop-replicate (suc k) zero = let e : 0 ≡ 0 - suc k = omega arith in ap (λ m. replicate m 0) e
drop-replicate (suc k) (suc n) =
    let e : n - k ≡ suc n - suc k = omega arith in drop-replicate k n ∙ ap (λ m. replicate m 0) e

read_cut : (n : ℕ) (q : Bytes) → 0 < length q → length q ≤ n → read n q ≡ (ok q, [])
unfolding read
read_cut n q h le = rw (==_of_ne (length q) 0 (omega arith), take_all n q le, drop_all n q le) refl

-- The array keeps its zeroes behind what a short read brings.
read_array_cut :
    (n : ℕ) (q : Bytes)
    → 0 < length q
    → length q ≤ n
    → read_array n q ≡ (ok (q ++ replicate (n - length q) 0), [])
unfolding read_array
read_array_cut n q h le = rw (read_cut n q h le) (
    ap (λ t. (ok t, []))
      (copy_front (replicate n 0) q (omega (arith, length-replicate {A = ℕ} n 0))
        ∙ ap (λ t. q ++ t) (drop-replicate (length q) n)))

module _ (c : Primitives) (l : Laws c) where
  decode_keys_cut :
      (ps : List c.Point) (q : Bytes) (p : c.Point)
      → AreOnCurve c ps
      → 0 < length q
      → length q < 33
      → c.parse_pub_key (q ++ replicate (33 - length q) 0) ≡ some p
      → decode_keys c (suc (length ps)) (key_bytes c ps ++ q) ≡ (ok (ps ++ p ∷ []), [])
  unfolding decode_keys key_bytes parse_key
  decode_keys_cut [] q p on h le e = rw (read_array_cut 33 q h (omega arith), e, parse_key) refl
  decode_keys_cut (o ∷ ps) q p on h le e =
      rw
        (
          append_assoc (c.serialize_compressed o) (key_bytes c ps) q,
          read_array-append 33 (c.serialize_compressed o) (key_bytes c ps ++ q)
              (l.serialized_length o) (omega arith),
          parse_key-serialize c l o (key_bytes c ps ++ q) on.0,
          decode_keys_cut ps q p on.1 h le e,
        )
        refl

  -- An encoding that breaks off within its last key, of which one to 32 bytes are there, is
  -- decoded without an error if these bytes, filled up with zeroes to 33, are a key: the circuit
  -- then has that key at the end of its path.
  pub decode_circuit-cut :
      (k : KeyFormat c) (key : Bytes) (ps : List c.Point) (q : Bytes) (p : c.Point)
      → length key ≡ 32
      → AreOnCurve c ps
      → 0 < length q
      → length q < 33
      → c.parse_pub_key (q ++ replicate (33 - length q) 0) ≡ some p
      → decode_circuit c k ((32 ∷ []) ++ (key ++ ((suc (length ps) ∷ []) ++ (key_bytes c ps ++ q))))
        ≡ (ok (record { session_key = k.priv_key_from_bytes key; payment_path = ps ++ p ∷ [] }), [])
  decode_circuit-cut k key ps q p size on h le e =
      decode_circuit-front c k key (suc (length ps)) (key_bytes c ps ++ q) [] (ps ++ p ∷ []) size
        (decode_keys_cut ps q p on h le e)
