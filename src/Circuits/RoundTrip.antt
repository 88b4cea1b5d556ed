-- ===== src/Circuits/RoundTrip.antt =====
-- `Encode` and `Decode` of `Circuit` together.
use lightning_onion.Prelude.{
  ℕ, zero, suc, ◌%◌, ◌^◌, ◌≤◌, ◌<◌, ◌≡◌, refl, ap, ◌∙◌, arith, true, Bytes, List, [], ◌∷◌, ◌++◌,
  append_assoc, append-nil, All, length, take, drop, replicate, length-replicate, take_all,
  drop_all, ok,
}
use lightning_onion.Bytes.{to_bytes}
use lightning_onion.Bytes.Copy.{copy_over}
use lightning_onion.Stream.{buffer_write}
use lightning_onion.Stream.Laws.{read-append, read_full-append}
use lightning_onion.Crypto.{Primitives, PrivateKey, KeyFormat}
use lightning_onion.Crypto.Laws.{Laws}
use lightning_onion.Packet.{first}
use lightning_onion.ErrorOnion.{Circuit}
use lightning_onion.Circuits.{
  read_array, encode_keys, decode_keys, parse_key, encode_circuit, decode_circuit, encode_secret,
  decode_secret,
}

-- What btcec says of its private keys: 32 bytes, from which the key of a pair is read back.
pub record KeyLaws (c : Primitives) (k : KeyFormat c) : Type 0 where
  pub serialize_length : (key : PrivateKey c) → length (k.serialize key) ≡ 32
  pub from_serialize :
      (key : PrivateKey c)
      → key.d < 256 ^ 32
      → key.pub_key ≡ c.scalar_base_mult (to_bytes key.d)
      → k.priv_key_from_bytes (k.serialize key) ≡ key

pub read_array-append :
    (n : ℕ) (xs rest : Bytes) → length xs ≡ n → 0 < n → read_array n (xs ++ rest) ≡ (ok xs, rest)
unfolding read_array
read_array-append n xs rest e h = rw (read-append n xs rest e h) (
    ap (λ t. (ok t, rest))
      (copy_over (replicate n 0) xs (omega (arith, length-replicate {A = ℕ} n 0, e))
        ∙ take_all (length (replicate {A = ℕ} n 0)) xs
            (omega (arith, length-replicate {A = ℕ} n 0, e))))

module _ (c : Primitives) where
  -- The serialized keys of a path.
  unfoldable pub key_bytes : List c.Point → Bytes
  key_bytes [] = []
  key_bytes (p ∷ ps) = c.serialize_compressed p ++ key_bytes ps

  pub encode_keys_buffer :
      (ps : List c.Point) (buf : Bytes)
      → encode_keys c buffer_write ps buf ≡ (ok tt, buf ++ key_bytes ps)
  unfolding encode_keys buffer_write key_bytes
  encode_keys_buffer [] buf = simp append-nil
  encode_keys_buffer (p ∷ ps) buf =
      encode_keys_buffer ps (buf ++ c.serialize_compressed p) ∙ simp append_assoc

  pub parse_key-serialize :
      (l : Laws c) (p : c.Point) (r : Bytes)
      → c.is_on_curve p ≡ true
      → parse_key c (c.serialize_compressed p) r ≡ (ok p, r)
  unfolding parse_key
  parse_key-serialize l p r on = rw (l.parse_serialized p on, parse_key)

  abbrev pub AreOnCurve : List c.Point → Type 0
  AreOnCurve ps = All (λ p. c.is_on_curve p ≡ true) ps

  -- Decoding `n` keys takes the first `n` of them, and leaves the others and what follows.
  pub decode_keys-key_bytes :
      (l : Laws c) (n : ℕ) (ps : List c.Point) (rest : Bytes)
      → n ≤ length ps
      → AreOnCurve ps
      → decode_keys c n (key_bytes ps ++ rest) ≡ (ok (take n ps), key_bytes (drop n ps) ++ rest)
  unfolding decode_keys key_bytes take drop
  decode_keys-key_bytes l zero ps rest h on = refl
  decode_keys-key_bytes l (suc n) [] rest h on = absurd (omega arith)
  decode_keys-key_bytes l (suc n) (p ∷ ps) rest h on =
      rw
        (
          append_assoc (c.serialize_compressed p) (key_bytes ps) rest,
          read_array-append 33 (c.serialize_compressed p) (key_bytes ps ++ rest)
              (l.serialized_length p) (omega arith),
          parse_key-serialize l p (key_bytes ps ++ rest) on.0,
          decode_keys-key_bytes l n ps rest (omega arith) on.1,
        )
        refl

-- What stands behind the length of the path decides how decoding goes on.
pub decode_circuit-front :
    (c : Primitives) (k : KeyFormat c) (key : Bytes) (n : ℕ) (tail rest : Bytes) (ps : List c.Point)
    → length key ≡ 32
    → decode_keys c n tail ≡ (ok ps, rest)
    → decode_circuit c k ((32 ∷ []) ++ (key ++ ((n ∷ []) ++ tail)))
      ≡ (ok (record { session_key = k.priv_key_from_bytes key; payment_path = ps }), rest)
unfolding decode_circuit first
decode_circuit-front c k key n tail rest ps size e =
    rw
      (
        read_array-append 1 (32 ∷ []) (key ++ ((n ∷ []) ++ tail)) refl (omega arith),
        read_array-append 32 key ((n ∷ []) ++ tail) size (omega arith),
        read_array-append 1 (n ∷ []) tail refl (omega arith),
        e,
      )
      refl

module _ (c : Primitives) (k : KeyFormat c) (l : Laws c) (kl : KeyLaws c k) where
  -- The bytes of a circuit.
  circuit_bytes : Circuit c → Bytes
  circuit_bytes circuit =
      (32 ∷ [])
      ++ (k.serialize circuit.session_key
          ++ (((length circuit.payment_path % 256) ∷ []) ++ key_bytes c circuit.payment_path))

  encode_circuit_buffer :
      (circuit : Circuit c)
      → encode_circuit c k buffer_write circuit [] ≡ (ok tt, circuit_bytes circuit)
  unfolding encode_circuit circuit_bytes buffer_write
  encode_circuit_buffer circuit =
      rw (kl.serialize_length circuit.session_key)
        (encode_keys_buffer c circuit.payment_path _ ∙ simp append_assoc)

  -- A circuit with the key pair of its session and with keys on the curve is decoded from its
  -- encoding, but for the path: of `n` keys the first `n % 256` come back, and the others stay
  -- unread in front of what follows.
  pub decode-encode_circuit :
      (circuit : Circuit c) (rest : Bytes)
      → circuit.session_key.d < 256 ^ 32
      → circuit.session_key.pub_key ≡ c.scalar_base_mult (to_bytes circuit.session_key.d)
      → AreOnCurve c circuit.payment_path
      → let n = length circuit.payment_path % 256 in
        decode_circuit c k ((encode_circuit c k buffer_write circuit []).1 ++ rest) ≡ (
          ok (record circuit { payment_path = take n circuit.payment_path }),
          key_bytes c (drop n circuit.payment_path) ++ rest,
        )
  unfolding circuit_bytes
  decode-encode_circuit circuit rest small pair on =
      let ps = circuit.payment_path in
      let n = length ps % 256 in
      let key = k.serialize circuit.session_key in
      rw (encode_circuit_buffer circuit, append_assoc key (n ∷ key_bytes c ps) rest)
        (decode_circuit-front c k key n (key_bytes c ps ++ rest) (key_bytes c (drop n ps) ++ rest)
            (take n ps) (kl.serialize_length circuit.session_key)
            (decode_keys-key_bytes c l n ps rest (omega arith) on)
          ∙ ap
              (λ t. (
                ok (record { session_key = t; payment_path = take n ps }),
                key_bytes c (drop n ps) ++ rest,
              ))
              (kl.from_serialize circuit.session_key small pair))

  -- A path of fewer than 256 keys comes back whole.
  pub decode-encode_circuit_short :
      (circuit : Circuit c) (rest : Bytes)
      → circuit.session_key.d < 256 ^ 32
      → circuit.session_key.pub_key ≡ c.scalar_base_mult (to_bytes circuit.session_key.d)
      → AreOnCurve c circuit.payment_path
      → length circuit.payment_path < 256
      → decode_circuit c k ((encode_circuit c k buffer_write circuit []).1 ++ rest)
        ≡ (ok circuit, rest)
  unfolding key_bytes
  decode-encode_circuit_short circuit rest small pair on short =
      let ps = circuit.payment_path in
      let n : length ps % 256 ≡ length ps = omega arith in
      decode-encode_circuit circuit rest small pair on
      ∙ rw (n, take_all (length ps) ps (omega arith), drop_all (length ps) ps (omega arith)) refl

-- A shared secret of 32 bytes is decoded from its encoding, and what follows stays unread.
pub decode-encode_secret :
    (shared_secret rest : Bytes)
    → length shared_secret ≡ 32
    → decode_secret ((encode_secret buffer_write shared_secret []).1 ++ rest)
      ≡ (ok shared_secret, rest)
unfolding decode_secret encode_secret buffer_write
decode-encode_secret shared_secret rest size = read_full-append 32 shared_secret rest size
