-- ===== src/Circuits.antt =====
-- The serialization of obfuscation.go: `Encode` and `Decode` of `Circuit` and of
-- `OnionErrorEncrypter`. The encrypter is its shared secret. A failed Decode returns its error
-- alone; what it leaves in the half-filled struct is not modelled.
pub mod RoundTrip
pub mod Truncated
use lightning_onion.Prelude.{
  ℕ, zero, suc, ◌%◌, Option, none, some, Bytes, List, [], ◌∷◌, length, replicate, Result, ok, err,
  invalid_pub_key,
}
use lightning_onion.Prelude.Io.{Io, pure, fail, ◌>>=◌, ◌>>◌}
use lightning_onion.Bytes.{copy}
use lightning_onion.Stream.{Writer, read, read_full}
use lightning_onion.Crypto.{Primitives, KeyFormat, sha256_size}
use lightning_onion.Packet.{first}
use lightning_onion.ErrorOnion.{Circuit}

-- `r.Read(p)` for a fresh array or slice `p` of `n` bytes: what a short read does not fill stays
-- zero, and is no error.
unfoldable pub read_array : ℕ → Io Bytes Bytes
read_array n = do bs ← read n; pure (copy (replicate n 0) bs)

unfoldable pub encode_secret : {W : Type 0} → Writer W → Bytes → Io W (Unit {0})
encode_secret write shared_secret = write shared_secret

unfoldable pub decode_secret : Io Bytes Bytes
decode_secret = read_full sha256_size

module _ (c : Primitives) where
  open c use {Point, serialize_compressed, parse_pub_key}

  -- `btcec.ParsePubKey`, whose error is returned as it is.
  unfoldable pub parse_key : Bytes → Io Bytes Point
  parse_key bs r = elim (parse_pub_key bs) [ none ↦ fail invalid_pub_key r | some p ↦ pure p r ]

  -- The loops over the payment path.
  unfoldable pub encode_keys : {W : Type 0} → Writer W → List Point → Io W (Unit {0})
  encode_keys write [] = pure tt
  encode_keys write (key ∷ keys) = do write (serialize_compressed key); encode_keys write keys

  unfoldable pub decode_keys : ℕ → Io Bytes (List Point)
  decode_keys zero = pure []
  decode_keys (suc left) = do
    pub_key_data ← read_array 33
    pub_key ← parse_key pub_key_data
    rest ← decode_keys left
    pure (pub_key ∷ rest)

module _ (c : Primitives) (k : KeyFormat c) where
  -- The lengths are cast to uint8.
  unfoldable pub encode_circuit : {W : Type 0} → Writer W → Circuit c → Io W (Unit {0})
  encode_circuit write circuit = do
    write ((length (k.serialize circuit.session_key) % 256) ∷ [])
    write (k.serialize circuit.session_key)
    write ((length circuit.payment_path % 256) ∷ [])
    encode_keys c write circuit.payment_path

  unfoldable pub decode_circuit : Io Bytes (Circuit c)
  decode_circuit = do
    key_length ← read_array 1
    session_key_data ← read_array (first key_length)
    path_length ← read_array 1
    payment_path ← decode_keys c (first path_length)
    pure (record {
      session_key = k.priv_key_from_bytes session_key_data;
      payment_path = payment_path;
    })
