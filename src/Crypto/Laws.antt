-- ===== src/Crypto/Laws.antt =====
-- What the theorems assume of the packages under crypto.go, as their documentation states it:
-- the lengths of hashes and key streams, the encoding of public keys, and the group law of the
-- curve on the multiples of its base point.
use lightning_onion.Prelude.{
  ℕ, ◌*◌, ◌%◌, ◌≡◌, ◌≢◌, none, Bytes, true, some, length, replicate, All, ◌<◌,
}
use lightning_onion.Bytes.{of_bytes}
use lightning_onion.Crypto.{Primitives, PrivateKey}

pub record Laws (c : Primitives) : Type 0 where
  pub hmac_length : (key msg : Bytes) → length (c.hmac_sha256 key msg) ≡ 32
  pub sha_length : (msg : Bytes) → length (c.sha256 msg) ≡ 32
  -- A nonce of 8 bytes and a key of 32 make a cipher, whose key stream has as many bytes as asked
  -- for.
  pub cipher :
      (key : Bytes)
      → length key ≡ 32
      → (stream : ℕ → Bytes) × (c.new_cipher (replicate 8 0) key ≡ some stream)
        × ((n : ℕ) → length (stream n) ≡ n)
        × ((n : ℕ) → All (λ b. b < 256) (stream n))
  -- An address is made from a hash of 20 bytes only.
  pub address_of_hash : (hash : Bytes) → length hash ≢ 20 → c.new_address_pub_key_hash hash ≡ none
  pub hash160_length : (msg : Bytes) → length (c.hash160 msg) ≡ 20
  pub serialized_length : (p : c.Point) → length (c.serialize_compressed p) ≡ 33
  pub parse_serialized :
      (p : c.Point) → c.is_on_curve p ≡ true → c.parse_pub_key (c.serialize_compressed p) ≡ some p
  -- `multiple k` is k times the base point.
  pub multiple : ℕ → c.Point
  pub base_mult : (k : Bytes) → c.scalar_base_mult k ≡ multiple (of_bytes k)
  pub mult : (n : ℕ) (k : Bytes) → c.scalar_mult (multiple n) k ≡ multiple (of_bytes k * n)
  pub multiple_mod : (n : ℕ) → multiple (n % c.order) ≡ multiple n

-- A key pair as btcec makes it: the public key is the scalar's multiple of the base point.
abbrev pub IsKeyPair : (c : Primitives) → Laws c → PrivateKey c → Type 0
IsKeyPair c l k = k.pub_key ≡ l.multiple k.d
