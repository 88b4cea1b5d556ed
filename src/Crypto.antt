-- ===== src/Crypto.antt =====
-- crypto.go, over the packages it calls: btcec (the curve secp256k1), Go's crypto/sha256 and
-- crypto/hmac, and aead/chacha20. These are the parameter `c` of all that uses them; what the
-- theorems assume of them is the record `Laws` of Crypto/Laws.
pub mod Laws
pub mod Keys
use Prim.Native.String.{String}
use lightning_onion.Prelude.{
  ℕ, Bytes, Bool, Option, none, some, List, [], ◌∷◌, ◌++◌, take, replicate, Result, ok, panics,
}
use lightning_onion.Bytes.{copy, to_bytes}
use lightning_onion.Bytes.Xor.{zip_xor}

pub record Primitives : Type 1 where
  -- A `btcec.PublicKey`, and whether one of its coordinates is nil, as in the zero value.
  pub Point : Type 0
  pub is_nil : Point → Bool
  -- `S256().ScalarMult` and `S256().ScalarBaseMult`; the scalar is given as big-endian bytes.
  pub scalar_mult : Point → Bytes → Point
  pub scalar_base_mult : Bytes → Point
  -- `S256().IsOnCurve` and `S256().Params().N`.
  pub is_on_curve : Point → Bool
  pub order : ℕ
  -- `SerializeCompressed`, and `ParsePubKey`, where `none` stands for its error.
  pub serialize_compressed : Point → Bytes
  pub parse_pub_key : Bytes → Option Point
  -- `sha256.Sum256`, and the HMAC with SHA-256 of a message under a key.
  pub sha256 : Bytes → Bytes
  pub hmac_sha256 : Bytes → Bytes → Bytes
  -- `btcutil.Hash160`, and `btcutil.NewAddressPubKeyHash` on a network, where `none` is an error.
  pub hash160 : Bytes → Bytes
  pub Address : Type 0
  pub new_address_pub_key_hash : Bytes → Option Address
  -- `chacha20.NewCipher(nonce, key)`: no cipher, or one by its key stream of a given length.
  pub new_cipher : Bytes → Bytes → Option (ℕ → Bytes)

-- HMACSize, keyLen and sha256.Size
abbrev pub hmac_size : ℕ
hmac_size = 32

abbrev pub key_len : ℕ
key_len = 32

abbrev pub sha256_size : ℕ
sha256_size = 32

-- The bytes of a key type, `[]byte(keyType)`.
abbrev pub rho : Bytes
rho = b'r' ∷ b'h' ∷ b'o' ∷ []

abbrev pub mu : Bytes
mu = b'm' ∷ b'u' ∷ []

abbrev pub um : Bytes
um = b'u' ∷ b'm' ∷ []

abbrev pub ammag : Bytes
ammag = b'a' ∷ b'm' ∷ b'm' ∷ b'a' ∷ b'g' ∷ []

-- `zeroHMAC`, and every array that starts zeroed.
abbrev pub zero_hmac : Bytes
zero_hmac = replicate hmac_size 0

module _ (c : Primitives) where
  open c use {
    Point, scalar_mult, scalar_base_mult, serialize_compressed, sha256, hmac_sha256, new_cipher,
  }

  -- The scalar of a btcec.PrivateKey, and the public key that it carries along.
  pub record PrivateKey : Type 0 where
    pub pub_key : Point
    pub d : ℕ

  -- btcec's format of private keys: `PrivKeyFromBytes` and `(*PrivateKey).Serialize`.
  pub record KeyFormat : Type 0 where
    pub priv_key_from_bytes : Bytes → PrivateKey
    pub serialize : PrivateKey → Bytes

  unfoldable pub calc_mac : Bytes → Bytes → Bytes
  calc_mac key msg = copy (replicate hmac_size 0) (take hmac_size (hmac_sha256 key msg))

  unfoldable pub generate_key : Bytes → Bytes → Bytes
  generate_key key_type shared_key =
      copy (replicate key_len 0) (take key_len (hmac_sha256 key_type shared_key))

  -- The key stream is taken by encrypting `num_bytes` zeroes under the zero nonce.
  unfoldable pub generate_cipher_stream : Bytes → ℕ → Result Bytes
  generate_cipher_stream key num_bytes = elim (new_cipher (replicate 8 0) key) [
    | none ↦ panics
    | some key_stream ↦ ok (zip_xor (replicate num_bytes 0) (key_stream num_bytes))
  ]

  unfoldable pub compute_blinding_factor : Point → Bytes → Bytes
  compute_blinding_factor hop_pub_key hop_shared_secret =
      copy (replicate sha256_size 0)
        (sha256 (serialize_compressed hop_pub_key ++ hop_shared_secret))

  unfoldable pub blind_group_element : Point → Bytes → Point
  blind_group_element hop_pub_key blinding_factor = scalar_mult hop_pub_key blinding_factor

  unfoldable pub blind_base_element : Bytes → Point
  blind_base_element blinding_factor = scalar_base_mult blinding_factor

  unfoldable pub generate_shared_secret : Point → PrivateKey → Bytes
  generate_shared_secret pub_key priv =
      sha256 (serialize_compressed (scalar_mult pub_key (to_bytes priv.d)))
