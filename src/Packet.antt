-- ===== src/Packet.antt =====
-- `OnionPacket` of sphinx.go and its wire format.
pub mod RoundTrip
pub mod Arrays
use lightning_onion.Prelude.{
  ℕ, Option, none, some, Bytes, [], ◌∷◌, ◌≡◌, length, Result, ok, err, invalid_onion_version,
  invalid_onion_key, ◌==◌, if◌then◌else◌,
}
use lightning_onion.Prelude.Io.{Io, pure, fail, ◌>>=◌, ◌>>◌}
use lightning_onion.Stream.{Writer, read_full}
use lightning_onion.Sizes.{base_version, routing_info_size}
use lightning_onion.Crypto.{Primitives, hmac_size}

-- The byte of an array of one byte, `buf[0]`.
unfoldable pub first : Bytes → ℕ
first [] = 0
first (b ∷ bs) = b

module _ (c : Primitives) where
  open c use {Point, serialize_compressed, parse_pub_key}

  pub record OnionPacket : Type 0 where
    pub version : ℕ
    pub ephemeral_key : Point
    pub routing_info : Bytes
    pub header_mac : Bytes

  -- What the types of the two arrays say.
  pub record IsOnionPacket (p : OnionPacket) : Type 0 where
    pub routing_length : length p.routing_info ≡ routing_info_size
    pub mac_length : length p.header_mac ≡ hmac_size

  unfoldable pub encode : {W : Type 0} → Writer W → OnionPacket → Io W (Unit {0})
  encode write f = do
    write (f.version ∷ [])
    write (serialize_compressed f.ephemeral_key)
    write f.routing_info
    write f.header_mac

  -- `btcec.ParsePubKey`, any failure of which is reported as an invalid onion key.
  unfoldable pub parse_ephemeral : Bytes → Io Bytes Point
  parse_ephemeral bs r = elim (parse_pub_key bs) [
    | none ↦ fail invalid_onion_key r
    | some p ↦ pure p r
  ]

  -- What follows the version byte.
  unfoldable pub decode_body : ℕ → Io Bytes OnionPacket
  decode_body version = do
    ephemeral ← read_full 33
    ephemeral_key ← parse_ephemeral ephemeral
    routing_info ← read_full routing_info_size
    header_mac ← read_full hmac_size
    pure (record {
      version = version;
      ephemeral_key = ephemeral_key;
      routing_info = routing_info;
      header_mac = header_mac;
    })

  unfoldable pub decode : Io Bytes OnionPacket
  decode = do
    buf ← read_full 1
    if first buf == base_version then decode_body (first buf) else fail invalid_onion_version
