-- ===== src/Packet/RoundTrip.antt =====
-- `Encode` and `Decode` of `OnionPacket` together.
use lightning_onion.Prelude.{◌≡◌, refl, true, ◌==◌, Bytes, [], ◌∷◌, ◌++◌, append_assoc, ok}
use lightning_onion.Stream.{buffer_write}
use lightning_onion.Stream.Laws.{read_full-append}
use lightning_onion.Sizes.{base_version, routing_info_size}
use lightning_onion.Crypto.{Primitives}
use lightning_onion.Crypto.Laws.{Laws}
use lightning_onion.Packet.{
  OnionPacket, IsOnionPacket, encode, decode, decode_body, parse_ephemeral, first,
}

module _ (c : Primitives) where
  unfoldable pub packet_bytes : OnionPacket c → Bytes
  packet_bytes f =
      (f.version ∷ [])
      ++ (c.serialize_compressed f.ephemeral_key ++ (f.routing_info ++ f.header_mac))

  pub encode_buffer :
      (f : OnionPacket c) (buf : Bytes)
      → encode c buffer_write f buf ≡ (ok tt, buf ++ packet_bytes f)
  unfolding encode buffer_write packet_bytes
  encode_buffer f buf = simp append_assoc

  parse_serialized_ephemeral :
      (l : Laws c) (p : c.Point) (r : Bytes)
      → c.is_on_curve p ≡ true
      → parse_ephemeral c (c.serialize_compressed p) r ≡ (ok p, r)
  unfolding parse_ephemeral
  parse_serialized_ephemeral l p r on = rw (l.parse_serialized p on, parse_ephemeral) refl

  -- What follows the version byte.
  body_bytes : OnionPacket c → Bytes
  body_bytes f = c.serialize_compressed f.ephemeral_key ++ (f.routing_info ++ f.header_mac)

  decode_body-body_bytes :
      (l : Laws c) (f : OnionPacket c) (rest : Bytes)
      → IsOnionPacket c f
      → c.is_on_curve f.ephemeral_key ≡ true
      → decode_body c f.version (body_bytes f ++ rest) ≡ (ok f, rest)
  unfolding decode_body body_bytes
  decode_body-body_bytes l f rest v on =
      rw
        (
          append_assoc (c.serialize_compressed f.ephemeral_key) (f.routing_info ++ f.header_mac)
              rest,
          append_assoc f.routing_info f.header_mac rest,
          read_full-append 33 (c.serialize_compressed f.ephemeral_key) _
              (l.serialized_length f.ephemeral_key),
          parse_serialized_ephemeral l f.ephemeral_key (f.routing_info ++ (f.header_mac ++ rest))
              on,
          read_full-append routing_info_size f.routing_info (f.header_mac ++ rest) v.routing_length,
          read_full-append 32 f.header_mac rest v.mac_length,
        )
        refl

  -- A packet of the supported version whose key lies on the curve is decoded from its encoding,
  -- and what follows stays unread.
  pub decode-encode_packet :
      (l : Laws c) (f : OnionPacket c) (rest : Bytes)
      → IsOnionPacket c f
      → f.version ≡ base_version
      → c.is_on_curve f.ephemeral_key ≡ true
      → decode c ((encode c buffer_write f []).1 ++ rest) ≡ (ok f, rest)
  unfolding decode packet_bytes body_bytes first
  decode-encode_packet l f rest v e on =
      let supported : (f.version == base_version) ≡ true = rw e refl in
      rw
        (
          encode_buffer f [],
          read_full-append 1 (f.version ∷ []) (body_bytes f ++ rest) refl,
          supported,
        )
        (decode_body-body_bytes l f rest v on)
