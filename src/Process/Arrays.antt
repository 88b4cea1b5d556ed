-- ===== src/Process/Arrays.antt =====
-- `unwrapPacket` and `processOnionPacket` of sphinx.go, on any packet.
use lightning_onion.Prelude.{
  ℕ, ◌≡◌, refl, ◌∙◌, inl, inr, arith, some, Bool-cases, Bytes, ◌++◌, drop, replicate, length-append,
  length-replicate, bytes_eq,
}
use lightning_onion.Prelude.Returns.{Returns, bind-Returns}
use lightning_onion.Bytes.Copy.{length-copy}
use lightning_onion.Bytes.Xor.{zip_xor}
use lightning_onion.Crypto.{Primitives, rho, mu, calc_mac, generate_key}
use lightning_onion.Crypto.Laws.{Laws}
use lightning_onion.Crypto.Keys.{generate_cipher_stream_lem, length-stream_of, stream_of-AreBytes}
use lightning_onion.HopData.{HopData, IsHopData}
use lightning_onion.HopData
use lightning_onion.HopData.Arrays as HopArrays
use lightning_onion.Packet.Arrays as PacketArrays
use lightning_onion.Bytes.Bounds.{
  AreBytes, append-AreBytes, replicate-AreBytes, zip_xor-AreBytes, copy-AreBytes, drop-AreBytes,
}
use lightning_onion.Onion.Filler.{header_stream}
use lightning_onion.Packet.{OnionPacket}
use lightning_onion.Process.{ProcessedPacket, strip_layer, unwrap_packet, process_onion_packet}
use lightning_onion.Process.Unwrap.{xor_fresh}

module _ (c : Primitives) where
  -- What a node gets is well-formed hop data, and a packet to hand on whose arrays have their
  -- lengths and hold bytes.
  pub record IsProcessed (q : ProcessedPacket c) : Type 0 where
    pub next : OnionPacket c
    pub handed_on : q.next_packet ≡ some next
    pub next_read : PacketArrays.IsRead c next
    pub hop_data : IsHopData q.forwarding_instructions

  abbrev Unwrapped : OnionPacket c × HopData → Type 0
  Unwrapped u = PacketArrays.IsRead c u.0 × IsHopData u.1

  module _ (l : Laws c) (pkt : OnionPacket c) (secret : Bytes) (v : PacketArrays.IsRead c pkt) where
    padded-AreBytes : AreBytes (pkt.routing_info ++ replicate 65 0)
    padded-AreBytes =
        append-AreBytes pkt.routing_info (replicate 65 0) v.1
          (replicate-AreBytes 65 0 (omega arith))

    strip_layer-Returns : Returns Unwrapped (strip_layer c pkt secret)
    unfolding strip_layer
    strip_layer-Returns =
        let padded = pkt.routing_info ++ replicate 65 0 in
        let stream = header_stream c l secret in
        let clear = zip_xor padded stream in
        let w : AreBytes clear =
          zip_xor-AreBytes padded stream padded-AreBytes (stream_of-AreBytes c l rho secret 1365) in
        rw
          (
            generate_cipher_stream_lem c l rho secret 1365,
            xor_fresh 1365 padded stream
                (omega (
                  arith,
                  length-append pkt.routing_info (replicate 65 0),
                  length-replicate {A = ℕ} 65 0,
                  v.0.routing_length,
                ))
                (length-stream_of c l rho secret 1365),
          )
          (bind-Returns HopArrays.IsRead Unwrapped (HopData.decode clear).0 _
            (HopArrays.decode-Returns clear w)
            λ hd h. (
              (
                record {
                  routing_length =
                      length-copy (replicate 1300 0) (drop 65 clear) ∙ length-replicate 1300 0;
                  mac_length = h.0.hmac_length;
                },
                copy-AreBytes (replicate 1300 0) (drop 65 clear)
                    (replicate-AreBytes 1300 0 (omega arith)) (drop-AreBytes 65 clear w),
                h.1,
              ),
              h.0,
            ))

    unwrap_packet-Returns :
        (assoc_data : Bytes) → Returns Unwrapped (unwrap_packet c pkt secret assoc_data)
    unfolding unwrap_packet
    unwrap_packet-Returns assoc_data =
        let mac = calc_mac c (generate_key c mu secret) (pkt.routing_info ++ assoc_data) in
        elim (Bool-cases (bytes_eq pkt.header_mac mac)) [
          | inl same ↦ rw same strip_layer-Returns
          | inr other ↦ rw other tt
        ]

    pub process_onion_packet-Returns :
        (assoc_data : Bytes) → Returns IsProcessed (process_onion_packet c pkt secret assoc_data)
    unfolding process_onion_packet
    process_onion_packet-Returns assoc_data =
        bind-Returns Unwrapped IsProcessed (unwrap_packet c pkt secret assoc_data) _
          (unwrap_packet-Returns assoc_data)
          λ u w. record { next = u.0; handed_on = refl; next_read = w.0; hop_data = w.1 }
