-- ===== src/Process/Unwrap.antt =====
-- `unwrapPacket` of sphinx.go: the check of the MAC, and what is behind it.
use lightning_onion.Prelude.{
  ℕ, ◌≡◌, ◌≢◌, refl, ap, ◌∙◌, arith, Bytes, ◌++◌, append-nil, length, replicate, ok, err,
  invalid_onion_hmac, min, bytes_eq_of_eq, bytes_eq_of_ne, length-append, length-replicate,
  take_all, drop_all, drop-append,
}
use lightning_onion.Bytes.{xor}
use lightning_onion.Bytes.Copy.{copy_over}
use lightning_onion.Bytes.Xor.{zip_xor, xor_eq_zip}
use lightning_onion.Crypto.{
  Primitives, rho, mu, calc_mac, generate_key, compute_blinding_factor, blind_group_element,
}
use lightning_onion.Crypto.Laws.{Laws}
use lightning_onion.Crypto.Keys.{generate_cipher_stream_lem, length-stream_of}
use lightning_onion.HopData.{HopData, IsHopData}
use lightning_onion.HopData.RoundTrip.{hop_bytes, decode-hop_bytes, length-hop_bytes}
use lightning_onion.Packet.{OnionPacket}
use lightning_onion.Onion.Layers.{peeled}
use lightning_onion.Onion.Filler.{header_stream}
use lightning_onion.Process.{strip_layer, unwrap_packet}

-- Into a fresh array of the same length.
pub xor_fresh :
    (n : ℕ) (a b : Bytes)
    → length a ≡ n
    → length b ≡ n
    → xor (replicate n 0) a b ≡ ok (zip_xor a b, min (length a) (length b))
xor_fresh n a b e k =
    let lr = length-replicate {A = ℕ} n 0 in
    let m = min (length a) (length b) in
    xor_eq_zip (replicate n 0) a b (omega arith)
    ∙ ap (λ t. ok (t, m))
        (ap (λ t. zip_xor a b ++ t) (drop_all m (replicate n 0) (omega arith))
          ∙ append-nil (zip_xor a b))

module _ (c : Primitives) (l : Laws c) where
  -- The packet that a node hands on.
  abbrev pub inner_packet : OnionPacket c → Bytes → Bytes → Bytes → OnionPacket c
  inner_packet p secret routing_info mac = record {
    version = p.version;
    ephemeral_key =
        blind_group_element c p.ephemeral_key (compute_blinding_factor c p.ephemeral_key secret);
    routing_info = routing_info;
    header_mac = mac;
  }

  -- If the decrypted header is serialized hop data in front of 1300 bytes, these are what the
  -- node gets and what it hands on.
  pub strip_layer_lem :
      (p : OnionPacket c) (secret : Bytes) (hd : HopData) (next : Bytes)
      → length p.routing_info ≡ 1300
      → IsHopData hd
      → length next ≡ 1300
      → peeled 65 p.routing_info (header_stream c l secret) ≡ hop_bytes hd ++ next
      → strip_layer c p secret ≡ ok (inner_packet p secret next hd.hmac, hd)
  unfolding strip_layer
  strip_layer_lem p secret hd next k v n e =
      let padded = p.routing_info ++ replicate 65 0 in
      let enc = hop_bytes hd in
      rw
        (
          generate_cipher_stream_lem c l rho secret 1365,
          xor_fresh 1365 padded (header_stream c l secret)
              (omega (
                arith,
                length-append p.routing_info (replicate 65 0),
                length-replicate {A = ℕ} 65 0,
              ))
              (length-stream_of c l rho secret 1365),
          e,
          decode-hop_bytes hd next v,
          drop-append 65 enc next (length-hop_bytes hd v),
          copy_over (replicate 1300 0) next (omega (arith, length-replicate {A = ℕ} 1300 0)),
          length-replicate {A = ℕ} 1300 0,
          take_all 1300 next (omega arith),
        )
        refl

  -- A packet whose MAC is the one of its header and the associated data is unwrapped.
  pub unwrap_packet_ok :
      (p : OnionPacket c) (secret assoc_data : Bytes)
      → p.header_mac ≡ calc_mac c (generate_key c mu secret) (p.routing_info ++ assoc_data)
      → unwrap_packet c p secret assoc_data ≡ strip_layer c p secret
  unfolding unwrap_packet
  unwrap_packet_ok p secret assoc_data e = rw (bytes_eq_of_eq _ _ e) refl

module _ (c : Primitives) where
  -- Any other is refused, whatever it holds.
  pub unwrap_packet_bad_mac :
      (p : OnionPacket c) (secret assoc_data : Bytes)
      → p.header_mac ≢ calc_mac c (generate_key c mu secret) (p.routing_info ++ assoc_data)
      → unwrap_packet c p secret assoc_data ≡ err invalid_onion_hmac
  unfolding unwrap_packet
  unwrap_packet_bad_mac p secret assoc_data ne = rw (bytes_eq_of_ne _ _ ne) refl
