-- ===== src/Examples/Basics.antt =====
-- Single parts at concrete inputs.
use lightning_onion.Prelude.{
  ◌≡◌, refl, arith, ok, none, [], ◌∷◌, ◌++◌, take, drop, length, replicate, get_elem?, set,
  length-replicate,
}
use lightning_onion.Bytes.{xor, right_shift}
use lightning_onion.Bytes.Xor.{zip_xor, xor_eq_zip}
use lightning_onion.Bytes.Shift.{right_shift_lem}
use lightning_onion.Stream.{buffer_write}
use lightning_onion.HopData.{HopData}
use lightning_onion.HopData
use lightning_onion.HopData.RoundTrip.{decode-encode_hop}
use lightning_onion.Secrets.{generate_shared_secrets}
use lightning_onion.Secrets.Agreement.{
  public_keys, router_secrets, generate_shared_secrets-eq-router_secrets,
}
use lightning_onion.Packet.{OnionPacket}
use lightning_onion.Packet
use lightning_onion.Packet.RoundTrip.{decode-encode_packet}
use lightning_onion.Onion.{generate_header_padding}
use lightning_onion.Onion.Filler.{filler_of, generate_header_padding_lem}
use lightning_onion.Crypto.{rho}
use lightning_onion.Router.{new_router}
use lightning_onion.Router.Address.{new_router-node_addr}
use lightning_onion.Examples.Toy.{toy, toy_laws, on_curve}
use lightning_onion.Examples.Onions.{key_pair, hop_to, hop_to-IsHopData}

generate_shared_secrets-eq-router_secrets_example :
    generate_shared_secrets toy (public_keys toy (key_pair 5 ∷ key_pair 7 ∷ [])) (key_pair 3)
    ≡ ok (router_secrets toy 3 (key_pair 5 ∷ key_pair 7 ∷ []))
generate_shared_secrets-eq-router_secrets_example =
    generate_shared_secrets-eq-router_secrets toy toy_laws (key_pair 3) (key_pair 5)
      (key_pair 7 ∷ []) refl (refl, (refl, tt))

right_shift_test : right_shift (1 ∷ 2 ∷ 3 ∷ 4 ∷ []) 3 ≡ ok (0 ∷ 0 ∷ 0 ∷ 1 ∷ [])
unfolding right_shift get_elem? set
right_shift_test = refl

right_shift_lem_example :
    right_shift (1 ∷ 2 ∷ 3 ∷ 4 ∷ []) 3 ≡ ok (replicate 3 0 ++ take 1 (1 ∷ 2 ∷ 3 ∷ 4 ∷ []))
right_shift_lem_example = right_shift_lem (1 ∷ 2 ∷ 3 ∷ 4 ∷ []) 3 (omega arith)

xor_eq_zip_example :
    xor (0 ∷ 0 ∷ 9 ∷ []) (5 ∷ 6 ∷ []) (3 ∷ 3 ∷ 3 ∷ [])
    ≡ ok (zip_xor (5 ∷ 6 ∷ []) (3 ∷ 3 ∷ 3 ∷ []) ++ drop 2 (0 ∷ 0 ∷ 9 ∷ []), 2)
xor_eq_zip_example = xor_eq_zip (0 ∷ 0 ∷ 9 ∷ []) (5 ∷ 6 ∷ []) (3 ∷ 3 ∷ 3 ∷ []) (omega arith)

decode-encode_hop_example :
    (length (HopData.encode buffer_write (hop_to 1) []).1 ≡ 65)
    × (HopData.decode ((HopData.encode buffer_write (hop_to 1) []).1 ++ 7 ∷ [])
        ≡ (ok (hop_to 1), 7 ∷ []))
decode-encode_hop_example = decode-encode_hop (hop_to 1) (7 ∷ []) (hop_to-IsHopData 1 (omega arith))

abbrev packet : OnionPacket toy
packet = record {
  version = 0;
  ephemeral_key = 3;
  routing_info = replicate 1300 4;
  header_mac = replicate 32 5;
}

decode-encode_packet_example :
    Packet.decode toy ((Packet.encode toy buffer_write packet []).1 ++ 7 ∷ []) ≡ (ok packet, 7 ∷ [])
decode-encode_packet_example =
    decode-encode_packet toy toy_laws packet (7 ∷ [])
      (record { routing_length = length-replicate 1300 4; mac_length = length-replicate 32 5 }) refl
      (on_curve 3)

generate_header_padding_lem_example :
    generate_header_padding toy rho 2 65 ((1 ∷ []) ∷ (2 ∷ []) ∷ [])
    ≡ ok (filler_of toy toy_laws [] ((1 ∷ []) ∷ (2 ∷ []) ∷ []))
generate_header_padding_lem_example =
    generate_header_padding_lem toy toy_laws (1 ∷ []) ((2 ∷ []) ∷ []) (omega arith)

new_router-node_addr_example :
    (length (new_router toy (key_pair 5)).node_id ≡ 8)
    × ((new_router toy (key_pair 5)).node_addr ≡ none)
new_router-node_addr_example = new_router-node_addr toy toy_laws (key_pair 5)
