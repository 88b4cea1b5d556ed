-- ===== src/Examples/Onions.antt =====
-- A route of two nodes.
use lightning_onion.Prelude.{
  ℕ, zero, suc, ◌%◌, ◌<◌, ◌≡◌, refl, arith, ok, List, [], ◌∷◌, ◌++◌, replicate, length-replicate,
}
use lightning_onion.Crypto.{PrivateKey, blind_group_element}
use lightning_onion.HopData.{HopData, IsHopData}
use lightning_onion.Route.{OnionHop, is_empty}
use lightning_onion.Packet.{OnionPacket, IsOnionPacket}
use lightning_onion.Onion.{new_onion_packet}
use lightning_onion.Onion.Legs.{HasData}
use lightning_onion.Onion.Total.{Outcome, new_onion_packet-Outcome}
use lightning_onion.Router.Stops.{Stop, keys, hops, SameButHmac}
use lightning_onion.Router.Delivery.{Delivers, new_onion_packet-Delivers}
use lightning_onion.Examples.Toy.{toy, toy_laws, on_curve}

abbrev pub key_pair : ℕ → PrivateKey toy
key_pair d = record { pub_key = d % 251; d = d }

abbrev pub hop_to : ℕ → HopData
hop_to i = record {
  realm = replicate 1 0;
  next_address = replicate 8 i;
  forward_amount = i;
  outgoing_cltv = i;
  extra_bytes = replicate 12 0;
  hmac = replicate 32 0;
}

abbrev pub stop : ℕ → ℕ → Stop toy
stop d i = record { key = key_pair d; hop = record { node_pub = d % 251; hop_data = hop_to i } }

abbrev pub route : List (Stop toy)
route = stop 5 0 ∷ stop 7 1 ∷ []

abbrev pub empties : List (OnionHop toy)
empties = replicate 18 (record { node_pub = 251; hop_data = hop_to 0 })

pub hop_to-IsHopData : (i : ℕ) → i < 2 → IsHopData (hop_to i)
hop_to-IsHopData i h = record {
  realm_length = length-replicate 1 0;
  address_length = length-replicate 8 i;
  amount_fits = omega arith;
  cltv_fits = omega arith;
  extra_length = length-replicate 12 0;
  hmac_length = length-replicate 32 0;
}

new_onion_packet-Delivers_example :
    (packet : OnionPacket toy) × (sealed_hops : List (OnionHop toy)) × (new_onion_packet toy
        (hops toy route ++ empties)
        (key_pair 3)
        []
      ≡ ok (packet, sealed_hops ++ empties))
    × SameButHmac toy (hops toy route) sealed_hops
    × Delivers toy [] packet (keys toy route) sealed_hops
    × IsOnionPacket toy packet
unfolding replicate blind_group_element is_empty
new_onion_packet-Delivers_example =
    new_onion_packet-Delivers toy toy_laws (stop 5 0) (stop 7 1 ∷ []) empties (key_pair 3) []
      (omega arith)
      (
        (refl, refl, refl, hop_to-IsHopData 0 (omega arith)),
        ((refl, refl, refl, hop_to-IsHopData 1 (omega arith)), tt),
      )
      refl refl (on_curve 3, (on_curve _, tt))

empties-HasData :
    (n : ℕ) → HasData toy (replicate n (record { node_pub = 251; hop_data = hop_to 0 }))
unfolding replicate
empties-HasData zero = tt
empties-HasData (suc n) = (hop_to-IsHopData 0 (omega arith), empties-HasData n)

new_onion_packet-Outcome_example :
    Outcome toy toy_laws (hops toy route ++ empties) (key_pair 3) (1 ∷ [])
unfolding replicate
new_onion_packet-Outcome_example =
    new_onion_packet-Outcome toy toy_laws (hops toy route ++ empties) (key_pair 3) (1 ∷ []) refl
      (hop_to-IsHopData 0 (omega arith), (hop_to-IsHopData 1 (omega arith), empties-HasData 18))
