-- ===== src/Examples/Errors.antt =====
-- An error that comes back along a path of two nodes.
use lightning_onion.Prelude.{
  ℕ, List, ◌++◌, ◌≡◌, refl, arith, bytes_eq, take, drop, false, ok, ◌>>=◌, Bytes, [], ◌∷◌,
  replicate, get_elem?, length-replicate,
}
use lightning_onion.Bytes.{of_bytes, to_bytes, copy}
use lightning_onion.Bytes.Xor.{zip_xor}
use lightning_onion.Crypto.{generate_key, blind_group_element, compute_blinding_factor}
use lightning_onion.Crypto.Keys.{stream_of}
use lightning_onion.Examples.Toy.{digest, serialize}
use lightning_onion.Crypto
use lightning_onion.Secrets.Agreement.{
  public_keys, next_ephemeral, generate_shared_secrets-eq-router_secrets,
}
use lightning_onion.Route.{OnionHop, is_empty, node_keys}
use lightning_onion.Packet.{OnionPacket}
use lightning_onion.Onion.{new_onion_packet}
use lightning_onion.Router.Stops.{hops}
use lightning_onion.ErrorOnion.Reported.{report}
use lightning_onion.ErrorOnion.Sender.{decrypt_error-report}
use lightning_onion.ErrorOnion.{new_onion_error_decrypter, Circuit, decrypt_error, error_mac}
use lightning_onion.ErrorOnion.Layered.{layered}
use lightning_onion.ErrorOnion.Return.{
  layers, mac_matches, with_mac, returned, decrypt_error-returned,
}
use lightning_onion.Examples.Toy.{toy, toy_laws, on_curve}
use lightning_onion.Examples.Onions.{key_pair, stop, route, empties, hop_to-IsHopData}

abbrev circuit : Circuit toy
circuit = record {
  session_key = key_pair 3;
  payment_path = public_keys toy (key_pair 5 ∷ key_pair 7 ∷ []);
}

abbrev near : Bytes
near = Crypto.generate_shared_secret toy 3 (key_pair 5)

abbrev far : Bytes
far = Crypto.generate_shared_secret toy (next_ephemeral toy 3 (key_pair 5)) (key_pair 7)

abbrev reason : Bytes
reason = replicate 260 1

not_near :
    mac_matches toy toy_laws near
      (layers toy toy_laws [] (layered toy toy_laws far (with_mac toy toy_laws far reason)))
    ≡ false
unfolding layers layered error_mac take drop replicate stream_of digest serialize of_bytes to_bytes
    zip_xor bytes_eq generate_key copy blind_group_element compute_blinding_factor
    Crypto.generate_shared_secret
not_near = refl

decrypt_error-returned_example :
    (returned toy toy_laws (near ∷ []) far reason >>= decrypt_error toy circuit) ≡ ok (7, reason)
unfolding get_elem?
decrypt_error-returned_example =
    decrypt_error-returned toy toy_laws circuit (near ∷ []) far [] reason 7
      (generate_shared_secrets-eq-router_secrets toy toy_laws (key_pair 3) (key_pair 5)
        (key_pair 7 ∷ []) refl (refl, (refl, tt)))
      refl (omega arith) (length-replicate 260 1) (not_near, tt)

decrypt_error-report_example :
    let path = hops toy route ++ empties in
    let circuit : Circuit toy = record {
      session_key = key_pair 3;
      payment_path = node_keys toy path;
    } in
    (packet : OnionPacket toy) × (sealed : List (OnionHop toy)) × (new_onion_packet toy path
        (key_pair 3)
        []
      ≡ ok (packet, sealed))
    × ((report toy [] packet (key_pair 5 ∷ []) (key_pair 7) reason
          >>= decrypt_error toy (new_onion_error_decrypter toy circuit))
        ≡ ok (7, reason))
unfolding blind_group_element is_empty replicate
decrypt_error-report_example =
    decrypt_error-report toy toy_laws (stop 5 0 ∷ []) (stop 7 1) [] empties (key_pair 3) [] reason
      (omega arith)
      (
        (refl, refl, refl, hop_to-IsHopData 0 (omega arith)),
        ((refl, refl, refl, hop_to-IsHopData 1 (omega arith)), tt),
      )
      refl refl (on_curve 3, (on_curve _, tt)) (length-replicate {A = ℕ} 260 1) (not_near, tt)
