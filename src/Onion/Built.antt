-- ===== src/Onion/Built.antt =====
-- `NewOnionPacket` as a whole.
use lightning_onion.Prelude.{
  ℕ, suc, ◌+◌, ◌≤◌, ◌≡◌, refl, sym, ap, ◌∙◌, arith, List, [], ◌∷◌, ◌++◌, append-nil, Bytes, length,
  replicate, ok,
}
use lightning_onion.Sizes.{base_version}
use lightning_onion.Crypto.{Primitives, PrivateKey, rho}
use lightning_onion.Crypto.Laws.{Laws}
use lightning_onion.Route.{OnionHop}
use lightning_onion.Route.Length.{
  IsUsed, StartsEmpty, keys_of, true_route_length_lem, node_keys_lem,
}
use lightning_onion.Secrets.{generate_shared_secrets}
use lightning_onion.Packet.{OnionPacket}
use lightning_onion.Onion.{new_onion_packet, wrap_loop, generate_header_padding}
use lightning_onion.Onion.Filler.{filler_of, length-filler_of, generate_header_padding_lem}
use lightning_onion.Onion.Unwind.{wind, unwind, unwind-wind}
use lightning_onion.Onion.Wrapped.{
  Leg, AreLegs, header, sealed, hops_of, secrets_of, wrap_loop_lem, length-hops_of,
  length-secrets_of, state,
}

module _ (c : Primitives) (l : Laws c) where
  -- The packet that the first of the legs receives, under the ephemeral key `eph`.
  abbrev pub packet_for : Bytes → Bytes → c.Point → List (Leg c) → OnionPacket c
  packet_for filler assoc_data eph xs = record {
    version = base_version;
    ephemeral_key = eph;
    routing_info = (header c l filler assoc_data xs).0;
    header_mac = (header c l filler assoc_data xs).1;
  }

  hops_of-wind : (xs r : List (Leg c)) → hops_of c (wind xs r) ≡ wind (hops_of c xs) (hops_of c r)
  hops_of-wind [] r = refl
  hops_of-wind (x ∷ xs) r = hops_of-wind xs (x ∷ r)

  length-wind : (xs r : List (Leg c)) → length (wind xs r) ≡ length xs + length r
  length-wind [] r = omega arith
  length-wind (x ∷ xs) r = omega (arith, length-wind xs (x ∷ r))

  -- All rounds together, from a header and an HMAC of zeroes.
  wrap_all :
      (filler assoc_data : Bytes) (legs : List (Leg c)) (empties : List (OnionHop c)) (n : ℕ)
      → length filler + 65 ≤ 1300
      → AreLegs c legs
      → n ≡ length (hops_of c legs)
      → wrap_loop c n (secrets_of c legs) filler assoc_data n (record {
        path = hops_of c legs ++ empties;
        mix_header = replicate 1300 0;
        next_hmac = replicate 32 0;
      })
        ≡ ok (state c l filler assoc_data [] empties legs)
  unfolding header sealed
  wrap_all filler assoc_data legs empties n room v e =
      let r = wind legs [] in
      let back : unwind r [] ≡ legs = unwind-wind legs [] [] ∙ append-nil legs in
      let size : n ≡ length r = omega (arith, length-wind legs [], length-hops_of c legs) in
      let path : hops_of c legs ++ empties ≡ unwind (hops_of c r) empties = sym (
        ap (λ t. unwind t empties) (hops_of-wind legs [])
        ∙ unwind-wind (hops_of c legs) [] empties) in
      rw (path, size)
        (wrap_loop_lem c l filler assoc_data room (length r) (secrets_of c legs) r empties []
            (rw back v) (rw back refl) (rw back (sym size ∙ e ∙ length-hops_of c legs))
          ∙ ap (λ t. ok (state c l filler assoc_data [] empties t)) back)

  pub new_onion_packet_lem :
      (x : Leg c) (xs : List (Leg c)) (empties : List (OnionHop c)) (session_key : PrivateKey c)
      (assoc_data : Bytes)
      → let legs = x ∷ xs in
        let filler = filler_of c l [] (secrets_of c legs) in
        length legs ≤ 20
        → AreLegs c legs
        → IsUsed c (hops_of c legs)
        → StartsEmpty c empties
        → generate_shared_secrets c (keys_of c (hops_of c legs)) session_key
          ≡ ok (secrets_of c legs)
        → new_onion_packet c (hops_of c legs ++ empties) session_key assoc_data
          ≡ ok (
            packet_for filler assoc_data session_key.pub_key legs,
            sealed c l filler assoc_data legs ++ empties,
          )
  unfolding new_onion_packet
  new_onion_packet_lem x xs empties session_key assoc_data fits v used empty shared =
      let legs = x ∷ xs in
      let filler = filler_of c l [] (secrets_of c legs) in
      let n = true_route_length_lem c (hops_of c legs) empties used empty in
      let size : length (hops_of c xs) ≡ length (secrets_of c xs) =
        length-hops_of c xs ∙ sym (length-secrets_of c xs) in
      let room : length filler + 65 ≤ 1300 =
        omega (arith, length-filler_of c l [] x.secret (secrets_of c xs), length-secrets_of c xs) in
      rw
        (
          n,
          node_keys_lem c (hops_of c legs) empties used empty,
          shared,
          ap (λ n. generate_header_padding c rho (suc n) 65 (secrets_of c legs)) size
              ∙ generate_header_padding_lem c l x.secret (secrets_of c xs)
                  (omega (arith, length-secrets_of c xs)),
          wrap_all filler assoc_data legs empties (length (hops_of c legs)) room v refl,
        )
        refl
