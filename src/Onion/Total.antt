-- ===== src/Onion/Total.antt =====
-- `NewOnionPacket` of sphinx.go on any payment path and any session key.
use lightning_onion.Prelude.{
  ◌+◌, ◌≤◌, ◌≡◌, ◌≢◌, refl, sym, ap, arith, inl, inr, ◌⊎◌, List, [], ◌∷◌, ◌++◌, Bytes, length,
  length-append, ok, panics,
}
use mathlib.Core.Path.{subst}
use lightning_onion.Stream.{buffer_write}
use lightning_onion.Sizes.{base_version}
use lightning_onion.Crypto.{Primitives, PrivateKey}
use lightning_onion.Crypto.Laws.{Laws}
use lightning_onion.Route.{OnionHop, IsPaymentPath, true_route_length}
use lightning_onion.Route.Length.{
  IsUsed, StartsEmpty, keys_of, true_route_length_lem, node_keys_lem,
}
use lightning_onion.Secrets.{generate_shared_secrets}
use lightning_onion.Packet.{OnionPacket, IsOnionPacket}
use lightning_onion.Packet
use lightning_onion.Packet.RoundTrip.{encode_buffer, packet_bytes}
use lightning_onion.Onion.{new_onion_packet}
use lightning_onion.Onion.Filler.{filler_of, length-filler_of}
use lightning_onion.Onion.Wrapped.{
  Leg, AreLegs, sealed, hops_of, length-hops_of, secrets_of, length-header, length-secrets_of,
  with_hmac-IsHopData,
}
use lightning_onion.Router.Stops.{SameButHmac}
use lightning_onion.Onion.Built.{packet_for, new_onion_packet_lem}
use lightning_onion.Onion.Legs.{
  split_route, legs_of, hops_of-legs_of, secrets_of-legs_of, secrets_for, HasData, SameButHmac-refl,
  append-HasData, split-HasData, AreLegs-HasData,
}

module _ (c : Primitives) (l : Laws c) where
  module _ (filler assoc_data : Bytes) where
    SameButHmac-sealed_legs :
        (xs : List (Leg c)) (rest : List (OnionHop c))
        → SameButHmac c (hops_of c xs ++ rest) (sealed c l filler assoc_data xs ++ rest)
    unfolding sealed
    SameButHmac-sealed_legs [] rest = SameButHmac-refl c rest
    SameButHmac-sealed_legs (x ∷ xs) rest = (refl, SameButHmac-sealed_legs xs rest)

    sealed-HasData :
        length filler + 65 ≤ 1300
        → (xs : List (Leg c)) → AreLegs c xs
        → HasData c (sealed c l filler assoc_data xs)
    unfolding sealed
    sealed-HasData room [] v = tt
    sealed-HasData room (x ∷ xs) v = (
      with_hmac-IsHopData x.hop.hop_data _ v.0 (length-header c l filler assoc_data room xs v.1).1,
      sealed-HasData room xs v.1,
    )

  -- A packet that NewOnionPacket made, and the path that it leaves.
  pub record Made (path : List (OnionHop c)) (session_key : PrivateKey c)
      (made : OnionPacket c × List (OnionHop c)) : Type 0 where
    pub arrays : IsOnionPacket c made.0
    pub version : made.0.version ≡ base_version
    pub key : made.0.ephemeral_key ≡ session_key.pub_key
    pub same_hops : SameButHmac c path made.1
    pub has_data : HasData c made.1
    pub wire_length : length (Packet.encode c buffer_write made.0 []).1 ≡ 1366

  wire_length_lem :
      (p : OnionPacket c) → IsOnionPacket c p → length (Packet.encode c buffer_write p []).1 ≡ 1366
  unfolding packet_bytes
  wire_length_lem p v = rw (encode_buffer c p []) (
      omega (
        arith,
        length-append (c.serialize_compressed p.ephemeral_key) (p.routing_info ++ p.header_mac),
        l.serialized_length p.ephemeral_key,
        length-append p.routing_info p.header_mac,
        v.routing_length,
        v.mac_length,
      ))

  new_onion_packet-Made :
      (x : Leg c) (xs : List (Leg c)) (empties : List (OnionHop c)) (session_key : PrivateKey c)
      (assoc_data : Bytes)
      → let legs = x ∷ xs in
        let path = hops_of c legs ++ empties in
        length legs ≤ 20
        → HasData c path
        → IsUsed c (hops_of c legs)
        → StartsEmpty c empties
        → generate_shared_secrets c (keys_of c (hops_of c legs)) session_key
          ≡ ok (secrets_of c legs)
        → (made : OnionPacket c × List (OnionHop c)) × (new_onion_packet c path session_key
              assoc_data
            ≡ ok made)
          × Made path session_key made
  new_onion_packet-Made x xs empties session_key assoc_data fits v used empty shared =
      let legs = x ∷ xs in
      let filler = filler_of c l [] (secrets_of c legs) in
      let data_of = split-HasData c (hops_of c legs) empties v in
      let are = AreLegs-HasData c legs data_of.0 in
      let room : length filler + 65 ≤ 1300 =
        omega (arith, length-filler_of c l [] x.secret (secrets_of c xs), length-secrets_of c xs) in
      let size = length-header c l filler assoc_data room legs are in
      let arrays : IsOnionPacket c (packet_for c l filler assoc_data session_key.pub_key legs) =
        record { routing_length = size.0; mac_length = size.1 } in
      (
        (
          packet_for c l filler assoc_data session_key.pub_key legs,
          sealed c l filler assoc_data legs ++ empties,
        ),
        new_onion_packet_lem c l x xs empties session_key assoc_data fits are used empty shared,
        record {
          arrays = arrays;
          version = refl;
          key = refl;
          same_hops = SameButHmac-sealed_legs filler assoc_data legs empties;
          has_data =
              append-HasData c _ empties (sealed-HasData filler assoc_data room legs are) data_of.1;
          wire_length = wire_length_lem _ arrays;
        },
      )

  -- What NewOnionPacket does with a route that has no hop, and with any other.
  abbrev pub Outcome : List (OnionHop c) → PrivateKey c → Bytes → Type 0
  Outcome path session_key assoc_data =
      ((true_route_length c path ≡ 0) × (new_onion_packet c path session_key assoc_data ≡ panics))
      ⊎ ((true_route_length c path ≢ 0)
          × (made : OnionPacket c × List (OnionHop c)) × (new_onion_packet c path session_key
                assoc_data
              ≡ ok made)
          × Made path session_key made)

  split-Outcome :
      (used rest : List (OnionHop c)) (session_key : PrivateKey c) (assoc_data : Bytes)
      → length used ≤ 20
      → HasData c (used ++ rest)
      → IsUsed c used
      → StartsEmpty c rest
      → Outcome (used ++ rest) session_key assoc_data
  unfolding new_onion_packet generate_shared_secrets
  split-Outcome [] rest session_key assoc_data fits v u empty =
      inl (true_route_length_lem c [] rest u empty, rw (node_keys_lem c [] rest u empty) refl)
  split-Outcome (o ∷ os) rest session_key assoc_data fits v u empty =
      let shared = secrets_for c o os session_key in
      let x : Leg c = record { hop = o; secret = shared.0 } in
      let xs = legs_of c os shared.1 in
      let same = hops_of-legs_of c os shared.1 shared.3 in
      let secret = secrets_of-legs_of c os shared.1 shared.3 in
      let made =
        subst
          (λ hs.
            (made : OnionPacket c × List (OnionHop c)) × (new_onion_packet c ((o ∷ hs) ++ rest)
                session_key assoc_data
              ≡ ok made)
            × Made ((o ∷ hs) ++ rest) session_key made)
          same
          (new_onion_packet-Made x xs rest session_key assoc_data
            (omega (arith, length-hops_of c xs, ap (λ (t : List (OnionHop c)). length t) same))
            (rw same v) (rw same u) empty (rw (same, secret) shared.2)) in
      inr (
        (λ e. omega (arith, true_route_length_lem c (o ∷ os) rest u empty, e)),
        made.0,
        made.1,
        made.2,
      )

  -- For every payment path, an array of twenty hops with well-formed data, every session key and
  -- all associated data: if the route has no hop, NewOnionPacket panics; otherwise it makes a
  -- packet and returns no error. The packet's arrays have their lengths, its version is the base
  -- version, its key is the public session key, and it is written in 1366 bytes; the path that is
  -- left has twenty hops that differ from the given ones in their HMACs alone, with well-formed
  -- data.
  pub new_onion_packet-Outcome :
      (path : List (OnionHop c)) (session_key : PrivateKey c) (assoc_data : Bytes)
      → IsPaymentPath c path
      → HasData c path
      → Outcome path session_key assoc_data
  new_onion_packet-Outcome path session_key assoc_data size v =
      let parts = split_route c path in
      subst (λ p. Outcome p session_key assoc_data) (sym parts.2)
        (split-Outcome parts.0 parts.1 session_key assoc_data
          (omega (arith, length-append parts.0 parts.1, ap (λ p. length p) parts.2))
          (subst (HasData c) parts.2 v) parts.3 parts.4)
