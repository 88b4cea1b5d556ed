-- ===== src/Router/Delivery.antt =====
-- `NewOnionPacket` and `ReconstructOnionPacket` of sphinx.go together: a packet on its route.
use mathlib.Core.Path.{subst}
use lightning_onion.Prelude.{
  ◌+◌, ◌*◌, ◌≤◌, ◌≡◌, ◌≢◌, refl, sym, ap, ◌∙◌, arith, true, some, Bytes, List, [], ◌∷◌, ◌++◌,
  length, ok,
}
use lightning_onion.Crypto.{Primitives, PrivateKey, zero_hmac}
use lightning_onion.Crypto
use lightning_onion.Crypto.Laws.{Laws, IsKeyPair}
use lightning_onion.Route.{OnionHop}
use lightning_onion.Route.Length.{IsUsed, StartsEmpty, keys_of}
use lightning_onion.Secrets.{generate_shared_secrets}
use lightning_onion.Secrets.Agreement.{next_ephemeral, generate_shared_secrets-eq-router_secrets}
use lightning_onion.Packet.{OnionPacket, IsOnionPacket}
use lightning_onion.Onion.{new_onion_packet}
use lightning_onion.Onion.Layers.{grow}
use lightning_onion.Onion.Filler.{header_stream, length-grow, filler_of, length-filler_of}
use lightning_onion.Onion.Wrapped.{
  Leg, header, length-header, sealed, secrets_of, hops_of, length-secrets_of,
}
use lightning_onion.Onion.Built.{packet_for, new_onion_packet_lem}
use lightning_onion.Process.{ProcessedPacket, exit_node, more_hops, process_onion_packet}
use lightning_onion.Process.Legs.{
  action_for_zero, action_for_nonzero, process_forward, process_last, processed, sealed_last,
  leftover,
}
use lightning_onion.Router.{new_router, generate_shared_secret, reconstruct_onion_packet}
use lightning_onion.Router.Stops.{
  Stop, keys, hops, legs, OnCurve, SameButHmac, IsRoute, AreLegs-legs, secrets_of-legs,
  hops_of-legs, length-legs, keys_of-hops, All-pairs, IsUsed-hops,
}

module _ (c : Primitives) where
  -- The packet goes from node to node: each one takes a layer off, finds the data of its hop, and
  -- hands on the packet that it got out. A node before the last is told that there are more hops,
  -- unless the HMAC behind it should happen to be all zeroes; the last one that it is the last.
  pub data Delivers (assoc_data : Bytes)
      : OnionPacket c → List (PrivateKey c) → List (OnionHop c) → Type 0 where
    arrives :
        {packet : OnionPacket c} {key : PrivateKey c} {hop : OnionHop c}
        → (p : ProcessedPacket c)
        → reconstruct_onion_packet c (new_router c key) packet assoc_data ≡ ok p
        → p.forwarding_instructions ≡ hop.hop_data
        → p.action ≡ exit_node
        → Delivers assoc_data packet (key ∷ []) (hop ∷ [])
    forwards :
        {packet : OnionPacket c} {key : PrivateKey c} {hop : OnionHop c}
        → {keys : List (PrivateKey c)} {hops : List (OnionHop c)}
        → (p : ProcessedPacket c) (next : OnionPacket c)
        → reconstruct_onion_packet c (new_router c key) packet assoc_data ≡ ok p
        → p.forwarding_instructions ≡ hop.hop_data
        → (hop.hop_data.hmac ≢ zero_hmac → p.action ≡ more_hops)
        → p.next_packet ≡ some next
        → Delivers assoc_data next keys hops
        → Delivers assoc_data packet (key ∷ keys) (hop ∷ hops)

  pub reconstruct_lem :
      (k : PrivateKey c) (p : OnionPacket c) (assoc_data : Bytes)
      → c.is_on_curve p.ephemeral_key ≡ true
      → reconstruct_onion_packet c (new_router c k) p assoc_data
        ≡ process_onion_packet c p (Crypto.generate_shared_secret c p.ephemeral_key k) assoc_data
  unfolding reconstruct_onion_packet generate_shared_secret new_router
  reconstruct_lem k p assoc_data e = rw e refl

module _ (c : Primitives) (l : Laws c) where
  deliver :
      (filler assoc_data f : Bytes) (eph : c.Point) (s : Stop c) (ss : List (Stop c))
      → length filler + 65 ≤ 1300
      → IsRoute c l (s ∷ ss)
      → OnCurve c eph (s ∷ ss)
      → filler ≡ filler_of c l f (secrets_of c (legs c eph (s ∷ ss)))
      → length f + length (legs c eph (s ∷ ss)) * 65 ≤ 1300
      → Delivers c assoc_data
          (packet_for c l filler assoc_data eph (legs c eph (s ∷ ss)))
          (keys c (s ∷ ss))
          (sealed c l filler assoc_data (legs c eph (s ∷ ss)))
  unfolding sealed
  deliver filler assoc_data f eph s [] room v on e fits =
      let x : Leg c = record { hop = s.hop; secret = Crypto.generate_shared_secret c eph s.key } in
      let p = packet_for c l filler assoc_data eph (x ∷ []) in
      let lv = AreLegs-legs c l eph (s ∷ []) v in
      arrives
        (processed c l filler assoc_data room eph x [] (leftover c l filler assoc_data room x))
        (reconstruct_lem c s.key p assoc_data on.0
          ∙ process_last c l filler assoc_data room eph x lv)
        refl (action_for_zero _ (sealed_last c l filler assoc_data room x))
  deliver filler assoc_data f eph s (t ∷ ts) room v on e fits =
      let eph' = next_ephemeral c eph s.key in
      let x : Leg c = record { hop = s.hop; secret = Crypto.generate_shared_secret c eph s.key } in
      let y : Leg c = record { hop = t.hop; secret = Crypto.generate_shared_secret c eph' t.key } in
      let ys = legs c (next_ephemeral c eph' t.key) ts in
      let p = packet_for c l filler assoc_data eph (x ∷ y ∷ ys) in
      let lv = AreLegs-legs c l eph (s ∷ t ∷ ts) v in
      let lf = length-grow c l f x.secret (omega arith) in
      forwards
        (processed c l filler assoc_data room eph x (y ∷ ys)
          (header c l filler assoc_data (y ∷ ys)).0)
        (packet_for c l filler assoc_data eph' (y ∷ ys))
        (reconstruct_lem c s.key p assoc_data on.0
          ∙ process_forward c l filler assoc_data room f eph x y ys lv e fits)
        refl (action_for_nonzero _) refl
        (deliver filler assoc_data (grow 65 1300 f (header_stream c l x.secret)) eph' t ts room v.1
          on.1 e (omega (arith, lf)))

  SameButHmac-sealed :
      (filler assoc_data : Bytes) (eph : c.Point) (ss : List (Stop c))
      → SameButHmac c (hops c ss) (sealed c l filler assoc_data (legs c eph ss))
  unfolding sealed
  SameButHmac-sealed filler assoc_data eph [] = tt
  SameButHmac-sealed filler assoc_data eph (s ∷ ss) =
      (refl, SameButHmac-sealed filler assoc_data (next_ephemeral c eph s.key) ss)

  -- For a route of one to twenty nodes, each with a key pair and well-formed data for its hop, at
  -- the front of a payment path, a session key that is a key pair, and ephemeral keys on the way
  -- that lie on the curve: `NewOnionPacket` makes a packet, whose arrays have their lengths,
  -- changes nothing but the HMACs of the route's hops in the path, and the packet is delivered
  -- along the route. Each node in turn gets exactly the data of its hop, the last one is told that
  -- it is the exit node, and each one before it that there are more hops, unless the HMAC in its
  -- data is all zeroes.
  pub new_onion_packet-Delivers :
      (s : Stop c) (ss : List (Stop c)) (empties : List (OnionHop c)) (session_key : PrivateKey c)
      (assoc_data : Bytes)
      → length (s ∷ ss) ≤ 20
      → IsRoute c l (s ∷ ss)
      → StartsEmpty c empties
      → IsKeyPair c l session_key
      → OnCurve c session_key.pub_key (s ∷ ss)
      → (packet : OnionPacket c) × (sealed_hops : List (OnionHop c)) × (new_onion_packet c
            (hops c (s ∷ ss) ++ empties)
            session_key
            assoc_data
          ≡ ok (packet, sealed_hops ++ empties))
        × SameButHmac c (hops c (s ∷ ss)) sealed_hops
        × Delivers c assoc_data packet (keys c (s ∷ ss)) sealed_hops
        × IsOnionPacket c packet
  new_onion_packet-Delivers s ss empties session_key assoc_data fits v empty pair on =
      let eph = session_key.pub_key in
      let route = s ∷ ss in
      let x : Leg c = record { hop = s.hop; secret = Crypto.generate_shared_secret c eph s.key } in
      let xs = legs c (next_ephemeral c eph s.key) ss in
      let filler = filler_of c l [] (secrets_of c (x ∷ xs)) in
      let same = hops_of-legs c l eph route in
      let size = length-legs c l (next_ephemeral c eph s.key) ss in
      let room : length filler + 65 ≤ 1300 =
        omega (
          arith,
          length-filler_of c l [] x.secret (secrets_of c xs),
          length-secrets_of c xs,
          size,
        ) in
      let shared : generate_shared_secrets c (keys_of c (hops_of c (x ∷ xs))) session_key
          ≡ ok (secrets_of c (x ∷ xs)) =
        ap (λ t. generate_shared_secrets c (keys_of c t) session_key) same
        ∙ ap (λ t. generate_shared_secrets c t session_key) (keys_of-hops c l route v)
        ∙ generate_shared_secrets-eq-router_secrets c l session_key s.key (keys c ss) pair
            (All-pairs c l route v)
        ∙ ap ok (sym (secrets_of-legs c l eph route)) in
      let lengths =
        length-header c l filler assoc_data room (x ∷ xs) (AreLegs-legs c l eph route v) in
      (
        packet_for c l filler assoc_data eph (x ∷ xs),
        sealed c l filler assoc_data (x ∷ xs),
        ap (λ t. new_onion_packet c (t ++ empties) session_key assoc_data) (sym same)
            ∙ new_onion_packet_lem c l x xs empties session_key assoc_data (omega arith)
                (AreLegs-legs c l eph route v)
                (subst (IsUsed c) (sym same) (IsUsed-hops c l route v)) empty shared,
        SameButHmac-sealed filler assoc_data eph route,
        deliver filler assoc_data [] eph s ss room v on refl (omega arith),
        record { routing_length = lengths.0; mac_length = lengths.1 },
      )
