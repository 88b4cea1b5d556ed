-- ===== src/Process/Legs.antt =====
-- What the node at the head of a route gets out of the packet that was made for it.
use lightning_onion.Prelude.{
  ℕ, ◌+◌, ◌*◌, ◌≤◌, ◌≡◌, ◌≢◌, refl, sym, arith, some, Bytes, List, [], ◌∷◌, ◌++◌, length, drop,
  replicate, ok, length-drop, length-append, length-replicate, bytes_eq_refl, bytes_eq_of_ne,
}
use lightning_onion.Bytes.Xor.{length-zip_xor}
use lightning_onion.Crypto.{Primitives, rho, zero_hmac}
use lightning_onion.Crypto.Laws.{Laws}
use lightning_onion.Crypto.Keys.{length-stream_of}
use lightning_onion.HopData.{HopData}
use lightning_onion.HopData.RoundTrip.{hop_bytes}
use lightning_onion.Onion.Layers.{peeled}
use lightning_onion.Onion.Filler.{header_stream, filler_of}
use lightning_onion.Onion.Wrapped.{
  Leg, AreLegs, header, secrets_of, with_hmac, with_hmac-IsHopData, length-header,
}
use lightning_onion.Onion.Built.{packet_for}
use lightning_onion.Onion.Tail.{peeled-header, peeled-last_header}
use lightning_onion.Process.{
  ProcessedPacket, exit_node, more_hops, action_for, process_onion_packet,
}
use lightning_onion.Process.Unwrap.{inner_packet, strip_layer_lem, unwrap_packet_ok}

-- An all-zero HMAC tells the last hop, any other one asks to forward.
pub action_for_zero : (hd : HopData) → hd.hmac ≡ zero_hmac → action_for hd ≡ exit_node
unfolding action_for
action_for_zero hd e = rw (e, bytes_eq_refl) refl

pub action_for_nonzero : (hd : HopData) → hd.hmac ≢ zero_hmac → action_for hd ≡ more_hops
unfolding action_for
action_for_nonzero hd ne = rw (bytes_eq_of_ne zero_hmac hd.hmac (λ e. ne (sym e))) refl

module _ (c : Primitives) (l : Laws c) (filler assoc_data : Bytes)
    (room : length filler + 65 ≤ 1300) where
  -- The hop data as the sender has sealed it.
  abbrev pub sealed_data : Leg c → List (Leg c) → HopData
  sealed_data x rest = with_hmac x.hop.hop_data (header c l filler assoc_data rest).1

  abbrev pub processed : c.Point → Leg c → List (Leg c) → Bytes → ProcessedPacket c
  processed eph x rest routing_info = record {
    action = action_for (sealed_data x rest);
    forwarding_instructions = sealed_data x rest;
    next_packet = some (
        inner_packet c l (packet_for c l filler assoc_data eph (x ∷ rest)) x.secret routing_info
          (sealed_data x rest).hmac);
  }

  process_leg :
      (eph : c.Point) (x : Leg c) (rest : List (Leg c)) (next : Bytes)
      → AreLegs c (x ∷ rest)
      → length next ≡ 1300
      → peeled 65 (header c l filler assoc_data (x ∷ rest)).0 (header_stream c l x.secret)
        ≡ hop_bytes (sealed_data x rest) ++ next
      → process_onion_packet c (packet_for c l filler assoc_data eph (x ∷ rest)) x.secret assoc_data
        ≡ ok (processed eph x rest next)
  unfolding process_onion_packet header
  process_leg eph x rest next v n e =
      let p = packet_for c l filler assoc_data eph (x ∷ rest) in
      let lens = length-header c l filler assoc_data room (x ∷ rest) v in
      let lens' = length-header c l filler assoc_data room rest v.1 in
      rw
        (
          unwrap_packet_ok c l p x.secret assoc_data refl,
          strip_layer_lem c l p x.secret (sealed_data x rest) next lens.0
              (with_hmac-IsHopData x.hop.hop_data _ v.0 lens'.1) n e,
        )
        refl

  -- On the way: the hop's data, and the packet for the next hop.
  pub process_forward :
      (f : Bytes) (eph : c.Point) (x y : Leg c) (ys : List (Leg c))
      → AreLegs c (x ∷ y ∷ ys)
      → filler ≡ filler_of c l f (secrets_of c (x ∷ y ∷ ys))
      → length f + length (x ∷ y ∷ ys) * 65 ≤ 1300
      → process_onion_packet c
          (packet_for c l filler assoc_data eph (x ∷ y ∷ ys))
          x.secret
          assoc_data
        ≡ ok (processed eph x (y ∷ ys) (header c l filler assoc_data (y ∷ ys)).0)
  process_forward f eph x y ys v e fits =
      process_leg eph x (y ∷ ys) (header c l filler assoc_data (y ∷ ys)).0 v
        (length-header c l filler assoc_data room (y ∷ ys) v.1).0
        (peeled-header c l filler assoc_data room f x y ys v e fits)

  -- At the end: the hop's data, and a packet that is not to be forwarded.
  abbrev pub leftover : Leg c → Bytes
  leftover x =
      drop 65 (peeled 65 (header c l filler assoc_data (x ∷ [])).0 (header_stream c l x.secret))

  pub process_last :
      (eph : c.Point) (x : Leg c)
      → AreLegs c (x ∷ [])
      → process_onion_packet c (packet_for c l filler assoc_data eph (x ∷ [])) x.secret assoc_data
        ≡ ok (processed eph x [] (leftover x))
  process_last eph x v =
      let m = (header c l filler assoc_data (x ∷ [])).0 in
      let stream = header_stream c l x.secret in
      process_leg eph x [] (leftover x) v
        (omega (
          arith,
          (length-header c l filler assoc_data room (x ∷ []) v).0,
          length-drop 65 (peeled 65 m stream),
          length-zip_xor (m ++ replicate 65 0) stream,
          length-append m (replicate 65 0),
          length-replicate {A = ℕ} 65 0,
          length-stream_of c l rho x.secret 1365,
        ))
        (peeled-last_header c l filler assoc_data room x v)

  pub sealed_last : (x : Leg c) → (sealed_data x []).hmac ≡ zero_hmac
  unfolding header
  sealed_last x = refl
