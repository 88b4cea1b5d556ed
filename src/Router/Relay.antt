-- ===== src/Router/Relay.antt =====
-- `Encode`, `Decode`, `NewOnionPacket` and `ProcessOnionPacket` of sphinx.go together: a packet on
-- its route as bytes, where each router has a log in memory of its own.
use lightning_onion.Prelude.{
  ℕ, ◌≤◌, ◌≡◌, ◌≢◌, sym, ap, ◌∙◌, inl, inr, Bool-cases, true, some, Bytes, List, [], ◌∷◌, ◌++◌,
  append-nil, map, length, Result, ok, err, panics,
}
use lightning_onion.Prelude.Io.{pure, continue}
use lightning_onion.Stream.{buffer_write}
use lightning_onion.Sizes.{base_version}
use lightning_onion.Crypto.{Primitives, PrivateKey, zero_hmac}
use lightning_onion.Crypto.Laws.{Laws, IsKeyPair}
use lightning_onion.Route.{OnionHop}
use lightning_onion.Route.Length.{StartsEmpty}
use lightning_onion.Packet.{OnionPacket, IsOnionPacket}
use lightning_onion.Packet
use lightning_onion.Packet.RoundTrip.{packet_bytes, encode_buffer, decode-encode_packet}
use lightning_onion.Onion.{new_onion_packet}
use lightning_onion.Process.{ProcessedPacket, exit_node, more_hops}
use lightning_onion.ReplayLog.{MemoryReplayLog, memory_replay_log, put, get}
use lightning_onion.Router.{
  Router, new_router, generate_shared_secret, reconstruct_onion_packet, process,
}
use lightning_onion.Router.Stops.{Stop, keys, hops, OnCurve, SameButHmac, IsRoute}
use lightning_onion.Router.Delivery.{new_onion_packet-Delivers}
use lightning_onion.Router.Guard.{prefix, receive, process_on_curve}
use lightning_onion.Router.Replay.{receive_memory}
use lightning_onion.Router.Next.{next_packet-IsNext, new_onion_packet-IsMade}
use lightning_onion.Router.Journey.{Travels, ends, passes, started, Travels-started, on_curve_of_ok}

module _ (c : Primitives) where
  -- The bytes go from router to router: each one decodes all of them to a packet, accepts it into
  -- its own log, finds the data of its hop, and encodes the packet that it got out for the next
  -- one. The last one is told that it is the exit node, and one before it that there are more
  -- hops, unless the HMAC of its hop is all zeroes.
  pub data Relays (assoc_data : Bytes) (cltv : ℕ)
      : Bytes → List (PrivateKey c) → List (OnionHop c) → List MemoryReplayLog → Type 0 where
    received :
        {wire : Bytes} {key : PrivateKey c} {hop : OnionHop c} {log : MemoryReplayLog}
        → (packet : OnionPacket c) (p : ProcessedPacket c) (t : MemoryReplayLog)
        → Packet.decode c wire ≡ (ok packet, [])
        → receive_memory c (new_router c key) packet assoc_data cltv log ≡ (ok p, t)
        → get (prefix c (new_router c key) packet.ephemeral_key) t ≡ (ok cltv, t)
        → p.forwarding_instructions ≡ hop.hop_data
        → p.action ≡ exit_node
        → Relays assoc_data cltv wire (key ∷ []) (hop ∷ []) (log ∷ [])
    relayed :
        {wire : Bytes} {key : PrivateKey c} {hop : OnionHop c} {log : MemoryReplayLog}
        → {keys : List (PrivateKey c)} {hops : List (OnionHop c)} {logs : List MemoryReplayLog}
        → (packet next : OnionPacket c) (p : ProcessedPacket c) (t : MemoryReplayLog)
        → (sent : Bytes) → Packet.decode c wire ≡ (ok packet, [])
        → receive_memory c (new_router c key) packet assoc_data cltv log ≡ (ok p, t)
        → get (prefix c (new_router c key) packet.ephemeral_key) t ≡ (ok cltv, t)
        → p.forwarding_instructions ≡ hop.hop_data
        → (hop.hop_data.hmac ≢ zero_hmac → p.action ≡ more_hops)
        → p.next_packet ≡ some next
        → Packet.encode c buffer_write next [] ≡ (ok tt, sent)
        → Relays assoc_data cltv sent keys hops logs
        → Relays assoc_data cltv wire (key ∷ keys) (hop ∷ hops) (log ∷ logs)

  handed :
      (r : Result (Unit {0})) (q p : ProcessedPacket c) (s t : MemoryReplayLog)
      → continue r (λ _. pure q) s ≡ (ok p, t)
      → q ≡ p
  handed (ok u) q p s t e = cc (ap (λ x. x.0) e)
  handed (err x) q p s t e = absurd (cc e)
  handed panics q p s t e = absurd (cc e)

  -- What a router accepts is what ReconstructOnionPacket returns.
  received_ok :
      (m : Result (ProcessedPacket c)) (hash : Bytes) (cltv : ℕ) (p : ProcessedPacket c)
      (s t : MemoryReplayLog)
      → receive c memory_replay_log m hash cltv s ≡ (ok p, t)
      → m ≡ ok p
  received_ok (ok q) hash cltv p s t e =
      ap ok (handed (put hash cltv s).0 q p (put hash cltv s).1 t e)
  received_ok (err x) hash cltv p s t e = absurd (cc e)
  received_ok panics hash cltv p s t e = absurd (cc e)

  pub accepted_ok :
      (r : Router c) (pkt : OnionPacket c) (assoc_data : Bytes) (cltv : ℕ) (p : ProcessedPacket c)
      (s t : MemoryReplayLog)
      → receive_memory c r pkt assoc_data cltv s ≡ (ok p, t)
      → reconstruct_onion_packet c r pkt assoc_data ≡ ok p
  unfolding process generate_shared_secret
  accepted_ok r pkt assoc_data cltv p s t e = elim (Bool-cases (c.is_on_curve pkt.ephemeral_key)) [
    | inl on ↦
        received_ok (reconstruct_onion_packet c r pkt assoc_data) (prefix c r pkt.ephemeral_key)
          cltv p s t (sym (process_on_curve c memory_replay_log r pkt assoc_data cltv s on) ∙ e)
    | inr off ↦ absurd (cc (rw off at e))
  ]

module _ (c : Primitives) (l : Laws c) where
  -- A packet of the supported version with arrays of their lengths.
  record IsSendable (packet : OnionPacket c) : Type 0 where
    arrays : IsOnionPacket c packet
    version : packet.version ≡ base_version

  decoded :
      (packet : OnionPacket c)
      → IsSendable packet
      → c.is_on_curve packet.ephemeral_key ≡ true
      → Packet.decode c (packet_bytes c packet) ≡ (ok packet, [])
  decoded packet v on =
      let back = decode-encode_packet c l packet [] v.arrays v.version on in
      ap (Packet.decode c)
        (sym (ap (λ x. x.1 ++ []) (encode_buffer c packet []) ∙ append-nil (packet_bytes c packet)))
      ∙ back

  Relays-Travels :
      (assoc_data : Bytes) (cltv : ℕ) {packet : OnionPacket c} {ks : List (PrivateKey c)}
      {hs : List (OnionHop c)} {logs : List MemoryReplayLog}
      → Travels c assoc_data cltv packet ks hs logs
      → IsSendable packet
      → Relays c assoc_data cltv (packet_bytes c packet) ks hs logs
  Relays-Travels assoc_data cltv (ends {packet} {key} {hop} {log} p t e g d x) v =
      let r = new_router c key in
      let on =
        on_curve_of_ok c r packet assoc_data p (accepted_ok c r packet assoc_data cltv p log t e) in
      received packet p t (decoded packet v on) e g d x
  Relays-Travels assoc_data cltv (passes {packet} {key} {hop} {log} p t next e g d m n rest) v =
      let r = new_router c key in
      let at = accepted_ok c r packet assoc_data cltv p log t e in
      let on = on_curve_of_ok c r packet assoc_data p at in
      let w = next_packet-IsNext c key packet next assoc_data p at n in
      relayed packet next p t (packet_bytes c next) (decoded packet v on) e g d m n
        (encode_buffer c next [])
        (Relays-Travels assoc_data cltv rest
          (record { arrays = w.arrays; version = w.version ∙ v.version }))

  -- A packet that NewOnionPacket makes for a route of one to twenty nodes, under the conditions of
  -- a delivery, is encoded, and arrives at its exit node as bytes: if the logs of the routers on
  -- the way have just been started, then every router in turn decodes the bytes that it receives
  -- to a packet and leaves none of them over, accepts the packet, has an entry for it in its log
  -- afterwards, and encodes a packet whose bytes the next router receives, until the last one
  -- finds that it is the exit.
  pub new_onion_packet-Relays :
      (s : Stop c) (ss : List (Stop c)) (empties : List (OnionHop c)) (session_key : PrivateKey c)
      (assoc_data : Bytes) (cltv : ℕ) (logs : List MemoryReplayLog)
      → length (s ∷ ss) ≤ 20
      → IsRoute c l (s ∷ ss)
      → StartsEmpty c empties
      → IsKeyPair c l session_key
      → OnCurve c session_key.pub_key (s ∷ ss)
      → length logs ≡ length (keys c (s ∷ ss))
      → (packet : OnionPacket c) × (sealed_hops : List (OnionHop c)) × (wire : Bytes)
        × (new_onion_packet c (hops c (s ∷ ss) ++ empties) session_key assoc_data
            ≡ ok (packet, sealed_hops ++ empties))
        × (Packet.encode c buffer_write packet [] ≡ (ok tt, wire))
        × SameButHmac c (hops c (s ∷ ss)) sealed_hops
        × Relays c assoc_data cltv wire (keys c (s ∷ ss)) sealed_hops (map started logs)
  new_onion_packet-Relays s ss empties session_key assoc_data cltv logs fits v empty pair on size =
      let made =
        new_onion_packet-Delivers c l s ss empties session_key assoc_data fits v empty pair on in
      let its =
        new_onion_packet-IsMade c (hops c (s ∷ ss) ++ empties) session_key assoc_data
          (made.0, made.1 ++ empties) made.2 in
      (
        made.0,
        made.1,
        packet_bytes c made.0,
        made.2,
        encode_buffer c made.0 [],
        made.3,
        Relays-Travels assoc_data cltv (Travels-started c cltv made.4 logs size)
            (record { arrays = made.5; version = its.version }),
      )
