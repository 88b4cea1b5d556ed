-- ===== src/Router/Journey.antt =====
-- `NewOnionPacket` and `ProcessOnionPacket` of sphinx.go together: a packet on its route, where
-- each router has a log in memory of its own.
use lightning_onion.Prelude.{
  ℕ, ◌≤◌, ◌≡◌, ◌≢◌, refl, inl, inr, arith, true, some, Bytes, List, [], ◌∷◌, ◌++◌, map, length, ok,
  Bool-cases,
}
use lightning_onion.Crypto.{Primitives, PrivateKey, zero_hmac}
use lightning_onion.Crypto.Laws.{Laws, IsKeyPair}
use lightning_onion.GoMap.{lookup}
use lightning_onion.Route.{OnionHop}
use lightning_onion.Route.Length.{StartsEmpty}
use lightning_onion.Packet.{OnionPacket}
use lightning_onion.Onion.{new_onion_packet}
use lightning_onion.Process.{ProcessedPacket, exit_node, more_hops}
use lightning_onion.ReplayLog.{MemoryReplayLog, start, get, or_not_found}
use lightning_onion.Router.{Router, new_router, reconstruct_onion_packet, generate_shared_secret}
use lightning_onion.Router.Stops.{Stop, keys, hops, OnCurve, SameButHmac, IsRoute}
use lightning_onion.Router.Delivery.{Delivers, arrives, forwards, new_onion_packet-Delivers}
use lightning_onion.Router.Guard.{prefix}
use lightning_onion.Router.Replay.{receive_memory, first_acceptance}

-- A log that has just been started.
abbrev pub started : MemoryReplayLog → MemoryReplayLog
started s = (start s).1

module _ (c : Primitives) where
  -- The packet goes from router to router: each one accepts it into its own log, finds the data
  -- of its hop and hands on what it got out. The last one is told that it is the exit node, and
  -- one before it that there are more hops, unless the HMAC of its hop is all zeroes.
  pub data Travels (assoc_data : Bytes) (cltv : ℕ)
      : OnionPacket c
        → List (PrivateKey c)
        → List (OnionHop c)
        → List MemoryReplayLog
        → Type 0 where
    ends :
        {packet : OnionPacket c} {key : PrivateKey c} {hop : OnionHop c} {log : MemoryReplayLog}
        → (p : ProcessedPacket c) (t : MemoryReplayLog)
        → receive_memory c (new_router c key) packet assoc_data cltv log ≡ (ok p, t)
        → get (prefix c (new_router c key) packet.ephemeral_key) t ≡ (ok cltv, t)
        → p.forwarding_instructions ≡ hop.hop_data
        → p.action ≡ exit_node
        → Travels assoc_data cltv packet (key ∷ []) (hop ∷ []) (log ∷ [])
    passes :
        {packet : OnionPacket c} {key : PrivateKey c} {hop : OnionHop c} {log : MemoryReplayLog}
        → {keys : List (PrivateKey c)} {hops : List (OnionHop c)} {logs : List MemoryReplayLog}
        → (p : ProcessedPacket c) (t : MemoryReplayLog) (next : OnionPacket c)
        → receive_memory c (new_router c key) packet assoc_data cltv log ≡ (ok p, t)
        → get (prefix c (new_router c key) packet.ephemeral_key) t ≡ (ok cltv, t)
        → p.forwarding_instructions ≡ hop.hop_data
        → (hop.hop_data.hmac ≢ zero_hmac → p.action ≡ more_hops)
        → p.next_packet ≡ some next
        → Travels assoc_data cltv next keys hops logs
        → Travels assoc_data cltv packet (key ∷ keys) (hop ∷ hops) (log ∷ logs)

  pub on_curve_of_ok :
      (r : Router c) (pkt : OnionPacket c) (assoc_data : Bytes) (p : ProcessedPacket c)
      → reconstruct_onion_packet c r pkt assoc_data ≡ ok p
      → c.is_on_curve pkt.ephemeral_key ≡ true
  unfolding reconstruct_onion_packet generate_shared_secret
  on_curve_of_ok r pkt assoc_data p e = elim (Bool-cases (c.is_on_curve pkt.ephemeral_key)) [
    | inl on ↦ on
    | inr off ↦ absurd (cc (rw off at e))
  ]

  -- A router whose log has just been started accepts what it can process.
  pub accepted :
      (r : Router c) (pkt : OnionPacket c) (assoc_data : Bytes) (cltv : ℕ) (p : ProcessedPacket c)
      (s : MemoryReplayLog)
      → reconstruct_onion_packet c r pkt assoc_data ≡ ok p
      → (t : MemoryReplayLog) × (receive_memory c r pkt assoc_data cltv (started s) ≡ (ok p, t))
        × (get (prefix c r pkt.ephemeral_key) t ≡ (ok cltv, t))
  unfolding start get or_not_found lookup
  accepted r pkt assoc_data cltv p s e =
      first_acceptance c r pkt assoc_data cltv p [] [] (on_curve_of_ok r pkt assoc_data p e) e refl

  pub Travels-started :
      {assoc_data : Bytes} (cltv : ℕ) {packet : OnionPacket c} {ks : List (PrivateKey c)}
      {hs : List (OnionHop c)}
      → Delivers c assoc_data packet ks hs
      → (logs : List MemoryReplayLog) → length logs ≡ length ks
      → Travels assoc_data cltv packet ks hs (map started logs)
  Travels-started cltv (arrives p e data_same exit) [] size = absurd (omega arith)
  Travels-started cltv (arrives {packet} {key} p e data_same exit) (s ∷ []) size =
      let a = accepted (new_router c key) packet _ cltv p s e in ends p a.0 a.1 a.2 data_same exit
  Travels-started cltv (arrives p e data_same exit) (s ∷ s' ∷ logs) size = absurd (omega arith)
  Travels-started cltv (forwards p next e data_same more n d) [] size = absurd (omega arith)
  Travels-started cltv (forwards {packet} {key} p next e data_same more n d) (s ∷ logs) size =
      let a = accepted (new_router c key) packet _ cltv p s e in
      passes p a.0 next a.1 a.2 data_same more n (Travels-started cltv d logs (omega arith))

module _ (c : Primitives) (l : Laws c) where
  -- A packet that NewOnionPacket makes for a route of one to twenty nodes, under the conditions
  -- of a delivery, arrives at its exit node: if the logs of the routers on the way have just been
  -- started, then every router in turn accepts it, has an entry for it in its log afterwards, and
  -- hands on a packet that the next router accepts, until the last one finds that it is the exit.
  pub new_onion_packet-Travels :
      (s : Stop c) (ss : List (Stop c)) (empties : List (OnionHop c)) (session_key : PrivateKey c)
      (assoc_data : Bytes) (cltv : ℕ) (logs : List MemoryReplayLog)
      → length (s ∷ ss) ≤ 20
      → IsRoute c l (s ∷ ss)
      → StartsEmpty c empties
      → IsKeyPair c l session_key
      → OnCurve c session_key.pub_key (s ∷ ss)
      → length logs ≡ length (keys c (s ∷ ss))
      → (packet : OnionPacket c) × (sealed_hops : List (OnionHop c)) × (new_onion_packet c
            (hops c (s ∷ ss) ++ empties)
            session_key
            assoc_data
          ≡ ok (packet, sealed_hops ++ empties))
        × SameButHmac c (hops c (s ∷ ss)) sealed_hops
        × Travels c assoc_data cltv packet (keys c (s ∷ ss)) sealed_hops (map started logs)
  new_onion_packet-Travels s ss empties session_key assoc_data cltv logs fits v empty pair on size =
      let made =
        new_onion_packet-Delivers c l s ss empties session_key assoc_data fits v empty pair on in
      (made.0, made.1, made.2, made.3, Travels-started c cltv made.4 logs size)
