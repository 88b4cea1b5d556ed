-- ===== src/Router/Restart.antt =====
-- `Start` of the log in memory of replaylog.go, on a log that runs, and `ProcessOnionPacket` of
-- sphinx.go after it.
use lightning_onion.Prelude.{ℕ, ◌≡◌, refl, Bytes, List, ok}
use lightning_onion.Crypto.{Primitives}
use lightning_onion.Packet.{OnionPacket}
use lightning_onion.Process.{ProcessedPacket}
use lightning_onion.ReplayLog.{MemoryReplayLog, start, get}
use lightning_onion.Router.{Router}
use lightning_onion.Router.Guard.{prefix, Incoming}
use lightning_onion.Router.Replay.{receive_memory, receive_all}
use lightning_onion.Router.Journey.{accepted}
use lightning_onion.Router.Relay.{accepted_ok}

module _ (c : Primitives) where
  -- A router has accepted a packet, and has then processed any further packets. When the log is
  -- started again, although it runs, Start reports no error, and the router accepts the packet a
  -- second time, with the same result, and logs it with its new CLTV.
  pub accepted_after_start :
      (r : Router c) (pkt : OnionPacket c) (assoc_data : Bytes) (cltv cltv2 : ℕ)
      (between : List (Incoming c)) (s t : MemoryReplayLog) (p : ProcessedPacket c)
      → receive_memory c r pkt assoc_data cltv s ≡ (ok p, t)
      → let u = receive_all c r between t in
        ((start u).0 ≡ ok tt)
        × (v : MemoryReplayLog) × (receive_memory c r pkt assoc_data cltv2 (start u).1 ≡ (ok p, v))
        × (get (prefix c r pkt.ephemeral_key) v ≡ (ok cltv2, v))
  unfolding start
  accepted_after_start r pkt assoc_data cltv cltv2 between s t p e =
      let again =
        accepted c r pkt assoc_data cltv2 p (receive_all c r between t)
          (accepted_ok c r pkt assoc_data cltv p s t e) in
      (refl, again.0, again.1, again.2)
