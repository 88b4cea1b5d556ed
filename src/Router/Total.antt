-- ===== src/Router/Total.antt =====
-- `Decode` and `ProcessOnionPacket` of sphinx.go together, on any bytes that come in.
use lightning_onion.Prelude.{ℕ, inl, inr, Bytes, Bool-cases, ◌>>=◌}
use lightning_onion.Prelude.Io.{pure, lift, ◌>>◌}
use lightning_onion.Prelude.Returns.{Returns, bind-Returns, then-Returns}
use lightning_onion.Crypto.{Primitives}
use lightning_onion.Crypto
use lightning_onion.Crypto.Laws.{Laws}
use lightning_onion.GoMap.{has_key, bytes_key}
use lightning_onion.Packet.{OnionPacket, IsOnionPacket}
use lightning_onion.Packet
use lightning_onion.Packet.Arrays as PacketArrays
use lightning_onion.Bytes.Bounds.{AreBytes}
use lightning_onion.Process.{process_onion_packet}
use lightning_onion.Process.Arrays.{IsProcessed, process_onion_packet-Returns}
use lightning_onion.ReplayLog.{MemoryReplayLog, put, hash_shared_secret}
use lightning_onion.ReplayLog.Memory.{put_cases}
use lightning_onion.Router.{Router, process, generate_shared_secret}
use lightning_onion.Router.Replay.{receive_memory}

-- Any state of a log will do.
abbrev AnyState : MemoryReplayLog → Type 0
AnyState s = Unit

put-Returns :
    (hash : Bytes) (cltv : ℕ) (s : MemoryReplayLog)
    → Returns (λ (u : Unit {0}). Unit {0}) (put hash cltv s).0
put-Returns hash cltv =
    put_cases (λ rl r. Returns (λ (u : Unit {0}). Unit {0}) r.0) hash cltv (λ rl. tt)
      (λ batches entries. elim (Bool-cases (has_key hash entries)) [
        | inl old ↦ rw old tt
        | inr new ↦ rw new tt
      ])

module _ (c : Primitives) (l : Laws c) where
  receive-Returns :
      (r : Router c) (pkt : OnionPacket c) (assoc_data : Bytes) (cltv : ℕ) (s : MemoryReplayLog)
      → PacketArrays.IsRead c pkt
      → Returns (IsProcessed c) (receive_memory c r pkt assoc_data cltv s).0
  unfolding process generate_shared_secret
  receive-Returns r pkt assoc_data cltv s v =
      let secret = Crypto.generate_shared_secret c pkt.ephemeral_key r.onion_key in
      let hash = hash_shared_secret c secret in
      elim (Bool-cases (c.is_on_curve pkt.ephemeral_key)) [
        | inl on ↦ rw on (
            then-Returns AnyState (IsProcessed c) (IsProcessed c)
              (lift (process_onion_packet c pkt secret assoc_data)) (λ p. put hash cltv >> pure p) s
              (process_onion_packet-Returns c l pkt secret v assoc_data, tt)
              λ p w t any.
                then-Returns AnyState (λ (u : Unit {0}). Unit {0}) (IsProcessed c) (put hash cltv)
                  (λ _. pure p) t (put-Returns hash cltv t, tt) λ u done t any. w)
        | inr off ↦ rw off tt
      ]

  -- Whatever bytes come in, whatever the router's key and the state of its log in memory, to
  -- decode a packet and to process it does not panic: it ends with an error, or with a processed
  -- packet whose hop data are well-formed, and which has a packet to hand on whose arrays have
  -- their lengths and hold bytes.
  pub decode-process-Returns :
      (r : Router c) (bs assoc_data : Bytes) (cltv : ℕ) (s : MemoryReplayLog)
      → AreBytes bs
      → Returns
          (IsProcessed c)
          ((Packet.decode c bs).0 >>= λ pkt. (receive_memory c r pkt assoc_data cltv s).0)
  decode-process-Returns r bs assoc_data cltv s w =
      bind-Returns (PacketArrays.IsRead c) (IsProcessed c) (Packet.decode c bs).0 _
        (PacketArrays.decode-Returns c bs w) λ pkt v. receive-Returns r pkt assoc_data cltv s v
