-- ===== src/Router.antt =====
-- `Router` of sphinx.go and its method in crypto.go. The replay log is one of the interface; its
-- state is explicit.
pub mod Stops
pub mod Delivery
pub mod Guard
pub mod Replay
pub mod Address
pub mod Journey
pub mod Total
pub mod Next
pub mod Relay
pub mod Restart
use lightning_onion.Prelude.{
  ℕ, Bool, Option, none, some, Bytes, replicate, Result, ok, err, invalid_onion_key,
  ◌>>=◌ as and_then, if◌then◌else◌,
}
use lightning_onion.Prelude.Io.{Io, pure, lift, ◌>>=◌, ◌>>◌}
use lightning_onion.Bytes.{copy}
use lightning_onion.Sizes.{address_size}
use lightning_onion.Crypto.{Primitives, PrivateKey}
use lightning_onion.Crypto
use lightning_onion.Packet.{OnionPacket}
use lightning_onion.Process.{ProcessedPacket, process_onion_packet}
use lightning_onion.ReplayLog.{ReplayLog, hash_shared_secret}

module _ (c : Primitives) where
  open c use {Point, Address, is_on_curve, hash160, new_address_pub_key_hash, serialize_compressed}

  -- The replay log stands beside, by its state. A nil nodeAddr is `none`.
  pub record Router : Type 0 where
    pub node_id : Bytes
    pub node_addr : Option Address
    pub onion_key : PrivateKey c

  -- The error of NewAddressPubKeyHash is dropped.
  unfoldable pub new_router : PrivateKey c → Router
  new_router node_key =
      let node_id =
        copy (replicate address_size 0) (hash160 (serialize_compressed node_key.pub_key)) in
      record {
        node_id = node_id;
        node_addr = new_address_pub_key_hash node_id;
        onion_key = node_key;
      }

  -- `(r *Router) generateSharedSecret`: the key must lie on the curve.
  unfoldable pub generate_shared_secret : Router → Point → Result Bytes
  generate_shared_secret r dh_key =
      if is_on_curve dh_key
      then ok (Crypto.generate_shared_secret c dh_key r.onion_key)
      else err invalid_onion_key

  unfoldable pub reconstruct_onion_packet :
      Router → OnionPacket c → Bytes → Result (ProcessedPacket c)
  reconstruct_onion_packet r onion_pkt assoc_data =
      and_then (generate_shared_secret r onion_pkt.ephemeral_key)
        λ secret. process_onion_packet c onion_pkt secret assoc_data

module _ (c : Primitives) (log : ReplayLog) where
  open log use {State}

  unfoldable pub start : Io State (Unit {0})
  start = log.start

  -- The error of the log's Stop is dropped.
  unfoldable pub stop : State → State
  stop s = (log.stop s).1

  unfoldable pub process : Router c → OnionPacket c → Bytes → ℕ → Io State (ProcessedPacket c)
  process r onion_pkt assoc_data incoming_cltv = do
    shared_secret ← lift (generate_shared_secret c r onion_pkt.ephemeral_key)
    let hash_prefix = hash_shared_secret c shared_secret
    packet ← lift (process_onion_packet c onion_pkt shared_secret assoc_data)
    log.put hash_prefix incoming_cltv
    pure packet
