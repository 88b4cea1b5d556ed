-- ===== src/Transaction.antt =====
-- `Tx` of sphinx.go: packets that are processed one by one and written to the replay log
-- together.
pub mod Commit
pub mod Batches
pub mod Added
pub mod Refused
pub mod Sequence
pub mod Progress
pub mod Steps
pub mod OneByOne
pub mod Counts
pub mod Once
pub mod Retry
use lightning_onion.Prelude.{
  ℕ, Bytes, List, replicate, length, set, none, Result, ok, err, panics, ltb, if◌then◌else◌,
}
use lightning_onion.Prelude.Io.{Io, lift, pure, ◌>>=◌, ◌>>◌}
use lightning_onion.Sizes.{address_size, realm_byte_size, num_padding_bytes}
use lightning_onion.Crypto.{Primitives, zero_hmac}
use lightning_onion.HopData.{HopData}
use lightning_onion.Packet.{OnionPacket}
use lightning_onion.Process.{ProcessedPacket, process_onion_packet}
use lightning_onion.Replays.{ReplaySet}
use lightning_onion.Batch.{Batch, BatchEntry, new_batch}
use lightning_onion.Batch
use lightning_onion.ReplayLog.{ReplayLog, hash_shared_secret}
use lightning_onion.Router.{Router, generate_shared_secret}

-- The zero value of a HopData.
abbrev pub zero_hop_data : HopData
zero_hop_data = record {
  realm = replicate realm_byte_size 0;
  next_address = replicate address_size 0;
  forward_amount = 0;
  outgoing_cltv = 0;
  extra_bytes = replicate num_padding_bytes 0;
  hmac = zero_hmac;
}

module _ (c : Primitives) where
  -- The router, which a transaction points to, stands beside it.
  pub record Tx : Type 0 where
    pub batch : Batch
    pub packets : List (ProcessedPacket c)

  -- The zero value of a ProcessedPacket.
  abbrev pub zero_packet : ProcessedPacket c
  zero_packet = record { action = 0; forwarding_instructions = zero_hop_data; next_packet = none }

  unfoldable pub begin_txn : Bytes → ℕ → Tx
  begin_txn id nels = record { batch = new_batch id; packets = replicate nels zero_packet }

  -- `t.batch.Put`, which changes the batch of the transaction.
  unfoldable pub put_in_batch : ℕ → Bytes → ℕ → Io Tx (Unit {0})
  put_in_batch seq_num hash_prefix cltv t =
      let done = Batch.put seq_num hash_prefix cltv t.batch in (done.0, record t { batch = done.1 })

  -- `t.packets[seqNum] = *packet`
  unfoldable pub set_packet : ℕ → ProcessedPacket c → Io Tx (Unit {0})
  set_packet seq_num packet t =
      if ltb seq_num (length t.packets)
      then (ok tt, record t { packets = set t.packets seq_num packet })
      else (panics, t)

  unfoldable pub process_onion_packet_tx :
      Router c → ℕ → OnionPacket c → Bytes → ℕ → Io Tx (Unit {0})
  process_onion_packet_tx r seq_num onion_pkt assoc_data incoming_cltv = do
    shared_secret ← lift (generate_shared_secret c r onion_pkt.ephemeral_key)
    let hash_prefix = hash_shared_secret c shared_secret
    packet ← lift (process_onion_packet c onion_pkt shared_secret assoc_data)
    put_in_batch seq_num hash_prefix incoming_cltv
    set_packet seq_num packet

module _ (c : Primitives) (log : ReplayLog) where
  open log use {State}

  -- The packets, the replay set or the error, and the changed transaction and log. The two orders
  -- are those in which PutBatch ranges over its maps.
  unfoldable pub commit :
      List (ℕ × BatchEntry)
      → List ℕ
      → Tx c
      → State
      → (List (ProcessedPacket c) × Result ReplaySet) × (Tx c × State)
  commit entry_order replay_order t s =
      if t.batch.is_committed
      then ((t.packets, ok t.batch.replay_set), (t, s))
      else (let done = log.put_batch entry_order replay_order t.batch s in
          ((t.packets, done.0), (record t { batch = done.1.1 }, done.1.0)))
