-- ===== src/Examples/Journeys.antt =====
-- Packets on a route, and a transaction on a log, at concrete inputs.
use lightning_onion.Prelude.{
  Bytes, map, replicate, ◌>>=◌, ℕ, ◌≡◌, ◌≢◌, ◌||◌, refl, sym, arith, false, some, ok, List, [], ◌∷◌,
  ◌++◌,
}
use mathlib.Core.Path.{subst}
use lightning_onion.Crypto.{blind_group_element}
use lightning_onion.GoMap.{lookup, insert, has_key, bytes_key, nat_eq}
use lightning_onion.Replays.{ReplaySet, contains, new_replay_set}
use lightning_onion.Replays.Sets.{among}
use lightning_onion.Route.{OnionHop, is_empty}
use lightning_onion.Packet.{OnionPacket}
use lightning_onion.Packet
use lightning_onion.Bytes.Bounds.{AreBytes, append-AreBytes, replicate-AreBytes}
use lightning_onion.Prelude.Returns.{Returns}
use lightning_onion.Process.Arrays.{IsProcessed}
use lightning_onion.Router.Total.{decode-process-Returns}
use lightning_onion.Onion.{new_onion_packet}
use lightning_onion.Process.{ProcessedPacket}
use lightning_onion.Batch.{BatchEntry, new_batch, put}
use lightning_onion.Batch.Invariant.{IsBatch, new_batch-IsBatch, put-IsBatch}
use lightning_onion.ReplayLog.{new_memory_replay_log}
use lightning_onion.ReplayLog.Memory.{running}
use lightning_onion.Router.{Router, new_router}
use lightning_onion.Router.Stops.{hops, keys, SameButHmac}
use lightning_onion.Router.Journey.{started}
use lightning_onion.Router.Relay.{Relays, new_onion_packet-Relays}
use lightning_onion.Stream.{buffer_write}
use lightning_onion.Router.Guard.{prefix, Incoming}
use lightning_onion.Router.Replay.{receive_memory, receive_all}
use lightning_onion.Transaction.{Tx, begin_txn, process_onion_packet_tx, zero_packet}
use lightning_onion.Transaction.Batches.{IsTx, begin_txn-IsTx, process_onion_packet_tx-IsTx}
use lightning_onion.Transaction.Commit.{commit_memory}
use lightning_onion.Transaction.Refused.{AreOrders, committed_refused}
use lightning_onion.Examples.Toy.{toy, toy_laws, on_curve}
use lightning_onion.Examples.Onions.{key_pair, stop, route, empties, hop_to-IsHopData}
use lightning_onion.Examples.Batches.{some_packet}

new_onion_packet-Relays_example :
    (packet : OnionPacket toy) × (sealed_hops : List (OnionHop toy)) × (wire : Bytes)
    × (new_onion_packet toy (hops toy route ++ empties) (key_pair 3) []
        ≡ ok (packet, sealed_hops ++ empties))
    × (Packet.encode toy buffer_write packet [] ≡ (ok tt, wire))
    × SameButHmac toy (hops toy route) sealed_hops
    × Relays toy [] 40 wire
        (keys toy route)
        sealed_hops
        (map started (new_memory_replay_log ∷ new_memory_replay_log ∷ []))
unfolding blind_group_element is_empty replicate
new_onion_packet-Relays_example =
    new_onion_packet-Relays toy toy_laws (stop 5 0) (stop 7 1 ∷ []) empties (key_pair 3) [] 40
      (new_memory_replay_log ∷ new_memory_replay_log ∷ []) (omega arith)
      (
        (refl, refl, refl, hop_to-IsHopData 0 (omega arith)),
        ((refl, refl, refl, hop_to-IsHopData 1 (omega arith)), tt),
      )
      refl refl (on_curve 3, (on_curve _, tt)) refl

process_onion_packet_tx-IsTx_example :
    IsTx toy 5
      (process_onion_packet_tx toy
        (new_router toy (key_pair 5))
        2
        some_packet
        []
        40
        (begin_txn toy (9 ∷ []) 5)).1
process_onion_packet_tx-IsTx_example =
    process_onion_packet_tx-IsTx toy (new_router toy (key_pair 5)) 5 2 some_packet [] 40
      (begin_txn toy (9 ∷ []) 5) (begin_txn-IsTx toy (9 ∷ []) 5)

-- A transaction with the packet of the ephemeral key 3.
abbrev router : Router toy
router = new_router toy (key_pair 5)

abbrev sent_entry : BatchEntry
sent_entry = record { hash_prefix = prefix toy router 3; cltv = 40 }

abbrev transaction : Tx toy
transaction = record {
  batch = record {
    is_committed = false;
    id = 9 ∷ [];
    replay_set = new_replay_set;
    entries = (4, sent_entry) ∷ [];
    replay_cache = (prefix toy router 3, tt) ∷ [];
  };
  packets = replicate 5 (zero_packet toy);
}

transaction_put : transaction.batch ≡ (put 4 (prefix toy router 3) 40 (new_batch (9 ∷ []))).1
unfolding put new_batch has_key lookup insert
transaction_put = refl

transaction-AreOrders : AreOrders toy ((4, sent_entry) ∷ []) [] transaction
unfolding has_key lookup among contains new_replay_set
transaction-AreOrders = record {
  entries = record { once = (refl, tt); same = λ i. refl };
  replays = λ i. refl;
}

entry_there : lookup 4 transaction.batch.entries ≡ some sent_entry
unfolding lookup
entry_there = refl

abbrev next_incoming : Incoming toy
next_incoming = record { packet = some_packet; assoc_data = 1 ∷ []; cltv = 45 }

committed_refused_example :
    let done = commit_memory toy ((4, sent_entry) ∷ []) [] transaction (running [] []) in
    let log = receive_all toy router (next_incoming ∷ []) done.1.1 in
    (rs : ReplaySet) × (done.0.1 ≡ ok rs)
    × (contains rs 4
        ≡ (has_key {V = ℕ} (prefix toy router 3) [] || contains transaction.batch.replay_set 4))
    × ((p : ProcessedPacket toy) → (receive_memory toy router some_packet [] 50 log).0 ≢ ok p)
    × ((receive_memory toy router some_packet [] 50 log).1 ≡ log)
unfolding lookup
committed_refused_example =
    committed_refused toy router transaction ((4, sent_entry) ∷ []) [] [] [] refl
      (subst IsBatch (sym transaction_put)
        (put-IsBatch 4 (prefix toy router 3) 40 (new_batch (9 ∷ [])) (new_batch-IsBatch (9 ∷ []))))
      refl transaction-AreOrders 4 sent_entry entry_there some_packet [] 50 (next_incoming ∷ [])
      refl

-- The version, the key 3, and a header and a MAC of sevens.
abbrev input : Bytes
input = 0 ∷ replicate 32 0 ++ 3 ∷ replicate 1332 7

input-AreBytes : AreBytes input
input-AreBytes =
    append-AreBytes (0 ∷ replicate 32 0) (3 ∷ replicate 1332 7)
      (omega arith, replicate-AreBytes 32 0 (omega arith))
      (omega arith, replicate-AreBytes 1332 7 (omega arith))

decode-process-Returns_example :
    Returns (IsProcessed toy) (
      (Packet.decode toy input).0 >>= λ pkt.
      (receive_memory toy router pkt [] 40 (running [] [])).0)
decode-process-Returns_example =
    decode-process-Returns toy toy_laws router input [] 40 (running [] []) input-AreBytes
