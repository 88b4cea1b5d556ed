-- ===== src/Examples/Batches.antt =====
-- Replay sets, batches and transactions at concrete inputs.
use lightning_onion.Prelude.{
  panics, ℕ, ◌≡◌, ◌≢◌, refl, arith, true, false, [], ◌∷◌, ◌++◌, ok, err, unexpected_eof, replicate,
}
use lightning_onion.Stream.{buffer_write}
use lightning_onion.GoMap.{has_key, lookup, insert}
use lightning_onion.Replays.{ReplaySet, new_replay_set, contains, merge, encode, decode}
use lightning_onion.Replays.Sets.{decode-ends, among, contains-merge, decode-encode_set, decode-odd}
use lightning_onion.Batch.{Batch, BatchEntry, new_batch, put}
use lightning_onion.Batch.Invariant.{IsBatch, new_batch-IsBatch, put-IsBatch}
use lightning_onion.ReplayLog.{MemoryReplayLog, put_batch}
use lightning_onion.ReplayLog.Memory.{running}
use lightning_onion.Router.{new_router}
use lightning_onion.Transaction.{Tx, zero_packet, process_onion_packet_tx, commit}
use lightning_onion.Transaction.Commit.{commit_memory, commit-commit, committed_rejects}
use lightning_onion.Packet.{OnionPacket}
use lightning_onion.Examples.Toy.{toy}
use lightning_onion.Examples.Onions.{key_pair}

abbrev two : ReplaySet
two = merge new_replay_set (3 ∷ 513 ∷ [])

same_elements : (i : ℕ) → among (513 ∷ 3 ∷ []) i ≡ contains two i
unfolding among contains new_replay_set has_key lookup
same_elements i = ground (arith, contains-merge new_replay_set (3 ∷ 513 ∷ []) i)

decode-encode_set_example :
    (s : ReplaySet) × (decode 3 (encode buffer_write (513 ∷ 3 ∷ []) []).1 new_replay_set
      ≡ (ok tt, s))
    × ((i : ℕ) → contains s i ≡ contains two i)
decode-encode_set_example =
    decode-encode_set two (513 ∷ 3 ∷ []) 3 (omega arith, (omega arith, tt)) same_elements
      (omega arith)

decode-ends_example : (decode 4 (1 ∷ 2 ∷ 3 ∷ []) new_replay_set).0 ≢ panics
decode-ends_example = decode-ends 4 (1 ∷ 2 ∷ 3 ∷ []) new_replay_set (omega arith)

decode-odd_example :
    decode 2 ((encode buffer_write (513 ∷ []) []).1 ++ 9 ∷ []) new_replay_set
    ≡ (err unexpected_eof, merge new_replay_set (513 ∷ []))
decode-odd_example = decode-odd new_replay_set (513 ∷ []) 9 2 (omega arith, tt) (omega arith)

put-IsBatch_example : IsBatch (put 4 (1 ∷ []) 40 (new_batch (9 ∷ []))).1
put-IsBatch_example = put-IsBatch 4 (1 ∷ []) 40 (new_batch (9 ∷ [])) (new_batch-IsBatch (9 ∷ []))

abbrev pub entry : BatchEntry
entry = record { hash_prefix = 1 ∷ []; cltv = 40 }

abbrev pub with_entry : Batch
with_entry = record {
  is_committed = false;
  id = 9 ∷ [];
  replay_set = [];
  entries = (4, entry) ∷ [];
  replay_cache = (1 ∷ [], tt) ∷ [];
}

pub put_entered : put 4 (1 ∷ []) 40 (new_batch (9 ∷ [])) ≡ (ok tt, with_entry)
unfolding put new_batch has_key lookup insert new_replay_set
put_entered = refl

abbrev pub pending : Tx toy
pending = record { batch = with_entry; packets = replicate 5 (zero_packet toy) }

abbrev pub done : Tx toy
done = record {
  batch = record with_entry { is_committed = true };
  packets = replicate 5 (zero_packet toy);
}

abbrev pub log_after : MemoryReplayLog
log_after = running ((9 ∷ [], []) ∷ []) ((1 ∷ [], 40) ∷ [])

pub first_commit :
    commit_memory toy ((4, entry) ∷ []) [] pending (running [] [])
    ≡ ((pending.packets, ok []), (done, log_after))
unfolding commit put_batch lookup has_key merge insert new_replay_set
first_commit = refl

commit-commit_example :
    commit_memory toy [] [] done log_after ≡ ((pending.packets, ok []), (done, log_after))
commit-commit_example =
    commit-commit toy ((4, entry) ∷ []) [] [] [] pending done (running [] []) log_after
      pending.packets [] first_commit

abbrev pub some_packet : OnionPacket toy
some_packet = record {
  version = 0;
  ephemeral_key = 3;
  routing_info = replicate 1300 0;
  header_mac = [];
}

committed_rejects_example :
    ((process_onion_packet_tx toy (new_router toy (key_pair 5)) 2 some_packet [] 40 done).0 ≢ ok tt)
    × ((process_onion_packet_tx toy (new_router toy (key_pair 5)) 2 some_packet [] 40 done).1
        ≡ done)
committed_rejects_example =
    committed_rejects toy (new_router toy (key_pair 5)) 2 some_packet [] 40 done refl
