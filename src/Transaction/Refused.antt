-- ===== src/Transaction/Refused.antt =====
-- A transaction and the router together: the packets of a committed transaction.
use lightning_onion.Prelude.{ℕ, false, ◌≡◌, ◌≢◌, ◌||◌, sym, ap, ◌∙◌, some, none, List, Bytes, ok}
use mathlib.Core.Path.{subst}
use lightning_onion.Crypto.{Primitives}
use lightning_onion.Packet.{OnionPacket}
use lightning_onion.Process.{ProcessedPacket}
use lightning_onion.GoMap.{GoMap, insert, lookup, has_key, bytes_key, nat_eq}
use lightning_onion.Replays.{ReplaySet, contains, merge, new_replay_set}
use lightning_onion.Replays.Sets.{among}
use lightning_onion.Batch.{BatchEntry}
use lightning_onion.Batch.Invariant.{IsBatch}
use lightning_onion.ReplayLog.Memory.{running, Knows, Knows-has_key}
use lightning_onion.ReplayLog.Entries.{Enumerates, known, marked, entered, entry_entered}
use lightning_onion.ReplayLog.Committed.{put_batch_new, contains-stored}
use lightning_onion.Router.{Router}
use lightning_onion.Router.Guard.{prefix, Incoming}
use lightning_onion.Router.Replay.{receive_memory, receive_all, process_known, Knows-receive_all}
use lightning_onion.Transaction.{Tx}
use lightning_onion.Transaction.Commit.{commit_memory, commit_pending}

module _ (c : Primitives) where
  -- The orders in which Go may range over the maps of a batch.
  pub record AreOrders (order : List (ℕ × BatchEntry)) (replay_order : List ℕ) (t : Tx c)
      : Type 0 where
    pub entries : Enumerates order t.batch.entries
    pub replays : (i : ℕ) → among replay_order i ≡ contains t.batch.replay_set i

  -- A transaction that is not committed, with a well-formed batch that the log has not stored, is
  -- committed to a log that runs. The commit succeeds; an entry is in the replay set exactly if
  -- the log had its prefix before or the batch had marked it; and from then on, whatever packets
  -- the router processes in between, it accepts no packet whose secret has the prefix of that
  -- entry, and leaves the log as it is.
  pub committed_refused :
      (r : Router c) (t : Tx c) (order : List (ℕ × BatchEntry)) (replay_order : List ℕ)
      (b : GoMap Bytes ReplaySet) (e : GoMap Bytes ℕ)
      → t.batch.is_committed ≡ false
      → IsBatch t.batch
      → lookup t.batch.id b ≡ none
      → AreOrders order replay_order t
      → (i : ℕ) (x : BatchEntry) → lookup i t.batch.entries ≡ some x
      → (pkt : OnionPacket c) (assoc_data : Bytes) (cltv : ℕ) (between : List (Incoming c))
      → prefix c r pkt.ephemeral_key ≡ x.hash_prefix
      → let done = commit_memory c order replay_order t (running b e) in
        let log = receive_all c r between done.1.1 in
        (rs : ReplaySet) × (done.0.1 ≡ ok rs)
        × (contains rs i ≡ (has_key x.hash_prefix e || contains t.batch.replay_set i))
        × ((p : ProcessedPacket c) → (receive_memory c r pkt assoc_data cltv log).0 ≢ ok p)
        × ((receive_memory c r pkt assoc_data cltv log).1 ≡ log)
  committed_refused r t order replay_order b e pending v new orders i x entry pkt assoc_data cltv
        between same =
      let rs = merge (marked order e new_replay_set) replay_order in
      let step =
        commit_pending c order replay_order t (running b e) pending
        ∙ ap (λ d. ((t.packets, d.0), (record t { batch = d.1.1 }, d.1.0)))
            (put_batch_new order replay_order t.batch b e new) in
      let log = receive_all c r between (commit_memory c order replay_order t (running b e)).1.1 in
      let logged : Knows (commit_memory c order replay_order t (running b e)).1.1 x.hash_prefix =
        subst (λ s. Knows s x.hash_prefix) (sym (ap (λ d. d.1.1) step))
          (Knows-has_key (insert t.batch.id rs b) (entered order e) x.hash_prefix
            (entry_entered order e i x (orders.entries.same i ∙ entry))) in
      let refused =
        process_known c r pkt assoc_data cltv log
          (subst (Knows log) (sym same) (Knows-receive_all c r between _ x.hash_prefix logged)) in
      (
        rs,
        ap (λ d. d.0.1) step,
        contains-stored order replay_order t.batch e i v orders.entries orders.replays
            ∙ ap (λ o. known e o || contains t.batch.replay_set i) entry,
        refused.0,
        refused.1,
      )
