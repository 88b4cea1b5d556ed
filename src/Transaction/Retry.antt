-- ===== src/Transaction/Retry.antt =====
-- `Tx` of sphinx.go and `PutBatch` of replaylog.go: a transaction that is made and committed again.
use lightning_onion.Prelude.{
  ℕ, ◌≤◌, ◌≡◌, refl, ◌∙◌, arith, none, some, List, [], ◌∷◌, Bytes, bytes_eq_refl, length, ok,
}
use lightning_onion.Crypto.{Primitives}
use lightning_onion.GoMap.{GoMap, bytes_key, lookup, insert}
use lightning_onion.GoMap.Laws.{lookup-insert}
use lightning_onion.Replays.{ReplaySet, merge, new_replay_set}
use lightning_onion.Batch.{BatchEntry}
use lightning_onion.ReplayLog.Memory.{running}
use lightning_onion.ReplayLog.Entries.{marked, entered}
use lightning_onion.ReplayLog.Committed.{put_batch_new, put_batch_stored}
use lightning_onion.Router.{Router, reconstruct_onion_packet}
use lightning_onion.Router.Guard.{prefix, Incoming, process_all}
use lightning_onion.Router.Replay.{receive_all}
use lightning_onion.Transaction.{begin_txn}
use lightning_onion.Transaction.Commit.{commit_memory, commit_pending}
use lightning_onion.Transaction.Sequence.{add_all, process-receive}
use lightning_onion.Transaction.Steps.{steps}
use lightning_onion.Transaction.OneByOne.{begin}
use lightning_onion.Transaction.Once.{one-present}

module _ (c : Primitives) where
  -- Packets that the router processes leave the batches of a log as they are.
  receive_all-running :
      (r : Router c) (is : List (Incoming c)) (b : GoMap Bytes ReplaySet) (e : GoMap Bytes ℕ)
      → (e1 : GoMap Bytes ℕ) × (receive_all c r is (running b e) ≡ running b e1)
  unfolding process_all
  receive_all-running r [] b e = (e, refl)
  receive_all-running r (i ∷ is) b e =
      let one =
        one-present c (reconstruct_onion_packet c r i.packet i.assoc_data)
          (prefix c r i.packet.ephemeral_key) i.cltv b e in
      let rest = receive_all-running r is b one.0 in
      (rest.0, rw (process-receive c r i (running b e), one.1) rest.1)

  -- Packets are added to a new transaction that has room for them, and it is committed to a log that
  -- runs and has not stored its batch. When the same packets are added once more to a new
  -- transaction with the same identifier, after the router has processed any further packets, its
  -- Commit succeeds with the same packets and the same replay set, although the log has all of
  -- them by then, leaves the transaction as the first Commit left its own, and does not change the
  -- log; in whatever orders Go ranges over the maps.
  pub commit-retried :
      (r : Router c) (id : Bytes) (nels : ℕ) (is between : List (Incoming c))
      (order order2 : List (ℕ × BatchEntry)) (replay_order replay_order2 : List ℕ)
      (b : GoMap Bytes ReplaySet) (e : GoMap Bytes ℕ)
      → length is ≤ nels
      → lookup id b ≡ none
      → let t = (add_all c r 0 is (begin_txn c id nels)).1 in
        let first = commit_memory c order replay_order t (running b e) in
        let log = receive_all c r between first.1.1 in
        let again = commit_memory c order2 replay_order2 t log in
        (rs : ReplaySet) × (first.0 ≡ (t.packets, ok rs))
        × (again.0 ≡ (t.packets, ok rs))
        × (again.1.0 ≡ first.1.0)
        × (again.1.1 ≡ log)
  commit-retried r id nels is between order order2 replay_order replay_order2 b e room new =
      let t = (add_all c r 0 is (begin_txn c id nels)).1 in
      let v =
        (steps c id nels e b r 0 is (begin_txn c id nels) e (begin c id nels e)
          (omega arith)).beside in
      let rs = merge (marked order e new_replay_set) replay_order in
      let stored = put_batch_new order replay_order t.batch b e (rw v.named new) in
      let later = receive_all-running r between (insert t.batch.id rs b) (entered order e) in
      let found : lookup t.batch.id (insert t.batch.id rs b) ≡ some rs =
        lookup-insert t.batch.id t.batch.id rs b ∙ rw (bytes_eq_refl t.batch.id) refl in
      rw
        (
          commit_pending c order replay_order t (running b e) v.abreast.pending,
          stored,
          later.1,
          commit_pending c order2 replay_order2 t (running (insert t.batch.id rs b) later.0)
              v.abreast.pending,
          put_batch_stored order2 replay_order2 t.batch (insert t.batch.id rs b) later.0 rs found,
        )
        (rs, refl, refl, refl, refl)
