-- ===== src/Examples/Transactions.antt =====
-- A transaction with a packet that comes twice.
use lightning_onion.Prelude.{
  ℕ, ◌≢◌, ◌≤◌, ◌+◌, ◌++◌, ap, err, log_entry_not_found, length, length-replicate, bytes_eq_of_ne,
  ◌≡◌, refl, sym, arith, true, ok, [], ◌∷◌, Bytes, bytes_eq_refl, replicate, set, false, Result,
  List,
}
use mathlib.Core.Path.{subst}
use lightning_onion.GoMap.{GoMap, bytes_key, nat_eq, has_key, lookup, insert}
use lightning_onion.GoMap.Laws.{has_key-insert}
use lightning_onion.Replays.{ReplaySet, contains, new_replay_set, add}
use lightning_onion.Replays.Sets.{among}
use lightning_onion.Batch.{Batch, BatchEntry, new_batch, put}
use lightning_onion.ReplayLog.{get}
use lightning_onion.ReplayLog.{MemoryReplayLog, or_not_found, hash_shared_secret}
use lightning_onion.ReplayLog.Memory.{running}
use lightning_onion.Bytes.Copy.{length-copy}
use lightning_onion.Batch.Invariant.{IsBatch, put-IsBatch, new_batch-IsBatch}
use lightning_onion.Router.Replay.{receive_memory, receive_all, first_acceptance}
use lightning_onion.Transaction.Counts.{occurrences, present, accepted_in}
use lightning_onion.Transaction.Retry.{commit-retried}
use lightning_onion.Transaction.Once.{Run, rests, processes, commits, accepted_once}
use lightning_onion.Examples.Batches.{
  entry, with_entry, put_entered, pending, done, log_after, first_commit,
}
use lightning_onion.Router.Guard.{prefix, Incoming}
use lightning_onion.Transaction.{Tx, zero_packet, begin_txn, put_in_batch, set_packet}
use lightning_onion.Transaction.Commit.{commit_memory, enter}
use lightning_onion.Transaction.Refused.{AreOrders}
use lightning_onion.Transaction.Sequence.{
  add_all, receive_list, verdicts, process_onion_packet_tx-enter,
}
use lightning_onion.Transaction.OneByOne.{one_by_one}
use lightning_onion.Examples.Toy.{toy, on_curve}
use lightning_onion.Examples.Logs.{router, packet, outcome, reconstructed, empty_log}

abbrev first_call : Incoming toy
first_call = record { packet = packet; assoc_data = []; cltv = 40 }

abbrev second_call : Incoming toy
second_call = record { packet = packet; assoc_data = []; cltv = 45 }

abbrev twice : List (Incoming toy)
twice = first_call ∷ second_call ∷ []

abbrev hash : Bytes
hash = prefix toy router 3

abbrev first_entry : BatchEntry
first_entry = record { hash_prefix = hash; cltv = 40 }

abbrev one_entered : Tx toy
one_entered = record {
  batch = record {
    is_committed = false;
    id = 9 ∷ [];
    replay_set = [];
    entries = (0, first_entry) ∷ [];
    replay_cache = (hash, tt) ∷ [];
  };
  packets = outcome ∷ zero_packet toy ∷ [];
}

abbrev two_entered : Tx toy
two_entered = record {
  batch = record one_entered.batch { replay_set = (1, tt) ∷ [] };
  packets = outcome ∷ outcome ∷ [];
}

enter_first : enter toy (ok outcome) 0 hash 40 (begin_txn toy (9 ∷ []) 2) ≡ (ok tt, one_entered)
unfolding begin_txn put_in_batch set_packet put new_batch has_key lookup insert new_replay_set
    replicate set
enter_first = refl

one_key : (h : Bytes) → has_key {V = Unit {0}} h ((h, tt) ∷ []) ≡ true
unfolding insert
one_key h = rw (has_key-insert {V = Unit {0}} h h tt [], bytes_eq_refl h) refl

enter_second : enter toy (ok outcome) 1 hash 45 one_entered ≡ (ok tt, two_entered)
unfolding put_in_batch set_packet put insert add set
enter_second = rw (one_key hash) refl

added_twice :
    add_all toy router 0 twice (begin_txn toy (9 ∷ []) 2) ≡ (ok tt ∷ ok tt ∷ [], two_entered)
unfolding add_all
added_twice =
    rw
      (
        process_onion_packet_tx-enter toy router 0 first_call (begin_txn toy (9 ∷ []) 2),
        reconstructed,
        enter_first,
        process_onion_packet_tx-enter toy router 1 second_call one_entered,
        reconstructed,
        enter_second,
      )
      refl

orders : AreOrders toy ((0, first_entry) ∷ []) (1 ∷ []) two_entered
unfolding has_key lookup contains among
orders = record {
  entries = record { once = (refl, tt); same = λ i. refl };
  replays = λ i. ground arith;
}

one_by_one_example :
    let added = add_all toy router 0 twice (begin_txn toy (9 ∷ []) 2) in
    let done = commit_memory toy ((0, first_entry) ∷ []) (1 ∷ []) added.1 empty_log in
    let one = receive_list toy router twice empty_log in
    (rs : ReplaySet) × (done.0.1 ≡ ok rs)
    × (one.0 ≡ verdicts toy 0 added.0 done.0.0 (contains rs))
    × ((h : Bytes) → (get h one.1).0 ≡ (get h done.1.1).0)
unfolding lookup
one_by_one_example =
    one_by_one toy router (9 ∷ []) 2 twice ((0, first_entry) ∷ []) (1 ∷ []) [] [] (omega arith) refl
      (subst
        (λ (x : List (Result (Unit {0})) × Tx toy).
          AreOrders toy ((0, first_entry) ∷ []) (1 ∷ []) x.1)
        (sym added_twice) orders)

-- A commit of a transaction with an entry, and then a packet with another prefix.
new_prefix : (1 ∷ []) ≢ hash
unfolding hash_shared_secret
new_prefix e = omega (
  arith,
  ap (λ (t : Bytes). length t) e,
  length-copy (replicate 20 0) _,
  length-replicate {A = ℕ} 20 0,
)

not_logged : (get hash log_after).0 ≡ err log_entry_not_found
unfolding get lookup or_not_found
not_logged = rw (bytes_eq_of_ne (1 ∷ []) hash new_prefix) refl

then_logged :
    (t : MemoryReplayLog) × (receive_memory toy router packet [] 40 log_after ≡ (ok outcome, t))
    × (get hash t ≡ (ok 40, t))
then_logged =
    first_acceptance toy router packet [] 40 outcome _ _ (on_curve 3) reconstructed not_logged

committed-IsBatch : IsBatch with_entry
committed-IsBatch =
    subst IsBatch (ap (λ (x : Result (Unit {0}) × Batch). x.1) put_entered)
      (put-IsBatch 4 (1 ∷ []) 40 (new_batch (9 ∷ [])) (new_batch-IsBatch (9 ∷ [])))

committed_orders : AreOrders toy ((4, entry) ∷ []) [] pending
unfolding has_key lookup contains among
committed_orders = record {
  entries = record { once = (refl, tt); same = λ i. refl };
  replays = λ i. refl;
}

run : Run toy empty_log (accepted_in [] ((4, entry) ∷ []) ++ hash ∷ []) then_logged.0
unfolding lookup
run =
    commits [] [] pending done ((4, entry) ∷ []) [] pending.packets [] refl committed-IsBatch refl
      refl committed_orders first_commit
      (processes router first_call (ok outcome) then_logged.1 rests)

accepted_once_example :
    let accepted = accepted_in [] ((4, entry) ∷ []) ++ hash ∷ [] in
    (b1 : GoMap Bytes ReplaySet) × (e1 : GoMap Bytes ℕ) × (then_logged.0 ≡ running b1 e1)
    × ((h : Bytes) → occurrences h accepted + present h [] ≤ present h e1)
accepted_once_example = accepted_once toy [] [] refl run

commit-retried_example :
    let t = (add_all toy router 0 twice (begin_txn toy (9 ∷ []) 2)).1 in
    let first = commit_memory toy ((0, first_entry) ∷ []) (1 ∷ []) t empty_log in
    let log = receive_all toy router (first_call ∷ []) first.1.1 in
    let again = commit_memory toy [] [] t log in
    (rs : ReplaySet) × (first.0 ≡ (t.packets, ok rs))
    × (again.0 ≡ (t.packets, ok rs))
    × (again.1.0 ≡ first.1.0)
    × (again.1.1 ≡ log)
unfolding lookup
commit-retried_example =
    commit-retried toy router (9 ∷ []) 2 twice (first_call ∷ []) ((0, first_entry) ∷ []) [] (1 ∷ [])
      [] [] [] (omega arith) refl
