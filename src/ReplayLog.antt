-- ===== src/ReplayLog.antt =====
-- replaylog.go: the interface of a replay log, the prefix by which it knows a packet, and the log
-- in memory. A log's methods change its state, which is explicit here.
pub mod Memory
pub mod Entries
pub mod Marks
pub mod Values
pub mod View
pub mod Committed
pub mod Contract
pub mod Promise
pub mod Refinement
use mathlib.Core.Option
use lightning_onion.Prelude.{
  ℕ, true, Option, none, some, List, [], ◌∷◌, Bytes, replicate, Result, ok, err, panics,
  replayed_packet, log_entry_not_found, replay_log_not_started, bytes_eq, if◌then◌else◌,
}
use lightning_onion.Prelude.Io.{Io, pure, fail, lift, ◌>>=◌, ◌>>◌}
use lightning_onion.Bytes.{copy}
use lightning_onion.Crypto.{Primitives}
use lightning_onion.GoMap
use lightning_onion.GoMap.{bytes_key, GoMap, lookup, insert, has_key}
use lightning_onion.Replays.{ReplaySet, new_replay_set, add, merge}
use lightning_onion.Batch.{Batch, BatchEntry, for_each}

abbrev pub hash_prefix_size : ℕ
hash_prefix_size = 20

-- The first 20 bytes of the hash of the shared secret.
unfoldable pub hash_shared_secret : Primitives → Bytes → Bytes
hash_shared_secret c shared_secret = copy (replicate hash_prefix_size 0) (c.sha256 shared_secret)

-- The interface. `PutBatch` also changes the batch that it is given, and ranges over two maps of
-- it, in an order of Go's choice: over the batch's entries and over its replay set.
pub record ReplayLog : Type 1 where
  pub State : Type 0
  pub start : Io State (Unit {0})
  pub stop : Io State (Unit {0})
  pub get : Bytes → Io State ℕ
  pub put : Bytes → ℕ → Io State (Unit {0})
  pub delete : Bytes → Io State (Unit {0})
  pub put_batch :
      List (ℕ × BatchEntry) → List ℕ → Batch → State → Result ReplaySet × (State × Batch)

-- A nil map is `none`.
pub record MemoryReplayLog : Type 0 where
  pub batches : Option (GoMap Bytes ReplaySet)
  pub entries : Option (GoMap Bytes ℕ)

unfoldable pub new_memory_replay_log : MemoryReplayLog
new_memory_replay_log = record { batches = none; entries = none }

unfoldable pub start : Io MemoryReplayLog (Unit {0})
start rl = pure tt (record { batches = some []; entries = some [] })

-- `rl.entries == nil || rl.batches == nil`, in front of every other method.
unfoldable pub if_started :
    {A : Type 0}
    → Option (GoMap Bytes ℕ)
    → Option (GoMap Bytes ReplaySet)
    → (GoMap Bytes ℕ → GoMap Bytes ReplaySet → Io MemoryReplayLog A)
    → Io MemoryReplayLog A
if_started none batches body rl = fail replay_log_not_started rl
if_started (some entries) none body rl = fail replay_log_not_started rl
if_started (some entries) (some batches) body rl = body entries batches rl

unfoldable pub stop : Io MemoryReplayLog (Unit {0})
unfolding if_started
stop rl =
    if_started rl.entries rl.batches
      (λ entries batches. λ _. (ok tt, record { batches = none; entries = none })) rl

unfoldable pub or_not_found : Option ℕ → Io MemoryReplayLog ℕ
or_not_found none = fail log_entry_not_found
or_not_found (some cltv) = pure cltv

unfoldable pub get : Bytes → Io MemoryReplayLog ℕ
unfolding if_started or_not_found
get hash rl =
    if_started rl.entries rl.batches (λ entries batches. or_not_found (lookup hash entries)) rl

unfoldable pub put : Bytes → ℕ → Io MemoryReplayLog (Unit {0})
unfolding if_started
put hash cltv rl =
    if_started rl.entries rl.batches
      (λ entries batches.
        if has_key hash entries
        then fail replayed_packet
        else (λ rl. (ok tt, record rl { entries = some (insert hash cltv entries) })))
      rl

unfoldable pub delete : Bytes → Io MemoryReplayLog (Unit {0})
unfolding if_started
delete hash rl =
    if_started rl.entries rl.batches
      (λ entries batches. λ rl. (ok tt, record rl { entries = some (GoMap.delete hash entries) }))
      rl

-- What the closure of `PutBatch` does with the outcome of `rl.Put`; a replay is noted, and is no
-- error.
unfoldable pub note_replay :
    ℕ
    → Result (Unit {0})
    → ReplaySet
    → MemoryReplayLog
    → Result (Unit {0}) × (ReplaySet × MemoryReplayLog)
note_replay seq_num (ok _) replays rl = (ok tt, (replays, rl))
note_replay seq_num (err replayed_packet) replays rl = (ok tt, (add replays seq_num, rl))
note_replay seq_num (err e) replays rl = (err e, (replays, rl))
note_replay seq_num panics replays rl = (panics, (replays, rl))

-- The closure, on the variables that it captures.
unfoldable pub put_entry : ℕ → Bytes → ℕ → Io (ReplaySet × MemoryReplayLog) (Unit {0})
unfolding put note_replay
put_entry seq_num hash_prefix cltv (replays, rl) =
    let stored = put hash_prefix cltv rl in note_replay seq_num stored.0 replays stored.1

-- The branch of `PutBatch` for a batch that is not in the log: the replay set of its entries and
-- of the batch itself, which is stored under the batch's identifier.
unfoldable pub store_replays :
    Bytes
    → List ℕ
    → Result (Unit {0})
    → ReplaySet
    → MemoryReplayLog
    → Result ReplaySet × MemoryReplayLog
store_replays id replay_order (ok _) replays rl =
    let merged = merge replays replay_order in
    (ok merged, record rl { batches = Option.map (insert id merged) rl.batches })
store_replays id replay_order (err e) replays rl = (err e, rl)
store_replays id replay_order panics replays rl = (panics, rl)

-- The replay set of a batch: the one that is stored, or a new one.
unfoldable pub batch_replays :
    Option ReplaySet → List (ℕ × BatchEntry) → List ℕ → Bytes → Io MemoryReplayLog ReplaySet
unfolding for_each put_entry store_replays
batch_replays (some replays) entry_order replay_order id rl = (ok replays, rl)
batch_replays none entry_order replay_order id rl =
    let done = for_each put_entry entry_order (new_replay_set, rl) in
    store_replays id replay_order done.0 done.1.0 done.1.1

-- The end of `PutBatch`: the batch gets the replay set and is committed, unless there was an
-- error.
unfoldable pub commit_batch :
    Batch → Result ReplaySet → MemoryReplayLog → Result ReplaySet × (MemoryReplayLog × Batch)
commit_batch batch (ok replays) rl =
    (ok replays, (rl, record batch { replay_set = replays; is_committed = true }))
commit_batch batch (err e) rl = (err e, (rl, batch))
commit_batch batch panics rl = (panics, (rl, batch))

unfoldable pub put_batch :
    List (ℕ × BatchEntry)
    → List ℕ
    → Batch
    → MemoryReplayLog
    → Result ReplaySet × (MemoryReplayLog × Batch)
unfolding if_started batch_replays commit_batch
put_batch entry_order replay_order batch rl =
    let done =
      if_started rl.entries rl.batches
        (λ entries batches.
          batch_replays (lookup batch.id batches) entry_order replay_order batch.id)
        rl in
    commit_batch batch done.0 done.1

-- `var _ ReplayLog = (*MemoryReplayLog)(nil)`: the log in memory implements the interface.
abbrev pub memory_replay_log : ReplayLog
memory_replay_log = record {
  State = MemoryReplayLog;
  start = start;
  stop = stop;
  get = get;
  put = put;
  delete = delete;
  put_batch = put_batch;
}
