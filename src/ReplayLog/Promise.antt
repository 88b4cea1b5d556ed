-- ===== src/ReplayLog/Promise.antt =====
-- What the interface `ReplayLog` promises, on maps that are functions, beside the calls of the log
-- in memory.
use lightning_onion.Prelude.{
  ℕ, Bool, true, false, ◌≡◌, ◌||◌, Bytes, Option, none, some, List, [], ◌∷◌, Result, ok, err,
  panics, replayed_packet, log_entry_not_found, replay_log_not_started, bytes_eq, if◌then◌else◌,
}
use lightning_onion.GoMap.{lookup, nat_eq, bytes_key}
use lightning_onion.Replays.{contains}
use lightning_onion.Replays.Sets.{among}
use lightning_onion.Batch.{Batch, BatchEntry}
use lightning_onion.Batch.Invariant.{IsBatch}
use lightning_onion.ReplayLog.{MemoryReplayLog, start, stop, get, put, delete, put_batch}
use lightning_onion.ReplayLog.Entries.{Enumerates}

-- A call of a method; a batch comes with the orders in which Go ranges over its two maps.
pub data Call : Type 0 where
  starting stopping : Call
  getting deleting : Bytes → Call
  putting : Bytes → ℕ → Call
  putting_batch : List (ℕ × BatchEntry) → List ℕ → Batch → Call

-- What a method returns; a replay set is the set of its elements.
pub data Reply : Type 0 where
  done : Reply
  found : ℕ → Reply
  replays : (ℕ → Bool) → Reply

-- A log that runs: the CLTV of each prefix, and the replay set of each batch.
pub record Maps : Type 0 where
  pub cltv_of : Bytes → Option ℕ
  pub replays_of : Bytes → Option (ℕ → Bool)

abbrev pub assign {ℓ} : {V : Type ℓ} → Bytes → V → (Bytes → Option V) → Bytes → Option V
assign k v m j = if bytes_eq k j then some v else m j

abbrev pub is_there {ℓ} : {V : Type ℓ} → Option V → Bool
is_there none = false
is_there (some v) = true

-- The numbers of a batch's entries that the log had before, and those that the batch had marked.
abbrev pub had : (Bytes → Option ℕ) → Option BatchEntry → Bool
had cltv_of none = false
had cltv_of (some x) = is_there (cltv_of x.hash_prefix)

abbrev pub replays_in : (Bytes → Option ℕ) → Batch → ℕ → Bool
replays_in cltv_of batch i = had cltv_of (lookup i batch.entries) || contains batch.replay_set i

-- The entries of a batch, as the log gets them.
unfoldable pub cltv_in : List (ℕ × BatchEntry) → Bytes → Option ℕ
cltv_in [] h = none
cltv_in ((i, x) ∷ order) h =
    let rest = cltv_in order h in if bytes_eq x.hash_prefix h then some x.cltv else rest

abbrev pub or_else {ℓ} : {V : Type ℓ} → Option V → Option V → Option V
or_else none o = o
or_else (some v) o = some v

abbrev pub get_promise : Option ℕ → Result Reply
get_promise none = err log_entry_not_found
get_promise (some cltv) = ok (found cltv)

abbrev pub put_promise : Bytes → ℕ → Maps → Option ℕ → Result Reply × Option Maps
put_promise hash cltv m none = (ok done, some (record m { cltv_of = assign hash cltv m.cltv_of }))
put_promise hash cltv m (some old) = (err replayed_packet, some m)

abbrev pub batch_promise :
    List (ℕ × BatchEntry) → Batch → Maps → Option (ℕ → Bool) → Result Reply × Option Maps
batch_promise order batch m (some rs) = (ok (replays rs), some m)
batch_promise order batch m none =
    let rs = replays_in m.cltv_of batch in
    (
      ok (replays rs),
      some (record {
        cltv_of = λ h. or_else (m.cltv_of h) (cltv_in order h);
        replays_of = assign batch.id rs m.replays_of;
      }),
    )

-- What a call returns, and what the log is afterwards. A log that does not run is `none`.
abbrev pub promise : Call → Option Maps → Result Reply × Option Maps
promise starting m = (ok done, some (record { cltv_of = λ h. none; replays_of = λ id. none }))
promise stopping none = (err replay_log_not_started, none)
promise stopping (some m) = (ok done, none)
promise (getting hash) none = (err replay_log_not_started, none)
promise (getting hash) (some m) = (get_promise (m.cltv_of hash), some m)
promise (deleting hash) none = (err replay_log_not_started, none)
promise (deleting hash) (some m) =
    (ok done, some (record m { cltv_of = λ j. if bytes_eq hash j then none else m.cltv_of j }))
promise (putting hash cltv) none = (err replay_log_not_started, none)
promise (putting hash cltv) (some m) = put_promise hash cltv m (m.cltv_of hash)
promise (putting_batch order replay_order batch) none = (err replay_log_not_started, none)
promise (putting_batch order replay_order batch) (some m) =
    batch_promise order batch m (m.replays_of batch.id)

-- The log in memory: what a method returns, as a reply, and the log afterwards.
abbrev pub answer : {A : Type 0} → (A → Reply) → Result A → Result Reply
answer f (ok a) = ok (f a)
answer f (err e) = err e
answer f panics = panics

abbrev pub call : Call → MemoryReplayLog → Result Reply × MemoryReplayLog
call starting rl = (answer (λ u. done) (start rl).0, (start rl).1)
call stopping rl = (answer (λ u. done) (stop rl).0, (stop rl).1)
call (getting hash) rl = (answer found (get hash rl).0, (get hash rl).1)
call (deleting hash) rl = (answer (λ u. done) (delete hash rl).0, (delete hash rl).1)
call (putting hash cltv) rl = (answer (λ u. done) (put hash cltv rl).0, (put hash cltv rl).1)
call (putting_batch order replay_order batch) rl =
    let stored = put_batch order replay_order batch rl in
    (answer (λ rs. replays (contains rs)) stored.0, stored.1.0)

-- A batch is well-formed, and the orders are such in which Go may range over its maps.
abbrev pub IsCall : Call → Type 0
IsCall starting = Unit
IsCall stopping = Unit
IsCall (getting hash) = Unit
IsCall (deleting hash) = Unit
IsCall (putting hash cltv) = Unit
IsCall (putting_batch order replay_order batch) =
    IsBatch batch
    × Enumerates order batch.entries
    × ((i : ℕ) → among replay_order i ≡ contains batch.replay_set i)

-- The replies to calls one after another.
unfoldable pub replies : List Call → MemoryReplayLog → List (Result Reply)
replies [] rl = []
replies (k ∷ ks) rl = (call k rl).0 ∷ replies ks (call k rl).1

unfoldable pub promises : List Call → Option Maps → List (Result Reply)
promises [] m = []
promises (k ∷ ks) m = (promise k m).0 ∷ promises ks (promise k m).1
