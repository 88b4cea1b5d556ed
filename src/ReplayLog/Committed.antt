-- ===== src/ReplayLog/Committed.antt =====
-- `PutBatch` of the log in memory.
use mathlib.Core.Quot
use mathlib.Core.Quot.{Quot}
use lightning_onion.ReplayLog.Marks.{contains-marked}
use lightning_onion.ReplayLog.Entries.{entered, marked, for_each-running, Enumerates, known, Apart}
use lightning_onion.Prelude.{
  ℕ, Bool, true, false, ◌≡◌, ◌||◌, refl, sym, ap, ◌∙◌, none, some, List, Bytes, ok-injective, ok,
}
use lightning_onion.GoMap.{GoMap, bytes_key, nat_eq, lookup, insert, has_key}
use lightning_onion.Replays.{ReplaySet, contains, merge, new_replay_set}
use lightning_onion.Replays.Sets.{among, contains-merge}
use lightning_onion.Batch.{Batch, BatchEntry}
use lightning_onion.Batch.Invariant.{IsBatch}
use lightning_onion.ReplayLog.Promise.{or_else, cltv_in}
use lightning_onion.ReplayLog.Values.{cltv_of-entered}
use lightning_onion.ReplayLog.{put_batch}
use lightning_onion.ReplayLog.Memory.{running}

pub or_false : (a : Bool) → (a || false) ≡ a
or_false true = refl
or_false false = refl

contains-new : (i : ℕ) → contains new_replay_set i ≡ false
unfolding contains new_replay_set has_key lookup
contains-new i = refl

-- The replay set that PutBatch stores.
pub contains-stored :
    (order : List (ℕ × BatchEntry)) (replay_order : List ℕ) (batch : Batch) (e : GoMap Bytes ℕ)
    (i : ℕ)
    → IsBatch batch
    → Enumerates order batch.entries
    → ((j : ℕ) → among replay_order j ≡ contains batch.replay_set j)
    → contains (merge (marked order e new_replay_set) replay_order) i
      ≡ (known e (lookup i batch.entries) || contains batch.replay_set i)
contains-stored order replay_order batch e i v all replays =
    let apart : Apart order =
      λ i j x y f g same. v.distinct i j x y (sym (all.same i) ∙ f) (sym (all.same j) ∙ g) same in
    contains-merge (marked order e new_replay_set) replay_order i
    ∙ rw (contains-marked order e new_replay_set i all.once apart, all.same i, replays i)
        (ap (λ t. t || contains batch.replay_set i)
          (ap (λ t. known e (lookup i batch.entries) || t) (contains-new i)
            ∙ or_false (known e (lookup i batch.entries))))

-- PutBatch on a log that runs, by whether it has stored the batch.
pub put_batch_new :
    (order : List (ℕ × BatchEntry)) (replay_order : List ℕ) (batch : Batch)
    (b : GoMap Bytes ReplaySet) (e : GoMap Bytes ℕ)
    → lookup batch.id b ≡ none
    → let rs = merge (marked order e new_replay_set) replay_order in
      put_batch order replay_order batch (running b e) ≡ (
        ok rs,
        (
          running (insert batch.id rs b) (entered order e),
          record batch { replay_set = rs; is_committed = true },
        ),
      )
unfolding put_batch
put_batch_new order replay_order batch b e new =
    rw (new, for_each-running order b e new_replay_set) refl

pub put_batch_stored :
    (order : List (ℕ × BatchEntry)) (replay_order : List ℕ) (batch : Batch)
    (b : GoMap Bytes ReplaySet) (e : GoMap Bytes ℕ) (rs : ReplaySet)
    → lookup batch.id b ≡ some rs
    → put_batch order replay_order batch (running b e)
      ≡ (ok rs, (running b e, record batch { replay_set = rs; is_committed = true }))
unfolding put_batch
put_batch_stored order replay_order batch b e rs old = rw old refl

-- PutBatch on a log that runs and has not stored the batch, for a well-formed batch and orders in
-- which Go may range over its entries and over its replay set: the batch is committed, the log
-- stores it, and its replay set is then the set of the numbers of the entries whose prefix the log
-- had before, and of those that the batch had marked; a prefix keeps the CLTV that it had in the
-- log, and otherwise gets that of the first entry of the batch with it, if there is one.
pub put_batch_lem :
    (order : List (ℕ × BatchEntry)) (replay_order : List ℕ) (batch : Batch)
    (b : GoMap Bytes ReplaySet) (e : GoMap Bytes ℕ)
    → lookup batch.id b ≡ none
    → IsBatch batch
    → Enumerates order batch.entries
    → ((i : ℕ) → among replay_order i ≡ contains batch.replay_set i)
    → (rs : ReplaySet) × (e1 : GoMap Bytes ℕ) × (put_batch order replay_order batch (running b e)
        ≡ (
          ok rs,
          (
            running (insert batch.id rs b) e1,
            record batch { replay_set = rs; is_committed = true },
          ),
        ))
      × ((i : ℕ)
          → contains rs i ≡ (known e (lookup i batch.entries) || contains batch.replay_set i))
      × ((h : Bytes) → lookup h e1 ≡ or_else (lookup h e) (cltv_in order h))
put_batch_lem order replay_order batch b e new v all replays = (
  merge (marked order e new_replay_set) replay_order,
  entered order e,
  put_batch_new order replay_order batch b e new,
  λ i. contains-stored order replay_order batch e i v all replays,
  cltv_of-entered order e,
)

-- A replay set as the set of its elements, whatever the order in which they were added.
abbrev pub SameElements : ReplaySet → ReplaySet → Type 0
SameElements rs ss = (i : ℕ) → contains rs i ≡ contains ss i

abbrev pub Elements : Type 0
Elements = Quot SameElements

-- Whatever the orders in which Go ranges over the entries and over the replay set of a
-- well-formed batch, PutBatch returns the same set on a log that runs and has not stored it.
pub put_batch-order :
    (order order2 : List (ℕ × BatchEntry)) (replay_order replay_order2 : List ℕ) (batch : Batch)
    (b : GoMap Bytes ReplaySet) (e : GoMap Bytes ℕ) (rs ss : ReplaySet)
    → lookup batch.id b ≡ none
    → IsBatch batch
    → Enumerates order batch.entries
    → Enumerates order2 batch.entries
    → ((i : ℕ) → among replay_order i ≡ contains batch.replay_set i)
    → ((i : ℕ) → among replay_order2 i ≡ contains batch.replay_set i)
    → (put_batch order replay_order batch (running b e)).0 ≡ ok rs
    → (put_batch order2 replay_order2 batch (running b e)).0 ≡ ok ss
    → ◌≡◌ {A = Elements} (Quot.mk rs) (Quot.mk ss)
put_batch-order order order2 replay_order replay_order2 batch b e rs ss new v all all2 r r2 f g =
    let one = put_batch_lem order replay_order batch b e new v all r in
    let two = put_batch_lem order2 replay_order2 batch b e new v all2 r2 in
    let same : one.0 ≡ rs = ok-injective one.0 rs (ap (λ t. t.0) (sym one.2) ∙ f) in
    let same2 : two.0 ≡ ss = ok-injective two.0 ss (ap (λ t. t.0) (sym two.2) ∙ g) in
    Quot.sound (λ i.
      ap (λ s. contains s i) (sym same) ∙ one.3 i ∙ sym (two.3 i) ∙ ap (λ s. contains s i) same2)
