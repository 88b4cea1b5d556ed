-- ===== src/ReplayLog/View.antt =====
-- The maps of the log in memory as functions.
use mathlib.Core.Option
use lightning_onion.Prelude.{
  ℕ, Bool, true, false, ◌≡◌, ◌||◌, refl, ap, ap₂, ◌∙◌, fun_ext, Bytes, Option, none, some, List, ok,
  bytes_eq, if◌then◌else◌,
}
use lightning_onion.GoMap.{GoMap, lookup, insert, has_key, nat_eq, bytes_key}
use lightning_onion.GoMap.Laws.{lookup-insert}
use lightning_onion.Replays.{ReplaySet, contains, merge, new_replay_set}
use lightning_onion.Batch.{Batch, BatchEntry}
use lightning_onion.ReplayLog.{MemoryReplayLog}
use lightning_onion.ReplayLog.Entries.{entered, marked, known}
use lightning_onion.ReplayLog.Values.{cltv_of-entered}
use lightning_onion.ReplayLog.Committed.{contains-stored}
use lightning_onion.ReplayLog.Promise.{
  putting_batch, replays, Maps, assign, had, replays_in, batch_promise, IsCall,
}

-- A log in memory as such maps.
abbrev pub maps_of : GoMap Bytes ReplaySet → GoMap Bytes ℕ → Maps
maps_of b e = record {
  cltv_of = λ h. lookup h e;
  replays_of = λ id. Option.map contains (lookup id b);
}

abbrev pub view_of : Option (GoMap Bytes ReplaySet) → Option (GoMap Bytes ℕ) → Option Maps
view_of b none = none
view_of none (some e) = none
view_of (some b) (some e) = some (maps_of b e)

abbrev pub view : MemoryReplayLog → Option Maps
view rl = view_of rl.batches rl.entries

-- The maps after a change of one of them.
pub with_cltvs :
    (m : Maps) {f g : Bytes → Option ℕ}
    → ((h : Bytes) → f h ≡ g h)
    → ◌≡◌ {A = Maps} (record m { cltv_of = f }) (record m { cltv_of = g })
with_cltvs m same = ap (λ t. record m { cltv_of = t }) (fun_ext same)

known-had : (e : GoMap Bytes ℕ) (o : Option BatchEntry) → known e o ≡ had (λ h. lookup h e) o
unfolding has_key
known-had e none = refl
known-had e (some x) = refl

pub contains-eq :
    (order : List (ℕ × BatchEntry)) (replay_order : List ℕ) (batch : Batch) (e : GoMap Bytes ℕ)
    → IsCall (putting_batch order replay_order batch)
    → contains (merge (marked order e new_replay_set) replay_order)
      ≡ replays_in (λ h. lookup h e) batch
contains-eq order replay_order batch e v = fun_ext λ i.
    contains-stored order replay_order batch e i v.0 v.1 v.2
    ∙ ap (λ t. t || contains batch.replay_set i) (known-had e (lookup i batch.entries))

map_if :
    (c : Bool) (rs : ReplaySet) (o : Option ReplaySet)
    → Option.map contains (if c then some rs else o)
      ≡ (if c then some (contains rs) else Option.map contains o)
map_if true rs o = refl
map_if false rs o = refl

replays_of-insert :
    (id : Bytes) (rs : ReplaySet) (b : GoMap Bytes ReplaySet) (j : Bytes)
    → Option.map contains (lookup j (insert id rs b))
      ≡ assign id (contains rs) (λ h. Option.map contains (lookup h b)) j
replays_of-insert id rs b j =
    ap (Option.map contains) (lookup-insert id j rs b) ∙ map_if (bytes_eq id j) rs (lookup j b)

-- The maps after PutBatch has stored a batch.
pub maps_of-stored :
    (order : List (ℕ × BatchEntry)) (batch : Batch) (b : GoMap Bytes ReplaySet) (e : GoMap Bytes ℕ)
    (rs : ReplaySet)
    → contains rs ≡ replays_in (λ h. lookup h e) batch
    → (ok (replays (contains rs)), some (maps_of (insert batch.id rs b) (entered order e)))
      ≡ batch_promise order batch (maps_of b e) none
maps_of-stored order batch b e rs same =
    let before = maps_of b e in
    ap
      (λ r. (
        ok (replays (contains rs)),
        some (record { cltv_of = λ h. lookup h (entered order e); replays_of = r }),
      ))
      (fun_ext (replays_of-insert batch.id rs b))
    ∙ ap₂
        (λ m w. (
          ok (replays w),
          some (record { cltv_of = m; replays_of = assign batch.id w before.replays_of }),
        ))
        (fun_ext (cltv_of-entered order e)) same
