-- ===== src/ReplayLog/Refinement.antt =====
-- The log in memory beside what the interface promises.
use mathlib.Core.Option
use lightning_onion.Prelude.{
  ℕ, ◌≡◌, refl, sym, ap, ap₂, ◌∙◌, Bytes, Option, none, some, List, [], ◌∷◌, Result, ok, err, All,
  replayed_packet,
}
use lightning_onion.GoMap.{GoMap, lookup, insert, has_key, nat_eq, bytes_key}
use lightning_onion.GoMap.Laws.{lookup-insert, lookup-delete}
use lightning_onion.Replays.{ReplaySet, contains, merge, new_replay_set}
use lightning_onion.Batch.{Batch, BatchEntry}
use lightning_onion.ReplayLog.{
  MemoryReplayLog, start, stop, get, put, delete, put_batch, or_not_found,
}
use lightning_onion.ReplayLog.Memory.{running, put_running}
use lightning_onion.ReplayLog.Entries.{marked}
use lightning_onion.ReplayLog.Committed.{put_batch_new, put_batch_stored}
use lightning_onion.ReplayLog.Promise.{
  Call, starting, stopping, getting, putting, deleting, putting_batch, Reply, replays, done, found,
  Maps, is_there, promise, get_promise, put_promise, batch_promise, answer, call, IsCall, replies,
  promises,
}
use lightning_onion.ReplayLog.View.{maps_of, view, with_cltvs, contains-eq, maps_of-stored}

-- A call on a log that runs.
abbrev Keeps : Call → MemoryReplayLog → Type 0
Keeps k rl = ((call k rl).0, view (call k rl).1) ≡ promise k (view rl)

-- A call whose method is known to come to something.
keeps_by :
    {A : Type 0} (f : A → Reply) (r : Result A) (s : MemoryReplayLog)
    (d : Result A × MemoryReplayLog)
    → d ≡ (r, s)
    → ◌≡◌ {A = Result Reply × Option Maps} (answer f d.0, view d.1) (answer f r, view s)
keeps_by f r s d e = ap (λ t. (answer f t.0, view t.1)) e

key_there : (h : Bytes) (e : GoMap Bytes ℕ) → has_key h e ≡ is_there (lookup h e)
unfolding has_key
key_there h e = refl

put-Keeps :
    (hash : Bytes) (cltv : ℕ) (b : GoMap Bytes ReplaySet) (e : GoMap Bytes ℕ)
    → Keeps (putting hash cltv) (running b e)
put-Keeps hash cltv b e = split (lookup hash e) refl
  where
    split : (o : Option ℕ) → lookup hash e ≡ o → Keeps (putting hash cltv) (running b e)
    split none f =
        keeps_by (λ u. done) (ok tt) (running b (insert hash cltv e)) (put hash cltv (running b e))
          (put_running b e hash cltv ∙ rw (key_there hash e, f) refl)
        ∙ ap (λ m. (ok done, some m)) (with_cltvs (maps_of b e) (λ h. lookup-insert hash h cltv e))
        ∙ ap (put_promise hash cltv (maps_of b e)) (sym f)
    split (some w) f =
        keeps_by (λ u. done) (err replayed_packet) (running b e) (put hash cltv (running b e))
          (put_running b e hash cltv ∙ rw (key_there hash e, f) refl)
        ∙ ap (put_promise hash cltv (maps_of b e)) (sym f)

looked_up :
    (o : Option ℕ) (s : MemoryReplayLog)
    → ◌≡◌ {A = Result Reply × Option Maps}
        (answer found (or_not_found o s).0, view (or_not_found o s).1)
        (get_promise o, view s)
unfolding or_not_found
looked_up none s = refl
looked_up (some v) s = refl

get-Keeps :
    (hash : Bytes) (b : GoMap Bytes ReplaySet) (e : GoMap Bytes ℕ)
    → Keeps (getting hash) (running b e)
unfolding get
get-Keeps hash b e = looked_up (lookup hash e) (running b e)

delete-Keeps :
    (hash : Bytes) (b : GoMap Bytes ReplaySet) (e : GoMap Bytes ℕ)
    → Keeps (deleting hash) (running b e)
unfolding delete
delete-Keeps hash b e =
    ap (λ m. (ok done, some m)) (with_cltvs (maps_of b e) (λ h. lookup-delete hash h e))

put_batch-Keeps :
    (order : List (ℕ × BatchEntry)) (replay_order : List ℕ) (batch : Batch)
    (b : GoMap Bytes ReplaySet) (e : GoMap Bytes ℕ)
    → IsCall (putting_batch order replay_order batch)
    → Keeps (putting_batch order replay_order batch) (running b e)
put_batch-Keeps order replay_order batch b e v = split (lookup batch.id b) refl
  where
    split :
        (o : Option ReplaySet)
        → lookup batch.id b ≡ o
        → Keeps (putting_batch order replay_order batch) (running b e)
    split (some rs) f =
        ap (λ d. (answer (λ rs. replays (contains rs)) d.0, view d.1.0))
          (put_batch_stored order replay_order batch b e rs f)
        ∙ ap (λ o. batch_promise order batch (maps_of b e) (Option.map contains o)) (sym f)
    split none f =
        ap (λ d. (answer (λ rs. replays (contains rs)) d.0, view d.1.0))
          (put_batch_new order replay_order batch b e f)
        ∙ maps_of-stored order batch b e (merge (marked order e new_replay_set) replay_order)
            (contains-eq order replay_order batch e v)
        ∙ ap (λ o. batch_promise order batch (maps_of b e) (Option.map contains o)) (sym f)

-- One call of the log in memory keeps the promise, whether the log runs or not.
call-Keeps :
    (k : Call) (b : Option (GoMap Bytes ReplaySet)) (e : Option (GoMap Bytes ℕ))
    → IsCall k
    → Keeps k (record { batches = b; entries = e })
unfolding start stop get put delete put_batch lookup
call-Keeps starting b e v = refl
call-Keeps stopping b none v = refl
call-Keeps stopping none (some e) v = refl
call-Keeps stopping (some b) (some e) v = refl
call-Keeps (getting hash) b none v = refl
call-Keeps (getting hash) none (some e) v = refl
call-Keeps (getting hash) (some b) (some e) v = get-Keeps hash b e
call-Keeps (deleting hash) b none v = refl
call-Keeps (deleting hash) none (some e) v = refl
call-Keeps (deleting hash) (some b) (some e) v = delete-Keeps hash b e
call-Keeps (putting hash cltv) b none v = refl
call-Keeps (putting hash cltv) none (some e) v = refl
call-Keeps (putting hash cltv) (some b) (some e) v = put-Keeps hash cltv b e
call-Keeps (putting_batch order replay_order batch) b none v = refl
call-Keeps (putting_batch order replay_order batch) none (some e) v = refl
call-Keeps (putting_batch order replay_order batch) (some b) (some e) v =
    put_batch-Keeps order replay_order batch b e v

-- Whatever methods of the log in memory are called one after another, in whatever state, with
-- well-formed batches and orders in which Go may range over their maps, each of them returns what
-- `promise` says of a log that is a function from prefixes to CLTVs and one from batches to sets
-- of replays, or nothing at all while it does not run.
pub replies-eq-promises :
    (ks : List Call) (s : MemoryReplayLog) → All IsCall ks → replies ks s ≡ promises ks (view s)
unfolding replies promises
replies-eq-promises [] s v = refl
replies-eq-promises (k ∷ ks) s v =
    let kept = call-Keeps k s.batches s.entries v.0 in
    ap₂ ◌∷◌ (ap (λ t. t.0) kept)
      (replies-eq-promises ks (call k s).1 v.1 ∙ ap (λ t. promises ks t.1) kept)
