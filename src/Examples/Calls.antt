-- ===== src/Examples/Calls.antt =====
-- The methods of the log in memory at concrete inputs.
use lightning_onion.Prelude.{
  All, bytes_eq, ℕ, ◌≡◌, ◌||◌, refl, arith, true, ok, Bytes, List, [], ◌∷◌,
}
use mathlib.Core.Quot
use lightning_onion.GoMap.{GoMap, lookup, insert, has_key, bytes_key, nat_eq}
use lightning_onion.Replays.{ReplaySet, add, merge, contains, new_replay_set}
use lightning_onion.Replays.Sets.{among}
use lightning_onion.ReplayLog.Promise.{
  or_else, cltv_in, Call, starting, stopping, getting, putting, deleting, putting_batch, IsCall,
  replies, promises,
}
use lightning_onion.ReplayLog.View.{view}
use lightning_onion.ReplayLog.Refinement.{replies-eq-promises}
use lightning_onion.Batch.{Batch, BatchEntry, new_batch, put}
use lightning_onion.Batch.Invariant.{IsBatch, new_batch-IsBatch, put-IsBatch}
use lightning_onion.ReplayLog.{new_memory_replay_log, put_batch}
use lightning_onion.ReplayLog.Memory.{running}
use lightning_onion.ReplayLog.Entries.{Enumerates, known}
use lightning_onion.ReplayLog.Committed.{put_batch_lem, put_batch-order, Elements}

-- A batch of two entries, the first of which the log knows, and the other order of them.
abbrev two_puts : Batch
two_puts = (put 6 (2 ∷ []) 41 (put 4 (1 ∷ []) 40 (new_batch (9 ∷ []))).1).1

abbrev forwards : List (ℕ × BatchEntry)
forwards =
    (4, record { hash_prefix = 1 ∷ []; cltv = 40 })
    ∷ (6, record { hash_prefix = 2 ∷ []; cltv = 41 })
    ∷ []

abbrev backwards : List (ℕ × BatchEntry)
backwards =
    (6, record { hash_prefix = 2 ∷ []; cltv = 41 })
    ∷ (4, record { hash_prefix = 1 ∷ []; cltv = 40 })
    ∷ []

two_puts-IsBatch : IsBatch two_puts
two_puts-IsBatch =
    put-IsBatch 6 (2 ∷ []) 41 (put 4 (1 ∷ []) 40 (new_batch (9 ∷ []))).1
      (put-IsBatch 4 (1 ∷ []) 40 (new_batch (9 ∷ [])) (new_batch-IsBatch (9 ∷ [])))

forwards-Enumerates : Enumerates forwards two_puts.entries
unfolding put new_batch has_key lookup insert bytes_eq
forwards-Enumerates = record { once = (refl, (refl, tt)); same = λ i. refl }

backwards-Enumerates : Enumerates backwards two_puts.entries
unfolding put new_batch has_key lookup insert bytes_eq
backwards-Enumerates = record { once = (refl, (refl, tt)); same = λ i. ground arith }

no_replays : (i : ℕ) → among [] i ≡ contains two_puts.replay_set i
unfolding put new_batch has_key lookup insert bytes_eq among contains new_replay_set
no_replays i = refl

abbrev known_log : GoMap Bytes ℕ
known_log = (1 ∷ [], 30) ∷ []

put_batch_lem_example :
    (rs : ReplaySet) × (e1 : GoMap Bytes ℕ) × (put_batch backwards [] two_puts
        (running [] known_log)
      ≡ (
        ok rs,
        (
          running (insert two_puts.id rs []) e1,
          record two_puts { replay_set = rs; is_committed = true },
        ),
      ))
    × ((i : ℕ)
        → contains rs i
          ≡ (known known_log (lookup i two_puts.entries) || contains two_puts.replay_set i))
    × ((h : Bytes) → lookup h e1 ≡ or_else (lookup h known_log) (cltv_in backwards h))
unfolding lookup
put_batch_lem_example =
    put_batch_lem backwards [] two_puts [] known_log refl two_puts-IsBatch backwards-Enumerates
      no_replays

abbrev known_both : GoMap Bytes ℕ
known_both = (1 ∷ [], 30) ∷ (2 ∷ [], 31) ∷ []

put_forwards :
    (put_batch forwards [] two_puts (running [] known_both)).0 ≡ ok ((4, tt) ∷ (6, tt) ∷ [])
unfolding put new_batch has_key lookup insert bytes_eq put_batch merge add new_replay_set
put_forwards = refl

put_backwards :
    (put_batch backwards [] two_puts (running [] known_both)).0 ≡ ok ((6, tt) ∷ (4, tt) ∷ [])
unfolding put new_batch has_key lookup insert bytes_eq put_batch merge add new_replay_set
put_backwards = refl

put_batch-order_example :
    ◌≡◌ {A = Elements} (Quot.mk ((4, tt) ∷ (6, tt) ∷ [])) (Quot.mk ((6, tt) ∷ (4, tt) ∷ []))
unfolding lookup
put_batch-order_example =
    put_batch-order forwards backwards [] [] two_puts [] known_both ((4, tt) ∷ (6, tt) ∷ [])
      ((6, tt) ∷ (4, tt) ∷ []) refl two_puts-IsBatch forwards-Enumerates backwards-Enumerates
      no_replays no_replays put_forwards put_backwards

-- Calls from before Start to after Stop, with a replay and with a batch.
abbrev calls : List Call
calls =
    getting (1 ∷ [])
    ∷ starting
    ∷ putting (1 ∷ []) 40
    ∷ putting (1 ∷ []) 41
    ∷ putting_batch backwards [] two_puts
    ∷ putting_batch backwards [] two_puts
    ∷ getting (2 ∷ [])
    ∷ deleting (1 ∷ [])
    ∷ getting (1 ∷ [])
    ∷ stopping
    ∷ getting (2 ∷ [])
    ∷ []

batch-IsCall : IsCall (putting_batch backwards [] two_puts)
batch-IsCall = (two_puts-IsBatch, backwards-Enumerates, no_replays)

calls-AreCalls : All IsCall calls
calls-AreCalls =
    (tt, (tt, (tt, (tt, (batch-IsCall, (batch-IsCall, (tt, (tt, (tt, (tt, (tt, tt)))))))))))

replies-eq-promises_example :
    replies calls new_memory_replay_log ≡ promises calls (view new_memory_replay_log)
replies-eq-promises_example = replies-eq-promises calls new_memory_replay_log calls-AreCalls
