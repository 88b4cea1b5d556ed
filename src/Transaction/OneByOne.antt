-- ===== src/Transaction/OneByOne.antt =====
-- A `Tx` of sphinx.go from its beginning to its commit, beside processing the same packets one by
-- one.
use lightning_onion.Prelude.{
  ℕ, arith, ◌+◌, ◌≤◌, ◌≡◌, ◌≢◌, refl, sym, ap, ◌∙◌, fun_ext, inl, inr, false, Bool-cases,
  Option-cases, Option, none, some, List, [], ◌∷◌, Bytes, ok, length, ◌==◌, ==_iff, bytes_eq,
  bytes_eq_iff, bytes_eq_refl,
}
use mathlib.Core.Path.{subst}
use lightning_onion.Crypto.{Primitives}
use lightning_onion.GoMap.{GoMap, nat_eq, bytes_key, lookup, has_key}
use lightning_onion.Replays.{ReplaySet, contains, new_replay_set}
use lightning_onion.Batch.{BatchEntry, Batch, new_batch}
use lightning_onion.ReplayLog.{MemoryReplayLog, get, or_not_found}
use lightning_onion.ReplayLog.Memory.{running}
use lightning_onion.ReplayLog.Entries.{Enumerates, Once}
use lightning_onion.ReplayLog.Marks.{missing, no_key, other}
use lightning_onion.ReplayLog.Promise.{cltv_in, or_else}
use lightning_onion.ReplayLog.Committed.{put_batch_lem, or_false}
use lightning_onion.Router.{Router}
use lightning_onion.Router.Guard.{Incoming}
use lightning_onion.Transaction.{begin_txn}
use lightning_onion.Transaction.Batches.{begin_txn-IsTx}
use lightning_onion.Transaction.Commit.{commit_memory, commit_pending}
use lightning_onion.Transaction.Refused.{AreOrders}
use lightning_onion.Transaction.Sequence.{add_all, receive_list, verdicts}
use lightning_onion.Transaction.Progress.{Abreast, replayed_at}
use lightning_onion.Transaction.Steps.{Beside, steps}

later :
    (j : ℕ) (x : BatchEntry) (order : List (ℕ × BatchEntry)) (i : ℕ) (y : BatchEntry)
    → has_key j order ≡ false
    → lookup i order ≡ some y
    → lookup i ((j, x) ∷ order) ≡ some y
unfolding lookup
later j x order i y new f = rw (other i j order new f) f

-- The entry behind a CLTV that a batch brings for a prefix.
pub cltv_in-found :
    (order : List (ℕ × BatchEntry)) (h : Bytes) (w : ℕ)
    → Once order
    → cltv_in order h ≡ some w
    → (i : ℕ) × (x : BatchEntry) × (lookup i order ≡ some x) × (x.hash_prefix ≡ h) × (x.cltv ≡ w)
unfolding cltv_in lookup
cltv_in-found [] h w once e = absurd (cc e)
cltv_in-found ((j, x) ∷ order) h w once e = elim (Bool-cases (bytes_eq x.hash_prefix h)) [
  | inl here ↦ (
    j,
    x,
    rw ((==_iff j j).1 refl) refl,
    (bytes_eq_iff x.hash_prefix h).0 here,
    cc (rw here at e),
  )
  | inr there ↦
      let rest = cltv_in-found order h w once.1 (rw there at e) in
      (rest.0, rest.1, later j x order rest.0 rest.1 once.0 rest.2, rest.3, rest.4)
]

-- A prefix for which a batch brings no CLTV is the one of no entry.
cltv_in-none :
    (order : List (ℕ × BatchEntry)) (i : ℕ) (x : BatchEntry)
    → lookup i order ≡ some x
    → cltv_in order x.hash_prefix ≢ none
unfolding cltv_in lookup
cltv_in-none [] i x f = absurd (cc f)
cltv_in-none ((j, y) ∷ order) i x f = elim (Bool-cases (bytes_eq y.hash_prefix x.hash_prefix)) [
  | inl here ↦ rw here (λ e. cc e)
  | inr there ↦ elim (Bool-cases (j == i)) [
    | inl at_i ↦
        let it : y ≡ x = cc (rw at_i at f) in
        absurd (
          cc (
            there,
            ap (λ (z : BatchEntry). bytes_eq z.hash_prefix x.hash_prefix) it,
            bytes_eq_refl x.hash_prefix,
          ))
    | inr off ↦ rw there (cltv_in-none order i x (rw off at f))
  ]
]

uncached :
    {e now : GoMap Bytes ℕ} {n : ℕ} {batch : Batch} {order : List (ℕ × BatchEntry)} (h : Bytes)
    → Abreast e n batch now
    → Enumerates order batch.entries
    → cltv_in order h ≡ none
    → has_key h batch.replay_cache ≡ false
uncached {batch = batch} {order = order} h v all nothing =
    elim (Bool-cases (has_key h batch.replay_cache)) [
      | inl cached ↦
          let it = v.backed h cached in
          absurd (
            cltv_in-none order it.0 it.1 (all.same it.0 ∙ it.2) (ap (cltv_in order) it.3 ∙ nothing))
      | inr new ↦ new
    ]

-- What the log that has been given the packets one by one holds, beside the entries of the batch.
log_values :
    (e now : GoMap Bytes ℕ) (n : ℕ) (batch : Batch) (order : List (ℕ × BatchEntry)) (h : Bytes)
    → Abreast e n batch now
    → Enumerates order batch.entries
    → lookup h now ≡ or_else (lookup h e) (cltv_in order h)
log_values e now n batch order h v all = elim (Option-cases (lookup h e)) [
  | inr had ↦ v.old h had.0 had.1 ∙ rw had.1 refl
  | inl new ↦ elim (Option-cases (cltv_in order h)) [
    | inr comes ↦
        let it = cltv_in-found order h comes.0 all.once comes.1 in
        rw (new, comes.1)
          (subst (λ k. has_key k e ≡ false → lookup k now ≡ some comes.0) it.3
            (λ fresh. v.values it.0 it.1 fresh (sym (all.same it.0) ∙ it.2) ∙ ap some it.4)
            (no_key h e new))
    | inl nothing ↦
        rw (new, nothing)
          (missing h now (v.keys h ∙ rw (no_key h e new) (uncached h v all nothing)))
  ]
]

new_batch-Abreast : (e : GoMap Bytes ℕ) (id : Bytes) → Abreast e 0 (new_batch id) e
unfolding new_batch contains new_replay_set has_key lookup
new_batch-Abreast e id = record {
  pending = refl;
  free = λ j h. refl;
  unmarked = λ j h. refl;
  keys = λ h. sym (or_false (has_key h e));
  old = λ h v f. f;
  backed = λ h f. absurd (cc f);
  values = λ i x fresh f. absurd (cc f);
}

found_alone : (o : Option ℕ) (s t : MemoryReplayLog) → (or_not_found o s).0 ≡ (or_not_found o t).0
unfolding or_not_found
found_alone none s t = refl
found_alone (some v) s t = refl

-- What Get finds depends on the entries only.
get_of_lookup :
    (b b2 : GoMap Bytes ReplaySet) (e e2 : GoMap Bytes ℕ) (h : Bytes)
    → lookup h e ≡ lookup h e2
    → (get h (running b e)).0 ≡ (get h (running b2 e2)).0
unfolding get
get_of_lookup b b2 e e2 h same = rw same (found_alone (lookup h e2) (running b e) (running b2 e2))

module _ (c : Primitives) where
  pub begin :
      (id : Bytes) (nels : ℕ) (e : GoMap Bytes ℕ) → Beside c id nels e 0 (begin_txn c id nels) e
  unfolding begin_txn new_batch
  begin id nels e = record {
    abreast = new_batch-Abreast e id;
    named = refl;
    is_tx = begin_txn-IsTx c id nels;
  }

  -- Packets are added to a new transaction that has room for them, at the numbers from 0 on, and
  -- the transaction is committed to a log that runs and has not stored its batch, whatever the
  -- orders in which Go ranges over the batch's maps. The commit succeeds, and what a caller learns
  -- about each packet is what the router returns when it is given the packets one by one with that
  -- log: the error of the call that added the packet, ErrReplayedPacket if its number is in the
  -- replay set, and otherwise the processed packet at its number. Afterwards Get returns the same
  -- for every prefix with the one log and with the other.
  pub one_by_one :
      (r : Router c) (id : Bytes) (nels : ℕ) (is : List (Incoming c))
      (order : List (ℕ × BatchEntry)) (replay_order : List ℕ) (b : GoMap Bytes ReplaySet)
      (e : GoMap Bytes ℕ)
      → length is ≤ nels
      → lookup id b ≡ none
      → let added = add_all c r 0 is (begin_txn c id nels) in
        let done = commit_memory c order replay_order added.1 (running b e) in
        let one = receive_list c r is (running b e) in
        AreOrders c order replay_order added.1
        → (rs : ReplaySet) × (done.0.1 ≡ ok rs)
          × (one.0 ≡ verdicts c 0 added.0 done.0.0 (contains rs))
          × ((h : Bytes) → (get h one.1).0 ≡ (get h done.1.1).0)
  one_by_one r id nels is order replay_order b e room new orders =
      let added = add_all c r 0 is (begin_txn c id nels) in
      let all =
        steps c id nels e b r 0 is (begin_txn c id nels) e (begin id nels e) (omega arith) in
      let v = all.beside in
      let put =
        put_batch_lem order replay_order added.1.batch b e (rw v.named new) v.is_tx.is_batch
          orders.entries orders.replays in
      let same : contains put.0 ≡ replayed_at e added.1.batch = fun_ext put.3 in
      (
        put.0,
        rw (commit_pending c order replay_order added.1 (running b e) v.abreast.pending, put.2)
            refl,
        rw (commit_pending c order replay_order added.1 (running b e) v.abreast.pending, same)
            all.agree,
        λ h.
            rw
              (
                commit_pending c order replay_order added.1 (running b e) v.abreast.pending,
                put.2,
                all.logged,
              )
              (get_of_lookup _ _ _ _ h (
                log_values e all.after (0 + length is) added.1.batch order h v.abreast
                  orders.entries
                ∙ sym (put.4 h))),
      )
