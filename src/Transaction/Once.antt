-- ===== src/Transaction/Once.antt =====
-- `ProcessOnionPacket` of routers and `Commit` of transactions of sphinx.go on one log in memory, in
-- any sequence.
use lightning_onion.Prelude.{
  ℕ, ◌+◌, ◌≤◌, ◌≡◌, refl, sym, ap, ◌∙◌, arith, inl, inr, false, Bool-cases, none, List, [], ◌∷◌,
  ◌++◌, Bytes, bytes_eq_iff, Result, ok, err, panics,
}
use mathlib.Core.Path.{subst}
use lightning_onion.Crypto.{Primitives}
use lightning_onion.Process.{ProcessedPacket}
use lightning_onion.GoMap.{GoMap, bytes_key, nat_eq, lookup, insert, has_key}
use lightning_onion.GoMap.Laws.{has_key-insert}
use lightning_onion.Replays.{ReplaySet, contains}
use lightning_onion.Batch.{BatchEntry}
use lightning_onion.Batch.Invariant.{IsBatch}
use lightning_onion.ReplayLog.{MemoryReplayLog, memory_replay_log}
use lightning_onion.ReplayLog.Memory.{running}
use lightning_onion.ReplayLog.Entries
use lightning_onion.ReplayLog.Entries.{entered, Once, Apart, known}
use lightning_onion.ReplayLog.Committed.{put_batch_lem}
use lightning_onion.Router.{Router, reconstruct_onion_packet}
use lightning_onion.Router.Guard.{prefix, Incoming, receive}
use lightning_onion.Router.Replay.{receive_memory}
use lightning_onion.Transaction.{Tx}
use lightning_onion.Transaction.Commit.{commit_memory, commit_pending}
use lightning_onion.Transaction.Refused.{AreOrders}
use lightning_onion.Transaction.Sequence.{receive-running, process-receive}
use lightning_onion.Transaction.Counts.{
  occurrences, present, accepted_in, occurrences-append, occurrences-accepted_in, present-entered,
  no_replay,
}

module _ (c : Primitives) where
  -- What the router accepts with one call.
  abbrev pub accepted_one : Result (ProcessedPacket c) → Bytes → List Bytes
  accepted_one (ok p) hash = hash ∷ []
  accepted_one (err e) hash = []
  accepted_one panics hash = []

  -- A sequence of calls on one log: ProcessOnionPacket of any router, with any packet, and Commit
  -- of a transaction that is not committed, with a well-formed batch that the log has not stored.
  -- The list has the prefixes of the packets that were accepted on the way.
  pub data Run : MemoryReplayLog → List Bytes → MemoryReplayLog → Type 0 where
    rests : {s : MemoryReplayLog} → Run s [] s
    processes :
        {s s1 u : MemoryReplayLog} {accepted : List Bytes}
        → (r : Router c) (i : Incoming c) (m : Result (ProcessedPacket c))
        → receive_memory c r i.packet i.assoc_data i.cltv s ≡ (m, s1)
        → Run s1 accepted u
        → Run s (accepted_one m (prefix c r i.packet.ephemeral_key) ++ accepted) u
    commits :
        {s s1 u : MemoryReplayLog} {accepted : List Bytes}
        → (b : GoMap Bytes ReplaySet) (e : GoMap Bytes ℕ) (t t1 : Tx c)
        → (order : List (ℕ × BatchEntry)) (replay_order : List ℕ)
        → (packets : List (ProcessedPacket c)) (rs : ReplaySet) → t.batch.is_committed ≡ false
        → IsBatch t.batch
        → s ≡ running b e
        → lookup t.batch.id b ≡ none
        → AreOrders c order replay_order t
        → commit_memory c order replay_order t s ≡ ((packets, ok rs), (t1, s1))
        → Run s1 accepted u
        → Run s (accepted_in rs order ++ accepted) u

  -- What one call of ProcessOnionPacket adds to a log that runs.
  pub one-present :
      (m : Result (ProcessedPacket c)) (hash : Bytes) (cltv : ℕ) (b : GoMap Bytes ReplaySet)
      (e : GoMap Bytes ℕ)
      → let got = receive c memory_replay_log m hash cltv (running b e) in
        (e1 : GoMap Bytes ℕ) × (got.1 ≡ running b e1)
        × ((h : Bytes) → occurrences h (accepted_one got.0 hash) + present h e ≤ present h e1)
  unfolding occurrences
  one-present (err x) hash cltv b e = (e, refl, λ h. omega arith)
  one-present panics hash cltv b e = (e, refl, λ h. omega arith)
  one-present (ok p) hash cltv b e =
      let x : BatchEntry = record { hash_prefix = hash; cltv = cltv } in
      rw (receive-running c p hash cltv b e) (
        Entries.enter x e,
        refl,
        λ h. elim (Bool-cases (has_key hash e)) [
          | inl old ↦ rw old (omega arith)
          | inr new ↦
              rw new (ground (arith, has_key-insert hash h cltv e, bytes_eq_iff hash h, new))
        ],
      )

  -- What a Commit adds to it.
  commit-present :
      (b : GoMap Bytes ReplaySet) (e : GoMap Bytes ℕ) (t t1 : Tx c) (order : List (ℕ × BatchEntry))
      (replay_order : List ℕ) (packets : List (ProcessedPacket c)) (rs : ReplaySet)
      (s1 : MemoryReplayLog)
      → t.batch.is_committed ≡ false
      → IsBatch t.batch
      → lookup t.batch.id b ≡ none
      → AreOrders c order replay_order t
      → commit_memory c order replay_order t (running b e) ≡ ((packets, ok rs), (t1, s1))
      → (b1 : GoMap Bytes ReplaySet) × (e1 : GoMap Bytes ℕ) × (s1 ≡ running b1 e1)
        × ((h : Bytes) → occurrences h (accepted_in rs order) + present h e ≤ present h e1)
  commit-present b e t t1 order replay_order packets rs s1 pending v new orders done =
      let put = put_batch_lem order replay_order t.batch b e new v orders.entries orders.replays in
      let now = rw (commit_pending c order replay_order t (running b e) pending, put.2) at done in
      let same : put.0 ≡ rs = cc (ap (λ x. x.0.1) now) in
      let apart : Apart order = λ i j x y f g.
        v.distinct i j x y (sym (orders.entries.same i) ∙ f) (sym (orders.entries.same j) ∙ g) in
      (
        insert t.batch.id put.0 b,
        put.1,
        sym (ap (λ x. x.1.1) now),
        λ h. rw (present-entered order e put.1 h (put.4 h)) (
            occurrences-accepted_in order e rs h orders.entries.once apart (λ i x f clear.
              no_replay e (lookup i t.batch.entries) x (contains t.batch.replay_set i)
                (sym (orders.entries.same i) ∙ f)
                (sym (put.3 i) ∙ ap (λ r. contains r i) same ∙ clear))),
      )

  -- In any sequence of calls on a log that runs, of ProcessOnionPacket of any routers and of Commit
  -- of transactions that are not committed, with well-formed batches that the log has not stored,
  -- the log keeps running, and for every prefix: the number of packets with it that were accepted,
  -- and one more if the log had it before, is at most one, and nought if the log does not have it
  -- afterwards. So no packet is accepted twice, whether by ProcessOnionPacket or in a transaction.
  pub accepted_once :
      (b : GoMap Bytes ReplaySet) (e : GoMap Bytes ℕ) {s u : MemoryReplayLog}
      {accepted : List Bytes}
      → s ≡ running b e
      → Run s accepted u
      → (b1 : GoMap Bytes ReplaySet) × (e1 : GoMap Bytes ℕ) × (u ≡ running b1 e1)
        × ((h : Bytes) → occurrences h accepted + present h e ≤ present h e1)
  unfolding occurrences
  accepted_once b e start rests = (b, e, start, λ h. omega arith)
  accepted_once b e start (processes {s} {s1} r i m got run) =
      let hash = prefix c r i.packet.ephemeral_key in
      let here = one-present (reconstruct_onion_packet c r i.packet i.assoc_data) hash i.cltv b e in
      let now : receive c memory_replay_log (reconstruct_onion_packet c r i.packet i.assoc_data)
            hash i.cltv (running b e)
          ≡ (m, s1) =
        sym (process-receive c r i (running b e)) ∙ rw start at got in
      let rest = accepted_once b here.0 (sym (ap (λ x. x.1) now) ∙ here.1) run in
      (
        rest.0,
        rest.1,
        rest.2,
        λ h. omega (
          arith,
          occurrences-append h (accepted_one m hash) _,
          rest.3 h,
          subst (λ x. occurrences h (accepted_one x hash) + present h e ≤ present h here.0)
              (ap (λ x. x.0) now) (here.2 h),
        ),
      )
  accepted_once b e start
        (commits {s} {s1} b2 e2 t t1 order replay_order packets rs pending v at new orders done
          run) =
      let same : running b e ≡ running b2 e2 = sym start ∙ at in
      let entries : e ≡ e2 = cc (ap (λ (x : MemoryReplayLog). x.entries) same) in
      let here =
        commit-present b2 e2 t t1 order replay_order packets rs s1 pending v new orders
          (rw at at done) in
      let rest = accepted_once here.0 here.1 here.2 run in
      (
        rest.0,
        rest.1,
        rest.2,
        λ h.
            rw entries
              (omega (arith, occurrences-append h (accepted_in rs order) _, rest.3 h, here.3 h)),
      )
