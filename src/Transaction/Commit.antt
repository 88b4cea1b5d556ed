-- ===== src/Transaction/Commit.antt =====
-- `Tx` of sphinx.go with the log in memory: `Commit`, and what is done after it.
use lightning_onion.Prelude.{
  ℕ, Bytes, List, ◌≡◌, ◌≢◌, refl, sym, ap, ap₂, if◌then◌else◌, Bool, ◌∙◌, inl, inr, Bool-cases,
  true, false, ok-injective, Result, ok, err, panics, already_committed,
}
use lightning_onion.Prelude.Io.{Io, lift, ◌>>=◌, ◌>>◌}
use lightning_onion.Crypto.{Primitives}
use lightning_onion.Crypto
use lightning_onion.Packet.{OnionPacket}
use lightning_onion.Process.{ProcessedPacket, process_onion_packet}
use lightning_onion.Replays.{ReplaySet}
use lightning_onion.Batch.{Batch, BatchEntry}
use lightning_onion.Batch
use lightning_onion.ReplayLog.{
  MemoryReplayLog, memory_replay_log, put_batch, commit_batch, hash_shared_secret,
}
use lightning_onion.Router.{Router, generate_shared_secret}
use lightning_onion.Transaction.{Tx, put_in_batch, set_packet, process_onion_packet_tx, commit}

commit_batch_ok :
    (batch : Batch) (r : Result ReplaySet) (rl : MemoryReplayLog) (rs : ReplaySet)
    → (commit_batch batch r rl).0 ≡ ok rs
    → ((commit_batch batch r rl).1.1.is_committed ≡ true)
      × ((commit_batch batch r rl).1.1.replay_set ≡ rs)
unfolding commit_batch
commit_batch_ok batch (ok replays) rl rs e = (refl, cc e)
commit_batch_ok batch (err x) rl rs e = absurd (cc e)
commit_batch_ok batch panics rl rs e = absurd (cc e)

-- A PutBatch that succeeds marks the batch as committed, and leaves its result in it.
put_batch_ok :
    (entry_order : List (ℕ × BatchEntry)) (replay_order : List ℕ) (batch : Batch)
    (rl : MemoryReplayLog) (rs : ReplaySet)
    → (put_batch entry_order replay_order batch rl).0 ≡ ok rs
    → ((put_batch entry_order replay_order batch rl).1.1.is_committed ≡ true)
      × ((put_batch entry_order replay_order batch rl).1.1.replay_set ≡ rs)
unfolding put_batch
put_batch_ok entry_order replay_order batch rl rs e = commit_batch_ok batch _ _ rs e

either {ℓ κ} :
    {A : Type ℓ} (P : A → Type κ) (b : Bool) (x y : A)
    → (b ≡ true → P x)
    → P y
    → P (if b then x else y)
either P true x y f g = f refl
either P false x y f g = g

if_of_true {ℓ} : {A : Type ℓ} (b : Bool) (x y : A) → b ≡ true → (if b then x else y) ≡ x
if_of_true true x y e = refl
if_of_true false x y e = absurd (cc e)

if_of_false {ℓ} : {A : Type ℓ} (b : Bool) (x y : A) → b ≡ false → (if b then x else y) ≡ y
if_of_false true x y e = absurd (cc e)
if_of_false false x y e = refl

put_committed :
    (seq_num : ℕ) (hash_prefix : Bytes) (cltv : ℕ) (b : Batch)
    → b.is_committed ≡ true
    → Batch.put seq_num hash_prefix cltv b ≡ (err already_committed, b)
unfolding Batch.put
put_committed seq_num hash_prefix cltv b e = if_of_true b.is_committed _ _ e

module _ (c : Primitives) where
  abbrev pub commit_memory :
      List (ℕ × BatchEntry)
      → List ℕ
      → Tx c
      → MemoryReplayLog
      → (List (ProcessedPacket c) × Result ReplaySet) × (Tx c × MemoryReplayLog)
  commit_memory = commit c memory_replay_log

  commit_committed :
      (entry_order : List (ℕ × BatchEntry)) (replay_order : List ℕ) (t : Tx c) (s : MemoryReplayLog)
      → t.batch.is_committed ≡ true
      → commit_memory entry_order replay_order t s ≡ ((t.packets, ok t.batch.replay_set), (t, s))
  unfolding commit
  commit_committed entry_order replay_order t s e = if_of_true t.batch.is_committed _ _ e

  pub commit_pending :
      (entry_order : List (ℕ × BatchEntry)) (replay_order : List ℕ) (t : Tx c) (s : MemoryReplayLog)
      → t.batch.is_committed ≡ false
      → let done = put_batch entry_order replay_order t.batch s in
        commit_memory entry_order replay_order t s
        ≡ ((t.packets, done.0), (record t { batch = done.1.1 }, done.1.0))
  unfolding commit
  commit_pending entry_order replay_order t s e = if_of_false t.batch.is_committed _ _ e

  commit_ok :
      (entry_order : List (ℕ × BatchEntry)) (replay_order : List ℕ) (t t1 : Tx c)
      (s s1 : MemoryReplayLog) (packets : List (ProcessedPacket c)) (rs : ReplaySet)
      → commit_memory entry_order replay_order t s ≡ ((packets, ok rs), (t1, s1))
      → (t1.batch.is_committed ≡ true) × (t1.batch.replay_set ≡ rs) × (t1.packets ≡ packets)
  unfolding commit
  commit_ok entry_order replay_order t t1 s s1 packets rs =
      let done = put_batch entry_order replay_order t.batch s in
      either
        (λ x.
          x ≡ ((packets, ok rs), (t1, s1))
          → (t1.batch.is_committed ≡ true) × (t1.batch.replay_set ≡ rs) × (t1.packets ≡ packets))
        t.batch.is_committed ((t.packets, ok t.batch.replay_set), (t, s))
        ((t.packets, done.0), (record t { batch = done.1.1 }, done.1.0))
        (λ committed e. (
          ap (λ x. x.1.0.batch.is_committed) (sym e) ∙ committed,
          ap (λ x. x.1.0.batch.replay_set) (sym e) ∙ ok-injective _ rs (ap (λ x. x.0.1) e),
          ap (λ x. x.1.0.packets) (sym e) ∙ ap (λ x. x.0.0) e,
        ))
        (λ e.
          let now = put_batch_ok entry_order replay_order t.batch s rs (ap (λ x. x.0.1) e) in
          (
            ap (λ x. x.1.0.batch.is_committed) (sym e) ∙ now.0,
            ap (λ x. x.1.0.batch.replay_set) (sym e) ∙ now.1,
            ap (λ x. x.1.0.packets) (sym e) ∙ ap (λ x. x.0.0) e,
          ))

  -- After a Commit that succeeded a second one, whatever the orders in which Go ranges over the
  -- maps, returns the same packets and the same replay set, and changes neither the transaction
  -- nor the log.
  pub commit-commit :
      (entry_order entry_order2 : List (ℕ × BatchEntry)) (replay_order replay_order2 : List ℕ)
      (t t1 : Tx c) (s s1 : MemoryReplayLog) (packets : List (ProcessedPacket c)) (rs : ReplaySet)
      → commit_memory entry_order replay_order t s ≡ ((packets, ok rs), (t1, s1))
      → commit_memory entry_order2 replay_order2 t1 s1 ≡ ((packets, ok rs), (t1, s1))
  commit-commit entry_order entry_order2 replay_order replay_order2 t t1 s s1 packets rs e =
      let now = commit_ok entry_order replay_order t t1 s s1 packets rs e in
      commit_committed entry_order2 replay_order2 t1 s1 now.0
      ∙ ap₂ (λ ps r. ((ps, ok r), (t1, s1))) now.2 now.1

  put_in_batch_committed :
      (seq_num : ℕ) (hash_prefix : Bytes) (cltv : ℕ) (t : Tx c)
      → t.batch.is_committed ≡ true
      → put_in_batch c seq_num hash_prefix cltv t ≡ (err already_committed, t)
  unfolding put_in_batch
  put_in_batch_committed seq_num hash_prefix cltv t e =
      ap (λ d. (d.0, record t { batch = d.1 })) (put_committed seq_num hash_prefix cltv t.batch e)

  abbrev pub enter : Result (ProcessedPacket c) → ℕ → Bytes → ℕ → Io (Tx c) (Unit {0})
  enter m seq_num hash_prefix cltv = do
    packet ← lift m
    put_in_batch c seq_num hash_prefix cltv
    set_packet c seq_num packet

  enter_committed :
      (m : Result (ProcessedPacket c)) (seq_num : ℕ) (hash_prefix : Bytes) (cltv : ℕ) (t : Tx c)
      → t.batch.is_committed ≡ true
      → let done = enter m seq_num hash_prefix cltv t in (done.0 ≢ ok tt) × (done.1 ≡ t)
  enter_committed (ok q) seq_num hash_prefix cltv t e =
      rw (put_in_batch_committed seq_num hash_prefix cltv t e) ((λ x. cc x), refl)
  enter_committed (err x) seq_num hash_prefix cltv t e = ((λ x. cc x), refl)
  enter_committed panics seq_num hash_prefix cltv t e = ((λ x. cc x), refl)

  -- No packet is added to a transaction that has been committed: ProcessOnionPacket never
  -- succeeds on it, and leaves it as it is.
  pub committed_rejects :
      (r : Router c) (seq_num : ℕ) (pkt : OnionPacket c) (assoc_data : Bytes) (cltv : ℕ) (t : Tx c)
      → t.batch.is_committed ≡ true
      → let done = process_onion_packet_tx c r seq_num pkt assoc_data cltv t in
        (done.0 ≢ ok tt) × (done.1 ≡ t)
  unfolding process_onion_packet_tx generate_shared_secret
  committed_rejects r seq_num pkt assoc_data cltv t e =
      let secret = Crypto.generate_shared_secret c pkt.ephemeral_key r.onion_key in
      elim (Bool-cases (c.is_on_curve pkt.ephemeral_key)) [
        | inl on ↦ rw on (
            enter_committed (process_onion_packet c pkt secret assoc_data) seq_num
              (hash_shared_secret c secret) cltv t e)
        | inr off ↦ rw off ((λ x. cc x), refl)
      ]
