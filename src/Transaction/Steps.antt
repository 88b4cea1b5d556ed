-- ===== src/Transaction/Steps.antt =====
-- `Tx.ProcessOnionPacket` and `Router.ProcessOnionPacket` of sphinx.go: a transaction beside a log,
-- step by step.
use lightning_onion.Prelude.{
  ℕ, suc, ◌+◌, ◌≤◌, ◌<◌, ◌≡◌, ◌≢◌, refl, ap₂, ◌∙◌, inl, inr, arith, Bool, true, false, Bool-cases,
  some, List, [], ◌∷◌, Bytes, Result, ok, err, panics, length, set, get_elem?, get_elem?-set_self,
  get_elem?-set_other, ltb_of_lt, replayed_packet, if◌then◌else◌,
}
use mathlib.Core.Path.{subst}
use lightning_onion.Crypto.{Primitives}
use lightning_onion.Process.{ProcessedPacket}
use lightning_onion.GoMap.{GoMap, bytes_key, has_key}
use lightning_onion.Replays.{ReplaySet}
use lightning_onion.Batch.{Batch, BatchEntry}
use lightning_onion.Batch
use lightning_onion.ReplayLog.{MemoryReplayLog, memory_replay_log}
use lightning_onion.ReplayLog.Memory.{running}
use lightning_onion.ReplayLog.Entries
use lightning_onion.Router.{Router, reconstruct_onion_packet}
use lightning_onion.Router.Guard.{prefix, Incoming, receive}
use lightning_onion.Router.Replay.{receive_memory}
use lightning_onion.Transaction.{Tx, put_in_batch, set_packet, process_onion_packet_tx}
use lightning_onion.Transaction.Commit.{enter}
use lightning_onion.Transaction.Batches.{IsTx, enter-IsTx}
use lightning_onion.Transaction.Sequence.{
  add_all, receive_list, verdict, verdicts, process_onion_packet_tx-enter, process-receive,
  receive-running,
}
use lightning_onion.Transaction.Progress.{
  Abreast, Frame, replayed_at, Abreast-suc, with_mark, with_entry, with_mark-Frame,
  with_entry-Frame, with_mark-Abreast, with_entry-Abreast, with_mark-replayed, with_entry-replayed,
}

module _ (c : Primitives) where
  -- A transaction with packets at numbers below `seq_num`, beside the log before its packets and
  -- the log that has been given them.
  pub record Beside (id : Bytes) (nels : ℕ) (e : GoMap Bytes ℕ) (seq_num : ℕ) (t : Tx c)
      (now : GoMap Bytes ℕ) : Type 0 where
    pub abreast : Abreast e seq_num t.batch now
    pub named : t.batch.id ≡ id
    pub is_tx : IsTx c nels t

  -- What stays as it is at the numbers but one.
  record TxFrame (seq_num : ℕ) (t done : Tx c) : Type 0 where
    in_batch : Frame seq_num t.batch done.batch
    same_packet : (j : ℕ) → j ≢ seq_num → get_elem? done.packets j ≡ get_elem? t.packets j

  -- What one packet at `seq_num` leaves behind, and what is learned about it.
  record Step (id : Bytes) (nels : ℕ) (e : GoMap Bytes ℕ) (b : GoMap Bytes ReplaySet) (seq_num : ℕ)
      (t : Tx c) (added : Result (Unit {0}) × Tx c)
      (got : Result (ProcessedPacket c) × MemoryReplayLog) : Type 0 where
    after : GoMap Bytes ℕ
    logged : got.1 ≡ running b after
    beside : Beside id nels e (suc seq_num) added.1 after
    frame : TxFrame seq_num t added.1
    agree :
        got.0
        ≡ verdict c added.0
            (get_elem? added.1.packets seq_num)
            (replayed_at e added.1.batch seq_num)

  module _ (id : Bytes) (nels : ℕ) (e : GoMap Bytes ℕ) (b : GoMap Bytes ReplaySet) (seq_num : ℕ)
      (t : Tx c) (now : GoMap Bytes ℕ) (v : Beside id nels e seq_num t now) (room : seq_num < nels)
      (hash : Bytes) (cltv : ℕ) where
    -- A packet that failed.
    failed :
        (r : Result (Unit {0})) (m : Result (ProcessedPacket c))
        → m ≡ verdict c r (get_elem? t.packets seq_num) (replayed_at e t.batch seq_num)
        → Step id nels e b seq_num t (r, t) (m, running b now)
    failed r m same = record {
      after = now;
      logged = refl;
      beside = record {
        abreast = Abreast-suc e now seq_num t.batch v.abreast;
        named = v.named;
        is_tx = v.is_tx;
      };
      frame = record {
        in_batch = record { same_entry = λ j ne. refl; same_mark = λ j ne. refl };
        same_packet = λ j ne. refl;
      };
      agree = same;
    }

    verdict_ok :
        (p : ProcessedPacket c) (k : Bool)
        → (if k then err replayed_packet else ok p) ≡ verdict c (ok tt) (some p) k
    verdict_ok p true = refl
    verdict_ok p false = refl

    -- A packet that was processed, whose batch is afterwards `d`.
    stored :
        (p : ProcessedPacket c) (d : Batch)
        → Batch.put seq_num hash cltv t.batch ≡ (ok tt, d)
        → d.id ≡ t.batch.id
        → Frame seq_num t.batch d
        → replayed_at e d seq_num ≡ has_key hash now
        → let x : BatchEntry = record { hash_prefix = hash; cltv = cltv } in
          Abreast e (suc seq_num) d (Entries.enter x now)
          → Step id nels e b seq_num t
              (enter c (ok p) seq_num hash cltv t)
              (receive c memory_replay_log (ok p) hash cltv (running b now))
    unfolding put_in_batch set_packet
    stored p d put named frame replayed abreast =
        let inside : seq_num < length t.packets = omega (arith, v.is_tx.room) in
        let entered : enter c (ok p) seq_num hash cltv t
            ≡ (ok tt, record { batch = d; packets = set t.packets seq_num p }) =
          rw (put, ltb_of_lt seq_num (length t.packets) inside) refl in
        let is_tx = enter-IsTx c (ok p) nels seq_num hash cltv t v.is_tx in
        rw (entered, receive-running c p hash cltv b now)
          (record {
            after = Entries.enter (record { hash_prefix = hash; cltv = cltv }) now;
            logged = refl;
            beside = record {
              abreast = abreast;
              named = named ∙ v.named;
              is_tx = rw entered at is_tx;
            };
            frame = record {
              in_batch = frame;
              same_packet = λ j ne. get_elem?-set_other t.packets seq_num j p ne;
            };
            agree =
                rw (get_elem?-set_self t.packets seq_num p inside, replayed)
                  (verdict_ok p (has_key hash now));
          })

    -- Whatever becomes of the packet.
    step :
        (m : Result (ProcessedPacket c))
        → Step id nels e b seq_num t
            (enter c m seq_num hash cltv t)
            (receive c memory_replay_log m hash cltv (running b now))
    unfolding Batch.put
    step (err x) = failed (err x) (err x) refl
    step panics = failed panics panics refl
    step (ok p) = elim (Bool-cases (has_key hash t.batch.replay_cache)) [
      | inl cached ↦
          stored p (with_mark e now seq_num hash cltv t.batch) (rw (v.abreast.pending, cached) refl)
            refl (with_mark-Frame e now seq_num hash cltv t.batch)
            (with_mark-replayed e now seq_num hash cltv t.batch v.abreast cached)
            (with_mark-Abreast e now seq_num hash cltv t.batch v.abreast cached)
      | inr new ↦
          stored p (with_entry e now seq_num hash cltv t.batch) (rw (v.abreast.pending, new) refl)
            refl (with_entry-Frame e now seq_num hash cltv t.batch)
            (with_entry-replayed e now seq_num hash cltv t.batch v.abreast new)
            (with_entry-Abreast e now seq_num hash cltv t.batch v.abreast new)
    ]

  module _ (id : Bytes) (nels : ℕ) (e : GoMap Bytes ℕ) (b : GoMap Bytes ReplaySet)
      (r : Router c) where
    -- What is learned about a number, in two transactions.
    abbrev SameAt : ℕ → Tx c → Tx c → Type 0
    SameAt j t done =
        (get_elem? done.packets j ≡ get_elem? t.packets j)
        × (replayed_at e done.batch j ≡ replayed_at e t.batch j)

    at_other :
        (seq_num : ℕ) (t done : Tx c)
        → TxFrame seq_num t done
        → (j : ℕ) → j ≢ seq_num
        → SameAt j t done
    at_other seq_num t done f j ne =
        (f.same_packet j ne, rw (f.in_batch.same_entry j ne, f.in_batch.same_mark j ne) refl)

    -- What the packets from `seq_num` on leave behind, and what is learned about them.
    pub record Steps (seq_num : ℕ) (is : List (Incoming c)) (t : Tx c) (now : GoMap Bytes ℕ)
        : Type 0 where
      pub after : GoMap Bytes ℕ
      pub logged : (receive_list c r is (running b now)).1 ≡ running b after
      pub beside : Beside id nels e (seq_num + length is) (add_all c r seq_num is t).1 after
      before : (j : ℕ) → j < seq_num → SameAt j t (add_all c r seq_num is t).1
      pub agree :
          (receive_list c r is (running b now)).0
          ≡ verdicts c seq_num
              (add_all c r seq_num is t).0
              (add_all c r seq_num is t).1.packets
              (replayed_at e (add_all c r seq_num is t).1.batch)

    first-Step :
        (seq_num : ℕ) (i : Incoming c) (t : Tx c) (now : GoMap Bytes ℕ)
        → Beside id nels e seq_num t now
        → seq_num < nels
        → Step id nels e b seq_num t
            (process_onion_packet_tx c r seq_num i.packet i.assoc_data i.cltv t)
            (receive_memory c r i.packet i.assoc_data i.cltv (running b now))
    first-Step seq_num i t now v room =
        rw (process_onion_packet_tx-enter c r seq_num i t, process-receive c r i (running b now))
          (step id nels e b seq_num t now v room (prefix c r i.packet.ephemeral_key) i.cltv
            (reconstruct_onion_packet c r i.packet i.assoc_data))

    pub steps :
        (seq_num : ℕ) (is : List (Incoming c)) (t : Tx c) (now : GoMap Bytes ℕ)
        → Beside id nels e seq_num t now
        → seq_num + length is ≤ nels
        → Steps seq_num is t now
    unfolding add_all receive_list verdicts
    steps seq_num [] t now v room = record {
      after = now;
      logged = refl;
      beside = subst (λ n. Beside id nels e n t now) (omega arith) v;
      before = λ j h. (refl, refl);
      agree = refl;
    }
    steps seq_num (i ∷ is) t now v room =
        let first = first-Step seq_num i t now v (omega arith) in
        let t1 = (process_onion_packet_tx c r seq_num i.packet i.assoc_data i.cltv t).1 in
        let rest = steps (suc seq_num) is t1 first.after first.beside (omega arith) in
        let here = rest.before seq_num (omega arith) in
        record {
          after = rest.after;
          logged = rw first.logged rest.logged;
          beside =
              subst (λ n. Beside id nels e n (add_all c r seq_num (i ∷ is) t).1 rest.after)
                (omega arith) rest.beside;
          before = λ j h.
              let later = rest.before j (omega arith) in
              let now = at_other seq_num t t1 first.frame j (λ s. omega arith) in
              (later.0 ∙ now.0, later.1 ∙ now.1);
          agree = rw (first.logged, here.0, here.1) (ap₂ (λ x xs. x ∷ xs) first.agree rest.agree);
        }
