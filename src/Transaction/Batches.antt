-- ===== src/Transaction/Batches.antt =====
-- What a transaction keeps while packets are added to it.
use lightning_onion.Prelude.{
  ℕ, Bytes, ◌≡◌, ◌∙◌, inl, inr, Bool-cases, length, length-set, length-replicate, Result, ok, err,
  panics, ltb,
}
use lightning_onion.Prelude.Io.{Io, continue}
use lightning_onion.Crypto.{Primitives}
use lightning_onion.Crypto
use lightning_onion.Packet.{OnionPacket}
use lightning_onion.Process.{ProcessedPacket, process_onion_packet}
use lightning_onion.Batch.Invariant.{IsBatch, put-IsBatch, new_batch-IsBatch}
use lightning_onion.ReplayLog.{hash_shared_secret}
use lightning_onion.Router.{Router, generate_shared_secret}
use lightning_onion.Transaction.{
  Tx, begin_txn, put_in_batch, set_packet, process_onion_packet_tx, zero_packet,
}
use lightning_onion.Transaction.Commit.{enter}

module _ (c : Primitives) where
  -- A transaction for at most `nels` packets, whose batch is well-formed.
  pub record IsTx (nels : ℕ) (t : Tx c) : Type 0 where
    pub is_batch : IsBatch t.batch
    pub room : length t.packets ≡ nels

  pub begin_txn-IsTx : (id : Bytes) (nels : ℕ) → IsTx nels (begin_txn c id nels)
  unfolding begin_txn
  begin_txn-IsTx id nels = record {
    is_batch = new_batch-IsBatch id;
    room = length-replicate nels (zero_packet c);
  }

  put_in_batch-IsTx :
      (nels seq_num : ℕ) (hash_prefix : Bytes) (cltv : ℕ) (t : Tx c)
      → IsTx nels t
      → IsTx nels (put_in_batch c seq_num hash_prefix cltv t).1
  unfolding put_in_batch
  put_in_batch-IsTx nels seq_num hash_prefix cltv t v = record {
    is_batch = put-IsBatch seq_num hash_prefix cltv t.batch v.is_batch;
    room = v.room;
  }

  set_packet-IsTx :
      (nels seq_num : ℕ) (packet : ProcessedPacket c) (t : Tx c)
      → IsTx nels t
      → IsTx nels (set_packet c seq_num packet t).1
  unfolding set_packet
  set_packet-IsTx nels seq_num packet t v = elim (Bool-cases (ltb seq_num (length t.packets))) [
    | inl inside ↦
        rw inside
          (record { is_batch = v.is_batch; room = length-set t.packets seq_num packet ∙ v.room })
    | inr outside ↦ rw outside v
  ]

  continue-IsTx :
      (nels : ℕ) (r : Result (Unit {0})) (f : Unit {0} → Io (Tx c) (Unit {0})) (t : Tx c)
      → ((u : Unit {0}) → IsTx nels (f u t).1)
      → IsTx nels t
      → IsTx nels (continue r f t).1
  continue-IsTx nels (ok u) f t g v = g u
  continue-IsTx nels (err e) f t g v = v
  continue-IsTx nels panics f t g v = v

  pub enter-IsTx :
      (m : Result (ProcessedPacket c)) (nels seq_num : ℕ) (hash_prefix : Bytes) (cltv : ℕ)
      (t : Tx c)
      → IsTx nels t
      → IsTx nels (enter c m seq_num hash_prefix cltv t).1
  enter-IsTx (ok q) nels seq_num hash_prefix cltv t v =
      let w = put_in_batch-IsTx nels seq_num hash_prefix cltv t v in
      let done = put_in_batch c seq_num hash_prefix cltv t in
      continue-IsTx nels done.0 (λ _. set_packet c seq_num q) done.1
        (λ _. set_packet-IsTx nels seq_num q done.1 w) w
  enter-IsTx (err x) nels seq_num hash_prefix cltv t v = v
  enter-IsTx panics nels seq_num hash_prefix cltv t v = v

  -- Processing a packet, with success or with any error, keeps a transaction well-formed: no two
  -- entries of its batch have the same prefix, each prefix is in the cache, and there are as many
  -- places for packets as before.
  pub process_onion_packet_tx-IsTx :
      (r : Router c) (nels seq_num : ℕ) (pkt : OnionPacket c) (assoc_data : Bytes) (cltv : ℕ)
      (t : Tx c)
      → IsTx nels t
      → IsTx nels (process_onion_packet_tx c r seq_num pkt assoc_data cltv t).1
  unfolding process_onion_packet_tx generate_shared_secret
  process_onion_packet_tx-IsTx r nels seq_num pkt assoc_data cltv t v =
      let secret = Crypto.generate_shared_secret c pkt.ephemeral_key r.onion_key in
      elim (Bool-cases (c.is_on_curve pkt.ephemeral_key)) [
        | inl on ↦ rw on (
            enter-IsTx (process_onion_packet c pkt secret assoc_data) nels seq_num
              (hash_shared_secret c secret) cltv t v)
        | inr off ↦ rw off v
      ]
