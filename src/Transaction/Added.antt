-- ===== src/Transaction/Added.antt =====
-- `ProcessOnionPacket` of a transaction in sphinx.go that is not committed.
use lightning_onion.Prelude.{
  ℕ, true, false, ◌≡◌, ◌<◌, ◌||◌, refl, ◌∙◌, inl, inr, Bool-cases, Bytes, some, length, set,
  get_elem?, get_elem?-set_self, ok, ltb_of_lt, if◌then◌else◌, ◌==◌, ==_iff,
}
use lightning_onion.Crypto.{Primitives}
use lightning_onion.Crypto
use lightning_onion.GoMap.{nat_eq, bytes_key, lookup, insert, has_key}
use lightning_onion.GoMap.Laws.{lookup-insert, has_key-insert}
use lightning_onion.Packet.{OnionPacket}
use lightning_onion.Process.{ProcessedPacket, process_onion_packet}
use lightning_onion.Replays.{contains, add}
use lightning_onion.Batch.{Batch, BatchEntry}
use lightning_onion.Batch
use lightning_onion.Router.{Router, generate_shared_secret, reconstruct_onion_packet}
use lightning_onion.Router.Guard.{prefix}
use lightning_onion.Router.Journey.{on_curve_of_ok}
use lightning_onion.Transaction.{Tx, put_in_batch, set_packet, process_onion_packet_tx}

-- What a Put leaves in a batch that is not committed.
pub record IsPut (seq_num : ℕ) (hash_prefix : Bytes) (cltv : ℕ) (b done : Batch) : Type 0 where
  pub marked :
      contains done.replay_set seq_num
      ≡ (has_key hash_prefix b.replay_cache || contains b.replay_set seq_num)
  pub entry : lookup seq_num done.entries ≡ (
      if has_key hash_prefix b.replay_cache
      then lookup seq_num b.entries
      else some (record { hash_prefix = hash_prefix; cltv = cltv }))

put_pending :
    (seq_num : ℕ) (hash_prefix : Bytes) (cltv : ℕ) (b : Batch)
    → b.is_committed ≡ false
    → (done : Batch) × (Batch.put seq_num hash_prefix cltv b ≡ (ok tt, done))
      × IsPut seq_num hash_prefix cltv b done
unfolding Batch.put contains add
put_pending seq_num hash_prefix cltv b pending =
    let self : (seq_num == seq_num) ≡ true = (==_iff seq_num seq_num).1 refl in
    elim (Bool-cases (has_key hash_prefix b.replay_cache)) [
      | inl known ↦ (
        record b { replay_set = add b.replay_set seq_num },
        rw (pending, known) refl,
        record {
          marked = has_key-insert seq_num seq_num tt b.replay_set ∙ rw (self, known) refl;
          entry = rw known refl;
        },
      )
      | inr new ↦ (
        record b {
          entries = insert seq_num (record { hash_prefix = hash_prefix; cltv = cltv }) b.entries;
          replay_cache = insert hash_prefix tt b.replay_cache;
        },
        rw (pending, new) refl,
        record {
          marked = rw new refl;
          entry = lookup-insert seq_num seq_num _ b.entries ∙ rw (self, new) refl;
        },
      )
    ]

module _ (c : Primitives) where
  -- A packet that the router can process is added to a transaction that is not committed, at a
  -- number for which it has room: the packet is there with the result of ReconstructOnionPacket;
  -- its number is in the replay set exactly if it was before, or if a packet with the same prefix
  -- was added before; and otherwise the batch has an entry with the prefix and the packet's CLTV.
  pub process_onion_packet_tx_lem :
      (r : Router c) (seq_num : ℕ) (pkt : OnionPacket c) (assoc_data : Bytes) (cltv : ℕ) (t : Tx c)
      (p : ProcessedPacket c)
      → t.batch.is_committed ≡ false
      → seq_num < length t.packets
      → reconstruct_onion_packet c r pkt assoc_data ≡ ok p
      → (done : Tx c) × (process_onion_packet_tx c r seq_num pkt assoc_data cltv t ≡ (ok tt, done))
        × (get_elem? done.packets seq_num ≡ some p)
        × IsPut seq_num (prefix c r pkt.ephemeral_key) cltv t.batch done.batch
  unfolding process_onion_packet_tx generate_shared_secret reconstruct_onion_packet put_in_batch
      set_packet
  process_onion_packet_tx_lem r seq_num pkt assoc_data cltv t p pending room e =
      let on = on_curve_of_ok c r pkt assoc_data p e in
      let secret = Crypto.generate_shared_secret c pkt.ephemeral_key r.onion_key in
      let unwrapped : process_onion_packet c pkt secret assoc_data ≡ ok p = rw on at e in
      let stored = put_pending seq_num (prefix c r pkt.ephemeral_key) cltv t.batch pending in
      (
        record { batch = stored.0; packets = set t.packets seq_num p },
        rw (on, unwrapped, stored.1, ltb_of_lt seq_num (length t.packets) room) refl,
        get_elem?-set_self t.packets seq_num p room,
        stored.2,
      )
