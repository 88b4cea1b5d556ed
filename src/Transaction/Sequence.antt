-- ===== src/Transaction/Sequence.antt =====
-- Packets that are added to a `Tx` of sphinx.go one after another, and the same packets given to
-- the router one by one: what the calls come to.
use lightning_onion.Prelude.{
  ℕ, suc, Bool, true, false, ◌≡◌, refl, inl, inr, Bool-cases, Option, none, some, List, [], ◌∷◌,
  Result, ok, err, panics, replayed_packet, get_elem?, Bytes, if◌then◌else◌,
}
use lightning_onion.Crypto.{Primitives}
use lightning_onion.Process.{ProcessedPacket}
use lightning_onion.GoMap.{GoMap, bytes_key, has_key}
use lightning_onion.Replays.{ReplaySet}
use lightning_onion.ReplayLog.{MemoryReplayLog, memory_replay_log}
use lightning_onion.ReplayLog.Memory.{running, put_running}
use lightning_onion.ReplayLog.Entries
use lightning_onion.Router.{Router, generate_shared_secret, reconstruct_onion_packet, process}
use lightning_onion.Router.Guard.{prefix, Incoming, receive}
use lightning_onion.Router.Replay.{receive_memory}
use lightning_onion.Transaction.{Tx, process_onion_packet_tx}
use lightning_onion.Transaction.Commit.{enter}

module _ (c : Primitives) where
  -- The packets are added at the numbers from `seq_num` on: what the calls return, and the
  -- transaction afterwards.
  unfoldable pub add_all : Router c → ℕ → List (Incoming c) → Tx c → List (Result (Unit {0})) × Tx c
  add_all r seq_num [] t = ([], t)
  add_all r seq_num (i ∷ is) t =
      let first = process_onion_packet_tx c r seq_num i.packet i.assoc_data i.cltv t in
      let rest = add_all r (suc seq_num) is first.1 in (first.0 ∷ rest.0, rest.1)

  -- What the router returns for each packet, and the log afterwards.
  unfoldable pub receive_list :
      Router c
      → List (Incoming c)
      → MemoryReplayLog
      → List (Result (ProcessedPacket c)) × MemoryReplayLog
  receive_list r [] s = ([], s)
  receive_list r (i ∷ is) s =
      let first = receive_memory c r i.packet i.assoc_data i.cltv s in
      let rest = receive_list r is first.1 in (first.0 ∷ rest.0, rest.1)

  -- What a caller learns from a transaction about one packet: from the call that added it, the
  -- packet at its number, and whether its number is in the replay set.
  abbrev pub verdict :
      Result (Unit {0}) → Option (ProcessedPacket c) → Bool → Result (ProcessedPacket c)
  verdict (ok u) (some packet) true = err replayed_packet
  verdict (ok u) (some packet) false = ok packet
  verdict (ok u) none replayed = panics
  verdict (err e) packet replayed = err e
  verdict panics packet replayed = panics

  -- The same for packets at the numbers from `seq_num` on.
  unfoldable pub verdicts :
      ℕ
      → List (Result (Unit {0}))
      → List (ProcessedPacket c)
      → (ℕ → Bool)
      → List (Result (ProcessedPacket c))
  verdicts seq_num [] packets replayed = []
  verdicts seq_num (r ∷ rs) packets replayed =
      verdict r (get_elem? packets seq_num) (replayed seq_num)
      ∷ verdicts (suc seq_num) rs packets replayed

  -- A call processes the packet as ReconstructOnionPacket does, and enters the outcome.
  pub process_onion_packet_tx-enter :
      (r : Router c) (seq_num : ℕ) (i : Incoming c) (t : Tx c)
      → process_onion_packet_tx c r seq_num i.packet i.assoc_data i.cltv t
        ≡ enter c
            (reconstruct_onion_packet c r i.packet i.assoc_data)
            seq_num
            (prefix c r i.packet.ephemeral_key)
            i.cltv
            t
  unfolding process_onion_packet_tx generate_shared_secret reconstruct_onion_packet
  process_onion_packet_tx-enter r seq_num i t =
      elim (Bool-cases (c.is_on_curve i.packet.ephemeral_key)) [
        | inl on ↦ rw on refl
        | inr off ↦ rw off refl
      ]

  pub process-receive :
      (r : Router c) (i : Incoming c) (s : MemoryReplayLog)
      → receive_memory c r i.packet i.assoc_data i.cltv s
        ≡ receive c memory_replay_log
            (reconstruct_onion_packet c r i.packet i.assoc_data)
            (prefix c r i.packet.ephemeral_key)
            i.cltv
            s
  unfolding process generate_shared_secret reconstruct_onion_packet
  process-receive r i s = elim (Bool-cases (c.is_on_curve i.packet.ephemeral_key)) [
    | inl on ↦ rw on refl
    | inr off ↦ rw off refl
  ]

  -- A packet that could be processed, and a log that runs.
  pub receive-running :
      (p : ProcessedPacket c) (hash : Bytes) (cltv : ℕ) (b : GoMap Bytes ReplaySet)
      (e : GoMap Bytes ℕ)
      → receive c memory_replay_log (ok p) hash cltv (running b e) ≡ (
        if has_key hash e then err replayed_packet else ok p,
        running b (Entries.enter (record { hash_prefix = hash; cltv = cltv }) e),
      )
  receive-running p hash cltv b e = elim (Bool-cases (has_key hash e)) [
    | inl old ↦ rw (put_running b e hash cltv, old) refl
    | inr new ↦ rw (put_running b e hash cltv, new) refl
  ]
