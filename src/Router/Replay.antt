-- ===== src/Router/Replay.antt =====
-- `ProcessOnionPacket` of sphinx.go with the log in memory.
use lightning_onion.Prelude.{
  ℕ, true, ◌≡◌, ◌≢◌, refl, ◌∙◌, Bytes, List, Result, ok, err, panics, log_entry_not_found,
  invalid_onion_hmac, invalid_onion_key, Bool-cases, inl, inr, if◌then◌else◌, ◌++◌, bytes_eq_refl,
  none, Option,
}
use lightning_onion.Prelude.Io.{Io}
use lightning_onion.Crypto.{Primitives}
use lightning_onion.Crypto
use lightning_onion.Packet.{OnionPacket}
use lightning_onion.Process.{ProcessedPacket, process_onion_packet}
use lightning_onion.ReplayLog.{MemoryReplayLog, memory_replay_log, put, get, or_not_found}
use lightning_onion.ReplayLog.Memory.{Knows, put_of_missing, running}
use lightning_onion.GoMap.Laws.{lookup-insert}
use lightning_onion.Process.Unwrap.{unwrap_packet_bad_mac}
use lightning_onion.Crypto.{mu, calc_mac, generate_key}
use lightning_onion.GoMap.{GoMap, insert, bytes_key}
use lightning_onion.Replays.{ReplaySet}
use lightning_onion.Router.{Router, generate_shared_secret, reconstruct_onion_packet, process}
use lightning_onion.ReplayLog.Contract.{memory_laws}
use lightning_onion.Router.Guard.{
  prefix, Incoming, receive, process_cases, process_on_curve, process_all, process_replayed,
  HasEntry-process_all, refused_again, refused_unchanged,
}

module _ (c : Primitives) where
  abbrev pub receive_memory :
      Router c → OnionPacket c → Bytes → ℕ → Io MemoryReplayLog (ProcessedPacket c)
  receive_memory = process c memory_replay_log

  -- The log after the router has processed the packets one after another.
  abbrev pub receive_all : Router c → List (Incoming c) → MemoryReplayLog → MemoryReplayLog
  receive_all = process_all c memory_replay_log

  -- A packet whose prefix the log knows is never accepted, and leaves the log as it is.
  pub process_known :
      (r : Router c) (pkt : OnionPacket c) (assoc_data : Bytes) (cltv : ℕ) (s : MemoryReplayLog)
      → Knows s (prefix c r pkt.ephemeral_key)
      → ((p : ProcessedPacket c) → (receive_memory r pkt assoc_data cltv s).0 ≢ ok p)
        × ((receive_memory r pkt assoc_data cltv s).1 ≡ s)
  process_known = process_replayed c memory_replay_log memory_laws

  pub Knows-receive_all :
      (r : Router c) (is : List (Incoming c)) (s : MemoryReplayLog) (h : Bytes)
      → Knows s h
      → Knows (receive_all r is s) h
  Knows-receive_all = HasEntry-process_all c memory_replay_log memory_laws

  -- Once a router with the log in memory has accepted a packet, and has then processed any
  -- further packets, it accepts no packet with the same ephemeral key, whatever else the packet
  -- and the call hold, and leaves the log as it is.
  pub no_second_acceptance :
      (r : Router c) (pkt again : OnionPacket c) (assoc_data assoc_data2 : Bytes) (cltv cltv2 : ℕ)
      (between : List (Incoming c)) (s t : MemoryReplayLog) (p : ProcessedPacket c)
      → receive_memory r pkt assoc_data cltv s ≡ (ok p, t)
      → again.ephemeral_key ≡ pkt.ephemeral_key
      → ((q : ProcessedPacket c)
          → (receive_memory r again assoc_data2 cltv2 (receive_all r between t)).0 ≢ ok q)
        × ((receive_memory r again assoc_data2 cltv2 (receive_all r between t)).1
            ≡ receive_all r between t)
  no_second_acceptance = refused_again c memory_replay_log memory_laws

  -- Whenever a packet is not accepted, for whatever reason, the log stays as it was.
  pub rejected_unchanged :
      (r : Router c) (pkt : OnionPacket c) (assoc_data : Bytes) (cltv : ℕ) (s : MemoryReplayLog)
      → ((p : ProcessedPacket c) → (receive_memory r pkt assoc_data cltv s).0 ≢ ok p)
      → (receive_memory r pkt assoc_data cltv s).1 ≡ s
  rejected_unchanged = refused_unchanged c memory_replay_log memory_laws

  -- A packet that does not bear the MAC of its header and the associated data, under the key of
  -- this router, is refused and leaves the log as it is: with ErrInvalidOnionHMAC if its ephemeral
  -- key lies on the curve, and with ErrInvalidOnionKey if it does not.
  pub tampered_packet :
      (r : Router c) (pkt : OnionPacket c) (assoc_data : Bytes) (cltv : ℕ) (s : MemoryReplayLog)
      → let secret = Crypto.generate_shared_secret c pkt.ephemeral_key r.onion_key in
        pkt.header_mac ≢ calc_mac c (generate_key c mu secret) (pkt.routing_info ++ assoc_data)
        → receive_memory r pkt assoc_data cltv s ≡ (
          err (if c.is_on_curve pkt.ephemeral_key then invalid_onion_hmac else invalid_onion_key),
          s,
        )
  unfolding process generate_shared_secret process_onion_packet
  tampered_packet r pkt assoc_data cltv s ne =
      let secret = Crypto.generate_shared_secret c pkt.ephemeral_key r.onion_key in
      elim (Bool-cases (c.is_on_curve pkt.ephemeral_key)) [
        | inl on ↦ rw (on, unwrap_packet_bad_mac c pkt secret assoc_data ne) refl
        | inr off ↦ rw off refl
      ]

  -- A packet that the router can process is accepted by a log that runs and has no entry for it,
  -- with the result of ReconstructOnionPacket, and the log has an entry with the packet's CLTV
  -- afterwards.
  pub first_acceptance :
      (r : Router c) (pkt : OnionPacket c) (assoc_data : Bytes) (cltv : ℕ) (p : ProcessedPacket c)
      (batches : GoMap Bytes ReplaySet) (entries : GoMap Bytes ℕ)
      → c.is_on_curve pkt.ephemeral_key ≡ true
      → reconstruct_onion_packet c r pkt assoc_data ≡ ok p
      → let hash = prefix c r pkt.ephemeral_key in
        let s = running batches entries in
        (get hash s).0 ≡ err log_entry_not_found
        → (t : MemoryReplayLog) × (receive_memory r pkt assoc_data cltv s ≡ (ok p, t))
          × (get hash t ≡ (ok cltv, t))
  unfolding get or_not_found
  first_acceptance r pkt assoc_data cltv p batches entries on e new =
      let hash = prefix c r pkt.ephemeral_key in
      let s = running batches entries in
      (
        running batches (insert hash cltv entries),
        process_on_curve c memory_replay_log r pkt assoc_data cltv s on
            ∙ rw (e, put_of_missing batches entries hash cltv new) refl,
        rw (lookup-insert hash hash cltv entries, bytes_eq_refl hash) refl,
      )

  never_put :
      (m : Result (ProcessedPacket c)) (hash : Bytes) (cltv : ℕ)
      (batches : Option (GoMap Bytes ReplaySet)) (p : ProcessedPacket c)
      → (receive c memory_replay_log m hash cltv (record { batches = batches; entries = none })).0
        ≢ ok p
  unfolding put
  never_put (ok q) hash cltv batches p e = cc e
  never_put (err x) hash cltv batches p e = cc e
  never_put panics hash cltv batches p e = cc e

  -- A router whose log in memory was never started, or was stopped, accepts no packet at all.
  pub no_acceptance_unstarted :
      (r : Router c) (pkt : OnionPacket c) (assoc_data : Bytes) (cltv : ℕ)
      (batches : Option (GoMap Bytes ReplaySet)) (p : ProcessedPacket c)
      → (receive_memory r pkt assoc_data cltv (record { batches = batches; entries = none })).0
        ≢ ok p
  no_acceptance_unstarted r pkt assoc_data cltv batches p =
      process_cases c memory_replay_log (λ x. x.0 ≢ ok p) r pkt assoc_data cltv
        (record { batches = batches; entries = none }) (λ e. cc e)
        (λ m. never_put m (prefix c r pkt.ephemeral_key) cltv batches p)
