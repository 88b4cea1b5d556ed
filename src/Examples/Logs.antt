-- ===== src/Examples/Logs.antt =====
-- A router and its log, at a packet for a route of one node.
use lightning_onion.Prelude.{
  get_elem?, some, length-replicate, ℕ, ◌≤◌, ◌+◌, ◌≡◌, ◌≢◌, ◌∙◌, refl, ap, arith, none, ok, err,
  Bytes, [], ◌∷◌, length, invalid_onion_hmac, invalid_onion_key, if◌then◌else◌, log_entry_not_found,
  replicate,
}
use lightning_onion.GoMap.{lookup, bytes_key}
use lightning_onion.Crypto
use lightning_onion.Crypto.{mu, calc_mac, generate_key}
use lightning_onion.Crypto.Keys.{length-calc_mac}
use lightning_onion.Packet.{OnionPacket}
use lightning_onion.Onion.Wrapped.{Leg}
use lightning_onion.Onion.Built.{packet_for}
use lightning_onion.Process.{ProcessedPacket}
use lightning_onion.Process.Legs.{process_last, processed, leftover}
use lightning_onion.ReplayLog.{MemoryReplayLog, start, get, new_memory_replay_log}
use lightning_onion.ReplayLog.Memory.{running}
use lightning_onion.Batch.{new_batch}
use lightning_onion.Router.{Router, new_router, reconstruct_onion_packet}
use lightning_onion.Router.Delivery.{reconstruct_lem}
use lightning_onion.Router.Guard.{prefix}
use lightning_onion.Router.Restart.{accepted_after_start}
use lightning_onion.Router.Replay.{
  receive_memory, receive_all, no_second_acceptance, rejected_unchanged, tampered_packet,
  first_acceptance, no_acceptance_unstarted,
}
use lightning_onion.Transaction.{Tx, begin_txn, zero_packet, process_onion_packet_tx}
use lightning_onion.Transaction.Added.{IsPut, process_onion_packet_tx_lem}
use lightning_onion.Examples.Toy.{toy, toy_laws, on_curve}
use lightning_onion.Examples.Onions.{key_pair, stop as stop_at, hop_to-IsHopData}

abbrev pub router : Router toy
router = new_router toy (key_pair 5)

abbrev leg : Leg toy
leg = record { hop = (stop_at 5 0).hop; secret = Crypto.generate_shared_secret toy 3 (key_pair 5) }

abbrev pub packet : OnionPacket toy
packet = packet_for toy toy_laws [] [] 3 (leg ∷ [])

pub room : length {A = ℕ} [] + 65 ≤ 1300
room = omega arith

abbrev pub outcome : ProcessedPacket toy
outcome = processed toy toy_laws [] [] room 3 leg [] (leftover toy toy_laws [] [] room leg)

pub reconstructed : reconstruct_onion_packet toy router packet [] ≡ ok outcome
reconstructed =
    reconstruct_lem toy (key_pair 5) packet [] (on_curve 3)
    ∙ process_last toy toy_laws [] [] room 3 leg (hop_to-IsHopData 0 (omega arith), tt)

abbrev pub empty_log : MemoryReplayLog
empty_log = running [] []

missing : (hash : Bytes) → (get hash empty_log).0 ≡ err log_entry_not_found
unfolding get lookup
missing hash = refl

first_acceptance_example :
    (t : MemoryReplayLog) × (receive_memory toy router packet [] 40 empty_log ≡ (ok outcome, t))
    × (get (prefix toy router 3) t ≡ (ok 40, t))
first_acceptance_example =
    first_acceptance toy router packet [] 40 outcome [] [] (on_curve 3) reconstructed (missing _)

abbrev logged : MemoryReplayLog
logged =
    (first_acceptance toy router packet [] 40 outcome [] [] (on_curve 3) reconstructed
      (missing _)).0

no_second_acceptance_example :
    ((q : ProcessedPacket toy)
      → (receive_memory toy router packet [] 50 (
          receive_all toy router
            (record { packet = packet; assoc_data = 1 ∷ []; cltv = 45 } ∷ [])
            logged)).0
        ≢ ok q)
    × ((receive_memory toy router packet [] 50 (
          receive_all toy router
            (record { packet = packet; assoc_data = 1 ∷ []; cltv = 45 } ∷ [])
            logged)).1
        ≡ receive_all toy router
            (record { packet = packet; assoc_data = 1 ∷ []; cltv = 45 } ∷ [])
            logged)
no_second_acceptance_example =
    no_second_acceptance toy router packet packet [] [] 40 50
      (record { packet = packet; assoc_data = 1 ∷ []; cltv = 45 } ∷ []) empty_log logged outcome
      (first_acceptance toy router packet [] 40 outcome [] [] (on_curve 3) reconstructed
        (missing _)).1
      refl

abbrev forged : OnionPacket toy
forged = record { version = 0; ephemeral_key = 3; routing_info = replicate 1300 0; header_mac = [] }

-- No MAC is empty.
forged_mac : (key msg : Bytes) → [] ≢ calc_mac toy key msg
forged_mac key msg e = omega (arith, ap (λ (m : Bytes). length m) e, length-calc_mac toy key msg)

tampered_packet_example :
    receive_memory toy router forged [] 40 empty_log
    ≡ (err (if toy.is_on_curve 3 then invalid_onion_hmac else invalid_onion_key), empty_log)
tampered_packet_example = tampered_packet toy router forged [] 40 empty_log (forged_mac _ _)

forged_refused :
    (p : ProcessedPacket toy) → (receive_memory toy router forged [] 40 empty_log).0 ≢ ok p
forged_refused p e = cc (e, tampered_packet toy router forged [] 40 empty_log (forged_mac _ _))

rejected_unchanged_example : (receive_memory toy router forged [] 40 empty_log).1 ≡ empty_log
rejected_unchanged_example = rejected_unchanged toy router forged [] 40 empty_log forged_refused

no_acceptance_unstarted_example :
    (receive_memory toy router packet [] 40 new_memory_replay_log).0 ≢ ok outcome
unfolding new_memory_replay_log
no_acceptance_unstarted_example = no_acceptance_unstarted toy router packet [] 40 none outcome

accepted_after_start_example :
    let u = receive_all toy router [] logged in
    ((start u).0 ≡ ok tt)
    × (t : MemoryReplayLog) × (receive_memory toy router packet [] 50 (start u).1 ≡ (ok outcome, t))
    × (get (prefix toy router 3) t ≡ (ok 50, t))
accepted_after_start_example =
    accepted_after_start toy router packet [] 40 50 [] empty_log logged outcome
      (first_acceptance toy router packet [] 40 outcome [] [] (on_curve 3) reconstructed
        (missing _)).1

process_onion_packet_tx_lem_example :
    (done : Tx toy) × (process_onion_packet_tx toy router 2 packet [] 40 (begin_txn toy (9 ∷ []) 5)
      ≡ (ok tt, done))
    × (get_elem? done.packets 2 ≡ some outcome)
    × IsPut 2 (prefix toy router 3) 40 (begin_txn toy (9 ∷ []) 5).batch done.batch
unfolding begin_txn new_batch
process_onion_packet_tx_lem_example =
    process_onion_packet_tx_lem toy router 2 packet [] 40 (begin_txn toy (9 ∷ []) 5) outcome refl
      (omega (arith, length-replicate 5 (zero_packet toy))) reconstructed
