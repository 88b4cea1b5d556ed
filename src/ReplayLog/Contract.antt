-- ===== src/ReplayLog/Contract.antt =====
-- What the comments on the interface `ReplayLog` promise of `Put`.
use lightning_onion.Prelude.{ℕ, ◌≡◌, ◌≢◌, Bytes, ok, err, replayed_packet}
use lightning_onion.ReplayLog.{ReplayLog, memory_replay_log}
use lightning_onion.ReplayLog.Memory.{Knows, put-Knows, Knows-put, put_failed}

-- A log that knows prefixes: one that it knows is a replay, one that it has put is known, and
-- none is forgotten; a Put that fails changes nothing.
pub record LogLaws (log : ReplayLog) : Type 1 where
  pub HasEntry : log.State → Bytes → Type 0
  pub put_replayed :
      (hash : Bytes) (cltv : ℕ) (s : log.State)
      → HasEntry s hash
      → log.put hash cltv s ≡ (err replayed_packet, s)
  pub put_entry :
      (hash : Bytes) (cltv : ℕ) (s t : log.State)
      → log.put hash cltv s ≡ (ok tt, t)
      → HasEntry t hash
  pub put_keeps :
      (hash k : Bytes) (cltv : ℕ) (s : log.State)
      → HasEntry s hash
      → HasEntry (log.put k cltv s).1 hash
  pub put_unchanged :
      (hash : Bytes) (cltv : ℕ) (s : log.State)
      → (log.put hash cltv s).0 ≢ ok tt
      → (log.put hash cltv s).1 ≡ s

-- The log in memory keeps the contract.
abbrev pub memory_laws : LogLaws memory_replay_log
memory_laws = record {
  HasEntry = Knows;
  put_replayed = λ hash cltv s k. k cltv;
  put_entry = λ hash cltv s t. put-Knows s t hash cltv;
  put_keeps = λ hash k cltv s. Knows-put s hash k cltv;
  put_unchanged = λ hash cltv s. put_failed s hash cltv;
}
