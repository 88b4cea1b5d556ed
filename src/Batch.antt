-- ===== src/Batch.antt =====
-- batch.go: the entries that are to be added to the replay log together.
pub mod Invariant
use lightning_onion.Prelude.{ℕ, Bool, false, List, [], ◌∷◌, Bytes, already_committed, if◌then◌else◌}
use lightning_onion.Prelude.Io.{Io, fail, pure, ◌>>◌}
use lightning_onion.GoMap.{nat_eq, bytes_key, GoMap, insert, has_key}
use lightning_onion.Replays.{ReplaySet, new_replay_set, add}

pub record BatchEntry : Type 0 where
  pub hash_prefix : Bytes
  pub cltv : ℕ

pub record Batch : Type 0 where
  pub is_committed : Bool
  pub id : Bytes
  pub replay_set : ReplaySet
  pub entries : GoMap ℕ BatchEntry
  pub replay_cache : GoMap Bytes (Unit {0})

unfoldable pub new_batch : Bytes → Batch
new_batch id = record {
  is_committed = false;
  id = id;
  replay_set = new_replay_set;
  entries = [];
  replay_cache = [];
}

unfoldable pub put : ℕ → Bytes → ℕ → Io Batch (Unit {0})
put seq_num hash_prefix cltv b =
    if b.is_committed
    then fail already_committed b
    else if has_key hash_prefix b.replay_cache
    then pure tt (record b { replay_set = add b.replay_set seq_num })
    else pure tt (record b {
      entries = insert seq_num (record { hash_prefix = hash_prefix; cltv = cltv }) b.entries;
      replay_cache = insert hash_prefix tt b.replay_cache;
    })

-- `ForEach` over the entries in the order in which Go ranges over them; `fn` acts on a state `S`,
-- which its closure captures.
unfoldable pub for_each :
    {S : Type 0} → (ℕ → Bytes → ℕ → Io S (Unit {0})) → List (ℕ × BatchEntry) → Io S (Unit {0})
for_each fn [] = pure tt
for_each fn ((seq_num, entry) ∷ rest) = do fn seq_num entry.hash_prefix entry.cltv; for_each fn rest
