-- ===== src/Replays.antt =====
-- replay_set.go: the sequence numbers of a batch that were detected as replays.
pub mod Sets
use lightning_onion.Prelude.{
  ℕ, zero, suc, Bool, List, [], ◌∷◌, Bytes, Result, ok, err, panics, eof, length,
}
use lightning_onion.Prelude.Io.{Io, pure, ◌>>◌}
use lightning_onion.Bytes.{be_bytes}
use lightning_onion.Stream.{Writer, read_uint}
use lightning_onion.GoMap.{nat_eq, GoMap, insert, has_key}

-- The set is the key set of a map.
abbrev pub ReplaySet : Type 0
ReplaySet = GoMap ℕ (Unit {0})

unfoldable pub new_replay_set : ReplaySet
new_replay_set = []

unfoldable pub size : ReplaySet → ℕ
size rs = length rs

unfoldable pub add : ReplaySet → ℕ → ReplaySet
add rs idx = insert idx tt rs

unfoldable pub contains : ReplaySet → ℕ → Bool
contains rs idx = has_key idx rs

-- `rs.Merge(rs2)`, which adds the elements of `rs2` in the order in which Go ranges over them.
unfoldable pub merge : ReplaySet → List ℕ → ReplaySet
merge rs [] = rs
merge rs (seq_num ∷ rest) = merge (add rs seq_num) rest

-- `Encode` of a set whose elements Go ranges over in this order.
unfoldable pub encode : {W : Type 0} → Writer W → List ℕ → Io W (Unit {0})
encode write [] = pure tt
encode write (seq_num ∷ rest) = do write (be_bytes 2 seq_num); encode write rest

-- `switch err`: the loop goes on, ends with the set, or returns the error. What has been added
-- before an error stays in the set.
unfoldable pub decode_step :
    Result ℕ
    → Bytes
    → (ℕ → Bytes → Result (Unit {0}) × ReplaySet)
    → ReplaySet
    → Result (Unit {0}) × ReplaySet
decode_step (ok seq_num) rest more rs = more seq_num rest
decode_step (err eof) rest more rs = (ok tt, rs)
decode_step (err e) rest more rs = (err e, rs)
decode_step panics rest more rs = (panics, rs)

-- `Decode` into `rs`. Each round reads two bytes or ends, so fuel above the length is enough.
unfoldable pub decode : ℕ → Bytes → ReplaySet → Result (Unit {0}) × ReplaySet
unfolding decode_step
decode zero r rs = (panics, rs)
decode (suc fuel) r rs =
    let read = read_uint 2 r in
    decode_step read.0 read.1 (λ seq_num rest. decode fuel rest (add rs seq_num)) rs
