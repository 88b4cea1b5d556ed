-- ===== src/Cli.antt =====
-- cmd/main.go: the command that generates a packet, or decodes one. A run gives what it prints on
-- standard output; `err` stands for an end by log.Fatalf, with the error that it reports. What is
-- written to standard error is left out. The arguments begin with the name of the command, and
-- the input is a text of ASCII characters.
pub mod Path
pub mod Generate
pub mod Decode
use lightning_onion.Prelude.{
  ℕ, zero, suc, ◌+◌, ◌%◌, ◌^◌, Bytes, Option, none, some, List, [], ◌∷◌, ◌++◌, length, replicate,
  set, Result, ok, err, panics, invalid_argument, ◌>>=◌, bytes_eq, ltb, ◌==◌, if◌then◌else◌,
}
use lightning_onion.Bytes.{copy}
use lightning_onion.Stream.{buffer_write}
use lightning_onion.Sizes.{address_size, realm_byte_size, num_max_hops}
use lightning_onion.Crypto.{Primitives, PrivateKey, KeyFormat}
use lightning_onion.HopData.{HopData}
use lightning_onion.Route.{OnionHop, PaymentPath}
use lightning_onion.Packet.{OnionPacket}
use lightning_onion.Packet
use lightning_onion.Onion.{elem_at, new_onion_packet}
use lightning_onion.Process.{ProcessedPacket}
use lightning_onion.ReplayLog.{memory_replay_log, new_memory_replay_log}
use lightning_onion.Router.{new_router, process}
use lightning_onion.Transaction.{zero_hop_data}
use lightning_onion.Hex.{codes, hex_decode, hex_encode, trim_space}

abbrev pub assoc_data : Bytes
assoc_data = replicate 32 b'B'

-- An argument or an input that is no hexadecimal text of the right length is fatal.
unfoldable pub decode_hex : Bytes → Result Bytes
decode_hex text = elim (hex_decode text) [ none ↦ err invalid_argument | some bs ↦ ok bs ]

unfoldable pub decode_sized : ℕ → Bytes → Result Bytes
decode_sized size text = do
  bs ← decode_hex text
  if length bs == size then ok bs else err invalid_argument

unfoldable pub print_hex : Bytes → Bytes
print_hex bs = hex_encode bs ++ 10 ∷ []

unfoldable pub usage : Bytes → Bytes
usage name = codes "Usage: " ++ (name ++ (codes " (generate|decode) <private-keys>" ++ 10 ∷ []))

-- `args[2:]`
unfoldable pub from_third : List Bytes → Result (List Bytes)
from_third (name ∷ command ∷ rest) = ok rest
from_third (name ∷ []) = panics
from_third [] = panics

-- The zero value of a public key has nil coordinates.
module _ (c : Primitives) (k : KeyFormat c) (zero_key : c.Point) where
  open c use {Point, parse_pub_key}

  abbrev pub zero_hop : OnionHop c
  zero_hop = record { node_pub = zero_key; hop_data = zero_hop_data }

  -- The hop that the command makes out for the `i`-th key.
  unfoldable pub hop_at : ℕ → Point → OnionHop c
  hop_at i pub_key = record {
    node_pub = pub_key;
    hop_data = record zero_hop_data {
      realm = 0 ∷ [];
      next_address = copy (replicate address_size 0) (replicate 8 (i % 256));
      forward_amount = i % 256 ^ 8;
      outgoing_cltv = i % 256 ^ 4;
    };
  }

  -- A key that does not parse is a panic.
  unfoldable pub parse_argument : Bytes → Result Point
  parse_argument hex_key = do
    bin_key ← decode_sized 33 hex_key
    elim (parse_pub_key bin_key) [ none ↦ panics | some p ↦ ok p ]

  unfoldable pub set_hop : PaymentPath c → ℕ → OnionHop c → Result (PaymentPath c)
  set_hop path i hop = if ltb i (length path) then ok (set path i hop) else panics

  -- The loop over the keys, from the `i`-th on.
  unfoldable pub path_loop : ℕ → List Bytes → PaymentPath c → Result (PaymentPath c)
  path_loop i [] path = ok path
  path_loop i (hex_key ∷ rest) path = do
    pub_key ← parse_argument hex_key
    path' ← set_hop path i (hop_at i pub_key)
    path_loop (i + 1) rest path'

  unfoldable pub generate : List Bytes → Result Bytes
  unfolding path_loop
  generate args = do
    hex_keys ← from_third args
    path ← path_loop 0 hex_keys (replicate num_max_hops zero_hop)
    let session_key = k.priv_key_from_bytes (replicate 32 b'A')
    made ← new_onion_packet c path session_key assoc_data
    let (written, out) = Packet.encode c buffer_write made.0 []
    done ← written
    ok (print_hex out)

  -- `p.NextPacket.Encode`, on a pointer.
  unfoldable pub encode_next : Option (OnionPacket c) → Result Bytes
  encode_next none = panics
  encode_next (some next) = do
    let (written, out) = Packet.encode c buffer_write next []
    done ← written
    ok out

  unfoldable pub print_next : ProcessedPacket c → Result Bytes
  print_next p = do out ← encode_next p.next_packet; ok (print_hex out)

  -- The router of the command has a log that is never started.
  unfoldable pub process_message : PrivateKey c → OnionPacket c → Result Bytes
  process_message key packet = do
    let router = new_router c key
    p ← (process c memory_replay_log router packet assoc_data 10 new_memory_replay_log).0
    print_next p

  unfoldable pub decode_input : Bytes → Bytes → Result Bytes
  decode_input bin_key stdin = do
    bin_msg ← decode_hex (trim_space stdin)
    packet ← (Packet.decode c bin_msg).0
    process_message (k.priv_key_from_bytes bin_key) packet

  unfoldable pub decode : List Bytes → Bytes → Result Bytes
  decode args stdin = do
    hex_key ← elem_at args 2
    bin_key ← decode_sized 32 hex_key
    decode_input bin_key stdin

  -- The branches on `args[1]`.
  unfoldable pub run : Bytes → List Bytes → Bytes → Result Bytes
  run command args stdin =
      if bytes_eq command (codes "generate")
      then generate args
      else if bytes_eq command (codes "decode")
      then decode args stdin
      else ok []

  unfoldable pub main : List Bytes → Bytes → Result Bytes
  unfolding run
  main args stdin =
      if length args == 1
      then (do name ← elem_at args 0; ok (usage name))
      else (do command ← elem_at args 1; run command args stdin)
