-- ===== src/Cli/Decode.antt =====
-- The decode command of cmd/main.go, for any arguments and any input.
use lightning_onion.Prelude.{
  suc, ◌≢◌, refl, none, Bytes, List, ◌∷◌, Result, ok, err, panics, ◌>>=◌, length, ==_of_ne, arith,
  get_elem?, bytes_eq,
}
use lightning_onion.Crypto.{Primitives, PrivateKey, KeyFormat}
use lightning_onion.Packet.{OnionPacket}
use lightning_onion.Packet
use lightning_onion.Onion.{elem_at}
use lightning_onion.ReplayLog.{new_memory_replay_log}
use lightning_onion.Router.Replay.{receive_memory, no_acceptance_unstarted}
use lightning_onion.Router.{new_router}
use lightning_onion.Hex.{codes, trim_space}
use lightning_onion.Cli.{
  assoc_data, decode_hex, decode_sized, print_next, process_message, decode_input, decode, main,
}

-- Nothing follows a step that never succeeds.
never_bind :
    {A B : Type 0} (m : Result A) (f : A → Result B)
    → ((a : A) → m ≢ ok a)
    → (b : B) → (m >>= f) ≢ ok b
never_bind (ok a) f never b e = absurd (never a refl)
never_bind (err x) f never b e = cc e
never_bind panics f never b e = cc e

then_never :
    {A B : Type 0} (m : Result A) (f : A → Result B)
    → ((a : A) (b : B) → f a ≢ ok b)
    → (b : B) → (m >>= f) ≢ ok b
then_never (ok a) f never b e = never a b e
then_never (err x) f never b e = cc e
then_never panics f never b e = cc e

module _ (c : Primitives) (k : KeyFormat c) (zero_key : c.Point) where
  message_never :
      (key : PrivateKey c) (packet : OnionPacket c) (out : Bytes)
      → process_message c k zero_key key packet ≢ ok out
  unfolding process_message new_memory_replay_log
  message_never key packet =
      never_bind
        (receive_memory c (new_router c key) packet assoc_data 10
          (record { batches = none; entries = none })).0
        (print_next c k zero_key)
        (λ p. no_acceptance_unstarted c (new_router c key) packet assoc_data 10 none p)

  input_never : (bin_key stdin out : Bytes) → decode_input c k zero_key bin_key stdin ≢ ok out
  unfolding decode_input
  input_never bin_key stdin =
      let key = k.priv_key_from_bytes bin_key in
      then_never (decode_hex (trim_space stdin))
        (λ bin_msg. (Packet.decode c bin_msg).0 >>= process_message c k zero_key key)
        (λ bin_msg.
          then_never (Packet.decode c bin_msg).0 (process_message c k zero_key key)
            (message_never key))

  decode_never : (args : List Bytes) (stdin out : Bytes) → decode c k zero_key args stdin ≢ ok out
  unfolding decode
  decode_never args stdin =
      then_never (elem_at args 2)
        (λ hex_key. decode_sized 32 hex_key >>= λ bin_key. decode_input c k zero_key bin_key stdin)
        (λ hex_key.
          then_never (decode_sized 32 hex_key) (λ bin_key. decode_input c k zero_key bin_key stdin)
            (λ bin_key. input_never bin_key stdin))

  -- The decode command never prints a packet: whatever its arguments and its input, it ends by
  -- log.Fatalf or panics.
  pub main-decode_fails :
      (name : Bytes) (args : List Bytes) (stdin out : Bytes)
      → main c k zero_key (name ∷ codes "decode" ∷ args) stdin ≢ ok out
  unfolding main elem_at get_elem? bytes_eq
  main-decode_fails name args stdin out e =
      decode_never (name ∷ codes "decode" ∷ args) stdin out
        (rw (==_of_ne (suc (suc (length args))) 1 (omega arith)) at e)
