-- ===== src/Process.antt =====
-- `unwrapPacket` and `processOnionPacket` of sphinx.go: a node takes one layer off a packet.
pub mod Unwrap
pub mod Legs
pub mod Arrays
use Prim.Native.String.{String}
use lightning_onion.Prelude.{
  ℕ, Bytes, Option, none, some, ◌++◌, drop, replicate, Result, ok, err, invalid_onion_hmac, ◌>>=◌,
  bytes_eq, ◌==◌, if◌then◌else◌,
}
use lightning_onion.Bytes.{copy, xor}
use lightning_onion.Sizes.{hop_data_size, routing_info_size, num_stream_bytes}
use lightning_onion.Crypto.{
  Primitives, rho, mu, zero_hmac, calc_mac, generate_key, generate_cipher_stream,
  compute_blinding_factor, blind_group_element,
}
use lightning_onion.HopData.{HopData}
use lightning_onion.HopData
use lightning_onion.Packet.{OnionPacket}

-- `ProcessCode` is an integer with three named values.
abbrev pub exit_node : ℕ
exit_node = 0

abbrev pub more_hops : ℕ
more_hops = 1

abbrev pub failure : ℕ
failure = 2

unfoldable pub process_code_string : ℕ → String
process_code_string p =
    if p == exit_node
    then "ExitNode"
    else if p == more_hops
    then "MoreHops"
    else if p == failure
    then "Failure"
    else "Unknown"

-- The final hop is the one whose next HMAC is all zeroes.
unfoldable pub action_for : HopData → ℕ
action_for outer_hop_data = if bytes_eq zero_hmac outer_hop_data.hmac then exit_node else more_hops

module _ (c : Primitives) where
  -- A nil NextPacket is `none`.
  pub record ProcessedPacket : Type 0 where
    pub action : ℕ
    pub forwarding_instructions : HopData
    pub next_packet : Option (OnionPacket c)

  -- The part of `unwrapPacket` behind the check of the MAC.
  unfoldable pub strip_layer : OnionPacket c → Bytes → Result (OnionPacket c × HopData)
  strip_layer onion_pkt shared_secret = do
    stream ← generate_cipher_stream c (generate_key c rho shared_secret) num_stream_bytes
    let header_with_padding = onion_pkt.routing_info ++ replicate hop_data_size 0
    hop_info ← xor (replicate num_stream_bytes 0) header_with_padding stream
    let dh_key = onion_pkt.ephemeral_key
    let blinding_factor = compute_blinding_factor c dh_key shared_secret
    hop_data ← (HopData.decode hop_info.0).0
    ok (
      record {
        version = onion_pkt.version;
        ephemeral_key = blind_group_element c dh_key blinding_factor;
        routing_info = copy (replicate routing_info_size 0) (drop hop_data_size hop_info.0);
        header_mac = hop_data.hmac;
      },
      hop_data,
    )

  unfoldable pub unwrap_packet : OnionPacket c → Bytes → Bytes → Result (OnionPacket c × HopData)
  unwrap_packet onion_pkt shared_secret assoc_data =
      let message = onion_pkt.routing_info ++ assoc_data in
      let calculated_mac = calc_mac c (generate_key c mu shared_secret) message in
      if bytes_eq onion_pkt.header_mac calculated_mac
      then strip_layer onion_pkt shared_secret
      else err invalid_onion_hmac

  unfoldable pub process_onion_packet : OnionPacket c → Bytes → Bytes → Result ProcessedPacket
  process_onion_packet onion_pkt shared_secret assoc_data = do
    unwrapped ← unwrap_packet onion_pkt shared_secret assoc_data
    ok (record {
      action = action_for unwrapped.1;
      forwarding_instructions = unwrapped.1;
      next_packet = some unwrapped.0;
    })
