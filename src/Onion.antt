-- ===== src/Onion.antt =====
-- `NewOnionPacket` and `generateHeaderPadding` of sphinx.go: the sender wraps the hops of a route
-- into one packet, from the last hop to the first.
pub mod Layers
pub mod Filler
pub mod Unwind
pub mod Steps
pub mod Wrapped
pub mod Built
pub mod Tail
pub mod Legs
pub mod Total
use lightning_onion.Prelude.{
  ℕ, zero, suc, ◌+◌, ◌-◌, ◌*◌, Bytes, Option, none, some, List, ◌++◌, [], length, take, drop,
  replicate, get_elem?, set, Result, ok, panics, ◌>>=◌, ltb, leb, ◌==◌, ◌&&◌, if◌then◌else◌,
}
use lightning_onion.Bytes.{copy, slice, xor, right_shift}
use lightning_onion.Stream.{buffer_write}
use lightning_onion.Sizes.{
  hop_data_size, num_max_hops, routing_info_size, num_stream_bytes, base_version,
}
use lightning_onion.Crypto.{
  Primitives, PrivateKey, hmac_size, rho, mu, calc_mac, generate_key, generate_cipher_stream,
}
use lightning_onion.HopData.{HopData}
use lightning_onion.HopData
use lightning_onion.Route.{OnionHop, PaymentPath, true_route_length, node_keys}
use lightning_onion.Secrets.{generate_shared_secrets}
use lightning_onion.Packet.{OnionPacket}

-- `xs[i]`, for a slice of any elements.
unfoldable pub elem_at {ℓ} : {A : Type ℓ} → List A → ℕ → Result A
elem_at xs i = elim (get_elem? xs i) [ none ↦ panics | some x ↦ ok x ]

-- `copy(mixHeader[len(mixHeader)-len(filler):], filler)`
unfoldable pub override_tail : Bytes → Bytes → Result Bytes
override_tail mix_header filler =
    if leb (length filler) (length mix_header)
    then (let front = length mix_header - length filler in
        ok (take front mix_header ++ copy (drop front mix_header) filler))
    else panics

module _ (c : Primitives) where
  -- One round of `generateHeaderPadding`, at `i`. `(NumMaxHops - i) + 1` is written so that it
  -- does not go below zero before the 1 is added; from 22 on it would be negative, and the slice
  -- is out of range either way.
  unfoldable pub pad : Bytes → ℕ → List Bytes → ℕ → Bytes → Result Bytes
  pad key hop_size shared_secrets i filler = do
    secret ← elem_at shared_secrets (i - 1)
    stream ← generate_cipher_stream c (generate_key c key secret) num_stream_bytes
    let total_filler_size = (num_max_hops + 1 - i) * hop_size
    part ← slice stream total_filler_size (total_filler_size + i * hop_size)
    out ← xor filler filler part
    ok out.0

  -- The rounds from `i` on, of which `left` are left.
  unfoldable pub padding_loop : Bytes → ℕ → List Bytes → ℕ → ℕ → Bytes → Result Bytes
  padding_loop key hop_size shared_secrets zero i filler = ok filler
  padding_loop key hop_size shared_secrets (suc left) i filler = do
    filler' ← pad key hop_size shared_secrets i filler
    padding_loop key hop_size shared_secrets left (i + 1) filler'

  -- Without hops the size of the filler is negative, unless `hop_size` is 0.
  unfoldable pub generate_header_padding : Bytes → ℕ → ℕ → List Bytes → Result Bytes
  unfolding padding_loop
  generate_header_padding key num_hops hop_size shared_secrets =
      if num_hops == 0 && ltb 0 hop_size
      then panics
      else padding_loop key hop_size shared_secrets (num_hops - 1) 1
          (replicate ((num_hops - 1) * hop_size) 0)

  -- What the loop of `NewOnionPacket` carries.
  pub record Wrapping : Type 0 where
    pub path : PaymentPath c
    pub mix_header : Bytes
    pub next_hmac : Bytes

  -- One round of the loop, at hop `i`.
  unfoldable pub wrap_hop : ℕ → List Bytes → Bytes → Bytes → ℕ → Wrapping → Result Wrapping
  unfolding override_tail
  wrap_hop num_hops shared_secrets filler assoc_data i w = do
    secret ← elem_at shared_secrets i
    hop ← elem_at w.path i
    let hop_data = record hop.hop_data { hmac = w.next_hmac }
    stream ← generate_cipher_stream c (generate_key c rho secret) num_stream_bytes
    shifted ← right_shift w.mix_header hop_data_size
    let (written, hop_data_buf) = HopData.encode buffer_write hop_data []
    done ← written
    key_stream ← slice stream 0 routing_info_size
    let filled = copy shifted hop_data_buf
    encrypted ← xor filled filled key_stream
    mix_header ← if i == num_hops - 1 then override_tail encrypted.0 filler else ok encrypted.0
    ok (record {
      path = set w.path i (record hop { hop_data = hop_data });
      mix_header = mix_header;
      next_hmac = calc_mac c (generate_key c mu secret) (mix_header ++ assoc_data);
    })

  -- The rounds for the hops below `left`, the last of them first.
  unfoldable pub wrap_loop : ℕ → List Bytes → Bytes → Bytes → ℕ → Wrapping → Result Wrapping
  wrap_loop num_hops shared_secrets filler assoc_data zero w = ok w
  wrap_loop num_hops shared_secrets filler assoc_data (suc i) w = do
    w' ← wrap_hop num_hops shared_secrets filler assoc_data i w
    wrap_loop num_hops shared_secrets filler assoc_data i w'

  -- The packet, and the path, whose hops have got their HMACs.
  unfoldable pub new_onion_packet :
      PaymentPath c → PrivateKey c → Bytes → Result (OnionPacket c × PaymentPath c)
  new_onion_packet payment_path session_key assoc_data = do
    let num_hops = true_route_length c payment_path
    secrets ← generate_shared_secrets c (node_keys c payment_path) session_key
    filler ← generate_header_padding rho num_hops hop_data_size secrets
    w ← wrap_loop num_hops secrets filler assoc_data num_hops (record {
      path = payment_path;
      mix_header = replicate routing_info_size 0;
      next_hmac = replicate hmac_size 0;
    })
    ok (
      record {
        version = base_version;
        ephemeral_key = session_key.pub_key;
        routing_info = w.mix_header;
        header_mac = w.next_hmac;
      },
      w.path,
    )
