-- ===== src/Sizes.antt =====
-- The sizes that sphinx.go and path.go fix.
use lightning_onion.Prelude.{ℕ, ◌+◌, ◌*◌}
use lightning_onion.Crypto.{hmac_size}

abbrev pub address_size : ℕ
address_size = 8

abbrev pub realm_byte_size : ℕ
realm_byte_size = 1

abbrev pub amt_forward_size : ℕ
amt_forward_size = 8

abbrev pub outgoing_cltv_size : ℕ
outgoing_cltv_size = 4

abbrev pub num_padding_bytes : ℕ
num_padding_bytes = 12

abbrev pub hop_data_size : ℕ
hop_data_size =
    realm_byte_size + address_size + amt_forward_size + outgoing_cltv_size + num_padding_bytes
    + hmac_size

-- NumMaxHops of path.go
abbrev pub num_max_hops : ℕ
num_max_hops = 20

abbrev pub routing_info_size : ℕ
routing_info_size = num_max_hops * hop_data_size

abbrev pub num_stream_bytes : ℕ
num_stream_bytes = routing_info_size + hop_data_size

abbrev pub base_version : ℕ
base_version = 0
