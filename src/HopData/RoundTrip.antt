-- ===== src/HopData/RoundTrip.antt =====
-- `Encode` and `Decode` of `HopData` together.
use lightning_onion.Prelude.{
  ◌≡◌, refl, arith, Bytes, [], ◌++◌, append_assoc, length, ok, length-append,
}
use lightning_onion.Bytes.{be_bytes}
use lightning_onion.Bytes.BigEndian.{length-be_bytes}
use lightning_onion.Stream.{buffer_write}
use lightning_onion.Stream.Laws.{read_full-append, read_uint-append}
use lightning_onion.Sizes.{hop_data_size}
use lightning_onion.HopData.{HopData, IsHopData, encode, decode}

-- The serialized hop data.
pub hop_bytes : HopData → Bytes
hop_bytes hd =
    hd.realm
    ++ (hd.next_address
        ++ (be_bytes 8 hd.forward_amount
            ++ (be_bytes 4 hd.outgoing_cltv ++ (hd.extra_bytes ++ hd.hmac))))

-- Encoding into a buffer never fails, and appends the serialized hop data.
pub encode_buffer :
    (hd : HopData) (buf : Bytes) → encode buffer_write hd buf ≡ (ok tt, buf ++ hop_bytes hd)
unfolding encode buffer_write hop_bytes
encode_buffer hd buf = simp append_assoc

-- The serialized form of well-formed hop data has 65 bytes, `HopDataSize`.
pub length-hop_bytes : (hd : HopData) → IsHopData hd → length (hop_bytes hd) ≡ hop_data_size
unfolding hop_bytes
length-hop_bytes hd v = omega (arith, length-append {0}, length-be_bytes, v)

-- Whatever follows, decoding the serialized form of well-formed hop data returns that data and
-- leaves what follows unread.
pub decode-hop_bytes :
    (hd : HopData) (rest : Bytes) → IsHopData hd → decode (hop_bytes hd ++ rest) ≡ (ok hd, rest)
unfolding decode hop_bytes
decode-hop_bytes hd rest v =
    simp
      (
        append_assoc,
        read_full-append 1 hd.realm _ v.realm_length,
        read_full-append 8 hd.next_address _ v.address_length,
        read_uint-append 8 hd.forward_amount _ v.amount_fits,
        read_uint-append 4 hd.outgoing_cltv _ v.cltv_fits,
        read_full-append 12 hd.extra_bytes _ v.extra_length,
        read_full-append 32 hd.hmac _ v.hmac_length,
      )
      refl

-- Well-formed hop data is encoded into 65 bytes, `HopDataSize`, and decoding them, whatever
-- follows, returns the data and leaves what follows unread.
pub decode-encode_hop :
    (hd : HopData) (rest : Bytes)
    → IsHopData hd
    → let out = (encode buffer_write hd []).1 in
      (length out ≡ hop_data_size) × (decode (out ++ rest) ≡ (ok hd, rest))
decode-encode_hop hd rest v =
    rw (encode_buffer hd []) (length-hop_bytes hd v, decode-hop_bytes hd rest v)
