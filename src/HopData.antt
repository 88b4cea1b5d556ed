-- ===== src/HopData.antt =====
-- `HopData` of sphinx.go, with its serialization. The arrays are lists, whose lengths `IsHopData`
-- states.
pub mod RoundTrip
pub mod Arrays
use lightning_onion.Prelude.{ℕ, ◌^◌, ◌<◌, ◌≡◌, Bytes, length}
use lightning_onion.Prelude.Io.{Io, pure, ◌>>=◌, ◌>>◌}
use lightning_onion.Bytes.{be_bytes}
use lightning_onion.Stream.{Writer, read_full, read_uint}
use lightning_onion.Sizes.{
  address_size, realm_byte_size, amt_forward_size, outgoing_cltv_size, num_padding_bytes,
}
use lightning_onion.Crypto.{hmac_size}

pub record HopData : Type 0 where
  pub realm : Bytes
  pub next_address : Bytes
  pub forward_amount : ℕ
  pub outgoing_cltv : ℕ
  pub extra_bytes : Bytes
  pub hmac : Bytes

-- What the Go types of the fields say: the lengths of the arrays, a uint64 and a uint32.
pub record IsHopData (hd : HopData) : Type 0 where
  pub realm_length : length hd.realm ≡ realm_byte_size
  pub address_length : length hd.next_address ≡ address_size
  pub amount_fits : hd.forward_amount < 256 ^ 8
  pub cltv_fits : hd.outgoing_cltv < 256 ^ 4
  pub extra_length : length hd.extra_bytes ≡ num_padding_bytes
  pub hmac_length : length hd.hmac ≡ hmac_size

unfoldable pub encode : {W : Type 0} → Writer W → HopData → Io W (Unit {0})
encode write hd = do
  write hd.realm
  write hd.next_address
  write (be_bytes amt_forward_size hd.forward_amount)
  write (be_bytes outgoing_cltv_size hd.outgoing_cltv)
  write hd.extra_bytes
  write hd.hmac

unfoldable pub decode : Io Bytes HopData
decode = do
  realm ← read_full realm_byte_size
  next_address ← read_full address_size
  forward_amount ← read_uint amt_forward_size
  outgoing_cltv ← read_uint outgoing_cltv_size
  extra_bytes ← read_full num_padding_bytes
  hmac ← read_full hmac_size
  pure (record {
    realm = realm;
    next_address = next_address;
    forward_amount = forward_amount;
    outgoing_cltv = outgoing_cltv;
    extra_bytes = extra_bytes;
    hmac = hmac;
  })
