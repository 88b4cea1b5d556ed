-- ===== src/HopData/Arrays.antt =====
-- `Decode` of `HopData` on any input.
use lightning_onion.Prelude.{Bytes}
use lightning_onion.Prelude.Returns.{Returns}
use lightning_onion.Bytes.Bounds.{AreBytes}
use lightning_onion.Stream.Sizes.{array_then, uint_then}
use lightning_onion.HopData.{HopData, IsHopData, decode}

-- Hop data that was read: well-formed, with an HMAC of bytes.
abbrev pub IsRead : HopData → Type 0
IsRead hd = IsHopData hd × AreBytes hd.hmac

pub decode-Returns : (r : Bytes) → AreBytes r → Returns IsRead (decode r).0
unfolding decode
decode-Returns r w = array_then IsRead 1 _ r w λ realm e s w.
    array_then IsRead 8 _ s w λ address f s w. uint_then IsRead 8 _ s w λ amount g s w.
      uint_then IsRead 4 _ s w λ cltv h s w. array_then IsRead 12 _ s w λ extra i s w.
        array_then IsRead 32 _ s w λ hmac j s w. (
          record {
            realm_length = e.0;
            address_length = f.0;
            amount_fits = g;
            cltv_fits = h;
            extra_length = i.0;
            hmac_length = j.0;
          },
          j.1,
        )
