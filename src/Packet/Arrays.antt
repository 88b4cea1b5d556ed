-- ===== src/Packet/Arrays.antt =====
-- `Decode` of `OnionPacket` on any input.
use lightning_onion.Prelude.{ℕ, ◌≡◌, refl, Option, inl, inr, Bool-cases, Bytes, none, some, ◌==◌}
use lightning_onion.Prelude.Returns.{Returns, then-Returns}
use lightning_onion.Bytes.Bounds.{AreBytes}
use lightning_onion.Stream.Sizes.{array_then}
use lightning_onion.Crypto.{Primitives}
use lightning_onion.Packet.{OnionPacket, IsOnionPacket, first, parse_ephemeral, decode_body, decode}

module _ (c : Primitives) where
  -- A packet that was read: its arrays have their lengths, and its header and its MAC are bytes.
  abbrev pub IsRead : OnionPacket c → Type 0
  IsRead p = IsOnionPacket c p × AreBytes p.routing_info × AreBytes p.header_mac

  parse_ephemeral-Returns :
      (bs r : Bytes)
      → AreBytes r
      → Returns (λ (p : c.Point). Unit {0}) (parse_ephemeral c bs r).0
        × AreBytes (parse_ephemeral c bs r).1
  unfolding parse_ephemeral
  parse_ephemeral-Returns bs r w = parsed (c.parse_pub_key bs) refl
    where
      parsed :
          (o : Option c.Point)
          → c.parse_pub_key bs ≡ o
          → Returns (λ (p : c.Point). Unit {0}) (parse_ephemeral c bs r).0
            × AreBytes (parse_ephemeral c bs r).1
      parsed none e = rw (e, parse_ephemeral) (tt, w)
      parsed (some p) e = rw (e, parse_ephemeral) (tt, w)

  decode_body-Returns :
      (version : ℕ) (r : Bytes) → AreBytes r → Returns IsRead (decode_body c version r).0
  unfolding decode_body
  decode_body-Returns version r w = array_then IsRead 33 _ r w λ ephemeral e s w.
      then-Returns AreBytes (λ (p : c.Point). Unit {0}) IsRead (parse_ephemeral c ephemeral) _ s
        (parse_ephemeral-Returns ephemeral s w)
        λ key u s w. array_then IsRead 1300 _ s w λ routing_info f s w.
          array_then IsRead 32 _ s w
            λ header_mac g s w. (record { routing_length = f.0; mac_length = g.0 }, f.1, g.1)

  pub decode-Returns : (r : Bytes) → AreBytes r → Returns IsRead (decode c r).0
  unfolding decode
  decode-Returns r w = array_then IsRead 1 _ r w λ buf e s w. elim (Bool-cases (first buf == 0)) [
    | inl base ↦ rw base (decode_body-Returns (first buf) s w)
    | inr other ↦ rw other tt
  ]
