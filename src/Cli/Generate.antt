-- ===== src/Cli/Generate.antt =====
-- The generate command of cmd/main.go, on the keys of a route and on none.
use mathlib.Core.Path.{subst}
use lightning_onion.Prelude.{
  ℕ, zero, suc, ◌-◌, ◌≤◌, ◌<◌, ◌≡◌, refl, ap, ◌∙◌, arith, true, Bytes, List, [], ◌∷◌, ◌++◌, All,
  length, replicate, get_elem?, ok, panics, length-replicate, ◌⊎◌, inl, inr, ==_of_ne, bytes_eq,
}
use lightning_onion.Crypto.{Primitives, PrivateKey, KeyFormat}
use lightning_onion.Crypto.Laws.{Laws, IsKeyPair}
use lightning_onion.Route.{OnionHop, is_empty}
use lightning_onion.Route.Length.{StartsEmpty, node_keys_lem}
use lightning_onion.Secrets.{generate_shared_secrets}
use lightning_onion.Packet.{OnionPacket}
use lightning_onion.Packet.RoundTrip.{packet_bytes, encode_buffer}
use lightning_onion.Onion.{elem_at, new_onion_packet}
use lightning_onion.Router.Stops.{hops, OnCurve, SameButHmac}
use lightning_onion.Router.Delivery.{Delivers, new_onion_packet-Delivers}
use lightning_onion.Hex.{codes}
use lightning_onion.Cli.{
  assoc_data, print_hex, from_third, zero_hop, hop_at, path_loop, generate, main,
}
use lightning_onion.Cli.Path.{
  IsNodeKey, hex_keys, stops_from, keys-stops_from, length-stops_from, IsRoute-stops_from,
  path_loop_full, built,
}

module _ (c : Primitives) (k : KeyFormat c) (zero_key : c.Point) where
  main-command :
      (name stdin : Bytes) (args : List Bytes)
      → main c k zero_key (name ∷ codes "generate" ∷ args) stdin
        ≡ generate c k zero_key (name ∷ codes "generate" ∷ args)
  unfolding main elem_at get_elem? bytes_eq
  main-command name stdin args = rw (==_of_ne (suc (suc (length args))) 1 (omega arith)) refl

  -- The command from the path on.
  generated :
      (name command : Bytes) (args : List Bytes) (path path' : List (OnionHop c))
      (packet : OnionPacket c)
      → path_loop c k zero_key 0 args (replicate 20 (zero_hop c k zero_key)) ≡ ok path
      → new_onion_packet c path (k.priv_key_from_bytes (replicate 32 b'A')) assoc_data
        ≡ ok (packet, path')
      → generate c k zero_key (name ∷ command ∷ args) ≡ ok (print_hex (packet_bytes c packet))
  unfolding generate from_third
  generated name command args path path' packet e f = rw (e, f, encode_buffer c packet []) refl

  module _ (l : Laws c) where
    StartsEmpty-replicate :
        (n : ℕ) → c.is_nil zero_key ≡ true → StartsEmpty c (replicate n (zero_hop c k zero_key))
    unfolding replicate is_empty
    StartsEmpty-replicate zero e = tt
    StartsEmpty-replicate (suc n) e = e

    -- From the keys of one to twenty nodes, each that of a key pair and in hexadecimal, the
    -- generate command prints a packet that is delivered along these nodes, if the session key of
    -- the command is a key pair and the ephemeral keys on the way lie on the curve.
    pub main-generate :
        (name stdin : Bytes) (key : PrivateKey c) (ks : List (PrivateKey c))
        → length (key ∷ ks) ≤ 20
        → All (IsNodeKey c l) (key ∷ ks)
        → c.is_nil zero_key ≡ true
        → let session_key = k.priv_key_from_bytes (replicate 32 b'A') in
          let route = stops_from c k zero_key 0 (key ∷ ks) in
          IsKeyPair c l session_key
          → OnCurve c session_key.pub_key route
          → (packet : OnionPacket c) × (sealed_hops : List (OnionHop c)) × (main c k zero_key
                (name ∷ codes "generate" ∷ hex_keys c (key ∷ ks))
                stdin
              ≡ ok (print_hex (packet_bytes c packet)))
            × SameButHmac c (hops c route) sealed_hops
            × Delivers c assoc_data packet (key ∷ ks) sealed_hops
    main-generate name stdin key ks fits v nil pair on =
        let session_key = k.priv_key_from_bytes (replicate 32 b'A') in
        let route = stops_from c k zero_key 0 (key ∷ ks) in
        let n = length (key ∷ ks) in
        let made =
          new_onion_packet-Delivers c l
            (record { key = key; hop = hop_at c k zero_key 0 key.pub_key })
            (stops_from c k zero_key 1 ks) (replicate (20 - n) (zero_hop c k zero_key)) session_key
            assoc_data (omega (arith, length-stops_from c k zero_key 1 ks))
            (IsRoute-stops_from c k zero_key l 0 (key ∷ ks) v) (StartsEmpty-replicate (20 - n) nil)
            pair on in
        (
          made.0,
          made.1,
          main-command name stdin (hex_keys c (key ∷ ks))
              ∙ generated name (codes "generate") (hex_keys c (key ∷ ks))
                  (hops c route ++ replicate (20 - n) (zero_hop c k zero_key))
                  (made.1 ++ replicate (20 - n) (zero_hop c k zero_key)) made.0
                  (built c k zero_key l (key ∷ ks) v fits) made.2,
          made.3,
          subst (λ t. Delivers c assoc_data made.0 t made.1)
              (keys-stops_from c k zero_key 0 (key ∷ ks)) made.4,
        )

    -- From more than twenty keys of nodes, or from none, the generate command panics.
    pub main-generate_panics :
        (name stdin : Bytes) (ks : List (PrivateKey c))
        → All (IsNodeKey c l) ks
        → c.is_nil zero_key ≡ true
        → (ks ≡ []) ⊎ (20 < length ks)
        → main c k zero_key (name ∷ codes "generate" ∷ hex_keys c ks) stdin ≡ panics
    unfolding generate from_third path_loop new_onion_packet generate_shared_secrets
    main-generate_panics name stdin ks v nil (inr over) =
        main-command name stdin (hex_keys c ks)
        ∙ rw
            (path_loop_full c k zero_key l ks [] (replicate 20 (zero_hop c k zero_key)) v
              (omega (arith, length-replicate {A = OnionHop c} 20 (zero_hop c k zero_key))))
            refl
    main-generate_panics name stdin ks v nil (inl none_given) =
        main-command name stdin (hex_keys c ks)
        ∙ ap (λ t. generate c k zero_key (name ∷ codes "generate" ∷ hex_keys c t)) none_given
        ∙ rw
            (node_keys_lem c [] (replicate 20 (zero_hop c k zero_key)) tt
              (StartsEmpty-replicate 20 nil))
            refl
