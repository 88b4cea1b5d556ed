-- ===== src/Examples/Commands.antt =====
-- The commands of cmd/main.go at concrete arguments.
use lightning_onion.Prelude.{
  ℕ, zero, suc, ◌%◌, ◌++◌, leb_of_lt, ◌<◌, ◌≡◌, ◌≢◌, refl, arith, ok, panics, inl, Bytes, List, [],
  ◌∷◌, replicate,
}
use lightning_onion.Crypto.{PrivateKey, blind_group_element}
use lightning_onion.Route.{OnionHop}
use lightning_onion.Packet.{OnionPacket}
use lightning_onion.Packet.RoundTrip.{packet_bytes}
use lightning_onion.Router.Stops.{hops, SameButHmac}
use lightning_onion.Router.Delivery.{Delivers}
use lightning_onion.Hex.{codes}
use lightning_onion.Bytes.Bounds.{AreBytes}
use lightning_onion.Cli.{assoc_data, print_hex, main}
use lightning_onion.Cli.Decode.{main-decode_fails}
use lightning_onion.Cli.Path.{IsNodeKey, hex_keys, stops_from}
use lightning_onion.Cli.Generate.{main-generate, main-generate_panics}
use lightning_onion.Examples.Toy.{toy, toy_laws, on_curve, serialize}
use lightning_onion.Examples.Onions.{key_pair}
use lightning_onion.Examples.Circuits.{toy_format}

abbrev tool : Bytes
tool = codes "sphinx"

main-decode_fails_example :
    main toy toy_format 251 (tool ∷ codes "decode" ∷ codes "00" ∷ []) (codes "0011") ≢ ok []
main-decode_fails_example =
    main-decode_fails toy toy_format 251 tool (codes "00" ∷ []) (codes "0011") []

abbrev nodes : List (PrivateKey toy)
nodes = key_pair 5 ∷ key_pair 7 ∷ []

zeros-AreBytes : (n p : ℕ) → p < 256 → AreBytes (replicate n 0 ++ p ∷ [])
unfolding replicate
zeros-AreBytes zero p h = (h, tt)
zeros-AreBytes (suc n) p h = (omega arith, zeros-AreBytes n p h)

serialize-AreBytes : (p : ℕ) → p < 256 → AreBytes (serialize p)
unfolding serialize
serialize-AreBytes p h = zeros-AreBytes 32 p h

node_key : (d : ℕ) → IsNodeKey toy toy_laws (key_pair d)
node_key d = record {
  pair = refl;
  on_curve = on_curve d;
  present = leb_of_lt (d % 251) 251 (omega arith);
  bytes = serialize-AreBytes (d % 251) (omega arith);
}

main-generate_example :
    (packet : OnionPacket toy) × (sealed_hops : List (OnionHop toy)) × (main toy toy_format 251
        (tool ∷ codes "generate" ∷ hex_keys toy nodes)
        []
      ≡ ok (print_hex (packet_bytes toy packet)))
    × SameButHmac toy (hops toy (stops_from toy toy_format 251 0 nodes)) sealed_hops
    × Delivers toy assoc_data packet nodes sealed_hops
unfolding replicate blind_group_element
main-generate_example =
    main-generate toy toy_format 251 toy_laws tool [] (key_pair 5) (key_pair 7 ∷ []) (omega arith)
      (node_key 5, (node_key 7, tt)) refl refl (on_curve _, (on_curve _, tt))

main-generate_panics_example : main toy toy_format 251 (tool ∷ codes "generate" ∷ []) [] ≡ panics
main-generate_panics_example =
    main-generate_panics toy toy_format 251 toy_laws tool [] [] tt refl (inl refl)
