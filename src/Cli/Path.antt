-- ===== src/Cli/Path.antt =====
-- The path that the generate command of cmd/main.go builds from the keys of a route.
use lightning_onion.Prelude.{
  ℕ, suc, ◌+◌, ◌-◌, ◌%◌, ◌≤◌, ◌<◌, ◌≡◌, refl, sym, ap, ◌∙◌, arith, true, false, Bytes, List, [],
  ◌∷◌, ◌++◌, append_assoc, All, length, replicate, set, ok, panics, length-append, length-replicate,
  replicate-add, ltb_of_lt, ltb_of_le, ◌==◌, ==_iff,
}
use lightning_onion.Bytes.Copy.{length-copy}
use lightning_onion.Crypto.{Primitives, PrivateKey, KeyFormat}
use lightning_onion.Crypto.Laws.{Laws, IsKeyPair}
use lightning_onion.HopData.{IsHopData}
use lightning_onion.Route.{OnionHop}
use lightning_onion.Router.Stops.{Stop, keys, hops, IsRoute}
use lightning_onion.Hex.{hex_encode}
use lightning_onion.Bytes.Bounds.{AreBytes}
use lightning_onion.Hex.RoundTrip.{hex_decode-hex_encode}
use lightning_onion.Cli.{
  decode_hex, decode_sized, zero_hop, hop_at, parse_argument, set_hop, path_loop,
}

set-append {ℓ} :
    {A : Type ℓ} (xs : List A) (y v : A) (ys : List A)
    → set (xs ++ y ∷ ys) (length xs) v ≡ xs ++ v ∷ ys
unfolding set
set-append [] y v ys = refl
set-append (x ∷ xs) y v ys = ap (λ t. x ∷ t) (set-append xs y v ys)

module _ (c : Primitives) where
  -- The keys of the nodes, as they stand on the command line.
  abbrev pub hex_keys : List (PrivateKey c) → List Bytes
  hex_keys [] = []
  hex_keys (key ∷ ks) = hex_encode (c.serialize_compressed key.pub_key) ∷ hex_keys ks

  -- A key of a node: its public key is on the curve and has coordinates, and is serialized to
  -- bytes.
  pub record IsNodeKey (l : Laws c) (key : PrivateKey c) : Type 0 where
    pub pair : IsKeyPair c l key
    pub on_curve : c.is_on_curve key.pub_key ≡ true
    pub present : c.is_nil key.pub_key ≡ false
    pub bytes : AreBytes (c.serialize_compressed key.pub_key)

module _ (c : Primitives) (k : KeyFormat c) (zero_key : c.Point) where
  -- The route of the command: the `i`-th node has the `i`-th key and the hop made out for it.
  abbrev pub stops_from : ℕ → List (PrivateKey c) → List (Stop c)
  stops_from i [] = []
  stops_from i (key ∷ ks) =
      record { key = key; hop = hop_at c k zero_key i key.pub_key } ∷ stops_from (i + 1) ks

  pub keys-stops_from : (i : ℕ) (ks : List (PrivateKey c)) → keys c (stops_from i ks) ≡ ks
  keys-stops_from i [] = refl
  keys-stops_from i (key ∷ ks) = ap (λ t. key ∷ t) (keys-stops_from (i + 1) ks)

  pub length-stops_from : (i : ℕ) (ks : List (PrivateKey c)) → length (stops_from i ks) ≡ length ks
  length-stops_from i [] = refl
  length-stops_from i (key ∷ ks) = ap suc (length-stops_from (i + 1) ks)

  hop_at-IsHopData : (i : ℕ) (p : c.Point) → IsHopData (hop_at c k zero_key i p).hop_data
  unfolding hop_at
  hop_at-IsHopData i p = record {
    realm_length = refl;
    address_length = length-copy (replicate 8 0) (replicate 8 (i % 256)) ∙ length-replicate 8 0;
    amount_fits = omega arith;
    cltv_fits = omega arith;
    extra_length = length-replicate 12 0;
    hmac_length = length-replicate 32 0;
  }

  module _ (l : Laws c) where
    parse_argument-hex_encode :
        (key : PrivateKey c)
        → IsNodeKey c l key
        → parse_argument c k zero_key (hex_encode (c.serialize_compressed key.pub_key))
          ≡ ok key.pub_key
    unfolding parse_argument decode_sized decode_hex
    parse_argument-hex_encode key v =
        let bs = c.serialize_compressed key.pub_key in
        let sized : (length bs == 33) ≡ true =
          (==_iff (length bs) 33).1 (l.serialized_length key.pub_key) in
        rw
          (
            hex_decode-hex_encode bs v.bytes,
            decode_hex,
            sized,
            l.parse_serialized key.pub_key v.on_curve,
            parse_argument,
          )
          refl

    pub IsRoute-stops_from :
        (i : ℕ) (ks : List (PrivateKey c)) → All (IsNodeKey c l) ks → IsRoute c l (stops_from i ks)
    unfolding hop_at
    IsRoute-stops_from i [] v = tt
    IsRoute-stops_from i (key ∷ ks) v = (
      (v.0.pair, refl, v.0.present, hop_at-IsHopData i key.pub_key),
      IsRoute-stops_from (i + 1) ks v.1,
    )

    set_hop_lem :
        (done rest : List (OnionHop c)) (b v : OnionHop c)
        → set_hop c k zero_key (done ++ b ∷ rest) (length done) v ≡ ok (done ++ v ∷ rest)
    unfolding set_hop
    set_hop_lem done rest b v =
        rw
          (ltb_of_lt (length done) (length (done ++ b ∷ rest))
            (omega (arith, length-append done (b ∷ rest))))
          (ap ok (set-append done b v rest))

    path_loop_lem :
        (ks : List (PrivateKey c)) (done blank rest : List (OnionHop c))
        → All (IsNodeKey c l) ks
        → length blank ≡ length ks
        → path_loop c k zero_key (length done) (hex_keys c ks) (done ++ (blank ++ rest))
          ≡ ok (done ++ (hops c (stops_from (length done) ks) ++ rest))
    unfolding path_loop
    path_loop_lem [] done [] rest v e = refl
    path_loop_lem [] done (b ∷ blank) rest v e = absurd (omega arith)
    path_loop_lem (key ∷ ks) done [] rest v e = absurd (omega arith)
    path_loop_lem (key ∷ ks) done (b ∷ blank) rest v e =
        let hop = hop_at c k zero_key (length done) key.pub_key in
        let done' = done ++ hop ∷ [] in
        let size : length done' ≡ length done + 1 = length-append done (hop ∷ []) in
        rw (parse_argument-hex_encode key v.0, set_hop_lem done (blank ++ rest) b hop)
          (ap (λ n. path_loop c k zero_key n (hex_keys c ks) (done ++ hop ∷ (blank ++ rest)))
              (sym size)
            ∙ ap (λ t. path_loop c k zero_key (length done') (hex_keys c ks) t)
                (sym (append_assoc done (hop ∷ []) (blank ++ rest)))
            ∙ path_loop_lem ks done' blank rest v.1 (omega arith)
            ∙ ap ok (
                append_assoc done (hop ∷ []) (hops c (stops_from (length done') ks) ++ rest)
                ∙ ap (λ n. done ++ hop ∷ (hops c (stops_from n ks) ++ rest)) size))

    pub path_loop_full :
        (ks : List (PrivateKey c)) (done blank : List (OnionHop c))
        → All (IsNodeKey c l) ks
        → length blank < length ks
        → path_loop c k zero_key (length done) (hex_keys c ks) (done ++ blank) ≡ panics
    unfolding path_loop set_hop
    path_loop_full [] done blank v h = absurd (omega arith)
    path_loop_full (key ∷ ks) done [] v h =
        rw
          (
            parse_argument-hex_encode key v.0,
            ltb_of_le (length done) (length (done ++ []))
                (omega (arith, length-append {A = OnionHop c} done [])),
          )
          refl
    path_loop_full (key ∷ ks) done (b ∷ blank) v h =
        let hop = hop_at c k zero_key (length done) key.pub_key in
        let done' = done ++ hop ∷ [] in
        let size : length done' ≡ length done + 1 = length-append done (hop ∷ []) in
        rw
          (
            parse_argument-hex_encode key v.0,
            ltb_of_lt (length done) (length (done ++ b ∷ blank))
                (omega (arith, length-append done (b ∷ blank))),
            set-append done b hop blank,
          )
          (ap (λ n. path_loop c k zero_key n (hex_keys c ks) (done ++ hop ∷ blank)) (sym size)
            ∙ ap (λ t. path_loop c k zero_key (length done') (hex_keys c ks) t)
                (sym (append_assoc done (hop ∷ []) blank))
            ∙ path_loop_full ks done' blank v.1 (omega arith))

    -- The path that the command builds.
    pub built :
        (ks : List (PrivateKey c))
        → All (IsNodeKey c l) ks
        → length ks ≤ 20
        → path_loop c k zero_key 0 (hex_keys c ks) (replicate 20 (zero_hop c k zero_key))
          ≡ ok (hops c (stops_from 0 ks) ++ replicate (20 - length ks) (zero_hop c k zero_key))
    built ks v h =
        let n = length ks in
        let z = zero_hop c k zero_key in
        let all : n + (20 - n) ≡ 20 = omega arith in
        ap (λ t. path_loop c k zero_key 0 (hex_keys c ks) t)
          (ap (λ m. replicate m z) (sym all) ∙ replicate-add n (20 - n) z)
        ∙ path_loop_lem ks [] (replicate n z) (replicate (20 - n) z) v (length-replicate n z)
