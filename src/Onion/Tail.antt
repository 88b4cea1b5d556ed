-- ===== src/Onion/Tail.antt =====
-- The end of the headers of a route: the filler, and what a node finds behind its layer.
use lightning_onion.Prelude.{
  ◌+◌, ◌-◌, ◌*◌, ◌≤◌, ◌≡◌, sym, ap, ◌∙◌, arith, List, [], ◌∷◌, ◌++◌, Bytes, length, drop,
}
use lightning_onion.Crypto.{Primitives, rho}
use lightning_onion.Crypto.Laws.{Laws}
use lightning_onion.Crypto.Keys.{length-stream_of}
use lightning_onion.HopData.RoundTrip.{hop_bytes, length-hop_bytes}
use lightning_onion.Onion.Layers.{
  grow, peeled, peeled-layer, drop-next_tail, drop-layer, peeled-last_layer, drop-last_layer,
}
use lightning_onion.Onion.Filler.{header_stream, filler_of, length-grow}
use lightning_onion.Onion.Wrapped.{
  Leg, AreLegs, header, secrets_of, with_hmac, with_hmac-IsHopData, length-header,
}

module _ (c : Primitives) (l : Laws c) (filler assoc_data : Bytes)
    (room : length filler + 65 ≤ 1300) where
  abbrev next_header : List (Leg c) → Bytes
  next_header rest = (header c l filler assoc_data rest).0

  -- The serialized hop data that the packet for `x ∷ rest` holds.
  abbrev pub payload : Leg c → List (Leg c) → Bytes
  payload x rest = hop_bytes (with_hmac x.hop.hop_data (header c l filler assoc_data rest).1)

  pub length-payload :
      (x : Leg c) (rest : List (Leg c)) → AreLegs c (x ∷ rest) → length (payload x rest) ≡ 65
  length-payload x rest v = length-hop_bytes _ (
      with_hmac-IsHopData x.hop.hop_data _ v.0
        (length-header c l filler assoc_data room rest v.1).1)

  -- `f` is the filler when the packet for these legs is on its way.
  drop-header :
      (f : Bytes) (x : Leg c) (rest : List (Leg c))
      → AreLegs c (x ∷ rest)
      → filler ≡ filler_of c l f (secrets_of c (x ∷ rest))
      → length f + length (x ∷ rest) * 65 ≤ 1300
      → drop (1300 - length f) (next_header (x ∷ rest)) ≡ f
  unfolding header
  drop-header f x [] v e fits =
      ap (λ t. drop (1300 - length t) (next_header (x ∷ []))) (sym e)
      ∙ drop-last_layer 65 1300 (omega arith) (payload x []) (next_header []) filler
          (header_stream c l x.secret) (length-payload x [] v)
          (length-header c l filler assoc_data room [] tt).0 room
          (length-stream_of c l rho x.secret 1365)
      ∙ e
  drop-header f x (y ∷ ys) v e fits =
      let s = header_stream c l x.secret in
      drop-layer 65 1300 (omega arith) (payload x (y ∷ ys)) f (next_header (y ∷ ys)) s
        (length-payload x (y ∷ ys) v) (length-header c l filler assoc_data room (y ∷ ys) v.1).0
        (omega arith) (length-stream_of c l rho x.secret 1365)
        (ap (λ n. drop (1300 - n) (next_header (y ∷ ys)))
            (sym (length-grow c l f x.secret (omega arith)))
          ∙ drop-header (grow 65 1300 f s) y ys v.1 e
              (omega (arith, length-grow c l f x.secret (omega arith))))

  -- A layer that is taken off leaves the hop's data and the next header.
  pub peeled-header :
      (f : Bytes) (x y : Leg c) (ys : List (Leg c))
      → AreLegs c (x ∷ y ∷ ys)
      → filler ≡ filler_of c l f (secrets_of c (x ∷ y ∷ ys))
      → length f + length (x ∷ y ∷ ys) * 65 ≤ 1300
      → peeled 65 (next_header (x ∷ y ∷ ys)) (header_stream c l x.secret)
        ≡ payload x (y ∷ ys) ++ next_header (y ∷ ys)
  unfolding header
  peeled-header f x y ys v e fits =
      let s = header_stream c l x.secret in
      let k = length-stream_of c l rho x.secret 1365 in
      let f' = grow 65 1300 f s in
      let lf = length-grow c l f x.secret (omega arith) in
      let n = (length-header c l filler assoc_data room (y ∷ ys) v.1).0 in
      peeled-layer 65 1300 (omega arith) (payload x (y ∷ ys)) (next_header (y ∷ ys)) s
        (length-payload x (y ∷ ys) v) n k
        (drop-next_tail 65 1300 (omega arith) f (next_header (y ∷ ys)) s (omega arith) k (
          ap (λ n. drop (1300 - n) (next_header (y ∷ ys))) (sym lf)
          ∙ drop-header f' y ys v.1 e (omega (arith, lf))))

  -- The last layer leaves the last hop's data in front.
  pub peeled-last_header :
      (x : Leg c)
      → AreLegs c (x ∷ [])
      → let p = peeled 65 (next_header (x ∷ [])) (header_stream c l x.secret) in
        p ≡ payload x [] ++ drop 65 p
  unfolding header
  peeled-last_header x v =
      peeled-last_layer 65 1300 (omega arith) (payload x []) (next_header []) filler
        (header_stream c l x.secret) (length-payload x [] v)
        (length-header c l filler assoc_data room [] tt).0 room
        (length-stream_of c l rho x.secret 1365)
