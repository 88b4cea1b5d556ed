-- ===== src/Route/Length.antt =====
-- The length of a route, and the keys on it.
use lightning_onion.Prelude.{
  ℕ, ◌+◌, ◌≡◌, refl, ap, arith, true, false, List, [], ◌∷◌, ◌++◌, All, length,
}
use lightning_onion.Crypto.{Primitives}
use lightning_onion.Route.{
  OnionHop, is_empty, route_length_loop, true_route_length, node_keys_loop, node_keys,
}

module _ (c : Primitives) where
  open c use {Point}

  -- The hops that a route uses, and what stands behind them in the array.
  abbrev pub IsUsed : List (OnionHop c) → Type 0
  IsUsed hops = All (λ o. is_empty c o ≡ false) hops

  abbrev pub StartsEmpty : List (OnionHop c) → Type 0
  StartsEmpty [] = Unit
  StartsEmpty (o ∷ os) = is_empty c o ≡ true

  abbrev pub keys_of : List (OnionHop c) → List Point
  keys_of [] = []
  keys_of (o ∷ os) = o.node_pub ∷ keys_of os

  route_length_loop_lem :
      (hops rest : List (OnionHop c)) (n : ℕ)
      → IsUsed hops
      → StartsEmpty rest
      → route_length_loop c (hops ++ rest) n ≡ n + length hops
  unfolding route_length_loop
  route_length_loop_lem [] [] n u e = omega arith
  route_length_loop_lem [] (o ∷ rest) n u e = rw e (omega arith)
  route_length_loop_lem (o ∷ hops) rest n u e =
      rw u.0 (omega (arith, route_length_loop_lem hops rest (n + 1) u.1 e))

  -- For hops that are not empty, with nothing or an empty hop behind them, the length of the
  -- route is the number of these hops.
  pub true_route_length_lem :
      (hops rest : List (OnionHop c))
      → IsUsed hops
      → StartsEmpty rest
      → true_route_length c (hops ++ rest) ≡ length hops
  unfolding true_route_length
  true_route_length_lem hops rest u e = omega (arith, route_length_loop_lem hops rest 0 u e)

  node_keys_loop_lem :
      (hops rest : List (OnionHop c)) → node_keys_loop c (length hops) (hops ++ rest) ≡ keys_of hops
  unfolding node_keys_loop
  node_keys_loop_lem [] rest = refl
  node_keys_loop_lem (o ∷ hops) rest = ap (λ t. o.node_pub ∷ t) (node_keys_loop_lem hops rest)

  -- For hops that are not empty, with nothing or an empty hop behind them, the node keys are
  -- those of these hops, in their order.
  pub node_keys_lem :
      (hops rest : List (OnionHop c))
      → IsUsed hops
      → StartsEmpty rest
      → node_keys c (hops ++ rest) ≡ keys_of hops
  unfolding node_keys
  node_keys_lem hops rest u e =
      rw (true_route_length_lem hops rest u e) (node_keys_loop_lem hops rest)
