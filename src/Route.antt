-- ===== src/Route.antt =====
-- path.go: a payment path is an array of `NumMaxHops` hops, of which the first empty one ends the
-- route.
pub mod Length
use lightning_onion.Prelude.{ℕ, zero, suc, ◌+◌, ◌≡◌, Bool, List, [], ◌∷◌, length, if◌then◌else◌}
use lightning_onion.Crypto.{Primitives}
use lightning_onion.Sizes.{num_max_hops}
use lightning_onion.HopData.{HopData}

module _ (c : Primitives) where
  open c use {Point, is_nil}

  pub record OnionHop : Type 0 where
    pub node_pub : Point
    pub hop_data : HopData

  abbrev pub PaymentPath : Type 0
  PaymentPath = List OnionHop

  -- The array has `NumMaxHops` elements.
  abbrev pub IsPaymentPath : PaymentPath → Type 0
  IsPaymentPath path = length path ≡ num_max_hops

  unfoldable pub is_empty : OnionHop → Bool
  is_empty o = is_nil o.node_pub

  -- The loop of `TrueRouteLength`, with the count so far.
  unfoldable pub route_length_loop : List OnionHop → ℕ → ℕ
  unfolding is_empty
  route_length_loop [] route_length = route_length
  route_length_loop (hop ∷ hops) route_length =
      let more = route_length_loop hops (route_length + 1) in
      if is_empty hop then route_length else more

  unfoldable pub true_route_length : PaymentPath → ℕ
  unfolding route_length_loop
  true_route_length path = route_length_loop path 0

  -- The pointers to the keys of the first `route_len` hops.
  unfoldable pub node_keys_loop : ℕ → List OnionHop → List Point
  node_keys_loop zero hops = []
  node_keys_loop (suc left) [] = []
  node_keys_loop (suc left) (hop ∷ hops) = hop.node_pub ∷ node_keys_loop left hops

  unfoldable pub node_keys : PaymentPath → List Point
  unfolding true_route_length node_keys_loop
  node_keys path = node_keys_loop (true_route_length path) path
