-- ===== src/Router/Address.antt =====
-- The address that `NewRouter` gives a router.
use lightning_onion.Prelude.{ℕ, ◌≡◌, ◌∙◌, arith, none, length, replicate, length-replicate}
use lightning_onion.Bytes.{copy}
use lightning_onion.Bytes.Copy.{length-copy}
use lightning_onion.Crypto.{Primitives, PrivateKey}
use lightning_onion.Crypto.Laws.{Laws}
use lightning_onion.Router.{new_router}

module _ (c : Primitives) (l : Laws c) where
  -- A new router has no address, whatever its key: its node ID has 8 bytes, and
  -- NewAddressPubKeyHash accepts 20 alone.
  pub new_router-node_addr :
      (k : PrivateKey c)
      → (length (new_router c k).node_id ≡ 8) × ((new_router c k).node_addr ≡ none)
  unfolding new_router
  new_router-node_addr k =
      let id = c.hash160 (c.serialize_compressed k.pub_key) in
      let size = length-copy (replicate 8 0) id ∙ length-replicate {A = ℕ} 8 0 in
      (size, l.address_of_hash (copy (replicate 8 0) id) (λ e. omega (arith, size, e)))
