-- ===== src/Secrets.antt =====
-- `generateSharedSecrets` of sphinx.go: the sender's shared secrets for all hops of a path.
pub mod Agreement
use lightning_onion.Prelude.{ℕ, ◌*◌, ◌%◌, List, [], ◌∷◌, Bytes, Result, ok, panics}
use lightning_onion.Bytes.{of_bytes, to_bytes}
use lightning_onion.Crypto.{
  Primitives, PrivateKey, generate_shared_secret, compute_blinding_factor, blind_base_element,
  blind_group_element,
}

module _ (c : Primitives) where
  open c use {Point, order, sha256, serialize_compressed}

  -- The loop from the second hop on. It carries `cachedBlindingFactor` and `lastBlindingFactor`;
  -- the last round's blinding factor, before which the source breaks off, is not read.
  unfoldable pub secrets_loop : ℕ → Bytes → List Point → List Bytes
  secrets_loop cached last_blinding_factor [] = []
  secrets_loop cached last_blinding_factor (hop ∷ hops) =
      let cached' = cached * of_bytes last_blinding_factor % order in
      let ephemeral = blind_base_element c (to_bytes cached') in
      let hop_blinded_pub_key = blind_group_element c hop (to_bytes cached') in
      let secret = sha256 (serialize_compressed hop_blinded_pub_key) in
      secret ∷ secrets_loop cached' (compute_blinding_factor c ephemeral secret) hops

  -- An empty path is an index out of range.
  unfoldable pub generate_shared_secrets : List Point → PrivateKey c → Result (List Bytes)
  unfolding secrets_loop
  generate_shared_secrets [] session_key = panics
  generate_shared_secrets (hop ∷ hops) session_key =
      let secret = generate_shared_secret c hop session_key in
      let blinding_factor = compute_blinding_factor c session_key.pub_key secret in
      ok (secret ∷ secrets_loop (of_bytes (to_bytes session_key.d)) blinding_factor hops)
