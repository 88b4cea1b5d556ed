-- ===== src/Secrets/Agreement.antt =====
-- `generateSharedSecrets` of sphinx.go beside `generateSharedSecret` of the routers on the path.
use native.Mathlib.Nat.{mul_comm}
use lightning_onion.Prelude.{ℕ, ◌*◌, ◌%◌, ◌≡◌, refl, sym, ap, ◌∙◌, List, [], ◌∷◌, Bytes, All, ok}
use lightning_onion.Bytes.{of_bytes, to_bytes}
use lightning_onion.Bytes.BigEndian.{of_bytes-to_bytes}
use lightning_onion.Crypto.{
  Primitives, PrivateKey, generate_shared_secret, compute_blinding_factor, blind_base_element,
  blind_group_element,
}
use lightning_onion.Crypto.Laws.{Laws, IsKeyPair}
use lightning_onion.Secrets.{secrets_loop, generate_shared_secrets}

module _ (c : Primitives) where
  open c use {Point}

  abbrev pub public_keys : List (PrivateKey c) → List Point
  public_keys [] = []
  public_keys (k ∷ ks) = k.pub_key ∷ public_keys ks

  -- The ephemeral key that a router hands on: its own, blinded.
  abbrev pub next_ephemeral : Point → PrivateKey c → Point
  next_ephemeral eph k =
      blind_group_element c eph (compute_blinding_factor c eph (generate_shared_secret c eph k))

  -- The secrets of routers with the keys `ks`, the first of which receives `eph`.
  abbrev pub router_secrets : Point → List (PrivateKey c) → List Bytes
  router_secrets eph [] = []
  router_secrets eph (k ∷ ks) =
      generate_shared_secret c eph k ∷ router_secrets (next_ephemeral eph k) ks

module _ (c : Primitives) (l : Laws c) where
  open c use {Point}

  -- Both sides of a Diffie-Hellman exchange arrive at one point.
  exchange :
      (k : PrivateKey c) (n : ℕ)
      → IsKeyPair c l k
      → c.scalar_mult k.pub_key (to_bytes n) ≡ c.scalar_mult (l.multiple n) (to_bytes k.d)
  exchange k n e =
      ap (λ p. c.scalar_mult p (to_bytes n)) e
      ∙ l.mult k.d (to_bytes n)
      ∙ ap l.multiple (
          ap (λ t. t * k.d) (of_bytes-to_bytes n)
          ∙ mul_comm n k.d
          ∙ ap (λ t. t * n) (sym (of_bytes-to_bytes k.d)))
      ∙ sym (l.mult n (to_bytes k.d))

  -- The sender's next ephemeral key is the previous one, blinded by its holder.
  blinded :
      (n : ℕ) (bf : Bytes)
      → blind_group_element c (l.multiple n) bf ≡ l.multiple (n * of_bytes bf % c.order)
  unfolding blind_group_element
  blinded n bf =
      l.mult n bf
      ∙ ap l.multiple (mul_comm (of_bytes bf) n)
      ∙ sym (l.multiple_mod (n * of_bytes bf))

  base_blinded : (n : ℕ) → blind_base_element c (to_bytes n) ≡ l.multiple n
  unfolding blind_base_element
  base_blinded n = l.base_mult (to_bytes n) ∙ ap l.multiple (of_bytes-to_bytes n)

  -- The secret that the sender computes for a hop is the one that its holder computes.
  same_secret :
      (k : PrivateKey c) (n : ℕ)
      → IsKeyPair c l k
      → c.sha256 (c.serialize_compressed (blind_group_element c k.pub_key (to_bytes n)))
        ≡ generate_shared_secret c (l.multiple n) k
  unfolding blind_group_element generate_shared_secret
  same_secret k n e = ap (λ p. c.sha256 (c.serialize_compressed p)) (exchange k n e)

  secrets_loop_lem :
      (n : ℕ) (bf : Bytes) (ks : List (PrivateKey c))
      → All (IsKeyPair c l) ks
      → secrets_loop c n bf (public_keys c ks)
        ≡ router_secrets c (blind_group_element c (l.multiple n) bf) ks
  unfolding secrets_loop
  secrets_loop_lem n bf [] h = refl
  secrets_loop_lem n bf (k ∷ ks) h =
      let m = n * of_bytes bf % c.order in
      rw (blinded n bf, same_secret k m h.0, base_blinded m)
        (ap (λ t. generate_shared_secret c (l.multiple m) k ∷ t)
          (secrets_loop_lem m
            (compute_blinding_factor c (l.multiple m) (generate_shared_secret c (l.multiple m) k))
            ks h.1))

  first_secret :
      (s k : PrivateKey c)
      → IsKeyPair c l s
      → IsKeyPair c l k
      → generate_shared_secret c k.pub_key s ≡ generate_shared_secret c s.pub_key k
  unfolding generate_shared_secret
  first_secret s k e h =
      ap (λ p. c.sha256 (c.serialize_compressed p))
        (exchange k s.d h ∙ ap (λ p. c.scalar_mult p (to_bytes k.d)) (sym e))

  -- For a path of key pairs, and a session key that is one, the sender obtains exactly the secrets
  -- that the routers on the path derive when the packet reaches them in turn, each from the
  -- ephemeral key that the router before it has blinded.
  pub generate_shared_secrets-eq-router_secrets :
      (session_key : PrivateKey c) (k : PrivateKey c) (ks : List (PrivateKey c))
      → IsKeyPair c l session_key
      → All (IsKeyPair c l) (k ∷ ks)
      → generate_shared_secrets c (public_keys c (k ∷ ks)) session_key
        ≡ ok (router_secrets c session_key.pub_key (k ∷ ks))
  unfolding generate_shared_secrets
  generate_shared_secrets-eq-router_secrets s k ks e h =
      let secret = generate_shared_secret c s.pub_key k in
      let bf = compute_blinding_factor c s.pub_key secret in
      rw (first_secret s k e h.0, of_bytes-to_bytes s.d)
        (ap (λ t. ok (secret ∷ t))
          (secrets_loop_lem s.d bf ks h.1
            ∙ ap (λ p. router_secrets c (blind_group_element c p bf) ks) (sym e)))
