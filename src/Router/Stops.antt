-- ===== src/Router/Stops.antt =====
-- A route of `NewOnionPacket` of sphinx.go: its nodes, their hops, and the secrets on the way.
use lightning_onion.Prelude.{suc, ◌≡◌, refl, ap, ap₂, true, false, List, [], ◌∷◌, All, length}
use lightning_onion.Crypto.{Primitives, PrivateKey, zero_hmac}
use lightning_onion.Crypto
use lightning_onion.Crypto.Laws.{Laws, IsKeyPair}
use lightning_onion.HopData.{IsHopData}
use lightning_onion.Route.{OnionHop, is_empty}
use lightning_onion.Route.Length.{IsUsed, keys_of}
use lightning_onion.Secrets.Agreement.{public_keys, next_ephemeral, router_secrets}
use lightning_onion.Onion.Wrapped.{Leg, AreLegs, seal_hop, secrets_of, hops_of}

-- A node of a route: its private key, and the hop that the sender makes out for it.
pub record Stop (c : Primitives) : Type 0 where
  pub key : PrivateKey c
  pub hop : OnionHop c

module _ (c : Primitives) where
  abbrev pub keys : List (Stop c) → List (PrivateKey c)
  keys [] = []
  keys (s ∷ ss) = s.key ∷ keys ss

  abbrev pub hops : List (Stop c) → List (OnionHop c)
  hops [] = []
  hops (s ∷ ss) = s.hop ∷ hops ss

  -- The legs of a route on which the first node receives the key `eph`.
  abbrev pub legs : c.Point → List (Stop c) → List (Leg c)
  legs eph [] = []
  legs eph (s ∷ ss) =
      record { hop = s.hop; secret = Crypto.generate_shared_secret c eph s.key }
      ∷ legs (next_ephemeral c eph s.key) ss

  -- Every ephemeral key on the way lies on the curve.
  abbrev pub OnCurve : c.Point → List (Stop c) → Type 0
  OnCurve eph [] = Unit
  OnCurve eph (s ∷ ss) = (c.is_on_curve eph ≡ true) × OnCurve (next_ephemeral c eph s.key) ss

  -- Two paths that differ in the HMACs alone.
  abbrev pub SameButHmac : List (OnionHop c) → List (OnionHop c) → Type 0
  SameButHmac [] [] = Unit
  SameButHmac [] (q ∷ qs) = ⊥
  SameButHmac (o ∷ os) [] = ⊥
  SameButHmac (o ∷ os) (q ∷ qs) = (q ≡ seal_hop c o q.hop_data.hmac) × SameButHmac os qs

module _ (c : Primitives) (l : Laws c) where
  -- What a route has to fulfil: its nodes have key pairs, and the hops bear their public keys,
  -- well-formed data, and are not empty.
  abbrev pub IsRoute : List (Stop c) → Type 0
  IsRoute route =
      All
        (λ (s : Stop c).
          IsKeyPair c l s.key
          × (s.hop.node_pub ≡ s.key.pub_key)
          × (c.is_nil s.hop.node_pub ≡ false)
          × IsHopData s.hop.hop_data)
        route

  pub AreLegs-legs : (eph : c.Point) (ss : List (Stop c)) → IsRoute ss → AreLegs c (legs c eph ss)
  AreLegs-legs eph [] v = tt
  AreLegs-legs eph (s ∷ ss) v = (v.0.3, AreLegs-legs (next_ephemeral c eph s.key) ss v.1)

  pub secrets_of-legs :
      (eph : c.Point) (ss : List (Stop c))
      → secrets_of c (legs c eph ss) ≡ router_secrets c eph (keys c ss)
  secrets_of-legs eph [] = refl
  secrets_of-legs eph (s ∷ ss) =
      ap (λ t. Crypto.generate_shared_secret c eph s.key ∷ t)
        (secrets_of-legs (next_ephemeral c eph s.key) ss)

  pub hops_of-legs : (eph : c.Point) (ss : List (Stop c)) → hops_of c (legs c eph ss) ≡ hops c ss
  hops_of-legs eph [] = refl
  hops_of-legs eph (s ∷ ss) = ap (λ t. s.hop ∷ t) (hops_of-legs (next_ephemeral c eph s.key) ss)

  pub length-legs : (eph : c.Point) (ss : List (Stop c)) → length (legs c eph ss) ≡ length ss
  length-legs eph [] = refl
  length-legs eph (s ∷ ss) = ap suc (length-legs (next_ephemeral c eph s.key) ss)

  pub keys_of-hops :
      (ss : List (Stop c)) → IsRoute ss → keys_of c (hops c ss) ≡ public_keys c (keys c ss)
  keys_of-hops [] v = refl
  keys_of-hops (s ∷ ss) v = ap₂ ◌∷◌ v.0.1 (keys_of-hops ss v.1)

  pub All-pairs : (ss : List (Stop c)) → IsRoute ss → All (IsKeyPair c l) (keys c ss)
  All-pairs [] v = tt
  All-pairs (s ∷ ss) v = (v.0.0, All-pairs ss v.1)

  pub IsUsed-hops : (ss : List (Stop c)) → IsRoute ss → IsUsed c (hops c ss)
  unfolding is_empty
  IsUsed-hops [] v = tt
  IsUsed-hops (s ∷ ss) v = (v.0.2, IsUsed-hops ss v.1)
