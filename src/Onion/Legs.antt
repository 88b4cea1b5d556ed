-- ===== src/Onion/Legs.antt =====
-- The hops of a payment path of path.go, up to the first empty one, with the secrets of
-- `generateSharedSecrets` of sphinx.go.
use lightning_onion.Prelude.{
  ℕ, suc, ◌≡◌, refl, ap, arith, Bool-cases, inl, inr, List, [], ◌∷◌, ◌++◌, All, Bytes, length, ok,
}
use lightning_onion.Crypto.{Primitives, PrivateKey}
use lightning_onion.HopData.{IsHopData}
use lightning_onion.Route.{OnionHop, is_empty}
use lightning_onion.Route.Length.{IsUsed, StartsEmpty, keys_of}
use lightning_onion.Secrets.{secrets_loop, generate_shared_secrets}
use lightning_onion.Onion.Wrapped.{Leg, AreLegs, hops_of, secrets_of}
use lightning_onion.Router.Stops.{SameButHmac}

module _ (c : Primitives) where
  -- The hops of a path up to the first empty one, and the others.
  pub split_route :
      (path : List (OnionHop c))
      → (used : List (OnionHop c)) × (rest : List (OnionHop c)) × (path ≡ used ++ rest)
        × IsUsed c used
        × StartsEmpty c rest
  split_route [] = ([], [], refl, tt, tt)
  split_route (o ∷ os) = elim (Bool-cases (is_empty c o)) [
    | inl empty ↦ ([], o ∷ os, refl, tt, empty)
    | inr used ↦
        let more = split_route os in
        (o ∷ more.0, more.1, ap (λ t. o ∷ t) more.2, (used, more.3), more.4)
  ]

  -- Hops together with their secrets.
  abbrev pub legs_of : List (OnionHop c) → List Bytes → List (Leg c)
  legs_of [] ss = []
  legs_of (o ∷ os) [] = []
  legs_of (o ∷ os) (s ∷ ss) = record { hop = o; secret = s } ∷ legs_of os ss

  pub hops_of-legs_of :
      (os : List (OnionHop c)) (ss : List Bytes)
      → length ss ≡ length os
      → hops_of c (legs_of os ss) ≡ os
  hops_of-legs_of [] ss e = refl
  hops_of-legs_of (o ∷ os) [] e = absurd (omega arith)
  hops_of-legs_of (o ∷ os) (s ∷ ss) e = ap (λ t. o ∷ t) (hops_of-legs_of os ss (omega arith))

  pub secrets_of-legs_of :
      (os : List (OnionHop c)) (ss : List Bytes)
      → length ss ≡ length os
      → secrets_of c (legs_of os ss) ≡ ss
  secrets_of-legs_of [] [] e = refl
  secrets_of-legs_of [] (s ∷ ss) e = absurd (omega arith)
  secrets_of-legs_of (o ∷ os) [] e = absurd (omega arith)
  secrets_of-legs_of (o ∷ os) (s ∷ ss) e = ap (λ t. s ∷ t) (secrets_of-legs_of os ss (omega arith))

  pub length-secrets_loop :
      (os : List (OnionHop c)) (cached : ℕ) (bf : Bytes)
      → length (secrets_loop c cached bf (keys_of c os)) ≡ length os
  unfolding secrets_loop
  length-secrets_loop [] cached bf = refl
  length-secrets_loop (o ∷ os) cached bf = ap suc (length-secrets_loop os _ _)

  pub secrets_for :
      (o : OnionHop c) (os : List (OnionHop c)) (session_key : PrivateKey c)
      → (s : Bytes) × (ss : List Bytes) × (generate_shared_secrets c
            (keys_of c (o ∷ os))
            session_key
          ≡ ok (s ∷ ss))
        × (length ss ≡ length os)
  unfolding generate_shared_secrets
  secrets_for o os session_key = (_, _, refl, length-secrets_loop os _ _)

  -- What the array type says of the data of each hop.
  abbrev pub HasData : List (OnionHop c) → Type 0
  HasData path = All (λ o. IsHopData o.hop_data) path

  pub SameButHmac-refl : (path : List (OnionHop c)) → SameButHmac c path path
  SameButHmac-refl [] = tt
  SameButHmac-refl (o ∷ os) = (refl, SameButHmac-refl os)

  pub append-HasData : (xs ys : List (OnionHop c)) → HasData xs → HasData ys → HasData (xs ++ ys)
  append-HasData [] ys v w = w
  append-HasData (x ∷ xs) ys v w = (v.0, append-HasData xs ys v.1 w)

  pub split-HasData : (xs ys : List (OnionHop c)) → HasData (xs ++ ys) → HasData xs × HasData ys
  split-HasData [] ys v = (tt, v)
  split-HasData (x ∷ xs) ys v = let rest = split-HasData xs ys v.1 in ((v.0, rest.0), rest.1)

  pub AreLegs-HasData : (xs : List (Leg c)) → HasData (hops_of c xs) → AreLegs c xs
  AreLegs-HasData [] v = tt
  AreLegs-HasData (x ∷ xs) v = (v.0, AreLegs-HasData xs v.1)
