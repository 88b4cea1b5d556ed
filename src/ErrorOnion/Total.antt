-- ===== src/ErrorOnion/Total.antt =====
-- `DecryptError` of crypto.go on any message.
use native.Mathlib.Nat.{zero-add, add-zero}
use lightning_onion.Prelude.{
  none, ℕ, zero, suc, ◌+◌, ◌<◌, ◌≡◌, ◌≢◌, refl, sym, arith, true, inl, inr, ◌⊎◌, Bool-cases, Bytes,
  List, [], ◌∷◌, length, drop, get_elem?, ok, err, panics, unable_to_retrieve, invalid_error_length,
  ◌==◌, ==_iff,
}
use mathlib.Core.Path.{subst}
use lightning_onion.Crypto.{Primitives, PrivateKey}
use lightning_onion.Crypto.Laws.{Laws}
use lightning_onion.Secrets.{generate_shared_secrets}
use lightning_onion.ErrorOnion.{Circuit, round_secret, decrypt_error}
use lightning_onion.ErrorOnion.Layered.{layered}
use lightning_onion.ErrorOnion.Rounds.{
  peel, matches, Unmatched, found_at, decrypt_error-Unmatched, decrypt_error_first_match,
}

module _ (c : Primitives) (l : Laws c) where
  next_round : (i k : ℕ) → suc i + k ≡ i + suc k
  next_round i k = omega arith

  -- The first of `n` rounds from round `i` on in which the MAC matches, if there is one.
  first_match :
      (n i : ℕ) (secrets : List Bytes) (enc : Bytes)
      → Unmatched c l n i secrets enc
        ⊎ ((k : ℕ) × (k < n)
            × Unmatched c l k i secrets enc
            × (matches c l (i + k) secrets (peel c l k i secrets enc) ≡ true))
  unfolding peel
  first_match zero i secrets enc = inl tt
  first_match (suc n) i secrets enc = elim (Bool-cases (matches c l i secrets enc)) [
    | inl here ↦
        inr (
          0,
          omega arith,
          tt,
          subst (λ j. matches c l j secrets enc ≡ true) (sym (add-zero i)) here,
        )
    | inr other ↦
        let next = layered c l (round_secret c none secrets i) enc in
        elim (first_match n (suc i) secrets next) [
          | inl nowhere ↦ inl (other, nowhere)
          | inr found ↦ inr (
            suc found.0,
            omega (arith, found.1),
            (other, found.2),
            subst (λ j. matches c l j secrets (peel c l found.0 (suc i) secrets next) ≡ true)
                (next_round i found.0) found.3,
          )
        ]
  ]

  -- What becomes of a message of the right length, with the secrets of the circuit.
  abbrev pub Rounds : Circuit c → Bytes → List Bytes → Type 0
  Rounds circuit enc secrets =
      (Unmatched c l 20 0 secrets enc × (decrypt_error c circuit enc ≡ err unable_to_retrieve))
      ⊎ ((k : ℕ) × (k < 20)
          × Unmatched c l k 0 secrets enc
          × (matches c l k secrets (peel c l k 0 secrets enc) ≡ true)
          × (decrypt_error c circuit enc
              ≡ found_at c l (get_elem? circuit.payment_path k) (
                  drop 32
                    (layered c l (round_secret c none secrets k) (peel c l k 0 secrets enc)))))

  abbrev pub Outcome : Circuit c → Bytes → Type 0
  Outcome circuit enc =
      ((length enc ≢ 292) × (decrypt_error c circuit enc ≡ err (invalid_error_length (length enc))))
      ⊎ ((length enc ≡ 292) × (circuit.payment_path ≡ []) × (decrypt_error c circuit enc ≡ panics))
      ⊎ ((length enc ≡ 292)
          × (secrets : List Bytes) × (generate_shared_secrets c circuit.payment_path
                circuit.session_key
              ≡ ok secrets)
          × Rounds circuit enc secrets)

  decide-Rounds :
      (circuit : Circuit c) (enc : Bytes) (secrets : List Bytes)
      → generate_shared_secrets c circuit.payment_path circuit.session_key ≡ ok secrets
      → length enc ≡ 292
      → Rounds circuit enc secrets
  decide-Rounds circuit enc secrets shared size = elim (first_match 20 0 secrets enc) [
    | inl nowhere ↦
        inl (nowhere, decrypt_error-Unmatched c l circuit secrets enc shared size nowhere)
    | inr found ↦
        let here =
          subst (λ j. matches c l j secrets (peel c l found.0 0 secrets enc) ≡ true)
            (zero-add found.0) found.3 in
        inr (
          found.0,
          found.1,
          found.2,
          here,
          decrypt_error_first_match c l circuit secrets enc shared size found.0 found.1 found.2
              here,
        )
  ]

  full :
      (path : List c.Point) (session_key : PrivateKey c) (enc : Bytes)
      → length enc ≡ 292
      → Outcome (record { session_key = session_key; payment_path = path }) enc
  unfolding decrypt_error generate_shared_secrets
  full [] session_key enc size = inr (inl (size, refl, rw ((==_iff (length enc) 292).1 size) refl))
  full (p ∷ path) session_key enc size =
      let circuit : Circuit c = record { session_key = session_key; payment_path = p ∷ path } in
      inr (inr (size, _, refl, decide-Rounds circuit enc _ refl size))

  -- For every circuit and every message, one of four cases holds: a message that has not 292
  -- bytes is refused with an error that tells its length; with an empty path DecryptError panics;
  -- if the MAC matches in none of the twenty rounds, it returns the error that the onion failure
  -- cannot be retrieved; and otherwise the first round `k` in which it matches decides, and the
  -- result is the key at `k` of the path with the message of that round without its MAC, or a
  -- panic if the path ends before `k`.
  pub decrypt_error-Outcome : (circuit : Circuit c) (enc : Bytes) → Outcome circuit enc
  unfolding decrypt_error
  decrypt_error-Outcome circuit enc = elim (Bool-cases (length enc == 292)) [
    | inl right ↦
        full circuit.payment_path circuit.session_key enc ((==_iff (length enc) 292).0 right)
    | inr wrong ↦ inl ((λ e. cc (wrong, (==_iff (length enc) 292).1 e)), rw wrong refl)
  ]
