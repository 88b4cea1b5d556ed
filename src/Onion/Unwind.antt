-- ===== src/Onion/Unwind.antt =====
-- A list that is worked off from its end: `unwind r done` is the reverse of `r` before `done`.
use lightning_onion.Prelude.{
  ℕ, suc, ◌+◌, ◌≡◌, refl, ap, arith, some, List, [], ◌∷◌, ◌++◌, length, get_elem?, set,
}

module _ {ℓ} {A : Type ℓ} where
  abbrev pub unwind : List A → List A → List A
  unwind [] done = done
  unwind (x ∷ r) done = unwind r (x ∷ done)

  abbrev pub wind : List A → List A → List A
  wind [] r = r
  wind (x ∷ xs) r = wind xs (x ∷ r)

  pub unwind-wind : (xs r done : List A) → unwind (wind xs r) done ≡ unwind r (xs ++ done)
  unwind-wind [] r done = refl
  unwind-wind (x ∷ xs) r done = unwind-wind xs (x ∷ r) done

  pub length-unwind : (r done : List A) → length (unwind r done) ≡ length r + length done
  length-unwind [] done = omega arith
  length-unwind (x ∷ r) done = omega (arith, length-unwind r (x ∷ done))

  get-unwind_from :
      (r done : List A) (k n : ℕ)
      → n ≡ length r + k
      → get_elem? (unwind r done) n ≡ get_elem? done k
  unfolding get_elem?
  get-unwind_from [] done k n e = ap (get_elem? done) (omega arith)
  get-unwind_from (x ∷ r) done k n e = get-unwind_from r (x ∷ done) (suc k) n (omega arith)

  -- The element that is worked off next stands at the index of those that are left.
  pub get_elem?-unwind :
      (r done : List A) (x : A) → get_elem? (unwind r (x ∷ done)) (length r) ≡ some x
  unfolding get_elem?
  get_elem?-unwind r done x = get-unwind_from r (x ∷ done) 0 (length r) (omega arith)

  set-unwind_from :
      (r done : List A) (k n : ℕ) (v : A)
      → n ≡ length r + k
      → set (unwind r done) n v ≡ unwind r (set done k v)
  unfolding set
  set-unwind_from [] done k n v e = ap (λ t. set done t v) (omega arith)
  set-unwind_from (x ∷ r) done k n v e = set-unwind_from r (x ∷ done) (suc k) n v (omega arith)

  pub set-unwind :
      (r done : List A) (x v : A) → set (unwind r (x ∷ done)) (length r) v ≡ unwind r (v ∷ done)
  unfolding set
  set-unwind r done x v = set-unwind_from r (x ∷ done) 0 (length r) v (omega arith)
