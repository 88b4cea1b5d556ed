-- ===== src/GoMap/Laws.antt =====
-- What a map holds after a write or a deletion.
use lightning_onion.Prelude.{false, ◌≡◌, refl, arith, none, some, [], ◌∷◌, ◌||◌, if◌then◌else◌}
use lightning_onion.GoMap.{Eq, GoMap, lookup, insert, delete, has_key}

module _ {K V : Type 0} ⦃e : Eq K⦄ where
  pub lookup-insert :
      (k j : K) (v : V) (m : GoMap K V)
      → lookup j (insert k v m) ≡ (if e.beq k j then some v else lookup j m)
  unfolding lookup insert
  lookup-insert k j v [] = refl
  lookup-insert k j v ((i, w) ∷ m) =
      ground (arith, e.beq_iff k j, e.beq_iff i k, e.beq_iff i j, lookup-insert k j v m)

  pub lookup-delete :
      (k j : K) (m : GoMap K V) → lookup j (delete k m) ≡ (if e.beq k j then none else lookup j m)
  unfolding lookup delete
  lookup-delete k j [] = ground arith
  lookup-delete k j ((i, w) ∷ m) =
      ground (arith, e.beq_iff k j, e.beq_iff i k, e.beq_iff i j, lookup-delete k j m)

  pub has_key-insert :
      (k j : K) (v : V) (m : GoMap K V) → has_key j (insert k v m) ≡ (e.beq k j || has_key j m)
  unfolding has_key
  has_key-insert k j v m = ground (arith, lookup-insert k j v m)

  pub has_key-delete_self : (k : K) (m : GoMap K V) → has_key k (delete k m) ≡ false
  unfolding has_key
  has_key-delete_self k m = ground (arith, lookup-delete k k m, e.beq_iff k k)
