-- ===== src/Batch/Invariant.antt =====
-- `Put` of batch.go: the entries and the cache of a batch.
use lightning_onion.Prelude.{
  ℕ, ◌≡◌, refl, sym, ap, ◌∙◌, inl, inr, arith, Bool, true, false, some, Bytes, ok, err, Result,
  already_committed, ◌⊎◌, Bool-cases, bytes_eq_refl, ◌==◌, ==_iff, if◌then◌else◌,
}
use lightning_onion.GoMap.{nat_eq, bytes_key, lookup, insert, has_key}
use lightning_onion.GoMap.Laws.{lookup-insert, has_key-insert}
use lightning_onion.Replays.{contains, add}
use lightning_onion.Batch.{Batch, BatchEntry, new_batch, put}

-- The prefix of every entry is in the cache, and no two entries have the same prefix.
pub record IsBatch (b : Batch) : Type 0 where
  pub cached :
      (i : ℕ) (x : BatchEntry)
      → lookup i b.entries ≡ some x
      → has_key x.hash_prefix b.replay_cache ≡ true
  pub distinct :
      (i j : ℕ) (x y : BatchEntry)
      → lookup i b.entries ≡ some x
      → lookup j b.entries ≡ some y
      → x.hash_prefix ≡ y.hash_prefix
      → i ≡ j

pub new_batch-IsBatch : (id : Bytes) → IsBatch (new_batch id)
unfolding new_batch lookup
new_batch-IsBatch id = record {
  cached = λ i x e. absurd (cc e);
  distinct = λ i j x y e f. absurd (cc e);
}

-- The batch behind Put's three branches.
abbrev entered : ℕ → Bytes → ℕ → Batch → Batch
entered seq_num hash_prefix cltv b = record b {
  entries = insert seq_num (record { hash_prefix = hash_prefix; cltv = cltv }) b.entries;
  replay_cache = insert hash_prefix tt b.replay_cache;
}

module _ (seq_num : ℕ) (hash_prefix : Bytes) (cltv : ℕ) (b : Batch) where
  -- Where an entry of the new batch comes from.
  found :
      (i : ℕ) (x : BatchEntry)
      → lookup i (entered seq_num hash_prefix cltv b).entries ≡ some x
      → ((seq_num ≡ i) × (x.hash_prefix ≡ hash_prefix)) ⊎ (lookup i b.entries ≡ some x)
  found i x e =
      let entry : BatchEntry = record { hash_prefix = hash_prefix; cltv = cltv } in
      elim (Bool-cases (seq_num == i)) [
        | inl same ↦
            let there : some entry ≡ some x =
              rw (lookup-insert seq_num i entry b.entries, same) at e in
            let it : entry ≡ x = cc there in
            inl ((==_iff seq_num i).0 same, ap (λ (t : BatchEntry). t.hash_prefix) (sym it))
        | inr other ↦ inr (rw (lookup-insert seq_num i entry b.entries, other) at e)
      ]

  kept :
      (h : Bytes)
      → has_key h b.replay_cache ≡ true
      → has_key h (entered seq_num hash_prefix cltv b).replay_cache ≡ true
  kept h k = ground (arith, has_key-insert hash_prefix h tt b.replay_cache)

  cached_now : has_key hash_prefix (entered seq_num hash_prefix cltv b).replay_cache ≡ true
  cached_now =
      rw (has_key-insert hash_prefix hash_prefix tt b.replay_cache, bytes_eq_refl hash_prefix) refl

  entered-IsBatch :
      has_key hash_prefix b.replay_cache ≡ false
      → IsBatch b
      → IsBatch (entered seq_num hash_prefix cltv b)
  entered-IsBatch new v = record {
    cached = λ i x e. elim (found i x e) [
      | inl here ↦ rw here.1 cached_now
      | inr there ↦ kept x.hash_prefix (v.cached i x there)
    ];
    distinct = λ i j x y e f same. elim (found i x e) [
      | inl here ↦ elim (found j y f) [
        | inl here2 ↦ sym here.0 ∙ here2.0
        | inr there2 ↦ absurd (cc (here.1, same, new, v.cached j y there2))
      ]
      | inr there ↦ elim (found j y f) [
        | inl here2 ↦ absurd (cc (here2.1, same, new, v.cached i x there))
        | inr there2 ↦ v.distinct i j x y there there2 same
      ]
    ];
  }

  choose {ℓ} :
      (P : Result (Unit {0}) × Batch → Type ℓ) (p q : Bool) (x y z : Result (Unit {0}) × Batch)
      → (p ≡ true → P x)
      → (p ≡ false → q ≡ true → P y)
      → (p ≡ false → q ≡ false → P z)
      → P (if p then x else if q then y else z)
  choose P true q x y z f g h = f refl
  choose P false true x y z f g h = g refl refl
  choose P false false x y z f g h = h refl refl

  -- The three branches of Put.
  put_cases {ℓ} :
      (P : Result (Unit {0}) × Batch → Type ℓ)
      → (b.is_committed ≡ true → P (err already_committed, b))
      → (b.is_committed ≡ false
          → has_key hash_prefix b.replay_cache ≡ true
          → P (ok tt, record b { replay_set = add b.replay_set seq_num }))
      → (b.is_committed ≡ false
          → has_key hash_prefix b.replay_cache ≡ false
          → P (ok tt, entered seq_num hash_prefix cltv b))
      → P (put seq_num hash_prefix cltv b)
  unfolding put
  put_cases P f g h = choose P b.is_committed (has_key hash_prefix b.replay_cache) _ _ _ f g h

  -- If the prefix of every entry of a batch is in its cache, and no two entries have the same
  -- prefix, then this is so after a Put too, on every branch of it.
  pub put-IsBatch : IsBatch b → IsBatch (put seq_num hash_prefix cltv b).1
  put-IsBatch v =
      put_cases (λ r. IsBatch r.1) (λ _. v)
        (λ _ _. record { cached = v.cached; distinct = v.distinct })
        (λ _ new. entered-IsBatch new v)

  -- After a Put without an error the batch is pending and has the prefix in its cache.
  put_ok :
      (b1 : Batch)
      → put seq_num hash_prefix cltv b ≡ (ok tt, b1)
      → (b1.is_committed ≡ false) × (has_key hash_prefix b1.replay_cache ≡ true)
  put_ok b1 =
      put_cases
        (λ r.
          r ≡ (ok tt, b1)
          → (b1.is_committed ≡ false) × (has_key hash_prefix b1.replay_cache ≡ true))
        (λ _ e. absurd (cc e))
        (λ pending old e. (
          ap (λ t. t.1.is_committed) (sym e) ∙ pending,
          ap (λ t. has_key hash_prefix t.1.replay_cache) (sym e) ∙ old,
        ))
        (λ pending _ e. (
          ap (λ t. t.1.is_committed) (sym e) ∙ pending,
          ap (λ t. has_key hash_prefix t.1.replay_cache) (sym e) ∙ cached_now,
        ))

-- When a prefix has been added to a batch without an error, a further packet with that prefix is
-- no error either: its sequence number is marked as a replay, and the entries stay as they are.
pub put-put :
    (seq_num again : ℕ) (hash_prefix : Bytes) (cltv cltv2 : ℕ) (b b1 : Batch)
    → put seq_num hash_prefix cltv b ≡ (ok tt, b1)
    → let second = put again hash_prefix cltv2 b1 in
      (second.0 ≡ ok tt)
      × (contains second.1.replay_set again ≡ true)
      × (second.1.entries ≡ b1.entries)
unfolding contains add
put-put seq_num again hash_prefix cltv cltv2 b b1 e =
    let now = put_ok seq_num hash_prefix cltv b b1 e in
    put_cases again hash_prefix cltv2 b1
      (λ r. (r.0 ≡ ok tt) × (contains r.1.replay_set again ≡ true) × (r.1.entries ≡ b1.entries))
      (λ committed. absurd (cc (now.0, committed)))
      (λ _ _. (
        refl,
        rw (has_key-insert again again tt b1.replay_set, (==_iff again again).1 refl) refl,
        refl,
      ))
      (λ _ new. absurd (cc (now.1, new)))
