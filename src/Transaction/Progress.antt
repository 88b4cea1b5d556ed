-- ===== src/Transaction/Progress.antt =====
-- A `Tx` of sphinx.go beside a log: what relates them while the same packets are added to the one
-- and given to the router with the other.
use lightning_onion.Prelude.{
  ℕ, suc, ◌≤◌, ◌≡◌, ◌≢◌, ◌||◌, refl, sym, ◌∙◌, inl, inr, ◌⊎◌, arith, Bool, true, false, Bool-cases,
  none, some, Bytes, bytes_eq, bytes_eq_iff, bytes_eq_refl, ◌==◌, ==_iff, ==_of_ne, if◌then◌else◌,
}
use mathlib.Core.Path.{subst}
use lightning_onion.GoMap.{GoMap, nat_eq, bytes_key, lookup, insert, has_key}
use lightning_onion.GoMap.Laws.{lookup-insert, has_key-insert}
use lightning_onion.Replays.{contains, add}
use lightning_onion.Batch.{Batch, BatchEntry}
use lightning_onion.ReplayLog.Entries.{enter, known, has_key-enter}
use lightning_onion.ReplayLog.Marks.{contains-add, missing}
use lightning_onion.ReplayLog.Values.{cltv_of-enter}

-- Whether a number is a replay of a batch, with a log that has these entries.
abbrev pub replayed_at : GoMap Bytes ℕ → Batch → ℕ → Bool
replayed_at e batch i = known e (lookup i batch.entries) || contains batch.replay_set i

-- A batch with entries at numbers below `seq_num` only, beside the log before its packets, `e`,
-- and the log that has been given them, `now`.
pub record Abreast (e : GoMap Bytes ℕ) (seq_num : ℕ) (batch : Batch) (now : GoMap Bytes ℕ)
    : Type 0 where
  pub pending : batch.is_committed ≡ false
  pub free : (j : ℕ) → seq_num ≤ j → lookup j batch.entries ≡ none
  pub unmarked : (j : ℕ) → seq_num ≤ j → contains batch.replay_set j ≡ false
  pub keys : (h : Bytes) → has_key h now ≡ (has_key h e || has_key h batch.replay_cache)
  pub old : (h : Bytes) (v : ℕ) → lookup h e ≡ some v → lookup h now ≡ some v
  pub backed :
      (h : Bytes)
      → has_key h batch.replay_cache ≡ true
      → (i : ℕ) × (x : BatchEntry) × (lookup i batch.entries ≡ some x) × (x.hash_prefix ≡ h)
  pub values :
      (i : ℕ) (x : BatchEntry)
      → has_key x.hash_prefix e ≡ false
      → lookup i batch.entries ≡ some x
      → lookup x.hash_prefix now ≡ some x.cltv

-- What a batch holds at the numbers but one.
pub record Frame (seq_num : ℕ) (b done : Batch) : Type 0 where
  pub same_entry : (j : ℕ) → j ≢ seq_num → lookup j done.entries ≡ lookup j b.entries
  pub same_mark : (j : ℕ) → j ≢ seq_num → contains done.replay_set j ≡ contains b.replay_set j

-- Nothing is entered for a packet that failed.
pub Abreast-suc :
    (e now : GoMap Bytes ℕ) (seq_num : ℕ) (batch : Batch)
    → Abreast e seq_num batch now
    → Abreast e (suc seq_num) batch now
Abreast-suc e now seq_num batch v = record {
  pending = v.pending;
  free = λ j h. v.free j (omega arith);
  unmarked = λ j h. v.unmarked j (omega arith);
  keys = v.keys;
  old = v.old;
  backed = v.backed;
  values = v.values;
}

module _ (e now : GoMap Bytes ℕ) (seq_num : ℕ) (hash : Bytes) (cltv : ℕ) (batch : Batch) where
  abbrev entry : BatchEntry
  entry = record { hash_prefix = hash; cltv = cltv }

  -- A prefix that the batch has already is marked.
  abbrev pub with_mark : Batch
  with_mark = record batch { replay_set = add batch.replay_set seq_num }

  abbrev pub with_entry : Batch
  with_entry = record batch {
    entries = insert seq_num entry batch.entries;
    replay_cache = insert hash tt batch.replay_cache;
  }

  entry_of :
      (j : ℕ)
      → lookup j with_entry.entries ≡ (if seq_num == j then some entry else lookup j batch.entries)
  entry_of j = lookup-insert seq_num j entry batch.entries

  pub with_mark-Frame : Frame seq_num batch with_mark
  with_mark-Frame = record {
    same_entry = λ j ne. refl;
    same_mark = λ j ne.
        rw (contains-add batch.replay_set j seq_num, ==_of_ne seq_num j (λ s. ne (sym s))) refl;
  }

  pub with_entry-Frame : Frame seq_num batch with_entry
  with_entry-Frame = record {
    same_entry = λ j ne. rw (entry_of j, ==_of_ne seq_num j (λ s. ne (sym s))) refl;
    same_mark = λ j ne. refl;
  }

  -- What the log had, it has after a packet too.
  kept : (h : Bytes) (w : ℕ) → lookup h now ≡ some w → lookup h (enter entry now) ≡ some w
  kept h w f = rw (cltv_of-enter entry now h, f) refl

  module _ (v : Abreast e seq_num batch now) where
    enter_again :
        has_key hash batch.replay_cache ≡ true
        → (h : Bytes) → has_key h (enter entry now) ≡ has_key h now
    enter_again cached h =
        ground (arith, has_key-enter entry h now, bytes_eq_iff hash h, v.keys hash, cached)

    pub with_mark-Abreast :
        has_key hash batch.replay_cache ≡ true → Abreast e (suc seq_num) with_mark (enter entry now)
    with_mark-Abreast cached = record {
      pending = v.pending;
      free = λ j h. v.free j (omega arith);
      unmarked = λ j h. with_mark-Frame.same_mark j (λ s. omega arith) ∙ v.unmarked j (omega arith);
      keys = λ h. enter_again cached h ∙ v.keys h;
      old = λ h w f. kept h w (v.old h w f);
      backed = v.backed;
      values = λ i x fresh f. kept x.hash_prefix x.cltv (v.values i x fresh f);
    }

    pub with_mark-replayed :
        has_key hash batch.replay_cache ≡ true → replayed_at e with_mark seq_num ≡ has_key hash now
    with_mark-replayed cached =
        rw
          (
            v.free seq_num (omega arith),
            contains-add batch.replay_set seq_num seq_num,
            (==_iff seq_num seq_num).1 refl,
            v.keys hash,
            cached,
          )
          (ground arith)

    pub with_entry-replayed :
        has_key hash batch.replay_cache ≡ false
        → replayed_at e with_entry seq_num ≡ has_key hash now
    with_entry-replayed new =
        rw
          (
            entry_of seq_num,
            (==_iff seq_num seq_num).1 refl,
            v.unmarked seq_num (omega arith),
            v.keys hash,
            new,
          )
          refl

    -- Where an entry comes from.
    found :
        (i : ℕ) (x : BatchEntry)
        → lookup i with_entry.entries ≡ some x
        → (x ≡ entry) ⊎ (lookup i batch.entries ≡ some x)
    found i x f = elim (Bool-cases (seq_num == i)) [
      | inl here ↦ inl (cc (rw (entry_of i, here) at f))
      | inr there ↦ inr (rw (entry_of i, there) at f)
    ]

    still_there :
        (i : ℕ) (x : BatchEntry)
        → lookup i batch.entries ≡ some x
        → lookup i with_entry.entries ≡ some x
    still_there i x f = elim (Bool-cases (seq_num == i)) [
      | inl here ↦ absurd (cc (f, v.free i (omega (arith, (==_iff seq_num i).0 here))))
      | inr there ↦ rw (entry_of i, there) f
    ]

    module _ (new : has_key hash batch.replay_cache ≡ false) where
      entered_value : has_key hash e ≡ false → lookup hash (enter entry now) ≡ some cltv
      entered_value fresh =
          let absent : has_key hash now ≡ false = v.keys hash ∙ rw (fresh, new) refl in
          rw (cltv_of-enter entry now hash, missing hash now absent, bytes_eq_refl hash) refl

      entered_keys :
          (h : Bytes)
          → has_key h (enter entry now) ≡ (has_key h e || has_key h with_entry.replay_cache)
      entered_keys h =
          ground (
            arith,
            has_key-enter entry h now,
            has_key-insert hash h tt batch.replay_cache,
            v.keys h,
          )

      entered_backed :
          (h : Bytes)
          → has_key h with_entry.replay_cache ≡ true
          → (i : ℕ) × (x : BatchEntry) × (lookup i with_entry.entries ≡ some x)
            × (x.hash_prefix ≡ h)
      entered_backed h k = elim (Bool-cases (bytes_eq hash h)) [
        | inl here ↦ (
          seq_num,
          entry,
          entry_of seq_num ∙ rw ((==_iff seq_num seq_num).1 refl) refl,
          (bytes_eq_iff hash h).0 here,
        )
        | inr there ↦
            let was = v.backed h (rw (has_key-insert hash h tt batch.replay_cache, there) at k) in
            (was.0, was.1, still_there was.0 was.1 was.2, was.3)
      ]

      pub with_entry-Abreast : Abreast e (suc seq_num) with_entry (enter entry now)
      with_entry-Abreast = record {
        pending = v.pending;
        free = λ j h. with_entry-Frame.same_entry j (λ s. omega arith) ∙ v.free j (omega arith);
        unmarked = λ j h. v.unmarked j (omega arith);
        keys = entered_keys;
        old = λ h w f. kept h w (v.old h w f);
        backed = entered_backed;
        values = λ i x f g. elim (found i x g) [
          | inl here ↦
              subst
                (λ (y : BatchEntry).
                  has_key y.hash_prefix e ≡ false
                  → lookup y.hash_prefix (enter entry now) ≡ some y.cltv)
                (sym here) entered_value f
          | inr there ↦ kept x.hash_prefix x.cltv (v.values i x f there)
        ];
      }
