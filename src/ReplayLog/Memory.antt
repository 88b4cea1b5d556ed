-- ===== src/ReplayLog/Memory.antt =====
-- The log in memory: what a method finds after another, and what it does before `Start`.
use mathlib.Core.Path.{subst}
use lightning_onion.Prelude.{
  ℕ, Bool, true, false, ◌≡◌, ◌≢◌, ◌||◌, refl, sym, ap, inl, inr, arith, Option, none, some, Bytes,
  Result, ok, err, Bool-cases, replayed_packet, log_entry_not_found, replay_log_not_started,
  bytes_eq, bytes_eq_refl, if◌then◌else◌,
}
use lightning_onion.GoMap.{GoMap, bytes_key, lookup, insert, has_key}
use lightning_onion.GoMap.Laws.{lookup-insert, has_key-insert}
use lightning_onion.Replays.{ReplaySet}
use lightning_onion.ReplayLog.{MemoryReplayLog, get, put, or_not_found}

-- A log that rejects the hash prefix as a replay, whatever value comes with it.
abbrev pub Knows : MemoryReplayLog → Bytes → Type 0
Knows rl hash = (cltv : ℕ) → put hash cltv rl ≡ (err replayed_packet, rl)

-- The state between Start and Stop.
abbrev pub running : GoMap Bytes ReplaySet → GoMap Bytes ℕ → MemoryReplayLog
running batches entries = record { batches = some batches; entries = some entries }

pub put_running :
    (batches : GoMap Bytes ReplaySet) (entries : GoMap Bytes ℕ) (hash : Bytes) (cltv : ℕ)
    → put hash cltv (running batches entries) ≡ (
        if has_key hash entries
        then (err replayed_packet, running batches entries)
        else (ok tt, running batches (insert hash cltv entries)))
unfolding put
put_running batches entries hash cltv = elim (Bool-cases (has_key hash entries)) [
  | inl e ↦ rw e refl
  | inr e ↦ rw e refl
]

module _ (batches : GoMap Bytes ReplaySet) (entries : GoMap Bytes ℕ) where
  -- A prefix that has an entry is a replay, and nothing changes.
  pub Knows-has_key :
      (hash : Bytes) → has_key hash entries ≡ true → Knows (running batches entries) hash
  Knows-has_key hash e cltv = rw (put_running batches entries hash cltv, e) refl

  pub has_key-Knows :
      (hash : Bytes) → Knows (running batches entries) hash → has_key hash entries ≡ true
  has_key-Knows hash k = elim (Bool-cases (has_key hash entries)) [
    | inl e ↦ e
    | inr e ↦ cc (k 0, put_running batches entries hash 0, e)
  ]

-- What Put does with any log, by the state of its two maps.
pub put_cases {ℓ} :
    (P : MemoryReplayLog → Result (Unit {0}) × MemoryReplayLog → Type ℓ) (hash : Bytes) (cltv : ℕ)
    → ((rl : MemoryReplayLog) → P rl (err replay_log_not_started, rl))
    → ((batches : GoMap Bytes ReplaySet) (entries : GoMap Bytes ℕ)
        → P (running batches entries) (
            if has_key hash entries
            then (err replayed_packet, running batches entries)
            else (ok tt, running batches (insert hash cltv entries))))
    → (rl : MemoryReplayLog) → P rl (put hash cltv rl)
unfolding put
put_cases P hash cltv off on rl = split rl.batches rl.entries
  where
    split :
        (b : Option (GoMap Bytes ReplaySet)) (n : Option (GoMap Bytes ℕ))
        → P
            (record { batches = b; entries = n })
            (put hash cltv (record { batches = b; entries = n }))
    split b none = off _
    split none (some n) = off _
    split (some b) (some n) = subst (P (running b n)) (sym (put_running b n hash cltv)) (on b n)

or_true : (a : Bool) {b : Bool} → b ≡ true → (a || b) ≡ true
or_true a e = ground arith

key_of_insert :
    (hash : Bytes) (cltv : ℕ) (entries : GoMap Bytes ℕ)
    → has_key hash (insert hash cltv entries) ≡ true
key_of_insert hash cltv entries =
    rw (has_key-insert hash hash cltv entries, bytes_eq_refl hash) refl

-- After a Put that succeeds the log knows the prefix.
pub put-Knows :
    (rl s : MemoryReplayLog) (hash : Bytes) (cltv : ℕ)
    → put hash cltv rl ≡ (ok tt, s)
    → Knows s hash
put-Knows rl s hash cltv =
    put_cases (λ rl r. r ≡ (ok tt, s) → Knows s hash) hash cltv (λ rl e. cc)
      (λ batches entries e. elim (Bool-cases (has_key hash entries)) [
        | inl old ↦ absurd (cc (rw old at e))
        | inr new ↦
            subst (λ t. Knows t hash) (ap (λ t. t.1) (rw new at e))
              (Knows-has_key batches (insert hash cltv entries) hash
                (key_of_insert hash cltv entries))
      ])
      rl

-- No Put makes a log forget a prefix.
pub Knows-put :
    (rl : MemoryReplayLog) (hash k : Bytes) (cltv : ℕ)
    → Knows rl hash
    → Knows (put k cltv rl).1 hash
Knows-put rl hash k cltv =
    put_cases (λ rl r. Knows rl hash → Knows r.1 hash) k cltv (λ rl e. e)
      (λ batches entries e. elim (Bool-cases (has_key k entries)) [
        | inl old ↦ rw old e
        | inr new ↦ rw new (
            Knows-has_key batches (insert k cltv entries) hash (
              rw (has_key-insert k hash cltv entries)
                (or_true (bytes_eq k hash) (has_key-Knows batches entries hash e))))
      ])
      rl

found_insert :
    (b : Bool) (cltv : ℕ) (o : Option ℕ) (s t : MemoryReplayLog)
    → (or_not_found (if b then some cltv else o) s).0
      ≡ (if b then ok cltv else (or_not_found o t).0)
unfolding or_not_found
found_insert true cltv o s t = refl
found_insert false cltv none s t = refl
found_insert false cltv (some v) s t = refl

-- After a Put that succeeded Get finds the new value under the new prefix, and under any other
-- prefix what it found before.
pub get-put :
    (rl s : MemoryReplayLog) (hash k : Bytes) (cltv : ℕ)
    → put hash cltv rl ≡ (ok tt, s)
    → (get k s).0 ≡ (if bytes_eq hash k then ok cltv else (get k rl).0)
unfolding get or_not_found
get-put rl s hash k cltv =
    put_cases
      (λ rl r. r ≡ (ok tt, s) → (get k s).0 ≡ (if bytes_eq hash k then ok cltv else (get k rl).0))
      hash cltv (λ rl e. cc)
      (λ batches entries e. elim (Bool-cases (has_key hash entries)) [
        | inl old ↦ absurd (cc (rw old at e))
        | inr new ↦
            subst
              (λ t.
                (get k t).0
                ≡ (if bytes_eq hash k then ok cltv else (get k (running batches entries)).0))
              (ap (λ t. t.1) (rw new at e))
              (rw (lookup-insert hash k cltv entries)
                (found_insert (bytes_eq hash k) cltv (lookup k entries) _ _))
      ])
      rl

missing_key :
    (o : Option ℕ) (s : MemoryReplayLog)
    → (or_not_found o s).0 ≡ err log_entry_not_found
    → (elim o [ none ↦ false | some v ↦ true ]) ≡ false
unfolding or_not_found
missing_key none s e = refl
missing_key (some v) s e = absurd (cc e)

-- In a log that runs, a Put of a prefix that Get does not find succeeds.
pub put_of_missing :
    (batches : GoMap Bytes ReplaySet) (entries : GoMap Bytes ℕ) (hash : Bytes) (cltv : ℕ)
    → (get hash (running batches entries)).0 ≡ err log_entry_not_found
    → put hash cltv (running batches entries) ≡ (ok tt, running batches (insert hash cltv entries))
unfolding get has_key
put_of_missing batches entries hash cltv e =
    let fresh : has_key hash entries ≡ false =
      missing_key (lookup hash entries) (running batches entries) e in
    rw (put_running batches entries hash cltv, fresh) refl

-- A Put that fails leaves the log as it is.
pub put_failed :
    (rl : MemoryReplayLog) (hash : Bytes) (cltv : ℕ)
    → (put hash cltv rl).0 ≢ ok tt
    → (put hash cltv rl).1 ≡ rl
put_failed rl hash cltv =
    put_cases (λ rl r. r.0 ≢ ok tt → r.1 ≡ rl) hash cltv (λ rl ne. refl)
      (λ batches entries. elim (Bool-cases (has_key hash entries)) [
        | inl old ↦ rw old (λ ne. refl)
        | inr new ↦ rw new (λ ne. absurd (ne refl))
      ])
      rl
