-- ===== src/Transaction/Counts.antt =====
-- The entries of a batch of batch.go that a `PutBatch` of replaylog.go does not find in the log: how
-- often they have a prefix.
use lightning_onion.Prelude.{
  ℕ, suc, ◌+◌, ◌≤◌, ◌≡◌, ◌||◌, refl, sym, ap, ◌∙◌, arith, inl, inr, Bool, false, Bool-cases,
  Option-cases, Option, none, some, List, [], ◌∷◌, ◌++◌, Bytes, bytes_eq, bytes_eq_iff,
  if◌then◌else◌, ◌==◌, ==_iff,
}
use mathlib.Core.Path.{subst}
use lightning_onion.GoMap.{GoMap, bytes_key, nat_eq, lookup, has_key}
use lightning_onion.Replays.{ReplaySet, contains}
use lightning_onion.Batch.{BatchEntry}
use lightning_onion.ReplayLog.Entries.{Once, Apart, known}
use lightning_onion.ReplayLog.Marks.{Apart-tail, other}
use lightning_onion.ReplayLog.Promise.{cltv_in, or_else, is_there}
use lightning_onion.Transaction.OneByOne.{cltv_in-found}

-- How often a prefix is in a list.
unfoldable pub occurrences : Bytes → List Bytes → ℕ
occurrences h [] = 0
occurrences h (x ∷ xs) = let rest = occurrences h xs in if bytes_eq x h then suc rest else rest

-- How often the log has a prefix: once or not at all.
abbrev pub present : Bytes → GoMap Bytes ℕ → ℕ
present h e = if has_key h e then 1 else 0

-- The entries of a batch that a caller takes for accepted, as they are not in its replay set.
unfoldable pub accepted_in : ReplaySet → List (ℕ × BatchEntry) → List Bytes
accepted_in rs [] = []
accepted_in rs ((i, x) ∷ order) =
    let rest = accepted_in rs order in if contains rs i then rest else x.hash_prefix ∷ rest

pub occurrences-append :
    (h : Bytes) (xs ys : List Bytes)
    → occurrences h (xs ++ ys) ≡ occurrences h xs + occurrences h ys
unfolding occurrences
occurrences-append h [] ys = omega arith
occurrences-append h (x ∷ xs) ys = ground (arith, occurrences-append h xs ys)

-- What stands behind an entry in an order brings no CLTV for its prefix.
only_entry :
    (i : ℕ) (x : BatchEntry) (order : List (ℕ × BatchEntry))
    → Once ((i, x) ∷ order)
    → Apart ((i, x) ∷ order)
    → cltv_in order x.hash_prefix ≡ none
unfolding lookup
only_entry i x order once apart = elim (Option-cases (cltv_in order x.hash_prefix)) [
  | inl nothing ↦ nothing
  | inr comes ↦
      let it = cltv_in-found order x.hash_prefix comes.0 once.1 comes.1 in
      let apart_from : (i == it.0) ≡ false = other it.0 i order once.0 it.2 in
      let same : i ≡ it.0 =
        apart i it.0 x it.1 (rw ((==_iff i i).1 refl) refl) (rw apart_from it.2) (sym it.3) in
      absurd (cc (apart_from, (==_iff i it.0).1 same))
]

-- Whether the log has a prefix when the entries of a batch are entered.
abbrev pub then_present : Bytes → List (ℕ × BatchEntry) → GoMap Bytes ℕ → ℕ
then_present h order e = if has_key h e || is_there (cltv_in order h) then 1 else 0

pub occurrences-accepted_in :
    (order : List (ℕ × BatchEntry)) (e : GoMap Bytes ℕ) (rs : ReplaySet) (h : Bytes)
    → Once order
    → Apart order
    → ((i : ℕ) (x : BatchEntry)
        → lookup i order ≡ some x
        → contains rs i ≡ false
        → has_key x.hash_prefix e ≡ false)
    → occurrences h (accepted_in rs order) + present h e ≤ then_present h order e
unfolding occurrences accepted_in cltv_in lookup
occurrences-accepted_in [] e rs h once apart fresh = ground arith
occurrences-accepted_in ((i, x) ∷ order) e rs h once apart fresh =
    let rest =
      occurrences-accepted_in order e rs h once.1 (Apart-tail i x order once.0 apart)
        (λ j y f. fresh j y (rw (other j i order once.0 f) f)) in
    elim (Bool-cases (bytes_eq x.hash_prefix h)) [
      | inl here ↦
          let same : x.hash_prefix ≡ h = (bytes_eq_iff x.hash_prefix h).0 here in
          let none_behind : cltv_in order h ≡ none =
            subst (λ k. cltv_in order k ≡ none) same (only_entry i x order once apart) in
          elim (Bool-cases (contains rs i)) [
            | inl mark ↦ rw (mark, here) (ground (arith, rest, none_behind))
            | inr clear ↦
                let new : has_key h e ≡ false =
                  subst (λ k. has_key k e ≡ false) same
                    (fresh i x (rw ((==_iff i i).1 refl) refl) clear) in
                rw (clear, here) (ground (arith, rest, none_behind, new))
          ]
      | inr there ↦ elim (Bool-cases (contains rs i)) [
        | inl mark ↦ rw (mark, there) rest
        | inr clear ↦ rw (clear, there) rest
      ]
    ]

there_is : (o p : Option ℕ) → is_there (or_else o p) ≡ (is_there o || is_there p)
there_is none p = refl
there_is (some v) p = refl

has_key-is_there : (h : Bytes) (m : GoMap Bytes ℕ) → has_key h m ≡ is_there (lookup h m)
unfolding has_key
has_key-is_there h m = refl

pub present-entered :
    (order : List (ℕ × BatchEntry)) (e e1 : GoMap Bytes ℕ) (h : Bytes)
    → lookup h e1 ≡ or_else (lookup h e) (cltv_in order h)
    → present h e1 ≡ then_present h order e
present-entered order e e1 h values =
    ap (λ b. if b then 1 else 0)
      (has_key-is_there h e1
        ∙ ap is_there values
        ∙ there_is (lookup h e) (cltv_in order h)
        ∙ ap (λ b. b || is_there (cltv_in order h)) (sym (has_key-is_there h e)))

pub no_replay :
    (e : GoMap Bytes ℕ) (o : Option BatchEntry) (x : BatchEntry) (mark : Bool)
    → o ≡ some x
    → (known e o || mark) ≡ false
    → has_key x.hash_prefix e ≡ false
no_replay e none x mark f g = absurd (cc f)
no_replay e (some y) x mark f g =
    let same : y ≡ x = cc f in
    let clear : has_key y.hash_prefix e ≡ false = ground (arith, g) in
    subst (λ (z : BatchEntry). has_key z.hash_prefix e ≡ false) same clear
