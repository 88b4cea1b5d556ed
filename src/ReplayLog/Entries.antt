-- ===== src/ReplayLog/Entries.antt =====
-- The loop of `PutBatch` over the entries of a batch, beside what it does to the log as a map.
use lightning_onion.Prelude.{
  ℕ, Bool, true, false, ◌≡◌, ◌||◌, refl, ap, ◌∙◌, inl, inr, arith, Option, none, some, List, [],
  ◌∷◌, Bytes, ok, Bool-cases, bytes_eq, bytes_eq_refl, bytes_eq_iff, ◌==◌, if◌then◌else◌,
}
use lightning_onion.GoMap.{GoMap, bytes_key, nat_eq, lookup, insert, has_key}
use lightning_onion.GoMap.Laws.{has_key-insert}
use lightning_onion.Replays.{ReplaySet, add}
use lightning_onion.Batch.{BatchEntry, for_each}
use lightning_onion.ReplayLog.{put_entry}
use lightning_onion.ReplayLog.Memory.{running, put_running}

-- The log's entries after one entry of a batch, and after all of them.
abbrev pub enter : BatchEntry → GoMap Bytes ℕ → GoMap Bytes ℕ
enter x entries =
    if has_key x.hash_prefix entries then entries else insert x.hash_prefix x.cltv entries

unfoldable pub entered : List (ℕ × BatchEntry) → GoMap Bytes ℕ → GoMap Bytes ℕ
entered [] entries = entries
entered ((i, x) ∷ order) entries = entered order (enter x entries)

-- The replays that are found on the way.
unfoldable pub marked : List (ℕ × BatchEntry) → GoMap Bytes ℕ → ReplaySet → ReplaySet
marked [] entries replays = replays
marked ((i, x) ∷ order) entries replays =
    marked order (enter x entries)
      (if has_key x.hash_prefix entries then add replays i else replays)

put_entry-running :
    (i : ℕ) (x : BatchEntry) (b : GoMap Bytes ReplaySet) (e : GoMap Bytes ℕ) (rs : ReplaySet)
    → put_entry i x.hash_prefix x.cltv (rs, running b e)
      ≡ (ok tt, (if has_key x.hash_prefix e then add rs i else rs, running b (enter x e)))
unfolding put_entry
put_entry-running i x b e rs = elim (Bool-cases (has_key x.hash_prefix e)) [
  | inl old ↦ rw (put_running b e x.hash_prefix x.cltv, old) refl
  | inr new ↦ rw (put_running b e x.hash_prefix x.cltv, new) refl
]

pub for_each-running :
    (order : List (ℕ × BatchEntry)) (b : GoMap Bytes ReplaySet) (e : GoMap Bytes ℕ) (rs : ReplaySet)
    → for_each put_entry order (rs, running b e)
      ≡ (ok tt, (marked order e rs, running b (entered order e)))
unfolding for_each entered marked
for_each-running [] b e rs = refl
for_each-running ((i, x) ∷ order) b e rs =
    rw (put_entry-running i x b e rs) (for_each-running order b (enter x e) _)

-- An order in which Go may range over a map: every entry once.
abbrev pub Once : {V : Type 0} → GoMap ℕ V → Type 0
Once [] = Unit
Once ((i, x) ∷ order) = (has_key i order ≡ false) × Once order

pub record Enumerates {V : Type 0} (order m : GoMap ℕ V) : Type 0 where
  pub once : Once order
  pub same : (i : ℕ) → lookup i order ≡ lookup i m

-- Whether a batch's entry is in the log already.
abbrev pub known : GoMap Bytes ℕ → Option BatchEntry → Bool
known entries none = false
known entries (some x) = has_key x.hash_prefix entries

-- The entries have different prefixes.
abbrev pub Apart : List (ℕ × BatchEntry) → Type 0
Apart m =
    (i j : ℕ) (x y : BatchEntry)
    → lookup i m ≡ some x
    → lookup j m ≡ some y
    → x.hash_prefix ≡ y.hash_prefix
    → i ≡ j

pub has_key-enter :
    (x : BatchEntry) (h : Bytes) (e : GoMap Bytes ℕ)
    → has_key h (enter x e) ≡ (bytes_eq x.hash_prefix h || has_key h e)
has_key-enter x h e =
    ground (arith, has_key-insert x.hash_prefix h x.cltv e, bytes_eq_iff x.hash_prefix h)

has_key_lem :
    (h : Bytes) (e : GoMap Bytes ℕ)
    → has_key h e ≡ (elim (lookup h e) [ none ↦ false | some v ↦ true ])
unfolding has_key
has_key_lem h e = refl

-- Entering loses no prefix, and every entry of the batch is there afterwards.
has_key-entered :
    (order : List (ℕ × BatchEntry)) (e : GoMap Bytes ℕ) (h : Bytes)
    → has_key h e ≡ true
    → has_key h (entered order e) ≡ true
unfolding entered
has_key-entered [] e h k = k
has_key-entered ((i, x) ∷ order) e h k =
    has_key-entered order (enter x e) h (ground (arith, has_key-enter x h e))

pub entry_entered :
    (order : List (ℕ × BatchEntry)) (e : GoMap Bytes ℕ) (i : ℕ) (y : BatchEntry)
    → lookup i order ≡ some y
    → has_key y.hash_prefix (entered order e) ≡ true
unfolding entered lookup
entry_entered [] e i y f = absurd (cc f)
entry_entered ((j, x) ∷ order) e i y f = elim (Bool-cases (j == i)) [
  | inl here ↦
      let it : x ≡ y = cc (rw here at f) in
      has_key-entered order (enter x e) y.hash_prefix (
        has_key-enter x y.hash_prefix e
        ∙ ap (λ t. bytes_eq t y.hash_prefix || has_key y.hash_prefix e)
            (ap (λ (t : BatchEntry). t.hash_prefix) it)
        ∙ ap (λ t. t || has_key y.hash_prefix e) (bytes_eq_refl y.hash_prefix))
  | inr there ↦ entry_entered order (enter x e) i y (rw there at f)
]
