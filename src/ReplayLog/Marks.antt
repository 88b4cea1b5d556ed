-- ===== src/ReplayLog/Marks.antt =====
-- The replays that `PutBatch` finds among the entries of a batch.
use mathlib.Core.Path.{subst}
use lightning_onion.Prelude.{
  ℕ, Bool, true, false, ◌≡◌, ◌||◌, ◌&&◌, refl, ap, ◌∙◌, inl, inr, arith, Option, none, some, List,
  [], ◌∷◌, Bytes, Bool-cases, bytes_eq, bytes_eq_iff, ==_iff, ◌==◌, if◌then◌else◌,
}
use lightning_onion.GoMap.{Eq, GoMap, bytes_key, nat_eq, lookup, has_key}
use lightning_onion.GoMap.Laws.{has_key-insert}
use lightning_onion.Replays.{ReplaySet, add, contains}
use lightning_onion.Batch.{BatchEntry}
use lightning_onion.ReplayLog.Entries.{enter, marked, Once, known, Apart, has_key-enter}

pub contains-add : (rs : ReplaySet) (i j : ℕ) → contains (add rs j) i ≡ ((j == i) || contains rs i)
unfolding contains add
contains-add rs i j = has_key-insert j i tt rs

pub missing :
    {K V : Type 0} ⦃e : Eq K⦄ (i : K) (m : GoMap K V) → has_key i m ≡ false → lookup i m ≡ none
unfolding has_key
missing i m h = ground arith

pub no_key :
    {K V : Type 0} ⦃e : Eq K⦄ (i : K) (m : GoMap K V) → lookup i m ≡ none → has_key i m ≡ false
unfolding has_key
no_key i m h = ground arith

-- A number at which a map has nothing is not the one of an entry.
pub other :
    {V : Type 0} {v : V} (i j : ℕ) (m : GoMap ℕ V)
    → has_key j m ≡ false
    → lookup i m ≡ some v
    → (j == i) ≡ false
other i j m h e = elim (Bool-cases (j == i)) [
  | inl here ↦
      let at : j ≡ i = (==_iff j i).0 here in
      absurd (cc (e, missing i m (subst (λ k. has_key k m ≡ false) at h)))
  | inr there ↦ there
]

pub Apart-tail :
    (j : ℕ) (x : BatchEntry) (m : List (ℕ × BatchEntry))
    → has_key j m ≡ false
    → Apart ((j, x) ∷ m)
    → Apart m
unfolding lookup
Apart-tail j x m new a i k y z e f same =
    a i k y z (rw (other i j m new e) e) (rw (other k j m new f) f) same

known-enter :
    (x : BatchEntry) (e : GoMap Bytes ℕ) (o : Option BatchEntry)
    → ((y : BatchEntry) → o ≡ some y → bytes_eq x.hash_prefix y.hash_prefix ≡ false)
    → known (enter x e) o ≡ known e o
known-enter x e none apart = refl
known-enter x e (some y) apart = rw (has_key-enter x y.hash_prefix e, apart y refl) refl

and_true : (a : Bool) → (a && true) ≡ a
and_true true = refl
and_true false = refl

and_false : (a : Bool) → (a && false) ≡ false
and_false true = refl
and_false false = refl

contains_one :
    (b : Bool) (rs : ReplaySet) (j i : ℕ)
    → contains (if b then add rs j else rs) i ≡ ((b && (j == i)) || contains rs i)
contains_one true rs j i = contains-add rs i j
contains_one false rs j i = refl

head-Apart :
    (j : ℕ) (x : BatchEntry) (m : List (ℕ × BatchEntry)) (i : ℕ) (y : BatchEntry)
    → Apart ((j, x) ∷ m)
    → (j == i) ≡ false
    → lookup i m ≡ some y
    → bytes_eq x.hash_prefix y.hash_prefix ≡ false
unfolding lookup
head-Apart j x m i y apart there e = elim (Bool-cases (bytes_eq x.hash_prefix y.hash_prefix)) [
  | inl same ↦
      let found : j ≡ i =
        apart j i x y (rw ((==_iff j j).1 refl) refl) (rw there e)
          ((bytes_eq_iff x.hash_prefix y.hash_prefix).0 same) in
      absurd (cc (there, (==_iff j i).1 found))
  | inr differ ↦ differ
]

-- Which numbers are marked: those of entries that the log had before.
pub contains-marked :
    (order : List (ℕ × BatchEntry)) (e : GoMap Bytes ℕ) (rs : ReplaySet) (i : ℕ)
    → Once order
    → Apart order
    → contains (marked order e rs) i ≡ (known e (lookup i order) || contains rs i)
unfolding marked lookup
contains-marked [] e rs i once apart = refl
contains-marked ((j, x) ∷ order) e rs i once apart =
    let k = has_key x.hash_prefix e in
    let rest =
      contains-marked order (enter x e) (if k then add rs j else rs) i once.1
        (Apart-tail j x order once.0 apart) in
    elim (Bool-cases (j == i)) [
      | inl here ↦
          let gone : lookup i order ≡ none =
            missing i order (subst (λ n. has_key n order ≡ false) ((==_iff j i).0 here) once.0) in
          rest ∙ rw (contains_one k rs j i, gone, here) (ap (λ t. t || contains rs i) (and_true k))
      | inr there ↦
          rest
          ∙ rw
              (
                contains_one k rs j i,
                there,
                known-enter x e (lookup i order) (λ y f. head-Apart j x order i y apart there f),
              )
              (ap (λ t. known e (lookup i order) || t) (ap (λ t. t || contains rs i) (and_false k)))
    ]
