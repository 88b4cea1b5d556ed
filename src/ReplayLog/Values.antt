-- ===== src/ReplayLog/Values.antt =====
-- The CLTVs that `PutBatch` enters into the log.
use lightning_onion.Prelude.{
  ℕ, Bool, true, false, ◌≡◌, refl, sym, ap, ◌∙◌, arith, Bytes, Option, none, some, List, [], ◌∷◌,
  bytes_eq, bytes_eq_iff, if◌then◌else◌,
}
use lightning_onion.GoMap.{GoMap, lookup, has_key, nat_eq, bytes_key}
use lightning_onion.GoMap.Laws.{lookup-insert}
use lightning_onion.Batch.{BatchEntry}
use lightning_onion.ReplayLog.Entries.{enter, entered}
use lightning_onion.ReplayLog.Promise.{cltv_in, or_else}

pub cltv_of-enter :
    (x : BatchEntry) (e : GoMap Bytes ℕ) (h : Bytes)
    → lookup h (enter x e)
      ≡ or_else (lookup h e) (if bytes_eq x.hash_prefix h then some x.cltv else none)
unfolding has_key
cltv_of-enter x e h =
    ground (arith, lookup-insert x.hash_prefix h x.cltv e, bytes_eq_iff x.hash_prefix h)

or_else-none : (o : Option ℕ) → or_else o none ≡ o
or_else-none none = refl
or_else-none (some v) = refl

or_else-if :
    (o : Option ℕ) (b : Bool) (v : ℕ) (rest : Option ℕ)
    → or_else (or_else o (if b then some v else none)) rest ≡ or_else o (if b then some v else rest)
or_else-if (some w) b v rest = refl
or_else-if none true v rest = refl
or_else-if none false v rest = refl

-- A prefix keeps the CLTV that it had, and gets that of the first entry with it otherwise.
pub cltv_of-entered :
    (order : List (ℕ × BatchEntry)) (e : GoMap Bytes ℕ) (h : Bytes)
    → lookup h (entered order e) ≡ or_else (lookup h e) (cltv_in order h)
unfolding entered cltv_in
cltv_of-entered [] e h = sym (or_else-none (lookup h e))
cltv_of-entered ((i, x) ∷ order) e h =
    cltv_of-entered order (enter x e) h
    ∙ ap (λ o. or_else o (cltv_in order h)) (cltv_of-enter x e h)
    ∙ or_else-if (lookup h e) (bytes_eq x.hash_prefix h) x.cltv (cltv_in order h)
