-- ===== src/Prelude/Returns.antt =====
-- Outcomes that are no panic, by what holds of the value that is returned.
use lightning_onion.Prelude.Results.{Result, ok, err, panics}
use lightning_onion.Prelude.Results
use lightning_onion.Prelude.Io
use lightning_onion.Prelude.Io.{Io, ◌>>=◌}

-- `P` holds of a value that is returned; an error is returned as it may be; there is no panic.
abbrev pub Returns {ℓ} : {A : Type ℓ} → (A → Type 0) → Result A → Type 0
Returns P (ok a) = P a
Returns P (err e) = Unit
Returns P panics = ⊥

-- One step after another.
pub bind-Returns {ℓ κ} :
    {A : Type ℓ} {B : Type κ} (P : A → Type 0) (Q : B → Type 0) (m : Result A) (f : A → Result B)
    → Returns P m
    → ((a : A) → P a → Returns Q (f a))
    → Returns Q (Results.◌>>=◌ m f)
bind-Returns P Q (ok a) f v g = g a v
bind-Returns P Q (err e) f v g = tt
bind-Returns P Q panics f v g = v

continue-Returns {ℓ κ μ} :
    {S : Type ℓ} {A : Type κ} {B : Type μ} (I : S → Type 0) (P : A → Type 0) (Q : B → Type 0)
    (r : Result A) (f : A → Io S B) (s : S)
    → Returns P r
    → I s
    → ((a : A) → P a → (t : S) → I t → Returns Q (f a t).0)
    → Returns Q (Io.continue r f s).0
continue-Returns I P Q (ok a) f s v w g = g a v s w
continue-Returns I P Q (err e) f s v w g = tt
continue-Returns I P Q panics f s v w g = v

-- One step after another on a state, of which `I` holds in between.
pub then-Returns {ℓ κ μ} :
    {S : Type ℓ} {A : Type κ} {B : Type μ} (I : S → Type 0) (P : A → Type 0) (Q : B → Type 0)
    (m : Io S A) (f : A → Io S B) (s : S)
    → Returns P (m s).0 × I (m s).1
    → ((a : A) → P a → (t : S) → I t → Returns Q (f a t).0)
    → Returns Q ((m >>= f) s).0
then-Returns I P Q m f s v g = continue-Returns I P Q (m s).0 f (m s).1 v.0 v.1 g
