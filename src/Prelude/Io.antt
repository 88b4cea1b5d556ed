-- ===== src/Prelude/Io.antt =====
-- Methods that change a state and may fail: a writer or a reader at its position, a log, a
-- batch. What was written before a failure stays written, so the state comes back beside it.
use mathlib.Core.Path.{◌≡◌, refl}
use lightning_onion.Prelude.Results.{Error, Result, ok, err, panics}

abbrev pub Io {ℓ κ} : Type ℓ → Type κ → Type (ℓ ⊔ κ)
Io S A = S → Result A × S

module _ {ℓ κ} {S : Type ℓ} {A : Type κ} where
  abbrev pub pure : A → Io S A
  pure a s = (ok a, s)

  abbrev pub fail : Error → Io S A
  fail e s = (err e, s)

  abbrev pub lift : Result A → Io S A
  lift r s = (r, s)

module _ {ℓ κ μ} {S : Type ℓ} {A : Type κ} {B : Type μ} where
  abbrev pub continue : Result A → (A → Io S B) → Io S B
  continue (ok a) f s = f a s
  continue (err e) f s = (err e, s)
  continue panics f s = (panics, s)

  infixl 5 ◌>>=◌ ◌>>◌
  abbrev pub ◌>>=◌ : Io S A → (A → Io S B) → Io S B
  ◌>>=◌ m f s = continue (m s).0 f (m s).1

  abbrev pub ◌>>◌ : Io S A → Io S B → Io S B
  m >> n = m >>= λ _. n

-- An action that succeeds hands its result and its state on.
pub >>=_of_ok {ℓ κ μ} :
    {S : Type ℓ} {A : Type κ} {B : Type μ} (m : Io S A) (f : A → Io S B) (s : S) {a : A} {t : S}
    → m s ≡ (ok a, t)
    → (m >>= f) s ≡ f a t
>>=_of_ok m f s e = rw e refl

-- A chain that returns a value has one in between.
pub continue_ok {ℓ κ μ} :
    {S : Type ℓ} {A : Type κ} {B : Type μ} (r : Result A) (f : A → Io S B) (s : S) (b : B)
    → (continue r f s).0 ≡ ok b
    → (a : A) × (r ≡ ok a) × ((f a s).0 ≡ ok b)
continue_ok (ok a) f s b e = (a, refl, e)
continue_ok (err x) f s b e = absurd (cc e)
continue_ok panics f s b e = absurd (cc e)
