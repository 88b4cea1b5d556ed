-- ===== src/Prelude/Results.antt =====
-- The outcome of a Go function: its value, a returned error, or a panic.
use Prim.Native.Nat.{ℕ}
use mathlib.Core.Path.{◌≡◌, refl}

-- `eof` and `unexpected_eof` are those of Go's io, `invalid_pub_key` stands for an error of
-- btcec's ParsePubKey, `write_failed` for one of an io.Writer, and `invalid_argument` for what
-- cmd/main.go reports of its arguments and its input.
pub data Error : Type 0 where
  replayed_packet invalid_onion_version invalid_onion_hmac invalid_onion_key : Error
  log_entry_not_found already_committed : Error
  replay_log_already_started replay_log_not_started : Error
  invalid_error_length : ℕ → Error
  unable_to_retrieve : Error
  eof unexpected_eof invalid_pub_key write_failed invalid_argument : Error

pub data Result {ℓ} (A : Type ℓ) : Type ℓ where
  ok : A → Result A
  err : Error → Result A
  panics : Result A

pub ok-injective {ℓ} : {A : Type ℓ} (a b : A) → ◌≡◌ {A = Result A} (ok a) (ok b) → a ≡ b
ok-injective a b e = cc e

module _ {ℓ κ} {A : Type ℓ} {B : Type κ} where
  infixl 5 ◌>>=◌ ◌>>◌
  -- An error or a panic ends the function.
  abbrev pub ◌>>=◌ : Result A → (A → Result B) → Result B
  panics >>= next = panics
  err e >>= next = err e
  ok a >>= next = next a

  abbrev pub ◌>>◌ : Result A → Result B → Result B
  first >> second = first >>= λ _. second

  -- A chain that returns a value has one in between.
  pub bind_ok :
      (m : Result A) (f : A → Result B) (b : B)
      → (m >>= f) ≡ ok b
      → (a : A) × (m ≡ ok a) × (f a ≡ ok b)
  bind_ok (ok a) f b e = (a, refl, e)
  bind_ok (err x) f b e = absurd (cc e)
  bind_ok panics f b e = absurd (cc e)
