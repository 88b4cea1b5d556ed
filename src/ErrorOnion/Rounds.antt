-- ===== src/ErrorOnion/Rounds.antt =====
-- The rounds of `DecryptError` of crypto.go, on any message of the right length.
use native.Mathlib.Numerals.{add-one}
use native.Mathlib.Nat.{zero-add}
use lightning_onion.Prelude.{
  ℕ, zero, suc, ◌+◌, ◌-◌, ◌≤◌, ◌<◌, ◌≡◌, refl, ap, ◌∙◌, arith, Bool, true, false, Bytes, Option,
  none, some, List, length, drop, get_elem?, Result, ok, err, panics, unable_to_retrieve, ◌>>=◌,
  ◌==◌, ==_iff,
}
use lightning_onion.Crypto.{Primitives}
use lightning_onion.Crypto.Laws.{Laws}
use lightning_onion.Secrets.{generate_shared_secrets}
use lightning_onion.Onion.{elem_at}
use lightning_onion.ErrorOnion.{
  Circuit, round_secret, note_sender, decrypt_loop, sender_or_error, decrypt_error,
}
use lightning_onion.ErrorOnion.Layered.{layered, length-layered}
use lightning_onion.ErrorOnion.Return.{mac_matches, round_lem, rest_lem}

module _ (c : Primitives) (l : Laws c) where
  -- The message after `k` rounds from round `i` on, none of which has found the sender.
  unfoldable pub peel : ℕ → ℕ → List Bytes → Bytes → Bytes
  peel zero i secrets enc = enc
  peel (suc k) i secrets enc =
      peel k (suc i) secrets (layered c l (round_secret c none secrets i) enc)

  -- Whether the MAC matches in round `i`, in which the message is `enc`.
  abbrev pub matches : ℕ → List Bytes → Bytes → Bool
  matches i secrets enc =
      let s = round_secret c none secrets i in mac_matches c l s (layered c l s enc)

  -- In none of `k` rounds from round `i` on the MAC matches.
  abbrev pub Unmatched : ℕ → ℕ → List Bytes → Bytes → Type 0
  Unmatched zero i secrets enc = Unit
  Unmatched (suc k) i secrets enc =
      (matches i secrets enc ≡ false)
      × Unmatched k (suc i) secrets (layered c l (round_secret c none secrets i) enc)

  length-peel :
      (k i : ℕ) (secrets : List Bytes) (enc : Bytes) → length (peel k i secrets enc) ≡ length enc
  unfolding peel
  length-peel zero i secrets enc = refl
  length-peel (suc k) i secrets enc =
      length-peel k (suc i) secrets (layered c l (round_secret c none secrets i) enc)
      ∙ length-layered c l (round_secret c none secrets i) enc

  -- Rounds in which no MAC matches only strip their layers.
  rounds-Unmatched :
      (k i n : ℕ) (path : List c.Point) (secrets : List Bytes) (enc : Bytes)
      → k ≤ n
      → 32 ≤ length enc
      → Unmatched k i secrets enc
      → decrypt_loop c n i path secrets enc none
        ≡ decrypt_loop c (n - k) (i + k) path secrets (peel k i secrets enc) none
  unfolding peel note_sender
  rounds-Unmatched zero i n path secrets enc h size u =
      let e : n ≡ n - 0 = omega arith in
      let f : i ≡ i + 0 = omega arith in
      ap (λ m. decrypt_loop c m i path secrets enc none) e
      ∙ ap (λ j. decrypt_loop c (n - 0) j path secrets enc none) f
  rounds-Unmatched (suc k) i zero path secrets enc h size u = absurd (omega arith)
  rounds-Unmatched (suc k) i (suc n) path secrets enc h size u =
      let s = round_secret c none secrets i in
      let m = layered c l s enc in
      let e : n - k ≡ suc n - suc k = omega arith in
      let f : suc i + k ≡ i + suc k = omega arith in
      round_lem c l n i path secrets enc none size
      ∙ rw (u.0, add-one i)
          (rounds-Unmatched k (suc i) n path secrets m (omega arith)
            (omega (arith, length-layered c l s enc)) u.1)
      ∙ ap (λ t. decrypt_loop c t (suc i + k) path secrets (peel k (suc i) secrets m) none) e
      ∙ ap (λ t. decrypt_loop c (suc n - suc k) t path secrets (peel k (suc i) secrets m) none) f

  -- The result for a sender that is looked up in the path.
  abbrev pub found_at : Option c.Point → Bytes → Result (c.Point × Bytes)
  found_at none bs = panics
  found_at (some p) bs = ok (p, bs)

  -- The first round in which the MAC matches decides the result.
  matched_round :
      (left k : ℕ) (path : List c.Point) (secrets : List Bytes) (enc : Bytes) (o : Option c.Point)
      → 32 ≤ length enc
      → matches k secrets enc ≡ true
      → get_elem? path k ≡ o
      → (decrypt_loop c (suc left) k path secrets enc none >>= sender_or_error c)
        ≡ found_at o (drop 32 (layered c l (round_secret c none secrets k) enc))
  unfolding note_sender sender_or_error elem_at
  matched_round left k path secrets enc none size found e =
      ap (λ t. t >>= sender_or_error c) (round_lem c l left k path secrets enc none size)
      ∙ rw (found, e, elem_at) refl
  matched_round left k path secrets enc (some p) size found e =
      let s = round_secret c none secrets k in
      let m = layered c l s enc in
      ap (λ t. t >>= sender_or_error c) (round_lem c l left k path secrets enc none size)
      ∙ rw
          (
            found,
            e,
            elem_at,
            rest_lem c l left (k + 1) path secrets m (p, drop 32 m)
                (omega (arith, length-layered c l s enc)),
          )
          refl

  rounds_left : (k : ℕ) → k < 20 → 20 - k ≡ suc (19 - k)
  rounds_left k h = omega arith

  module _ (circuit : Circuit c) (secrets : List Bytes) (enc : Bytes)
      (shared : generate_shared_secrets c circuit.payment_path circuit.session_key ≡ ok secrets)
      (size : length enc ≡ 292) where
    -- If the secrets of a circuit can be generated and a message of 292 bytes has a matching MAC in
    -- none of the twenty rounds, DecryptError returns the error that the onion failure cannot be
    -- retrieved.
    pub decrypt_error-Unmatched :
        Unmatched 20 0 secrets enc → decrypt_error c circuit enc ≡ err unable_to_retrieve
    unfolding decrypt_error sender_or_error decrypt_loop
    decrypt_error-Unmatched u =
        let full : (length enc == 292) ≡ true = (==_iff (length enc) 292).1 size in
        rw
          (
            full,
            shared,
            rounds-Unmatched 20 0 20 circuit.payment_path secrets enc (omega arith) (omega arith) u,
          )
          refl

    -- If the secrets of a circuit can be generated and round `k` is the first of the twenty in which
    -- a message of 292 bytes has a matching MAC, DecryptError returns the key at `k` of the path
    -- and the message of that round without its MAC; for a `k` behind the end of the path, it
    -- panics.
    pub decrypt_error_first_match :
        (k : ℕ)
        → k < 20
        → Unmatched k 0 secrets enc
        → let m = peel k 0 secrets enc in
          matches k secrets m ≡ true
          → decrypt_error c circuit enc
            ≡ found_at
                (get_elem? circuit.payment_path k)
                (drop 32 (layered c l (round_secret c none secrets k) m))
    unfolding decrypt_error
    decrypt_error_first_match k h u found =
        let path = circuit.payment_path in
        let m = peel k 0 secrets enc in
        let full : (length enc == 292) ≡ true = (==_iff (length enc) 292).1 size in
        rw
          (
            full,
            shared,
            rounds-Unmatched k 0 20 path secrets enc (omega arith) (omega arith) u,
            zero-add k,
            rounds_left k h,
          )
          (matched_round (19 - k) k path secrets m (get_elem? path k)
            (omega (arith, length-peel k 0 secrets enc)) found refl)
