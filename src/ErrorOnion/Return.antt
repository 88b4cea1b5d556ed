-- ===== src/ErrorOnion/Return.antt =====
-- `EncryptError` and `DecryptError` of crypto.go together: an error on its way back.
use lightning_onion.Prelude.{
  ℕ, zero, suc, ◌+◌, ◌≤◌, ◌<◌, ◌≡◌, refl, sym, ◌∙◌, arith, Bool, true, false, Bytes, Option, none,
  some, List, [], ◌∷◌, ◌++◌, length, take, drop, get_elem?, Result, ok, ◌>>=◌, bytes_eq,
  bytes_eq_refl, ◌==◌, length-append, take-append, drop-append, get_elem?_of_drop, drop-suc, ==_iff,
}
use native.Mathlib.Nat.{zero-add, add-zero}
use native.Mathlib.Numerals.{add-one}
use mathlib.Core.Path.{subst}
use lightning_onion.Onion.Filler.{elem_at_lem}
use lightning_onion.Secrets.{generate_shared_secrets}
use lightning_onion.Crypto.{Primitives}
use lightning_onion.Crypto.Laws.{Laws}
use lightning_onion.ErrorOnion.{
  Circuit, onion_encrypt, error_mac, encrypt_error, round_secret, note_sender, decrypt_loop,
  sender_or_error, decrypt_error,
}
use lightning_onion.ErrorOnion.Layered.{
  slice_front, slice_back, layered, length-layered, onion_encrypt_lem, layered_cancel,
}

module _ (c : Primitives) (l : Laws c) where
  -- Encrypting a message twice under one secret gives the message back.
  pub onion_encrypt-onion_encrypt :
      (s m : Bytes) → (onion_encrypt c s m >>= onion_encrypt c s) ≡ ok m
  onion_encrypt-onion_encrypt s m =
      rw
        (
          onion_encrypt_lem c l s m,
          onion_encrypt_lem c l s (layered c l s m),
          layered_cancel c l s m,
        )
        refl

  -- What the first 32 bytes of a decrypted message are compared with.
  abbrev pub mac_matches : Bytes → Bytes → Bool
  mac_matches s m = bytes_eq (error_mac c s (drop 32 m)) (take 32 m)

  -- One round.
  pub round_lem :
      (left i : ℕ) (path : List c.Point) (secrets : List Bytes) (enc : Bytes)
      (found : Option (c.Point × Bytes))
      → 32 ≤ length enc
      → let s = round_secret c found secrets i in
        let m = layered c l s enc in
        decrypt_loop c (suc left) i path secrets enc found ≡ (
          note_sender c path i (mac_matches s m) (drop 32 m) found
          >>= decrypt_loop c left (i + 1) path secrets m)
  unfolding decrypt_loop
  round_lem left i path secrets enc found h =
      let s = round_secret c found secrets i in
      let m = layered c l s enc in
      let size = length-layered c l s enc in
      rw
        (onion_encrypt_lem c l s enc, slice_front m 32 (omega arith), slice_back m 32 (omega arith))
        refl

  -- Once the sender is known, the rounds that are left change nothing, and none of them panics.
  pub rest_lem :
      (left i : ℕ) (path : List c.Point) (secrets : List Bytes) (enc : Bytes)
      (found : c.Point × Bytes)
      → 32 ≤ length enc
      → decrypt_loop c left i path secrets enc (some found) ≡ ok (some found)
  unfolding decrypt_loop note_sender
  rest_lem zero i path secrets enc found h = refl
  rest_lem (suc left) i path secrets enc found h =
      let s = round_secret c (some found) secrets i in
      round_lem left i path secrets enc (some found) h
      ∙ rest_lem left (i + 1) path secrets (layered c l s enc) found
          (omega (arith, length-layered c l s enc))

  -- The message as the node of origin makes it: the MAC in front of the data.
  abbrev pub with_mac : Bytes → Bytes → Bytes
  with_mac s bs = error_mac c s bs ++ bs

  length-error_mac : (s bs : Bytes) → length (error_mac c s bs) ≡ 32
  unfolding error_mac
  length-error_mac s bs = l.hmac_length _ bs

  recognised : (s bs : Bytes) → mac_matches s (with_mac s bs) ≡ true
  recognised s bs =
      let size = length-error_mac s bs in
      rw (drop-append 32 (error_mac c s bs) bs size, take-append 32 (error_mac c s bs) bs size)
        (bytes_eq_refl (error_mac c s bs))

  -- A message under the layers of several nodes, the first of them outermost.
  unfoldable pub layers : List Bytes → Bytes → Bytes
  layers [] m = m
  layers (q ∷ qs) m = layered c l q (layers qs m)

  length-layers : (qs : List Bytes) (m : Bytes) → length (layers qs m) ≡ length m
  unfolding layers
  length-layers [] m = refl
  length-layers (q ∷ qs) m = length-layered c l q (layers qs m) ∙ length-layers qs m

  -- No node of these takes what it finds under its layer for a message of its own.
  abbrev pub Unrecognised : List Bytes → Bytes → Type 0
  Unrecognised [] m = Unit
  Unrecognised (q ∷ qs) m = (mac_matches q (layers qs m) ≡ false) × Unrecognised qs m

  next_index : (i n : ℕ) → i + suc n ≡ suc i + n
  next_index i n = omega arith

  -- From round `i` on the loop finds the node behind `qs`, whose message is under their layers.
  find_lem :
      (qs : List Bytes) (s : Bytes) (post : List Bytes) (left i : ℕ) (path : List c.Point)
      (secrets : List Bytes) (bs : Bytes) (p : c.Point)
      → drop i secrets ≡ qs ++ s ∷ post
      → get_elem? path (i + length qs) ≡ some p
      → length qs < left
      → let m = layered c l s (with_mac s bs) in
        Unrecognised qs m
        → decrypt_loop c left i path secrets (layers qs m) none ≡ ok (some (p, bs))
  unfolding note_sender round_secret layers
  find_lem qs s post zero i path secrets bs p e at h no_other = absurd (omega arith)
  find_lem [] s post (suc left) i path secrets bs p e at h no_other =
      let m = with_mac s bs in
      let size = length-error_mac s bs in
      let size2 = length-append (error_mac c s bs) bs in
      round_lem left i path secrets (layered c l s m) none
        (omega (arith, length-layered c l s m, size, size2))
      ∙ rw
          (
            get_elem?_of_drop i secrets e,
            round_secret,
            layered_cancel c l s m,
            recognised s bs,
            elem_at_lem path i p (subst (λ k. get_elem? path k ≡ some p) (add-zero i) at),
            drop-append 32 (error_mac c s bs) bs size,
          )
          (rest_lem left (i + 1) path secrets m (p, bs) (omega arith))
  find_lem (q ∷ qs) s post (suc left) i path secrets bs p e at h no_other =
      let m = layered c l s (with_mac s bs) in
      let inner = layers qs m in
      let size = length-error_mac s bs in
      let size2 = length-append (error_mac c s bs) bs in
      round_lem left i path secrets (layered c l q inner) none (
        omega (
          arith,
          length-layered c l q inner,
          length-layers qs m,
          length-layered c l s (with_mac s bs),
          size,
          size2,
        ))
      ∙ rw
          (
            get_elem?_of_drop i secrets e,
            round_secret,
            layered_cancel c l q inner,
            no_other.0,
            add-one i,
          )
          (find_lem qs s post left (suc i) path secrets bs p (drop-suc i secrets e)
            (subst (λ k. get_elem? path k ≡ some p) (next_index i (length qs)) at) (omega arith)
            no_other.1)

  -- The nodes on the way back encrypt the error in turn, the one nearest to its origin first.
  unfoldable pub returned : List Bytes → Bytes → Bytes → Result Bytes
  returned [] s bs = encrypt_error c s true bs
  returned (q ∷ qs) s bs = do m ← returned qs s bs; encrypt_error c q false m

  returned_lem :
      (qs : List Bytes) (s bs : Bytes)
      → returned qs s bs ≡ ok (layers qs (layered c l s (with_mac s bs)))
  unfolding returned encrypt_error layers
  returned_lem [] s bs = onion_encrypt_lem c l s (with_mac s bs)
  returned_lem (q ∷ qs) s bs =
      rw (returned_lem qs s bs)
        (onion_encrypt_lem c l q (layers qs (layered c l s (with_mac s bs))))

  -- An error of 260 bytes that a node on the path encrypts, and that the nodes before it encrypt
  -- in turn on the way back, is decrypted by the sender of the packet: the result is the key of
  -- the node of origin and the error. The circuit is that of the packet, with one of the first
  -- twenty secrets for the node of origin, and none of the nodes before it recognises the
  -- message under its own layer as its own, that is, no MAC matches by accident.
  pub decrypt_error-returned :
      (circuit : Circuit c) (qs : List Bytes) (s : Bytes) (post : List Bytes) (bs : Bytes)
      (p : c.Point)
      → generate_shared_secrets c circuit.payment_path circuit.session_key ≡ ok (qs ++ s ∷ post)
      → get_elem? circuit.payment_path (length qs) ≡ some p
      → length qs < 20
      → length bs ≡ 260
      → Unrecognised qs (layered c l s (with_mac s bs))
      → (returned qs s bs >>= decrypt_error c circuit) ≡ ok (p, bs)
  unfolding decrypt_error sender_or_error drop
  decrypt_error-returned circuit qs s post bs p secrets at h n no_other =
      let m = with_mac s bs in
      let wire = layers qs (layered c l s m) in
      let size : length wire ≡ 292 = omega (
        arith,
        length-layers qs (layered c l s m),
        length-layered c l s m,
        length-append (error_mac c s bs) bs,
        length-error_mac s bs,
      ) in
      let full : (length wire == 292) ≡ true = (==_iff (length wire) 292).1 size in
      rw
        (
          returned_lem qs s bs,
          full,
          secrets,
          find_lem qs s post 20 0 circuit.payment_path (qs ++ s ∷ post) bs p refl
              (subst (λ k. get_elem? circuit.payment_path k ≡ some p) (sym (zero-add (length qs)))
                at)
              h no_other,
        )
        refl
