-- ===== src/Onion/Filler.antt =====
-- `generateHeaderPadding` of sphinx.go, beside the filler that grows hop by hop.
use native.Mathlib.Numerals.{add-one}
use lightning_onion.Prelude.{
  ℕ, suc, ◌+◌, ◌-◌, ◌*◌, ◌≤◌, ◌≡◌, refl, sym, ap, ap₂, ◌∙◌, arith, some, List, [], ◌∷◌, ◌++◌,
  append-nil, append_assoc, Bytes, length, drop, replicate, get_elem?, ok, length-append,
  length-replicate, length-drop, take_all, drop-append, replicate-add, get_elem?_of_drop, drop-suc,
  min, ==_of_ne,
}
use lightning_onion.Bytes.{slice, xor}
use lightning_onion.Bytes.Copy.{slice_lem}
use lightning_onion.Bytes.Xor.{zip_xor, xor_eq_zip, zip_xor-append_long, length-zip_xor}
use lightning_onion.Sizes.{hop_data_size}
use lightning_onion.Crypto.{Primitives, rho}
use lightning_onion.Crypto.Laws.{Laws}
use lightning_onion.Crypto.Keys.{stream_of, length-stream_of, generate_cipher_stream_lem}
use lightning_onion.Onion.{elem_at, pad, padding_loop, generate_header_padding}
use lightning_onion.Onion.Layers.{grow}

-- An index in range.
pub elem_at_lem {ℓ} :
    {A : Type ℓ} (xs : List A) (i : ℕ) (x : A) → get_elem? xs i ≡ some x → elem_at xs i ≡ ok x
unfolding elem_at
elem_at_lem xs i x e = rw (e, elem_at)

suc-mul_left : (m : ℕ) → suc m * 65 ≡ 65 + m * 65
suc-mul_left m = omega arith

suc-sub-one : (j : ℕ) → suc j - 1 ≡ j
suc-sub-one j = omega arith

-- The slice of the key stream that a round takes is its end.
slice_part :
    (stream f : Bytes) (j : ℕ)
    → length stream ≡ 1365
    → length f ≡ j * 65
    → j ≤ 19
    → slice stream ((21 - suc j) * 65) ((21 - suc j) * 65 + suc j * 65)
      ≡ ok (drop (1300 - length f) stream)
slice_part stream f j k e fits =
    let total = (21 - suc j) * 65 in
    slice_lem stream total (suc j * 65) (omega arith)
    ∙ ap ok (
        take_all (suc j * 65) (drop total stream) (omega (arith, length-drop total stream))
        ∙ ap (λ n. drop n stream) (omega arith))

-- A key stream for the front of the filler leaves the zeroes behind.
xor_part :
    (f part : Bytes) (m : ℕ)
    → length part ≡ length f + 65
    → let filler = f ++ replicate (suc m * 65) 0 in
      (n : ℕ) × (xor filler filler part
        ≡ ok (zip_xor (f ++ replicate 65 0) part ++ replicate (m * 65) 0, n))
xor_part f part m k =
    let zeroes : Bytes = replicate (m * 65) 0 in
    let front = f ++ replicate 65 0 in
    let lf : length front ≡ length part =
      omega (arith, length-append f (replicate 65 0), length-replicate {A = ℕ} 65 0) in
    let split : f ++ replicate (suc m * 65) 0 ≡ front ++ zeroes =
      ap (λ t. f ++ t) (ap (λ k. replicate k 0) (suc-mul_left m) ∙ replicate-add 65 (m * 65) 0)
      ∙ sym (append_assoc f (replicate 65 0) zeroes) in
    let n = min (length (front ++ zeroes)) (length part) in
    let en : n ≡ length part = omega (arith, length-append front zeroes) in
    (
      n,
      rw split (
          xor_eq_zip (front ++ zeroes) (front ++ zeroes) part (omega arith)
          ∙ ap (λ t. ok (t, n))
              (ap₂ ◌++◌ (zip_xor-append_long front zeroes part (omega arith))
                (drop-append n front zeroes (omega arith)))),
    )

module _ (c : Primitives) (l : Laws c) where
  -- The key stream of a hop, of `numStreamBytes` bytes.
  abbrev pub header_stream : Bytes → Bytes
  header_stream secret = stream_of c l rho secret 1365

  -- The filler that starts as `f` and grows at every hop but the last.
  abbrev pub filler_of : Bytes → List Bytes → Bytes
  filler_of f [] = f
  filler_of f (s ∷ []) = f
  filler_of f (s ∷ s' ∷ ss) = filler_of (grow 65 1300 f (header_stream s)) (s' ∷ ss)

  pub length-grow :
      (f s : Bytes)
      → length f + 65 ≤ 1300
      → length (grow 65 1300 f (header_stream s)) ≡ length f + 65
  length-grow f s fits = omega (
    arith,
    length-zip_xor (f ++ replicate 65 0) (drop (1300 - length f) (header_stream s)),
    length-append f (replicate 65 0),
    length-replicate {A = ℕ} 65 0,
    length-drop (1300 - length f) (header_stream s),
    length-stream_of c l rho s 1365,
  )

  pub length-filler_of :
      (f : Bytes) (s : Bytes) (ss : List Bytes)
      → length f + length ss * 65 ≤ 1300
      → length (filler_of f (s ∷ ss)) ≡ length f + length ss * 65
  length-filler_of f s [] h = omega arith
  length-filler_of f s (s' ∷ ss) h = omega (
    arith,
    length-grow f s (omega arith),
    length-filler_of (grow 65 1300 f (header_stream s)) s' ss
        (omega (arith, length-grow f s (omega arith))),
  )

  -- One round appends the next hop's share to the filler so far; the zeroes behind it are the
  -- shares that are still missing.
  pad_lem :
      (secrets : List Bytes) (s : Bytes) (j m : ℕ) (f : Bytes)
      → get_elem? secrets j ≡ some s
      → length f ≡ j * 65
      → j + suc m ≤ 19
      → pad c rho 65 secrets (suc j) (f ++ replicate (suc m * 65) 0)
        ≡ ok (grow 65 1300 f (header_stream s) ++ replicate (m * 65) 0)
  unfolding pad
  pad_lem secrets s j m f e k fits =
      let stream = header_stream s in
      let part = drop (1300 - length f) stream in
      let k' = length-stream_of c l rho s 1365 in
      let lp = length-drop (1300 - length f) stream in
      rw
        (
          suc-sub-one j,
          elem_at_lem secrets j s e,
          generate_cipher_stream_lem c l rho s 1365,
          slice_part stream f j k' k (omega arith),
          (xor_part f part m (omega arith)).1,
        )
        refl

  padding_loop_lem :
      (secrets : List Bytes) (j : ℕ) (f : Bytes) (s : Bytes) (ss : List Bytes)
      → drop j secrets ≡ s ∷ ss
      → length f ≡ j * 65
      → j + length ss ≤ 19
      → padding_loop c rho 65 secrets (length ss) (suc j) (f ++ replicate (length ss * 65) 0)
        ≡ ok (filler_of f (s ∷ ss))
  unfolding padding_loop replicate
  padding_loop_lem secrets j f s [] e k fits = ap ok (append-nil f)
  padding_loop_lem secrets j f s (s' ∷ ss) e k fits =
      rw (pad_lem secrets s j (length ss) f (get_elem?_of_drop j secrets e) k fits, add-one (suc j))
        (padding_loop_lem secrets (suc j) (grow 65 1300 f (header_stream s)) s' ss
          (drop-suc j secrets e) (omega (arith, length-grow f s (omega arith))) (omega arith))

  -- For one to twenty secrets `generateHeaderPadding` returns the filler that starts empty and, for
  -- every secret but the last, grows by 65 zero bytes and is encrypted with the end of the key
  -- stream of that secret.
  pub generate_header_padding_lem :
      (s : Bytes) (ss : List Bytes)
      → length (s ∷ ss) ≤ 20
      → generate_header_padding c rho (length (s ∷ ss)) hop_data_size (s ∷ ss)
        ≡ ok (filler_of [] (s ∷ ss))
  unfolding generate_header_padding drop
  generate_header_padding_lem s ss h =
      rw (==_of_ne (suc (length ss)) 0 (omega arith), suc-sub-one (length ss))
        (padding_loop_lem (s ∷ ss) 0 [] s ss refl (omega arith) (omega arith))
