-- ===== src/Onion/Layers.antt =====
-- One layer of the mix header, at the level of bytes: a header of `l` bytes, a payload of `h` in
-- front of it, and a key stream of `l + h`.
use lightning_onion.Prelude.{
  ℕ, ◌+◌, ◌-◌, ◌≤◌, ◌≡◌, refl, sym, ap, ap₂, ◌∙◌, arith, Bytes, ◌++◌, append_assoc, length, take,
  drop, replicate, length-append, length-take, length-drop, take-append, drop-append, drop-drop,
  drop-take, take_all, take-take, take-append-drop, take-append_le,
}
use lightning_onion.Bytes.Xor.{
  zip_xor, length-zip_xor, zip_xor_cancel, zip_xor-zeroes, take-zip_xor, drop-zip_xor,
  zip_xor-append,
}

-- The header of a hop before the last: its payload and the front of the next hop's header,
-- encrypted.
abbrev pub layer : ℕ → ℕ → Bytes → Bytes → Bytes → Bytes
layer h l enc next s = zip_xor (enc ++ take (l - h) next) (take l s)

-- The header of the last hop, whose tail is overridden by the filler.
abbrev pub last_layer : ℕ → ℕ → Bytes → Bytes → Bytes → Bytes → Bytes
last_layer h l enc next filler s = take (l - length filler) (layer h l enc next s) ++ filler

-- What a node decrypts: the header with `h` zeroes behind it.
abbrev pub peeled : ℕ → Bytes → Bytes → Bytes
peeled h header s = zip_xor (header ++ replicate h 0) s

-- The filler of one more hop.
abbrev pub grow : ℕ → ℕ → Bytes → Bytes → Bytes
grow h l filler s = zip_xor (filler ++ replicate h 0) (drop (l - length filler) s)

module _ (h l : ℕ) (room : h ≤ l) where
  -- If the next header ends in the end of the key stream, then decrypting a layer returns the
  -- payload and the next header.
  pub peeled-layer :
      (enc next s : Bytes)
      → length enc ≡ h
      → length next ≡ l
      → length s ≡ l + h
      → drop (l - h) next ≡ drop l s
      → peeled h (layer h l enc next s) s ≡ enc ++ next
  peeled-layer enc next s e n k tail =
      let x = enc ++ take (l - h) next in
      let t = take l s in
      let lx : length x ≡ l =
        omega (arith, length-append enc (take (l - h) next), length-take (l - h) next) in
      let lt : length t ≡ l = omega (arith, length-take l s) in
      ap (zip_xor (zip_xor x t ++ replicate h 0)) (sym (take-append-drop l s))
      ∙ zip_xor-append (zip_xor x t) (replicate h 0) t (drop l s)
          (omega (arith, length-zip_xor x t))
      ∙ ap₂ ◌++◌ (zip_xor_cancel x t (omega arith)) (
          zip_xor-zeroes h (drop l s)
          ∙ take_all h (drop l s) (omega (arith, length-drop l s))
          ∙ sym tail)
      ∙ append_assoc enc (take (l - h) next) (drop (l - h) next)
      ∙ ap (λ u. enc ++ u) (take-append-drop (l - h) next)

  split_room : (f : ℕ) → f + h ≤ l → l - h ≡ l - (f + h) + f
  split_room f fits = omega arith

  rest_room : (f : ℕ) → f + h ≤ l → l - f + f ≡ l
  rest_room f fits = omega arith

  front_room : (f : ℕ) → f + h ≤ l → h + (l - (f + h)) ≡ l - f
  front_room f fits = omega arith

  pub drop-next_tail :
      (filler next s : Bytes)
      → length filler + h ≤ l
      → length s ≡ l + h
      → drop (l - (length filler + h)) next ≡ grow h l filler s
      → drop (l - h) next ≡ drop l s
  drop-next_tail filler next s fits k grown =
      let f = length filler in
      let zeroes : Bytes = replicate h 0 in
      ap (λ t. drop t next) (split_room f fits)
      ∙ sym (drop-drop f (l - (f + h)) next)
      ∙ ap (drop f) grown
      ∙ drop-zip_xor f (filler ++ zeroes) (drop (l - f) s)
      ∙ ap₂ zip_xor (drop-append f filler zeroes refl)
          (drop-drop f (l - f) s ∙ ap (λ t. drop t s) (rest_room f fits))
      ∙ zip_xor-zeroes h (drop l s)
      ∙ take_all h (drop l s) (omega (arith, length-drop l s))

  -- If the next header ends in the grown filler, then the header ends in the filler.
  pub drop-layer :
      (enc filler next s : Bytes)
      → length enc ≡ h
      → length next ≡ l
      → length filler + h ≤ l
      → length s ≡ l + h
      → drop (l - (length filler + h)) next ≡ grow h l filler s
      → drop (l - length filler) (layer h l enc next s) ≡ filler
  drop-layer enc filler next s e n fits k grown =
      let f = length filler in
      let t = take (l - h) next in
      let zeroes : Bytes = replicate h 0 in
      let key = take f (drop (l - f) s) in
      drop-zip_xor (l - f) (enc ++ t) (take l s)
      ∙ ap₂ zip_xor
          (ap (λ n. drop n (enc ++ t)) (sym (front_room f fits))
            ∙ sym (drop-drop (l - (f + h)) h (enc ++ t))
            ∙ ap (drop (l - (f + h))) (drop-append h enc t e)
            ∙ ap (λ n. drop (l - (f + h)) (take n next)) (split_room f fits)
            ∙ drop-take (l - (f + h)) f next
            ∙ ap (take f) grown
            ∙ take-zip_xor f (filler ++ zeroes) (drop (l - f) s)
            ∙ ap (λ u. zip_xor u key) (take-append f filler zeroes refl))
          (ap (λ n. drop (l - f) (take n s)) (sym (rest_room f fits)) ∙ drop-take (l - f) f s)
      ∙ zip_xor_cancel filler key
          (omega (arith, length-take f (drop (l - f) s), length-drop (l - f) s))

  pub length-layer :
      (enc next s : Bytes)
      → length enc ≡ h
      → length next ≡ l
      → length s ≡ l + h
      → length (layer h l enc next s) ≡ l
  length-layer enc next s e n k = omega (
    arith,
    length-zip_xor (enc ++ take (l - h) next) (take l s),
    length-append enc (take (l - h) next),
    length-take (l - h) next,
    length-take l s,
  )

  front_of_last :
      (enc next filler s : Bytes)
      → length enc ≡ h
      → length next ≡ l
      → length filler + h ≤ l
      → length s ≡ l + h
      → take h (peeled h (last_layer h l enc next filler s) s) ≡ enc
  front_of_last enc next filler s e n fits k =
      let q = l - length filler in
      let x = layer h l enc next s in
      let lx = length-layer enc next s e n k in
      let t = take (l - h) next in
      let m = last_layer h l enc next filler s in
      take-zip_xor h (m ++ replicate h 0) s
      ∙ ap (λ u. zip_xor u (take h s))
          (take-append_le h m (replicate h 0)
              (omega (arith, lx, length-append (take q x) filler, length-take q x))
            ∙ take-append_le h (take q x) filler (omega (arith, lx, length-take q x))
            ∙ take-take h q x (omega arith)
            ∙ take-zip_xor h (enc ++ t) (take l s)
            ∙ ap₂ zip_xor (take-append h enc t e) (take-take h l s room))
      ∙ zip_xor_cancel enc (take h s) (omega (arith, length-take h s))

  -- The last node finds its payload in front, whatever stands behind.
  pub peeled-last_layer :
      (enc next filler s : Bytes)
      → length enc ≡ h
      → length next ≡ l
      → length filler + h ≤ l
      → length s ≡ l + h
      → let p = peeled h (last_layer h l enc next filler s) s in p ≡ enc ++ drop h p
  peeled-last_layer enc next filler s e n fits k =
      let p = peeled h (last_layer h l enc next filler s) s in
      sym (take-append-drop h p)
      ∙ ap (λ u. u ++ drop h p) (front_of_last enc next filler s e n fits k)

  pub drop-last_layer :
      (enc next filler s : Bytes)
      → length enc ≡ h
      → length next ≡ l
      → length filler + h ≤ l
      → length s ≡ l + h
      → drop (l - length filler) (last_layer h l enc next filler s) ≡ filler
  drop-last_layer enc next filler s e n fits k =
      let x = layer h l enc next s in
      drop-append (l - length filler) (take (l - length filler) x) filler
        (omega (arith, length-take (l - length filler) x, length-layer enc next s e n k))
