-- ===== src/Onion/Wrapped.antt =====
-- The loop of `NewOnionPacket` against a recursion over the route, from its last hop to its first.
use lightning_onion.Prelude.{
  ℕ, suc, ◌+◌, ◌-◌, ◌≤◌, ◌≡◌, refl, sym, ap, ◌∙◌, arith, Bool, true, false, some, List, [], ◌∷◌,
  ◌++◌, All, Bytes, length, take, replicate, get_elem?, ok, ◌==◌, length-append, length-take,
  length-replicate, if◌then◌else◌, ==_of_ne,
}
use lightning_onion.Crypto.{Primitives, mu, rho, calc_mac, generate_key}
use lightning_onion.Crypto.Laws.{Laws}
use lightning_onion.Crypto.Keys.{generate_cipher_stream_lem, length-stream_of, length-calc_mac}
use lightning_onion.HopData.{HopData, IsHopData}
use lightning_onion.HopData.RoundTrip.{hop_bytes, encode_buffer, length-hop_bytes}
use lightning_onion.Route.{OnionHop}
use lightning_onion.Onion.{Wrapping, override_tail, wrap_hop, wrap_loop}
use lightning_onion.Onion.Layers.{layer, last_layer, length-layer}
use lightning_onion.Onion.Filler.{header_stream, elem_at_lem}
use lightning_onion.Onion.Unwind.{unwind, length-unwind, get_elem?-unwind, set-unwind}
use lightning_onion.Onion.Steps.{
  shift_header, slice_header, copy_header, xor_in_place, override_tail_lem,
}

-- A hop of the route with the secret that it shares with the sender.
pub record Leg (c : Primitives) : Type 0 where
  pub hop : OnionHop c
  pub secret : Bytes

abbrev pub with_hmac : HopData → Bytes → HopData
with_hmac hd mac = record hd { hmac = mac }

abbrev pub seal_hop : (c : Primitives) → OnionHop c → Bytes → OnionHop c
seal_hop c hop mac = record hop { hop_data = with_hmac hop.hop_data mac }

module _ (c : Primitives) (l : Laws c) (filler assoc_data : Bytes) where
  -- The header in front of the legs `rest`; behind the last leg the filler is put.
  abbrev pub mix_of : List (Leg c) → Bytes → Bytes → Bytes → Bytes
  mix_of [] enc next s = last_layer 65 1300 enc next filler s
  mix_of (x ∷ rest) enc next s = layer 65 1300 enc next s

  -- The mix header and the HMAC of the packet that the first of these legs receives; behind the
  -- last leg there are a header and an HMAC of zeroes.
  unfoldable pub header : List (Leg c) → Bytes × Bytes
  header [] = (replicate 1300 0, replicate 32 0)
  header (x ∷ rest) =
      let (next, mac) = header rest in
      let hop_data = with_hmac x.hop.hop_data mac in
      let mix = mix_of rest (hop_bytes hop_data) next (header_stream c l x.secret) in
      (mix, calc_mac c (generate_key c mu x.secret) (mix ++ assoc_data))

  -- The hops as `NewOnionPacket` leaves them, each with the HMAC of the packet behind it.
  unfoldable pub sealed : List (Leg c) → List (OnionHop c)
  sealed [] = []
  sealed (x ∷ rest) = seal_hop c x.hop (header rest).1 ∷ sealed rest

  -- The state of the loop when `r` is left, in reverse, and the legs `done` are wrapped.
  abbrev pub state : List (OnionHop c) → List (OnionHop c) → List (Leg c) → Wrapping c
  state r empties done = record {
    path = unwind r (sealed done ++ empties);
    mix_header = (header done).0;
    next_hmac = (header done).1;
  }

abbrev pub secrets_of : (c : Primitives) → List (Leg c) → List Bytes
secrets_of c [] = []
secrets_of c (x ∷ xs) = x.secret ∷ secrets_of c xs

abbrev pub hops_of : (c : Primitives) → List (Leg c) → List (OnionHop c)
hops_of c [] = []
hops_of c (x ∷ xs) = x.hop ∷ hops_of c xs

abbrev pub AreLegs : (c : Primitives) → List (Leg c) → Type 0
AreLegs c xs = All (λ x. IsHopData x.hop.hop_data) xs

pub length-hops_of : (c : Primitives) (xs : List (Leg c)) → length (hops_of c xs) ≡ length xs
length-hops_of c [] = refl
length-hops_of c (x ∷ xs) = ap suc (length-hops_of c xs)

pub length-secrets_of : (c : Primitives) (xs : List (Leg c)) → length (secrets_of c xs) ≡ length xs
length-secrets_of c [] = refl
length-secrets_of c (x ∷ xs) = ap suc (length-secrets_of c xs)

secrets_of-unwind :
    (c : Primitives) (r done : List (Leg c))
    → secrets_of c (unwind r done) ≡ unwind (secrets_of c r) (secrets_of c done)
secrets_of-unwind c [] done = refl
secrets_of-unwind c (x ∷ r) done = secrets_of-unwind c r (x ∷ done)

get-secrets_of :
    (c : Primitives) (r done : List (Leg c)) (x : Leg c)
    → get_elem? (secrets_of c (unwind r (x ∷ done))) (length r) ≡ some x.secret
get-secrets_of c r done x = rw (secrets_of-unwind c r (x ∷ done)) (
    ap (get_elem? (unwind (secrets_of c r) (x.secret ∷ secrets_of c done)))
      (sym (length-secrets_of c r))
    ∙ get_elem?-unwind (secrets_of c r) (secrets_of c done) x.secret)

AreLegs-unwind :
    (c : Primitives) (r done : List (Leg c)) → AreLegs c (unwind r done) → AreLegs c done
AreLegs-unwind c [] done v = v
AreLegs-unwind c (x ∷ r) done v = (AreLegs-unwind c r (x ∷ done) v).1

pub with_hmac-IsHopData :
    (hd : HopData) (mac : Bytes) → IsHopData hd → length mac ≡ 32 → IsHopData (with_hmac hd mac)
with_hmac-IsHopData hd mac v e = record {
  realm_length = v.realm_length;
  address_length = v.address_length;
  amount_fits = v.amount_fits;
  cltv_fits = v.cltv_fits;
  extra_length = v.extra_length;
  hmac_length = e;
}

module _ (c : Primitives) (l : Laws c) (filler assoc_data : Bytes)
    (room : length filler + 65 ≤ 1300) where
  length-mix_of :
      (rest : List (Leg c)) (enc next s : Bytes)
      → length enc ≡ 65
      → length next ≡ 1300
      → length s ≡ 1365
      → length (mix_of c l filler assoc_data rest enc next s) ≡ 1300
  length-mix_of [] enc next s e n k =
      let x = layer 65 1300 enc next s in
      omega (
        arith,
        length-layer 65 1300 (omega arith) enc next s e n k,
        length-append (take (1300 - length filler) x) filler,
        length-take (1300 - length filler) x,
      )
  length-mix_of (x ∷ rest) enc next s e n k = length-layer 65 1300 (omega arith) enc next s e n k

  pub length-header :
      (xs : List (Leg c))
      → AreLegs c xs
      → (length (header c l filler assoc_data xs).0 ≡ 1300)
        × (length (header c l filler assoc_data xs).1 ≡ 32)
  unfolding header
  length-header [] v = (length-replicate 1300 0, length-replicate 32 0)
  length-header (x ∷ rest) v =
      let ih = length-header rest v.1 in
      let hd = with_hmac x.hop.hop_data (header c l filler assoc_data rest).1 in
      (
        length-mix_of rest (hop_bytes hd) (header c l filler assoc_data rest).0
            (header_stream c l x.secret)
            (length-hop_bytes hd (with_hmac-IsHopData x.hop.hop_data _ v.0 ih.1)) ih.0
            (length-stream_of c l rho x.secret 1365),
        length-calc_mac c _ _,
      )

  -- The test for the last hop tells whether any leg stands behind.
  abbrev is_last : List (Leg c) → Bool
  is_last [] = true
  is_last (x ∷ rest) = false

  finish :
      (rest : List (Leg c)) (enc next s : Bytes) (b : Bool)
      → b ≡ is_last rest
      → length (layer 65 1300 enc next s) ≡ 1300
      → (if b
          then override_tail (layer 65 1300 enc next s) filler
          else ok (layer 65 1300 enc next s))
        ≡ ok (mix_of c l filler assoc_data rest enc next s)
  finish [] enc next s b e k = rw e (override_tail_lem _ filler k (omega arith))
  finish (x ∷ rest) enc next s b e k = rw e refl

  wrap_hop_lem :
      (num_hops : ℕ) (secrets : List Bytes) (r empties : List (OnionHop c)) (x : Leg c)
      (rest : List (Leg c))
      → AreLegs c (x ∷ rest)
      → get_elem? secrets (length r) ≡ some x.secret
      → (length r == num_hops - 1) ≡ is_last rest
      → wrap_hop c num_hops secrets filler assoc_data
          (length r)
          (state c l filler assoc_data (x.hop ∷ r) empties rest)
        ≡ ok (state c l filler assoc_data r empties (x ∷ rest))
  unfolding wrap_hop header sealed
  wrap_hop_lem num_hops secrets r empties x rest v at last =
      let lens = length-header rest v.1 in
      let next = (header c l filler assoc_data rest).0 in
      let mac = (header c l filler assoc_data rest).1 in
      let hd = with_hmac x.hop.hop_data mac in
      let stream = header_stream c l x.secret in
      let enc = hop_bytes hd in
      let le = length-hop_bytes hd (with_hmac-IsHopData x.hop.hop_data mac v.0 lens.1) in
      let filled = enc ++ take 1235 next in
      let ls = length-stream_of c l rho x.secret 1365 in
      rw
        (
          elem_at_lem secrets (length r) x.secret at,
          elem_at_lem (unwind r (x.hop ∷ sealed c l filler assoc_data rest ++ empties)) (length r)
              x.hop (get_elem?-unwind r _ x.hop),
          generate_cipher_stream_lem c l rho x.secret 1365,
          shift_header next lens.0,
          encode_buffer hd [],
          slice_header stream ls,
          copy_header enc next le lens.0,
          xor_in_place filled (take 1300 stream) 1300
              (omega (arith, le, length-append enc (take 1235 next), length-take 1235 next, lens.0))
              (omega (arith, length-take 1300 stream, ls)),
          finish rest enc next stream (length r == num_hops - 1) last
              (length-layer 65 1300 (omega arith) enc next stream le lens.0 ls),
          set-unwind r (sealed c l filler assoc_data rest ++ empties) x.hop (seal_hop c x.hop mac),
        )
        refl

  last_test :
      (i n : ℕ) (done : List (Leg c)) → n ≡ i + suc (length done) → (i == n - 1) ≡ is_last done
  last_test i n [] e = ground arith
  last_test i n (x ∷ done) e = ==_of_ne i (n - 1) (omega arith)

  pub wrap_loop_lem :
      (num_hops : ℕ) (secrets : List Bytes) (r : List (Leg c)) (empties : List (OnionHop c))
      (done : List (Leg c))
      → AreLegs c (unwind r done)
      → secrets ≡ secrets_of c (unwind r done)
      → num_hops ≡ length (unwind r done)
      → wrap_loop c num_hops secrets filler assoc_data
          (length r)
          (state c l filler assoc_data (hops_of c r) empties done)
        ≡ ok (state c l filler assoc_data [] empties (unwind r done))
  unfolding wrap_loop
  wrap_loop_lem num_hops secrets [] empties done v e n = refl
  wrap_loop_lem num_hops secrets (x ∷ r) empties done v e n =
      let i = length r in
      let same = length-hops_of c r in
      let at : get_elem? secrets (length (hops_of c r)) ≡ some x.secret =
        rw (same, e) (get-secrets_of c r done x) in
      let last : (length (hops_of c r) == num_hops - 1) ≡ is_last done =
        rw same (last_test i num_hops done (n ∙ length-unwind r (x ∷ done))) in
      let w = state c l filler assoc_data (x.hop ∷ hops_of c r) empties done in
      let step : wrap_hop c num_hops secrets filler assoc_data i w
          ≡ ok (state c l filler assoc_data (hops_of c r) empties (x ∷ done)) =
        ap (λ i. wrap_hop c num_hops secrets filler assoc_data i w) (sym same)
        ∙ wrap_hop_lem num_hops secrets (hops_of c r) empties x done
            (AreLegs-unwind c r (x ∷ done) v) at last in
      rw step (wrap_loop_lem num_hops secrets r empties (x ∷ done) v e n)
