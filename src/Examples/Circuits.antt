-- ===== src/Examples/Circuits.antt =====
-- Circuits and error messages at concrete inputs, with a small format of private keys.
use lightning_onion.Prelude.{
  ℕ, zero, suc, ◌%◌, ◌^◌, ◌<◌, ◌≡◌, refl, sym, ap, ◌∙◌, arith, true, some, bytes_eq, take, drop, ok,
  panics, Bytes, List, [], ◌∷◌, ◌++◌, length, replicate, get_elem?, length-replicate,
}
use lightning_onion.Bytes.{be_bytes, of_bytes, to_bytes, copy}
use lightning_onion.Bytes.BigEndian.{length-be_bytes, of_bytes-be_bytes, of_bytes-to_bytes}
use lightning_onion.Bytes.Xor.{zip_xor}
use lightning_onion.Stream.{buffer_write}
use lightning_onion.Crypto
use lightning_onion.Crypto.{
  PrivateKey, KeyFormat, generate_key, blind_group_element, compute_blinding_factor,
}
use lightning_onion.Crypto.Keys.{stream_of}
use lightning_onion.Secrets.{generate_shared_secrets}
use lightning_onion.Secrets.Agreement.{
  public_keys, next_ephemeral, generate_shared_secrets-eq-router_secrets,
}
use lightning_onion.Circuits.{encode_circuit, decode_circuit}
use lightning_onion.Circuits.RoundTrip.{KeyLaws, key_bytes, AreOnCurve, decode-encode_circuit}
use lightning_onion.Circuits.Truncated.{decode_circuit-cut}
use lightning_onion.ErrorOnion.{Circuit, decrypt_error, error_mac, dummy_secret, round_secret}
use lightning_onion.ErrorOnion.Layered.{layered}
use lightning_onion.ErrorOnion.Return.{layers, with_mac}
use lightning_onion.ErrorOnion.Total.{Outcome, decrypt_error-Outcome}
use lightning_onion.ErrorOnion.Rounds.{peel, Unmatched, matches, decrypt_error_first_match}
use lightning_onion.Examples.Toy.{toy, toy_laws, digest, serialize}
use lightning_onion.Examples.Onions.{key_pair}

abbrev pub toy_format : KeyFormat toy
toy_format = record {
  priv_key_from_bytes = λ bs. record { pub_key = of_bytes bs % 251; d = of_bytes bs };
  serialize = λ key. be_bytes 32 key.d;
}

read_back :
    (key : PrivateKey toy)
    → key.d < 256 ^ 32
    → key.pub_key ≡ of_bytes (to_bytes key.d) % 251
    → toy_format.priv_key_from_bytes (toy_format.serialize key) ≡ key
read_back key small pair =
    ap (λ (n : ℕ). record { pub_key = n % 251; d = n }) (of_bytes-be_bytes 32 key.d small)
    ∙ ap (λ (p : ℕ). record { pub_key = p; d = key.d })
        (ap (λ (n : ℕ). n % 251) (sym (of_bytes-to_bytes key.d)) ∙ sym pair)

abbrev toy_key_laws : KeyLaws toy toy_format
toy_key_laws = record {
  serialize_length = λ key. length-be_bytes 32 key.d;
  from_serialize = read_back;
}

-- A path of more keys than a byte can count.
abbrev long : Circuit toy
long = record { session_key = key_pair 3; payment_path = replicate 300 5 }

all_five : (n : ℕ) → AreOnCurve toy (replicate n 5)
unfolding replicate
all_five zero = tt
all_five (suc n) = (refl, all_five n)

decode-encode_circuit_example :
    let path : List ℕ = long.payment_path in
    let n = length path % 256 in
    decode_circuit toy toy_format ((encode_circuit toy toy_format buffer_write long []).1 ++ 1 ∷ [])
    ≡ (ok (record long { payment_path = take n path }), key_bytes toy (drop n path) ++ 1 ∷ [])
decode-encode_circuit_example =
    decode-encode_circuit toy toy_format toy_laws toy_key_laws long (1 ∷ []) (omega arith)
      (ap (λ (n : ℕ). n % 251) (sym (of_bytes-to_bytes 3))) (all_five 300)

zero_read : toy.parse_pub_key (9 ∷ [] ++ replicate 32 0) ≡ some 0
unfolding replicate get_elem?
zero_read = refl

decode_circuit-cut_example :
    decode_circuit toy toy_format
      ((32 ∷ []) ++ (replicate 32 1 ++ ((2 ∷ []) ++ (key_bytes toy (5 ∷ []) ++ 9 ∷ []))))
    ≡ (
      ok (record {
        session_key = toy_format.priv_key_from_bytes (replicate 32 1);
        payment_path = 5 ∷ 0 ∷ [];
      }),
      [],
    )
decode_circuit-cut_example =
    decode_circuit-cut toy toy_laws toy_format (replicate 32 1) (5 ∷ []) (9 ∷ []) 0
      (length-replicate 32 1) (refl, tt) (omega arith) (omega arith) zero_read

abbrev secrets : List Bytes
secrets =
    Crypto.generate_shared_secret toy 3 (key_pair 5)
    ∷ Crypto.generate_shared_secret toy (next_ephemeral toy 3 (key_pair 5)) (key_pair 7)
    ∷ []

abbrev sent : Circuit toy
sent = record {
  session_key = key_pair 3;
  payment_path = public_keys toy (key_pair 5 ∷ key_pair 7 ∷ []);
}

sent_secrets : generate_shared_secrets toy sent.payment_path sent.session_key ≡ ok secrets
sent_secrets =
    generate_shared_secrets-eq-router_secrets toy toy_laws (key_pair 3) (key_pair 5)
      (key_pair 7 ∷ []) refl (refl, (refl, tt))

-- A message that no node has sent.
abbrev noise : Bytes
noise = replicate 292 7

decrypt_error-Outcome_example : Outcome toy toy_laws sent noise
decrypt_error-Outcome_example = decrypt_error-Outcome toy toy_laws sent noise

-- A message with a MAC under the secret of the dummy rounds, behind the end of the path.
abbrev dummy_message : Bytes
dummy_message =
    layers toy toy_laws secrets
      (layered toy toy_laws dummy_secret (with_mac toy toy_laws dummy_secret (replicate 260 1)))

dummy_first : Unmatched toy toy_laws 2 0 secrets dummy_message
unfolding peel layers layered error_mac take drop replicate stream_of digest serialize of_bytes
    to_bytes zip_xor bytes_eq generate_key copy blind_group_element compute_blinding_factor
    Crypto.generate_shared_secret round_secret get_elem?
dummy_first = (refl, (refl, tt))

dummy_matches : matches toy toy_laws 2 secrets (peel toy toy_laws 2 0 secrets dummy_message) ≡ true
unfolding peel layers layered error_mac take drop replicate stream_of digest serialize of_bytes
    to_bytes zip_xor bytes_eq generate_key copy blind_group_element compute_blinding_factor
    Crypto.generate_shared_secret round_secret get_elem?
dummy_matches = refl

dummy_size : length dummy_message ≡ 292
unfolding layers layered error_mac take drop replicate stream_of digest serialize of_bytes to_bytes
    zip_xor bytes_eq generate_key copy blind_group_element compute_blinding_factor
    Crypto.generate_shared_secret
dummy_size = refl

dummy_round_panics : decrypt_error toy sent dummy_message ≡ panics
unfolding get_elem?
dummy_round_panics =
    decrypt_error_first_match toy toy_laws sent secrets dummy_message sent_secrets dummy_size 2
      (omega arith) dummy_first dummy_matches
