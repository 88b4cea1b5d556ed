-- ===== src/Examples/Toy.antt =====
-- Small packages that have the documented behaviour: a group of 251 elements for the curve, and
-- hashes and key streams that repeat one byte.
use native.Mathlib.Nat.{div-add-mod}
use lightning_onion.Prelude.{
  ℕ, ◌*◌, ◌%◌, ◌≡◌, ◌≢◌, refl, ap, arith, true, none, some, Bytes, [], ◌∷◌, ◌++◌, length, replicate,
  get_elem?, length-replicate, ltb, leb, ◌==◌, ltb_of_lt, ==_of_ne, if◌then◌else◌,
}
use lightning_onion.Bytes.{of_bytes}
use lightning_onion.Bytes.Bounds.{AreBytes, replicate-AreBytes}
use lightning_onion.Crypto.{Primitives}
use lightning_onion.Crypto.Laws.{Laws}

unfoldable pub digest : ℕ → Bytes → Bytes
digest n msg = replicate n (of_bytes msg % 251)

unfoldable pub serialize : ℕ → Bytes
serialize p = replicate 32 0 ++ p ∷ []

abbrev pub toy : Primitives
toy = record {
  Point = ℕ;
  is_nil = λ p. leb 251 p;
  scalar_mult = λ p k. of_bytes k * p % 251;
  scalar_base_mult = λ k. of_bytes k % 251;
  is_on_curve = λ p. ltb p 251;
  order = 251;
  serialize_compressed = serialize;
  parse_pub_key = λ bs. get_elem? bs 32;
  sha256 = digest 32;
  hmac_sha256 = λ key msg. digest 32 (key ++ msg);
  hash160 = digest 20;
  Address = Bytes;
  new_address_pub_key_hash = λ hash. if length hash == 20 then some hash else none;
  new_cipher = λ nonce key. some (λ n. digest n key);
}

pub length-digest : (n : ℕ) (msg : Bytes) → length (digest n msg) ≡ n
unfolding digest
length-digest n msg = length-replicate n _

pub digest-AreBytes : (n : ℕ) (msg : Bytes) → AreBytes (digest n msg)
unfolding digest
digest-AreBytes n msg = replicate-AreBytes n (of_bytes msg % 251) (omega arith)

pub mul-mod_right : (a n : ℕ) → a * (n % 251) % 251 ≡ a * n % 251
mul-mod_right a n = omega (arith, ap (λ (t : ℕ). a * t) (div-add-mod n 251))

pub length-serialize : (p : ℕ) → length (serialize p) ≡ 33
unfolding serialize replicate
length-serialize p = refl

pub parse_serialize : (p : ℕ) → get_elem? (serialize p) 32 ≡ some p
unfolding serialize replicate get_elem?
parse_serialize p = refl

pub mod-mod_251 : (n : ℕ) → n % 251 % 251 ≡ n % 251
mod-mod_251 n = omega arith

pub no_address : (hash : Bytes) → length hash ≢ 20 → toy.new_address_pub_key_hash hash ≡ none
no_address hash ne = rw (==_of_ne (length hash) 20 ne) refl

abbrev pub toy_laws : Laws toy
toy_laws = record {
  hmac_length = λ key msg. length-digest 32 (key ++ msg);
  sha_length = λ msg. length-digest 32 msg;
  cipher =
      λ key _. ((λ n. digest n key), refl, (λ n. length-digest n key), λ n. digest-AreBytes n key);
  address_of_hash = no_address;
  hash160_length = λ msg. length-digest 20 msg;
  serialized_length = length-serialize;
  parse_serialized = λ p _. parse_serialize p;
  multiple = λ n. n % 251;
  base_mult = λ k. refl;
  mult = λ n k. mul-mod_right (of_bytes k) n;
  multiple_mod = mod-mod_251;
}

-- The result of a multiplication lies on the curve.
pub on_curve : (n : ℕ) → toy.is_on_curve (n % 251) ≡ true
on_curve n = ltb_of_lt (n % 251) 251 (omega arith)
