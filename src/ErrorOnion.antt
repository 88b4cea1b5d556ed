-- ===== src/ErrorOnion.antt =====
-- The encryption of errors on their way back to the sender: `onionEncrypt`, `EncryptError` and
-- `DecryptError` of crypto.go, with the types of obfuscation.go that hold their secrets.
pub mod Layered
pub mod Return
pub mod Rounds
pub mod Reported
pub mod Sender
pub mod Total
use lightning_onion.Prelude.{
  ℕ, zero, suc, ◌+◌, Bool, true, false, Bytes, Option, none, some, List, [], ◌∷◌, ◌++◌, length,
  replicate, get_elem?, Result, ok, err, invalid_error_length, unable_to_retrieve, ◌>>=◌, bytes_eq,
  ◌==◌, if◌then◌else◌,
}
use lightning_onion.Bytes.{xor, slice}
use lightning_onion.Sizes.{num_max_hops}
use lightning_onion.Crypto.{
  Primitives, PrivateKey, sha256_size, um, ammag, generate_key, generate_cipher_stream,
}
use lightning_onion.Secrets.{generate_shared_secrets}
use lightning_onion.Onion.{elem_at}
use lightning_onion.Router.{Router, generate_shared_secret}

-- `2 + 2 + 256 + sha256.Size`
abbrev pub onion_error_length : ℕ
onion_error_length = 2 + 2 + 256 + sha256_size

abbrev pub dummy_secret : Bytes
dummy_secret = replicate 32 1

module _ (c : Primitives) where
  open c use {Point, hmac_sha256}

  pub record Circuit : Type 0 where
    pub session_key : PrivateKey c
    pub payment_path : List Point

  -- An encrypter is its shared secret.
  unfoldable pub new_onion_error_encrypter : Router c → Point → Result Bytes
  new_onion_error_encrypter router ephemeral_key = generate_shared_secret c router ephemeral_key

  -- A decrypter is its circuit.
  unfoldable pub new_onion_error_decrypter : Circuit → Circuit
  new_onion_error_decrypter circuit = circuit

  unfoldable pub onion_encrypt : Bytes → Bytes → Result Bytes
  onion_encrypt shared_secret bs = do
    stream ← generate_cipher_stream c (generate_key c ammag shared_secret) (length bs)
    out ← xor (replicate (length bs) 0) bs stream
    ok out.0

  -- The HMAC under the key "um" of a secret.
  unfoldable pub error_mac : Bytes → Bytes → Bytes
  error_mac shared_secret bs = hmac_sha256 (generate_key c um shared_secret) bs

  unfoldable pub encrypt_error : Bytes → Bool → Bytes → Result Bytes
  encrypt_error shared_secret initial bs =
      if initial
      then onion_encrypt shared_secret (error_mac shared_secret bs ++ bs)
      else onion_encrypt shared_secret bs

  -- The secret of round `i`: the dummy secret when the sender is known or the secrets are used up.
  unfoldable pub round_secret : Option (Point × Bytes) → List Bytes → ℕ → Bytes
  round_secret (some found) shared_secrets i = dummy_secret
  round_secret none shared_secrets i = elim (get_elem? shared_secrets i) [
    | none ↦ dummy_secret
    | some secret ↦ secret
  ]

  -- The end of a round: the sender is that of the first round whose MAC matches.
  unfoldable pub note_sender :
      List Point → ℕ → Bool → Bytes → Option (Point × Bytes) → Result (Option (Point × Bytes))
  note_sender path i matches bs (some found) = ok (some found)
  note_sender path i false bs none = ok none
  note_sender path i true bs none = do sender ← elem_at path i; ok (some (sender, bs))

  -- The rounds from `i` on, of which `left` are left.
  unfoldable pub decrypt_loop :
      ℕ
      → ℕ
      → List Point
      → List Bytes
      → Bytes
      → Option (Point × Bytes)
      → Result (Option (Point × Bytes))
  decrypt_loop zero i path shared_secrets encrypted found = ok found
  decrypt_loop (suc left) i path shared_secrets encrypted found = do
    let secret = round_secret found shared_secrets i
    stripped ← onion_encrypt secret encrypted
    expected_mac ← slice stripped 0 sha256_size
    bs ← slice stripped sha256_size (length stripped)
    found' ← note_sender path i (bytes_eq (error_mac secret bs) expected_mac) bs found
    decrypt_loop left (i + 1) path shared_secrets stripped found'

  unfoldable pub sender_or_error : Option (Point × Bytes) → Result (Point × Bytes)
  sender_or_error none = err unable_to_retrieve
  sender_or_error (some found) = ok found

  unfoldable pub decrypt_error : Circuit → Bytes → Result (Point × Bytes)
  unfolding decrypt_loop
  decrypt_error circuit encrypted =
      if length encrypted == onion_error_length
      then (do
        shared_secrets ← generate_shared_secrets c circuit.payment_path circuit.session_key
        found ← decrypt_loop num_max_hops 0 circuit.payment_path shared_secrets encrypted none
        sender_or_error found)
      else err (invalid_error_length (length encrypted))
