-- ===== src/ErrorOnion/Reported.antt =====
-- `ReconstructOnionPacket` of sphinx.go with `NewOnionErrorEncrypter` of obfuscation.go and
-- `EncryptError` of crypto.go: a node on the route of a packet reports an error.
use lightning_onion.Prelude.{
  ◌≡◌, ◌≢◌, refl, true, false, none, some, Option, Bytes, List, [], ◌∷◌, ◌++◌, Result, ok, panics,
  ◌>>=◌,
}
use mathlib.Core.Path.{subst}
use lightning_onion.Crypto.{
  Primitives, PrivateKey, hmac_size, rho, mu, generate_cipher_stream, calc_mac, generate_key,
  blind_group_element, compute_blinding_factor,
}
use lightning_onion.Crypto
use lightning_onion.Crypto.Laws.{Laws}
use lightning_onion.Route.{OnionHop}
use lightning_onion.Secrets.Agreement.{next_ephemeral, router_secrets}
use lightning_onion.Packet.{OnionPacket}
use lightning_onion.Router.{new_router, generate_shared_secret, reconstruct_onion_packet}
use lightning_onion.Router.Delivery.{Delivers, arrives, forwards}
use lightning_onion.Router.Journey.{on_curve_of_ok}
use lightning_onion.Router.Next.{next_packet-IsNext}
use lightning_onion.ErrorOnion.{new_onion_error_encrypter, encrypt_error}
use lightning_onion.ErrorOnion.Return.{returned}

module _ (c : Primitives) where
  -- A nil packet that is used is a panic.
  abbrev pub handed_on : Option (OnionPacket c) → Result (OnionPacket c)
  handed_on none = panics
  handed_on (some packet) = ok packet

  -- The routers with the keys `qs` process the packet and hand it on, until the one with the key
  -- `k` reports an error, which the others encrypt in turn on its way back. Each router makes its
  -- encrypter from the ephemeral key of the packet that it received.
  unfoldable pub report :
      Bytes → OnionPacket c → List (PrivateKey c) → PrivateKey c → Bytes → Result Bytes
  report assoc_data packet [] k bs = do
    secret ← new_onion_error_encrypter c (new_router c k) packet.ephemeral_key
    encrypt_error c secret true bs
  report assoc_data packet (q ∷ qs) k bs = do
    secret ← new_onion_error_encrypter c (new_router c q) packet.ephemeral_key
    p ← reconstruct_onion_packet c (new_router c q) packet assoc_data
    next ← handed_on p.next_packet
    m ← report assoc_data next qs k bs
    encrypt_error c secret false m

  -- The ephemeral key that arrives behind routers with the keys `qs`.
  abbrev pub eph_at : c.Point → List (PrivateKey c) → c.Point
  eph_at eph [] = eph
  eph_at eph (q ∷ qs) = eph_at (next_ephemeral c eph q) qs

  abbrev pub secret_at : c.Point → List (PrivateKey c) → PrivateKey c → Bytes
  secret_at eph qs k = Crypto.generate_shared_secret c (eph_at eph qs) k

module _ (c : Primitives) (l : Laws c) where
  no_rest :
      (qs : List (PrivateKey c)) (k : PrivateKey c) (after : List (PrivateKey c))
      → [] ≢ qs ++ k ∷ after
  no_rest [] k after e = cc e
  no_rest (q ∷ qs) k after e = cc e

  Delivers-is_on_curve :
      {assoc_data : Bytes} {packet : OnionPacket c} {ks : List (PrivateKey c)}
      {hs : List (OnionHop c)}
      → Delivers c assoc_data packet ks hs
      → c.is_on_curve packet.ephemeral_key ≡ true
  Delivers-is_on_curve (arrives {packet} {key} p e d x) =
      on_curve_of_ok c (new_router c key) packet _ p e
  Delivers-is_on_curve (forwards {packet} {key} p next e d m n rest) =
      on_curve_of_ok c (new_router c key) packet _ p e

  new_onion_error_encrypter_lem :
      (k : PrivateKey c) (eph : c.Point)
      → c.is_on_curve eph ≡ true
      → new_onion_error_encrypter c (new_router c k) eph
        ≡ ok (Crypto.generate_shared_secret c eph k)
  unfolding new_onion_error_encrypter generate_shared_secret new_router
  new_onion_error_encrypter_lem k eph on = rw on refl

  -- Along a delivery the encrypters have the secrets of the routers.
  pub report-returned :
      (assoc_data : Bytes) (qs : List (PrivateKey c)) (k : PrivateKey c)
      (after : List (PrivateKey c)) (bs : Bytes) {packet : OnionPacket c} {ks : List (PrivateKey c)}
      {hs : List (OnionHop c)}
      → Delivers c assoc_data packet ks hs
      → ks ≡ qs ++ k ∷ after
      → report c assoc_data packet qs k bs
        ≡ returned c l
            (router_secrets c packet.ephemeral_key qs)
            (secret_at c packet.ephemeral_key qs k)
            bs
  unfolding report returned
  report-returned assoc_data [] k after bs d e =
      rw (new_onion_error_encrypter_lem k _ (Delivers-is_on_curve d)) refl
  report-returned assoc_data (q ∷ qs) k after bs (arrives p e data_same exit) f =
      absurd (no_rest qs k after (cc f))
  report-returned assoc_data (q ∷ qs) k after bs
        (forwards {packet} {key} p next e data_same more n d) f =
      let same : key ≡ q = cc f in
      let at : reconstruct_onion_packet c (new_router c q) packet assoc_data ≡ ok p =
        subst (λ x. reconstruct_onion_packet c (new_router c x) packet assoc_data ≡ ok p) same e in
      let moved = (next_packet-IsNext c q packet next assoc_data p at n).key in
      rw
        (
          new_onion_error_encrypter_lem q packet.ephemeral_key
              (on_curve_of_ok c (new_router c q) packet assoc_data p at),
          at,
          n,
          report-returned assoc_data qs k after bs d (cc f),
          moved,
        )
        refl
