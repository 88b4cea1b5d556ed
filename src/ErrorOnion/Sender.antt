-- ===== src/ErrorOnion/Sender.antt =====
-- `NewOnionPacket` of sphinx.go and `DecryptError` of crypto.go: a packet on its way, and an error on
-- its way back.
use lightning_onion.Prelude.{
  suc, ◌≤◌, ◌<◌, ◌≡◌, refl, sym, ap, ◌∙◌, arith, some, Bytes, List, [], ◌∷◌, ◌++◌, length,
  get_elem?, ok, ◌>>=◌, length-append, All,
}
use mathlib.Core.Path.{subst}
use lightning_onion.Crypto.{
  Primitives, PrivateKey, hmac_size, rho, mu, generate_cipher_stream, calc_mac, generate_key,
  blind_group_element, compute_blinding_factor,
}
use lightning_onion.Crypto
use lightning_onion.Crypto.Laws.{Laws, IsKeyPair}
use lightning_onion.Route.{OnionHop, node_keys}
use lightning_onion.Route.Length.{StartsEmpty, node_keys_lem}
use lightning_onion.Secrets.{generate_shared_secrets}
use lightning_onion.Secrets.Agreement.{
  public_keys, next_ephemeral, router_secrets, generate_shared_secrets-eq-router_secrets,
}
use lightning_onion.Packet.{OnionPacket, IsOnionPacket}
use lightning_onion.Onion.{new_onion_packet}
use lightning_onion.Router.Stops.{
  Stop, keys, hops, OnCurve, SameButHmac, IsRoute, IsUsed-hops, keys_of-hops, All-pairs,
}
use lightning_onion.Router.Delivery.{Delivers, new_onion_packet-Delivers}
use lightning_onion.ErrorOnion.{new_onion_error_decrypter, Circuit, decrypt_error}
use lightning_onion.ErrorOnion.Layered.{layered}
use lightning_onion.ErrorOnion.Return.{with_mac, Unrecognised, decrypt_error-returned}
use lightning_onion.Router.Next.{new_onion_packet-IsMade}
use lightning_onion.ErrorOnion.Reported.{report, eph_at, secret_at, report-returned}

module _ (c : Primitives) (l : Laws c) where
  router_secrets-append :
      (eph : c.Point) (qs : List (PrivateKey c)) (k : PrivateKey c) (after : List (PrivateKey c))
      → router_secrets c eph (qs ++ k ∷ after)
        ≡ router_secrets c eph qs
          ++ secret_at c eph qs k ∷ router_secrets c (next_ephemeral c (eph_at c eph qs) k) after
  router_secrets-append eph [] k after = refl
  router_secrets-append eph (q ∷ qs) k after =
      ap (λ t. Crypto.generate_shared_secret c eph q ∷ t)
        (router_secrets-append (next_ephemeral c eph q) qs k after)

  length-router_secrets :
      (eph : c.Point) (qs : List (PrivateKey c)) → length (router_secrets c eph qs) ≡ length qs
  length-router_secrets eph [] = refl
  length-router_secrets eph (q ∷ qs) = ap suc (length-router_secrets (next_ephemeral c eph q) qs)

  get_elem?-public_keys :
      (qs : List (PrivateKey c)) (k : PrivateKey c) (after : List (PrivateKey c))
      → get_elem? (public_keys c (qs ++ k ∷ after)) (length qs) ≡ some k.pub_key
  unfolding get_elem?
  get_elem?-public_keys [] k after = refl
  get_elem?-public_keys (q ∷ qs) k after = get_elem?-public_keys qs k after

  keys-append :
      (before after : List (Stop c)) → keys c (before ++ after) ≡ keys c before ++ keys c after
  keys-append [] after = refl
  keys-append (s ∷ before) after = ap (λ t. s.key ∷ t) (keys-append before after)

  length-keys : (ss : List (Stop c)) → length (keys c ss) ≡ length ss
  length-keys [] = refl
  length-keys (s ∷ ss) = ap suc (length-keys ss)

  -- The secrets of the sender, split at the node that reports the error.
  secrets_at :
      (session_key : PrivateKey c) (qs : List (PrivateKey c)) (k : PrivateKey c)
      (after : List (PrivateKey c))
      → IsKeyPair c l session_key
      → All (IsKeyPair c l) (qs ++ k ∷ after)
      → let eph = session_key.pub_key in
        generate_shared_secrets c (public_keys c (qs ++ k ∷ after)) session_key
        ≡ ok (
            router_secrets c eph qs
            ++ secret_at c eph qs k ∷ router_secrets c (next_ephemeral c (eph_at c eph qs) k) after)
  secrets_at session_key [] k after pair pairs =
      generate_shared_secrets-eq-router_secrets c l session_key k after pair pairs
  secrets_at session_key (q ∷ qs) k after pair pairs =
      generate_shared_secrets-eq-router_secrets c l session_key q (qs ++ k ∷ after) pair pairs
      ∙ ap ok (router_secrets-append session_key.pub_key (q ∷ qs) k after)

  -- The sender's result, once the packet is delivered.
  decrypt_error-delivered :
      (assoc_data : Bytes) (packet : OnionPacket c) (hs : List (OnionHop c))
      (qs : List (PrivateKey c)) (k : PrivateKey c) (after : List (PrivateKey c))
      (session_key : PrivateKey c) (bs : Bytes)
      → Delivers c assoc_data packet (qs ++ k ∷ after) hs
      → packet.ephemeral_key ≡ session_key.pub_key
      → IsKeyPair c l session_key
      → All (IsKeyPair c l) (qs ++ k ∷ after)
      → length qs < 20
      → length bs ≡ 260
      → let eph = session_key.pub_key in
        let s = secret_at c eph qs k in
        let circuit : Circuit c = record {
          session_key = session_key;
          payment_path = public_keys c (qs ++ k ∷ after);
        } in
        Unrecognised c l (router_secrets c eph qs) (layered c l s (with_mac c l s bs))
        → (report c assoc_data packet qs k bs >>= decrypt_error c circuit) ≡ ok (k.pub_key, bs)
  decrypt_error-delivered assoc_data packet hs qs k after session_key bs d start pair pairs near
        size no_other =
      let eph = session_key.pub_key in
      let many = length-router_secrets eph qs in
      rw (report-returned c l assoc_data qs k after bs d refl, start)
        (decrypt_error-returned c l
          (record { session_key = session_key; payment_path = public_keys c (qs ++ k ∷ after) })
          (router_secrets c eph qs) (secret_at c eph qs k)
          (router_secrets c (next_ephemeral c (eph_at c eph qs) k) after) bs k.pub_key
          (secrets_at session_key qs k after pair pairs)
          (subst (λ n. get_elem? (public_keys c (qs ++ k ∷ after)) n ≡ some k.pub_key) (sym many)
            (get_elem?-public_keys qs k after))
          (omega (arith, many)) size no_other)

  delivered :
      (before : List (Stop c)) (s : Stop c) (after : List (Stop c)) (empties : List (OnionHop c))
      (session_key : PrivateKey c) (assoc_data : Bytes)
      → let route = before ++ s ∷ after in
        length route ≤ 20
        → IsRoute c l route
        → StartsEmpty c empties
        → IsKeyPair c l session_key
        → OnCurve c session_key.pub_key route
        → (packet : OnionPacket c) × (sealed_hops : List (OnionHop c)) × (new_onion_packet c
              (hops c route ++ empties)
              session_key
              assoc_data
            ≡ ok (packet, sealed_hops ++ empties))
          × SameButHmac c (hops c route) sealed_hops
          × Delivers c assoc_data packet (keys c route) sealed_hops
          × IsOnionPacket c packet
  delivered [] s after = new_onion_packet-Delivers c l s after
  delivered (q ∷ before) s after = new_onion_packet-Delivers c l q (before ++ s ∷ after)

  -- A sender makes a packet for a route of one to twenty nodes, under the conditions of a delivery.
  -- The nodes before one of them process the packet and hand it on, and that one reports an error
  -- of 260 bytes; each of them makes its encrypter from the ephemeral key of the packet that it
  -- received, and the nodes before it encrypt the report in turn on its way back. Then
  -- DecryptError of the decrypter with the circuit of the session key and of the node keys of the
  -- path, returns the key of that node and the error, if none of the nodes before it recognises the message
  -- under its own layer as its own, that is, if no MAC matches by accident.
  pub decrypt_error-report :
      (before : List (Stop c)) (s : Stop c) (after : List (Stop c)) (empties : List (OnionHop c))
      (session_key : PrivateKey c) (assoc_data bs : Bytes)
      → let route = before ++ s ∷ after in
        let eph = session_key.pub_key in
        let secret = secret_at c eph (keys c before) s.key in
        length route ≤ 20
        → IsRoute c l route
        → StartsEmpty c empties
        → IsKeyPair c l session_key
        → OnCurve c eph route
        → length bs ≡ 260
        → Unrecognised c l
            (router_secrets c eph (keys c before))
            (layered c l secret (with_mac c l secret bs))
        → let path = hops c route ++ empties in
          let circuit : Circuit c = record {
            session_key = session_key;
            payment_path = node_keys c path;
          } in
          (packet : OnionPacket c) × (sealed : List (OnionHop c)) × (new_onion_packet c path
              session_key assoc_data
            ≡ ok (packet, sealed))
          × ((report c assoc_data packet (keys c before) s.key bs
                >>= decrypt_error c (new_onion_error_decrypter c circuit))
              ≡ ok (s.key.pub_key, bs))
  unfolding new_onion_error_decrypter
  decrypt_error-report before s after empties session_key assoc_data bs fits v empty pair on size
        no_other =
      let route = before ++ s ∷ after in
      let path = hops c route ++ empties in
      let made = delivered before s after empties session_key assoc_data fits v empty pair on in
      let all : keys c route ≡ keys c before ++ s.key ∷ keys c after =
        keys-append before (s ∷ after) in
      (
        made.0,
        made.1 ++ empties,
        made.2,
        rw
            (
              node_keys_lem c (hops c route) empties (IsUsed-hops c l route v) empty,
              keys_of-hops c l route v,
              all,
            )
            (decrypt_error-delivered assoc_data made.0 made.1 (keys c before) s.key (keys c after)
              session_key bs (subst (λ ks. Delivers c assoc_data made.0 ks made.1) all made.4)
              (new_onion_packet-IsMade c path session_key assoc_data (made.0, made.1 ++ empties)
                made.2).key
              pair (subst (All (IsKeyPair c l)) all (All-pairs c l route v))
              (omega (arith, length-keys before, length-append before (s ∷ after))) size no_other),
      )
