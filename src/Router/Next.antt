-- ===== src/Router/Next.antt =====
-- The packet that `NewOnionPacket` of sphinx.go makes, and the one that `unwrapPacket` leaves for
-- the next node.
use lightning_onion.Prelude.{
  arith, drop, length, ltb→le, ℕ, ltb, ◌==◌, ==_iff, length-take, take, length-replicate, ◌≡◌, refl,
  sym, ap, ◌∙◌, Bool-cases, inl, inr, some, Bytes, List, [], ◌++◌, ok, bytes_eq, bind_ok,
  ok-injective, replicate,
}
use mathlib.Core.Path.{subst}
use lightning_onion.Crypto.{
  Primitives, PrivateKey, hmac_size, rho, mu, generate_cipher_stream, calc_mac, generate_key,
  blind_group_element, compute_blinding_factor,
}
use lightning_onion.Crypto
use lightning_onion.Bytes.{xor}
use lightning_onion.Sizes.{base_version, routing_info_size, num_stream_bytes, hop_data_size}
use lightning_onion.HopData.{HopData}
use lightning_onion.HopData
use lightning_onion.Route.{OnionHop, true_route_length, node_keys}
use lightning_onion.Secrets.{generate_shared_secrets}
use lightning_onion.Onion.{new_onion_packet, generate_header_padding, wrap_loop}
use lightning_onion.Packet.{OnionPacket, IsOnionPacket}
use lightning_onion.Process.{ProcessedPacket, strip_layer, unwrap_packet, process_onion_packet}
use lightning_onion.Router.{new_router, generate_shared_secret, reconstruct_onion_packet}
use lightning_onion.Router.Journey.{on_curve_of_ok}
use lightning_onion.Prelude.Io.{continue_ok}
use lightning_onion.Stream.{read_full, read_uint}
use lightning_onion.Bytes.Copy.{length-copy}

read_full-length : (n : ℕ) (r bs : Bytes) → (read_full n r).0 ≡ ok bs → length bs ≡ n
unfolding read_full
read_full-length n r bs e = elim (Bool-cases (n == 0)) [
  | inl none_wanted ↦
      let got : [] ≡ bs = cc (rw none_wanted at e) in
      ap (λ (t : Bytes). length t) (sym got) ∙ sym ((==_iff n 0).0 none_wanted)
  | inr some_wanted ↦ elim (Bool-cases (length r == 0)) [
    | inl at_end ↦ absurd (cc (rw (some_wanted, at_end) at e))
    | inr more ↦ elim (Bool-cases (ltb (length r) n)) [
      | inl short ↦ absurd (cc (rw (some_wanted, more, short) at e))
      | inr enough ↦
          let got : take n r ≡ bs = cc (rw (some_wanted, more, enough) at e) in
          omega
            (arith, ap (λ (t : Bytes). length t) got, length-take n r, ltb→le (length r) n enough)
    ]
  ]
]

-- The HMAC of hop data that was read.
decode-hmac : (r : Bytes) (hd : HopData) → (HopData.decode r).0 ≡ ok hd → length hd.hmac ≡ 32
unfolding HopData.decode
decode-hmac r hd e =
    let a = read_full 1 r in
    let realm = continue_ok a.0 _ a.1 hd e in
    let b = read_full 8 a.1 in
    let address = continue_ok b.0 _ b.1 hd realm.2 in
    let d = read_uint 8 b.1 in
    let amount = continue_ok d.0 _ d.1 hd address.2 in
    let f = read_uint 4 d.1 in
    let cltv = continue_ok f.0 _ f.1 hd amount.2 in
    let g = read_full 12 f.1 in
    let extra = continue_ok g.0 _ g.1 hd cltv.2 in
    let h = read_full 32 g.1 in
    let hmac = continue_ok h.0 _ h.1 hd extra.2 in
    let same : _ ≡ hd = ok-injective _ hd hmac.2 in
    ap (λ (x : HopData). length x.hmac) (sym same) ∙ read_full-length 32 g.1 hmac.0 hmac.1

module _ (c : Primitives) where
  -- What a packet without its outer layer, which was encrypted under a secret, takes over.
  pub record IsNext (pkt : OnionPacket c) (secret : Bytes) (next : OnionPacket c) : Type 0 where
    pub arrays : IsOnionPacket c next
    pub version : next.version ≡ pkt.version
    pub key :
        next.ephemeral_key
        ≡ blind_group_element c pkt.ephemeral_key
            (compute_blinding_factor c pkt.ephemeral_key secret)

  strip_layer-IsNext :
      (pkt : OnionPacket c) (secret : Bytes) (out : OnionPacket c × HopData)
      → strip_layer c pkt secret ≡ ok out
      → IsNext pkt secret out.0
  unfolding strip_layer
  strip_layer-IsNext pkt secret out e =
      let stream =
        bind_ok (generate_cipher_stream c (generate_key c rho secret) num_stream_bytes) _ out e in
      let padded = pkt.routing_info ++ replicate hop_data_size 0 in
      let info = bind_ok (xor (replicate num_stream_bytes 0) padded stream.0) _ out stream.2 in
      let hop = bind_ok (HopData.decode info.0.0).0 _ out info.2 in
      subst (λ (x : OnionPacket c × HopData). IsNext pkt secret x.0) (ok-injective _ out hop.2)
        (record {
          arrays = record {
            routing_length =
                length-copy (replicate routing_info_size 0) (drop hop_data_size info.0.0)
                ∙ length-replicate routing_info_size 0;
            mac_length = decode-hmac info.0.0 hop.0 hop.1;
          };
          version = refl;
          key = refl;
        })

  unwrap_packet-stripped :
      (pkt : OnionPacket c) (secret assoc_data : Bytes) (out : OnionPacket c × HopData)
      → unwrap_packet c pkt secret assoc_data ≡ ok out
      → strip_layer c pkt secret ≡ ok out
  unfolding unwrap_packet
  unwrap_packet-stripped pkt secret assoc_data out e =
      elim (Bool-cases (
        bytes_eq pkt.header_mac
          (calc_mac c (generate_key c mu secret) (pkt.routing_info ++ assoc_data)))) [
            | inl good ↦ rw good at e
            | inr bad ↦ absurd (cc (rw bad at e))
          ]

  -- The packet that a router hands on.
  pub next_packet-IsNext :
      (k : PrivateKey c) (pkt next : OnionPacket c) (assoc_data : Bytes) (p : ProcessedPacket c)
      → reconstruct_onion_packet c (new_router c k) pkt assoc_data ≡ ok p
      → p.next_packet ≡ some next
      → IsNext pkt (Crypto.generate_shared_secret c pkt.ephemeral_key k) next
  unfolding reconstruct_onion_packet generate_shared_secret process_onion_packet new_router
  next_packet-IsNext k pkt next assoc_data p e n =
      let on = on_curve_of_ok c (new_router c k) pkt assoc_data p e in
      let secret = Crypto.generate_shared_secret c pkt.ephemeral_key k in
      let unwrapped = bind_ok (unwrap_packet c pkt secret assoc_data) _ p (rw on at e) in
      let it : some unwrapped.0.0 ≡ some next =
        ap (λ (x : ProcessedPacket c). x.next_packet) (ok-injective _ p unwrapped.2) ∙ n in
      let same : unwrapped.0.0 ≡ next = cc it in
      subst (IsNext pkt secret) same (
        strip_layer-IsNext pkt secret unwrapped.0
          (unwrap_packet-stripped pkt secret assoc_data unwrapped.0 unwrapped.1))

  -- What a packet has that was made under a session key.
  pub record IsMade (session_key : PrivateKey c) (packet : OnionPacket c) : Type 0 where
    pub version : packet.version ≡ base_version
    pub key : packet.ephemeral_key ≡ session_key.pub_key

  pub new_onion_packet-IsMade :
      (path : List (OnionHop c)) (session_key : PrivateKey c) (assoc_data : Bytes)
      (out : OnionPacket c × List (OnionHop c))
      → new_onion_packet c path session_key assoc_data ≡ ok out
      → IsMade session_key out.0
  unfolding new_onion_packet
  new_onion_packet-IsMade path session_key assoc_data out e =
      let secrets = bind_ok (generate_shared_secrets c (node_keys c path) session_key) _ out e in
      let filler =
        bind_ok (generate_header_padding c rho (true_route_length c path) hop_data_size secrets.0) _
          out secrets.2 in
      let w =
        bind_ok
          (wrap_loop c (true_route_length c path) secrets.0 filler.0 assoc_data
            (true_route_length c path)
            (record {
              path = path;
              mix_header = replicate routing_info_size 0;
              next_hmac = replicate hmac_size 0;
            }))
          _ out filler.2 in
      subst (λ (x : OnionPacket c × List (OnionHop c)). IsMade session_key x.0)
        (ok-injective _ out w.2) (record { version = refl; key = refl })
