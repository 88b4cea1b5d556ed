-- ===== src/Router/Guard.antt =====
-- `ProcessOnionPacket` of sphinx.go with any log that keeps the contract of the interface.
use lightning_onion.Prelude.{
  ℕ, true, ◌≡◌, ◌≢◌, refl, sym, ap, ◌∙◌, inl, inr, Bytes, List, [], ◌∷◌, Result, ok, err, panics,
  Bool-cases, invalid_onion_key,
}
use mathlib.Core.Path.{subst}
use lightning_onion.Prelude.Io.{Io, continue, pure, lift, ◌>>=◌, ◌>>◌}
use lightning_onion.Crypto.{Primitives}
use lightning_onion.Crypto
use lightning_onion.Packet.{OnionPacket}
use lightning_onion.Process.{ProcessedPacket, process_onion_packet}
use lightning_onion.ReplayLog.{hash_shared_secret}
use lightning_onion.Crypto.{mu, calc_mac, generate_key}
use lightning_onion.GoMap.{bytes_key}
use lightning_onion.Router.{Router, generate_shared_secret, reconstruct_onion_packet, process}
use lightning_onion.ReplayLog.{ReplayLog}
use lightning_onion.ReplayLog.Contract.{LogLaws}

module _ (c : Primitives) where
  -- The prefix by which the log knows the packets with this ephemeral key.
  abbrev pub prefix : Router c → c.Point → Bytes
  prefix r eph = hash_shared_secret c (Crypto.generate_shared_secret c eph r.onion_key)

  -- The arguments of a call of ProcessOnionPacket.
  pub record Incoming : Type 0 where
    pub packet : OnionPacket c
    pub assoc_data : Bytes
    pub cltv : ℕ

module _ (c : Primitives) (log : ReplayLog) where
  -- What happens to the outcome of the processing: it is logged, unless it failed.
  abbrev pub receive : Result (ProcessedPacket c) → Bytes → ℕ → Io log.State (ProcessedPacket c)
  receive m hash cltv = do packet ← lift m; log.put hash cltv; pure packet

  pub process_cases {ℓ} :
      (P : Result (ProcessedPacket c) × log.State → Type ℓ) (r : Router c) (pkt : OnionPacket c)
      (assoc_data : Bytes) (cltv : ℕ) (s : log.State)
      → P (err invalid_onion_key, s)
      → ((m : Result (ProcessedPacket c)) → P (receive m (prefix c r pkt.ephemeral_key) cltv s))
      → P (process c log r pkt assoc_data cltv s)
  unfolding process generate_shared_secret
  process_cases P r pkt assoc_data cltv s off on =
      elim (Bool-cases (c.is_on_curve pkt.ephemeral_key)) [
        | inl e ↦ rw e (
            on (
              process_onion_packet c pkt
                (Crypto.generate_shared_secret c pkt.ephemeral_key r.onion_key) assoc_data))
        | inr e ↦ rw e off
      ]

  -- A step that only hands a value on succeeds as the action before it does, and in its state.
  settled :
      (r : Result (Unit {0})) (q p : ProcessedPacket c) (s t : log.State)
      → continue r (λ _. pure q) s ≡ (ok p, t)
      → ◌≡◌ {A = Result (Unit {0}) × log.State} (r, s) (ok tt, t)
  settled (ok u) q p s t e = ap (λ x. (ok u, x.1)) e
  settled (err x) q p s t e = absurd (cc e)
  settled panics q p s t e = absurd (cc e)

  settled_state :
      (r : Result (Unit {0})) (q : ProcessedPacket c) (s : log.State)
      → (continue r (λ _. pure q) s).1 ≡ s
  settled_state (ok u) q s = refl
  settled_state (err x) q s = refl
  settled_state panics q s = refl

  -- The log after the router has processed the packets one after another.
  unfoldable pub process_all : Router c → List (Incoming c) → log.State → log.State
  process_all r [] s = s
  process_all r (i ∷ is) s = process_all r is (process c log r i.packet i.assoc_data i.cltv s).1

  -- What `process` comes to when the key lies on the curve.
  pub process_on_curve :
      (r : Router c) (pkt : OnionPacket c) (assoc_data : Bytes) (cltv : ℕ) (s : log.State)
      → c.is_on_curve pkt.ephemeral_key ≡ true
      → process c log r pkt assoc_data cltv s
        ≡ receive
            (reconstruct_onion_packet c r pkt assoc_data)
            (prefix c r pkt.ephemeral_key)
            cltv
            s
  unfolding process generate_shared_secret reconstruct_onion_packet
  process_on_curve r pkt assoc_data cltv s on = rw on refl

module _ (c : Primitives) (log : ReplayLog) (laws : LogLaws log) where
  receive_known :
      (m : Result (ProcessedPacket c)) (hash : Bytes) (cltv : ℕ) (s : log.State)
      → laws.HasEntry s hash
      → ((p : ProcessedPacket c) → (receive c log m hash cltv s).0 ≢ ok p)
        × ((receive c log m hash cltv s).1 ≡ s)
  receive_known (ok p) hash cltv s k = rw (laws.put_replayed hash cltv s k) ((λ q e. cc), refl)
  receive_known (err e) hash cltv s k = ((λ q e. cc), refl)
  receive_known panics hash cltv s k = ((λ q e. cc), refl)

  -- A packet whose prefix the log knows is never accepted, and leaves the log as it is.
  pub process_replayed :
      (r : Router c) (pkt : OnionPacket c) (assoc_data : Bytes) (cltv : ℕ) (s : log.State)
      → laws.HasEntry s (prefix c r pkt.ephemeral_key)
      → ((p : ProcessedPacket c) → (process c log r pkt assoc_data cltv s).0 ≢ ok p)
        × ((process c log r pkt assoc_data cltv s).1 ≡ s)
  process_replayed r pkt assoc_data cltv s k =
      process_cases c log (λ t. ((p : ProcessedPacket c) → t.0 ≢ ok p) × (t.1 ≡ s)) r pkt assoc_data
        cltv s ((λ p e. cc), refl) (λ m. receive_known m (prefix c r pkt.ephemeral_key) cltv s k)

  receive-HasEntry :
      (m : Result (ProcessedPacket c)) (hash : Bytes) (cltv : ℕ) (s t : log.State)
      (p : ProcessedPacket c)
      → receive c log m hash cltv s ≡ (ok p, t)
      → laws.HasEntry t hash
  receive-HasEntry (ok q) hash cltv s t p e =
      laws.put_entry hash cltv s t
        (settled c log (log.put hash cltv s).0 q p (log.put hash cltv s).1 t e)
  receive-HasEntry (err x) hash cltv s t p e = absurd (cc e)
  receive-HasEntry panics hash cltv s t p e = absurd (cc e)

  HasEntry-receive :
      (m : Result (ProcessedPacket c)) (h hash : Bytes) (cltv : ℕ) (s : log.State)
      → laws.HasEntry s h
      → laws.HasEntry (receive c log m hash cltv s).1 h
  HasEntry-receive (ok q) h hash cltv s k =
      subst (λ t. laws.HasEntry t h)
        (sym (settled_state c log (log.put hash cltv s).0 q (log.put hash cltv s).1))
        (laws.put_keeps h hash cltv s k)
  HasEntry-receive (err x) h hash cltv s k = k
  HasEntry-receive panics h hash cltv s k = k

  pub process-HasEntry :
      (r : Router c) (pkt : OnionPacket c) (assoc_data : Bytes) (cltv : ℕ) (s t : log.State)
      (p : ProcessedPacket c)
      → process c log r pkt assoc_data cltv s ≡ (ok p, t)
      → laws.HasEntry t (prefix c r pkt.ephemeral_key)
  process-HasEntry r pkt assoc_data cltv s t p =
      process_cases c log (λ x. x ≡ (ok p, t) → laws.HasEntry t (prefix c r pkt.ephemeral_key)) r
        pkt assoc_data cltv s (λ e. absurd (cc e))
        (λ m. receive-HasEntry m (prefix c r pkt.ephemeral_key) cltv s t p)

  HasEntry-process :
      (r : Router c) (pkt : OnionPacket c) (assoc_data : Bytes) (cltv : ℕ) (s : log.State)
      (h : Bytes)
      → laws.HasEntry s h
      → laws.HasEntry (process c log r pkt assoc_data cltv s).1 h
  HasEntry-process r pkt assoc_data cltv s h k =
      process_cases c log (λ x. laws.HasEntry x.1 h) r pkt assoc_data cltv s k
        (λ m. HasEntry-receive m h (prefix c r pkt.ephemeral_key) cltv s k)

  pub HasEntry-process_all :
      (r : Router c) (is : List (Incoming c)) (s : log.State) (h : Bytes)
      → laws.HasEntry s h
      → laws.HasEntry (process_all c log r is s) h
  unfolding process_all
  HasEntry-process_all r [] s h k = k
  HasEntry-process_all r (i ∷ is) s h k =
      HasEntry-process_all r is (process c log r i.packet i.assoc_data i.cltv s).1 h
        (HasEntry-process r i.packet i.assoc_data i.cltv s h k)

  -- Once a router has accepted a packet, and has then processed any further packets, it accepts
  -- no packet with the same ephemeral key, and leaves the log as it is.
  pub refused_again :
      (r : Router c) (pkt again : OnionPacket c) (assoc_data assoc_data2 : Bytes) (cltv cltv2 : ℕ)
      (between : List (Incoming c)) (s t : log.State) (p : ProcessedPacket c)
      → process c log r pkt assoc_data cltv s ≡ (ok p, t)
      → again.ephemeral_key ≡ pkt.ephemeral_key
      → ((q : ProcessedPacket c)
          → (process c log r again assoc_data2 cltv2 (process_all c log r between t)).0 ≢ ok q)
        × ((process c log r again assoc_data2 cltv2 (process_all c log r between t)).1
            ≡ process_all c log r between t)
  refused_again r pkt again assoc_data assoc_data2 cltv cltv2 between s t p accepted same =
      process_replayed r again assoc_data2 cltv2 (process_all c log r between t) (
        subst (λ k. laws.HasEntry (process_all c log r between t) (prefix c r k)) (sym same)
          (HasEntry-process_all r between t (prefix c r pkt.ephemeral_key)
            (process-HasEntry r pkt assoc_data cltv s t p accepted)))

  receive_rejected :
      (m : Result (ProcessedPacket c)) (hash : Bytes) (cltv : ℕ) (s : log.State)
      → ((p : ProcessedPacket c) → (receive c log m hash cltv s).0 ≢ ok p)
      → (receive c log m hash cltv s).1 ≡ s
  receive_rejected (ok q) hash cltv s never =
      settled_state c log (log.put hash cltv s).0 q (log.put hash cltv s).1
      ∙ laws.put_unchanged hash cltv s
          (λ e. never q (ap (λ r. (continue r (λ _. pure q) (log.put hash cltv s).1).0) e))
  receive_rejected (err x) hash cltv s never = refl
  receive_rejected panics hash cltv s never = refl

  -- A packet that is not accepted leaves the log as it was.
  pub refused_unchanged :
      (r : Router c) (pkt : OnionPacket c) (assoc_data : Bytes) (cltv : ℕ) (s : log.State)
      → ((p : ProcessedPacket c) → (process c log r pkt assoc_data cltv s).0 ≢ ok p)
      → (process c log r pkt assoc_data cltv s).1 ≡ s
  refused_unchanged r pkt assoc_data cltv s =
      process_cases c log (λ x. ((p : ProcessedPacket c) → x.0 ≢ ok p) → x.1 ≡ s) r pkt assoc_data
        cltv s (λ never. refl) (λ m. receive_rejected m (prefix c r pkt.ephemeral_key) cltv s)
