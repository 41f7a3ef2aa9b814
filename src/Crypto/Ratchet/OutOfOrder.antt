-- ===== src/Crypto/Ratchet/OutOfOrder.antt =====
-- Messages of one sending chain, delivered in any order.
use cypher.Prelude.{
  ℕ, ◌+◌, ◌-◌, ◌≤◌, ◌<◌, ◌≡◌, refl, ap, ap₂, subst, Bool, false, some, List, [], ◌∷◌, map, length,
  get_or, All, arith, ok,
}
use cypher.Prelude.Bytes.{Bytes}
use cypher.Prelude.Assoc.{nat_eq, bytes_Eq, pair_Eq, lookup, length-remove-le}
use native.Mathlib.Decide.{dec_lt}
use cypher.Crypto.Primitives.{Primitives, IsAead}
use cypher.Crypto.Aead.{aead_decrypt-aead_encrypt}
use cypher.Crypto.Ratchet.{RatchetState, max_total_skipped, decrypt}
use cypher.Crypto.Ratchet.Chain.{chain}
use cypher.Crypto.Ratchet.Receive.{
  Receives, mark, after_stored, after_next, decrypt_stored, Receives-stored, decrypt_next,
  Receives-next, length-after_next-le,
}
use cypher.Crypto.Ratchet.Sending.{
  Packet, no_packet, send_all, deliver, NoRepeat, Carries, Sends, send_all-Carries,
}

-- One delivery at a receiver whose store is no larger than its counter, for a number of the first 257.
module _ (p : Primitives) (laws : IsAead p) (base rk : Bytes) where
  record Bounded (got : ℕ → Bool) (s : RatchetState) : Type 0 where
    receives : Receives p base rk got s
    in_window : s.recv_count ≤ 257
    small : length s.skipped_keys ≤ s.recv_count

  Bounded-stored :
      (n : ℕ) (got : ℕ → Bool) (s : RatchetState)
      → Bounded got s
      → n < s.recv_count
      → got n ≡ false
      → Bounded (mark n got) (after_stored p base rk s n)
  Bounded-stored n got s b old new = record {
    receives = Receives-stored p base rk got s b.receives n old new;
    in_window = unfold after_stored in b.in_window;
    small =
        unfold after_stored in
        (omega (arith, b.small, length-remove-le {K = Bytes × ℕ} (rk, n) s.skipped_keys));
  }

  Bounded-next :
      (n : ℕ) (got : ℕ → Bool) (s : RatchetState)
      → Bounded got s
      → n < 257
      → s.recv_count ≤ n
      → Bounded (mark n got) (after_next p base rk s n)
  Bounded-next n got s b win ahead =
      let room : length s.skipped_keys + (n - s.recv_count) ≤ max_total_skipped =
        omega (arith, b.small) in
      record {
        receives =
            Receives-next p base rk got s b.receives n ahead (omega arith) room (omega arith);
        in_window = unfold after_next in (omega arith);
        small =
            unfold after_next in
            (omega (
              arith,
              b.small,
              length-after_next-le p base rk got s b.receives n ahead (omega arith) room
                  (omega arith),
            ));
      }

  decrypt-Carries :
      (n : ℕ) (m : Bytes) (packet : Packet) (got : ℕ → Bool) (s : RatchetState) (fresh : Bytes)
      → Bounded got s
      → Carries p base rk n m packet
      → n < 257
      → got n ≡ false
      → ((decrypt p s packet.0 packet.1 packet.2 fresh).0 ≡ ok m)
        × Bounded (mark n got) (decrypt p s packet.0 packet.1 packet.2 fresh).1
  decrypt-Carries n m packet got s fresh b (on, number, sealed) win new =
      rw (on, number)
        (elim (dec_lt n s.recv_count) [
          | yes old ↦
              rw (decrypt_stored p base rk got s b.receives n old new packet.0 fresh)
                (aead_decrypt-aead_encrypt p laws _ _ _ _ sealed, Bounded-stored n got s b old new)
          | no ahead ↦
              rw
                (decrypt_next p base rk got s b.receives n (omega arith) (omega arith)
                  (omega (arith, b.small)) (omega arith) packet.0 fresh)
                (
                  aead_decrypt-aead_encrypt p laws _ _ _ _ sealed,
                  Bounded-next n got s b win (omega arith),
                )
        ])

  deliver-Carries :
      (ms : List Bytes) (packets : List Packet) (fresh : Bytes)
      → length ms ≤ 257
      → ((i : ℕ)
          → i < length ms
          → Carries p base rk i (get_or ms i []) (get_or packets i no_packet))
      → (order : List ℕ) (got : ℕ → Bool) (s : RatchetState) → Bounded got s
      → NoRepeat got order
      → All (λ i. i < length ms) order
      → deliver p fresh s (map (λ i. get_or packets i no_packet) order)
        ≡ map (λ i. ok (get_or ms i [])) order
  unfolding deliver
  deliver-Carries ms packets fresh few carries [] got s b fresh_all inside = refl
  deliver-Carries ms packets fresh few carries (n ∷ ns) got s b (new, news) (lt, lts) =
      let (result, b') =
        decrypt-Carries n (get_or ms n []) (get_or packets n no_packet) got s fresh b (carries n lt)
          (omega arith) new in
      ap₂ (◌∷◌) result (deliver-Carries ms packets fresh few carries ns (mark n got) _ b' news lts)

-- The two ends at the start of the chain.
module _ (p : Primitives) (base : Bytes) where
  Sends-start :
      (s : RatchetState)
      → s.send_chain_key ≡ some base
      → s.send_count ≡ 0
      → Sends p base s.send_ratchet_key 0 s
  Sends-start s h0 h1 = record { on_chain = unfold chain in h0; on_ratchet = refl; counts = h1 }

  Bounded-start :
      (laws : IsAead p) (rk : Bytes) (s : RatchetState)
      → s.recv_chain_key ≡ some base
      → s.recv_ratchet_key ≡ some rk
      → s.recv_count ≡ 0
      → s.skipped_keys ≡ []
      → Bounded p laws base rk (λ _. false) s
  Bounded-start laws rk s h0 h1 h2 h3 = record {
    receives = record {
      on_chain = rw h2 (unfold chain in h0);
      on_ratchet = h1;
      stored = λ i lt e. absurd (omega arith);
      ahead = λ i le. rw h3 (unfold lookup in refl);
    };
    in_window = omega arith;
    small = omega (arith, ap length h3);
  }

-- Alice, at the start of a sending chain, encrypts at most 257 messages. Bob, at the start of the same
-- chain with no key stored, gets the packets in any order, some or all of them, each at most once:
-- every call of `decrypt` returns the message that was encrypted.
pub deliver-send_all :
    (p : Primitives)
    → IsAead p
    → (alice bob : RatchetState) (base fresh : Bytes) (ms : List Bytes) (packets : List Packet)
      (order : List ℕ)
    → alice.send_chain_key ≡ some base
    → alice.send_count ≡ 0
    → bob.recv_chain_key ≡ some base
    → bob.recv_ratchet_key ≡ some alice.send_ratchet_key
    → bob.recv_count ≡ 0
    → bob.skipped_keys ≡ []
    → length ms ≤ 257
    → send_all p alice ms ≡ ok packets
    → NoRepeat (λ _. false) order
    → All (λ i. i < length ms) order
    → deliver p fresh bob (map (λ i. get_or packets i no_packet) order)
      ≡ map (λ i. ok (get_or ms i [])) order
deliver-send_all p laws alice bob base fresh ms packets order a0 a1 b0 b1 b2 b3 few sent once
      inside =
    let rk = alice.send_ratchet_key in
    deliver-Carries p laws base rk ms packets fresh few
      (λ i lt.
        let z : 0 + i ≡ i = omega arith in
        subst (λ (k : ℕ). Carries p base rk k (get_or ms i []) (get_or packets i no_packet)) z
          (send_all-Carries p base rk 0 alice ms packets (Sends-start p base alice a0 a1)
            (omega arith) sent i lt))
      order (λ _. false) bob (Bounded-start p base laws rk bob b0 b1 b2 b3) once inside
