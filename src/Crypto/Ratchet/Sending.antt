-- ===== src/Crypto/Ratchet/Sending.antt =====
-- Rows of calls of `encrypt` and `decrypt`, and the packets of one sending chain.
use cypher.Prelude.{
  ℕ, zero, suc, ◌+◌, ◌^◌, ◌<◌, ◌≡◌, refl, sym, subst, ◌∙◌, Bool, false, some, List, [], ◌∷◌, length,
  get_or, arith, Error, Result, ok, err, ◌>>=◌, bind_ok,
}
use cypher.Prelude.Bytes.{Bytes}
use cypher.Prelude.Assoc.{nat_eq, bytes_Eq, pair_Eq}
use cypher.Crypto.Primitives.{Primitives}
use cypher.Crypto.Aead.{aead_encrypt}
use cypher.Crypto.Ratchet.{RatchetState, nonce_material, encrypt_with, encrypt, decrypt}
use cypher.Crypto.Ratchet.Chain.{chain, key_at}
use cypher.Crypto.Ratchet.Receive.{mark}

-- (ciphertext, ratchet public key, message number)
abbrev pub Packet : Type 0
Packet = Bytes × Bytes × ℕ

abbrev pub no_packet : Packet
no_packet = ([], [], 0)

module _ (p : Primitives) where
  -- The packets of a row of calls of `encrypt`.
  unfoldable pub send_all : RatchetState → List Bytes → Result Error (List Packet)
  send_all s [] = ok []
  send_all s (m ∷ ms) =
      let (r, s') = encrypt p s m in
      r >>= λ packet. send_all s' ms >>= λ packets. ok (packet ∷ packets)

  -- The results of a row of calls of `decrypt`.
  unfoldable pub deliver : (fresh : Bytes) → RatchetState → List Packet → List (Result Error Bytes)
  deliver fresh s [] = []
  deliver fresh s ((ct, rk, n) ∷ rest) =
      let (r, s') = decrypt p s ct rk n fresh in r ∷ deliver fresh s' rest

  pub encrypt-encrypt_with :
      (s : RatchetState) (m ck : Bytes)
      → s.send_chain_key ≡ some ck
      → encrypt p s m ≡ encrypt_with p ck s m
  unfolding encrypt
  encrypt-encrypt_with s m ck h = ground arith

-- Each number of the list is new when its turn comes.
abbrev pub NoRepeat : (ℕ → Bool) → List ℕ → Type 0
NoRepeat got [] = Unit {0}
NoRepeat got (n ∷ ns) = (got n ≡ false) × NoRepeat (mark n got) ns

module _ (p : Primitives) (base rk : Bytes) where
  -- A packet that carries message `m` under number `n` of the chain.
  abbrev pub Carries : ℕ → Bytes → Packet → Type 0
  Carries n m packet =
      (packet.1 ≡ rk)
      × (packet.2 ≡ n)
      × (aead_encrypt p (key_at p base n) (nonce_material (key_at p base n) n) m rk ≡ ok packet.0)

  pub record Sends (n : ℕ) (s : RatchetState) : Type 0 where
    pub on_chain : s.send_chain_key ≡ some (chain p base n)
    pub on_ratchet : s.send_ratchet_key ≡ rk
    pub counts : s.send_count ≡ n

  as_packet :
      (r : Result Error Bytes) (k : Bytes) (n : ℕ) {packet : Packet}
      → elim r [ ok c ↦ ok (c, k, n) | err e ↦ err e ] ≡ ok packet
      → (packet.1 ≡ k) × (packet.2 ≡ n) × (r ≡ ok packet.0)
  as_packet (ok c) k n e = ground arith
  as_packet (err x) k n e = cc

  encrypt_with-Carries :
      (n : ℕ) (s : RatchetState) (m : Bytes) {packet : Packet}
      → Sends n s
      → n + 1 < 2 ^ 32
      → (encrypt_with p (chain p base n) s m).0 ≡ ok packet
      → Carries n m packet × Sends (suc n) (encrypt_with p (chain p base n) s m).1
  unfolding encrypt_with key_at chain
  encrypt_with-Carries n s m {packet} h small e =
      let (k, c, a) = as_packet _ _ _ e in
      (
        (k ∙ h.on_ratchet, c ∙ h.counts, rw (h.on_ratchet, h.counts) at a),
        record { on_chain = refl; on_ratchet = h.on_ratchet; counts = omega arith },
      )

  pub encrypt-Carries :
      (n : ℕ) (s : RatchetState) (m : Bytes) {packet : Packet}
      → Sends n s
      → n + 1 < 2 ^ 32
      → (encrypt p s m).0 ≡ ok packet
      → Carries n m packet × Sends (suc n) (encrypt p s m).1
  encrypt-Carries n s m {packet} h small e =
      let open_ = encrypt-encrypt_with p s m (chain p base n) h.on_chain in
      subst (λ (t : Result Error Packet × RatchetState). Carries n m packet × Sends (suc n) t.1)
        (sym open_) (encrypt_with-Carries n s m h small (rw open_ at e))

  at_place :
      (n i : ℕ) (m : Bytes) (ms : List Bytes) (packet : Packet) (rest : List Packet)
      → Carries n m packet
      → ((j : ℕ) → i ≡ suc j → Carries (suc n + j) (get_or ms j []) (get_or rest j no_packet))
      → Carries (n + i) (get_or {A = Bytes} (m ∷ ms) i []) (get_or (packet ∷ rest) i no_packet)
  at_place n zero m ms packet rest first others = let e : n + 0 ≡ n = omega arith in rw e first
  at_place n (suc j) m ms packet rest first others =
      let e : n + suc j ≡ suc n + j = omega arith in rw e (others j refl)

  -- The packet at place `i` of a row that started at number `n` carries the message at place `i`.
  pub send_all-Carries :
      (n : ℕ) (s : RatchetState) (ms : List Bytes) (packets : List Packet)
      → Sends n s
      → n + length ms < 2 ^ 32
      → send_all p s ms ≡ ok packets
      → (i : ℕ) → i < length ms
      → Carries (n + i) (get_or ms i []) (get_or packets i no_packet)
  unfolding send_all
  send_all-Carries n s [] packets h small e i lt = absurd (omega arith)
  send_all-Carries n s (m ∷ ms) packets h small e i lt =
      let (packet, first, e') = bind_ok (encrypt p s m).0 _ e in
      let (rest, others, whole) = bind_ok (send_all p (encrypt p s m).1 ms) _ e' in
      let (carries, next) = encrypt-Carries n s m h (omega arith) first in
      let same : packet ∷ rest ≡ packets = ground (arith, whole) in
      subst
        (λ (ps : List Packet).
          Carries (n + i) (get_or {A = Bytes} (m ∷ ms) i []) (get_or ps i no_packet))
        same
        (at_place n i m ms packet rest carries λ j q.
          send_all-Carries (suc n) (encrypt p s m).1 ms rest next (omega arith) others j
            (omega arith))
