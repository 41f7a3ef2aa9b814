-- ===== src/Crypto/Ratchet/Conversation.antt =====
-- The DH ratchet: two peers who speak in turn, from `init_sender` and `init_receiver` on.
use cypher.Prelude.{
  ℕ, ◌+◌, ◌-◌, ◌^◌, ◌≤◌, ◌<◌, ◌≡◌, refl, sym, ap, ◌∙◌, true, false, none, some, length, arith, ok,
}
use cypher.Prelude.Bytes.{Bytes, bytes_eq}
use cypher.Prelude.Assoc.{nat_eq, bytes_Eq, pair_Eq, lookup}
use cypher.Crypto.Primitives.{Primitives, IsDh}
use cypher.Crypto.Aead.{aead_decrypt}
use cypher.Crypto.Ratchet.{
  RatchetState, max_skip, max_total_skipped, nonce_material, dh_ratchet, init_sender, init_receiver,
  encrypt, encrypt_with, need_dh_ratchet, dh_step, skip_messages, after_skip, decrypt,
}
use cypher.Crypto.Ratchet.Chain.{chain, key_at}
use cypher.Crypto.Ratchet.Receive.{
  Receives, after_next, decrypt_next, need_dh_ratchet_same, decrypt_miss,
}
use cypher.Crypto.Ratchet.Sending.{Packet, Carries, encrypt-Carries}

-- `a` is the speaker: its sending chain starts at `base`, and `b` will derive that chain by a DH step.
pub record Turn (p : Primitives) (base : Bytes) (a b : RatchetState) : Type 0 where
  pub sends : a.send_chain_key ≡ some (chain p base a.send_count)
  pub link :
      dh_ratchet p b.root_key (p.diffie_hellman b.send_ratchet_secret a.send_ratchet_key)
      ≡ (a.root_key, base)
  pub a_public : a.send_ratchet_key ≡ p.public_key a.send_ratchet_secret
  pub b_public : b.send_ratchet_key ≡ p.public_key b.send_ratchet_secret
  pub a_knows : a.recv_ratchet_key ≡ some b.send_ratchet_key
  pub b_steps : need_dh_ratchet b a.send_ratchet_key ≡ true
  -- `b` stores no key of the speaker's ratchet key
  pub unknown : (i : ℕ) → lookup (a.send_ratchet_key, i) b.skipped_keys ≡ none

pub init-Turn :
    (p : Primitives)
    → IsDh p
    → (shared secret fresh : Bytes)
    → Turn p
        (dh_ratchet p shared (p.diffie_hellman fresh (p.public_key secret))).1
        (init_sender p shared (p.public_key secret) fresh)
        (init_receiver p shared secret)
unfolding init_sender init_receiver need_dh_ratchet lookup chain
init-Turn p laws shared secret fresh = record {
  sends = refl;
  link = ap (dh_ratchet p shared) (laws.dh_comm secret fresh);
  a_public = refl;
  b_public = refl;
  a_knows = refl;
  b_steps = refl;
  unknown = λ i. refl;
}

module _ (p : Primitives) (dh : IsDh p) (base : Bytes) (a b : RatchetState) (t : Turn p base a b)
    (fresh : Bytes) where
  -- The listener after the DH step, and the chain on which it will speak.
  unfoldable pub stepped : RatchetState
  stepped = dh_step p b a.send_ratchet_key fresh

  unfoldable pub next_base : Bytes
  next_base = (dh_ratchet p a.root_key (p.diffie_hellman fresh a.send_ratchet_key)).1

  derived :
      (dh_ratchet p b.root_key (p.diffie_hellman b.send_ratchet_secret a.send_ratchet_key)).1 ≡ base
  derived = ap (λ (r : Bytes × Bytes). r.1) t.link

  derived_root :
      (dh_ratchet p b.root_key (p.diffie_hellman b.send_ratchet_secret a.send_ratchet_key)).0
      ≡ a.root_key
  derived_root = ap (λ (r : Bytes × Bytes). r.0) t.link

  stepped-Receives : Receives p base a.send_ratchet_key (λ _. false) stepped
  unfolding stepped dh_step chain
  stepped-Receives = record {
    on_chain = ap some derived;
    on_ratchet = refl;
    stored = λ i lt e. absurd (omega arith);
    ahead = λ i le. t.unknown i;
  }

  stepped_count : stepped.recv_count ≡ 0
  unfolding stepped dh_step
  stepped_count = refl

  decrypt_steps :
      (ct : Bytes) (n : ℕ)
      → decrypt p b ct a.send_ratchet_key n fresh
        ≡ after_skip p (skip_messages p stepped n) ct a.send_ratchet_key n
  unfolding decrypt stepped
  decrypt_steps ct n = ground (arith, t.unknown n)

  -- `decrypt` makes the DH step and goes on as it would on the state behind it.
  decrypt-stepped :
      (ct : Bytes) (n : ℕ)
      → decrypt p b ct a.send_ratchet_key n fresh ≡ decrypt p stepped ct a.send_ratchet_key n fresh
  decrypt-stepped ct n =
      decrypt_steps ct n
      ∙ sym (
          decrypt_miss p stepped a.send_ratchet_key n ct fresh
            (stepped-Receives.ahead n (omega (arith, stepped_count)))
            (need_dh_ratchet_same p stepped a.send_ratchet_key stepped-Receives.on_ratchet))

  module _ (n : ℕ) (near : n ≤ max_skip)
      (room : length b.skipped_keys + n ≤ max_total_skipped) where
    stepped_room : length stepped.skipped_keys + (n - stepped.recv_count) ≤ max_total_skipped
    unfolding stepped dh_step
    stepped_room = omega arith

    unfoldable pub heard : RatchetState
    heard = after_next p base a.send_ratchet_key stepped n

    pub decrypt-heard :
        (ct : Bytes)
        → decrypt p b ct a.send_ratchet_key n fresh ≡ (
          aead_decrypt p
              (key_at p base n)
              (nonce_material (key_at p base n) n)
              ct
              a.send_ratchet_key,
          heard,
        )
    unfolding heard
    decrypt-heard ct =
        decrypt-stepped ct n
        ∙ decrypt_next p base a.send_ratchet_key (λ _. false) stepped stepped-Receives n
            (omega (arith, stepped_count)) (omega arith) stepped_room (omega arith) ct fresh

    pub heard-Turn :
        bytes_eq b.send_ratchet_key (p.public_key fresh) ≡ false
        → ((i : ℕ) → lookup (p.public_key fresh, i) a.skipped_keys ≡ none)
        → Turn p next_base heard a
    unfolding heard after_next stepped dh_step next_base need_dh_ratchet chain
    heard-Turn new unknown = record {
      sends = rw derived_root;
      link = rw derived_root (
          ap (dh_ratchet p a.root_key) (
            dh.dh_comm a.send_ratchet_secret fresh ∙ ap (p.diffie_hellman fresh) (sym t.a_public)));
      a_public = refl;
      b_public = t.a_public;
      a_knows = refl;
      b_steps = ground (arith, t.a_knows, new);
      unknown = unknown;
    }

module _ (p : Primitives) where
  -- The fields that `encrypt` leaves alone.
  pub record Keeps (a a' : RatchetState) : Type 0 where
    pub root : a'.root_key ≡ a.root_key
    pub secret : a'.send_ratchet_secret ≡ a.send_ratchet_secret
    pub public : a'.send_ratchet_key ≡ a.send_ratchet_key
    pub peer : a'.recv_ratchet_key ≡ a.recv_ratchet_key
    pub keys : a'.skipped_keys ≡ a.skipped_keys

  pub encrypt-Keeps : (a : RatchetState) (m : Bytes) → Keeps a (encrypt p a m).1
  unfolding encrypt encrypt_with
  encrypt-Keeps a m = ground arith

  pub encrypt-Turn :
      (base : Bytes) (a b : RatchetState) (m : Bytes) {packet : Packet}
      → Turn p base a b
      → a.send_count + 1 < 2 ^ 32
      → (encrypt p a m).0 ≡ ok packet
      → Carries p base a.send_ratchet_key a.send_count m packet × Turn p base (encrypt p a m).1 b
  encrypt-Turn base a b m t small e =
      let k = encrypt-Keeps a m in
      let (carries, next) =
        encrypt-Carries p base a.send_ratchet_key a.send_count a m
          (record { on_chain = t.sends; on_ratchet = refl; counts = refl }) small e in
      (
        carries,
        record {
          sends = rw next.counts next.on_chain;
          link = rw (k.public, k.root) t.link;
          a_public = rw (k.public, k.secret) t.a_public;
          b_public = t.b_public;
          a_knows = rw k.peer t.a_knows;
          b_steps = rw k.public t.b_steps;
          unknown = λ i. rw k.public (t.unknown i);
        },
      )
