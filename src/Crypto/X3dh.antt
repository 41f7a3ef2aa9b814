-- ===== src/Crypto/X3dh.antt =====
-- crates/cypher-crypto/src/x3dh.rs. Of a key pair of identity.rs only the X25519 secret takes part; its
-- public half is `public_key` of it.
use cypher.Prelude.{◌≡◌, ◌++◌, if◌then◌else◌, arith}
use cypher.Prelude.Bytes.{Bytes, ascii, bytes_leb, bytes_leb_total, bytes_leb_antisymm}
use cypher.Crypto.Primitives.{Primitives, IsDh}

pub record IdentityKeyPair : Type 0 where
  pub dh_secret : Bytes

pub record EphemeralKeyPair : Type 0 where
  pub secret : Bytes

pub record SignedPreKey : Type 0 where
  pub secret : Bytes

module _ (p : Primitives) where
  unfoldable pub kdf : Bytes → Bytes
  kdf dh_concat = p.hkdf (ascii "x3dh-salt") dh_concat (ascii "x3dh-shared-secret") 32

  unfoldable pub x3dh_initiator :
      IdentityKeyPair → EphemeralKeyPair → (their_ik_dh their_spk : Bytes) → Bytes
  x3dh_initiator our_ik our_ek their_ik_dh their_spk =
      let dh1 = p.diffie_hellman our_ik.dh_secret their_spk in
      let dh2 = p.diffie_hellman our_ek.secret their_ik_dh in
      let dh3 = p.diffie_hellman our_ek.secret their_spk in kdf (dh1 ++ (dh2 ++ dh3))

  unfoldable pub x3dh_responder :
      IdentityKeyPair → SignedPreKey → (their_ik_dh their_ek : Bytes) → Bytes
  x3dh_responder our_ik our_spk their_ik_dh their_ek =
      let dh1 = p.diffie_hellman our_spk.secret their_ik_dh in
      let dh2 = p.diffie_hellman our_ik.dh_secret their_ek in
      let dh3 = p.diffie_hellman our_spk.secret their_ek in kdf (dh1 ++ (dh2 ++ dh3))

  -- The two cross terms in ascending order.
  unfoldable pub sort_pair : Bytes → Bytes → Bytes × Bytes
  sort_pair a b = if bytes_leb a b then (a, b) else (b, a)

  unfoldable pub x3dh_mutual :
      IdentityKeyPair → (our_spk_secret their_ik_dh their_spk : Bytes) → Bytes
  x3dh_mutual our_ik our_spk_secret their_ik_dh their_spk =
      let dh_ik = p.diffie_hellman our_ik.dh_secret their_ik_dh in
      let dh_cross_a = p.diffie_hellman our_ik.dh_secret their_spk in
      let dh_cross_b = p.diffie_hellman our_spk_secret their_ik_dh in
      let (first, second) = sort_pair dh_cross_a dh_cross_b in kdf (dh_ik ++ (first ++ second))

  sort_pair_comm : (a b : Bytes) → sort_pair a b ≡ sort_pair b a
  unfolding sort_pair
  sort_pair_comm a b =
      ground (arith, bytes_leb_total a b, bytes_leb_total b a, bytes_leb_antisymm a b)

  -- The initiator and the responder, each with its own secrets and the other's public keys, derive
  -- one shared secret.
  pub x3dh_initiator-x3dh_responder :
      IsDh p
      → (alice bob : IdentityKeyPair) (ek : EphemeralKeyPair) (spk : SignedPreKey)
      → x3dh_initiator alice ek (p.public_key bob.dh_secret) (p.public_key spk.secret)
        ≡ x3dh_responder bob spk (p.public_key alice.dh_secret) (p.public_key ek.secret)
  unfolding x3dh_initiator x3dh_responder
  x3dh_initiator-x3dh_responder dh alice bob ek spk = rw (
    dh.dh_comm alice.dh_secret spk.secret,
    dh.dh_comm ek.secret bob.dh_secret,
    dh.dh_comm ek.secret spk.secret,
  )

  -- Two peers who both call `x3dh_mutual` derive one shared secret, whichever calls it.
  pub x3dh_mutual_symm :
      IsDh p
      → (alice bob : IdentityKeyPair) (alice_spk bob_spk : Bytes)
      → x3dh_mutual alice alice_spk (p.public_key bob.dh_secret) (p.public_key bob_spk)
        ≡ x3dh_mutual bob bob_spk (p.public_key alice.dh_secret) (p.public_key alice_spk)
  unfolding x3dh_mutual
  x3dh_mutual_symm dh alice bob alice_spk bob_spk = rw (
    dh.dh_comm alice.dh_secret bob.dh_secret,
    dh.dh_comm alice.dh_secret bob_spk,
    dh.dh_comm alice_spk bob.dh_secret,
    sort_pair_comm (p.diffie_hellman bob_spk (p.public_key alice.dh_secret))
        (p.diffie_hellman bob.dh_secret (p.public_key alice_spk)),
  )
