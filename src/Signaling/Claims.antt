-- ===== src/Signaling/Claims.antt =====
-- services/signaling/src/signing.rs: which claim tokens are accepted.
use cypher.Prelude.{
  ℕ, ◌+◌, ◌-◌, ◌^◌, ◌≤◌, ◌<◌, ◌≡◌, ◌↔◌, refl, sym, ap, ◌∙◌, true, false, ◌++◌, All, length,
  length-append, length-take, take, take-append, All-take, ltb, le→ltb, arith,
}
use cypher.Prelude.Bytes.{Bytes, IsByte, to_le, from_le, length-to_le, from_le-to_le, from_le_bound}
use cypher.Crypto.Primitives.{IsHmac}
use cypher.Nat.Dtls.{constant_time_eq}
use cypher.Nat.Dtls.Compare.{constant_time_eq_iff}
use cypher.Signaling.Signing.{ServerSigner, generate_claim_token, verify_claim_token}

module _ (self : ServerSigner) (inbox_id : Bytes) where
  -- A time in the token's eight bytes is read back.
  pub token_time :
      (timestamp : ℕ)
      → timestamp < 2 ^ 64
      → from_le (take 8 (generate_claim_token self inbox_id timestamp)) ≡ timestamp
  unfolding generate_claim_token
  token_time timestamp h =
      ap from_le (take-append 8 (to_le 8 timestamp) _ (length-to_le 8 timestamp))
      ∙ from_le-to_le 8 timestamp (omega arith)

  pub length-generate_claim_token :
      (timestamp : ℕ)
      → IsHmac self.primitives
      → length (generate_claim_token self inbox_id timestamp) ≡ 40
  unfolding generate_claim_token
  length-generate_claim_token timestamp mac =
      length-append (to_le 8 timestamp) _
      ∙ omega (
        arith,
        length-to_le 8 timestamp,
        mac.length-hmac self.hmac_secret (inbox_id ++ to_le 8 timestamp),
      )

  -- What the test has passed.
  verified :
      (now : ℕ) (token : Bytes) (max_age_secs : ℕ)
      → verify_claim_token self now inbox_id token max_age_secs ≡ true
      → (length token ≡ 40)
        × (now ≤ from_le (take 8 token) + max_age_secs)
        × (from_le (take 8 token) ≤ now + 60)
        × (constant_time_eq (generate_claim_token self inbox_id (from_le (take 8 token))) token
            ≡ true)
  unfolding verify_claim_token
  verified now token max_age_secs h = ground arith

  pub accepted :
      (now timestamp max_age_secs : ℕ)
      → IsHmac self.primitives
      → timestamp < 2 ^ 64
      → now ≤ timestamp + max_age_secs
      → timestamp ≤ now + 60
      → verify_claim_token self now inbox_id
          (generate_claim_token self inbox_id timestamp)
          max_age_secs
        ≡ true
  unfolding verify_claim_token
  accepted now timestamp max_age_secs mac small fresh near =
      let young : ltb max_age_secs (now - timestamp) ≡ false = le→ltb _ _ (omega arith) in
      let past : ltb (now + 60) timestamp ≡ false = le→ltb _ _ near in
      rw (length-generate_claim_token timestamp mac, token_time timestamp small, young, past)
        ((constant_time_eq_iff _ _).1 refl)

  -- A byte string is accepted as a token for an inbox exactly when it is the token that this server
  -- makes for the inbox at a time that is not older than asked and at most a minute ahead.
  pub verify_claim_token_iff :
      (now : ℕ) (token : Bytes) (max_age_secs : ℕ)
      → IsHmac self.primitives
      → All IsByte token
      → (verify_claim_token self now inbox_id token max_age_secs ≡ true) ↔ (
          (timestamp : ℕ) × (timestamp < 2 ^ 64)
          × (token ≡ generate_claim_token self inbox_id timestamp)
          × (now ≤ timestamp + max_age_secs)
          × (timestamp ≤ now + 60))
  verify_claim_token_iff now token max_age_secs mac bytes = (
    λ h.
        let (long, fresh, near, same) = verified now token max_age_secs h in
        let eight : length (take 8 token) ≡ 8 = length-take 8 token ∙ omega (arith, long) in
        (
          from_le (take 8 token),
          rw eight at (from_le_bound (take 8 token) (All-take IsByte 8 token bytes)),
          sym ((constant_time_eq_iff _ _).0 same),
          fresh,
          near,
        ),
    λ (timestamp, small, made, fresh, near).
        rw made (accepted now timestamp max_age_secs mac small fresh near),
  )
