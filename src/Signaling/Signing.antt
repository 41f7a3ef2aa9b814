-- ===== src/Signaling/Signing.antt =====
-- services/signaling/src/signing.rs: the server's signatures and claim tokens. The clock is a
-- parameter, and so is Ed25519, as the function that signs with the server's key.
use cypher.Prelude.{ℕ, ◌+◌, ◌-◌, Bool, false, not, ◌++◌, length, take, ltb, ◌==◌, if◌then◌else◌}
use cypher.Prelude.Bytes.{Bytes, to_le, from_le}
use cypher.Crypto.Primitives.{Primitives}
use cypher.Nat.Dtls.{constant_time_eq}

pub record ServerSigner : Type 0 where
  pub primitives : Primitives
  pub sign : Bytes → Bytes
  pub hmac_secret : Bytes

unfoldable pub sign_inbox_response :
    ServerSigner
    → (messages_blob : Bytes) → (count : ℕ) → (inbox_id : Bytes) → (timestamp : ℕ) → Bytes
sign_inbox_response self messages_blob count inbox_id timestamp =
    self.sign (messages_blob ++ (to_le 4 count ++ (inbox_id ++ to_le 8 timestamp)))

unfoldable pub generate_claim_token : ServerSigner → (inbox_id : Bytes) → (timestamp : ℕ) → Bytes
generate_claim_token self inbox_id timestamp =
    to_le 8 timestamp ++ self.primitives.hmac self.hmac_secret (inbox_id ++ to_le 8 timestamp)

-- The comparison is the code of `constant_time_eq` in crates/cypher-nat/src/dtls.rs.
unfoldable pub verify_claim_token :
    ServerSigner → (now : ℕ) → (inbox_id token : Bytes) → (max_age_secs : ℕ) → Bool
verify_claim_token self now inbox_id token max_age_secs =
    let timestamp = from_le (take 8 token) in
    if not (length token == 40)
    then false
    else if ltb max_age_secs (now - timestamp)
    then false
    else if ltb (now + 60) timestamp
    then false
    else constant_time_eq (generate_claim_token self inbox_id timestamp) token
