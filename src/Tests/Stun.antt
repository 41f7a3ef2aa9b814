-- ===== src/Tests/Stun.antt =====
-- The theorems on STUN at concrete inputs.
use cypher.Prelude.{Error, Result, ◌++◌, ◌≡◌, refl, some, [], ◌∷◌, replicate, arith, ok}
use cypher.Prelude.Bytes.{Bytes, to_be}
use cypher.Nat.Stun.{
  SocketAddr, v6, build_binding_request, respond, parse_binding_response, binding_response,
  stun_magic_cookie,
}
use cypher.Nat.Stun.Attributes.{parse_binding_response_ends}
use cypher.Nat.Stun.RoundTrip.{parse_binding_response-respond}

abbrev transaction_id : Bytes
transaction_id = replicate 12 7

abbrev peer : SocketAddr
peer = v6 (replicate 16 254) 4242

parse_binding_response-respond_example :
    (response : Bytes) × (respond (build_binding_request transaction_id) peer ≡ some response)
    × (parse_binding_response response transaction_id ≡ some (ok peer))
parse_binding_response-respond_example =
    parse_binding_response-respond transaction_id peer refl (refl, omega arith)

-- Two empty attributes of an unknown kind.
abbrev unknown : Bytes
unknown = 9 ∷ 9 ∷ 0 ∷ 0 ∷ 9 ∷ 9 ∷ 0 ∷ 0 ∷ []

-- A response of this transaction with them.
abbrev response : Bytes
response =
    to_be 2 binding_response
    ++ (to_be 2 8 ++ (to_be 4 stun_magic_cookie ++ (transaction_id ++ unknown)))

parse_binding_response_ends_example :
    (result : Result Error SocketAddr) × (parse_binding_response response transaction_id
      ≡ some result)
parse_binding_response_ends_example = parse_binding_response_ends response transaction_id
