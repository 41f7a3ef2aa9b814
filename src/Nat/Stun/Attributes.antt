-- ===== src/Nat/Stun/Attributes.antt =====
-- crates/cypher-nat/src/stun.rs: the loop on the attributes of a response.
use cypher.Prelude.{
  not, nat, Bool, true, false, ◌==◌, none, some, Option, err, length-take, Result-cases, ℕ, zero,
  suc, ◌+◌, ◌-◌, ◌*◌, ◌/◌, ◌%◌, ◌^◌, ◌<◌, ◌≡◌, refl, ◌∙◌, inl, inr, ◌++◌, length, take, drop, slice,
  take-append, drop-append, drop_past, take_all, length-append, length-drop, ltb, ltb→le, le→ltb,
  lt→ltb, if◌then◌else◌, Error, Result, ok, arith,
}
use cypher.Prelude.Bytes.{bytes_eq, Bytes, to_be, from_be, length-to_be, from_be-to_be}
use cypher.Nat.Stun.{
  stun_magic_cookie, stun_header_size, binding_response, SocketAddr, parse_binding_response,
  address_found, Found, take_attribute, parse_attributes,
}

-- Fewer than four bytes are no attribute.
parse_attributes_short :
    (rounds : ℕ) (rest transaction_id : Bytes) (found : Found)
    → length rest < 4
    → parse_attributes (suc rounds) rest transaction_id found ≡ some (ok found)
unfolding parse_attributes
parse_attributes_short rounds rest transaction_id found h = rw (lt→ltb (length rest) 4 h) refl

-- The bytes behind the first attribute.
abbrev next_of : Bytes → Bytes
next_of rest = drop ((from_be (slice 2 4 rest) + 3) / 4 * 4) (drop 4 rest)

parse_attributes_round :
    (rounds : ℕ) (rest transaction_id : Bytes) (found : Found) {found' : Found}
    → ltb (length rest) 4 ≡ false
    → ltb (length rest) (4 + from_be (slice 2 4 rest)) ≡ false
    → take_attribute
        (from_be (take 2 rest))
        (take (from_be (slice 2 4 rest)) (drop 4 rest))
        transaction_id
        found
      ≡ ok found'
    → parse_attributes (suc rounds) rest transaction_id found
      ≡ parse_attributes rounds (next_of rest) transaction_id found'
unfolding parse_attributes
parse_attributes_round rounds rest transaction_id found long whole taken =
    rw (long, whole, taken) refl

abbrev Returns : {A : Type 0} → Option A → Type 0
Returns {A} x = (a : A) × (x ≡ some a)

-- A guard that returns, before what returns behind it.
Returns-if :
    {A : Type 0} (test : Bool) (a : A) (x : Option A)
    → (test ≡ false → Returns x)
    → Returns (if test then some a else x)
Returns-if true a x h = (a, refl)
Returns-if false a x h = h refl

Returns-guard :
    {A : Type 0} (test : Bool) (a : A) {x : Option A}
    → Returns x
    → Returns (if test then some a else x)
Returns-guard test a {x} h = Returns-if test a x (λ passed. h)

-- A round takes at least four bytes.
parse_attributes_ends :
    (rounds : ℕ) (rest transaction_id : Bytes) (found : Found)
    → length rest < 4 * rounds
    → Returns (parse_attributes rounds rest transaction_id found)
unfolding parse_attributes
parse_attributes_ends zero rest transaction_id found h = absurd (omega arith)
parse_attributes_ends (suc rounds) rest transaction_id found h =
    Returns-if (ltb (length rest) 4) (ok found) _ (λ long.
      Returns-if (ltb (length rest) (4 + from_be (slice 2 4 rest))) (ok found) _ (λ whole.
        elim (Result-cases (
          take_attribute (from_be (take 2 rest)) (take (from_be (slice 2 4 rest)) (drop 4 rest))
            transaction_id found)) [
              | inr (e, refused) ↦ (err e, rw refused refl)
              | inl (found', taken) ↦ rw taken (
                  parse_attributes_ends rounds (next_of rest) transaction_id found' (
                    omega (
                      arith,
                      ltb→le (length rest) 4 long,
                      length-drop ((from_be (slice 2 4 rest) + 3) / 4 * 4) (drop 4 rest),
                      length-drop 4 rest,
                    )))
            ]))

-- `parse_binding_response` returns on every packet: its attribute loop, whatever the attributes are
-- and however long they say they are, ends within a round for each four bytes behind the header and
-- one more.
pub parse_binding_response_ends :
    (packet transaction_id : Bytes)
    → (result : Result Error SocketAddr) × (parse_binding_response packet transaction_id
        ≡ some result)
unfolding parse_binding_response
parse_binding_response_ends packet transaction_id =
    let attr_data = drop stun_header_size packet in
    let msg_len = from_be (slice 2 4 packet) in
    let (result, ends) =
      parse_attributes_ends (suc (length attr_data / 4)) (take msg_len attr_data) transaction_id
        (record { xor_result = none; mapped_result = none })
        (omega (arith, length-take msg_len attr_data)) in
    let inner : Returns
        (elim (parse_attributes (suc (length attr_data / 4)) (take msg_len attr_data) transaction_id
          (record { xor_result = none; mapped_result = none })) [
            | none ↦ none
            | some found ↦ some (address_found found)
          ]) =
      (address_found result, rw ends refl) in
    Returns-guard (ltb (length packet) stun_header_size) (err (nat "STUN response too short")) (
      Returns-guard (not (from_be (take 2 packet) == binding_response))
        (err (nat "expected Binding Response"))
        (Returns-guard (not (from_be (slice 4 8 packet) == stun_magic_cookie))
          (err (nat "invalid STUN magic cookie"))
          (Returns-guard (not (bytes_eq (slice 8 20 packet) transaction_id))
            (err (nat "STUN transaction ID mismatch"))
            (Returns-guard (ltb (length attr_data) msg_len) (err (nat "STUN response truncated"))
              inner))))

-- The part of a message behind its header, as one attribute.
abbrev pub attribute : ℕ → Bytes → Bytes
attribute kind value = to_be 2 kind ++ (to_be 2 (length value % 2 ^ 16) ++ value)

module _ (kind : ℕ) (value : Bytes) (kind_range : kind < 2 ^ 16)
    (small : length value < 2 ^ 16) where
  pub length-attribute : length (attribute kind value) ≡ 4 + length value
  length-attribute = omega (
    arith,
    length-append (to_be 2 kind) (to_be 2 (length value % 2 ^ 16) ++ value),
    length-append (to_be 2 (length value % 2 ^ 16)) value,
    length-to_be 2 kind,
    length-to_be 2 (length value % 2 ^ 16),
  )

  kind_field : from_be (take 2 (attribute kind value)) ≡ kind
  kind_field =
      rw
        (take-append 2 (to_be 2 kind) (to_be 2 (length value % 2 ^ 16) ++ value)
          (length-to_be 2 kind))
        (from_be-to_be 2 kind kind_range)

  behind_kind : drop 2 (attribute kind value) ≡ to_be 2 (length value % 2 ^ 16) ++ value
  behind_kind = drop-append 2 (to_be 2 kind) _ (length-to_be 2 kind)

  behind_length : drop 4 (attribute kind value) ≡ value
  behind_length =
      drop_past 2 2 (to_be 2 kind) _ (length-to_be 2 kind)
      ∙ drop-append 2 (to_be 2 (length value % 2 ^ 16)) value (length-to_be 2 _)

  length_field : from_be (slice 2 4 (attribute kind value)) ≡ length value
  length_field =
      rw
        (
          behind_kind,
          take-append (4 - 2) (to_be 2 (length value % 2 ^ 16)) value
              (length-to_be 2 (length value % 2 ^ 16) ∙ omega arith),
        )
        (from_be-to_be 2 (length value % 2 ^ 16) (omega arith) ∙ omega arith)

  pub parse_attributes-attribute :
      (rounds : ℕ) (transaction_id : Bytes) (found found' : Found)
      → take_attribute kind value transaction_id found ≡ ok found'
      → parse_attributes (suc (suc rounds)) (attribute kind value) transaction_id found
        ≡ some (ok found')
  parse_attributes-attribute rounds transaction_id found found' taken =
      parse_attributes_round (suc rounds) (attribute kind value) transaction_id found
        (le→ltb (length (attribute kind value)) 4 (omega (arith, length-attribute)))
        (rw length_field (
          le→ltb (length (attribute kind value)) (4 + length value)
            (omega (arith, length-attribute))))
        (rw (kind_field, length_field, behind_length, take_all (length value) value (omega arith))
          taken)
      ∙ parse_attributes_short rounds (next_of (attribute kind value)) transaction_id found' (
          rw (length_field, behind_length)
            (omega (arith, length-drop ((length value + 3) / 4 * 4) value)))
