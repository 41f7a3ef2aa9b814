-- ===== src/Onion/Padding.antt =====
-- crates/cypher-client-core/src/onion/padding.rs.
use cypher.Prelude.{
  ℕ, ◌+◌, ◌-◌, ◌%◌, ◌^◌, ◌≤◌, ◌<◌, ◌≡◌, refl, ap, ◌∙◌, ◌⊎◌, inl, inr, none, some, Option, List, [],
  ◌∷◌, ◌++◌, append_assoc, length, take, slice, replicate, arith, Error, protocol, Result, ok, err,
  ◌>>=◌, ok_or, ltb, leb, if◌then◌else◌, length-append, length-replicate, take-append, drop-append,
}
use native.Mathlib.Decide.{dec_le}
use cypher.Prelude.Bytes.{Bytes, to_le, from_le, from_le-to_le, length-to_le}

abbrev pub padding_buckets : List ℕ
padding_buckets = 512 ∷ 1024 ∷ 2048 ∷ 4096 ∷ 8192 ∷ []

-- `.iter().find(|&&b| b >= needed)`
unfoldable pub find_bucket : ℕ → List ℕ → Option ℕ
find_bucket needed [] = none
find_bucket needed (b ∷ bs) = if leb needed b then some b else find_bucket needed bs

-- `Vec::resize`
unfoldable pub resize : Bytes → ℕ → ℕ → Bytes
resize buf new_len value =
    if ltb new_len (length buf)
    then take new_len buf
    else buf ++ replicate (new_len - length buf) value

unfoldable pub pad : Bytes → Result Error Bytes
pad plaintext = do
  let needed = length plaintext + 2
  bucket ← ok_or (find_bucket needed padding_buckets) (protocol "plaintext too large for padding")
  ok (resize (to_le 2 (length plaintext % 2 ^ 16) ++ plaintext) bucket 0)

unfoldable pub unpad : Bytes → Result Error Bytes
unpad padded =
    if ltb (length padded) 2
    then err (protocol "padded payload too short")
    else let len = from_le (take 2 padded) in
      if ltb (length padded) (2 + len)
      then err (protocol "padding length prefix exceeds payload size")
      else ok (slice 2 (2 + len) padded)

-- The bucket is one of the five, has room, and no smaller one has.
abbrev pub IsBucket : ℕ → ℕ → Type 0
IsBucket needed b =
    (needed ≤ b)
    × ((b ≡ 512)
        ⊎ ((b ≡ 1024) × (512 < needed))
        ⊎ ((b ≡ 2048) × (1024 < needed))
        ⊎ ((b ≡ 4096) × (2048 < needed))
        ⊎ ((b ≡ 8192) × (4096 < needed)))

find_bucket-IsBucket :
    (needed : ℕ)
    → needed ≤ 8192
    → (b : ℕ) × (find_bucket needed padding_buckets ≡ some b) × IsBucket needed b
unfolding find_bucket
find_bucket-IsBucket needed h = elim (dec_le needed 512) [
  | yes a ↦ (512, ground arith, (a, inl refl))
  | no a ↦ (elim (dec_le needed 1024) [
    | yes b ↦ (1024, ground arith, (b, inr (inl (refl, omega arith))))
    | no b ↦ (elim (dec_le needed 2048) [
      | yes c ↦ (2048, ground arith, (c, inr (inr (inl (refl, omega arith)))))
      | no c ↦ (elim (dec_le needed 4096) [
        | yes d ↦ (4096, ground arith, (d, inr (inr (inr (inl (refl, omega arith))))))
        | no d ↦ (8192, ground arith, (h, inr (inr (inr (inr (refl, omega arith))))))
      ])
    ])
  ])
]

find_bucket-none : (needed : ℕ) → 8192 < needed → find_bucket needed padding_buckets ≡ none
unfolding find_bucket
find_bucket-none needed h = ground arith

resize_up :
    (buf : Bytes) (n v : ℕ) → length buf ≤ n → resize buf n v ≡ buf ++ replicate (n - length buf) v
unfolding resize
resize_up buf n v h = ground arith

unpad_padded :
    (m rest : Bytes) → length m < 2 ^ 16 → unpad (to_le 2 (length m % 2 ^ 16) ++ (m ++ rest)) ≡ ok m
unfolding unpad
unpad_padded m rest h =
    let prefix : from_le (take 2 (to_le 2 (length m % 2 ^ 16) ++ (m ++ rest))) ≡ length m =
      rw (take-append 2 (to_le 2 (length m % 2 ^ 16)) (m ++ rest) (length-to_le 2 _))
        (from_le-to_le 2 (length m % 2 ^ 16) (omega arith) ∙ omega arith) in
    let body : slice 2 (2 + length m) (to_le 2 (length m % 2 ^ 16) ++ (m ++ rest)) ≡ m =
      rw (drop-append 2 (to_le 2 (length m % 2 ^ 16)) (m ++ rest) (length-to_le 2 _))
        (take-append (2 + length m - 2) m rest (omega arith)) in
    let total : length (to_le 2 (length m % 2 ^ 16) ++ (m ++ rest)) ≡ 2 + length m + length rest =
      omega (
        arith,
        length-append (to_le 2 (length m % 2 ^ 16)) (m ++ rest),
        length-append m rest,
        length-to_le 2 (length m % 2 ^ 16),
      ) in
    rw prefix (ground (arith, total, body))

module _ (m : Bytes) (b : ℕ) (room : length m + 2 ≤ b) where
  prefixed : length (to_le 2 (length m % 2 ^ 16) ++ m) ≡ 2 + length m
  prefixed =
      omega
        (arith, length-append (to_le 2 (length m % 2 ^ 16)) m, length-to_le 2 (length m % 2 ^ 16))

  pad_resize :
      resize (to_le 2 (length m % 2 ^ 16) ++ m) b 0
      ≡ to_le 2 (length m % 2 ^ 16) ++ (m ++ replicate (b - (2 + length m)) 0)
  pad_resize =
      rw (resize_up (to_le 2 (length m % 2 ^ 16) ++ m) b 0 (omega (arith, prefixed)), prefixed)
        (append_assoc (to_le 2 (length m % 2 ^ 16)) m _)

  length-pad : length (to_le 2 (length m % 2 ^ 16) ++ (m ++ replicate (b - (2 + length m)) 0)) ≡ b
  length-pad = omega (
    arith,
    length-append (to_le 2 (length m % 2 ^ 16)) (m ++ replicate (b - (2 + length m)) 0),
    length-append m (replicate (b - (2 + length m)) 0),
    length-to_le 2 (length m % 2 ^ 16),
    length-replicate {A = ℕ} (b - (2 + length m)) 0,
  )

-- A plaintext of at most 8190 bytes is padded to the smallest of the five sizes that has room for it
-- and its two-byte length, and `unpad` gives it back.
pub unpad-pad :
    (m : Bytes)
    → length m ≤ 8190
    → (padded : Bytes) × (pad m ≡ ok padded)
      × IsBucket (length m + 2) (length padded)
      × (unpad padded ≡ ok m)
unfolding pad
unpad-pad m h =
    let (b, found, room) = find_bucket-IsBucket (length m + 2) (omega arith) in
    let fill : resize (to_le 2 (length m % 2 ^ 16) ++ m) b 0
        ≡ to_le 2 (length m % 2 ^ 16) ++ (m ++ replicate (b - (2 + length m)) 0) =
      pad_resize m b room.0 in
    let total : length (to_le 2 (length m % 2 ^ 16) ++ (m ++ replicate (b - (2 + length m)) 0))
        ≡ b =
      length-pad m b room.0 in
    (
      _,
      rw found (ap ok fill),
      rw total room,
      unpad_padded m (replicate (b - (2 + length m)) 0) (omega arith),
    )

-- A longer plaintext is refused.
pub pad_too_large :
    (m : Bytes) → 8190 < length m → pad m ≡ err (protocol "plaintext too large for padding")
unfolding pad
pad_too_large m h = rw (find_bucket-none (length m + 2) (omega arith))
