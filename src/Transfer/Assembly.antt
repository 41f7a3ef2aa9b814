-- ===== src/Transfer/Assembly.antt =====
-- A file that is cut by the chunker and put together by the assembler.
use cypher.Prelude.{
  ℕ, ◌+◌, ◌-◌, ◌*◌, ◌/◌, ◌%◌, ◌^◌, ◌≤◌, ◌<◌, ◌≡◌, refl, sym, ap, ◌∙◌, inl, inr, true, ◌||◌, List,
  min, take, drop, length, length-take, length-drop, get_or, ltb, ◌==◌, ==_iff, Bool-cases, arith,
}
use cypher.Prelude.Bytes.{Bytes}
use cypher.Transfer.Sender.{contains, insert_ack}
use cypher.Transfer.Chunker.{chunk_size}
use cypher.Transfer.Assembler.{FileAssembler, write_at, accept_chunk, save_state}
use cypher.Transfer.Bytewise.{
  get_or-take, get_or-drop, get_or-write_at_in, get_or-write_at_before, get_or-write_at_after,
  length-write_at,
}
use cypher.Transfer.Counting.{IsSubset, insert_ack-IsSubset}

-- The chunks of a file of this length.
abbrev pub chunks_of : Bytes → ℕ
chunks_of file = (length file + chunk_size - 1) / chunk_size

-- The bytes of one chunk.
abbrev pub chunk_at : Bytes → ℕ → Bytes
chunk_at file index =
    take (min (length file - index * chunk_size) chunk_size) (drop (index * chunk_size) file)

-- What has been received is in its place.
pub record IsPartly (sha256 : Bytes → Bytes) (file : Bytes) (a : FileAssembler) : Type 0 where
  pub expected : a.expected_chunks ≡ chunks_of file
  pub hashed : a.expected_hash ≡ sha256 file
  pub sized : a.file_size ≡ length file
  pub whole : length a.file ≡ length file
  pub subset : IsSubset (chunks_of file) a.received
  pub placed :
      (i p : ℕ)
      → contains i a.received ≡ true
      → i * chunk_size ≤ p
      → p < i * chunk_size + chunk_size
      → p < length file
      → get_or a.file p 0 ≡ get_or file p 0

length-chunk_at :
    (file : Bytes) (i : ℕ)
    → i * chunk_size ≤ length file
    → length (chunk_at file i) ≡ min (length file - i * chunk_size) chunk_size
length-chunk_at file i inside =
    length-take (min (length file - i * chunk_size) chunk_size) (drop (i * chunk_size) file)
    ∙ omega (arith, length-drop (i * chunk_size) file)

-- A byte of the file after a chunk was written over it.
written_byte :
    (file before : Bytes) (i p : ℕ)
    → i * chunk_size ≤ length file
    → p < length file
    → ((i * chunk_size ≤ p) × (p < i * chunk_size + chunk_size)
        → get_or (write_at (i * chunk_size) (chunk_at file i) before) p 0 ≡ get_or file p 0)
      × ((p < i * chunk_size)
          → get_or (write_at (i * chunk_size) (chunk_at file i) before) p 0 ≡ get_or before p 0)
      × ((i * chunk_size + chunk_size ≤ p)
          → get_or (write_at (i * chunk_size) (chunk_at file i) before) p 0 ≡ get_or before p 0)
written_byte file before i p inside below =
    let off = i * chunk_size in
    let len = length-chunk_at file i inside in
    (
      λ (from, to).
          let q = p - off in
          let at_q : off + q ≡ p = omega (arith, from) in
          let small : q < length (chunk_at file i) = omega (arith, len, from, to, below) in
          let taken : q < min (length file - off) chunk_size = omega (arith, from, to, below) in
          rw at_q at (
            get_or-write_at_in off (chunk_at file i) before q small
            ∙ get_or-take (min (length file - off) chunk_size) q (drop off file) taken
            ∙ get_or-drop off q file),
      λ before_it. get_or-write_at_before off (chunk_at file i) before p before_it,
      λ after_it.
          get_or-write_at_after off (chunk_at file i) before p (omega (arith, len, after_it)),
    )

pub contains-insert_ack :
    (i j : ℕ) (xs : List ℕ) → contains j (insert_ack i xs) ≡ ((i == j) || contains j xs)
unfolding contains insert_ack
contains-insert_ack i j xs = elim (Bool-cases (contains i xs)) [
  | inr fresh ↦ rw fresh refl
  | inl there ↦ elim (Bool-cases (i == j)) [
    | inl same ↦ rw (there, same) (rw ((==_iff i j).0 same) at there)
    | inr other ↦ rw (there, other) refl
  ]
]

pub accepted_fields :
    (i : ℕ) (chunk : Bytes) (a : FileAssembler)
    → ((accept_chunk i chunk a).file ≡ write_at (i * chunk_size) chunk a.file)
      × ((accept_chunk i chunk a).received ≡ insert_ack i a.received)
      × ((accept_chunk i chunk a).expected_chunks ≡ a.expected_chunks)
      × ((accept_chunk i chunk a).expected_hash ≡ a.expected_hash)
      × ((accept_chunk i chunk a).file_size ≡ a.file_size)
unfolding accept_chunk save_state
accepted_fields i chunk a =
    elim (Bool-cases (length (insert_ack i a.received) % 2 ^ 32 % 64 == 0)) [
      | inl due ↦ rw due (refl, refl, refl, refl, refl)
      | inr later ↦ rw later (refl, refl, refl, refl, refl)
    ]

module _ (sha256 : Bytes → Bytes) (file : Bytes) (some_bytes : 1 ≤ length file)
    (fits : chunks_of file < 2 ^ 32) where
  inside : (i : ℕ) → i < chunks_of file → i * chunk_size < length file
  inside i below = omega (arith, below, some_bytes)

  pub accept_chunk-IsPartly :
      (i : ℕ) (a : FileAssembler)
      → i < chunks_of file
      → IsPartly sha256 file a
      → IsPartly sha256 file (accept_chunk i (chunk_at file i) a)
  accept_chunk-IsPartly i a below h =
      let (at_file, at_received, at_expected, at_hash, at_size) =
        accepted_fields i (chunk_at file i) a in
      let inner = inside i below in
      let len = length-chunk_at file i (omega (arith, inner)) in
      record {
        expected = at_expected ∙ h.expected;
        hashed = at_hash ∙ h.hashed;
        sized = at_size ∙ h.sized;
        whole =
            ap length at_file
            ∙ length-write_at (i * chunk_size) (chunk_at file i) a.file
                (omega (arith, len, h.whole, inner))
            ∙ h.whole;
        subset = rw at_received (insert_ack-IsSubset (chunks_of file) i a.received below h.subset);
        placed = λ j p there from to small.
            let (hit, miss_before, miss_after) =
              written_byte file a.file i p (omega (arith, inner)) small in
            let known : ((i == j) || contains j a.received) ≡ true =
              sym (contains-insert_ack i j a.received)
              ∙ ap (contains j) (sym at_received)
              ∙ there in
            ap (λ f. get_or f p 0) at_file ∙ elim (Bool-cases (i == j)) [
              | inl same ↦
                  let e : i ≡ j = (==_iff i j).0 same in
                  hit (omega (arith, e, from), omega (arith, e, to))
              | inr other ↦
                  let before = h.placed j p (rw other at known) from to small in
                  elim (Bool-cases (ltb p (i * chunk_size))) [
                    | inl left ↦ miss_before (ground arith) ∙ before
                    | inr right ↦ elim (Bool-cases (ltb p (i * chunk_size + chunk_size))) [
                      | inl within ↦ hit (ground arith)
                      | inr past ↦ miss_after (ground arith) ∙ before
                    ]
                  ]
            ];
      }
