-- ===== src/Transfer/Delivery.antt =====
-- A whole transfer: the chunks that the sender reads, in the order in which they arrive.
use cypher.Prelude.{
  ℕ, ◌^◌, ◌≤◌, ◌<◌, ◌≡◌, refl, ap, ◌∙◌, inl, inr, Bool, true, false, ◌||◌, List, [], ◌∷◌, All,
  length, leb, ◌==◌, Bool-cases, Error, Result, ok, ◌>>=◌, arith,
}
use cypher.Prelude.Bytes.{Bytes, bytes_eq_refl}
use cypher.Transfer.Sender.{contains}
use cypher.Transfer.Chunker.{FileChunker, open_file, read_chunk}
use cypher.Transfer.Assembler.{FileAssembler, accept_chunk, write_chunk}
use cypher.Transfer.Assembly.{
  chunks_of, chunk_at, IsPartly, contains-insert_ack, accepted_fields, accept_chunk-IsPartly,
}

-- Each chunk is read by the sender and written by the receiver.
unfoldable pub deliver_chunks :
    (sha256 : Bytes → Bytes) → FileChunker → List ℕ → FileAssembler → Result Error FileAssembler
deliver_chunks sha256 sender [] a = ok a
deliver_chunks sha256 sender (i ∷ is) a = read_chunk sha256 i sender >>= λ read.
    write_chunk sha256 i read.0 read.1 a >>= λ a'. deliver_chunks sha256 sender is a'

no_bits : false ≡ true → ⊥
no_bits h = cc

module _ (sha256 : Bytes → Bytes) (file : Bytes) (some_bytes : 1 ≤ length file)
    (fits : chunks_of file < 2 ^ 32) where
  chunk_count-open_file : (open_file sha256 file).chunk_count ≡ chunks_of file
  unfolding open_file
  chunk_count-open_file =
      let full : (length file == 0) ≡ false = ground arith in rw full (omega (arith, fits))

  read_chunk-open_file :
      (i : ℕ)
      → i < chunks_of file
      → read_chunk sha256 i (open_file sha256 file) ≡ ok (chunk_at file i, sha256 (chunk_at file i))
  unfolding read_chunk
  read_chunk-open_file i below =
      let inside : leb (open_file sha256 file).chunk_count i ≡ false =
        rw chunk_count-open_file (ground arith) in
      rw inside (unfold open_file in refl)

  write_chunk-accept_chunk :
      (i : ℕ) (a : FileAssembler)
      → i < chunks_of file
      → IsPartly sha256 file a
      → write_chunk sha256 i (chunk_at file i) (sha256 (chunk_at file i)) a
        ≡ ok (accept_chunk i (chunk_at file i) a)
  unfolding write_chunk
  write_chunk-accept_chunk i a below h =
      let inside : leb a.expected_chunks i ≡ false = rw h.expected (ground arith) in
      rw (bytes_eq_refl (sha256 (chunk_at file i)), inside) refl

  -- A run of deliveries, and what it leaves received.
  record Run (order : List ℕ) (a : FileAssembler) : Type 0 where
    last : FileAssembler
    done : deliver_chunks sha256 (open_file sha256 file) order a ≡ ok last
    partly : IsPartly sha256 file last
    keeps : (j : ℕ) → contains j a.received ≡ true → contains j last.received ≡ true
    adds : (j : ℕ) → contains j order ≡ true → contains j last.received ≡ true

  deliver :
      (order : List ℕ) (a : FileAssembler)
      → All (λ i. i < chunks_of file) order
      → IsPartly sha256 file a
      → Run order a
  unfolding deliver_chunks contains
  deliver [] a h partly = record {
    last = a;
    done = refl;
    partly = partly;
    keeps = λ j there. there;
    adds = λ j there. absurd (no_bits there);
  }
  deliver (i ∷ is) a (below, h) partly =
      let a' = accept_chunk i (chunk_at file i) a in
      let r =
        deliver is a' h (accept_chunk-IsPartly sha256 file some_bytes fits i a below partly) in
      let received = accepted_fields i (chunk_at file i) a in
      let now : (j : ℕ) → contains j a'.received ≡ ((i == j) || contains j a.received) =
        λ j. ap (contains j) received.1 ∙ contains-insert_ack i j a.received in
      record {
        last = r.last;
        done = rw (read_chunk-open_file i below, write_chunk-accept_chunk i a below partly) r.done;
        partly = r.partly;
        keeps = λ j there. r.keeps j (now j ∙ rw there (or_true (i == j)));
        adds = λ j there. elim (Bool-cases (i == j)) [
          | inl same ↦ r.keeps j (now j ∙ rw same refl)
          | inr other ↦ r.adds j (rw other at there)
        ];
      }
    where
      or_true : (b : Bool) → (b || true) ≡ true
      or_true true = refl
      or_true false = refl
