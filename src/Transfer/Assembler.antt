-- ===== src/Transfer/Assembler.antt =====
-- crates/cypher-transfer/src/assembler.rs and receiver.rs: the file that is put together. The file is
-- its bytes, the set of received chunks a list without repetitions, the state file what was last saved.
use cypher.Prelude.{
  ℕ, zero, suc, ◌*◌, ◌%◌, ◌^◌, Bool, not, Option, none, some, List, [], ◌∷◌, ◌++◌, replicate, take,
  drop, length, leb, ltb, ◌==◌, if◌then◌else◌, Error, Result, ok, ◌>>=◌, ◌>>◌, refuse_if,
}
use cypher.Prelude.Errors.{transfer}
use cypher.Prelude.Bytes.{Bytes, bytes_eq, to_le, from_le}
use cypher.Transfer.Sender.{contains, insert_ack}
use cypher.Transfer.Chunker.{chunk_size, FileMeta}

abbrev pub save_state_interval : ℕ
save_state_interval = 64

pub record FileAssembler : Type 0 where
  pub file : Bytes
  pub expected_chunks : ℕ
  pub received : List ℕ
  pub expected_hash : Bytes
  pub file_size : ℕ
  pub saved : Option Bytes

-- `File::create`, then `set_len`.
unfoldable pub create : FileMeta → (saved : Option Bytes) → FileAssembler
create meta saved = record {
  file = replicate meta.size 0;
  expected_chunks = meta.chunk_count;
  received = [];
  expected_hash = meta.hash;
  file_size = meta.size;
  saved = saved;
}

-- The indices of a state file, read four bytes at a time; what is left at the end is not looked at, and
-- an index that the file does not have is left out. As many rounds as there are bytes are enough.
unfoldable pub read_indices : (fuel : ℕ) → (chunk_count : ℕ) → Bytes → List ℕ → List ℕ
read_indices zero chunk_count data' received = received
read_indices (suc fuel) chunk_count data' received =
    let idx = from_le (take 4 data') in
    let added = if ltb idx chunk_count then insert_ack idx received else received in
    let rest = read_indices fuel chunk_count (drop 4 data') added in
    if leb 4 (length data') then rest else received

-- `none` when there is no state file.
unfoldable pub load_state :
    FileMeta → (file : Bytes) → (saved : Option Bytes) → Option FileAssembler
load_state meta file none = none
load_state meta file (some data') = some (record {
  file = file;
  expected_chunks = meta.chunk_count;
  received = read_indices (length data') meta.chunk_count data' [];
  expected_hash = meta.hash;
  file_size = meta.size;
  saved = some data';
})

unfoldable pub state_bytes : List ℕ → Bytes
state_bytes [] = []
state_bytes (i ∷ is) = to_le 4 i ++ state_bytes is

unfoldable pub save_state : FileAssembler → FileAssembler
save_state self = record self { saved = some (state_bytes self.received) }

-- Bytes written over the start of a file, and after a seek; a seek past the end fills with zeros.
unfoldable pub overwrite : Bytes → Bytes → Bytes
overwrite [] file = file
overwrite (d ∷ ds) [] = d ∷ ds
overwrite (d ∷ ds) (b ∷ file) = d ∷ overwrite ds file

unfoldable pub write_at : (offset : ℕ) → Bytes → Bytes → Bytes
write_at zero ds file = overwrite ds file
write_at (suc offset) ds [] = 0 ∷ write_at offset ds []
write_at (suc offset) ds (b ∷ file) = b ∷ write_at offset ds file

unfoldable pub accept_chunk : ℕ → Bytes → FileAssembler → FileAssembler
accept_chunk index chunk self =
    let written = record self {
      file = write_at (index * chunk_size) chunk self.file;
      received = insert_ack index self.received;
    } in
    if length written.received % 2 ^ 32 % save_state_interval == 0
    then save_state written
    else written

module _ (sha256 : Bytes → Bytes) where
  unfoldable pub write_chunk : ℕ → (chunk hash : Bytes) → FileAssembler → Result Error FileAssembler
  write_chunk index chunk hash self = do
    refuse_if (not (bytes_eq (sha256 chunk) hash)) (transfer "chunk hash mismatch")
    refuse_if (leb self.expected_chunks index) (transfer "chunk index out of range")
    ok (accept_chunk index chunk self)

  -- `verify`: the hash of the first `file_size` bytes.
  unfoldable pub verify_file : FileAssembler → Bool
  verify_file self = bytes_eq (sha256 (take self.file_size self.file)) self.expected_hash

unfoldable pub is_complete : FileAssembler → Bool
is_complete self = length self.received % 2 ^ 32 == self.expected_chunks

-- The numbers below n that are not received, in order.
unfoldable pub missing_below : (n : ℕ) → List ℕ → List ℕ
missing_below zero received = []
missing_below (suc n) received =
    let before = missing_below n received in
    if contains n received then before else before ++ (n ∷ [])

unfoldable pub missing_chunks : FileAssembler → List ℕ
missing_chunks self = missing_below self.expected_chunks self.received

-- `TransferReceiver::handle_chunk`
unfoldable pub handle_chunk :
    (sha256 : Bytes → Bytes)
    → ℕ
    → (chunk hash : Bytes) → FileAssembler
    → Result Error (Bool × FileAssembler)
handle_chunk sha256 index chunk hash self = do
  written ← write_chunk sha256 index chunk hash self
  ok (is_complete written, written)
