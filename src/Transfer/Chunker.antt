-- ===== src/Transfer/Chunker.antt =====
-- crates/cypher-transfer/src/chunker.rs: the file that is sent, cut into chunks. A file is its bytes,
-- which do not change meanwhile; SHA-256 is a parameter, and hashing a file piece by piece is hashing it.
use cypher.Prelude.{
  ℕ, ◌+◌, ◌-◌, ◌*◌, ◌/◌, ◌%◌, ◌^◌, min, take, drop, length, leb, ◌==◌, if◌then◌else◌, Error, Result,
  ok, err,
}
use cypher.Prelude.Errors.{transfer}
use cypher.Prelude.Bytes.{Bytes}

-- crates/cypher-common/src/types.rs
abbrev pub chunk_size : ℕ
chunk_size = 262_144

-- The id, the name and the flag for compression play no part here.
pub record FileMeta : Type 0 where
  pub size : ℕ
  pub chunk_count : ℕ
  pub hash : Bytes

pub record FileChunker : Type 0 where
  pub file : Bytes
  pub file_size : ℕ
  pub chunk_count : ℕ
  pub file_hash : Bytes

module _ (sha256 : Bytes → Bytes) where
  unfoldable pub open_file : Bytes → FileChunker
  open_file file = record {
    file = file;
    file_size = length file;
    chunk_count =
        if length file == 0 then 0 else (length file + chunk_size - 1) / chunk_size % 2 ^ 32;
    file_hash = sha256 file;
  }

  unfoldable pub meta : FileChunker → FileMeta
  meta self = record {
    size = self.file_size;
    chunk_count = self.chunk_count;
    hash = self.file_hash;
  }

  unfoldable pub read_chunk : ℕ → FileChunker → Result Error (Bytes × Bytes)
  read_chunk index self =
      if leb self.chunk_count index
      then err (transfer "chunk index out of range")
      else let offset = index * chunk_size in
        let remaining = self.file_size - offset in
        let buf = take (min remaining chunk_size) (drop offset self.file) in ok (buf, sha256 buf)
