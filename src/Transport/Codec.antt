-- ===== src/Transport/Codec.antt =====
-- crates/cypher-transport/src/codec.rs: the length-prefixed wire format. A call returns its result
-- and the buffer that it leaves behind.
pub mod RoundTrip
pub mod Partial
use cypher.Prelude.{
  ℕ, ◌+◌, ◌-◌, Option, none, some, List, [], ◌∷◌, ◌++◌, Error, io, Result, ok, err, ltb,
  if◌then◌else◌, length, take, drop, get_or,
}
use cypher.Prelude.Bytes.{Bytes, to_be, from_be}
use cypher.Transport.Frame.{Frame}

abbrev pub max_frame_size : ℕ
max_frame_size = 1_048_576

abbrev pub header_size : ℕ
header_size = 9

-- The body of `decode` after the length checks: the prefix is consumed, then each field in turn.
unfoldable pub read_frame : ℕ → Bytes → Frame × Bytes
read_frame len src =
    let after_length = drop 4 src in
    let after_seq_no = drop 4 after_length in
    let after_ack = drop 4 after_seq_no in
    let after_flags = drop 1 after_ack in
    let payload_len = len - header_size in
    (
      record {
        seq_no = from_be (take 4 after_length);
        ack = from_be (take 4 after_seq_no);
        flags = get_or after_ack 0 0;
        payload = take payload_len after_flags;
      },
      drop payload_len after_flags,
    )

unfoldable pub decode : Bytes → Result Error (Option Frame) × Bytes
decode src =
    if ltb (length src) 4
    then (ok none, src)
    else let len = from_be (take 4 src) in
      if ltb len header_size
      then (err (io "frame body too small"), src)
      else if ltb max_frame_size len
      then (err (io "frame too large"), src)
      else if ltb (length src) (4 + len)
      then (ok none, src)
      else let (frame, rest) = read_frame len src in (ok (some frame), rest)

-- The bytes that `encode` puts, in its order.
unfoldable pub wire : Frame → Bytes
wire f =
    to_be 4 (header_size + length f.payload)
    ++ (to_be 4 f.seq_no ++ (to_be 4 f.ack ++ (f.flags ∷ f.payload)))

unfoldable pub encode : Frame → Bytes → Result Error (Unit {0}) × Bytes
encode item dst =
    if ltb max_frame_size (header_size + length item.payload)
    then (err (io "frame too large"), dst)
    else (ok tt, dst ++ wire item)
