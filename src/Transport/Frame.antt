-- ===== src/Transport/Frame.antt =====
-- crates/cypher-transport/src/frame.rs. A `FrameFlags` is its bits, a number below 256.
use Prim.Native.Nat.{bit_and, bit_or}
use cypher.Prelude.{ℕ, Bool, ◌==◌}
use cypher.Prelude.Bytes.{Bytes, IsByte, IsU32}

abbrev pub FrameFlags : Type 0
FrameFlags = ℕ

abbrev pub none_flags : FrameFlags
none_flags = 0x00

abbrev pub ack_only : FrameFlags
ack_only = 0x01

abbrev pub encrypted : FrameFlags
encrypted = 0x02

abbrev pub compressed : FrameFlags
compressed = 0x04

abbrev pub ping : FrameFlags
ping = 0x08

abbrev pub pong : FrameFlags
pong = 0x10

abbrev pub session_init : FrameFlags
session_init = 0x20

abbrev pub session_close : FrameFlags
session_close = 0x40

unfoldable pub contains : FrameFlags → FrameFlags → Bool
contains self other = bit_and self other == other

unfoldable pub union : FrameFlags → FrameFlags → FrameFlags
union self other = bit_or self other

unfoldable pub intersection : FrameFlags → FrameFlags → FrameFlags
intersection self other = bit_and self other

unfoldable pub is_empty : FrameFlags → Bool
is_empty self = self == 0

pub record Frame : Type 0 where
  pub seq_no : ℕ
  pub ack : ℕ
  pub flags : FrameFlags
  pub payload : Bytes

-- The ranges of the fields' Rust types.
pub record IsFrame (f : Frame) : Type 0 where
  pub seq_no_range : IsU32 f.seq_no
  pub ack_range : IsU32 f.ack
  pub flags_range : IsByte f.flags
