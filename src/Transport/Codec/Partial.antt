-- ===== src/Transport/Codec/Partial.antt =====
-- The decoder on a buffer that the network filled only in part, and on any bytes at all.
use cypher.Prelude.{
  ℕ, ◌+◌, ◌-◌, ◌^◌, ◌≤◌, ◌<◌, ◌≡◌, refl, sym, ap, ◌∙◌, none, some, [], ◌∷◌, ◌++◌, append-nil, ok,
  length, take, drop, get_or, take-append_le, length-append, arith, All, All-take, All-drop,
  take-append-drop, length-take, length-drop, subst, le→ltb,
}
use cypher.Prelude.Bytes.{Bytes, IsByte, to_be, from_be, to_be-from_be, from_be_bound}
use cypher.Transport.Frame.{Frame, IsFrame}
use cypher.Transport.Codec.{max_frame_size, header_size, read_frame, decode, wire, encode}
use cypher.Transport.Codec.RoundTrip.{length-wire, length_prefix, wire-append}

module _ (f : Frame) (front back : Bytes) (x : ℕ) where
  front_prefix :
      wire f ≡ front ++ (x ∷ back)
      → length f.payload + header_size ≤ max_frame_size
      → 4 ≤ length front
      → from_be (take 4 front) ≡ header_size + length f.payload
  front_prefix e fits h =
      ap from_be (sym (take-append_le 4 front (x ∷ back) h))
      ∙ rw e at (rw append-nil at (length_prefix f [] fits))

  front_short : wire f ≡ front ++ (x ∷ back) → length front < 13 + length f.payload
  front_short e = omega (arith, ap length e, length-wire f, length-append front (x ∷ back))

  -- On a proper prefix of what `encode` wrote, `decode` asks for more and keeps the buffer.
  pub decode_partial :
      length f.payload + header_size ≤ max_frame_size
      → (encode f []).1 ≡ front ++ (x ∷ back)
      → decode front ≡ (ok none, front)
  unfolding encode decode
  decode_partial fits e =
      let e' : wire f ≡ front ++ (x ∷ back) =
        rw (le→ltb max_frame_size (header_size + length f.payload) (omega arith)) at e in
      ground (arith, front_prefix e' fits, front_short e')

-- A big-endian field read from the front, and written back.
module _ (s : Bytes) (bytes : All IsByte s) (long : 4 ≤ length s) where
  field_length : length (take 4 s) ≡ 4
  field_length = omega (arith, length-take 4 s)

  field_back : to_be 4 (from_be (take 4 s)) ++ drop 4 s ≡ s
  field_back =
      rw (to_be-from_be 4 (take 4 s) field_length (All-take IsByte 4 s bytes))
        (take-append-drop 4 s)

  field_range : from_be (take 4 s) < 2 ^ 32
  field_range = from_be_bound 4 (take 4 s) field_length (All-take IsByte 4 s bytes)

byte_back : (s : Bytes) → 1 ≤ length s → get_or s 0 0 ∷ drop 1 s ≡ s
byte_back [] h = absurd (omega arith)
byte_back (b ∷ bs) h = refl

IsByte-range : (s : Bytes) → All IsByte s → IsByte (get_or s 0 0)
IsByte-range [] h = omega arith
IsByte-range (b ∷ bs) h = h.0

-- A buffer that holds a whole body is the encoding of what `read_frame` cuts from it, and the rest.
module _ (src : Bytes) (bytes : All IsByte src) (len : ℕ) (prefix : from_be (take 4 src) ≡ len)
    (small : header_size ≤ len) (whole : 4 + len ≤ length src) where
  long1 : 13 ≤ length src
  long1 = omega arith

  long2 : 9 ≤ length (drop 4 src)
  long2 = omega (arith, length-drop 4 src)

  long3 : 5 ≤ length (drop 4 (drop 4 src))
  long3 = omega (arith, long2, length-drop 4 (drop 4 src))

  long4 : 1 ≤ length (drop 4 (drop 4 (drop 4 src)))
  long4 = omega (arith, long3, length-drop 4 (drop 4 (drop 4 src)))

  bytes2 : All IsByte (drop 4 src)
  bytes2 = All-drop IsByte 4 src bytes

  bytes3 : All IsByte (drop 4 (drop 4 src))
  bytes3 = All-drop IsByte 4 (drop 4 src) bytes2

  read_frame-IsFrame : IsFrame (read_frame len src).0
  unfolding read_frame
  read_frame-IsFrame = record {
    seq_no_range = field_range (drop 4 src) bytes2 (omega (arith, long2));
    ack_range = field_range (drop 4 (drop 4 src)) bytes3 (omega (arith, long3));
    flags_range = IsByte-range _ (All-drop IsByte 4 (drop 4 (drop 4 src)) bytes3);
  }

  length-payload : header_size + length (read_frame len src).0.payload ≡ len
  unfolding read_frame
  length-payload = omega (
    arith,
    long4,
    length-take (len - header_size) (drop 1 (drop 4 (drop 4 (drop 4 src)))),
    length-drop 1 (drop 4 (drop 4 (drop 4 src))),
    length-drop 4 (drop 4 (drop 4 src)),
    length-drop 4 (drop 4 src),
    length-drop 4 src,
  )

  read_frame-back : wire (read_frame len src).0 ++ (read_frame len src).1 ≡ src
  read_frame-back =
      wire-append (read_frame len src).0 (read_frame len src).1
      ∙ rw length-payload (
          unfold read_frame in
          rw (
            take-append-drop (len - header_size) (drop 1 (drop 4 (drop 4 (drop 4 src)))),
            byte_back (drop 4 (drop 4 (drop 4 src))) long4,
            field_back (drop 4 (drop 4 src)) bytes3 (omega (arith, long3)),
            field_back (drop 4 src) bytes2 (omega (arith, long2)),
            ← prefix,
            field_back src bytes (omega (arith, long1)),
          ))

abbrev IsReading : Bytes → Frame × Bytes → Type 0
IsReading src r =
    IsFrame r.0
    × (length r.0.payload + header_size ≤ max_frame_size)
    × ((encode r.0 []).1 ++ r.1 ≡ src)

IsReading-frame :
    (src : Bytes) (f : Frame) (rest : Bytes)
    → IsFrame f
    → length f.payload + header_size ≤ max_frame_size
    → wire f ++ rest ≡ src
    → IsReading src (f, rest)
unfolding encode
IsReading-frame src f rest h fits e =
    (h, fits, rw (le→ltb max_frame_size (header_size + length f.payload) (omega arith)) e)

decode_cases :
    (src : Bytes) {f : Frame} {rest : Bytes}
    → decode src ≡ (ok (some f), rest)
    → (header_size ≤ from_be (take 4 src))
      × (from_be (take 4 src) ≤ max_frame_size)
      × (4 + from_be (take 4 src) ≤ length src)
      × (read_frame (from_be (take 4 src)) src ≡ (f, rest))
unfolding decode
decode_cases src h = (ground arith, ground arith, ground arith, ground arith)

-- Whatever bytes arrive, a frame that `decode` returns has its fields in range and a body within
-- `MAX_FRAME_SIZE`, and the bytes that were consumed are exactly the encoding of that frame.
pub encode-decode :
    (src : Bytes) (f : Frame) (rest : Bytes)
    → All IsByte src
    → decode src ≡ (ok (some f), rest)
    → IsFrame f
      × (length f.payload + header_size ≤ max_frame_size)
      × ((encode f []).1 ++ rest ≡ src)
encode-decode src f rest bytes h =
    let (small, large, whole, e) = decode_cases src h in
    let len : ℕ = from_be (take 4 src) in
    subst (IsReading src) e (
      IsReading-frame src (read_frame len src).0 (read_frame len src).1
        (read_frame-IsFrame src bytes len refl small whole)
        (omega (arith, length-payload src bytes len refl small whole))
        (read_frame-back src bytes len refl small whole))
