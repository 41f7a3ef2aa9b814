-- ===== src/Transport/Codec/RoundTrip.antt =====
-- Decoding after encoding, and encoding after decoding.
use cypher.Prelude.{
  ◌+◌, ◌-◌, ◌≤◌, ◌≡◌, refl, some, [], ◌∷◌, ◌++◌, append_assoc, ok, length, take, take-append,
  drop-append, length-append, arith, le→ltb,
}
use cypher.Prelude.Bytes.{Bytes, to_be, from_be, length-to_be, from_be-to_be}
use cypher.Transport.Frame.{Frame, IsFrame}
use cypher.Transport.Codec.{max_frame_size, header_size, read_frame, decode, wire, encode}

pub length-wire : (f : Frame) → length (wire f) ≡ 13 + length f.payload
unfolding wire
length-wire f = omega (
  arith,
  length-append (to_be 4 (header_size + length f.payload))
      (to_be 4 f.seq_no ++ (to_be 4 f.ack ++ (f.flags ∷ f.payload))),
  length-append (to_be 4 f.seq_no) (to_be 4 f.ack ++ (f.flags ∷ f.payload)),
  length-append (to_be 4 f.ack) (f.flags ∷ f.payload),
  length-to_be 4 (header_size + length f.payload),
  length-to_be 4 f.seq_no,
  length-to_be 4 f.ack,
)

module _ (f : Frame) (rest : Bytes) where
  pub wire-append :
      wire f ++ rest
      ≡ to_be 4 (header_size + length f.payload)
        ++ (to_be 4 f.seq_no ++ (to_be 4 f.ack ++ (f.flags ∷ (f.payload ++ rest))))
  unfolding wire
  wire-append = simp append_assoc

  pub take-wire : take 4 (wire f ++ rest) ≡ to_be 4 (header_size + length f.payload)
  take-wire = rw wire-append (take-append 4 _ _ (length-to_be 4 _))

  read_frame-wire :
      IsFrame f → read_frame (header_size + length f.payload) (wire f ++ rest) ≡ (f, rest)
  unfolding read_frame
  read_frame-wire h = rw (
    wire-append,
    drop-append 4 (to_be 4 (header_size + length f.payload))
        (to_be 4 f.seq_no ++ (to_be 4 f.ack ++ (f.flags ∷ (f.payload ++ rest)))) (length-to_be 4 _),
    drop-append 4 (to_be 4 f.seq_no) (to_be 4 f.ack ++ (f.flags ∷ (f.payload ++ rest)))
        (length-to_be 4 _),
    drop-append 4 (to_be 4 f.ack) (f.flags ∷ (f.payload ++ rest)) (length-to_be 4 _),
    take-append 4 (to_be 4 f.seq_no) (to_be 4 f.ack ++ (f.flags ∷ (f.payload ++ rest)))
        (length-to_be 4 _),
    take-append 4 (to_be 4 f.ack) (f.flags ∷ (f.payload ++ rest)) (length-to_be 4 _),
    from_be-to_be 4 f.seq_no h.seq_no_range,
    from_be-to_be 4 f.ack h.ack_range,
    take-append (header_size + length f.payload - header_size) f.payload rest (omega arith),
    drop-append (header_size + length f.payload - header_size) f.payload rest (omega arith),
  )

  pub length_prefix :
      length f.payload + header_size ≤ max_frame_size
      → from_be (take 4 (wire f ++ rest)) ≡ header_size + length f.payload
  length_prefix fits = rw take-wire (from_be-to_be 4 _ (omega arith))

  pub decode-wire :
      IsFrame f
      → length f.payload + header_size ≤ max_frame_size
      → decode (wire f ++ rest) ≡ (ok (some f), rest)
  unfolding decode
  decode-wire h fits =
      rw (length_prefix fits, read_frame-wire h)
        (ground (arith, length-append (wire f) rest, length-wire f))

-- A frame whose fields are in range and whose body fits in `MAX_FRAME_SIZE` is encoded, and
-- decoding the buffer gives the frame back and leaves exactly what followed it.
pub decode-encode :
    (f : Frame) (rest : Bytes)
    → IsFrame f
    → length f.payload + header_size ≤ max_frame_size
    → ((encode f []).0 ≡ ok tt) × (decode ((encode f []).1 ++ rest) ≡ (ok (some f), rest))
unfolding encode
decode-encode f rest h fits =
    rw (le→ltb max_frame_size (header_size + length f.payload) (omega arith))
      (refl, decode-wire f rest h fits)
