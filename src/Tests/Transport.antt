-- ===== src/Tests/Transport.antt =====
-- The theorems on the frame codec at concrete inputs.
use cypher.Prelude.{◌+◌, ◌≤◌, ◌≡◌, refl, some, [], ◌∷◌, ◌++◌, length, arith, ok}
use cypher.Prelude.Bytes.{Bytes, from_be, from_le}
use cypher.Transport.Frame.{Frame, IsFrame}
use cypher.Transport.Codec.{max_frame_size, header_size, read_frame, decode, encode}
use cypher.Transport.Codec.RoundTrip.{decode-encode}
use cypher.Transport.Codec.Partial.{encode-decode}

abbrev hello : Frame
hello = record { seq_no = 258; ack = 7; flags = 0x20; payload = 104 ∷ 105 ∷ [] }

hello-IsFrame : IsFrame hello
hello-IsFrame = record {
  seq_no_range = omega arith;
  ack_range = omega arith;
  flags_range = omega arith;
}

decode-encode_example :
    ((encode hello []).0 ≡ ok tt)
    × (decode ((encode hello []).1 ++ (1 ∷ 2 ∷ [])) ≡ (ok (some hello), 1 ∷ 2 ∷ []))
decode-encode_example = decode-encode hello (1 ∷ 2 ∷ []) hello-IsFrame (omega arith)

abbrev arrived : Bytes
arrived = 0 ∷ 0 ∷ 0 ∷ 11 ∷ 0 ∷ 0 ∷ 1 ∷ 2 ∷ 0 ∷ 0 ∷ 0 ∷ 7 ∷ 32 ∷ 104 ∷ 105 ∷ 99 ∷ []

encode-decode_example :
    IsFrame hello
    × (length hello.payload + header_size ≤ max_frame_size)
    × ((encode hello []).1 ++ (99 ∷ []) ≡ arrived)
encode-decode_example =
    encode-decode arrived hello (99 ∷ []) (ground arith)
      (unfold decode read_frame from_be from_le in refl)
