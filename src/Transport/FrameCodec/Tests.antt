-- ===== src/Transport/FrameCodec/Tests.antt =====
-- Concrete frames through the codec of src/transport/frame-codec.ts.
use mathlib.Core.List.{flatten}
use pi_to_pi.Prelude.{
  ℕ, ◌+◌, ◌^◌, ◌≤◌, ◌≡◌, refl, ◌↔◌, none, some, List, [], ◌∷◌, length, int, pos, ok, err, arith,
}
use pi_to_pi.Transport.FrameCodec.{
  CodecOptions, number, bytes, Input, new_decoder, create_decoder, push, finish, encode_frame,
  encode_bytes, decode_frame, normalize_max_payload_bytes, checked_max, write_uint32_be,
  read_uint32_be, finish_after, finish_open, push_open, push_bytes, push_loop, round, open_body,
  read_body, copy_body, complete, oversized_error, plain_error, invalid_max_payload, received,
  FrameDecoder,
}
use pi_to_pi.Transport.FrameCodec.Failure.{push-fails_for_good}
use pi_to_pi.Transport.FrameCodec.Stream.{stream}
use pi_to_pi.Transport.FrameCodec.Stream.Refinement.{feed, feed-stream}
use pi_to_pi.Transport.FrameCodec.Stream.RoundTrip.{decode-iff-encode, finish-feed-encode}
use pi_to_pi.Transport.FrameCodec.Stream.Memory.{received-feed-le}

codec : Unit {0}
unfolding encode_frame encode_bytes decode_frame normalize_max_payload_bytes checked_max
    write_uint32_be read_uint32_be create_decoder push finish finish_after finish_open push_open
    push_bytes push_loop round open_body read_body copy_body complete
codec = tt

abbrev eight : CodecOptions
eight = number (int (pos 8))

abbrev frame : List ℕ
frame = 0 ∷ 0 ∷ 0 ∷ 2 ∷ 104 ∷ 105 ∷ []

abbrev pieces : List (List ℕ)
pieces = (0 ∷ []) ∷ (0 ∷ 0 ∷ 2 ∷ 104 ∷ []) ∷ [] ∷ (105 ∷ []) ∷ []

codec_tests :
    (encode_frame (bytes (104 ∷ 105 ∷ [])) eight ≡ ok frame)
    × (decode_frame (bytes frame) eight ≡ ok (104 ∷ 105 ∷ []))
    × (decode_frame (bytes (0 ∷ 0 ∷ 1 ∷ 0 ∷ 1 ∷ [])) eight ≡ err (oversized_error 256 8))
    × (encode_frame (bytes []) (number (int (pos (2 ^ 32))))
        ≡ err (plain_error invalid_max_payload))
unfolding codec
codec_tests = (refl, refl, refl, refl)

decode-iff-encode_example :
    (decode_frame (bytes frame) eight ≡ ok (104 ∷ 105 ∷ []))
    ↔ (encode_frame (bytes (104 ∷ 105 ∷ [])) eight ≡ ok frame)
decode-iff-encode_example = decode-iff-encode eight frame (104 ∷ 105 ∷ []) (omega arith)

finish-feed-encode_example : (finish (feed (new_decoder 8) pieces)).1 ≡ ok (104 ∷ 105 ∷ [])
unfolding codec flatten
finish-feed-encode_example =
    finish-feed-encode eight (104 ∷ 105 ∷ []) frame pieces (new_decoder 8) codec_tests.0 refl refl

feed-stream_example : feed (new_decoder 8) pieces ≡ stream 8 (flatten pieces)
feed-stream_example = feed-stream 8 pieces

received-feed-le_example :
    let d = feed (new_decoder 8) pieces in
    (received d ≤ 4 + 8) × (received d ≤ length (flatten pieces))
received-feed-le_example = received-feed-le 8 pieces

abbrev large_header : List ℕ
large_header = 0 ∷ 0 ∷ 1 ∷ 0 ∷ []

abbrev refused_decoder : FrameDecoder
refused_decoder = record {
  max_payload_bytes = 8;
  header = large_header;
  body = none;
  declared_length = some 256;
  completed_payload = none;
  failure = some (oversized_error 256 8);
}

push-fails_for_good_example :
    ((later : Input) → push refused_decoder later ≡ (refused_decoder, err (oversized_error 256 8)))
    × (finish refused_decoder ≡ (refused_decoder, err (oversized_error 256 8)))
unfolding codec
push-fails_for_good_example =
    push-fails_for_good (new_decoder 8) refused_decoder large_header (oversized_error 256 8) refl
