-- ===== src/Transport/FrameCodec/Stream/Memory.antt =====
-- How much the decoder of src/transport/frame-codec.ts buffers.
use mathlib.Core.List.{flatten}
use pi_to_pi.Prelude.{ℕ, ◌+◌, ◌≤◌, List, length, take, drop, length-take, length-drop, arith}
use pi_to_pi.Transport.FrameCodec.{new_decoder, received, read_uint32_be}
use pi_to_pi.Transport.FrameCodec.Stream.{stream, behind_header, in_body}
use pi_to_pi.Transport.FrameCodec.Stream.Refinement.{feed, feed-stream}

received-stream :
    (m : ℕ) (bs : List ℕ) → (received (stream m bs) ≤ 4 + m) × (received (stream m bs) ≤ length bs)
unfolding stream behind_header in_body
received-stream m bs = (
  ground (
    arith,
    length-take 4 bs,
    length-drop 4 bs,
    length-take (read_uint32_be (take 4 bs)) (drop 4 bs),
  ),
  ground (
    arith,
    length-take 4 bs,
    length-drop 4 bs,
    length-take (read_uint32_be (take 4 bs)) (drop 4 bs),
  ),
)

-- Whatever arrives, and whatever length it declares, a decoder of maximum `m` holds at most
-- the four header bytes and `m` payload bytes, and never more bytes than have arrived.
pub received-feed-le :
    (m : ℕ) (chunks : List (List ℕ))
    → let d = feed (new_decoder m) chunks in
      (received d ≤ 4 + m) × (received d ≤ length (flatten chunks))
received-feed-le m chunks = rw (feed-stream m chunks) (received-stream m (flatten chunks))
