-- ===== src/Transport/FrameCodec/Stream/RoundTrip.antt =====
-- Encoding and decoding of src/transport/frame-codec.ts, whole and in chunks.
use mathlib.Core.List.{append-nil, flatten}
use pi_to_pi.Prelude.{
  ℕ, ◌^◌, ◌≤◌, ◌<◌, ◌≡◌, ◌↔◌, refl, sym, ap, ◌∙◌, List, [], ◌++◌, length, take, drop, All, All-take,
  take-append-drop, length-append, length-take, Num, int, pos, negsuc, between, nan, infinity,
  minus_infinity, Result, ok, err, arith,
}
use pi_to_pi.Transport.FrameCodec.{
  FrameDecoder, FrameCodecError, CodecOptions, Outcome, bytes, new_decoder, create_decoder, push,
  finish, finish_open, finish_after, encode_frame, encode_bytes, decode_frame,
  normalize_max_payload_bytes, checked_max, configured, read_uint32_be, write_uint32_be,
}
use pi_to_pi.Transport.FrameCodec.Bytes.{
  read-write, write-read_list, length-write, take-write, drop-write,
}
use pi_to_pi.Transport.FrameCodec.Failure.{Agrees, push-Agrees}
use pi_to_pi.Transport.FrameCodec.Stream.{stream, behind_header, in_body}
use pi_to_pi.Transport.FrameCodec.Stream.Refinement.{feed, feed-stream, push-stream}

-- What the specification's state gives back.
finish-stream :
    (m : ℕ) (bs p : List ℕ)
    → ((finish (stream m bs)).1 ≡ ok p) ↔ (
        (4 ≤ length bs)
        × (read_uint32_be (take 4 bs) ≤ m)
        × (length (drop 4 bs) ≡ read_uint32_be (take 4 bs))
        × (drop 4 bs ≡ p))
unfolding finish finish_open stream behind_header in_body
finish-stream m bs p = ground arith

-- `push` and then `finish`, once the maximum is known.
decode-finish : (o : Outcome) → Agrees o → finish_after o ≡ (finish o.0).1
unfolding finish_after finish finish_open
decode-finish (d, ok r) h = refl
decode-finish (d, err e) h = rw h

decode-stream :
    (m : ℕ) (bs : List ℕ)
    → finish_after (push (new_decoder m) (bytes bs)) ≡ (finish (stream m bs)).1
unfolding stream
decode-stream m bs =
    decode-finish _ (push-Agrees (new_decoder m) bs) ∙ ap (λ d. (finish d).1) (push-stream m [] bs)

checked-lt : (n : Num) (m : ℕ) → checked_max n ≡ ok m → m < 2 ^ 32
unfolding checked_max
checked-lt (int (pos n)) m h = ground arith
checked-lt (int (negsuc n)) m h = cc
checked-lt (between n) m h = cc
checked-lt nan m h = cc
checked-lt infinity m h = cc
checked-lt minus_infinity m h = cc

normalized-lt :
    (options : CodecOptions) (m : ℕ) → normalize_max_payload_bytes options ≡ ok m → m < 2 ^ 32
unfolding normalize_max_payload_bytes
normalized-lt options m h = checked-lt (configured options) m h

-- `encode_bytes` gives exactly a header with the length, and the payload behind it.
encode_bytes-eq :
    (m : ℕ) (p bs : List ℕ)
    → (encode_bytes p m ≡ ok bs) ↔ ((length p ≤ m) × (bs ≡ write_uint32_be (length p) ++ p))
unfolding encode_bytes
encode_bytes-eq m p bs = ground arith

module _ (m : ℕ) (small : m < 2 ^ 32) (bs p : List ℕ) where
  decoded→encoded :
      All (λ b. b < 256) bs → (finish (stream m bs)).1 ≡ ok p → encode_bytes p m ≡ ok bs
  decoded→encoded octets h =
      let (full, fits, exact, same) = (finish-stream m bs p).0 h in
      let same_length : length p ≡ read_uint32_be (take 4 bs) = rw (← same) exact in
      let header =
        write-read_list (take 4 bs) (omega (arith, length-take 4 bs)) (All-take _ 4 bs octets) in
      (encode_bytes-eq m p bs).1
        (omega (arith, same_length), rw (same_length, header, ← same) (sym (take-append-drop 4 bs)))

  encoded→decoded : encode_bytes p m ≡ ok bs → (finish (stream m bs)).1 ≡ ok p
  encoded→decoded h =
      let (fits, e) = (encode_bytes-eq m p bs).0 h in
      let n = length p in
      let l = length-append (write_uint32_be n) p in
      let l' = length-write n in
      let r = read-write n [] (omega arith) in
      let r' : read_uint32_be (write_uint32_be n) ≡ n = rw append-nil at r in
      (finish-stream m bs p).1
        (rw (e, take-write n p, drop-write n p, r') (omega (arith, l, l'), fits, refl, refl))

-- `decode_frame` accepts a byte sequence with a payload exactly when `encode_frame` with the same
-- options turns that payload into that sequence: decoding inverts encoding, and nothing but
-- an encoded frame is accepted.
pub decode-iff-encode :
    (options : CodecOptions) (bs p : List ℕ)
    → All (λ b. b < 256) bs
    → (decode_frame (bytes bs) options ≡ ok p) ↔ (encode_frame (bytes p) options ≡ ok bs)
unfolding decode_frame create_decoder encode_frame
decode-iff-encode options bs p octets = go (normalize_max_payload_bytes options) refl
  where
    go :
        (r : Result FrameCodecError ℕ)
        → normalize_max_payload_bytes options ≡ r
        → (decode_frame (bytes bs) options ≡ ok p) ↔ (encode_frame (bytes p) options ≡ ok bs)
    go (err e) h = rw h (λ k. cc, λ k. cc)
    go (ok m) h =
        rw (h, decode-stream m bs)
          (
            decoded→encoded m (normalized-lt options m h) bs p octets,
            encoded→decoded m (normalized-lt options m h) bs p,
          )

-- However the bytes of an encoded frame are cut into chunks, a decoder made with the same options
-- that is fed the chunks gives the payload back at `finish`.
pub finish-feed-encode :
    (options : CodecOptions) (p frame : List ℕ) (chunks : List (List ℕ)) (d : FrameDecoder)
    → encode_frame (bytes p) options ≡ ok frame
    → flatten chunks ≡ frame
    → create_decoder options ≡ ok d
    → (finish (feed d chunks)).1 ≡ ok p
unfolding create_decoder encode_frame
finish-feed-encode options p frame chunks d encoded cut made =
    go (normalize_max_payload_bytes options) refl
  where
    go :
        (r : Result FrameCodecError ℕ)
        → normalize_max_payload_bytes options ≡ r
        → (finish (feed d chunks)).1 ≡ ok p
    go (err e) h = let made' = rw h at made in cc
    go (ok m) h =
        let made' = rw h at made in
        let same : d ≡ new_decoder m = cc in
        rw (same, feed-stream m chunks, cut)
          (encoded→decoded m (normalized-lt options m h) frame p (rw h at encoded))
