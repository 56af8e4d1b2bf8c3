-- ===== src/Transport/FrameCodec/Stream/Refinement.antt =====
-- `push` of src/transport/frame-codec.ts against the stream specification, for any chunks.
use native.Mathlib.Decide.{dec_lt}
use mathlib.Core.List.{append-nil, append_assoc, flatten}
use pi_to_pi.Prelude.{
  ℕ, ◌+◌, ◌≤◌, ◌<◌, ◌≡◌, sym, ap, ◌∙◌, ltb, lt→ltb, false, List, [], ◌∷◌, ◌++◌, length, take, drop,
  length-append, length-take, take-append_le, drop-append_le, arith,
}
use pi_to_pi.Transport.FrameCodec.{
  FrameDecoder, new_decoder, bytes, push, push_loop, push_bytes, push_open,
}
use pi_to_pi.Transport.FrameCodec.Stream.{waiting, behind_header, stream}
use pi_to_pi.Transport.FrameCodec.Stream.Body.{push-behind_header}
use pi_to_pi.Transport.FrameCodec.Stream.Header.{loop-short, loop-opening}

module _ (m : ℕ) where
  stream-short : (bs : List ℕ) → length bs < 4 → stream m bs ≡ waiting m bs
  unfolding stream
  stream-short bs short = rw (lt→ltb _ _ short)

  stream-full :
      (bs : List ℕ) → 4 ≤ length bs → stream m bs ≡ behind_header m (take 4 bs) (drop 4 bs)
  unfolding stream
  stream-full bs full = let e : ltb (length bs) 4 ≡ false = ground arith in rw e

  push-waiting :
      (bs c : List ℕ) → length bs < 4 → (push (waiting m bs) (bytes c)).0 ≡ stream m (bs ++ c)
  unfolding push push_open push_bytes push_loop
  push-waiting bs [] short = rw append-nil (sym (stream-short bs short))
  push-waiting bs (x ∷ c) short = elim (dec_lt (length bs + length (x ∷ c)) 4) [
    | yes less ↦
        loop-short m (length c) x bs c less
        ∙ (sym (stream-short _ (omega (arith, length-append bs (x ∷ c)))))
    | no more ↦
        loop-opening m (length c) x bs c short (omega arith)
        ∙ sym (stream-full _ (omega (arith, length-append bs (x ∷ c))))
  ]

  pub push-stream : (bs c : List ℕ) → (push (stream m bs) (bytes c)).0 ≡ stream m (bs ++ c)
  push-stream bs c = elim (dec_lt (length bs) 4) [
    | yes short ↦ rw (stream-short bs short) (push-waiting bs c short)
    | no more ↦
        let full : 4 ≤ length bs = omega arith in
        rw
          (
            stream-full bs full,
            stream-full (bs ++ c) (omega (arith, length-append bs c)),
            take-append_le 4 bs c full,
            drop-append_le 4 bs c full,
          )
          (push-behind_header m (take 4 bs) (drop 4 bs) c (omega (arith, length-take 4 bs)))
  ]

-- Chunks pushed one after another; what the calls throw is kept in the state.
pub feed : FrameDecoder → List (List ℕ) → FrameDecoder
feed d [] = d
feed d (c ∷ cs) = feed (push d (bytes c)).0 cs

feed-from :
    (m : ℕ) (bs : List ℕ) (cs : List (List ℕ)) → feed (stream m bs) cs ≡ stream m (bs ++ flatten cs)
unfolding feed flatten
feed-from m bs [] = rw append-nil
feed-from m bs (c ∷ cs) =
    rw (push-stream m bs c)
      (feed-from m (bs ++ c) cs ∙ ap (stream m) (append_assoc bs c (flatten cs)))

-- However a stream of bytes is cut into chunks, a new decoder that is fed them ends in the
-- state that the specification `stream` gives for the bytes as a whole: in the header, refused
-- as oversized, in the body, complete, or refused for trailing data.
pub feed-stream : (m : ℕ) (cs : List (List ℕ)) → feed (new_decoder m) cs ≡ stream m (flatten cs)
unfolding stream
feed-stream m cs = feed-from m [] cs
