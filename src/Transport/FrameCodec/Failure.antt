-- ===== src/Transport/FrameCodec/Failure.antt =====
-- How the decoder of src/transport/frame-codec.ts fails: what is thrown is kept, and thrown again.
use pi_to_pi.Prelude.{
  ℕ, zero, suc, ◌≡◌, refl, Option, none, some, List, [], ◌∷◌, length, ok, err, arith, subst, ◌-◌,
  min, take, drop, ◌++◌,
}
use pi_to_pi.Transport.FrameCodec.{
  frame_header_bytes, FrameDecoder, FrameCodecError, Outcome, Round, leave, continue, Input, bytes,
  push, push_loop, push_bytes, push_open, round, open_body, read_body, copy_body, complete, finish,
  finish_open,
}

-- The call threw exactly what the state now holds.
abbrev pub Agrees : Outcome → Type 0
Agrees (d, ok r) = d.failure ≡ none
Agrees (d, err e) = d.failure ≡ some e

abbrev RoundAgrees : Round → Type 0
RoundAgrees (leave o) = Agrees o
RoundAgrees (continue d rest) = d.failure ≡ none

read-Agrees :
    (d : FrameDecoder) (body : Option (List ℕ)) (n : Option ℕ) (rest : List ℕ)
    → d.failure ≡ none
    → RoundAgrees (read_body d body n rest)
unfolding read_body copy_body complete
read-Agrees d (some body) (some n) rest h = ground arith
read-Agrees d (some body) none rest h = refl
read-Agrees d none n rest h = refl

open-Agrees : (d : FrameDecoder) (rest : List ℕ) → d.failure ≡ none → RoundAgrees (open_body d rest)
unfolding open_body read_body copy_body complete
open-Agrees d rest h = ground arith

round-Agrees : (d : FrameDecoder) (rest : List ℕ) → d.failure ≡ none → RoundAgrees (round d rest)
unfolding round
round-Agrees d rest h =
    let h1 = read-Agrees d d.body d.declared_length rest h in
    let n = min (frame_header_bytes - length d.header) (length rest) in
    let h2 = open-Agrees (record d { header = d.header ++ take n rest }) (drop n rest) h in
    ground (arith, h1, h2)

after_round :
    (r : Round) (k : FrameDecoder → List ℕ → Outcome)
    → RoundAgrees r
    → ((d : FrameDecoder) (rest : List ℕ) → d.failure ≡ none → Agrees (k d rest))
    → Agrees (elim r [ leave o ↦ o | continue d rest ↦ k d rest ])
after_round (leave o) k h later = h
after_round (continue d rest) k h later = later d rest h

loop-Agrees :
    (fuel : ℕ) (d : FrameDecoder) (rest : List ℕ)
    → d.failure ≡ none
    → Agrees (push_loop fuel d rest)
unfolding push_loop
loop-Agrees zero d [] h = h
loop-Agrees (suc fuel) d [] h = h
loop-Agrees zero d (x ∷ rest) h = h
loop-Agrees (suc fuel) d (x ∷ rest) h =
    after_round (round d (x ∷ rest)) (push_loop fuel) (round-Agrees d (x ∷ rest) h)
      (loop-Agrees fuel)

push-Agrees_open :
    (d : FrameDecoder) (done : Option (List ℕ)) (chunk : List ℕ)
    → d.failure ≡ none
    → Agrees (push_bytes d done chunk)
unfolding push_bytes
push-Agrees_open d (some payload) chunk h = ground arith
push-Agrees_open d none chunk h = loop-Agrees (length chunk) d chunk h

push-Agrees_from :
    (d : FrameDecoder) (e : Option FrameCodecError) (chunk : List ℕ)
    → d.failure ≡ e
    → Agrees (push_open d e (bytes chunk))
unfolding push_open
push-Agrees_from d (some e) chunk h = h
push-Agrees_from d none chunk h = push-Agrees_open d d.completed_payload chunk h

-- Every call of `push` on bytes throws exactly when the decoder is failed afterwards, and throws
-- the error that the decoder keeps.
pub push-Agrees : (d : FrameDecoder) (chunk : List ℕ) → Agrees (push d (bytes chunk))
unfolding push
push-Agrees d chunk = push-Agrees_from d d.failure chunk refl

-- Once a call of `push` on bytes has thrown, every later `push`, also of a value that is no byte
-- array, and `finish` throw the same error and leave the decoder as it is.
pub push-fails_for_good :
    (d d' : FrameDecoder) (chunk : List ℕ) (e : FrameCodecError)
    → push d (bytes chunk) ≡ (d', err e)
    → ((later : Input) → push d' later ≡ (d', err e)) × (finish d' ≡ (d', err e))
unfolding push finish push_open finish_open
push-fails_for_good d d' chunk e thrown = (λ later. rw kept, rw kept)
  where
    kept : d'.failure ≡ some e
    kept = subst Agrees thrown (push-Agrees d chunk)
