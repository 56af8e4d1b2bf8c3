-- ===== src/Transport/FrameCodec/Stream/Header.antt =====
-- Chunks that meet the header of a frame (the first half of the `while` loop of `push`).
use pi_to_pi.Prelude.{
  ℕ, suc, ◌+◌, ◌-◌, ◌≤◌, ◌<◌, ◌≡◌, refl, ◌∙◌, inl, inr, min, ltb, Bool-cases, none, List, ◌∷◌, ◌++◌,
  length, take, drop, length-append, length-take, take-of_le, take-append, drop-append, ok, err,
  arith, ltb→lt,
}
use pi_to_pi.Transport.FrameCodec.{
  Outcome, leave, oversized_error, read_uint32_be, push_loop, round, open_body,
}
use pi_to_pi.Transport.FrameCodec.Stream.{waiting, refused, behind_header}
use pi_to_pi.Transport.FrameCodec.Stream.Body.{behind-fits, open-After, loop-After}

-- While the header is short, bytes go to it.
module _ (m : ℕ) where
  round-waiting_short :
      (bs c : List ℕ)
      → length bs + length c < 4
      → round (waiting m bs) c ≡ leave (waiting m (bs ++ c), ok none)
  unfolding round
  round-waiting_short bs c short =
      let e : min (4 - length bs) (length c) ≡ length c = omega arith in
      let t : take (length c) c ≡ c = take-of_le (length c) c (omega arith) in
      rw (e, t) (ground (arith, length-append bs c))

  round-waiting_full :
      (bs c : List ℕ)
      → length bs < 4
      → 4 ≤ length bs + length c
      → round (waiting m bs) c ≡ open_body (waiting m (take 4 (bs ++ c))) (drop 4 (bs ++ c))
  unfolding round
  round-waiting_full bs c short full =
      let e : min (4 - length bs) (length c) ≡ 4 - length bs = omega arith in
      rw (e, take-append 4 bs c (omega arith), drop-append 4 bs c (omega arith))
        (ground (arith, length-append bs (take (4 - length bs) c), length-take (4 - length bs) c))

  open-refused :
      (h rest : List ℕ)
      → m < read_uint32_be h
      → (o : Outcome) × (open_body (waiting m h) rest ≡ leave o) × (o.0 ≡ refused m h)
  unfolding open_body
  open-refused h rest big =
      ((refused m h, err (oversized_error (read_uint32_be h) m)), ground arith, refl)

  -- The chunk that completes the header.
  pub loop-opening :
      (fuel x : ℕ) (bs c : List ℕ)
      → length bs < 4
      → 4 ≤ length bs + length (x ∷ c)
      → (push_loop (suc fuel) (waiting m bs) (x ∷ c)).0
        ≡ behind_header m (take 4 (bs ++ x ∷ c)) (drop 4 (bs ++ x ∷ c))
  unfolding push_loop behind_header
  loop-opening fuel x bs c short full = elim (Bool-cases (ltb m (read_uint32_be h))) [
    | inl big ↦
        let (o, e, k) = open-refused h rest (ltb→lt _ _ big) in
        rw (round-waiting_full bs (x ∷ c) short full ∙ e, push_loop)
          (unfold behind_header in rw (big, k))
    | inr fits ↦ rw (behind-fits m h rest fits) (
        loop-After m h fuel x (waiting m bs) rest c
          (rw (round-waiting_full bs (x ∷ c) short full) (open-After m h rest four (ground arith))))
  ]
    where
      h : List ℕ
      h = take 4 (bs ++ x ∷ c)

      rest : List ℕ
      rest = drop 4 (bs ++ x ∷ c)

      four : length h ≡ 4
      four = omega (arith, length-take 4 (bs ++ x ∷ c), length-append bs (x ∷ c))

  -- A chunk that leaves the header short.
  pub loop-short :
      (fuel x : ℕ) (bs c : List ℕ)
      → length bs + length (x ∷ c) < 4
      → (push_loop (suc fuel) (waiting m bs) (x ∷ c)).0 ≡ waiting m (bs ++ x ∷ c)
  unfolding push_loop
  loop-short fuel x bs c short = rw (round-waiting_short bs (x ∷ c) short, push_loop) refl
