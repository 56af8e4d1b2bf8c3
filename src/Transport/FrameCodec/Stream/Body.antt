-- ===== src/Transport/FrameCodec/Stream/Body.antt =====
-- Chunks that meet the body of a frame (the second half of the `while` loop of `push`).
use native.Mathlib.Decide.{dec_lt, ℕ_discrete}
use mathlib.Core.Logic.{◌⊎◌}
use mathlib.Core.List.{append-nil}
use pi_to_pi.Prelude.{
  ℕ, zero, suc, ◌+◌, ◌-◌, ◌≤◌, ◌<◌, ◌≡◌, refl, sym, ◌∙◌, inl, inr, min, ltb, false, Bool-cases,
  some, List, [], ◌∷◌, ◌++◌, length, take, drop, length-append, length-take, length-drop,
  take-of_le, drop-of_le, take-append, take-append_le, ok, arith,
}
use pi_to_pi.Transport.FrameCodec.{
  FrameDecoder, Outcome, Round, fail, leave, continue, trailing_error, read_uint32_be, bytes, push,
  push_loop, round, read_body, copy_body, open_body, complete, push_bytes, push_open,
}
use pi_to_pi.Transport.FrameCodec.Stream.{
  waiting, partial, completed, overrun, in_body, behind_header,
}

-- The three ways in which a chunk can meet the end of the body.
module _ (d : FrameDecoder) (b c : List ℕ) (n : ℕ) where
  copy-short :
      length b + length c < n → copy_body d b n c ≡ continue (record d { body = some (b ++ c) }) []
  unfolding copy_body complete
  copy-short h =
      let e : min (n - length b) (length c) ≡ length c = omega arith in
      let t : take (length c) c ≡ c = take-of_le (length c) c (omega arith) in
      let r : drop (length c) c ≡ [] = drop-of_le (length c) c (omega arith) in
      rw (e, t, r) (ground (arith, length-append b c))

  copy-exact :
      length b + length c ≡ n
      → copy_body d b n c
        ≡ leave (
          record d { body = some (b ++ c); completed_payload = some (b ++ c) },
          ok (some (b ++ c)),
        )
  unfolding copy_body complete
  copy-exact h =
      let e : min (n - length b) (length c) ≡ length c = omega arith in
      let t : take (length c) c ≡ c = take-of_le (length c) c (omega arith) in
      let r : drop (length c) c ≡ [] = drop-of_le (length c) c (omega arith) in
      rw (e, t, r) (ground (arith, length-append b c))

  copy-long :
      length b ≤ n
      → n < length b + length c
      → let b' = take n (b ++ c) in
        let d' = record d { body = some b'; completed_payload = some b' } in
        copy_body d b n c ≡ leave (fail d' (trailing_error d'))
  unfolding copy_body complete
  copy-long k h =
      let e : min (n - length b) (length c) ≡ n - length b = omega arith in
      rw (e, take-append n b c k)
        (ground (
          arith,
          length-append b (take (n - length b) c),
          length-take (n - length b) c,
          length-drop (n - length b) c,
        ))

module _ (m : ℕ) (h : List ℕ) where
  abbrev pub declared : ℕ
  declared = read_uint32_be h

  pub behind-fits :
      (p : List ℕ) → ltb m declared ≡ false → behind_header m h p ≡ in_body m h declared p
  unfolding behind_header
  behind-fits p fits = rw fits

  -- What a round over body bytes leaves in the decoder.
  abbrev pub After : List ℕ → Round → Type 0
  After p r =
      ((r ≡ continue (partial m h p) []) × (in_body m h declared p ≡ partial m h p))
      ⊎ ((o : Outcome) × (r ≡ leave o) × (o.0 ≡ in_body m h declared p))

  copy-After :
      (b c : List ℕ)
      → length h ≡ 4
      → length b ≤ declared
      → After (b ++ c) (copy_body (partial m h b) b declared c)
  unfolding in_body
  copy-After b c four short = elim (dec_lt (length b + length c) declared) [
    | yes less ↦ inl (copy-short _ b c declared less, ground (arith, length-append b c))
    | no more ↦ elim (ℕ_discrete (length b + length c) declared) [
      | yes same ↦ inr (_, copy-exact _ b c declared same, ground (arith, length-append b c))
      | no over ↦ inr (
        _,
        copy-long _ b c declared short (omega arith),
        ground (arith, length-append b c, length-take declared (b ++ c)),
      )
    ]
  ]

  round-partial :
      (b c : List ℕ)
      → length h ≡ 4
      → round (partial m h b) c ≡ copy_body (partial m h b) b declared c
  unfolding round read_body
  round-partial b c four = ground arith

  -- The loop after a round that ended so.
  pub loop-After :
      (fuel x : ℕ) (d : FrameDecoder) (p c : List ℕ)
      → After p (round d (x ∷ c))
      → (push_loop (suc fuel) d (x ∷ c)).0 ≡ in_body m h declared p
  unfolding push_loop
  loop-After zero x d p c (inl (e, k)) = rw (e, push_loop) (sym k)
  loop-After (suc fuel) x d p c (inl (e, k)) = rw (e, push_loop) (sym k)
  loop-After fuel x d p c (inr (o, e, k)) = rw (e, push_loop) k

  loop-partial :
      (fuel : ℕ) (b c : List ℕ)
      → length h ≡ 4
      → length b < declared
      → length c ≤ fuel
      → (push_loop fuel (partial m h b) c).0 ≡ in_body m h declared (b ++ c)
  unfolding push_loop in_body
  loop-partial fuel b [] four short enough = rw append-nil (ground arith)
  loop-partial zero b (x ∷ c) four short enough = absurd (omega arith)
  loop-partial (suc fuel) b (x ∷ c) four short enough =
      loop-After fuel x _ (b ++ x ∷ c) c
        (rw (round-partial b (x ∷ c) four) (copy-After b (x ∷ c) four (omega arith)))

  pub open-After :
      (rest : List ℕ) → length h ≡ 4 → declared ≤ m → After rest (open_body (waiting m h) rest)
  unfolding open_body read_body complete in_body
  open-After rest four fits = elim (ℕ_discrete declared 0) [
    | yes empty ↦ inr (complete (partial m h []) [] rest, ground arith, ground arith)
    | no more ↦
        let e : open_body (waiting m h) rest ≡ copy_body (partial m h []) [] declared rest =
          ground arith in
        rw e (copy-After [] rest four (omega arith))
  ]

  in_body-short : (p : List ℕ) → length p < declared → in_body m h declared p ≡ partial m h p
  unfolding in_body
  in_body-short p less = ground arith

  in_body-exact : (p : List ℕ) → length p ≡ declared → in_body m h declared p ≡ completed m h p
  unfolding in_body
  in_body-exact p same = ground arith

  in_body-long :
      (p : List ℕ) → declared < length p → in_body m h declared p ≡ overrun m h (take declared p)
  unfolding in_body
  in_body-long p over = ground arith

  push-completed :
      (p c : List ℕ)
      → length p ≡ declared
      → (push (completed m h p) (bytes c)).0 ≡ in_body m h declared (p ++ c)
  unfolding push push_open push_bytes
  push-completed p [] same = rw (append-nil, in_body-exact p same)
  push-completed p (x ∷ c) same =
      let t = length-append p (x ∷ c) in
      let e : take declared (p ++ x ∷ c) ≡ p =
        take-append_le declared p (x ∷ c) (omega arith) ∙ take-of_le declared p (omega arith) in
      rw (in_body-long (p ++ x ∷ c) (omega (arith, t)), e) (ground arith)

  push-overrun :
      (p c : List ℕ)
      → declared < length p
      → (push (overrun m h (take declared p)) (bytes c)).0 ≡ in_body m h declared (p ++ c)
  unfolding push push_open
  push-overrun p c over =
      rw
        (
          in_body-long (p ++ c) (omega (arith, length-append p c)),
          take-append_le declared p c (omega arith),
        )
        refl

  push-partial :
      (p c : List ℕ)
      → length h ≡ 4
      → length p < declared
      → (push (partial m h p) (bytes c)).0 ≡ in_body m h declared (p ++ c)
  unfolding push push_open push_bytes
  push-partial p c four short = loop-partial (length c) p c four short (omega arith)

  -- A chunk pushed after the header adds to the payload's bytes.
  push-in_body :
      (p c : List ℕ)
      → length h ≡ 4
      → (push (in_body m h declared p) (bytes c)).0 ≡ in_body m h declared (p ++ c)
  push-in_body p c four = elim (dec_lt (length p) declared) [
    | yes less ↦ rw (in_body-short p less) (push-partial p c four less)
    | no more ↦ elim (ℕ_discrete (length p) declared) [
      | yes same ↦ rw (in_body-exact p same) (push-completed p c same)
      | no over ↦ rw (in_body-long p (omega arith)) (push-overrun p c (omega arith))
    ]
  ]

  pub push-behind_header :
      (p c : List ℕ)
      → length h ≡ 4
      → (push (behind_header m h p) (bytes c)).0 ≡ behind_header m h (p ++ c)
  push-behind_header p c four = elim (Bool-cases (ltb m declared)) [
    | inl big ↦ unfold behind_header push push_open in rw big refl
    | inr fits ↦ rw (behind-fits p fits, behind-fits (p ++ c) fits) (push-in_body p c four)
  ]
