-- ===== src/Room/Label.antt =====
-- What the normalisation of src/room.ts makes of a project label.
use pi_to_pi.Prelude.{
  ℕ, zero, suc, ◌==◌, ◌≤◌, ◌≡◌, ◌⊎◌, inl, inr, refl, if◌then◌else◌, if_elim, Bool, true, false,
  ◌&&◌, ◌||◌, any, List, [], ◌∷◌, subst, take, length, length-take, Result, ok, err, Ensures,
  returns, throws, arith, ap, sym, ==_iff,
}
use pi_to_pi.Room.{
  Unicode, InvalidProjectLabelError, hyphen, max_project_label_code_points, separate, strip_end,
  bounded_label, label_of_folded, normalize_project_label,
}

module _ (unicode : Unicode) where
  -- Letters and numbers with single hyphens between them, after a place where a hyphen may or may not
  -- stand. A list that is joined ends with a letter or number.
  abbrev pub Joined : Bool → List ℕ → Type 0
  Joined may [] = may ≡ true
  Joined may (c ∷ cs) =
      ((unicode.is_kept c ≡ true) × Joined true cs)
      ⊎ ((c ≡ hyphen) × ((may ≡ true) × Joined false cs))

  -- The same, which may end anywhere.
  abbrev Open : Bool → List ℕ → Type 0
  Open may [] = Unit
  Open may (c ∷ cs) =
      ((unicode.is_kept c ≡ true) × Open true cs) ⊎ ((c ≡ hyphen) × ((may ≡ true) × Open false cs))

  separate-Open :
      (started pending : Bool) (cs : List ℕ) → Open started (separate unicode started pending cs)
  unfolding separate
  separate-Open started pending [] = tt
  separate-Open started pending (c ∷ cs) =
      let rest = separate-Open true false cs in
      if_elim (Open started) (unicode.is_kept c)
        (λ kept.
          if_elim (Open started) (pending && started)
            (λ both. inr (refl, (ground arith, inl (kept, rest)))) λ _. inl (kept, rest))
        λ _. separate-Open started (if started then true else pending) cs

  take-Open : (n : ℕ) (may : Bool) (cs : List ℕ) → Open may cs → Open may (take n cs)
  take-Open zero may cs h = tt
  take-Open (suc n) may [] h = tt
  take-Open (suc n) may (c ∷ cs) (inl (kept, h)) = inl (kept, take-Open n true cs h)
  take-Open (suc n) may (c ∷ cs) (inr (e, (allowed, h))) =
      inr (e, (allowed, take-Open n false cs h))

  abbrev Ends : Bool → List ℕ → Type 0
  Ends may cs = (cs ≡ []) ⊎ Joined may cs

  of_kept :
      (may : Bool) (c : ℕ) (rest : List ℕ)
      → unicode.is_kept c ≡ true
      → Ends true rest
      → Ends may (if c == hyphen && length rest == 0 then [] else c ∷ rest)
  of_kept may c rest kept h =
      if_elim (Ends may) (c == hyphen && length rest == 0) (λ _. inl refl)
        λ _. elim h [
          | inl e ↦ inr (inl (kept, subst (Joined true) (sym e) refl))
          | inr j ↦ inr (inl (kept, j))
        ]

  of_hyphen :
      (may : Bool) (c : ℕ) (rest : List ℕ)
      → c ≡ hyphen
      → may ≡ true
      → Ends false rest
      → Ends may (if c == hyphen && length rest == 0 then [] else c ∷ rest)
  of_hyphen may c rest e allowed h =
      if_elim (Ends may) (c == hyphen && length rest == 0) (λ _. inl refl)
        λ some_left. elim h [
          | inl none_left ↦
              let zero_left : length rest ≡ 0 = ap length none_left in
              absurd (ground (arith, ==_iff c hyphen, ==_iff (length rest) 0))
          | inr j ↦ inr (inr (e, (allowed, j)))
        ]

  strip-Ends : (may : Bool) (cs : List ℕ) → Open may cs → Ends may (strip_end unicode cs)
  unfolding strip_end
  strip-Ends may [] h = inl refl
  strip-Ends may (c ∷ cs) (inl (kept, h)) =
      of_kept may c (strip_end unicode cs) kept (strip-Ends true cs h)
  strip-Ends may (c ∷ cs) (inr (e, (allowed, h))) =
      of_hyphen may c (strip_end unicode cs) e allowed (strip-Ends false cs h)

  strip-shorter : (cs : List ℕ) → length (strip_end unicode cs) ≤ length cs
  unfolding strip_end
  strip-shorter [] = omega arith
  strip-shorter (c ∷ cs) = ground (arith, strip-shorter cs)

  -- A label: not empty, at most 48 code points, letters and numbers with single hyphens between them.
  abbrev pub IsLabel : List ℕ → Type 0
  IsLabel label = (length label ≤ max_project_label_code_points) × Joined false label

  bounded-IsLabel : (normalized : List ℕ) → Ensures IsLabel (bounded_label unicode normalized)
  unfolding bounded_label
  bounded-IsLabel normalized =
      let shown = separate unicode false false normalized in
      let short = take max_project_label_code_points shown in
      let label = strip_end unicode short in
      let ends = strip-Ends false short (
        take-Open max_project_label_code_points false shown
          (separate-Open false false normalized)) in
      if_elim (Ensures IsLabel) (length label == 0) (λ _. throws)
        λ some_left. returns (
          omega (arith, strip-shorter short, length-take max_project_label_code_points shown),
          elim ends [
            | inl e ↦
                let zero_left : length label ≡ 0 = ap length e in
                absurd (ground (arith, ==_iff (length label) 0))
            | inr j ↦ j
          ],
        )

  folded-IsLabel :
      (value : List ℕ) (folded : Result InvalidProjectLabelError (List ℕ))
      → Ensures IsLabel (label_of_folded unicode value folded)
  unfolding label_of_folded
  folded-IsLabel value (err e) = throws
  folded-IsLabel value (ok normalized) =
      if_elim (Ensures IsLabel) (any unicode.is_control value || any unicode.is_control normalized)
        (λ _. throws) λ _. bounded-IsLabel normalized

  -- Whatever the text, what `normalizeProjectLabel` returns, if it does not throw, is not empty, has at
  -- most 48 code points, and consists of letters and numbers with single hyphens between them, none
  -- at either end.
  pub normalize_project_label-IsLabel :
      (value : List ℕ) → Ensures IsLabel (normalize_project_label unicode value)
  unfolding normalize_project_label
  normalize_project_label-IsLabel value = folded-IsLabel value (unicode.fold value)
