-- ===== src/Room/Canonical.antt =====
-- That src/room.ts leaves a project label alone.
use pi_to_pi.Prelude.{
  Ensures, of_returns, ◌↔◌, ℕ, ◌==◌, ==_iff, ◌≡◌, inl, inr, refl, if◌then◌else◌, Bool, true, false,
  ◌&&◌, any, List, [], ◌∷◌, take, length, Result, ok, err, Bool-cases, arith, ap, sym, ◌∙◌,
  take-of_le, subst,
}
use pi_to_pi.Room.{
  Unicode, InvalidProjectLabelError, is_empty, hyphen, max_project_label_code_points, separate,
  strip_end, bounded_label, label_of_folded, normalize_project_label,
}
use pi_to_pi.Room.Label.{Joined, IsLabel, normalize_project_label-IsLabel}

abbrev unless_empty : List ℕ → Result InvalidProjectLabelError (List ℕ)
unless_empty label = if length label == 0 then err is_empty else ok label

module _ (unicode : Unicode) (apart : unicode.is_kept hyphen ≡ false) where
  kept-other : (c : ℕ) → unicode.is_kept c ≡ true → (c == hyphen) ≡ false
  kept-other c kept = elim (Bool-cases (c == hyphen)) [
    | inl same ↦
        let k : unicode.is_kept hyphen ≡ true =
          subst (λ d. unicode.is_kept d ≡ true) ((==_iff c hyphen).0 same) kept in
        absurd cc
    | inr other ↦ other
  ]

  not_kept : (c : ℕ) → c ≡ hyphen → unicode.is_kept c ≡ false
  not_kept c e = subst (λ d. unicode.is_kept d ≡ false) (sym e) apart

  separate-Joined :
      (started : Bool) (cs : List ℕ)
      → Joined unicode started cs
      → separate unicode started false cs ≡ cs
  unfolding separate
  separate-Joined started [] h = refl
  separate-Joined started (c ∷ cs) (inl (kept, j)) =
      rw kept (ap (◌∷◌ c) (separate-Joined true cs j))
  separate-Joined started (c ∷ []) (inr (e, (allowed, j))) = absurd cc
  separate-Joined started (c ∷ d ∷ cs) (inr (e, (allowed, inr (e', (never, j))))) = absurd cc
  separate-Joined false (c ∷ d ∷ cs) (inr (e, (allowed, inl (kept, j)))) = absurd cc
  separate-Joined true (c ∷ d ∷ cs) (inr (e, (allowed, inl (kept, j)))) =
      rw (not_kept c e, kept)
        (ap (λ ds. hyphen ∷ d ∷ ds) (separate-Joined true cs j) ∙ ap (λ x. x ∷ d ∷ cs) (sym e))

  left_over :
      (c d : ℕ) (cs : List ℕ)
      → (if c == hyphen && length (d ∷ cs) == 0 then [] else c ∷ d ∷ cs) ≡ c ∷ d ∷ cs
  left_over c d cs = ground arith

  strip-Joined : (may : Bool) (cs : List ℕ) → Joined unicode may cs → strip_end unicode cs ≡ cs
  unfolding strip_end
  strip-Joined may [] h = refl
  strip-Joined may (c ∷ cs) (inl (kept, j)) =
      rw (kept-other c kept) (ap (◌∷◌ c) (strip-Joined true cs j))
  strip-Joined may (c ∷ []) (inr (e, (allowed, j))) = absurd cc
  strip-Joined may (c ∷ d ∷ cs) (inr (e, (allowed, j))) =
      ap (λ (rest : List ℕ). if c == hyphen && length rest == 0 then [] else c ∷ rest)
        (strip-Joined false (d ∷ cs) j)
      ∙ left_over c d cs

  of_nonempty :
      (label : List ℕ)
      → Joined unicode false label
      → (if length label == 0 then err is_empty else ok label) ≡ ok label
  of_nonempty [] h = absurd cc
  of_nonempty (c ∷ cs) h = ground arith

  bounded-keeps : (label : List ℕ) → IsLabel unicode label → bounded_label unicode label ≡ ok label
  unfolding bounded_label
  bounded-keeps label (short, joined) =
      let strip = strip_end unicode in
      let same : strip (take max_project_label_code_points (separate unicode false false label))
          ≡ label =
        ap (λ cs. strip (take max_project_label_code_points cs))
          (separate-Joined false label joined)
        ∙ (ap strip (take-of_le max_project_label_code_points label short)
            ∙ strip-Joined false label joined) in
      ap unless_empty same ∙ of_nonempty label joined

  module _ (clear : unicode.is_control hyphen ≡ false)
      (disjoint : (c : ℕ) → unicode.is_kept c ≡ true → unicode.is_control c ≡ false) where
    Joined-clear :
        (may : Bool) (cs : List ℕ) → Joined unicode may cs → any unicode.is_control cs ≡ false
    Joined-clear may [] h = refl
    Joined-clear may (c ∷ cs) (inl (kept, j)) =
        let a = disjoint c kept in let b = Joined-clear true cs j in rw (a, b) refl
    Joined-clear may (c ∷ cs) (inr (e, (allowed, j))) =
        let a : unicode.is_control c ≡ false =
          subst (λ d. unicode.is_control d ≡ false) (sym e) clear in
        let b = Joined-clear false cs j in rw (a, b) refl

    label-kept :
        (text : List ℕ)
        → unicode.fold text ≡ ok text
        → IsLabel unicode text
        → normalize_project_label unicode text ≡ ok text
    unfolding normalize_project_label label_of_folded
    label-kept text folded is_label =
        let no_control = Joined-clear false text is_label.1 in
        rw (folded, no_control) (bounded-keeps text is_label)

    -- Of the texts that the engine's folding leaves alone, `normalizeProjectLabel` returns exactly the labels
    -- as they are: those that are not empty, have at most 48 code points, and consist of letters and
    -- numbers with single hyphens between them, none at either end. The hyphen is neither a letter, a
    -- number nor a control character, and no letter or number is a control character.
    pub normalize_project_label-keeps_iff :
        (text : List ℕ)
        → unicode.fold text ≡ ok text
        → (normalize_project_label unicode text ≡ ok text) ↔ IsLabel unicode text
    normalize_project_label-keeps_iff text folded = (
      (λ e.
          of_returns
            (subst (Ensures (IsLabel unicode)) e (normalize_project_label-IsLabel unicode text))),
      label-kept text folded,
    )
