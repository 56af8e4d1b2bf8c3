-- ===== src/Protocol/Errors/Message.antt =====
-- `boundedMessage` of src/protocol/errors.ts.
use mathlib.Core.List.{reverse-append, reverse-reverse, reverse-cons}
use pi_to_pi.Prelude.{
  ℕ, ◌≤◌, ◌≡◌, refl, false, Bool-cases, inl, inr, leb, ◌==◌, if◌then◌else◌, [], ◌∷◌, ◌++◌, map,
  reverse, length, take, All, All-append, All-take, length-append, length-take, Text, codes, arith,
  any, leb→le, le→leb,
}
use pi_to_pi.Protocol.Errors.{
  is_white_space, is_control, blank_control, trim_start, trim, bounded_message, max_message_length,
  ellipsis,
}

-- The first unit, if any, is no white space.
abbrev StartsOk : Text → Type 0
StartsOk [] = Unit
StartsOk (c ∷ s) = is_white_space c ≡ false

-- What an error message may be.
pub record IsBounded (s : Text) : Type 0 where
  pub not_empty : 1 ≤ length s
  pub short : length s ≤ max_message_length
  pub no_control : All (λ c. is_control c ≡ false) s
  pub starts : StartsOk s
  pub ends : StartsOk (reverse s)

module _ (P : ℕ → Type 0) where
  trim_start-All : (s : Text) → All P s → All P (trim_start s)
  unfolding trim_start
  trim_start-All [] h = tt
  trim_start-All (c ∷ s) h = elim (Bool-cases (is_white_space c)) [
    | inl white ↦ rw white (trim_start-All s h.1)
    | inr dark ↦ rw dark h
  ]

  reverse-All : (s : Text) → All P s → All P (reverse s)
  reverse-All [] h = tt
  reverse-All (c ∷ s) h =
      rw (reverse-cons c s) (All-append P (reverse s) (c ∷ []) (reverse-All s h.1) (h.0, tt))

trim_start-StartsOk : (s : Text) → StartsOk (trim_start s)
unfolding trim_start
trim_start-StartsOk [] = tt
trim_start-StartsOk (c ∷ s) = elim (Bool-cases (is_white_space c)) [
  | inl white ↦ rw white (trim_start-StartsOk s)
  | inr dark ↦ rw dark dark
]

trim_start_self : (s : Text) → StartsOk s → trim_start s ≡ s
unfolding trim_start
trim_start_self [] h = refl
trim_start_self (c ∷ s) h = rw h

trim_start-concat :
    (s : Text) (c : ℕ)
    → is_white_space c ≡ false
    → trim_start (s ++ c ∷ []) ≡ trim_start s ++ c ∷ []
unfolding trim_start
trim_start-concat [] c h = rw h
trim_start-concat (d ∷ s) c h = elim (Bool-cases (is_white_space d)) [
  | inl white ↦ rw white (trim_start-concat s c h)
  | inr dark ↦ rw dark
]

trim_self : (s : Text) → StartsOk s → StartsOk (reverse s) → trim s ≡ s
unfolding trim
trim_self s h k = rw (trim_start_self s h, trim_start_self (reverse s) k) (reverse-reverse s)

trim-ends : (s : Text) → StartsOk (reverse (trim s))
unfolding trim
trim-ends s =
    rw (reverse-reverse (trim_start (reverse (trim_start s))))
      (trim_start-StartsOk (reverse (trim_start s)))

trim_end-StartsOk : (s : Text) → StartsOk s → StartsOk (reverse (trim_start (reverse s)))
trim_end-StartsOk [] h = unfold trim_start in tt
trim_end-StartsOk (c ∷ s) h =
    rw
      (
        reverse-cons c s,
        trim_start-concat (reverse s) c h,
        reverse-append (trim_start (reverse s)) (c ∷ []),
      )
      h

trim-starts : (s : Text) → StartsOk (trim s)
unfolding trim
trim-starts s = trim_end-StartsOk (trim_start s) (trim_start-StartsOk s)

trim-All : (P : ℕ → Type 0) (s : Text) → All P s → All P (trim s)
unfolding trim
trim-All P s h = reverse-All P _ (trim_start-All P _ (reverse-All P _ (trim_start-All P s h)))

blank_control-plain : (c : ℕ) → is_control (blank_control c) ≡ false
blank_control-plain c = ground arith

map-blank_control-All : (s : Text) → All (λ c. is_control c ≡ false) (map blank_control s)
map-blank_control-All [] = tt
map-blank_control-All (c ∷ s) = (blank_control-plain c, map-blank_control-All s)

map-blank_control_self : (s : Text) → All (λ c. is_control c ≡ false) s → map blank_control s ≡ s
map-blank_control_self [] h = refl
map-blank_control_self (c ∷ s) (h, k) = rw (h, map-blank_control_self s k)

-- A message before the bound on its length.
record IsSafeText (s : Text) : Type 0 where
  some_unit : 1 ≤ length s
  plain : All (λ c. is_control c ≡ false) s
  first_ok : StartsOk s
  last_ok : StartsOk (reverse s)

All-of_none_control : (s : Text) → any is_control s ≡ false → All (λ c. is_control c ≡ false) s
All-of_none_control [] h = tt
All-of_none_control (c ∷ s) h = (ground arith, All-of_none_control s (ground arith))

fallback-IsSafeText : IsSafeText (codes "protocol error")
fallback-IsSafeText = record {
  some_unit = omega arith;
  plain = All-of_none_control (codes "protocol error") refl;
  first_ok = refl;
  last_ok = refl;
}

safe_text : Text → Text
safe_text n = if length n == 0 then codes "protocol error" else n

safe_text-IsSafeText : (s : Text) → IsSafeText (safe_text (trim (map blank_control s)))
unfolding safe_text
safe_text-IsSafeText s = elim (Bool-cases (length n == 0)) [
  | inl empty ↦ rw empty fallback-IsSafeText
  | inr full ↦ rw full (record {
    some_unit = ground arith;
    plain = trim-All _ (map blank_control s) (map-blank_control-All s);
    first_ok = trim-starts (map blank_control s);
    last_ok = trim-ends (map blank_control s);
  })
]
  where
    n : Text
    n = trim (map blank_control s)

cut : Text → Text
cut s = if leb (length s) max_message_length then s else take 511 s ++ ellipsis ∷ []

cut_starts : (s : Text) → 1 ≤ length s → StartsOk s → StartsOk (take 511 s ++ ellipsis ∷ [])
cut_starts [] h k = absurd (omega arith)
cut_starts (c ∷ s) h k = k

cut-IsBounded : (s : Text) → IsSafeText s → IsBounded (cut s)
unfolding cut
cut-IsBounded s h = elim (Bool-cases (leb (length s) max_message_length)) [
  | inl fits ↦ rw fits (record {
    not_empty = h.some_unit;
    short = leb→le _ _ fits;
    no_control = h.plain;
    starts = h.first_ok;
    ends = h.last_ok;
  })
  | inr long ↦ rw long (record {
    not_empty = omega (arith, length-append (take 511 s) (ellipsis ∷ []));
    short = omega (arith, length-append (take 511 s) (ellipsis ∷ []), length-take 511 s);
    no_control = All-append _ (take 511 s) (ellipsis ∷ []) (All-take _ 511 s h.plain) (refl, tt);
    starts = cut_starts s h.some_unit h.first_ok;
    ends = rw (reverse-append (take 511 s) (ellipsis ∷ [])) refl;
  })
]

-- Every error message comes out non-empty, at most 512 units long, without control
-- characters, and with no white space at either end.
pub bounded_message-IsBounded : (s : Text) → IsBounded (bounded_message s)
unfolding bounded_message safe_text cut
bounded_message-IsBounded s = cut-IsBounded _ (safe_text-IsSafeText s)

IsBounded-fixed : (s : Text) → IsBounded s → bounded_message s ≡ s
unfolding bounded_message
IsBounded-fixed s h =
    let some_units : (length s == 0) ≡ false = ground arith in
    rw (
      map-blank_control_self s h.no_control,
      trim_self s h.starts h.ends,
      some_units,
      le→leb _ _ h.short,
    )

-- Bounding a message that is already bounded changes nothing.
pub bounded_message_idem : (s : Text) → bounded_message (bounded_message s) ≡ bounded_message s
bounded_message_idem s = IsBounded-fixed (bounded_message s) (bounded_message-IsBounded s)
