-- ===== src/Room.antt =====
-- src/room.ts: the normalisation of project labels, which are also the names of agents. Texts are lists
-- of code points here, as the loop of the source reads them. The engine's `normalize('NFKC')` with
-- `toLowerCase()` and its classes of letters, numbers and control characters are parameters.
pub mod Label
pub mod Canonical
mod Tests
use pi_to_pi.Prelude.{
  ℕ, ◌==◌, ltb, if◌then◌else◌, Bool, true, false, not, ◌&&◌, ◌||◌, any, List, [], ◌∷◌, ◌++◌, take,
  reverse, Result, ok, err, length,
}

pub data InvalidProjectLabelError : Type 0 where
  not_unicode has_control is_empty : InvalidProjectLabelError

abbrev pub max_project_label_code_points : ℕ
max_project_label_code_points = 48

abbrev pub hyphen : ℕ
hyphen = 45

-- What the engine knows of characters. The folding may throw.
pub record Unicode : Type 0 where
  pub fold : List ℕ → Result InvalidProjectLabelError (List ℕ)
  pub is_control : ℕ → Bool
  pub is_kept : ℕ → Bool

module _ (unicode : Unicode) where
  -- The loop over the code points, with `output` non-empty or not and `pendingSeparator`. What it
  -- returns is what the rest of the loop pushes.
  unfoldable pub separate : Bool → Bool → List ℕ → List ℕ
  separate started pending [] = []
  separate started pending (c ∷ cs) =
      let kept = c ∷ separate true false cs in
      let skipped = separate started (if started then true else pending) cs in
      if unicode.is_kept c then (if pending && started then hyphen ∷ kept else kept) else skipped

  -- `while (bounded.at(-1) === '-') bounded.pop()`
  unfoldable pub strip_end : List ℕ → List ℕ
  strip_end [] = []
  strip_end (c ∷ cs) =
      let rest = strip_end cs in if c == hyphen && length rest == 0 then [] else c ∷ rest

  unfoldable pub bounded_label : List ℕ → Result InvalidProjectLabelError (List ℕ)
  bounded_label normalized =
      let bounded =
        strip_end (take max_project_label_code_points (separate false false normalized)) in
      if length bounded == 0 then err is_empty else ok bounded

  unfoldable pub label_of_folded :
      List ℕ → Result InvalidProjectLabelError (List ℕ) → Result InvalidProjectLabelError (List ℕ)
  label_of_folded value (err e) = err e
  label_of_folded value (ok normalized) =
      if any unicode.is_control value || any unicode.is_control normalized
      then err has_control
      else bounded_label normalized

  unfoldable pub normalize_project_label : List ℕ → Result InvalidProjectLabelError (List ℕ)
  normalize_project_label value = label_of_folded value (unicode.fold value)
