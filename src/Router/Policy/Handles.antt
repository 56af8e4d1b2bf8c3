-- ===== src/Router/Policy/Handles.antt =====
-- That the loop of src/router/policy.ts that draws a handle ends with one that is not in use.
use pi_to_pi.Prelude.{
  ℕ, zero, suc, ◌≤◌, ◌<◌, ◌≡◌, refl, sym, ap, ◌∙◌, true, false, if_elim, if◌then◌else◌, List, [],
  ◌∷◌, Text, text_eq, text_eq_iff, length, arith, Bool-cases, inl, inr,
}
use pi_to_pi.Router.Policy.{QueueEntry}
use pi_to_pi.Router.Policy.Queue.{RoutingPolicy}
use pi_to_pi.Router.Policy.Admit.{is_taken, fresh_handle, handles, new_record}

without : Text → List Text → List Text
without handle [] = []
without handle (h ∷ hs) =
    let rest = without handle hs in if text_eq h handle then rest else h ∷ rest

without-shorter :
    (handle : Text) (hs : List Text)
    → (length (without handle hs) ≤ length hs)
      × (is_taken handle hs ≡ true → length (without handle hs) < length hs)
unfolding without is_taken
without-shorter handle [] = (omega arith, λ h. absurd cc)
without-shorter handle (h ∷ hs) =
    let rest = without-shorter handle hs in (ground arith, λ t. ground arith)

taken-without :
    (handle k : Text) (hs : List Text)
    → text_eq handle k ≡ false
    → is_taken k (without handle hs) ≡ is_taken k hs
unfolding without is_taken
taken-without handle k [] other = refl
taken-without handle k (h ∷ hs) other = ground (
  arith,
  taken-without handle k hs other,
  text_eq_iff h handle,
  text_eq_iff h k,
  text_eq_iff handle k,
)

fresh-without :
    (n : ℕ) (handle : Text) (hs : List Text) (draws : ℕ → Text)
    → ((i : ℕ) → text_eq handle (draws i) ≡ false)
    → fresh_handle n (without handle hs) draws ≡ fresh_handle n hs draws
unfolding fresh_handle
fresh-without zero handle hs draws other = refl
fresh-without (suc n) handle hs draws other =
    let next : ℕ → Text = λ i. draws (suc i) in
    let rest = fresh-without n handle hs next (λ i. other (suc i)) in
    ap (λ b. if b then fresh_handle n (without handle hs) next else draws 0)
      (taken-without handle (draws 0) hs (other 0))
    ∙ ap (λ t. if is_taken (draws 0) hs then t else draws 0) rest

fresh-drawn :
    (n : ℕ) (hs : List Text) (draws : ℕ → Text) → (k : ℕ) × (fresh_handle n hs draws ≡ draws k)
unfolding fresh_handle
fresh-drawn zero hs draws = (0, refl)
fresh-drawn (suc n) hs draws =
    let (k, e) = fresh-drawn n hs (λ i. draws (suc i)) in
    if_elim (λ (t : Text). (j : ℕ) × (t ≡ draws j)) (is_taken (draws 0) hs) (λ _. (suc k, e))
      λ _. (0, refl)

-- That no handle is drawn twice.
abbrev pub Distinct : (ℕ → Text) → Type 0
Distinct draws = (i j : ℕ) → draws i ≡ draws j → i ≡ j

later-other :
    (draws : ℕ → Text) → Distinct draws → (i : ℕ) → text_eq (draws 0) (draws (suc i)) ≡ false
later-other draws distinct i = elim (Bool-cases (text_eq (draws 0) (draws (suc i)))) [
  | inl same ↦
      let e : 0 ≡ suc i = distinct 0 (suc i) ((text_eq_iff (draws 0) (draws (suc i))).0 same) in
      absurd (omega arith)
  | inr other ↦ other
]

fresh-unused :
    (n : ℕ) (hs : List Text) (draws : ℕ → Text)
    → Distinct draws
    → length hs ≤ n
    → is_taken (fresh_handle n hs draws) hs ≡ false
unfolding fresh_handle is_taken
fresh-unused zero [] draws distinct enough = refl
fresh-unused zero (h ∷ hs) draws distinct enough = absurd (omega arith)
fresh-unused (suc n) hs draws distinct enough =
    if_elim (λ t. is_taken t hs ≡ false) (is_taken (draws 0) hs)
      (λ taken.
        let next : ℕ → Text = λ i. draws (suc i) in
        let rest = without (draws 0) hs in
        let shorter = (without-shorter (draws 0) hs).1 taken in
        let unused : is_taken (fresh_handle n rest next) rest ≡ false =
          fresh-unused n rest next (λ i j e. let same = distinct (suc i) (suc j) e in omega arith)
            (omega arith) in
        let (k, drawn) = fresh-drawn n hs next in
        let same = fresh-without n (draws 0) hs next (later-other draws distinct) in
        ap (λ t. is_taken t hs) drawn
        ∙ (sym (taken-without (draws 0) (next k) hs (later-other draws distinct k))
            ∙ (ap (λ t. is_taken t rest) (sym drawn ∙ sym same) ∙ unused)))
      λ free. free

-- When no handle is drawn twice, the loop that draws handles ends within one draw more than there are
-- handles in use: the handle of the record that `admit` makes is not in use.
pub new_record-unused :
    (s : RoutingPolicy) (entry : QueueEntry) (draws : ℕ → Text)
    → Distinct draws
    → is_taken (new_record s entry draws).handle (handles s) ≡ false
unfolding new_record
new_record-unused s entry draws distinct =
    fresh-unused (length (handles s)) (handles s) draws distinct (omega arith)
