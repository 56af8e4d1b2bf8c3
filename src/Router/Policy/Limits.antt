-- ===== src/Router/Policy/Limits.antt =====
-- The capacities that the constructor in src/router/policy.ts accepts.
use pi_to_pi.Prelude.{
  ℕ, ◌≤◌, ◌≡◌, refl, ap, sym, ◌∙◌, subst, ==_iff, true, false, not, any, Option, none, some, List,
  [], ◌∷◌, pos, negsuc, Num, nan, infinity, minus_infinity, int, between, ok, err, ◌>>=◌, All,
  arith, Bool-cases, inl, inr,
}
use pi_to_pi.Router.Policy.{
  RangeError, RoutingPolicyOptions, num_eq, given, agreed, resolve_configured_capacity,
  validate_capacity, validate_or, resolve_queue_capacity, resolve_active_capacity,
}

-- The option is not given, or is the number `n`.
abbrev pub Allows : ℕ → Option Num → Type 0
Allows n none = Unit
Allows n (some value) = value ≡ int (pos n)

validate_capacity-returns :
    (value : Num) (n : ℕ)
    → validate_capacity value ≡ ok n
    → (value ≡ int (pos n)) × ((1 ≤ n) × (n ≤ 32))
unfolding validate_capacity
validate_capacity-returns (int (pos m)) n h = ground arith
validate_capacity-returns (int (negsuc m)) n h = absurd cc
validate_capacity-returns (between m) n h = absurd cc
validate_capacity-returns nan n h = absurd cc
validate_capacity-returns infinity n h = absurd cc
validate_capacity-returns minus_infinity n h = absurd cc

num_eq-int : (value : Num) (n : ℕ) → num_eq value (int (pos n)) ≡ true → value ≡ int (pos n)
num_eq-int (int (pos m)) n h = ap (λ k. int (pos k)) ((==_iff m n).0 h)
num_eq-int (int (negsuc m)) n h = absurd cc
num_eq-int (between m) n h = absurd cc
num_eq-int nan n h = absurd cc
num_eq-int infinity n h = absurd cc
num_eq-int minus_infinity n h = absurd cc

-- No given value differs.
All-Allows :
    (n : ℕ) (values : List (Option Num))
    → any (λ value. not (num_eq value (int (pos n)))) (given values) ≡ false
    → All (Allows n) values
All-Allows n [] h = tt
All-Allows n (none ∷ values) h = (tt, All-Allows n values h)
All-Allows n (some value ∷ values) h =
    (num_eq-int value n (ground arith), All-Allows n values (ground arith))

err-ok : (n : ℕ) → err RangeError.range_error ≡ ok n → ⊥
err-ok n e = cc

agreed-differs :
    (v : Num) (vs : List Num)
    → any (λ value. not (num_eq value v)) (v ∷ vs) ≡ true
    → (fallback : ℕ) → (agreed (v ∷ vs) >>= validate_or fallback) ≡ err RangeError.range_error
unfolding agreed
agreed-differs v vs h fallback = rw h refl

agreed-same :
    (v : Num) (vs : List Num)
    → any (λ value. not (num_eq value v)) (v ∷ vs) ≡ false
    → (fallback : ℕ) → (agreed (v ∷ vs) >>= validate_or fallback) ≡ validate_capacity v
unfolding agreed validate_or
agreed-same v vs h fallback = rw h refl

resolve-returns :
    (fallback : ℕ) (values : List (Option Num)) (n : ℕ)
    → (resolve_configured_capacity values >>= validate_or fallback) ≡ ok n
    → All (Allows n) values × ((1 ≤ n) × (n ≤ 32))
unfolding resolve_configured_capacity
resolve-returns fallback values n h = go (given values) refl h
  where
    go :
        (vs : List Num)
        → given values ≡ vs
        → (agreed vs >>= validate_or fallback) ≡ ok n
        → All (Allows n) values × ((1 ≤ n) × (n ≤ 32))
    go [] e h =
        let found =
          validate_capacity-returns (int (pos fallback)) n (unfold agreed validate_or in h) in
        (All-Allows n values (ap (any (λ value. not (num_eq value (int (pos n))))) e), found.1)
    go (v ∷ vs) e h = elim (Bool-cases (any (λ value. not (num_eq value v)) (v ∷ vs))) [
      | inl differs ↦ absurd (err-ok n (sym (agreed-differs v vs differs fallback) ∙ h))
      | inr same ↦
          let found = validate_capacity-returns v n (sym (agreed-same v vs same fallback) ∙ h) in
          let alike = ap (any (λ value. not (num_eq value (int (pos n))))) e in
          (
            All-Allows n values (
                alike
                ∙ subst (λ (w : Num). any (λ value. not (num_eq value w)) (v ∷ vs) ≡ false) found.0
                    same),
            found.1,
          )
    ]

-- The queue capacity that the constructor accepts is from 1 to 32, and equals each of the four options
-- that is given.
pub resolve_queue_capacity-bounds :
    (o : RoutingPolicyOptions) (n : ℕ)
    → resolve_queue_capacity o ≡ ok n
    → All (Allows n) (o.capacity ∷ o.queue_capacity ∷ o.max_queue_entries ∷ o.limit ∷ [])
      × ((1 ≤ n) × (n ≤ 32))
unfolding resolve_queue_capacity
resolve_queue_capacity-bounds o n h = resolve-returns _ _ n h

-- The active capacity that the constructor accepts is from 1 to 32, and equals both options that give it,
-- whatever the queue capacity.
pub resolve_active_capacity-bounds :
    (o : RoutingPolicyOptions) (queue_capacity n : ℕ)
    → resolve_active_capacity o queue_capacity ≡ ok n
    → All (Allows n) (o.active_capacity ∷ o.max_active_entries ∷ []) × ((1 ≤ n) × (n ≤ 32))
unfolding resolve_active_capacity
resolve_active_capacity-bounds o queue_capacity n h = resolve-returns _ _ n h
