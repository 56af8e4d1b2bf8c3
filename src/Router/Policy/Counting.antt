-- ===== src/Router/Policy/Counting.antt =====
-- How often a record of src/router/policy.ts is held, and how often onExpired may yet be told of it.
use pi_to_pi.Prelude.{
  ℕ, ◌+◌, ◌≤◌, ◌≡◌, inl, inr, refl, ap, subst, Bool, false, not, ◌&&◌, List, [], ◌∷◌, ◌++◌, arith,
  ◌==◌, ==_iff, ==_self, if◌then◌else◌,
}
use pi_to_pi.Router.Policy.{QueueRecord}
use pi_to_pi.Router.Policy.Queue.{
  Readings, mark_expired, notify_expired, has_token, delete_token, change_token, sweep_queue,
  due_queue, mark_due, due_active,
}
use pi_to_pi.Router.Policy.Steps.{Held, stopping}

abbrev pub one_if : Bool → ℕ
one_if b = if b then 1 else 0

-- The records with a token.
unfoldable pub count : ℕ → List QueueRecord → ℕ
count t [] = 0
count t (r ∷ rs) = one_if (r.token == t) + count t rs

-- Those among them that onExpired has not been told of.
unfoldable pub pending : ℕ → List QueueRecord → ℕ
pending t [] = 0
pending t (r ∷ rs) = one_if (r.token == t && not r.expiry_notified) + pending t rs

-- How often onExpired has been told of a record.
unfoldable pub told : ℕ → List ℕ → ℕ
told t [] = 0
told t (n ∷ ns) = one_if (n == t) + told t ns

pub count-append : (t : ℕ) (rs ss : List QueueRecord) → count t (rs ++ ss) ≡ count t rs + count t ss
unfolding count
count-append t [] ss = omega arith
count-append t (r ∷ rs) ss = omega (arith, count-append t rs ss)

pub pending-append :
    (t : ℕ) (rs ss : List QueueRecord) → pending t (rs ++ ss) ≡ pending t rs + pending t ss
unfolding pending
pending-append t [] ss = omega arith
pending-append t (r ∷ rs) ss = omega (arith, pending-append t rs ss)

told-append : (t : ℕ) (ns ms : List ℕ) → told t (ns ++ ms) ≡ told t ns + told t ms
unfolding told
told-append t [] ms = omega arith
told-append t (n ∷ ns) ms = omega (arith, told-append t ns ms)

pub told-notify :
    (t : ℕ) (rs : List QueueRecord) (ns : List ℕ)
    → told t (notify_expired rs ns) ≡ told t ns + pending t rs
unfolding told notify_expired pending
told-notify t [] ns = omega arith
told-notify t (r ∷ rs) ns = ground (
  arith,
  told-notify t rs ns,
  told-notify t rs (ns ++ r.token ∷ []),
  told-append t ns (r.token ∷ []),
)

pub sweep-count :
    (t : ℕ) (w : Readings) (now : ℕ) (rs : List QueueRecord)
    → count t (sweep_queue w now rs) ≤ count t rs
unfolding count sweep_queue
sweep-count t w now [] = omega arith
sweep-count t w now (r ∷ rs) = ground (arith, sweep-count t w now rs)

-- What leaves the queue because it is due is told at most as often as it is pending.
pub sweep-pending :
    (t : ℕ) (w : Readings) (now : ℕ) (rs : List QueueRecord)
    → pending t (sweep_queue w now rs) + pending t (due_queue now rs) ≤ pending t rs
unfolding pending sweep_queue due_queue
sweep-pending t w now [] = omega arith
sweep-pending t w now (r ∷ rs) =
    ground (arith, sweep-pending t w now rs, pending-append t (due_queue now rs) (r ∷ []))

pub mark-count : (t : ℕ) (now : ℕ) (rs : List QueueRecord) → count t (mark_due now rs) ≡ count t rs
unfolding count mark_due
mark-count t now [] = refl
mark-count t now (r ∷ rs) = ground (arith, mark-count t now rs)

pub mark-pending :
    (t : ℕ) (now : ℕ) (rs : List QueueRecord)
    → pending t (mark_due now rs) + pending t (due_active now rs) ≤ pending t rs
unfolding pending mark_due due_active
mark-pending t now [] = omega arith
mark-pending t now (r ∷ rs) = ground (arith, mark-pending t now rs)

pub delete-count :
    (t token : ℕ) (rs : List QueueRecord) → count t (delete_token token rs) ≤ count t rs
unfolding count delete_token
delete-count t token [] = omega arith
delete-count t token (r ∷ rs) = ground (arith, delete-count t token rs)

pub delete-pending :
    (t token : ℕ) (rs : List QueueRecord) → pending t (delete_token token rs) ≤ pending t rs
unfolding pending delete_token
delete-pending t token [] = omega arith
delete-pending t token (r ∷ rs) = ground (arith, delete-pending t token rs)

-- A change that leaves the token alone.
pub change-count :
    (t token : ℕ) (f : QueueRecord → QueueRecord)
    → ((r : QueueRecord) → (f r).token ≡ r.token)
    → (rs : List QueueRecord) → count t (change_token token f rs) ≡ count t rs
unfolding count change_token
change-count t token f same [] = refl
change-count t token f same (r ∷ rs) = ground (arith, change-count t token f same rs, same r)

pub stopping-pending :
    (t token : ℕ) (rs : List QueueRecord)
    → pending t (change_token token stopping rs) ≡ pending t rs
unfolding pending change_token
stopping-pending t token [] = refl
stopping-pending t token (r ∷ rs) = ground (arith, stopping-pending t token rs)

-- A record that is held counts.
pub Held-count : (r : QueueRecord) (rs : List QueueRecord) → Held r rs → 1 ≤ count r.token rs
unfolding count
Held-count r [] h = absurd h
Held-count r (x ∷ xs) (inl e) =
    let same : x.token ≡ r.token = ap (λ (y : QueueRecord). y.token) e in
    ground (arith, ==_iff x.token r.token)
Held-count r (x ∷ xs) (inr h) = omega (arith, Held-count r xs h)

pub has_token-count : (t : ℕ) (rs : List QueueRecord) → count t rs ≡ 0 → has_token t rs ≡ false
unfolding count has_token
has_token-count t [] h = refl
has_token-count t (r ∷ rs) h = ground (arith, has_token-count t rs)

-- The record with a token that no other has is the one that is changed or deleted.
pub mark-own :
    (t : ℕ) (r : QueueRecord) (rs : List QueueRecord)
    → Held r rs
    → count r.token rs ≤ 1
    → pending t (change_token r.token mark_expired rs) + pending t (r ∷ []) ≤ pending t rs
unfolding pending change_token count
mark-own t r [] held h = absurd held
mark-own t r (x ∷ xs) (inl e) h =
    subst
      (λ (y : QueueRecord).
        pending t (change_token y.token mark_expired (x ∷ xs)) + pending t (y ∷ [])
        ≤ pending t (x ∷ xs))
      e (ground (arith, ==_self x.token))
mark-own t r (x ∷ xs) (inr k) h = ground (arith, mark-own t r xs k, Held-count r xs k)

pub delete-own :
    (t : ℕ) (r : QueueRecord) (rs : List QueueRecord)
    → Held r rs
    → count r.token rs ≤ 1
    → pending t (delete_token r.token rs) + pending t (r ∷ []) ≤ pending t rs
unfolding pending delete_token count
delete-own t r [] held h = absurd held
delete-own t r (x ∷ xs) (inl e) h =
    subst
      (λ (y : QueueRecord).
        pending t (delete_token y.token (x ∷ xs)) + pending t (y ∷ []) ≤ pending t (x ∷ xs))
      e (ground (arith, ==_self x.token))
delete-own t r (x ∷ xs) (inr k) h = ground (arith, delete-own t r xs k, Held-count r xs k)
