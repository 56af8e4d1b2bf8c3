-- ===== src/Router/Policy/Bounds.antt =====
-- What the queue and the active records of src/router/policy.ts always are.
use pi_to_pi.Prelude.{
  ℕ, suc, ◌≤◌, ◌<◌, ◌≡◌, refl, subst, sym, not, ◌&&◌, ◌||◌, List, [], ◌∷◌, ◌++◌, length,
  length-append, All, All-append, ap, ◌∙◌, if_elim, arith, ◌==◌,
}
use pi_to_pi.Router.Policy.{QueueRecord, queued, active, is_runnable_record}
use pi_to_pi.Router.Policy.Queue.{
  Readings, RoutingPolicy, is_due, mark_expired, has_token, delete_token, change_token,
  remove_record, sweep_queue, mark_due, expire_at, drop_record, observed_now,
}
use pi_to_pi.Router.Policy.Admit.{take_token}
use pi_to_pi.Router.Policy.Steps.{
  IsClean, as_queued, as_active, stopping, Step, observed, swept, skipped_token, pushed, started,
  dequeued, dropped, removed, expired_active, expired_waiting, stopped, Steps, stay, move,
}
use pi_to_pi.Router.Policy.History.{Call, run_calls, run_calls-Steps}

-- The tokens grow along the list, from the first bound on and below the second.
abbrev pub Increasing : ℕ → ℕ → List QueueRecord → Type 0
Increasing low high [] = low ≤ high
Increasing low high (r ∷ rs) = (low ≤ r.token) × Increasing (suc r.token) high rs

abbrev pub IsQueued : QueueRecord → Type 0
IsQueued r = (r.status ≡ queued) × IsClean r

-- An active record has been told to onExpired exactly when it is marked as expired.
abbrev pub IsActive : QueueRecord → Type 0
IsActive r = (r.status ≡ active) × (r.expired ≡ r.expiry_notified)

abbrev pub IsValidPolicy : RoutingPolicy → Type 0
IsValidPolicy s =
    (length s.queue ≤ s.queue_capacity)
    × ((length s.active ≤ s.active_capacity)
        × (Increasing 1 s.next_token s.queue × (All IsQueued s.queue × All IsActive s.active)))

Increasing-lower :
    (low low' high : ℕ) (rs : List QueueRecord)
    → low' ≤ low
    → Increasing low high rs
    → Increasing low' high rs
Increasing-lower low low' high [] h i = omega arith
Increasing-lower low low' high (r ∷ rs) h (i, is) = (omega arith, is)

Increasing-raise :
    (low high high' : ℕ) (rs : List QueueRecord)
    → high ≤ high'
    → Increasing low high rs
    → Increasing low high' rs
Increasing-raise low high high' [] h i = omega arith
Increasing-raise low high high' (r ∷ rs) h (i, is) = (i, Increasing-raise _ high high' rs h is)

Increasing-append :
    (low high : ℕ) (rs : List QueueRecord) (r : QueueRecord)
    → r.token ≡ high
    → Increasing low high rs
    → Increasing low (suc high) (rs ++ r ∷ [])
Increasing-append low high [] r e i = (omega arith, omega arith)
Increasing-append low high (x ∷ xs) r e (i, is) = (i, Increasing-append _ high xs r e is)

-- What holds of a list still holds when records are deleted from it.
abbrev pub Kept : List QueueRecord → List QueueRecord → Type 1
Kept rs ss =
    (length ss ≤ length rs)
    × (((low high : ℕ) → Increasing low high rs → Increasing low high ss)
        × ((P : QueueRecord → Type 0) → All P rs → All P ss))

Kept-refl : (rs : List QueueRecord) → Kept rs rs
Kept-refl rs = (omega arith, ((λ low high i. i), λ P h. h))

Kept-skip : (r : QueueRecord) (rs ss : List QueueRecord) → Kept rs ss → Kept (r ∷ rs) ss
Kept-skip r rs ss (shorter, (order, each)) = (
  omega arith,
  (
    (λ low high (i, is).
        Increasing-lower (suc r.token) low high ss (omega arith) (order _ high is)),
    λ P (_, h). each P h,
  ),
)

Kept-cons : (r : QueueRecord) (rs ss : List QueueRecord) → Kept rs ss → Kept (r ∷ rs) (r ∷ ss)
Kept-cons r rs ss (shorter, (order, each)) =
    (omega arith, ((λ low high (i, is). (i, order _ high is)), λ P (p, h). (p, each P h)))

delete_token-Kept : (token : ℕ) (rs : List QueueRecord) → Kept rs (delete_token token rs)
unfolding delete_token
delete_token-Kept token [] = Kept-refl []
delete_token-Kept token (r ∷ rs) =
    if_elim (Kept (r ∷ rs)) (r.token == token) (λ _. Kept-skip r rs rs (Kept-refl rs))
      λ _. Kept-cons r rs _ (delete_token-Kept token rs)

sweep_queue-Kept : (w : Readings) (now : ℕ) (rs : List QueueRecord) → Kept rs (sweep_queue w now rs)
unfolding sweep_queue
sweep_queue-Kept w now [] = Kept-refl []
sweep_queue-Kept w now (r ∷ rs) =
    let rest = sweep_queue-Kept w now rs in
    if_elim (Kept (r ∷ rs)) (is_due now r) (λ _. Kept-skip r rs _ rest)
      λ _.
        if_elim (Kept (r ∷ rs)) (not (is_runnable_record r (w.look 0 r.token) now))
          (λ _. Kept-skip r rs _ rest) λ _. Kept-cons r rs _ rest

-- Changes to active records.
abbrev Fine : List QueueRecord → List QueueRecord → Type 0
Fine rs ss = (length ss ≡ length rs) × (All IsActive rs → All IsActive ss)

pub mark_due-Fine : (now : ℕ) (rs : List QueueRecord) → Fine rs (mark_due now rs)
unfolding mark_due
mark_due-Fine now [] = (refl, λ h. h)
mark_due-Fine now (r ∷ rs) =
    let (same, fine) = mark_due-Fine now rs in
    (
      ap suc same,
      λ (a, h).
          (if_elim IsActive (is_due now r && not r.expired) (λ _. (a.0, refl)) (λ _. a), fine h),
    )

change_token-Fine :
    (token : ℕ) (f : QueueRecord → QueueRecord)
    → ((r : QueueRecord) → IsActive r → IsActive (f r))
    → (rs : List QueueRecord) → Fine rs (change_token token f rs)
unfolding change_token
change_token-Fine token f keeps [] = (refl, λ h. h)
change_token-Fine token f keeps (r ∷ rs) =
    let (same, fine) = change_token-Fine token f keeps rs in
    if_elim (Fine (r ∷ rs)) (r.token == token) (λ _. (refl, λ (a, h). (keeps r a, h)))
      λ _. (ap suc same, λ (a, h). (a, fine h))

pub change_token-length :
    (token : ℕ) (f : QueueRecord → QueueRecord) (rs : List QueueRecord)
    → length (change_token token f rs) ≡ length rs
unfolding change_token
change_token-length token f [] = refl
change_token-length token f (r ∷ rs) = ground (arith, change_token-length token f rs)

with_active-IsValidPolicy :
    (s : RoutingPolicy) (actives : List QueueRecord)
    → Fine s.active actives
    → IsValidPolicy s
    → IsValidPolicy (record s { active = actives })
with_active-IsValidPolicy s actives (same, fine) (q, (a, (order, (waiting, running)))) =
    (q, (omega arith, (order, (waiting, fine running))))

remove_record-IsValidPolicy :
    (s : RoutingPolicy) (r : QueueRecord) → IsValidPolicy s → IsValidPolicy (remove_record s r)
unfolding remove_record
remove_record-IsValidPolicy s r (q, (a, (order, (waiting, running)))) =
    let (shorter, (_, each)) = delete_token-Kept r.token s.active in
    let (shorter', (order', each')) = delete_token-Kept r.token s.queue in
    if_elim IsValidPolicy (has_token r.token s.active)
      (λ _. (q, (omega arith, (order, (waiting, each IsActive running)))))
      λ _. (omega arith, (a, (order' _ _ order, (each' IsQueued waiting, running))))

pub expire_at-IsValidPolicy :
    (s : RoutingPolicy) (w : Readings) (now : ℕ)
    → IsValidPolicy s
    → IsValidPolicy (expire_at s w now)
unfolding expire_at
expire_at-IsValidPolicy s w now (q, (a, (order, (waiting, running)))) =
    let (shorter, (order', each)) = sweep_queue-Kept w now s.queue in
    let (same, fine) = mark_due-Fine now s.active in
    (omega arith, (omega arith, (order' _ _ order, (each IsQueued waiting, fine running))))

drop_record-IsValidPolicy :
    (s : RoutingPolicy) (r : QueueRecord) → IsValidPolicy s → IsValidPolicy (drop_record s r)
unfolding drop_record
drop_record-IsValidPolicy s r v =
    if_elim IsValidPolicy (is_due (observed_now s) r || r.expired) (λ _. v) (λ _. v)

pushed-IsValidPolicy :
    (s : RoutingPolicy) (r : QueueRecord)
    → r.token ≡ s.next_token
    → IsClean r
    → length s.queue < s.queue_capacity
    → IsValidPolicy s
    → IsValidPolicy (take_token (record s { queue = s.queue ++ as_queued r ∷ [] }))
pushed-IsValidPolicy s r new clean room (q, (a, (order, (waiting, running)))) = (
  omega (arith, length-append s.queue (as_queued r ∷ [])),
  (
    a,
    (
      Increasing-append 1 s.next_token s.queue (as_queued r) new order,
      (All-append IsQueued s.queue _ waiting ((refl, clean), tt), running),
    ),
  ),
)

-- A record that joins the active ones.
joined :
    (s : RoutingPolicy) (r : QueueRecord)
    → r.expired ≡ r.expiry_notified
    → length s.active < s.active_capacity
    → IsValidPolicy s
    → IsValidPolicy (record s { active = s.active ++ as_active r ∷ [] })
joined s r same room (q, (a, (order, (waiting, running)))) = (
  q,
  (
    omega (arith, length-append s.active (as_active r ∷ [])),
    (order, (waiting, All-append IsActive s.active _ running ((refl, same), tt))),
  ),
)

took_token : (s : RoutingPolicy) → IsValidPolicy s → IsValidPolicy (take_token s)
took_token s (q, (a, (order, rest))) =
    (q, (a, (Increasing-raise 1 _ _ s.queue (omega arith) order, rest)))

-- The first record of the queue, and the policy without it.
abbrev Popped : RoutingPolicy → QueueRecord → List QueueRecord → Type 0
Popped s r rs = IsQueued r × IsValidPolicy (record s { queue = rs })

popped :
    (s : RoutingPolicy) (r : QueueRecord) (rs : List QueueRecord)
    → s.queue ≡ r ∷ rs
    → IsValidPolicy s
    → Popped s r rs
popped s r rs e (q, (a, (order, (waiting, running)))) =
    let q' : length (r ∷ rs) ≤ s.queue_capacity = subst (λ xs. length xs ≤ s.queue_capacity) e q in
    let (low, order') = subst (Increasing 1 s.next_token) e order in
    let (first, waiting') = subst (All IsQueued) e waiting in
    (
      first,
      (omega arith, (a, (Increasing-lower _ 1 _ rs (omega arith) order', (waiting', running)))),
    )

pub Step-IsValidPolicy : (s s' : RoutingPolicy) → Step s s' → IsValidPolicy s → IsValidPolicy s'
Step-IsValidPolicy s s' (observed now after e) v = subst IsValidPolicy (sym e) v
Step-IsValidPolicy s s' (swept w now after e) v =
    subst IsValidPolicy (sym e) (expire_at-IsValidPolicy s w now v)
Step-IsValidPolicy s s' (skipped_token e) v = subst IsValidPolicy (sym e) (took_token s v)
Step-IsValidPolicy s s' (pushed r new clean room e) v =
    subst IsValidPolicy (sym e) (pushed-IsValidPolicy s r new clean room v)
Step-IsValidPolicy s s' (started r new clean room e) v = subst IsValidPolicy (sym e) (
    took_token (record s { active = s.active ++ as_active r ∷ [] })
      (joined s r (clean.0 ∙ sym (clean.1.0)) room v))
Step-IsValidPolicy s s' (dequeued r rs first room e) v =
    let ((_, clean), rest) = popped s r rs first v in
    subst IsValidPolicy (sym e)
      (joined (record s { queue = rs }) r (clean.0 ∙ sym (clean.1.0)) room rest)
Step-IsValidPolicy s s' (dropped r rs first e) v =
    subst IsValidPolicy (sym e)
      (drop_record-IsValidPolicy (record s { queue = rs }) r (popped s r rs first v).1)
Step-IsValidPolicy s s' (removed r e) v =
    subst IsValidPolicy (sym e) (remove_record-IsValidPolicy s r v)
Step-IsValidPolicy s s' (expired_active r held on e) v = subst IsValidPolicy (sym e) (
    with_active-IsValidPolicy s _
      (change_token-Fine r.token mark_expired (λ x a. (a.0, refl)) s.active) v)
Step-IsValidPolicy s s' (expired_waiting r held off e) v =
    subst IsValidPolicy (sym e) (remove_record-IsValidPolicy s r v)
Step-IsValidPolicy s s' (stopped r e) v =
    subst IsValidPolicy (sym e)
      (with_active-IsValidPolicy s _ (change_token-Fine r.token stopping (λ x a. a) s.active) v)

pub Steps-IsValidPolicy : {s s' : RoutingPolicy} → Steps s s' → IsValidPolicy s → IsValidPolicy s'
Steps-IsValidPolicy stay v = v
Steps-IsValidPolicy (move p ps) v = Steps-IsValidPolicy ps (Step-IsValidPolicy _ _ p v)

-- After any history of calls, whatever the clock and the entries say at each reading, on a policy that
-- satisfies them before: the queue and the active records do not exceed their capacities; the
-- queue is in the order of admission; every queued record has the status `queued` and is neither
-- expired nor cancelled nor reported; and every active record has the status `active` and has been
-- reported to onExpired exactly when it is marked as expired.
pub run_calls-IsValidPolicy :
    (s : RoutingPolicy) (calls : List (Call × Readings))
    → IsValidPolicy s
    → IsValidPolicy (run_calls s calls)
run_calls-IsValidPolicy s calls v = Steps-IsValidPolicy (run_calls-Steps s calls) v
