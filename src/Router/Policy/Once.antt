-- ===== src/Router/Policy/Once.antt =====
-- That the policy of src/router/policy.ts holds a record in one place and reports its expiry once.
use pi_to_pi.Prelude.{
  ℕ, ◌+◌, ◌≤◌, ◌≡◌, ◌⊎◌, inl, inr, refl, sym, subst, Bool, true, false, List, [], ◌∷◌, ◌++◌, All,
  if_elim, arith, ltb,
}
use pi_to_pi.Router.Policy.{QueueRecord, queued, active}
use pi_to_pi.Router.Policy.Queue.{
  Readings, RoutingPolicy, mark_expired, has_token, change_token, remove_record, expire_at,
  drop_record, due_queue, due_active,
}
use pi_to_pi.Router.Policy.Admit.{take_token}
use pi_to_pi.Router.Policy.Cancel.{registered, is_active}
use pi_to_pi.Router.Policy.Steps.{
  Held, IsClean, as_queued, as_active, stopping, notified_of, Step, observed, swept, skipped_token,
  pushed, started, dequeued, dropped, removed, expired_active, expired_waiting, stopped, Steps,
  stay, move,
}
use pi_to_pi.Router.Policy.History.{Call, run_calls, run_calls-Steps, new_policy}
use pi_to_pi.Router.Policy.Bounds.{IsQueued, IsActive, IsValidPolicy, Step-IsValidPolicy}
use pi_to_pi.Router.Policy.Counting.{
  one_if, count, pending, told, count-append, pending-append, told-notify, sweep-count,
  sweep-pending, mark-count, mark-pending, delete-count, delete-pending, change-count,
  stopping-pending, Held-count, has_token-count, mark-own, delete-own,
}

-- A token that has been given belongs to one record at most, which onExpired was or may be told of
-- once; no other token belongs to any.
abbrev pub Once : ℕ → RoutingPolicy → Type 0
Once t s =
    (count t s.queue + count t s.active ≤ one_if (ltb t s.next_token))
    × (told t s.notified + (pending t s.queue + pending t s.active) ≤ one_if (ltb t s.next_token))

pub below_one : (b : Bool) → one_if b ≤ 1
below_one b = ground arith

module _ (s : RoutingPolicy) (t : ℕ) (o : Once t s) where
  swept-Once : (w : Readings) (now : ℕ) → Once t (expire_at s w now)
  unfolding expire_at
  swept-Once w now = (
    omega (arith, o.0, sweep-count t w now s.queue, mark-count t now s.active),
    omega (
      arith,
      o.1,
      sweep-pending t w now s.queue,
      mark-pending t now s.active,
      told-notify t (due_queue now s.queue ++ due_active now s.active) s.notified,
      pending-append t (due_queue now s.queue) (due_active now s.active),
    ),
  )

  took_token-Once : Once t (take_token s)
  took_token-Once = ground (arith, o.0, o.1)

  pushed-Once :
      (r : QueueRecord)
      → r.token ≡ s.next_token
      → IsClean r
      → Once t (take_token (record s { queue = s.queue ++ as_queued r ∷ [] }))
  unfolding count pending
  pushed-Once r new clean = ground (
    arith,
    o.0,
    o.1,
    new,
    count-append t s.queue (as_queued r ∷ []),
    pending-append t s.queue (as_queued r ∷ []),
  )

  started-Once :
      (r : QueueRecord)
      → r.token ≡ s.next_token
      → IsClean r
      → Once t (take_token (record s { active = s.active ++ as_active r ∷ [] }))
  unfolding count pending
  started-Once r new clean = ground (
    arith,
    o.0,
    o.1,
    new,
    count-append t s.active (as_active r ∷ []),
    pending-append t s.active (as_active r ∷ []),
  )

  removed-Once : (r : QueueRecord) → Once t (remove_record s r)
  unfolding remove_record
  removed-Once r = ground (
    arith,
    o.0,
    o.1,
    delete-count t r.token s.queue,
    delete-count t r.token s.active,
    delete-pending t r.token s.queue,
    delete-pending t r.token s.active,
  )

  stopped-Once :
      (r : QueueRecord) → Once t (record s { active = change_token r.token stopping s.active })
  stopped-Once r =
      let same = change-count t r.token stopping (λ x. refl) s.active in
      (omega (arith, o.0, same), omega (arith, o.1, stopping-pending t r.token s.active))

-- The first record of the queue, taken out.
queue_first :
    (s : RoutingPolicy) (t : ℕ) (r : QueueRecord) (rs : List QueueRecord)
    → s.queue ≡ r ∷ rs
    → Once t s
    → Once t (record s { queue = r ∷ rs })
queue_first s t r rs e o = subst (λ xs. Once t (record s { queue = xs })) e o

dequeued-Once :
    (s : RoutingPolicy) (t : ℕ) (r : QueueRecord) (rs : List QueueRecord)
    → Once t (record s { queue = r ∷ rs })
    → Once t (record s { queue = rs; active = s.active ++ as_active r ∷ [] })
unfolding count pending
dequeued-Once s t r rs (held, telling) = (
  omega (arith, count-append t s.active (as_active r ∷ [])),
  omega (arith, pending-append t s.active (as_active r ∷ [])),
)

dropped-Once :
    (s : RoutingPolicy) (t : ℕ) (r : QueueRecord) (rs : List QueueRecord)
    → Once t (record s { queue = r ∷ rs })
    → Once t (drop_record (record s { queue = rs }) r)
unfolding count pending drop_record
dropped-Once s t r rs (held, telling) = ground (arith, told-notify t (r ∷ []) s.notified)

-- Where a record of the policy is, by its status.
Held-split :
    (rs ss : List QueueRecord) (r : QueueRecord) → Held r (rs ++ ss) → Held r rs ⊎ Held r ss
Held-split [] ss r h = inr h
Held-split (x ∷ rs) ss r (inl e) = inl (inl e)
Held-split (x ∷ rs) ss r (inr h) = elim (Held-split rs ss r h) [
  | inl k ↦ inl (inr k)
  | inr k ↦ inr k
]

pub Held-All :
    (P : QueueRecord → Type 0) (rs : List QueueRecord) (r : QueueRecord)
    → All P rs
    → Held r rs
    → P r
Held-All P [] r h k = absurd k
Held-All P (x ∷ rs) r (p, h) (inl e) = subst P e p
Held-All P (x ∷ rs) r (p, h) (inr k) = Held-All P rs r h k

module _ (s : RoutingPolicy) (v : IsValidPolicy s) (r : QueueRecord)
    (held : Held r (registered s)) where
  pub active-Held : is_active r.status ≡ true → Held r s.active
  active-Held on = elim (Held-split s.queue s.active r held) [
    | inl k ↦
        let is_queued : r.status ≡ queued = (Held-All IsQueued s.queue r (v.1.1.1.0) k).0 in
        absurd cc
    | inr k ↦ k
  ]

  pub waiting-Held : is_active r.status ≡ false → Held r s.queue
  waiting-Held off = elim (Held-split s.queue s.active r held) [
    | inl k ↦ k
    | inr k ↦
        let is_running : r.status ≡ active = (Held-All IsActive s.active r (v.1.1.1.1) k).0 in
        absurd cc
  ]

module _ (s : RoutingPolicy) (r : QueueRecord) (once : (t : ℕ) → Once t s) (t : ℕ) where
  expired_active-Once :
      Held r s.active
      → Once t (notified_of r (record s { active = change_token r.token mark_expired s.active }))
  expired_active-Once held =
      let own =
        mark-own t r s.active held
          (omega (arith, (once r.token).0, below_one (ltb r.token s.next_token))) in
      (
        omega (arith, (once t).0, change-count t r.token mark_expired (λ x. refl) s.active),
        omega (arith, (once t).1, own, told-notify t (r ∷ []) s.notified),
      )

  expired_waiting-Once : Held r s.queue → Once t (notified_of r (remove_record s r))
  unfolding remove_record
  expired_waiting-Once held =
      let at_one = below_one (ltb r.token s.next_token) in
      let single = Held-count r s.queue held in
      let own = delete-own t r s.queue held (omega (arith, (once r.token).0)) in
      let elsewhere = has_token-count r.token s.active (omega (arith, (once r.token).0)) in
      if_elim (λ (u : RoutingPolicy). Once t (notified_of r u)) (has_token r.token s.active)
        (λ on. absurd cc)
        λ _. (
          omega (arith, (once t).0, delete-count t r.token s.queue),
          omega (arith, (once t).1, told-notify t (r ∷ []) s.notified),
        )

Step-Once :
    (s s' : RoutingPolicy)
    → Step s s'
    → IsValidPolicy s
    → ((t : ℕ) → Once t s)
    → (t : ℕ) → Once t s'
Step-Once s s' (observed now after e) v o t = subst (Once t) (sym e) (o t)
Step-Once s s' (swept w now after e) v o t = subst (Once t) (sym e) (swept-Once s t (o t) w now)
Step-Once s s' (skipped_token e) v o t = subst (Once t) (sym e) (took_token-Once s t (o t))
Step-Once s s' (pushed r new clean room e) v o t =
    subst (Once t) (sym e) (pushed-Once s t (o t) r new clean)
Step-Once s s' (started r new clean room e) v o t =
    subst (Once t) (sym e) (started-Once s t (o t) r new clean)
Step-Once s s' (dequeued r rs first room e) v o t =
    subst (Once t) (sym e) (dequeued-Once s t r rs (queue_first s t r rs first (o t)))
Step-Once s s' (dropped r rs first e) v o t =
    subst (Once t) (sym e) (dropped-Once s t r rs (queue_first s t r rs first (o t)))
Step-Once s s' (removed r e) v o t = subst (Once t) (sym e) (removed-Once s t (o t) r)
Step-Once s s' (expired_active r held on e) v o t =
    subst (Once t) (sym e) (expired_active-Once s r o t (active-Held s v r held on))
Step-Once s s' (expired_waiting r held off e) v o t =
    subst (Once t) (sym e) (expired_waiting-Once s r o t (waiting-Held s v r held off))
Step-Once s s' (stopped r e) v o t = subst (Once t) (sym e) (stopped-Once s t (o t) r)

pub Steps-Once :
    {s s' : RoutingPolicy}
    → Steps s s'
    → IsValidPolicy s
    → ((t : ℕ) → Once t s)
    → (t : ℕ) → Once t s'
Steps-Once stay v o = o
Steps-Once (move p ps) v o = Steps-Once ps (Step-IsValidPolicy _ _ p v) (Step-Once _ _ p v o)

-- After any history of calls on a new policy, whatever the clock and the entries say at each reading,
-- there is at most one record with a given token among the queued and the active ones, and onExpired
-- has been told at most once of the record with that token.
pub run_calls-at_most_once :
    (queue_capacity active_capacity reading : ℕ) (calls : List (Call × Readings)) (t : ℕ)
    → let s = run_calls (new_policy queue_capacity active_capacity reading) calls in
      (count t s.queue + count t s.active ≤ 1) × (told t s.notified ≤ 1)
unfolding count pending told new_policy
run_calls-at_most_once q a reading calls t =
    let s = new_policy q a reading in
    let v : IsValidPolicy s = (omega arith, (omega arith, (omega arith, (tt, tt)))) in
    let o = Steps-Once (run_calls-Steps s calls) v (λ k. (omega arith, omega arith)) t in
    let at_one = below_one (ltb t (run_calls s calls).next_token) in
    (omega (arith, o.0), omega (arith, o.1))
