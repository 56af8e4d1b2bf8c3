-- ===== src/Router/Policy/Service.antt =====
-- That src/router/policy.ts serves a record that waits.
use pi_to_pi.Prelude.{
  ℕ, ◌+◌, ◌≤◌, ◌<◌, ◌≡◌, refl, ap, sym, subst, if_elim, ◌∙◌, true, false, not, Option, none, some,
  List, ◌∷◌, arith, length,
}
use pi_to_pi.Router.Policy.{QueueRecord, is_runnable_record, read_monotonic_now}
use pi_to_pi.Router.Policy.Queue.{
  Readings, within, RoutingPolicy, QueueLease, create_lease, or_clock, read_now, observe,
  observed_now, is_full, expire_at, sweep_queue, hand_over, claim_again, claim_record, after_claim,
  dequeue_from, dequeue,
}
use pi_to_pi.Router.Policy.Guard.{runnable_record-earlier}
use pi_to_pi.Router.Policy.Bounds.{mark_due-Fine}

read-le :
    (last override : Option ℕ) (reading limit : ℕ)
    → or_clock last 0 ≤ limit
    → or_clock override 0 ≤ limit
    → reading ≤ limit
    → read_monotonic_now last (or_clock override reading) ≤ limit
unfolding read_monotonic_now
read-le none none reading limit h k l = l
read-le none (some given) reading limit h k l = k
read-le (some last) none reading limit h k l = ground arith
read-le (some last) (some given) reading limit h k l = ground arith

-- The clock stays at or before `limit`, until when the record passes the guard.
abbrev pub StaysRunnable : QueueRecord → Readings → ℕ → Type 0
StaysRunnable r w limit =
    (place : ℕ)
    → (w.clock place ≤ limit) × (is_runnable_record r (w.look place r.token) limit ≡ true)

runs_at :
    (r : QueueRecord) (w : Readings) (limit place now : ℕ)
    → StaysRunnable r w limit
    → now ≤ limit
    → (now < r.deadline) × (is_runnable_record r (w.look place r.token) now ≡ true)
runs_at r w limit place now stays early =
    let (ahead, before) =
      runnable_record-earlier r (w.look place r.token) limit now (stays place).1 early in
    (omega arith, before)

claim-serves :
    (s : RoutingPolicy) (r : QueueRecord) (w : Readings) (limit : ℕ)
    → StaysRunnable r w limit
    → is_full s ≡ false
    → observed_now s ≤ limit
    → (claim_record s r w).1 ≡ some (create_lease r)
unfolding claim_record claim_again hand_over
claim-serves s r w limit stays room early =
    let now = read_now s none (w.clock 0) in
    let first =
      read-le s.last_observed_now none (w.clock 0) limit early (omega arith) (stays 0).0 in
    let second = read-le (some now) none (w.clock 1) limit first (omega arith) (stays 1).0 in
    let now' = read_now (observe now s) none (w.clock 1) in
    let Good : RoutingPolicy × Option QueueLease → Type 0 = λ a. a.1 ≡ some (create_lease r) in
    let looked = (runs_at r w limit 0 now stays first).1 in
    let looked_again = (runs_at r w limit 1 now' stays second).1 in
    if_elim Good (is_full s) (λ full. absurd cc)
      λ _.
        if_elim Good (not (is_runnable_record r (w.look 0 r.token) now))
          (λ no. absurd (ground arith))
          λ _.
            if_elim Good (not (is_runnable_record r (w.look 1 r.token) now'))
              (λ no. absurd (ground arith))
              λ _. if_elim Good (is_full s) (λ full. absurd cc) λ _. refl

sweep-first :
    (w : Readings) (now : ℕ) (r : QueueRecord) (rs : List QueueRecord)
    → now < r.deadline
    → is_runnable_record r (w.look 0 r.token) now ≡ true
    → sweep_queue w now (r ∷ rs) ≡ r ∷ sweep_queue w now rs
unfolding sweep_queue
sweep-first w now r rs ahead runs = ground arith

after-claim :
    (r : QueueRecord) (rs : List QueueRecord)
    (again : RoutingPolicy → RoutingPolicy × Option QueueLease)
    (a : RoutingPolicy × Option QueueLease) (lease : QueueLease)
    → a.1 ≡ some lease
    → (after_claim r rs again a).1 ≡ some lease
unfolding after_claim
after-claim r rs again (s, none) lease h = absurd cc
after-claim r rs again (s, some given) lease h = h

-- `dequeue` serves the first record of the queue when an executor slot is free, the record passes the
-- execution guard whenever it is looked at, up to a time that neither the clock nor the caller nor the
-- time last observed exceeds.
pub dequeue-serves_first :
    (s : RoutingPolicy) (override : Option ℕ) (w : Readings) (r : QueueRecord)
    (rs : List QueueRecord) (limit : ℕ)
    → s.queue ≡ r ∷ rs
    → length s.active < s.active_capacity
    → StaysRunnable r w limit
    → observed_now s ≤ limit
    → or_clock override 0 ≤ limit
    → (dequeue s override w).1 ≡ some (create_lease r)
unfolding dequeue expire_at dequeue_from
dequeue-serves_first s override w r rs limit first room stays early given =
    let now = read_now s override (w.clock 0) in
    let in_time = read-le s.last_observed_now override (w.clock 0) limit early given (stays 0).0 in
    let (ahead, runs) = runs_at r w limit 0 now stays in_time in
    let free : is_full (expire_at s w now) ≡ false =
      ground (arith, (mark_due-Fine now s.active).0) in
    let swept : sweep_queue w now s.queue ≡ r ∷ sweep_queue w now rs =
      ap (sweep_queue w now) first ∙ sweep-first w now r rs ahead runs in
    if_elim (λ (a : RoutingPolicy × Option QueueLease). a.1 ≡ some (create_lease r))
      (is_full (expire_at s w now)) (λ full. absurd cc)
      λ _.
        subst (λ xs. (dequeue_from (expire_at s w now) xs (within 1 w)).1 ≡ some (create_lease r))
          (sym swept)
          (after-claim r (sweep_queue w now rs) _ _ _ (
            claim-serves (expire_at s w now) r (within 1 w) limit (λ place. stays (1 + place)) free
              in_time))
