-- ===== src/Router/Policy/Handover.antt =====
-- What src/router/policy.ts hands over to an executor, and what it passes over.
use pi_to_pi.Prelude.{
  ℕ, ◌+◌, ◌≤◌, ◌≡◌, ◌⊎◌, inl, inr, refl, true, false, not, Option, none, some, List, [], ◌∷◌,
  if_elim, Sifted, done, keep, leave, Sifted-refl, Sifted-trans, Sifted-map, arith, ◌||◌,
}
use pi_to_pi.Router.Policy.{QueueRecord, is_runnable_record}
use pi_to_pi.Router.Policy.Queue.{
  Readings, within, RoutingPolicy, QueueLease, create_lease, read_now, observe, observed_now,
  is_due, is_full, expire_at, sweep_queue, hand_over, drop_record, after_claim, dequeue_from,
  dequeue,
}
use pi_to_pi.Router.Policy.Guard.{MayRun, runnable_record-MayRun, MayRun-runnable_record}
use pi_to_pi.Router.Policy.Steps.{
  Held, as_active, Claimed, unread, refused, handed, claim_record-Claimed,
}
use pi_to_pi.Router.Policy.Found.{Held-append}

-- At a time that is not after a given one, a look at the record's entry found that it may not run.
abbrev pub IsRefused : Readings → ℕ → QueueRecord → Type 0
IsRefused w limit r =
    (place : ℕ) × ((now : ℕ) × ((now ≤ limit) × ¬ MayRun r (w.look place r.token) now))

-- A record that may be the one of a lease: a look at its entry at the time last observed found that it
-- may run, and it is active since.
abbrev pub IsHanded : Readings → RoutingPolicy → QueueLease → QueueRecord → Type 0
IsHanded w s lease r =
    (lease ≡ create_lease r)
    × (Held (as_active r) s.active
        × ((place : ℕ) × MayRun r (w.look place r.token) (observed_now s)))

-- The outcome of a call that serves a queue. With a lease, its record and the queue that is left are the
-- queue before, in order, without records that were refused. Without a lease, the queue that is left
-- is the queue before without refused records, and it is empty unless every executor slot is taken.
abbrev pub Serves : List QueueRecord → Readings → RoutingPolicy × Option QueueLease → Type 0
Serves rs w (s, none) =
    Sifted (IsRefused w (observed_now s)) rs s.queue × ((s.queue ≡ []) ⊎ (is_full s ≡ true))
Serves rs w (s, some lease) =
    (r : QueueRecord) × (IsHanded w s lease r
      × Sifted (IsRefused w (observed_now s)) rs (r ∷ s.queue))

pub not_runnable-IsRefused :
    (r : QueueRecord) (w : Readings) (limit place now : ℕ)
    → now ≤ limit
    → is_runnable_record r (w.look place r.token) now ≡ false
    → IsRefused w limit r
not_runnable-IsRefused r w limit place now early h = (
  place,
  (
    now,
    (early, λ may. let runs = MayRun-runnable_record r (w.look place r.token) now may in absurd cc),
  ),
)

pub IsRefused-later :
    (n : ℕ) (w : Readings) (limit : ℕ) (r : QueueRecord)
    → IsRefused (within n w) limit r
    → IsRefused w limit r
IsRefused-later n w limit r (place, rest) = (n + place, rest)

-- A call made within a call, whose queue has been sifted from that of the outer call.
widen :
    (n : ℕ) (w : Readings) (rs ss : List QueueRecord) (a : RoutingPolicy × Option QueueLease)
    → Sifted (IsRefused w (observed_now a.0)) rs ss
    → Serves ss (within n w) a
    → Serves rs w a
widen n w rs ss (s, none) first (rest, ends) = (
  Sifted-trans (IsRefused w (observed_now s)) first
      (Sifted-map (IsRefused-later n w (observed_now s)) rest),
  ends,
)
widen n w rs ss (s, some lease) first (r, ((e, (on, (place, may))), rest)) = (
  r,
  (
    (e, (on, (n + place, may))),
    Sifted-trans (IsRefused w (observed_now s)) first
        (Sifted-map (IsRefused-later n w (observed_now s)) rest),
  ),
)

-- What a round of the loop answers is at or after a time.
abbrev Follows : ℕ → RoutingPolicy × Option QueueLease → Type 0
Follows start a = start ≤ observed_now a.0

drop-observed_now :
    (s : RoutingPolicy) (r : QueueRecord) → observed_now (drop_record s r) ≡ observed_now s
unfolding drop_record
drop-observed_now s r =
    if_elim (λ (t : RoutingPolicy). observed_now t ≡ observed_now s)
      (is_due (observed_now s) r || r.expired) (λ _. refl) (λ _. refl)

abbrev Good :
    RoutingPolicy → List QueueRecord → Readings → RoutingPolicy × Option QueueLease → Type 0
Good s rs w a = Follows (observed_now s) a × Serves rs w a

after_claim-Good :
    (s : RoutingPolicy) (r : QueueRecord) (rs : List QueueRecord) (w : Readings)
    (again : RoutingPolicy → RoutingPolicy × Option QueueLease)
    → ((t : RoutingPolicy) → Good t rs (within 2 w) (again t))
    → (a : RoutingPolicy × Option QueueLease) → Claimed s r w a
    → Good s (r ∷ rs) w (after_claim r rs again a)
unfolding after_claim hand_over
after_claim-Good s r rs w again goes _ (handed now after room runs) = (
  after,
  (
    r,
    (
      (
        refl,
        (
          Held-append s.active (as_active r ∷ []) (as_active r) (inl refl),
          (1, runnable_record-MayRun r (w.look 1 r.token) now runs),
        ),
      ),
      Sifted-refl _ (r ∷ rs),
    ),
  ),
)
after_claim-Good s r rs w again goes _ (unread full) =
    if_elim (Good s (r ∷ rs) w) (is_full s) (λ _. (omega arith, (Sifted-refl _ (r ∷ rs), inr full)))
      λ room. absurd cc
after_claim-Good s r rs w again goes _ (refused place now after no_run) =
    let t = drop_record (observe now s) r in
    let same : observed_now t ≡ now = drop-observed_now (observe now s) r in
    if_elim (Good s (r ∷ rs) w) (is_full s) (λ full. (after, (Sifted-refl _ (r ∷ rs), inr full)))
      λ _.
        let (later, served) = goes t in
        (
          omega arith,
          widen 2 w (r ∷ rs) rs (again t)
              (leave
                (not_runnable-IsRefused r w (observed_now (again t).0) place now (omega arith)
                  no_run)
                (Sifted-refl _ rs))
              served,
        )

dequeue_from-Good :
    (s : RoutingPolicy) (rs : List QueueRecord) (w : Readings) → Good s rs w (dequeue_from s rs w)
unfolding dequeue_from
dequeue_from-Good s [] w = (omega arith, (done, inl refl))
dequeue_from-Good s (r ∷ rs) w =
    after_claim-Good s r rs w _ (λ t. dequeue_from-Good t rs (within 2 w)) _
      (claim_record-Claimed s r w)

due-not_runnable :
    (r : QueueRecord) (w : Readings) (now : ℕ)
    → is_due now r ≡ true
    → ¬ MayRun r (w.look 0 r.token) now
due-not_runnable r w now due (_, (ahead, _)) = absurd (ground arith)

pub sweep-Sifted :
    (w : Readings) (now limit : ℕ) (rs : List QueueRecord)
    → now ≤ limit
    → Sifted (IsRefused w limit) rs (sweep_queue w now rs)
unfolding sweep_queue
sweep-Sifted w now limit [] early = done
sweep-Sifted w now limit (x ∷ xs) early =
    let rest = sweep-Sifted w now limit xs early in
    let runs = is_runnable_record x (w.look 0 x.token) now in
    if_elim (Sifted (IsRefused w limit) (x ∷ xs)) (is_due now x)
      (λ due. leave (0, (now, (early, due-not_runnable x w now due))) rest)
      λ _.
        if_elim (Sifted (IsRefused w limit) (x ∷ xs)) (not runs)
          (λ no_run. leave (not_runnable-IsRefused x w limit 0 now early (ground arith)) rest)
          λ _. keep rest

-- `dequeue`, whatever the clock and the entries say at each reading. When it returns a lease, it is of a
-- record that is active now and that a look at its entry, at the time last observed, found that may
-- run: before its deadline, not expired, not cancelled, not aborted and not started. This record and
-- the queue that is left are the queue before, in the same order, without records that some look found
-- that may not run; so the record is the oldest that was not refused. When it returns no lease, the
-- queue that is left is the queue before without refused records, and it is empty unless every executor
-- slot is taken.
pub dequeue-Serves :
    (s : RoutingPolicy) (override : Option ℕ) (w : Readings)
    → Serves s.queue w (dequeue s override w)
unfolding dequeue expire_at
dequeue-Serves s override w =
    let now = read_now s override (w.clock 0) in
    let t = expire_at s w now in
    if_elim (Serves s.queue w) (is_full t)
      (λ full. (sweep-Sifted w now now s.queue (omega arith), inr full))
      λ _.
        let (later, served) = dequeue_from-Good t (sweep_queue w now s.queue) (within 1 w) in
        widen 1 w s.queue (sweep_queue w now s.queue)
          (dequeue_from t (sweep_queue w now s.queue) (within 1 w))
          (sweep-Sifted w now _ s.queue later) served
