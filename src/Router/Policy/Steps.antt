-- ===== src/Router/Policy/Steps.antt =====
-- The steps that the calls of src/router/policy.ts are made of.
use pi_to_pi.Prelude.{
  ℕ, ◌<◌, ◌≤◌, ◌≡◌, ◌⊎◌, refl, Bool, true, false, Option, none, some, List, [], ◌∷◌, ◌++◌, length,
  if_elim, if◌then◌else◌, not, ◌||◌, arith,
}
use pi_to_pi.Router.Policy.{QueueRecord, queued, active, read_monotonic_now, is_runnable_record}
use pi_to_pi.Router.Policy.Queue.{
  Readings, within, RoutingPolicy, QueueLease, or_clock, observed_now, is_due, read_now, observe,
  is_full, mark_expired, notify_expired, change_token, remove_record, expire_at, hand_over,
  claim_again, claim_record, drop_record, after_claim, dequeue_from, dequeue,
}
use pi_to_pi.Router.Policy.Admit.{take_token}
use pi_to_pi.Router.Policy.Cancel.{registered, is_active}

-- That a record is one of a list.
abbrev pub Held : QueueRecord → List QueueRecord → Type 0
Held r [] = ⊥
Held r (x ∷ xs) = (x ≡ r) ⊎ Held r xs

-- A record that neither its deadline nor a cancellation has touched.
abbrev pub IsClean : QueueRecord → Type 0
IsClean r = (r.expired ≡ false) × ((r.expiry_notified ≡ false) × (r.cancellation_requested ≡ false))

abbrev pub as_queued : QueueRecord → QueueRecord
as_queued r = record r { status = queued }

abbrev pub as_active : QueueRecord → QueueRecord
as_active r = record r { status = active }

abbrev pub stopping : QueueRecord → QueueRecord
stopping r = record r { cancellation_requested = true }

abbrev pub notified_of : QueueRecord → RoutingPolicy → RoutingPolicy
notified_of r s = record s { notified = notify_expired (r ∷ []) s.notified }

pub data Step (s s' : RoutingPolicy) : Type 0 where
  observed : (now : ℕ) → observed_now s ≤ now → s' ≡ observe now s → Step s s'
  swept : (w : Readings) (now : ℕ) → observed_now s ≤ now → s' ≡ expire_at s w now → Step s s'
  skipped_token : s' ≡ take_token s → Step s s'
  pushed :
      (r : QueueRecord)
      → r.token ≡ s.next_token
      → IsClean r
      → length s.queue < s.queue_capacity
      → s' ≡ take_token (record s { queue = s.queue ++ as_queued r ∷ [] })
      → Step s s'
  started :
      (r : QueueRecord)
      → r.token ≡ s.next_token
      → IsClean r
      → length s.active < s.active_capacity
      → s' ≡ take_token (record s { active = s.active ++ as_active r ∷ [] })
      → Step s s'
  dequeued :
      (r : QueueRecord) (rs : List QueueRecord)
      → s.queue ≡ r ∷ rs
      → length s.active < s.active_capacity
      → s' ≡ record s { queue = rs; active = s.active ++ as_active r ∷ [] }
      → Step s s'
  dropped :
      (r : QueueRecord) (rs : List QueueRecord)
      → s.queue ≡ r ∷ rs
      → s' ≡ drop_record (record s { queue = rs }) r
      → Step s s'
  removed : (r : QueueRecord) → s' ≡ remove_record s r → Step s s'
  expired_active :
      (r : QueueRecord)
      → Held r (registered s)
      → is_active r.status ≡ true
      → s' ≡ notified_of r (record s { active = change_token r.token mark_expired s.active })
      → Step s s'
  expired_waiting :
      (r : QueueRecord)
      → Held r (registered s)
      → is_active r.status ≡ false
      → s' ≡ notified_of r (remove_record s r)
      → Step s s'
  stopped :
      (r : QueueRecord)
      → s' ≡ record s { active = change_token r.token stopping s.active }
      → Step s s'

pub data Steps : RoutingPolicy → RoutingPolicy → Type 0 where
  stay : {s : RoutingPolicy} → Steps s s
  move : {s t u : RoutingPolicy} → Step s t → Steps t u → Steps s u

pub Steps-trans : {s t u : RoutingPolicy} → Steps s t → Steps t u → Steps s u
Steps-trans stay qs = qs
Steps-trans (move p ps) qs = move p (Steps-trans ps qs)

pub one : {s t : RoutingPolicy} → Step s t → Steps s t
one p = move p stay

monotonic-le :
    (last override : Option ℕ) (reading : ℕ)
    → let now = read_monotonic_now last (or_clock override reading) in
      (or_clock last 0 ≤ now) × (or_clock override reading ≤ now)
unfolding read_monotonic_now
monotonic-le none override reading = (omega arith, omega arith)
monotonic-le (some last) override reading = ground arith

-- A reading is at or after the time last observed, and at or after what the clock or the caller says.
pub read_now-le :
    (s : RoutingPolicy) (override : Option ℕ) (reading : ℕ)
    → (observed_now s ≤ read_now s override reading)
      × (or_clock override reading ≤ read_now s override reading)
read_now-le s override reading = monotonic-le s.last_observed_now override reading

-- The outcomes of `claimRecord`.
pub data Claimed (s : RoutingPolicy) (r : QueueRecord) (w : Readings)
    : RoutingPolicy × Option QueueLease → Type 0 where
  unread : is_full s ≡ true → Claimed s r w (s, none)
  refused :
      (place now : ℕ)
      → observed_now s ≤ now
      → is_runnable_record r (w.look place r.token) now ≡ false
      → Claimed s r w (observe now s, none)
  handed :
      (now : ℕ)
      → observed_now s ≤ now
      → is_full s ≡ false
      → is_runnable_record r (w.look 1 r.token) now ≡ true
      → Claimed s r w (hand_over (observe now s) r)

pub not-false : (b : Bool) → not b ≡ false → b ≡ true
not-false b h = ground arith

pub not-true : (b : Bool) → not b ≡ true → b ≡ false
not-true b h = ground arith

claim_again-Claimed :
    (s : RoutingPolicy) (r : QueueRecord) (w : Readings)
    → is_full s ≡ false
    → Claimed s r w (claim_again s r w)
unfolding claim_again
claim_again-Claimed s r w room =
    let now = read_now s none (w.clock 1) in
    let after = (read_now-le s none (w.clock 1)).0 in
    if_elim (Claimed s r w) (not (is_runnable_record r (w.look 1 r.token) now))
      (λ no_run. refused 1 now after (not-true _ no_run))
      λ runs.
        if_elim (Claimed s r w) (is_full s) (λ full. absurd cc)
          λ _. handed now after room (not-false _ runs)

of_observed :
    (s : RoutingPolicy) (r : QueueRecord) (w : Readings) (now : ℕ)
    (a : RoutingPolicy × Option QueueLease)
    → Claimed (observe now s) r w a
    → observed_now s ≤ now
    → is_full s ≡ false
    → Claimed s r w a
of_observed s r w now _ (unread full) after room = absurd cc
of_observed s r w now _ (refused place later le no_run) after room =
    refused place later (omega arith) no_run
of_observed s r w now _ (handed later le _ runs) after room = handed later (omega arith) room runs

pub claim_record-Claimed :
    (s : RoutingPolicy) (r : QueueRecord) (w : Readings) → Claimed s r w (claim_record s r w)
unfolding claim_record
claim_record-Claimed s r w =
    let now = read_now s none (w.clock 0) in
    let after = (read_now-le s none (w.clock 0)).0 in
    if_elim (Claimed s r w) (is_full s) unread λ room.
      if_elim (Claimed s r w) (not (is_runnable_record r (w.look 0 r.token) now))
        (λ no_run. refused 0 now after (not-true _ no_run))
        λ _. of_observed s r w now _ (claim_again-Claimed (observe now s) r w room) after room

-- Dequeuing.
abbrev pub Makes : RoutingPolicy → RoutingPolicy × Option QueueLease → Type 0
Makes s a = Steps s a.0

abbrev with_queue : List QueueRecord → RoutingPolicy → RoutingPolicy
with_queue rs s = record s { queue = rs }

with_queue-if :
    (rs : List QueueRecord) (b : Bool) (s t : RoutingPolicy)
    → with_queue rs (if b then s else t) ≡ (if b then with_queue rs s else with_queue rs t)
with_queue-if rs true s t = refl
with_queue-if rs false s t = refl

drop-with_queue :
    (s : RoutingPolicy) (r : QueueRecord) (rs : List QueueRecord)
    → with_queue rs (drop_record s r) ≡ drop_record (with_queue rs s) r
unfolding drop_record
drop-with_queue s r rs =
    with_queue-if rs (is_due (observed_now s) r || r.expired) (notified_of r s) s

after_claim-Makes :
    (s : RoutingPolicy) (r : QueueRecord) (rs : List QueueRecord) (w : Readings)
    (again : RoutingPolicy → RoutingPolicy × Option QueueLease)
    → ((t : RoutingPolicy) → Makes (with_queue rs t) (again t))
    → (a : RoutingPolicy × Option QueueLease) → Claimed s r w a
    → Makes (with_queue (r ∷ rs) s) (after_claim r rs again a)
unfolding after_claim hand_over
after_claim-Makes s r rs w again goes _ (handed now after room runs) =
    move (observed now after refl) (one (dequeued r rs refl (ground arith) refl))
after_claim-Makes s r rs w again goes _ (unread full) =
    if_elim (Makes (with_queue (r ∷ rs) s)) (is_full s) (λ _. stay)
      λ _. move (dropped r rs refl (drop-with_queue s r rs)) (goes (drop_record s r))
after_claim-Makes s r rs w again goes _ (refused place now after no_run) =
    if_elim (Makes (with_queue (r ∷ rs) s)) (is_full s) (λ _. one (observed now after refl))
      λ _. move (observed now after refl) (
        move (dropped r rs refl (drop-with_queue (observe now s) r rs))
          (goes (drop_record (observe now s) r)))

dequeue_from-Makes :
    (s : RoutingPolicy) (rs : List QueueRecord) (w : Readings)
    → Makes (with_queue rs s) (dequeue_from s rs w)
unfolding dequeue_from
dequeue_from-Makes s [] w = stay
dequeue_from-Makes s (r ∷ rs) w =
    after_claim-Makes s r rs w _ (λ t. dequeue_from-Makes t rs (within 2 w)) _
      (claim_record-Claimed s r w)

-- After the first reading of `dequeue`.
pub dequeue-after :
    (s : RoutingPolicy) (override : Option ℕ) (w : Readings)
    → Makes (expire_at s w (read_now s override (w.clock 0))) (dequeue s override w)
unfolding dequeue
dequeue-after s override w =
    let t = expire_at s w (read_now s override (w.clock 0)) in
    if_elim (Makes t) (is_full t) (λ _. stay) λ _. dequeue_from-Makes t t.queue (within 1 w)

pub dequeue-Makes :
    (s : RoutingPolicy) (override : Option ℕ) (w : Readings) → Makes s (dequeue s override w)
dequeue-Makes s override w =
    let now = read_now s override (w.clock 0) in
    move (swept w now (read_now-le s override (w.clock 0)).0 refl) (dequeue-after s override w)
