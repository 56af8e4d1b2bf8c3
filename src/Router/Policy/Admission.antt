-- ===== src/Router/Policy/Admission.antt =====
-- What `admit` of src/router/policy.ts does with an entry.
use pi_to_pi.Prelude.{
  ℕ, suc, ◌+◌, ◌≤◌, ◌<◌, ◌≡◌, inl, refl, subst, true, false, not, Bool, Option, none, List, [], ◌∷◌,
  ◌++◌, if_elim, if◌then◌else◌, Sifted, Sifted-refl, Sifted-trans, Sifted-map, arith, ◌||◌, length,
  length-append, Result, ok, err, Text, leb,
}
use pi_to_pi.Router.Policy.{QueueEntry, QueueRecord, is_runnable_record}
use pi_to_pi.Router.Policy.Queue.{
  Readings, within, RoutingPolicy, QueueLease, read_now, observe, observed_now, is_due, is_full,
  expire_at, sweep_queue, hand_over,
}
use pi_to_pi.Router.Policy.Admit.{
  TypeError, QueueAdmissionDecision, accepted, enqueued, busy, expired, cancelled,
  admission_decision_for, is_empty, new_record, create_record, started, start_record, push_record,
  queue_record, admit_record, take_token, admit_created, admit,
}
use pi_to_pi.Router.Policy.Guard.{MayRun, runnable_record-MayRun}
use pi_to_pi.Router.Policy.Steps.{
  as_active, as_queued, Claimed, unread, refused, handed, claim_record-Claimed, read_now-le,
  not-true, not-false,
}
use pi_to_pi.Router.Policy.Found.{Held-append}
use pi_to_pi.Router.Policy.Bounds.{mark_due-Fine}
use pi_to_pi.Router.Policy.Handover.{
  IsRefused, IsHanded, not_runnable-IsRefused, IsRefused-later, sweep-Sifted,
}

-- The queue that is left is the one before, in order, without refused records.
abbrev Leaves : List QueueRecord → Readings → RoutingPolicy → List QueueRecord → Type 0
Leaves rs w s rest = Sifted (IsRefused w (observed_now s)) rs rest

-- What a decision means for a record, from a queue and a number of active records on. The Boolean is
-- startImmediately.
abbrev pub Admits :
    Bool
    → List QueueRecord
    → ℕ
    → QueueRecord
    → Readings
    → RoutingPolicy × QueueAdmissionDecision
    → Type 0
Admits start rs n r w (s, accepted lease) =
    IsHanded w s lease r × ((start ≡ true) × ((length s.active ≡ suc n) × Leaves rs w s s.queue))
Admits start rs n r w (s, enqueued entry handle position) =
    ((entry ≡ r.entry) × (handle ≡ r.handle))
    × (((place : ℕ) × MayRun r (w.look place r.token) (observed_now s))
        × ((start ≡ false)
            × ((length s.active ≡ n)
                × ((position ≡ length s.queue)
                    × ((rest : List QueueRecord) × ((s.queue ≡ rest ++ as_queued r ∷ [])
                          × Leaves rs w s rest))))))
Admits start rs n r w (s, busy queued_count active_count) =
    ((queued_count ≡ length s.queue) × (active_count ≡ length s.active))
    × ((if start then s.active_capacity ≤ length s.active else s.queue_capacity ≤ length s.queue)
        × ((length s.active ≡ n) × Leaves rs w s s.queue))
Admits start rs n r w (s, expired) =
    (r.deadline ≤ observed_now s) × ((length s.active ≡ n) × Leaves rs w s s.queue)
Admits start rs n r w (s, cancelled) =
    ((observed_now s < r.deadline) × IsRefused w (observed_now s) r)
    × ((length s.active ≡ n) × Leaves rs w s s.queue)

-- A call made within a call, from a queue that has been sifted.
widen :
    (k : ℕ) (w : Readings) (start : Bool) (rs ss : List QueueRecord) (n : ℕ) (r : QueueRecord)
    (a : RoutingPolicy × QueueAdmissionDecision)
    → Sifted (IsRefused w (observed_now a.0)) rs ss
    → Admits start ss n r (within k w) a
    → Admits start rs n r w a
widen k w start rs ss n r (s, d) first h = go d h
  where
    lift : (rest : List QueueRecord) → Leaves ss (within k w) s rest → Leaves rs w s rest
    lift rest h =
        Sifted-trans (IsRefused w (observed_now s)) first
          (Sifted-map (IsRefused-later k w (observed_now s)) h)

    go :
        (d : QueueAdmissionDecision)
        → Admits start ss n r (within k w) (s, d)
        → Admits start rs n r w (s, d)
    go (accepted lease) ((e, (on, (place, may))), (b, (c, rest))) =
        ((e, (on, (k + place, may))), (b, (c, lift s.queue rest)))
    go (enqueued entry handle position) (same, ((place, may), (b, (c, (p, (xs, (q, rest))))))) =
        (same, ((k + place, may), (b, (c, (p, (xs, (q, lift xs rest)))))))
    go (busy m l) (same, (full, (c, rest))) = (same, (full, (c, lift s.queue rest)))
    go expired (due, (c, rest)) = (due, (c, lift s.queue rest))
    go cancelled ((ahead, no_run), (c, rest)) =
        ((ahead, IsRefused-later k w (observed_now s) r no_run), (c, lift s.queue rest))

-- A record that a look refused at the time last observed.
decision-Admits :
    (start : Bool) (rs : List QueueRecord) (n : ℕ) (r : QueueRecord) (w : Readings)
    (s : RoutingPolicy) (now place : ℕ)
    → r.expired ≡ false
    → observed_now s ≡ now
    → is_runnable_record r (w.look place r.token) now ≡ false
    → length s.active ≡ n
    → Leaves rs w s s.queue
    → Admits start rs n r w (s, admission_decision_for r now)
decision-Admits start rs n r w s now place fresh same no_run count rest =
    if_elim (λ (d : QueueAdmissionDecision). Admits start rs n r w (s, d))
      (r.expired || is_due now r) (λ due. (ground arith, (count, rest)))
      λ ahead. (
        (ground arith, not_runnable-IsRefused r w (observed_now s) place now (omega arith) no_run),
        (count, rest),
      )

module _ (r : QueueRecord) (fresh : r.expired ≡ false) where
  started-Admits :
      (s : RoutingPolicy) (w : Readings)
      → is_full s ≡ false
      → (a : RoutingPolicy × Option QueueLease) → Claimed s r w a
      → (observed_now s ≤ observed_now (started r a).0)
        × Admits true s.queue (length s.active) r w (started r a)
  unfolding hand_over
  started-Admits s w room _ (unread full) = absurd cc
  started-Admits s w room _ (refused place now after no_run) = (
    after,
    decision-Admits true s.queue (length s.active) r w (observe now s) now place fresh refl no_run
        refl (Sifted-refl _ s.queue),
  )
  started-Admits s w room _ (handed now after _ runs) = (
    after,
    (
      (
        refl,
        (
          Held-append s.active (as_active r ∷ []) (as_active r) (inl refl),
          (1, runnable_record-MayRun r (w.look 1 r.token) now runs),
        ),
      ),
      (refl, (omega (arith, length-append s.active (as_active r ∷ [])), Sifted-refl _ s.queue)),
    ),
  )

  abbrev Good : Bool → RoutingPolicy → Readings → RoutingPolicy × QueueAdmissionDecision → Type 0
  Good start s w a =
      (observed_now s ≤ observed_now a.0) × Admits start s.queue (length s.active) r w a

  start-Admits : (s : RoutingPolicy) (w : Readings) → Good true s w (start_record s r w)
  unfolding start_record
  start-Admits s w =
      if_elim (Good true s w) (is_full s)
        (λ full. (omega arith, ((refl, refl), (ground arith, (refl, Sifted-refl _ s.queue)))))
        λ room. started-Admits s w room _ (claim_record-Claimed s r w)

  push-Admits :
      (s : RoutingPolicy) (w : Readings) (place : ℕ) (rs : List QueueRecord) (n : ℕ)
      → is_runnable_record r (w.look place r.token) (observed_now s) ≡ true
      → length s.active ≡ n
      → Leaves rs w s s.queue
      → (observed_now s ≤ observed_now (push_record s r).0)
        × Admits false rs n r w (push_record s r)
  unfolding push_record
  push-Admits s w place rs n runs count rest =
      if_elim
        (λ (a : RoutingPolicy × QueueAdmissionDecision).
          (observed_now s ≤ observed_now a.0) × Admits false rs n r w a)
        (leb s.queue_capacity (length s.queue))
        (λ full. (omega arith, ((refl, refl), (ground arith, (count, rest)))))
        λ room. (
          omega arith,
          (
            (refl, refl),
            (
              (place, runnable_record-MayRun r (w.look place r.token) (observed_now s) runs),
              (
                refl,
                (
                  count,
                  (
                    omega (arith, length-append s.queue (as_queued r ∷ [])),
                    (s.queue, (refl, rest)),
                  ),
                ),
              ),
            ),
          ),
        )

  queue-Admits : (s : RoutingPolicy) (w : Readings) → Good false s w (queue_record s r w)
  unfolding queue_record
  queue-Admits s w =
      let now = read_now s none (w.clock 0) in
      let after = (read_now-le s none (w.clock 0)).0 in
      let t = expire_at s w now in
      let swept : Sifted (IsRefused w now) s.queue (sweep_queue w now s.queue) =
        sweep-Sifted w now now s.queue (omega arith) in
      let count = (mark_due-Fine now s.active).0 in
      unfold expire_at in
      if_elim (Good false s w) (not (is_runnable_record r (w.look 1 r.token) now))
        (λ no_run. (
          after,
          decision-Admits false s.queue (length s.active) r w t now 1 fresh refl (not-true _ no_run)
              count swept,
        ))
        λ runs.
          let (later, admitted) =
            push-Admits t w 1 s.queue (length s.active) (not-false _ runs) count swept in
          (omega arith, admitted)

  admit_record-Admits :
      (s : RoutingPolicy) (start : Bool) (now : ℕ) (w : Readings)
      → observed_now s ≡ now
      → Good start s w (admit_record s r start now w)
  unfolding admit_record
  admit_record-Admits s start now w same =
      if_elim (Good start s w) (not (is_runnable_record r (w.look 0 r.token) now))
        (λ no_run. (
          omega arith,
          decision-Admits start s.queue (length s.active) r w s now 0 fresh same (not-true _ no_run)
              refl (Sifted-refl _ s.queue),
        ))
        λ _. further start
    where
      further :
          (b : Bool)
          → Good b s w (if b then start_record s r (within 1 w) else queue_record s r (within 1 w))
      further true =
          let (later, admitted) = start-Admits s (within 1 w) in
          (
            later,
            widen 1 w true s.queue s.queue (length s.active) r (start_record s r (within 1 w))
                (Sifted-refl _ s.queue) admitted,
          )
      further false =
          let (later, admitted) = queue-Admits s (within 1 w) in
          (
            later,
            widen 1 w false s.queue s.queue (length s.active) r (queue_record s r (within 1 w))
                (Sifted-refl _ s.queue) admitted,
          )

-- The record of an entry, with the next token.
abbrev pub IsRecordOf : QueueEntry → RoutingPolicy → QueueRecord → Type 0
IsRecordOf entry s r =
    (r.entry ≡ entry) × ((r.deadline ≡ entry.expires_at) × (r.token ≡ s.next_token))

-- What `admit` answers for an entry, from a policy on: a TypeError exactly for an empty id or request id,
-- with the queue left in order without refused records; otherwise what its decision means.
abbrev pub AdmitsEntry :
    RoutingPolicy
    → QueueEntry
    → Bool
    → Readings
    → RoutingPolicy × Result TypeError QueueAdmissionDecision
    → Type 0
AdmitsEntry s entry start w (s', err e) =
    (is_empty entry.id || is_empty entry.request_id ≡ true)
    × ((length s'.active ≡ length s.active) × Leaves s.queue w s' s'.queue)
AdmitsEntry s entry start w (s', ok decision) =
    (is_empty entry.id || is_empty entry.request_id ≡ false)
    × ((r : QueueRecord) × (IsRecordOf entry s r
          × Admits start s.queue (length s.active) r w (s', decision)))

-- `admit`, whatever the clock and the entries say at each reading. It throws exactly when the entry has an
-- empty id or request id. Otherwise it makes a record of the entry, and: it answers `accepted` only when
-- the entry is to start immediately, with a lease of the record, which a look at the time last observed
-- found that may run, and which is active besides as many active records as before; `queued` only when
-- the entry is not to start immediately, with the record, which a look at that time found that may run,
-- at the end of the queue, and its position; `busy` only when the capacity asked for is used up, with
-- the numbers of queued and active records; `expired` only when the deadline is not after the time last
-- observed; and `cancelled` only when the deadline is after it and a look refused the record. But for
-- the record, the active records are as many as before, and the queue is the one before, in order,
-- without records that some look refused.
pub admit-Admits :
    (s : RoutingPolicy) (entry : QueueEntry) (start : Bool) (override : Option ℕ) (draws : ℕ → Text)
    (w : Readings)
    → AdmitsEntry s entry start w (admit s entry start override draws w)
unfolding admit admit_created create_record new_record expire_at
admit-Admits s entry start override draws w =
    let now = read_now s override (w.clock 0) in
    let t = expire_at s w now in
    let count = (mark_due-Fine now s.active).0 in
    if_elim
      (λ (m : Result TypeError QueueRecord).
        AdmitsEntry s entry start w (admit_created t m start now (within 1 w)))
      (is_empty entry.id || is_empty entry.request_id)
      (λ bad. (bad, (count, sweep-Sifted w now now s.queue (omega arith))))
      λ good.
        let r = new_record t entry draws in
        let outcome = admit_record (take_token t) r start now (within 1 w) in
        let (later, admitted) =
          admit_record-Admits r refl (take_token t) start now (within 1 w) refl in
        (
          good,
          (
            r,
            (
              (refl, (refl, refl)),
              widen 1 w start s.queue t.queue (length s.active) r outcome
                  (sweep-Sifted w now _ s.queue later)
                  (subst (λ n. Admits start t.queue n r (within 1 w) outcome) count admitted),
            ),
          ),
        )
