-- ===== src/Router/Policy/Moves.antt =====
-- The calls of src/router/policy.ts as steps.
use pi_to_pi.Prelude.{
  ℕ, ◌≡◌, refl, Bool, not, ◌||◌, Option, none, length, if_elim, leb, arith, Result, Text,
}
use pi_to_pi.Router.Policy.{QueueEntry, QueueRecord, is_runnable_record}
use pi_to_pi.Router.Policy.Queue.{
  Readings, within, RoutingPolicy, QueueLease, read_now, is_full, expire_at, hand_over,
}
use pi_to_pi.Router.Policy.Admit.{
  take_token, QueueAdmissionDecision, TypeError, started, start_record, push_record, queue_record,
  admit_record, admit_created, admit, create_record, new_record, is_empty,
}
use pi_to_pi.Router.Policy.Steps.{
  Held, IsClean, Step, observed, swept, skipped_token, pushed, removed, expired_active,
  expired_waiting, stopped, Steps, stay, move, one, Steps-trans, Claimed, unread, refused, handed,
  claim_record-Claimed, read_now-le,
}
use pi_to_pi.Router.Policy.Steps

started-Makes :
    (s : RoutingPolicy) (r : QueueRecord) (w : Readings)
    → r.token ≡ s.next_token
    → IsClean r
    → (a : RoutingPolicy × Option QueueLease) → Claimed (take_token s) r w a
    → Steps s ((started r a).0)
unfolding hand_over
started-Makes s r w new clean _ (unread full) = one (skipped_token refl)
started-Makes s r w new clean _ (refused place now after no_run) =
    move (skipped_token refl) (one (observed now after refl))
started-Makes s r w new clean _ (handed now after room runs) =
    move (observed now after refl) (one (Steps.started r new clean (ground arith) refl))

push-Makes :
    (s : RoutingPolicy) (r : QueueRecord)
    → r.token ≡ s.next_token
    → IsClean r
    → Steps s ((push_record (take_token s) r).0)
unfolding push_record
push-Makes s r new clean =
    if_elim (λ (a : RoutingPolicy × QueueAdmissionDecision). Steps s a.0)
      (leb s.queue_capacity (length s.queue)) (λ _. one (skipped_token refl))
      λ room. one (pushed r new clean (ground arith) refl)

module _ (s : RoutingPolicy) (r : QueueRecord) (new : r.token ≡ s.next_token)
    (clean : IsClean r) where
  abbrev Good : RoutingPolicy × QueueAdmissionDecision → Type 0
  Good a = Steps s a.0

  start-Makes : (w : Readings) → Good (start_record (take_token s) r w)
  unfolding start_record
  start-Makes w =
      if_elim Good (is_full s) (λ _. one (skipped_token refl))
        λ _. started-Makes s r w new clean _ (claim_record-Claimed (take_token s) r w)

  queue_record-Makes : (w : Readings) → Good (queue_record (take_token s) r w)
  unfolding queue_record expire_at
  queue_record-Makes w =
      let now = read_now s none (w.clock 0) in
      let after = (read_now-le s none (w.clock 0)).0 in
      if_elim Good (not (is_runnable_record r (w.look 1 r.token) now))
        (λ _. move (swept w now after refl) (one (skipped_token refl)))
        λ _. move (swept w now after refl) (push-Makes (expire_at s w now) r new clean)

  admit_record-Makes :
      (start : Bool) (now : ℕ) (w : Readings) → Good (admit_record (take_token s) r start now w)
  unfolding admit_record
  admit_record-Makes start now w =
      if_elim Good (not (is_runnable_record r (w.look 0 r.token) now))
        (λ _. one (skipped_token refl))
        λ _. if_elim Good start (λ _. start-Makes (within 1 w)) λ _. queue_record-Makes (within 1 w)

pub admit_created-Makes :
    (s : RoutingPolicy) (entry : QueueEntry) (draws : ℕ → Text) (start : Bool) (now : ℕ)
    (w : Readings)
    → Steps s ((admit_created s (create_record s entry draws) start now w).0)
unfolding admit_created create_record new_record
admit_created-Makes s entry draws start now w =
    if_elim (λ (m : Result TypeError QueueRecord). Steps s ((admit_created s m start now w).0))
      (is_empty entry.id || is_empty entry.request_id) (λ _. stay)
      λ _. admit_record-Makes s (new_record s entry draws) refl (refl, (refl, refl)) start now w

pub admit-Makes :
    (s : RoutingPolicy) (entry : QueueEntry) (start : Bool) (override : Option ℕ) (draws : ℕ → Text)
    (w : Readings)
    → Steps s ((admit s entry start override draws w).0)
unfolding admit
admit-Makes s entry start override draws w =
    move (swept w _ (read_now-le s override (w.clock 0)).0 refl)
      (admit_created-Makes _ entry draws start _ (within 1 w))
