-- ===== src/Router/Policy/Cancelling.antt =====
-- `cancel` and `release` of src/router/policy.ts as steps.
use pi_to_pi.Prelude.{ℕ, refl, Bool, not, ◌||◌, Option, none, if_elim, Text}
use pi_to_pi.Router.Policy.{
  QueueRecord, is_runnable_record, is_entry_cancellation_requested, is_terminal_or_aborted_state,
}
use pi_to_pi.Router.Policy.Queue.{
  Readings, within, RoutingPolicy, read_now, observe, is_due, remove_record,
}
use pi_to_pi.Router.Policy.Cancel.{
  RecordLookup, found, not_found, ambiguous, QueueHandle, registered, release_found, release,
  is_held, QueueCancellationState, is_active, is_queued, request_stop, expire_on_cancel,
  cancel_active, cancel_at, cancel_queued, cancel_record, cancel_found, cancel,
  cancel_by_request_id, find_target,
}
use pi_to_pi.Router.Policy.Steps.{
  Held, observed, removed, expired_active, expired_waiting, stopped, Steps, stay, move, one,
  read_now-le, notified_of,
}
use pi_to_pi.Router.Policy.Found.{Finds, find_target-Finds, by_request-Finds}

-- The call whose outcome this is made steps only.
abbrev Makes : RoutingPolicy → RoutingPolicy × QueueCancellationState → Type 0
Makes s a = Steps s a.0

module _ (s : RoutingPolicy) (r : QueueRecord) (held : Held r (registered s)) where
  expire_on_cancel-Makes : Makes s (expire_on_cancel s r)
  unfolding expire_on_cancel
  expire_on_cancel-Makes =
      if_elim (λ (t : RoutingPolicy). Steps s (notified_of r t)) (is_active r.status)
        (λ e. one (expired_active r held e refl)) λ e. one (expired_waiting r held e refl)

  cancel_at-Makes : (now : ℕ) (w : Readings) → Makes s (cancel_at s r now w)
  unfolding cancel_at
  cancel_at-Makes now w =
      let gone : Steps s (remove_record s r) = one (removed r refl) in
      if_elim (Makes s) (is_due now r) (λ _. expire_on_cancel-Makes)
        λ _.
          if_elim (Makes s) (is_runnable_record r (w.look 1 r.token) now) (λ _. gone)
            λ _.
              if_elim (Makes s) (is_entry_cancellation_requested (w.look 2 r.token)) (λ _. gone)
                λ _. gone

module _ (s : RoutingPolicy) (r : QueueRecord) (held : Held r (registered s)) (w : Readings) where
  cancel_queued-Makes : Makes s (cancel_queued s r w)
  unfolding cancel_queued
  cancel_queued-Makes =
      let now = read_now s none (w.clock 0) in
      let after = (read_now-le s none (w.clock 0)).0 in
      if_elim (Makes s) (is_entry_cancellation_requested (w.look 0 r.token))
        (λ _. one (removed r refl))
        λ _. move (observed now after refl) (cancel_at-Makes (observe now s) r held now w)

  cancel_active-Makes : Makes s (cancel_active s r w)
  unfolding cancel_active
  cancel_active-Makes =
      let now = read_now s none (w.clock 0) in
      let after = (read_now-le s none (w.clock 0)).0 in
      let stop : Steps s ((request_stop (observe now s) r).0) =
        move (observed now after refl) (one (stopped r refl)) in
      if_elim (Makes s) (is_due now r)
        (λ _. move (observed now after refl) (expire_on_cancel-Makes (observe now s) r held))
        λ _.
          if_elim (Makes s)
            (r.cancellation_requested || is_entry_cancellation_requested (w.look 0 r.token))
            (λ _. stop)
            λ _.
              if_elim (Makes s) (is_terminal_or_aborted_state ((w.look 1 r.token).state))
                (λ _. one (observed now after refl)) λ _. stop

-- After the first reading of `cancel`.
pub cancel_record-after :
    (s : RoutingPolicy) (r : QueueRecord) (w : Readings)
    → Held r (registered s)
    → Steps (observe (read_now s none (w.clock 0)) s) (cancel_record s r w).0
unfolding cancel_record
cancel_record-after s r w held =
    let now = read_now s none (w.clock 0) in
    if_elim (Makes (observe now s)) (r.expired || is_due now r)
      (λ _. expire_on_cancel-Makes (observe now s) r held)
      λ _.
        if_elim (Makes (observe now s)) (is_active r.status)
          (λ _. cancel_active-Makes (observe now s) r held (within 1 w))
          λ _.
            if_elim (Makes (observe now s)) (not (is_queued r.status)) (λ _. stay)
              λ _. cancel_queued-Makes (observe now s) r held (within 1 w)

cancel_record-Makes :
    (s : RoutingPolicy) (r : QueueRecord) (w : Readings)
    → Held r (registered s)
    → Steps s (cancel_record s r w).0
cancel_record-Makes s r w held =
    let now = read_now s none (w.clock 0) in
    move (observed now (read_now-le s none (w.clock 0)).0 refl) (cancel_record-after s r w held)

cancel_found-Makes :
    (s : RoutingPolicy) (lookup : RecordLookup) (w : Readings)
    → Finds (registered s) lookup
    → Steps s ((cancel_found s lookup w).0)
unfolding cancel_found
cancel_found-Makes s (found r) w h = cancel_record-Makes s r w h
cancel_found-Makes s not_found w h = stay
cancel_found-Makes s ambiguous w h = stay

pub cancel-Makes :
    (s : RoutingPolicy) (target : QueueHandle) (request_id : Option Text) (w : Readings)
    → Steps s ((cancel s target request_id w).0)
unfolding cancel
cancel-Makes s target request_id w =
    cancel_found-Makes s _ w (find_target-Finds s target request_id)

pub cancel_by_request_id-Makes :
    (s : RoutingPolicy) (request_id : Text) (w : Readings)
    → Steps s ((cancel_by_request_id s request_id w).0)
unfolding cancel_by_request_id
cancel_by_request_id-Makes s request_id w = cancel_found-Makes s _ w (by_request-Finds s request_id)

release_found-Makes :
    (s : RoutingPolicy) (lookup : RecordLookup) → Steps s ((release_found s lookup).0)
unfolding release_found
release_found-Makes s (found r) =
    if_elim (λ (a : RoutingPolicy × Bool). Steps s a.0) (is_held r.status)
      (λ _. one (removed r refl)) λ _. stay
release_found-Makes s not_found = stay
release_found-Makes s ambiguous = stay

pub release-Makes :
    (s : RoutingPolicy) (target : QueueHandle) (request_id : Option Text)
    → Steps s ((release s target request_id).0)
unfolding release
release-Makes s target request_id = release_found-Makes s (find_target s target request_id)
