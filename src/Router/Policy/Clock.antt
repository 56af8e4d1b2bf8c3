-- ===== src/Router/Policy/Clock.antt =====
-- The time that the policy of src/router/policy.ts has observed last.
use pi_to_pi.Prelude.{ℕ, ◌≤◌, ◌≡◌, refl, ap, Option, none, List, [], ◌∷◌, if_elim, arith, ◌||◌}
use pi_to_pi.Router.Policy.{QueueRecord}
use pi_to_pi.Router.Policy.Queue.{
  Readings, within, RoutingPolicy, or_clock, observed_now, is_due, read_now, has_token,
  remove_record, expire_at, drop_record, expire,
}
use pi_to_pi.Router.Policy.Admit.{admit}
use pi_to_pi.Router.Policy.Cancel.{
  RecordLookup, found, not_found, ambiguous, registered, find_target, only_record, select, is_text,
  cancel_found, cancel, cancel_by_request_id, is_runnable, peek,
}
use pi_to_pi.Router.Policy.Steps.{
  Step, observed, swept, skipped_token, pushed, started, dequeued, dropped, removed, expired_active,
  expired_waiting, stopped, Steps, stay, move, read_now-le, dequeue-after,
}
use pi_to_pi.Router.Policy.Moves.{admit_created-Makes}
use pi_to_pi.Router.Policy.Found.{Finds, find_target-Finds, by_request-Finds}
use pi_to_pi.Router.Policy.Cancelling.{cancel_record-after}
use pi_to_pi.Router.Policy.History.{
  Call, admits, dequeues, expires, peeks, releases, cancels, cancels_request, asks, apply_call,
  run_calls, apply_call-Steps,
}

remove-observed_now :
    (s : RoutingPolicy) (r : QueueRecord) → observed_now (remove_record s r) ≡ observed_now s
unfolding remove_record
remove-observed_now s r =
    if_elim (λ (t : RoutingPolicy). observed_now t ≡ observed_now s) (has_token r.token s.active)
      (λ _. refl) (λ _. refl)

drop-observed_now :
    (s : RoutingPolicy) (r : QueueRecord) → observed_now (drop_record s r) ≡ observed_now s
unfolding drop_record
drop-observed_now s r =
    if_elim (λ (t : RoutingPolicy). observed_now t ≡ observed_now s)
      (is_due (observed_now s) r || r.expired) (λ _. refl) (λ _. refl)

unchanged :
    (s s' t : RoutingPolicy)
    → s' ≡ t
    → observed_now t ≡ observed_now s
    → observed_now s ≤ observed_now s'
unchanged s s' t e same = let e' = ap observed_now e in omega arith

Step-le : (s s' : RoutingPolicy) → Step s s' → observed_now s ≤ observed_now s'
unfolding expire_at
Step-le s s' (observed now after e) = let e' = ap observed_now e in omega arith
Step-le s s' (swept w now after e) = let e' = ap observed_now e in omega arith
Step-le s s' (skipped_token e) = unchanged s s' _ e refl
Step-le s s' (pushed r new clean room e) = unchanged s s' _ e refl
Step-le s s' (started r new clean room e) = unchanged s s' _ e refl
Step-le s s' (dequeued r rs first room e) = unchanged s s' _ e refl
Step-le s s' (dropped r rs first e) =
    unchanged s s' _ e (drop-observed_now (record s { queue = rs }) r)
Step-le s s' (removed r e) = unchanged s s' _ e (remove-observed_now s r)
Step-le s s' (expired_active r held on e) = unchanged s s' _ e refl
Step-le s s' (expired_waiting r held off e) = unchanged s s' _ e (remove-observed_now s r)
Step-le s s' (stopped r e) = unchanged s s' _ e refl

Steps-le : {s s' : RoutingPolicy} → Steps s s' → observed_now s ≤ observed_now s'
Steps-le stay = omega arith
Steps-le (move p ps) = let first = Step-le _ _ p in let rest = Steps-le ps in omega arith

-- A cancellation reads the clock when it finds its record.
abbrev pub LookupReads : RecordLookup → Readings → ℕ → Type 0
LookupReads (found r) w time = w.clock 0 ≤ time
LookupReads not_found w time = Unit
LookupReads ambiguous w time = Unit

-- The first time that a call reads, from its caller or from the clock, is not after a given one.
abbrev pub ReadsBy : RoutingPolicy → Call → Readings → ℕ → Type 0
ReadsBy s (admits entry start override draws) w time = or_clock override (w.clock 0) ≤ time
ReadsBy s (dequeues override) w time = or_clock override (w.clock 0) ≤ time
ReadsBy s (expires override) w time = or_clock override (w.clock 0) ≤ time
ReadsBy s (peeks override) w time = or_clock override (w.clock 0) ≤ time
ReadsBy s (asks target override) w time = or_clock override (w.clock 0) ≤ time
ReadsBy s (releases target request_id) w time = Unit
ReadsBy s (cancels target request_id) w time = LookupReads (find_target s target request_id) w time
ReadsBy s (cancels_request request_id) w time =
    LookupReads (only_record (select (λ r. is_text request_id r.entry.request_id) (registered s))) w
      time

-- The first readings of the calls of a history.
abbrev pub AllReadBy : RoutingPolicy → List (Call × Readings) → ℕ → Type 0
AllReadBy s [] time = Unit
AllReadBy s ((call, w) ∷ calls) time =
    ReadsBy s call w time × AllReadBy (apply_call s call w) calls time

first_reading :
    (s t : RoutingPolicy) (override : Option ℕ) (w : Readings)
    → Steps (expire_at s w (read_now s override (w.clock 0))) t
    → or_clock override (w.clock 0) ≤ observed_now t
unfolding expire_at
first_reading s t override w steps =
    let read = (read_now-le s override (w.clock 0)).1 in let later = Steps-le steps in omega arith

found-reads :
    (s : RoutingPolicy) (lookup : RecordLookup) (w : Readings)
    → Finds (registered s) lookup
    → LookupReads lookup w (observed_now (cancel_found s lookup w).0)
unfolding cancel_found
found-reads s not_found w held = tt
found-reads s ambiguous w held = tt
found-reads s (found r) w held =
    let read = (read_now-le s none (w.clock 0)).1 in
    let later = Steps-le (cancel_record-after s r w held) in omega arith

call-ReadsBy :
    (s : RoutingPolicy) (call : Call) (w : Readings)
    → ReadsBy s call w (observed_now (apply_call s call w))
unfolding apply_call admit expire peek is_runnable cancel cancel_by_request_id
call-ReadsBy s (admits entry start override draws) w =
    first_reading s _ override w (admit_created-Makes _ entry draws start _ (within 1 w))
call-ReadsBy s (dequeues override) w = first_reading s _ override w (dequeue-after s override w)
call-ReadsBy s (expires override) w = first_reading s _ override w stay
call-ReadsBy s (peeks override) w = first_reading s _ override w stay
call-ReadsBy s (asks target override) w = first_reading s _ override w stay
call-ReadsBy s (releases target request_id) w = tt
call-ReadsBy s (cancels target request_id) w =
    found-reads s _ w (find_target-Finds s target request_id)
call-ReadsBy s (cancels_request request_id) w = found-reads s _ w (by_request-Finds s request_id)

LookupReads-later :
    (lookup : RecordLookup) (w : Readings) (time later : ℕ)
    → time ≤ later
    → LookupReads lookup w time
    → LookupReads lookup w later
LookupReads-later (found r) w time later h k = omega arith
LookupReads-later not_found w time later h k = tt
LookupReads-later ambiguous w time later h k = tt

ReadsBy-later :
    (s : RoutingPolicy) (call : Call) (w : Readings) (time later : ℕ)
    → time ≤ later
    → ReadsBy s call w time
    → ReadsBy s call w later
ReadsBy-later s (admits entry start override draws) w time later h k = omega arith
ReadsBy-later s (dequeues override) w time later h k = omega arith
ReadsBy-later s (expires override) w time later h k = omega arith
ReadsBy-later s (peeks override) w time later h k = omega arith
ReadsBy-later s (asks target override) w time later h k = omega arith
ReadsBy-later s (releases target request_id) w time later h k = tt
ReadsBy-later s (cancels target request_id) w time later h k = LookupReads-later _ w time later h k
ReadsBy-later s (cancels_request request_id) w time later h k = LookupReads-later _ w time later h k

-- Over any history of calls, whatever the clock and the callers say, the time that the policy has
-- observed last does not go back, and it ends at or after the first time that each call has read: of
-- the calls that admit, dequeue, expire, peek or ask, and of the cancellations that find a record.
pub run_calls-AllReadBy :
    (s : RoutingPolicy) (calls : List (Call × Readings))
    → (observed_now s ≤ observed_now (run_calls s calls))
      × AllReadBy s calls (observed_now (run_calls s calls))
unfolding run_calls
run_calls-AllReadBy s [] = (omega arith, tt)
run_calls-AllReadBy s ((call, w) ∷ calls) =
    let (later, all_read) = run_calls-AllReadBy (apply_call s call w) calls in
    let step = Steps-le (apply_call-Steps s call w) in
    (omega arith, (ReadsBy-later s call w _ _ later (call-ReadsBy s call w), all_read))
