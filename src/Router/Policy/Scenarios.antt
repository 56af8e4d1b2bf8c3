-- ===== src/Router/Policy/Scenarios.antt =====
-- Concrete policies and calls of src/router/policy.ts.
use pi_to_pi.Prelude.{
  ℕ, ◌+◌, ◌≤◌, ◌≡◌, refl, ap, false, true, none, some, List, [], ◌∷◌, arith, codes,
}
use pi_to_pi.Protocol.TaskState
use pi_to_pi.Router.Policy.{
  RoutingQueueEntry, QueueEntry, QueueRecord, caller_object, queued, task, is_runnable_record,
  is_runnable_state, is_entry_cancellation_requested,
}
use pi_to_pi.Router.Policy.Queue.{Readings, RoutingPolicy, create_lease, dequeue}
use pi_to_pi.Router.Policy.Cancel.{by_text, cancel}
use pi_to_pi.Router.Policy.Handles.{new_record-unused}
use pi_to_pi.Router.Policy.Sweep.{expire_loop, expire_loop-sweeps}
use pi_to_pi.Router.Policy.Admit.{is_taken, handles, new_record}
use pi_to_pi.Router.Policy.Queue.{sweep_queue}
use pi_to_pi.Router.Policy.History.{
  Call, admits, dequeues, cancels_request, expires, run_calls, new_policy,
}
use pi_to_pi.Router.Policy.Bounds.{IsValidPolicy, run_calls-IsValidPolicy}
use pi_to_pi.Router.Policy.Counting.{count, pending, told}
use pi_to_pi.Router.Policy.Once.{Once, run_calls-at_most_once}
use pi_to_pi.Router.Policy.Queue.{observed_now}
use pi_to_pi.Router.Policy.Clock.{AllReadBy, run_calls-AllReadBy}
use pi_to_pi.Router.Policy.Admission.{AdmitsEntry, admit-Admits}
use pi_to_pi.Router.Policy.Admit.{admit, admit_created, create_record, admit_record, start_record}
use pi_to_pi.Router.Policy.Queue.{expire_at, claim_record, claim_again, hand_over, mark_due}
use pi_to_pi.Router.Policy.{read_monotonic_now}
use pi_to_pi.Router.Policy.Handover.{Serves, dequeue-Serves}
use pi_to_pi.Router.Policy.Service.{dequeue-serves_first}
use pi_to_pi.Router.Policy.Removal.{Settles, cancel-Settles}

abbrev quiet : RoutingQueueEntry
quiet = record {
  cancelled = false;
  state = some (task TaskState.queued);
  runnable = none;
  aborted = false;
  is_cancelled = false;
  signal_aborted = false;
}

abbrev entry : QueueEntry
entry = record {
  reference = caller_object 0;
  id = none;
  request_id = some (codes "a");
  expires_at = 20;
}

abbrev first_record : QueueRecord
first_record = record {
  token = 1;
  handle = codes "queue:1";
  entry = entry;
  deadline = 20;
  status = queued;
  expired = false;
  expiry_notified = false;
  cancellation_requested = false;
}

abbrev waiting_policy : RoutingPolicy
waiting_policy = record {
  queue_capacity = 2;
  active_capacity = 1;
  queue = first_record ∷ [];
  active = [];
  next_token = 2;
  last_observed_now = some 0;
  notified = [];
}

abbrev at_ten : Readings
at_ten = record { clock = λ place. 10; look = λ place token. quiet }

abbrev at_thirty : Readings
at_thirty = record { clock = λ place. 30; look = λ place token. quiet }

abbrev first_unit : List ℕ → ℕ
first_unit [] = 0
first_unit (n ∷ _) = n

abbrev calls : List (Call × Readings)
calls =
    (admits entry false none (λ n. codes "queue:1"), at_ten)
    ∷ (dequeues none, at_ten)
    ∷ (cancels_request (codes "a"), at_ten)
    ∷ (expires none, at_thirty)
    ∷ []

waiting_policy-IsValidPolicy : IsValidPolicy waiting_policy
waiting_policy-IsValidPolicy = (
  omega arith,
  (omega arith, ((omega arith, omega arith), (((refl, (refl, (refl, refl))), tt), tt))),
)

waiting_policy-Once : (t : ℕ) → Once t waiting_policy
unfolding count pending told
waiting_policy-Once t = ground arith

run_calls-IsValidPolicy_example : IsValidPolicy (run_calls waiting_policy calls)
run_calls-IsValidPolicy_example =
    run_calls-IsValidPolicy waiting_policy calls waiting_policy-IsValidPolicy

run_calls-at_most_once_example :
    (count 1 (run_calls (new_policy 2 1 0) calls).queue
        + count 1 (run_calls (new_policy 2 1 0) calls).active
      ≤ 1)
    × (told 1 (run_calls (new_policy 2 1 0) calls).notified ≤ 1)
run_calls-at_most_once_example = run_calls-at_most_once 2 1 0 calls 1

dequeue-Serves_example : Serves (first_record ∷ []) at_ten (dequeue waiting_policy none at_ten)
dequeue-Serves_example = dequeue-Serves waiting_policy none at_ten

run_calls-AllReadBy_example :
    (0 ≤ observed_now (run_calls waiting_policy calls))
    × AllReadBy waiting_policy calls (observed_now (run_calls waiting_policy calls))
run_calls-AllReadBy_example = run_calls-AllReadBy waiting_policy calls

runs : is_runnable_record first_record quiet 10 ≡ true
unfolding is_runnable_record is_runnable_state is_entry_cancellation_requested
runs = refl

dequeue-serves_first_example :
    (dequeue waiting_policy none at_ten).1 ≡ some (create_lease first_record)
dequeue-serves_first_example =
    dequeue-serves_first waiting_policy none at_ten first_record [] 10 refl (omega arith)
      (λ place. (omega arith, runs)) (omega arith) (omega arith)

cancel-Settles_example :
    Settles waiting_policy (cancel waiting_policy (by_text (codes "a")) none at_ten)
cancel-Settles_example =
    cancel-Settles waiting_policy (by_text (codes "a")) none at_ten waiting_policy-IsValidPolicy
      waiting_policy-Once

new_record-unused_example :
    is_taken (new_record waiting_policy entry (λ n. n ∷ [])).handle (handles waiting_policy) ≡ false
new_record-unused_example =
    new_record-unused waiting_policy entry (λ n. n ∷ []) λ i j e. ap first_unit e

single : (t : ℕ) → count t (first_record ∷ []) ≤ 1
unfolding count
single t = ground arith

expire_loop-sweeps_example :
    expire_loop at_thirty 30 1 (first_record ∷ []) ≡ sweep_queue at_thirty 30 (first_record ∷ [])
expire_loop-sweeps_example = expire_loop-sweeps at_thirty 30 (first_record ∷ []) single

admit-Admits_example :
    AdmitsEntry waiting_policy entry true at_ten
      (admit waiting_policy entry true none (λ n. n ∷ []) at_ten)
admit-Admits_example = admit-Admits waiting_policy entry true none (λ n. n ∷ []) at_ten

-- A slot is free, and the entry starts.
starts : (admit waiting_policy entry true none (λ n. n ∷ []) at_ten).0.queue ≡ first_record ∷ []
unfolding admit admit_created create_record new_record expire_at admit_record start_record
    claim_record claim_again hand_over sweep_queue is_runnable_record is_runnable_state
    is_entry_cancellation_requested read_monotonic_now mark_due
starts = refl
