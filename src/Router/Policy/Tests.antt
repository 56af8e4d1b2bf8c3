-- ===== src/Router/Policy/Tests.antt =====
-- Concrete options and records of src/router/policy.ts.
use pi_to_pi.Prelude.{◌≤◌, ◌≡◌, refl, false, true, none, some, [], ◌∷◌, pos, int, ok, All, codes}
use pi_to_pi.Protocol.TaskState
use pi_to_pi.Router.Policy.{
  RoutingPolicyOptions, RoutingQueueEntry, QueueRecord, caller_object, queued, task,
  resolve_queue_capacity, resolve_active_capacity, resolve_configured_capacity, agreed, validate_or,
  validate_capacity, is_runnable_record, is_runnable_state, is_entry_cancellation_requested,
}
use pi_to_pi.Router.Policy.Limits.{
  Allows, resolve_queue_capacity-bounds, resolve_active_capacity-bounds,
}

abbrev options : RoutingPolicyOptions
options = record {
  capacity = none;
  queue_capacity = some (int (pos 8));
  max_queue_entries = none;
  limit = some (int (pos 8));
  active_capacity = some (int (pos 2));
  max_active_entries = none;
}

resolves_queue : resolve_queue_capacity options ≡ ok 8
unfolding resolve_queue_capacity resolve_configured_capacity agreed validate_or validate_capacity
resolves_queue = refl

resolves_active : resolve_active_capacity options 8 ≡ ok 2
unfolding resolve_active_capacity resolve_configured_capacity agreed validate_or validate_capacity
resolves_active = refl

resolve_queue_capacity-bounds_example :
    All (Allows 8) (none ∷ some (int (pos 8)) ∷ none ∷ some (int (pos 8)) ∷ [])
    × ((1 ≤ 8) × (8 ≤ 32))
resolve_queue_capacity-bounds_example = resolve_queue_capacity-bounds options 8 resolves_queue

resolve_active_capacity-bounds_example :
    All (Allows 2) (some (int (pos 2)) ∷ none ∷ []) × ((1 ≤ 2) × (2 ≤ 32))
resolve_active_capacity-bounds_example = resolve_active_capacity-bounds options 8 2 resolves_active

abbrev quiet : RoutingQueueEntry
quiet = record {
  cancelled = false;
  state = some (task TaskState.queued);
  runnable = none;
  aborted = false;
  is_cancelled = false;
  signal_aborted = false;
}

abbrev waiting : QueueRecord
waiting = record {
  token = 1;
  handle = codes "queue:1";
  entry = record {
    reference = caller_object 0;
    id = none;
    request_id = some (codes "a");
    expires_at = 20;
  };
  deadline = 20;
  status = queued;
  expired = false;
  expiry_notified = false;
  cancellation_requested = false;
}

runs : is_runnable_record waiting quiet 10 ≡ true
unfolding is_runnable_record is_runnable_state is_entry_cancellation_requested
runs = refl
