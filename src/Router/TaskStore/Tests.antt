-- ===== src/Router/TaskStore/Tests.antt =====
-- Runs of the store of src/router/task-store.ts on concrete tasks.
use pi_to_pi.Prelude.{◌≡◌, refl, true, false, none, some, [], ◌∷◌, codes, ok, arith}
use pi_to_pi.Prelude.Strings.{text_eq}
use pi_to_pi.Protocol.TaskState.{TaskState, is_terminal, can_transition}
use pi_to_pi.Router.TaskStore.{
  TaskOwner, TaskSnapshot, StoredTask, inbound, TaskStore, TaskStoreOptions, Clocks, no_update,
  unauthorized, status, cancel, Dates, normalize_timestamp, is_authorized,
}
use pi_to_pi.Router.TaskStore.Records.{find_record}
use pi_to_pi.Router.TaskStore.Transition.{
  changed, try_transition, try_found, transition_found, transition_timed, transition_after,
  transition_current, expire_if_due, next_cancellation, next_updated_at, fire_expiry,
}
use pi_to_pi.Router.TaskStore.Operations.{
  SnapshotReadOptions, refused, get_status_result, failed_cancel, CancellationRequest,
}
use pi_to_pi.Router.TaskStore.Cancel.{cancel_task}
use pi_to_pi.Router.TaskStore.History.{starts, expiry_fires, clears, run_calls}
use pi_to_pi.Router.TaskStore.Invariant.{
  IsValidStore, run_calls-IsValidStore, new_store-IsValidStore,
}
use pi_to_pi.Router.TaskStore.Outcomes.{Follows, run_calls-Follows}
use pi_to_pi.Router.TaskStore.Answers.{HasStored, try_transition-IsTrue}
use pi_to_pi.Router.TaskStore.Authorization.{
  Only, only_expired, get_status_result-refuses, cancel_task-refuses,
}
use pi_to_pi.Router.TaskStore.Deadlines.{
  HasExpired, Misses, fire_expiry-expires, try_transition-Misses,
}

-- A date is written as one unit, its time.
abbrev sample_dates : Dates
sample_dates = record { to_iso = λ ms. some (ms ∷ []); parse = λ t. none }

abbrev sample_options : TaskStoreOptions
sample_options = record {
  retain_terminal_response = true;
  terminal_retention_ms = some 500;
  local_owner_runtime_id = some (codes "local");
  authorize = λ id action owner caller. false;
}

abbrev owner : TaskOwner
owner = record { runtime_id = codes "peer"; session_id = none }

-- A queued task that is due at 100.
abbrev task : StoredTask
task = record {
  request_id = codes "r";
  owner = owner;
  local_owner = owner;
  expected_target_runtime_id = none;
  room_id = none;
  response_contract = none;
  ownership = inbound;
  deadline_ms = 1100;
  deadline_monotonic_ms = 100;
  updated_at_ms = 1000;
  snapshot = record {
    request_id = codes "r";
    state = TaskState.queued;
    created_at = codes "2026";
    updated_at = codes "2026";
    expires_at = codes "2026";
    cancellation_requested = false;
    cancellation = none;
    terminal_outcome = none;
    content = none;
    error = none;
  };
  abort_signal = none;
  expiry_timer = some 100;
  purge_timer = none;
}

abbrev empty_store : TaskStore
empty_store = record { records = []; queued = []; disposed = false; events = [] }

abbrev store : TaskStore
store = record { records = task ∷ []; queued = codes "r" ∷ []; disposed = false; events = [] }

abbrev early : Clocks
early = record { wall = λ i. 1010; monotonic = λ i. 10 }

abbrev late : Clocks
late = record { wall = λ i. 1200; monotonic = λ i. 200 }

holds_task : find_record (codes "r") store.records ≡ some task
unfolding find_record text_eq
holds_task = refl

run_calls-IsValidStore_example : IsValidStore (
    run_calls sample_dates sample_options empty_store
      ((starts (codes "r"), early) ∷ (clears, late) ∷ []))
run_calls-IsValidStore_example =
    run_calls-IsValidStore sample_dates sample_options empty_store
      ((starts (codes "r"), early) ∷ (clears, late) ∷ []) new_store-IsValidStore

run_calls-Follows_example :
    (r : StoredTask) × (find_record
        (codes "r")
        (run_calls sample_dates sample_options store
          ((starts (codes "r"), early) ∷ (expiry_fires (codes "r"), late) ∷ [])).records
      ≡ some r)
    × Follows task r
run_calls-Follows_example =
    run_calls-Follows sample_dates sample_options store
      ((starts (codes "r"), early) ∷ (expiry_fires (codes "r"), late) ∷ []) (codes "r") task
      (refl, (refl, tt)) holds_task

starts_it :
    (snapshot : TaskSnapshot) × ((try_transition sample_dates sample_options store
        (codes "r")
        none
        TaskState.working
        no_update
        early).1
      ≡ ok (changed TaskState.queued snapshot))
unfolding try_transition try_found transition_found transition_timed transition_after
    transition_current expire_if_due next_cancellation next_updated_at find_record text_eq
    is_terminal can_transition normalize_timestamp
starts_it = (_, refl)

try_transition-IsTrue_example :
    HasStored
      (codes "r")
      TaskState.working
      TaskState.queued
      starts_it.0
      (try_transition sample_dates sample_options store
        (codes "r")
        none
        TaskState.working
        no_update
        early).0
try_transition-IsTrue_example =
    try_transition-IsTrue sample_dates sample_options store (codes "r") none TaskState.working
      no_update early TaskState.queued starts_it.0 starts_it.1

abbrev stranger : SnapshotReadOptions
stranger = record { include_terminal_response = true; caller = some (some (codes "other")) }

strange :
    (r : StoredTask)
    → find_record (codes "r") store.records ≡ some r
    → is_authorized sample_options r (some (codes "other")) status ≡ false
unfolding is_authorized find_record text_eq
strange r h = let own : task ≡ r = cc in rw⁻¹ own refl

get_status_result-refuses_example :
    Only sample_dates sample_options
      (refused unauthorized)
      (get_status_result sample_dates sample_options store (codes "r") stranger early).1
get_status_result-refuses_example =
    get_status_result-refuses sample_dates sample_options store (codes "r") stranger early
      (some (codes "other")) refl strange

abbrev strange_request : CancellationRequest
strange_request = record {
  caller = some (some (codes "other"));
  reason = none;
  requested_at = none;
}

strange_cancel :
    (r : StoredTask)
    → find_record (codes "r") store.records ≡ some r
    → is_authorized sample_options r (some (codes "other")) cancel ≡ false
unfolding is_authorized find_record text_eq
strange_cancel r h = let own : task ≡ r = cc in rw⁻¹ own refl

cancel_task-refuses_example :
    Only sample_dates sample_options
      (failed_cancel unauthorized none)
      (cancel_task sample_dates sample_options store (codes "r") strange_request late).1
    × ((cancel_task sample_dates sample_options store (codes "r") strange_request late).0
        ≡ only_expired sample_dates sample_options store late
            (find_record (codes "r") store.records))
cancel_task-refuses_example =
    cancel_task-refuses sample_dates sample_options store (codes "r") strange_request late
      (some (codes "other")) refl refl strange_cancel

is_open : is_terminal TaskState.queued ≡ false
unfolding is_terminal
is_open = refl

fire_expiry-expires_example :
    ((fire_expiry sample_dates sample_options store (codes "r") late).1 ≡ ok tt)
    × HasExpired (codes "r") (fire_expiry sample_dates sample_options store (codes "r") late).0
fire_expiry-expires_example =
    fire_expiry-expires sample_dates sample_options store (codes "r") task late holds_task is_open
      refl (_, refl) (_, refl)

try_transition-Misses_example : Misses sample_dates sample_options (codes "r") (
    try_transition sample_dates sample_options store
      (codes "r")
      none
      TaskState.completed
      no_update
      late)
try_transition-Misses_example =
    try_transition-Misses sample_dates sample_options store (codes "r") task none
      TaskState.completed no_update late holds_task is_open refl refl (omega arith) (_, refl)
      (_, refl)
