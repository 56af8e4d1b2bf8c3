-- ===== src/Router/TaskStore/Operations.antt =====
-- src/router/task-store.ts: reading, starting, finishing and cancelling tasks, purging and clearing.
use pi_to_pi.Prelude.{
  if◌then◌else◌, Bool, true, false, not, ◌||◌, Option, none, some, Text, text_eq, codes, ok, err,
}
use pi_to_pi.Protocol.Json.{Value, object, string, get_field}
use pi_to_pi.Protocol.TaskState.{TaskState, working, state_eq}
use pi_to_pi.Protocol.Errors.{ProtocolError}
use pi_to_pi.Router.TaskStore.{
  TaskOwner, TaskSnapshot, StoredTask, TaskStore, TaskStoreOptions, TaskStoreErrorCode, not_found,
  unauthorized, not_cancelable, TaskAuthorizationAction, status, task_store_error, Clocks, within,
  TaskTimestampInput, TaskTransitionUpdate, no_update, Dates, is_authorized, project_snapshot,
}
use pi_to_pi.Router.TaskStore.Records.{find_record}
use pi_to_pi.Router.TaskStore.Transition.{
  Answer, TaskTransitionResult, changed, failed, expire_if_due, deadline_update, try_transition,
}

-- The options of `getTask` and `getStatusResult`; a caller may be without a runtime identifier.
pub record SnapshotReadOptions : Type 0 where
  pub include_terminal_response : Bool
  pub caller : Option (Option Text)

pub data StatusResult : Type 0 where
  found : TaskSnapshot → StatusResult
  refused : TaskStoreErrorCode → StatusResult

-- `TaskHandle` and `TaskExecutionHandle`; the signal is given by whether it is aborted.
pub record TaskHandle : Type 0 where
  pub request_id : Text
  pub owner : TaskOwner
  pub snapshot : TaskSnapshot
  pub aborted : Option (Option Text)

pub data TaskCancellationResult : Type 0 where
  accepted_cancel : Bool → TaskState → TaskSnapshot → TaskCancellationResult
  failed_cancel : TaskStoreErrorCode → Option TaskSnapshot → TaskCancellationResult

pub record CancellationRequest : Type 0 where
  pub caller : Option (Option Text)
  pub reason : Option Text
  pub requested_at : Option TaskTimestampInput

-- `isContent`
abbrev is_content : Value → Bool
is_content (object fs) = is_content_type (get_field (codes "type") fs)
  where
    is_content_type : Value → Bool
    is_content_type (string s) = text_eq s (codes "text") || text_eq s (codes "json")
    is_content_type _ = false
is_content _ = false

-- What `completeTask` makes of contents, and `failTask` and `rejectTask` of an error.
abbrev pub content_update : Option Value → TaskTransitionUpdate
content_update none = no_update
content_update (some v) = record no_update { content = some (some v) }

abbrev pub error_update : Option ProtocolError → TaskTransitionUpdate
error_update none = no_update
error_update (some e) = record no_update { error = some (some e) }

abbrev pub allowed :
    TaskStoreOptions → StoredTask → Option (Option Text) → TaskAuthorizationAction → Bool
allowed options r none action = true
allowed options r (some caller) action = is_authorized options r caller action

abbrev pub missing_code : Option (Option Text) → TaskStoreErrorCode
missing_code none = not_found
missing_code (some caller) = unauthorized

abbrev pub cancellation_failure_code : TaskStoreErrorCode → TaskStoreErrorCode
cancellation_failure_code not_found = not_found
cancellation_failure_code _ = not_cancelable

unfoldable pub snapshot_of : TaskTransitionResult → Option TaskSnapshot
snapshot_of (changed before snapshot) = some snapshot
snapshot_of (failed code snapshot) = none

unfoldable pub any_snapshot_of : TaskTransitionResult → Option TaskSnapshot
any_snapshot_of (changed before snapshot) = some snapshot
any_snapshot_of (failed code snapshot) = snapshot

abbrev pub map_answer : {A B : Type 0} → (A → B) → Answer A → Answer B
map_answer f (s, ok a) = (s, ok (f a))
map_answer f (s, err e) = (s, err e)

unfoldable pub read_status :
    TaskStoreOptions → SnapshotReadOptions → Option StoredTask → StatusResult
read_status options o none = refused (missing_code o.caller)
read_status options o (some r) =
    if not (allowed options r o.caller status)
    then refused unauthorized
    else found (project_snapshot r.snapshot o.include_terminal_response)

abbrev snapshot_found : StatusResult → Option TaskSnapshot
snapshot_found (found snapshot) = some snapshot
snapshot_found (refused code) = none

abbrev handle_of : StoredTask → TaskHandle
handle_of r = record {
  request_id = r.request_id;
  owner = r.owner;
  snapshot = r.snapshot;
  aborted = r.abort_signal;
}

abbrev handle_found : Option StoredTask → Option TaskHandle
handle_found none = none
handle_found (some r) = some (handle_of r)

unfoldable pub or_throw : Answer TaskTransitionResult → Answer TaskSnapshot
or_throw (s, err e) = (s, err e)
or_throw (s, ok (changed before snapshot)) = (s, ok snapshot)
or_throw (s, ok (failed code snapshot)) = (s, err (task_store_error code snapshot))

-- The handle of a record that is working.
unfoldable pub execution_handle : Option StoredTask → Option TaskHandle
execution_handle none = none
execution_handle (some r) = if state_eq r.snapshot.state working then some (handle_of r) else none

unfoldable pub begin_after : Answer TaskTransitionResult → Text → Answer (Option TaskHandle)
begin_after (s, err e) key = (s, err e)
begin_after (s, ok (failed code snapshot)) key = (s, ok none)
begin_after (s, ok (changed before snapshot)) key =
    (s, ok (execution_handle (find_record key s.records)))

-- Continues with the record as it is after `expireIfDue`.
unfoldable pub after_expiry :
    {A : Type 0} → Answer (Unit {0}) → Text → (TaskStore → Option StoredTask → A) → Answer A
after_expiry (s, err e) key k = (s, err e)
after_expiry (s, ok _) key k = (s, ok (k s (find_record key s.records)))

module _ (dates : Dates) (options : TaskStoreOptions) where
  unfoldable pub get_status_found :
      TaskStore → SnapshotReadOptions → Clocks → Option StoredTask → Answer StatusResult
  get_status_found s o c none = (s, ok (refused (missing_code o.caller)))
  get_status_found s o c (some r) =
      after_expiry (expire_if_due dates options s r c) r.request_id λ s'. read_status options o

  unfoldable pub get_status_result :
      TaskStore → Text → SnapshotReadOptions → Clocks → Answer StatusResult
  get_status_result s key o c = get_status_found s o c (find_record key s.records)

  -- `getTask` reads as `getStatusResult` does, and answers `undefined` where that refuses.
  unfoldable pub get_task :
      TaskStore → Text → SnapshotReadOptions → Clocks → Answer (Option TaskSnapshot)
  get_task s key o c = map_answer snapshot_found (get_status_result s key o c)

  unfoldable pub get_task_handle_found :
      TaskStore → Clocks → Option StoredTask → Answer (Option TaskHandle)
  get_task_handle_found s c none = (s, ok none)
  get_task_handle_found s c (some r) =
      after_expiry (expire_if_due dates options s r c) r.request_id λ s'. handle_found

  unfoldable pub get_task_handle : TaskStore → Text → Clocks → Answer (Option TaskHandle)
  get_task_handle s key c = get_task_handle_found s c (find_record key s.records)

  unfoldable pub owns_task : TaskStore → Text → Option Text → Bool
  owns_task s key caller = elim (find_record key s.records) [
    | none ↦ false
    | some r ↦ is_authorized options r caller status
  ]

  unfoldable pub transition :
      TaskStore
      → Text
      → Option TaskState
      → TaskState
      → TaskTransitionUpdate
      → Clocks
      → Answer (Option TaskSnapshot)
  transition s key expected next u c =
      map_answer snapshot_of (try_transition dates options s key expected next u c)

  unfoldable pub transition_or_throw :
      TaskStore → Text → TaskState → TaskTransitionUpdate → Clocks → Answer TaskSnapshot
  transition_or_throw s key next u c = or_throw (try_transition dates options s key none next u c)

  unfoldable pub start_task : TaskStore → Text → Clocks → Answer (Option TaskSnapshot)
  start_task s key c = transition s key none working no_update c

  unfoldable pub complete_task :
      TaskStore → Text → TaskTransitionUpdate → Clocks → Answer (Option TaskSnapshot)
  complete_task s key u c = transition s key none TaskState.completed u c

  unfoldable pub fail_task :
      TaskStore → Text → TaskTransitionUpdate → Clocks → Answer (Option TaskSnapshot)
  fail_task s key u c = transition s key none TaskState.failed u c

  unfoldable pub reject_task :
      TaskStore → Text → TaskTransitionUpdate → Clocks → Answer (Option TaskSnapshot)
  reject_task s key u c = transition s key none TaskState.rejected u c

  unfoldable pub expire_task_found :
      TaskStore → Clocks → Option StoredTask → Answer (Option TaskSnapshot)
  expire_task_found s c none = (s, ok none)
  expire_task_found s c (some r) =
      map_answer any_snapshot_of
        (try_transition dates options s r.request_id none TaskState.expired deadline_update c)

  unfoldable pub expire_task : TaskStore → Text → Clocks → Answer (Option TaskSnapshot)
  expire_task s key c = expire_task_found s c (find_record key s.records)

  unfoldable pub begin_current : TaskStore → Clocks → Option StoredTask → Answer (Option TaskHandle)
  begin_current s c none = (s, ok none)
  begin_current s c (some r) =
      if state_eq r.snapshot.state working
      then (s, ok (some (handle_of r)))
      else begin_after (try_transition dates options s r.request_id none working no_update c)
          r.request_id

  unfoldable pub begin_expired : Answer (Unit {0}) → Text → Clocks → Answer (Option TaskHandle)
  begin_expired (s, err e) key c = (s, err e)
  begin_expired (s, ok _) key c = begin_current s c (find_record key s.records)

  unfoldable pub begin_found : TaskStore → Clocks → Option StoredTask → Answer (Option TaskHandle)
  begin_found s c none = (s, ok none)
  begin_found s c (some r) =
      begin_expired (expire_if_due dates options s r c) r.request_id (within 40 c)

  unfoldable pub begin_execution : TaskStore → Text → Clocks → Answer (Option TaskHandle)
  begin_execution s key c = begin_found s c (find_record key s.records)
