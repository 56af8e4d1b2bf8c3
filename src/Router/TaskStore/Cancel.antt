-- ===== src/Router/TaskStore/Cancel.antt =====
-- src/router/task-store.ts: `cancelTask`, `purgeTask`, `listSnapshots`, `clear` and `dispose`. Clearing
-- also aborts the signals of the tasks that it drops, which the store then no longer holds.
use pi_to_pi.Prelude.{
  if◌then◌else◌, Bool, true, false, not, Option, none, some, List, [], ◌∷◌, Text, ok, err,
}
use pi_to_pi.Protocol.TaskState.{TaskState, working, cancelling, cancelled, state_eq}
use pi_to_pi.Protocol.Errors
use pi_to_pi.Protocol.Errors.{plain_error}
use pi_to_pi.Router.TaskStore.{
  TaskSnapshot, StoredTask, TaskStore, TaskStoreOptions, unauthorized, not_cancelable, status,
  cancel, Clocks, within, epoch, TaskTransitionUpdate, no_update, or_value, Dates, project_snapshot,
}
use pi_to_pi.Router.TaskStore.Records.{find_record}
use pi_to_pi.Router.TaskStore.Transition.{
  Answer, TaskTransitionResult, changed, failed, is_finished, disposed_error, expire_if_due,
  try_transition, remove_task,
}
use pi_to_pi.Router.TaskStore.Operations.{
  SnapshotReadOptions, TaskCancellationResult, accepted_cancel, failed_cancel, CancellationRequest,
  allowed, missing_code, cancellation_failure_code, map_answer,
}

-- The answer to `cancelTask`, from that of the transition to the given state.
abbrev cancelled_to : TaskState → TaskTransitionResult → TaskCancellationResult
cancelled_to state (changed before snapshot) = accepted_cancel true state snapshot
cancelled_to state (failed code snapshot) = failed_cancel (cancellation_failure_code code) snapshot

abbrev reason_error : Option Text → TaskTransitionUpdate → TaskTransitionUpdate
reason_error none u = u
reason_error (some reason) u = record u {
  error = some (some (plain_error Errors.cancelled reason));
}

module _ (dates : Dates) (options : TaskStoreOptions) where
  abbrev pub cancel_update : CancellationRequest → Clocks → TaskTransitionUpdate
  cancel_update request c = record no_update {
    cancellation_requested = true;
    requested_at = some (or_value request.requested_at (epoch (c.wall 0)));
  }

  unfoldable pub cancel_open :
      TaskStore → StoredTask → CancellationRequest → Clocks → Answer TaskCancellationResult
  cancel_open s r request c =
      if state_eq r.snapshot.state working
      then map_answer (cancelled_to cancelling) (
          try_transition dates options s r.request_id none cancelling
            (record (cancel_update request c) { reason = request.reason }) (within 10 c))
      else map_answer (cancelled_to cancelled) (
          try_transition dates options s r.request_id none cancelled
            (reason_error request.reason (cancel_update request c)) (within 10 c))

  unfoldable pub cancel_current :
      TaskStore → CancellationRequest → Clocks → Option StoredTask → Answer TaskCancellationResult
  cancel_current s request c none = (s, ok (failed_cancel (missing_code request.caller) none))
  cancel_current s request c (some r) =
      if not (allowed options r request.caller cancel)
      then (s, ok (failed_cancel unauthorized none))
      else if state_eq r.snapshot.state cancelled
      then (s, ok (accepted_cancel false cancelled r.snapshot))
      else if is_finished r
      then (s, ok (failed_cancel not_cancelable (some r.snapshot)))
      else cancel_open s r request c

  -- The record's object is still in the map after `expireIfDue`.
  unfoldable pub cancel_expired :
      Answer (Unit {0}) → Text → CancellationRequest → Clocks → Answer TaskCancellationResult
  cancel_expired (s, err e) key request c = (s, err e)
  cancel_expired (s, ok _) key request c = cancel_current s request c (find_record key s.records)

  unfoldable pub cancel_found :
      TaskStore → CancellationRequest → Clocks → Option StoredTask → Answer TaskCancellationResult
  cancel_found s request c none = (s, ok (failed_cancel (missing_code request.caller) none))
  cancel_found s request c (some r) =
      cancel_expired (expire_if_due dates options s r c) r.request_id request (within 40 c)

  unfoldable pub cancel_task :
      TaskStore → Text → CancellationRequest → Clocks → Answer TaskCancellationResult
  cancel_task s key request c =
      if s.disposed
      then (s, err disposed_error)
      else cancel_found s request c (find_record key s.records)

  abbrev pub push_snapshot : TaskSnapshot → Answer (List TaskSnapshot) → Answer (List TaskSnapshot)
  push_snapshot snapshot (s, ok rest) = (s, ok (snapshot ∷ rest))
  push_snapshot snapshot (s, err e) = (s, err e)

  -- One round of the loop of `listSnapshots`: what it adds for the record as it is now.
  unfoldable pub listed :
      SnapshotReadOptions
      → Option StoredTask
      → Answer (List TaskSnapshot)
      → Answer (List TaskSnapshot)
  listed o none rest = rest
  listed o (some r) rest =
      if not (allowed options r o.caller status)
      then rest
      else push_snapshot (project_snapshot r.snapshot o.include_terminal_response) rest

  unfoldable pub list_next :
      SnapshotReadOptions
      → Answer (Unit {0})
      → Text
      → (TaskStore → Answer (List TaskSnapshot))
      → Answer (List TaskSnapshot)
  list_next o (s, err e) key rest = (s, err e)
  list_next o (s, ok _) key rest = listed o (find_record key s.records) (rest s)

  unfoldable pub list_from :
      TaskStore → List StoredTask → SnapshotReadOptions → Clocks → Answer (List TaskSnapshot)
  list_from s [] o c = (s, ok [])
  list_from s (r ∷ rs) o c =
      list_next o (expire_if_due dates options s r c) r.request_id
        λ s'. list_from s' rs o (within 50 c)

  unfoldable pub list_snapshots :
      TaskStore → SnapshotReadOptions → Clocks → Answer (List TaskSnapshot)
  list_snapshots s o c = list_from s s.records o c

unfoldable pub purge_task_found : TaskStore → Option StoredTask → TaskStore × Bool
purge_task_found s none = (s, false)
purge_task_found s (some r) =
    if not (is_finished r) then (s, false) else (remove_task s r.request_id, true)

unfoldable pub purge_task : TaskStore → Text → TaskStore × Bool
purge_task s key = purge_task_found s (find_record key s.records)

unfoldable pub clear_tasks : TaskStore → TaskStore
clear_tasks s = record s { records = []; queued = [] }

unfoldable pub dispose : TaskStore → TaskStore
dispose s = if s.disposed then s else record (clear_tasks s) { disposed = true }
