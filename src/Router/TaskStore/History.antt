-- ===== src/Router/TaskStore/History.antt =====
-- Histories of calls and timer events of src/router/task-store.ts.
use pi_to_pi.Prelude.{◌≡◌, Bool, true, false, Option, none, List, [], ◌∷◌, Text, All}
use pi_to_pi.Protocol.TaskState.{TaskState}
use pi_to_pi.Router.TaskStore.{TaskStore, TaskStoreOptions, Clocks, TaskTransitionUpdate, Dates}
use pi_to_pi.Router.TaskStore.Transition.{try_transition, fire_expiry, fire_purge}
use pi_to_pi.Router.TaskStore.Create.{TaskStoreCreateInput, create_task}
use pi_to_pi.Router.TaskStore.Operations.{
  SnapshotReadOptions, CancellationRequest, get_status_result, get_task, get_task_handle,
  transition, transition_or_throw, start_task, complete_task, fail_task, reject_task, expire_task,
  begin_execution,
}
use pi_to_pi.Router.TaskStore.Cancel.{cancel_task, list_snapshots, purge_task, clear_tasks, dispose}
use pi_to_pi.Router.TaskStore.Steps.{Steps, stay, Steps-trans}
use pi_to_pi.Router.TaskStore.Moves.{try_transition-Makes, fire_expiry-Makes}
use pi_to_pi.Router.TaskStore.Admission.{create_task-Makes}
use pi_to_pi.Router.TaskStore.Calls.{
  get_status_result-Makes, get_task-Makes, get_task_handle-Makes, transition-Makes,
  transition_or_throw-Makes, expire_task-Makes, begin_execution-Makes,
}
use pi_to_pi.Router.TaskStore.Dropping.{
  cancel_task-Makes, list_snapshots-Makes, fire_purge-Steps, purge_task-Steps,
}

-- The calls of the store's methods, and a timer that goes off.
pub data Call : Type 0 where
  creates : TaskStoreCreateInput → Call
  reads : Text → SnapshotReadOptions → Call
  gets : Text → SnapshotReadOptions → Call
  handles begins starts expires purges expiry_fires purge_fires : Text → Call
  tries : Text → Option TaskState → TaskState → TaskTransitionUpdate → Call
  moves : Text → Option TaskState → TaskState → TaskTransitionUpdate → Call
  forces : Text → TaskState → TaskTransitionUpdate → Call
  completes fails rejects : Text → TaskTransitionUpdate → Call
  cancels : Text → CancellationRequest → Call
  lists : SnapshotReadOptions → Call
  clears disposes : Call

-- `clear` and `dispose` drop all tasks.
abbrev pub drops_tasks : Call → Bool
drops_tasks clears = true
drops_tasks disposes = true
drops_tasks _ = false

module _ (dates : Dates) (options : TaskStoreOptions) where
  unfoldable pub apply_call : TaskStore → Call → Clocks → TaskStore
  apply_call s (creates i) c = (create_task dates options s i c).0
  apply_call s (reads key o) c = (get_status_result dates options s key o c).0
  apply_call s (gets key o) c = (get_task dates options s key o c).0
  apply_call s (handles key) c = (get_task_handle dates options s key c).0
  apply_call s (begins key) c = (begin_execution dates options s key c).0
  apply_call s (starts key) c = (start_task dates options s key c).0
  apply_call s (expires key) c = (expire_task dates options s key c).0
  apply_call s (purges key) c = (purge_task s key).0
  apply_call s (expiry_fires key) c = (fire_expiry dates options s key c).0
  apply_call s (purge_fires key) c = fire_purge s key
  apply_call s (tries key expected target u) c =
      (try_transition dates options s key expected target u c).0
  apply_call s (moves key expected target u) c =
      (transition dates options s key expected target u c).0
  apply_call s (forces key target u) c = (transition_or_throw dates options s key target u c).0
  apply_call s (completes key u) c = (complete_task dates options s key u c).0
  apply_call s (fails key u) c = (fail_task dates options s key u c).0
  apply_call s (rejects key u) c = (reject_task dates options s key u c).0
  apply_call s (cancels key request) c = (cancel_task dates options s key request c).0
  apply_call s (lists o) c = (list_snapshots dates options s o c).0
  apply_call s clears c = clear_tasks s
  apply_call s disposes c = dispose s

  unfoldable pub run_calls : TaskStore → List (Call × Clocks) → TaskStore
  run_calls s [] = s
  run_calls s ((call, c) ∷ calls) = run_calls (apply_call s call c) calls

  -- Every call but `clear` and `dispose` makes steps only.
  pub apply_call-Steps :
      (s : TaskStore) (call : Call) (c : Clocks)
      → drops_tasks call ≡ false
      → Steps options true s (apply_call s call c)
  unfolding apply_call start_task complete_task fail_task reject_task
  apply_call-Steps s (creates i) c kept = create_task-Makes dates options true s i c
  apply_call-Steps s (reads key o) c kept = get_status_result-Makes dates options true s key o c
  apply_call-Steps s (gets key o) c kept = get_task-Makes dates options true s key o c
  apply_call-Steps s (handles key) c kept = get_task_handle-Makes dates options true s key c
  apply_call-Steps s (begins key) c kept = begin_execution-Makes dates options true s key c
  apply_call-Steps s (starts key) c kept = transition-Makes dates options true s key none _ _ c
  apply_call-Steps s (expires key) c kept = expire_task-Makes dates options true s key c
  apply_call-Steps s (purges key) c kept = purge_task-Steps options s key
  apply_call-Steps s (expiry_fires key) c kept = fire_expiry-Makes dates options true s key c
  apply_call-Steps s (purge_fires key) c kept = fire_purge-Steps options s key
  apply_call-Steps s (tries key expected target u) c kept =
      try_transition-Makes dates options true s key expected target u c
  apply_call-Steps s (moves key expected target u) c kept =
      transition-Makes dates options true s key expected target u c
  apply_call-Steps s (forces key target u) c kept =
      transition_or_throw-Makes dates options true s key target u c
  apply_call-Steps s (completes key u) c kept = transition-Makes dates options true s key none _ u c
  apply_call-Steps s (fails key u) c kept = transition-Makes dates options true s key none _ u c
  apply_call-Steps s (rejects key u) c kept = transition-Makes dates options true s key none _ u c
  apply_call-Steps s (cancels key request) c kept =
      cancel_task-Makes dates options true s key request c
  apply_call-Steps s (lists o) c kept = list_snapshots-Makes dates options true s o c
  apply_call-Steps s clears c kept = absurd (cc)
  apply_call-Steps s disposes c kept = absurd (cc)

  abbrev pub KeepsTasks : Call × Clocks → Type 0
  KeepsTasks e = drops_tasks e.0 ≡ false

  pub run_calls-Steps :
      (s : TaskStore) (calls : List (Call × Clocks))
      → All KeepsTasks calls
      → Steps options true s (run_calls s calls)
  unfolding run_calls
  run_calls-Steps s [] kept = stay
  run_calls-Steps s ((call, c) ∷ calls) (first, kept) =
      Steps-trans options true (apply_call-Steps s call c first)
        (run_calls-Steps (apply_call s call c) calls kept)

  -- `purgeTask`, and a purge timer that goes off, remove tasks that are over.
  abbrev pub removes_tasks : Call → Bool
  removes_tasks (purges key) = true
  removes_tasks (purge_fires key) = true
  removes_tasks call = drops_tasks call

  pub apply_call-Steps_kept :
      (s : TaskStore) (call : Call) (c : Clocks)
      → removes_tasks call ≡ false
      → Steps options false s (apply_call s call c)
  unfolding apply_call start_task complete_task fail_task reject_task
  apply_call-Steps_kept s (purges key) c kept = absurd (cc)
  apply_call-Steps_kept s (purge_fires key) c kept = absurd (cc)
  apply_call-Steps_kept s (creates i) c kept = create_task-Makes dates options false s i c
  apply_call-Steps_kept s (reads key o) c kept =
      get_status_result-Makes dates options false s key o c
  apply_call-Steps_kept s (gets key o) c kept = get_task-Makes dates options false s key o c
  apply_call-Steps_kept s (handles key) c kept = get_task_handle-Makes dates options false s key c
  apply_call-Steps_kept s (begins key) c kept = begin_execution-Makes dates options false s key c
  apply_call-Steps_kept s (starts key) c kept =
      transition-Makes dates options false s key none _ _ c
  apply_call-Steps_kept s (expires key) c kept = expire_task-Makes dates options false s key c
  apply_call-Steps_kept s (expiry_fires key) c kept = fire_expiry-Makes dates options false s key c
  apply_call-Steps_kept s (tries key expected target u) c kept =
      try_transition-Makes dates options false s key expected target u c
  apply_call-Steps_kept s (moves key expected target u) c kept =
      transition-Makes dates options false s key expected target u c
  apply_call-Steps_kept s (forces key target u) c kept =
      transition_or_throw-Makes dates options false s key target u c
  apply_call-Steps_kept s (completes key u) c kept =
      transition-Makes dates options false s key none _ u c
  apply_call-Steps_kept s (fails key u) c kept =
      transition-Makes dates options false s key none _ u c
  apply_call-Steps_kept s (rejects key u) c kept =
      transition-Makes dates options false s key none _ u c
  apply_call-Steps_kept s (cancels key request) c kept =
      cancel_task-Makes dates options false s key request c
  apply_call-Steps_kept s (lists o) c kept = list_snapshots-Makes dates options false s o c
  apply_call-Steps_kept s clears c kept = absurd (cc)
  apply_call-Steps_kept s disposes c kept = absurd (cc)

  -- A call that removes no task.
  abbrev pub Retains : Call × Clocks → Type 0
  Retains e = removes_tasks e.0 ≡ false

  pub run_calls-Steps_kept :
      (s : TaskStore) (calls : List (Call × Clocks))
      → All Retains calls
      → Steps options false s (run_calls s calls)
  unfolding run_calls
  run_calls-Steps_kept s [] kept = stay
  run_calls-Steps_kept s ((call, c) ∷ calls) (first, kept) =
      Steps-trans options false (apply_call-Steps_kept s call c first)
        (run_calls-Steps_kept (apply_call s call c) calls kept)
