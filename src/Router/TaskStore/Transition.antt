-- ===== src/Router/TaskStore/Transition.antt =====
-- src/router/task-store.ts: `tryTransition`, the expiry of a task and the timers. Hooks do not call the
-- store.
use pi_to_pi.Prelude.{
  ℕ, leb, if◌then◌else◌, Bool, false, not, ◌||◌, ◌&&◌, Option, none, some, List, [], ◌∷◌, ◌++◌,
  Text, codes, Result, ok, err, ◌>>=◌,
}
use pi_to_pi.Protocol.TaskState.{
  TaskState, cancelling, cancelled, queued, state_eq, is_terminal, can_transition,
}
use pi_to_pi.Protocol.Errors
use pi_to_pi.Protocol.Errors.{plain_error}
use pi_to_pi.Router.TaskStore.{
  TaskSnapshot, StoredTask, TaskEvent, state_changed, cancellation_asked, task_expired, TaskStore,
  TaskStoreOptions, TaskStoreErrorCode, not_found, invalid_transition, terminal, TaskError,
  task_store_error, Clocks, within, NormalizedTimestamp, TaskTimestampInput, epoch,
  TaskTransitionUpdate, no_update, or_else, or_value, Dates, normalize_timestamp, build_snapshot,
  response_for_update, update_reason,
}
use pi_to_pi.Router.TaskStore.Records.{
  find_record, change_record, delete_record, add_key, delete_key,
}

-- What a call leaves in the store, with what it returns or throws.
abbrev pub Answer : Type 0 → Type 0
Answer A = TaskStore × Result TaskError A

pub data TaskTransitionResult : Type 0 where
  changed : TaskState → TaskSnapshot → TaskTransitionResult
  failed : TaskStoreErrorCode → Option TaskSnapshot → TaskTransitionResult

abbrev pub is_finished : StoredTask → Bool
is_finished r = is_terminal r.snapshot.state

abbrev pub disposed_error : TaskError
disposed_error = task_store_error TaskStoreErrorCode.disposed none

abbrev pub is_aborting : TaskState → Bool
is_aborting s = state_eq s cancelling || (state_eq s cancelled || state_eq s TaskState.expired)

-- The record after a transition: its snapshot, its timers and its signal.
unfoldable pub settle_task :
    TaskStoreOptions → TaskSnapshot → ℕ → Option Text → StoredTask → StoredTask
settle_task options snapshot updated_at_ms reason r = record r {
  snapshot = snapshot;
  updated_at_ms = updated_at_ms;
  expiry_timer = if is_terminal snapshot.state then none else r.expiry_timer;
  purge_timer =
      if is_terminal snapshot.state
      then or_else options.terminal_retention_ms r.purge_timer
      else r.purge_timer;
  abort_signal =
      if is_aborting snapshot.state then or_else r.abort_signal (some reason) else r.abort_signal;
}

unfoldable pub transition_events : StoredTask → TaskSnapshot → Option Text → List TaskEvent
transition_events r next reason =
    state_changed r.request_id r.snapshot.state next.state next
      ∷ (if state_eq next.state TaskState.expired then task_expired next ∷ [] else [])
    ++ (if state_eq next.state cancelling
        then cancellation_asked r.request_id r.owner next reason ∷ []
        else [])

-- From the linearization point of `tryTransition` on.
unfoldable pub commit_transition :
    TaskStoreOptions → TaskStore → StoredTask → TaskSnapshot → ℕ → Option Text → TaskStore
commit_transition options s r next updated_at_ms reason = record s {
  records = change_record r.request_id (settle_task options next updated_at_ms reason) s.records;
  queued =
      if state_eq next.state queued
      then add_key r.request_id s.queued
      else delete_key r.request_id s.queued;
  events = s.events ++ transition_events r next reason;
}

pub record NextCancellation : Type 0 where
  pub requested : Bool
  pub requested_at : Option Text

abbrev pub requested_at_of : TaskSnapshot → Option Text
requested_at_of snapshot = elim snapshot.cancellation [ none ↦ none | some at ↦ at ]

unfoldable pub next_snapshot :
    TaskStoreOptions
    → StoredTask
    → TaskState
    → TaskTransitionUpdate
    → NextCancellation
    → NormalizedTimestamp
    → TaskSnapshot
next_snapshot options r next u cancellation timestamp =
    let current = r.snapshot in
    let response = response_for_update u in
    build_snapshot options.retain_terminal_response (record {
      request_id = r.request_id;
      state = next;
      created_at = current.created_at;
      updated_at = timestamp.value;
      expires_at = current.expires_at;
      cancellation_requested = cancellation.requested;
      requested_at = cancellation.requested_at;
      content = if is_terminal next then response.content else or_value u.content current.content;
      error = if is_terminal next then response.error else or_value u.error current.error;
      terminal = is_terminal next;
      terminal_response = response;
    })

abbrev pub deadline_update : TaskTransitionUpdate
deadline_update = record no_update {
  error = some (some (plain_error Errors.expired (codes "task deadline expired")));
}

abbrev pub without_result : {A : Type 0} → Answer A → Answer (Unit {0})
without_result (s, ok a) = (s, ok tt)
without_result (s, err e) = (s, err e)

module _ (dates : Dates) (options : TaskStoreOptions) where
  unfoldable pub next_cancellation :
      StoredTask → TaskState → TaskTransitionUpdate → Clocks → Result TaskError NextCancellation
  next_cancellation r next u c =
      let current = r.snapshot in
      let requested =
        current.cancellation_requested || (u.cancellation_requested || state_eq next cancelling) in
      let at = requested_at_of current in
      if requested && not current.cancellation_requested
      then (do
        t ← normalize_timestamp dates (or_value u.requested_at (epoch (c.wall 0)))
        ok (record { requested = requested; requested_at = some t.value }))
      else (elim (if requested then u.requested_at else none) [
        | none ↦ ok (record { requested = requested; requested_at = at })
        | some given ↦ do
          t ← normalize_timestamp dates given
          ok (record { requested = requested; requested_at = some t.value })
      ])

  abbrev pub latest : ℕ → NormalizedTimestamp → Result TaskError NormalizedTimestamp
  latest updated_at_ms candidate =
      if leb updated_at_ms candidate.epoch_ms
      then ok candidate
      else normalize_timestamp dates (epoch updated_at_ms)

  unfoldable pub next_updated_at :
      StoredTask → Option TaskTimestampInput → Clocks → Result TaskError NormalizedTimestamp
  next_updated_at r value c =
      normalize_timestamp dates (or_value value (epoch (c.wall 1))) >>= latest r.updated_at_ms

  unfoldable pub transition_timed :
      TaskStore
      → StoredTask
      → TaskState
      → TaskTransitionUpdate
      → Result TaskError NextCancellation
      → Result TaskError NormalizedTimestamp
      → Answer TaskTransitionResult
  transition_timed s r next u (err e) timestamp = (s, err e)
  transition_timed s r next u (ok cancellation) (err e) = (s, err e)
  transition_timed s r next u (ok cancellation) (ok timestamp) =
      let snapshot = next_snapshot options r next u cancellation timestamp in
      (
        commit_transition options s r snapshot timestamp.epoch_ms (update_reason u),
        ok (changed r.snapshot.state snapshot),
      )

  abbrev pub unexpected : Option TaskState → TaskState → Bool
  unexpected none state = false
  unexpected (some expected) state = not (state_eq state expected)

  -- `tryTransition` after the expiry of a task that is due.
  unfoldable pub transition_found :
      TaskStore
      → StoredTask
      → Option TaskState
      → TaskState
      → TaskTransitionUpdate
      → Clocks
      → Answer TaskTransitionResult
  transition_found s r expected next u c =
      if unexpected expected r.snapshot.state
      then (s, ok (failed invalid_transition (some r.snapshot)))
      else if is_finished r
      then (s, ok (failed terminal (some r.snapshot)))
      else if not (can_transition r.snapshot.state next)
      then (s, ok (failed invalid_transition (some r.snapshot)))
      else transition_timed s r next u (next_cancellation r next u c)
          (next_updated_at r u.updated_at c)

  unfoldable pub expire_found : TaskStore → Clocks → Option StoredTask → Answer (Unit {0})
  expire_found s c none = (s, ok tt)
  expire_found s c (some r) =
      if is_finished r
      then (s, ok tt)
      else if s.disposed
      then (s, err disposed_error)
      else without_result (transition_found s r none TaskState.expired deadline_update c)

  unfoldable pub expire_record : TaskStore → Text → Clocks → Answer (Unit {0})
  expire_record s key c = expire_found s c (find_record key s.records)

  unfoldable pub expire_if_due : TaskStore → StoredTask → Clocks → Answer (Unit {0})
  expire_if_due s r c =
      if not (is_finished r) && leb r.deadline_monotonic_ms (c.monotonic 0)
      then expire_record s r.request_id (within 10 c)
      else (s, ok tt)

  unfoldable pub transition_current :
      TaskStore
      → Option TaskState
      → TaskState
      → TaskTransitionUpdate
      → Clocks
      → Option StoredTask
      → Answer TaskTransitionResult
  transition_current s expected next u c none = (s, ok (failed not_found none))
  transition_current s expected next u c (some r) = transition_found s r expected next u c

  -- The record's object is still in the map after `expireIfDue`.
  unfoldable pub transition_after :
      Answer (Unit {0})
      → Text
      → Option TaskState
      → TaskState
      → TaskTransitionUpdate
      → Clocks
      → Answer TaskTransitionResult
  transition_after (s, err e) key expected next u c = (s, err e)
  transition_after (s, ok _) key expected next u c =
      transition_current s expected next u c (find_record key s.records)

  unfoldable pub try_found :
      TaskStore
      → Option TaskState
      → TaskState
      → TaskTransitionUpdate
      → Clocks
      → Option StoredTask
      → Answer TaskTransitionResult
  try_found s expected next u c none = (s, ok (failed not_found none))
  try_found s expected next u c (some r) =
      if state_eq next TaskState.expired
      then transition_found s r expected next u (within 20 c)
      else transition_after (expire_if_due s r c) r.request_id expected next u (within 20 c)

  unfoldable pub try_transition :
      TaskStore
      → Text
      → Option TaskState
      → TaskState
      → TaskTransitionUpdate
      → Clocks
      → Answer TaskTransitionResult
  try_transition s key expected next u c =
      if s.disposed
      then (s, err disposed_error)
      else try_found s expected next u c (find_record key s.records)

  -- The timers. Each is set on a record of the map, which its removal clears.
  unfoldable pub fire_expiry : TaskStore → Text → Clocks → Answer (Unit {0})
  fire_expiry s key c =
      expire_record
        (record s { records = change_record key (λ r. record r { expiry_timer = none }) s.records })
        key c

unfoldable pub remove_task : TaskStore → Text → TaskStore
remove_task s key = record s {
  records = delete_record key s.records;
  queued = delete_key key s.queued;
}

unfoldable pub purge_found : TaskStore → Option StoredTask → TaskStore
purge_found s none = s
purge_found s (some r) = if is_finished r then remove_task s r.request_id else record s {
  records = change_record r.request_id (λ r. record r { purge_timer = none }) s.records;
}

unfoldable pub fire_purge : TaskStore → Text → TaskStore
fire_purge s key = purge_found s (find_record key s.records)
