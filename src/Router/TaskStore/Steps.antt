-- ===== src/Router/TaskStore/Steps.antt =====
-- The changes that the store of src/router/task-store.ts makes, as a step relation.
use pi_to_pi.Router.TaskStore.Create.{insert_task}
use pi_to_pi.Prelude.{
  ℕ, ◌≤◌, ◌≡◌, if◌then◌else◌, Bool, true, false, ◌||◌, Option, none, some, Text, Result, ok, err,
  ◌>>=◌, arith,
}
use pi_to_pi.Protocol.TaskState.{TaskState, state_eq, cancelling, can_transition}
use pi_to_pi.Router.TaskStore.{
  StoredTask, TaskStore, TaskStoreOptions, TaskError, Clocks, NormalizedTimestamp,
  TaskTimestampInput, TaskTransitionUpdate, Dates, normalize_timestamp, update_reason,
}
use pi_to_pi.Router.TaskStore.Records.{find_record, change_record}
use pi_to_pi.Router.TaskStore.Transition.{
  is_finished, NextCancellation, next_cancellation, next_updated_at, next_snapshot, latest,
  commit_transition, remove_task,
}

-- A cancellation that was requested stays requested, and is requested in `cancelling`.
pub record IsCarried (r : StoredTask) (next : TaskState) (cancellation : NextCancellation)
    : Type 0 where
  pub stays : r.snapshot.cancellation_requested ≡ true → cancellation.requested ≡ true
  pub starts : state_eq next cancelling ≡ true → cancellation.requested ≡ true

abbrev pub is_some : {A : Type 0} → Option A → Bool
is_some none = false
is_some (some a) = true

-- The snapshot is that of the request, its outcome is its state once it is over, a cancelling task was
-- asked to, a task that is over has no deadline timer, and the signal of a task that is cancelling or
-- expired is aborted.
pub record IsValidTask (r : StoredTask) : Type 0 where
  pub named : r.snapshot.request_id ≡ r.request_id
  pub outcome :
      r.snapshot.terminal_outcome ≡ (if is_finished r then some r.snapshot.state else none)
  pub asked : is_some r.snapshot.cancellation ≡ r.snapshot.cancellation_requested
  pub cancelling_asked :
      state_eq r.snapshot.state cancelling ≡ true → r.snapshot.cancellation_requested ≡ true
  pub silent : is_finished r ≡ true → r.expiry_timer ≡ none
  pub aborted :
      (state_eq r.snapshot.state cancelling || state_eq r.snapshot.state TaskState.expired) ≡ true
      → is_some r.abort_signal ≡ true

-- Timers that went off.
abbrev pub without_expiry_timer : StoredTask → StoredTask
without_expiry_timer r = record r { expiry_timer = none }

abbrev pub without_purge_timer : StoredTask → StoredTask
without_purge_timer r = record r { purge_timer = none }

-- `purging` says whether tasks that are over may be removed.
module _ (options : TaskStoreOptions) (purging : Bool) where
  pub data Step (s s' : TaskStore) : Type 0 where
    transitioned :
        (r : StoredTask) (next : TaskState) (u : TaskTransitionUpdate)
        (cancellation : NextCancellation) (timestamp : NormalizedTimestamp)
        → find_record r.request_id s.records ≡ some r
        → can_transition r.snapshot.state next ≡ true
        → is_finished r ≡ false
        → IsCarried r next cancellation
        → r.updated_at_ms ≤ timestamp.epoch_ms
        → s'
          ≡ commit_transition options s r
              (next_snapshot options r next u cancellation timestamp)
              timestamp.epoch_ms
              (update_reason u)
        → Step s s'
    inserted :
        (r : StoredTask)
        → find_record r.request_id s.records ≡ none
        → IsValidTask r
        → s' ≡ insert_task s r
        → Step s s'
    expiry_fired :
        (key : Text)
        → s' ≡ record s { records = change_record key without_expiry_timer s.records }
        → Step s s'
    purge_fired :
        (key : Text)
        → s' ≡ record s { records = change_record key without_purge_timer s.records }
        → Step s s'
    removed :
        (r : StoredTask)
        → purging ≡ true
        → find_record r.request_id s.records ≡ some r
        → is_finished r ≡ true
        → s' ≡ remove_task s r.request_id
        → Step s s'

  pub data Steps : TaskStore → TaskStore → Type 0 where
    stay : {s : TaskStore} → Steps s s
    move : {s t u : TaskStore} → Step s t → Steps t u → Steps s u

  pub Steps-trans : {s t u : TaskStore} → Steps s t → Steps t u → Steps s u
  Steps-trans stay qs = qs
  Steps-trans (move p ps) qs = move p (Steps-trans ps qs)

  module _ (dates : Dates) where
    latest-le :
        (at : ℕ) (candidate t : NormalizedTimestamp)
        → latest dates options at candidate ≡ ok t
        → at ≤ t.epoch_ms
    unfolding normalize_timestamp
    latest-le at candidate t h = ground arith

    bound-le :
        (at : ℕ) (m : Result TaskError NormalizedTimestamp) (t : NormalizedTimestamp)
        → (m >>= latest dates options at) ≡ ok t
        → at ≤ t.epoch_ms
    bound-le at (ok candidate) t h = latest-le at candidate t h
    bound-le at (err e) t h = absurd cc

    pub next_updated_at-le :
        (r : StoredTask) (value : Option TaskTimestampInput) (c : Clocks) (t : NormalizedTimestamp)
        → next_updated_at dates options r value c ≡ ok t
        → r.updated_at_ms ≤ t.epoch_ms
    unfolding next_updated_at
    next_updated_at-le r value c t h = bound-le r.updated_at_ms _ t h

    pub next_cancellation-IsCarried :
        (r : StoredTask) (next : TaskState) (u : TaskTransitionUpdate) (c : Clocks)
        (n : NextCancellation)
        → next_cancellation dates options r next u c ≡ ok n
        → IsCarried r next n
    unfolding next_cancellation normalize_timestamp
    next_cancellation-IsCarried r next u c n h = ground arith
