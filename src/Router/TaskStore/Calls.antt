-- ===== src/Router/TaskStore/Calls.antt =====
-- The reading, executing, cancelling and purging calls of src/router/task-store.ts make steps only.
use pi_to_pi.Prelude.{if_elim, Bool, Option, none, some, Text, ok, err}
use pi_to_pi.Protocol.TaskState.{TaskState, working, state_eq}
use pi_to_pi.Router.TaskStore.{
  StoredTask, TaskStore, TaskStoreOptions, Clocks, TaskTransitionUpdate, no_update, Dates,
}
use pi_to_pi.Router.TaskStore.Records.{find_record}
use pi_to_pi.Router.TaskStore.Transition.{
  Answer, TaskTransitionResult, changed, failed, deadline_update,
}
use pi_to_pi.Router.TaskStore.Operations.{
  SnapshotReadOptions, TaskHandle, map_answer, after_expiry, get_status_found, get_status_result,
  get_task, get_task_handle_found, get_task_handle, transition, or_throw, transition_or_throw,
  expire_task_found, expire_task, begin_after, begin_current, begin_expired, begin_found,
  begin_execution,
}
use pi_to_pi.Router.TaskStore.Steps.{Steps, stay, Steps-trans}
use pi_to_pi.Router.TaskStore.Moves.{Makes, expire_if_due-Makes, try_transition-Makes}

module _ (dates : Dates) (options : TaskStoreOptions) (purging : Bool) where
  pub map_answer-Makes :
      {A B : Type 0} (s : TaskStore) (f : A → B) (a : Answer A)
      → Makes dates options purging s a
      → Makes dates options purging s (map_answer f a)
  map_answer-Makes s f (t, ok x) h = h
  map_answer-Makes s f (t, err e) h = h

  after_expiry-Makes :
      {A : Type 0} (s : TaskStore) (a : Answer (Unit {0})) (key : Text)
      (k : TaskStore → Option StoredTask → A)
      → Makes dates options purging s a
      → Makes dates options purging s (after_expiry a key k)
  unfolding after_expiry
  after_expiry-Makes s (t, ok _) key k h = h
  after_expiry-Makes s (t, err e) key k h = h

  pub get_status_result-Makes :
      (s : TaskStore) (key : Text) (o : SnapshotReadOptions) (c : Clocks)
      → Makes dates options purging s (get_status_result dates options s key o c)
  unfolding get_status_result
  get_status_result-Makes s key o c = go (find_record key s.records)
    where
      go :
          (m : Option StoredTask)
          → Makes dates options purging s (get_status_found dates options s o c m)
      go none = unfold get_status_found in stay
      go (some r) =
          unfold get_status_found in
          after_expiry-Makes s _ r.request_id _ (expire_if_due-Makes dates options purging s r c)

  pub get_task-Makes :
      (s : TaskStore) (key : Text) (o : SnapshotReadOptions) (c : Clocks)
      → Makes dates options purging s (get_task dates options s key o c)
  unfolding get_task
  get_task-Makes s key o c = map_answer-Makes s _ _ (get_status_result-Makes s key o c)

  pub get_task_handle-Makes :
      (s : TaskStore) (key : Text) (c : Clocks)
      → Makes dates options purging s (get_task_handle dates options s key c)
  unfolding get_task_handle
  get_task_handle-Makes s key c = go (find_record key s.records)
    where
      go :
          (m : Option StoredTask)
          → Makes dates options purging s (get_task_handle_found dates options s c m)
      go none = unfold get_task_handle_found in stay
      go (some r) =
          unfold get_task_handle_found in
          after_expiry-Makes s _ r.request_id _ (expire_if_due-Makes dates options purging s r c)

  pub transition-Makes :
      (s : TaskStore) (key : Text) (expected : Option TaskState) (target : TaskState)
      (u : TaskTransitionUpdate) (c : Clocks)
      → Makes dates options purging s (transition dates options s key expected target u c)
  unfolding transition
  transition-Makes s key expected target u c =
      map_answer-Makes s _ _ (try_transition-Makes dates options purging s key expected target u c)

  or_throw-Makes :
      (s : TaskStore) (a : Answer TaskTransitionResult)
      → Makes dates options purging s a
      → Makes dates options purging s (or_throw a)
  unfolding or_throw
  or_throw-Makes s (t, err e) h = h
  or_throw-Makes s (t, ok (changed before snapshot)) h = h
  or_throw-Makes s (t, ok (failed code snapshot)) h = h

  pub transition_or_throw-Makes :
      (s : TaskStore) (key : Text) (target : TaskState) (u : TaskTransitionUpdate) (c : Clocks)
      → Makes dates options purging s (transition_or_throw dates options s key target u c)
  unfolding transition_or_throw
  transition_or_throw-Makes s key target u c =
      or_throw-Makes s _ (try_transition-Makes dates options purging s key none target u c)

  pub expire_task-Makes :
      (s : TaskStore) (key : Text) (c : Clocks)
      → Makes dates options purging s (expire_task dates options s key c)
  unfolding expire_task
  expire_task-Makes s key c = go (find_record key s.records)
    where
      go :
          (m : Option StoredTask)
          → Makes dates options purging s (expire_task_found dates options s c m)
      go none = unfold expire_task_found in stay
      go (some r) =
          unfold expire_task_found in
          map_answer-Makes s _ _ (
            try_transition-Makes dates options purging s r.request_id none TaskState.expired
              deadline_update c)

  begin_after-Makes :
      (s : TaskStore) (a : Answer TaskTransitionResult) (key : Text)
      → Makes dates options purging s a
      → Makes dates options purging s (begin_after a key)
  unfolding begin_after
  begin_after-Makes s (t, err e) key h = h
  begin_after-Makes s (t, ok (changed before snapshot)) key h = h
  begin_after-Makes s (t, ok (failed code snapshot)) key h = h

  begin_current-Makes :
      (s : TaskStore) (c : Clocks) (m : Option StoredTask)
      → Makes dates options purging s (begin_current dates options s c m)
  unfolding begin_current
  begin_current-Makes s c none = stay
  begin_current-Makes s c (some r) =
      if_elim (λ (a : Answer (Option TaskHandle)). Steps options purging s a.0)
        (state_eq r.snapshot.state working) (λ _. stay)
        λ _.
          begin_after-Makes s _ r.request_id
            (try_transition-Makes dates options purging s r.request_id none working no_update c)

  begin_expired-Makes :
      (s : TaskStore) (a : Answer (Unit {0})) (key : Text) (c : Clocks)
      → Makes dates options purging s a
      → Makes dates options purging s (begin_expired dates options a key c)
  unfolding begin_expired
  begin_expired-Makes s (t, err e) key c h = h
  begin_expired-Makes s (t, ok _) key c h =
      Steps-trans options purging h (begin_current-Makes t c (find_record key t.records))

  pub begin_execution-Makes :
      (s : TaskStore) (key : Text) (c : Clocks)
      → Makes dates options purging s (begin_execution dates options s key c)
  unfolding begin_execution
  begin_execution-Makes s key c = go (find_record key s.records)
    where
      go : (m : Option StoredTask) → Makes dates options purging s (begin_found dates options s c m)
      go none = unfold begin_found in stay
      go (some r) =
          unfold begin_found in
          begin_expired-Makes s _ r.request_id _ (expire_if_due-Makes dates options purging s r c)
