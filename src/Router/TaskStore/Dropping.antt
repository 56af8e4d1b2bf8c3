-- ===== src/Router/TaskStore/Dropping.antt =====
-- Cancelling, listing and purging in src/router/task-store.ts make steps only.
use pi_to_pi.Prelude.{
  ◌≡◌, refl, if_elim, Bool, true, not, Option, none, some, List, [], ◌∷◌, Text, ok, err, arith,
}
use pi_to_pi.Protocol.TaskState.{working, cancelling, cancelled, state_eq}
use pi_to_pi.Router.TaskStore.{
  TaskSnapshot, StoredTask, TaskStore, TaskStoreOptions, Clocks, within, Dates, status, cancel,
}
use pi_to_pi.Router.TaskStore.Records.{find_record}
use pi_to_pi.Router.TaskStore.Transition.{Answer, is_finished, purge_found, fire_purge}
use pi_to_pi.Router.TaskStore.Operations.{
  SnapshotReadOptions, TaskCancellationResult, CancellationRequest, allowed,
}
use pi_to_pi.Router.TaskStore.Cancel.{
  cancel_open, cancel_current, cancel_expired, cancel_found, cancel_task, push_snapshot, listed,
  list_next, list_from, list_snapshots, purge_task_found, purge_task,
}
use pi_to_pi.Router.TaskStore.Steps.{Steps, stay, move, purge_fired, removed, Steps-trans}
use pi_to_pi.Router.TaskStore.Moves.{Makes, find-found, expire_if_due-Makes, try_transition-Makes}
use pi_to_pi.Router.TaskStore.Calls.{map_answer-Makes}

module _ (dates : Dates) (options : TaskStoreOptions) (purging : Bool) where
  cancel_open-Makes :
      (s : TaskStore) (r : StoredTask) (request : CancellationRequest) (c : Clocks)
      → Makes dates options purging s (cancel_open dates options s r request c)
  unfolding cancel_open
  cancel_open-Makes s r request c =
      if_elim (λ (a : Answer TaskCancellationResult). Steps options purging s a.0)
        (state_eq r.snapshot.state working)
        (λ _.
          map_answer-Makes dates options purging s _ _
            (try_transition-Makes dates options purging s r.request_id none cancelling _ _))
        (λ _.
          map_answer-Makes dates options purging s _ _
            (try_transition-Makes dates options purging s r.request_id none cancelled _ _))

  cancel_current-Makes :
      (s : TaskStore) (request : CancellationRequest) (c : Clocks) (m : Option StoredTask)
      → Makes dates options purging s (cancel_current dates options s request c m)
  unfolding cancel_current
  cancel_current-Makes s request c none = stay
  cancel_current-Makes s request c (some r) =
      if_elim Fine_s (not (allowed options r request.caller cancel)) (λ _. stay)
        λ _.
          if_elim Fine_s (state_eq r.snapshot.state cancelled) (λ _. stay)
            λ _. if_elim Fine_s (is_finished r) (λ _. stay) λ _. cancel_open-Makes s r request c
    where
      Fine_s : Answer TaskCancellationResult → Type 0
      Fine_s a = Steps options purging s a.0

  cancel_expired-Makes :
      (s : TaskStore) (a : Answer (Unit {0})) (key : Text) (request : CancellationRequest)
      (c : Clocks)
      → Makes dates options purging s a
      → Makes dates options purging s (cancel_expired dates options a key request c)
  unfolding cancel_expired
  cancel_expired-Makes s (t, err e) key request c h = h
  cancel_expired-Makes s (t, ok _) key request c h =
      Steps-trans options purging h (cancel_current-Makes t request c (find_record key t.records))

  pub cancel_task-Makes :
      (s : TaskStore) (key : Text) (request : CancellationRequest) (c : Clocks)
      → Makes dates options purging s (cancel_task dates options s key request c)
  unfolding cancel_task
  cancel_task-Makes s key request c =
      if_elim (λ (a : Answer TaskCancellationResult). Steps options purging s a.0) s.disposed
        (λ _. stay) λ _. go (find_record key s.records)
    where
      go :
          (m : Option StoredTask)
          → Makes dates options purging s (cancel_found dates options s request c m)
      go none = unfold cancel_found in stay
      go (some r) =
          unfold cancel_found in
          cancel_expired-Makes s _ r.request_id request _
            (expire_if_due-Makes dates options purging s r c)

  push_snapshot-Makes :
      (s : TaskStore) (snapshot : TaskSnapshot) (a : Answer (List TaskSnapshot))
      → Makes dates options purging s a
      → Makes dates options purging s (push_snapshot dates options snapshot a)
  push_snapshot-Makes s snapshot (t, ok rest) h = h
  push_snapshot-Makes s snapshot (t, err e) h = h

  listed-Makes :
      (s : TaskStore) (o : SnapshotReadOptions) (m : Option StoredTask)
      (a : Answer (List TaskSnapshot))
      → Makes dates options purging s a
      → Makes dates options purging s (listed dates options o m a)
  unfolding listed
  listed-Makes s o none a h = h
  listed-Makes s o (some r) a h =
      if_elim (λ (b : Answer (List TaskSnapshot)). Steps options purging s b.0)
        (not (allowed options r o.caller status)) (λ _. h) (λ _. push_snapshot-Makes s _ a h)

  list_next-Makes :
      (s : TaskStore) (o : SnapshotReadOptions) (a : Answer (Unit {0})) (key : Text)
      (rest : TaskStore → Answer (List TaskSnapshot))
      → Makes dates options purging s a
      → ((t : TaskStore) → Makes dates options purging t (rest t))
      → Makes dates options purging s (list_next dates options o a key rest)
  unfolding list_next
  list_next-Makes s o (t, err e) key rest h k = h
  list_next-Makes s o (t, ok _) key rest h k =
      listed-Makes s o (find_record key t.records) (rest t) (Steps-trans options purging h (k t))

  list_from-Makes :
      (s : TaskStore) (rs : List StoredTask) (o : SnapshotReadOptions) (c : Clocks)
      → Makes dates options purging s (list_from dates options s rs o c)
  unfolding list_from
  list_from-Makes s [] o c = stay
  list_from-Makes s (r ∷ rs) o c =
      list_next-Makes s o _ r.request_id _ (expire_if_due-Makes dates options purging s r c)
        (λ t. list_from-Makes t rs o (within 50 c))

  pub list_snapshots-Makes :
      (s : TaskStore) (o : SnapshotReadOptions) (c : Clocks)
      → Makes dates options purging s (list_snapshots dates options s o c)
  unfolding list_snapshots
  list_snapshots-Makes s o c = list_from-Makes s s.records o c

module _ (options : TaskStoreOptions) where
  pub fire_purge-Steps : (s : TaskStore) (key : Text) → Steps options true s (fire_purge s key)
  unfolding fire_purge
  fire_purge-Steps s key = go (find_record key s.records) refl
    where
      go :
          (m : Option StoredTask)
          → find_record key s.records ≡ m
          → Steps options true s (purge_found s m)
      go none e = unfold purge_found in stay
      go (some r) e =
          unfold purge_found in
          if_elim (Steps options true s) (is_finished r)
            (λ over. move (removed r refl (find-found key s.records r e) over refl) stay)
            (λ _. move (purge_fired r.request_id refl) stay)

  pub purge_task-Steps : (s : TaskStore) (key : Text) → Steps options true s (purge_task s key).0
  unfolding purge_task
  purge_task-Steps s key = go (find_record key s.records) refl
    where
      go :
          (m : Option StoredTask)
          → find_record key s.records ≡ m
          → Steps options true s (purge_task_found s m).0
      go none e = unfold purge_task_found in stay
      go (some r) e =
          unfold purge_task_found in
          if_elim (λ (a : TaskStore × Bool). Steps options true s a.0) (not (is_finished r))
            (λ _. stay)
            (λ over. move (removed r refl (find-found key s.records r e) (ground arith) refl) stay)
