-- ===== src/Router/TaskStore/Answers.antt =====
-- What the answers of src/router/task-store.ts tell.
use pi_to_pi.Prelude.{
  ℕ, ◌≡◌, refl, subst, if_elim, true, not, Option, none, some, Text, text_eq, text_eq_iff, Result,
  ok, err, arith,
}
use pi_to_pi.Protocol.TaskState.{TaskState, state_eq, can_transition}
use pi_to_pi.Router.TaskStore.{
  TaskSnapshot, StoredTask, TaskStore, TaskStoreOptions, TaskError, Clocks, within,
  NormalizedTimestamp, TaskTransitionUpdate, Dates, TaskStoreErrorCode, build_snapshot,
  update_reason,
}
use pi_to_pi.Router.TaskStore.Records.{find_record, find-change, find-request_id}
use pi_to_pi.Router.TaskStore.Transition.{
  Answer, TaskTransitionResult, changed, failed, is_finished, NextCancellation, next_snapshot,
  settle_task, commit_transition, transition_timed, unexpected, transition_found, expire_if_due,
  transition_current, transition_after, try_found, try_transition,
}

-- A change that is answered has been stored: the task of the key now has the snapshot of the answer,
-- which is in the state asked for, and the transition to it was legal.
pub record HasStored (key : Text) (target before : TaskState) (snapshot : TaskSnapshot)
    (s : TaskStore) : Type 0 where
  pub task : StoredTask
  pub stored : find_record key s.records ≡ some task
  pub same : task.snapshot ≡ snapshot
  pub reached : snapshot.state ≡ target
  pub legal : can_transition before target ≡ true

-- What an answer says of a change is so.
abbrev pub IsTrue : Text → TaskState → Answer TaskTransitionResult → Type 0
IsTrue key target a =
    (before : TaskState) (snapshot : TaskSnapshot)
    → a.1 ≡ ok (changed before snapshot)
    → HasStored key target before snapshot a.0

found-settled :
    (options : TaskStoreOptions) (s : TaskStore) (r : StoredTask) (key : Text) (next : TaskSnapshot)
    (ms : ℕ) (reason : Option Text)
    → find_record key s.records ≡ some r
    → find_record key (commit_transition options s r next ms reason).records
      ≡ some (settle_task options next ms reason r)
unfolding commit_transition
found-settled options s r key next ms reason at =
    let own : text_eq r.request_id key ≡ true =
      (text_eq_iff r.request_id key).1 (find-request_id key s.records r at) in
    rw (
      find-change r.request_id key (settle_task options next ms reason)
          (λ x. unfold settle_task in refl) s.records,
      own,
      at,
    )

commit-HasStored :
    (options : TaskStoreOptions) (s : TaskStore) (r : StoredTask) (key : Text) (target : TaskState)
    (next : TaskSnapshot) (ms : ℕ) (reason : Option Text)
    → find_record key s.records ≡ some r
    → next.state ≡ target
    → can_transition r.snapshot.state target ≡ true
    → HasStored key target r.snapshot.state next (commit_transition options s r next ms reason)
commit-HasStored options s r key target next ms reason at reached legal = record {
  task = settle_task options next ms reason r;
  stored = found-settled options s r key next ms reason at;
  same = unfold settle_task in refl;
  reached = reached;
  legal = legal;
}

changed_before :
    (b c : TaskState) (s t : TaskSnapshot)
    → ◌≡◌ {A = Result TaskError TaskTransitionResult} (ok (changed b s)) (ok (changed c t))
    → b ≡ c
changed_before b c s t h = cc

changed_snapshot :
    (b c : TaskState) (s t : TaskSnapshot)
    → ◌≡◌ {A = Result TaskError TaskTransitionResult} (ok (changed b s)) (ok (changed c t))
    → s ≡ t
changed_snapshot b c s t h = cc

module _ (dates : Dates) (options : TaskStoreOptions) where
  timed-IsTrue :
      (s : TaskStore) (r : StoredTask) (key : Text) (target : TaskState) (u : TaskTransitionUpdate)
      → find_record key s.records ≡ some r
      → can_transition r.snapshot.state target ≡ true
      → (m : Result TaskError NextCancellation) (t : Result TaskError NormalizedTimestamp)
      → IsTrue key target (transition_timed dates options s r target u m t)
  unfolding transition_timed commit_transition
  timed-IsTrue s r key target u at legal (err e) t before snapshot h = absurd cc
  timed-IsTrue s r key target u at legal (ok n) (err e) before snapshot h = absurd cc
  timed-IsTrue s r key target u at legal (ok n) (ok t) before snapshot h =
      let next = next_snapshot options r target u n t in
      let truth =
        commit-HasStored options s r key target next t.epoch_ms (update_reason u) at
          (unfold next_snapshot build_snapshot in refl) legal in
      subst
        (λ (x : TaskSnapshot).
          HasStored key target before x
            (commit_transition options s r next t.epoch_ms (update_reason u)))
        (changed_snapshot r.snapshot.state before next snapshot h)
        (subst
          (λ b.
            HasStored key target b next
              (commit_transition options s r next t.epoch_ms (update_reason u)))
          (changed_before r.snapshot.state before next snapshot h) truth)

  failed-IsTrue :
      (key : Text) (target : TaskState) (s : TaskStore) (code : TaskStoreErrorCode)
      (shown : Option TaskSnapshot)
      → IsTrue key target (s, ok (failed code shown))
  failed-IsTrue key target s code shown before snapshot h = absurd cc

  thrown-IsTrue :
      (key : Text) (target : TaskState) (s : TaskStore) (e : TaskError)
      → IsTrue key target (s, err e)
  thrown-IsTrue key target s e before snapshot h = absurd cc

  pub found-IsTrue :
      (s : TaskStore) (r : StoredTask) (key : Text) (expected : Option TaskState)
      (target : TaskState) (u : TaskTransitionUpdate) (c : Clocks)
      → find_record key s.records ≡ some r
      → IsTrue key target (transition_found dates options s r expected target u c)
  unfolding transition_found
  found-IsTrue s r key expected target u c at =
      if_elim (λ (a : Answer TaskTransitionResult). IsTrue key target a)
        (unexpected dates options expected r.snapshot.state) (λ _. failed-IsTrue key target s _ _)
        λ _.
          if_elim (λ (a : Answer TaskTransitionResult). IsTrue key target a) (is_finished r)
            (λ _. failed-IsTrue key target s _ _)
            λ _.
              if_elim (λ (a : Answer TaskTransitionResult). IsTrue key target a)
                (not (can_transition r.snapshot.state target)) (λ _. failed-IsTrue key target s _ _)
                λ legal. timed-IsTrue s r key target u at (ground arith) _ _

  current-IsTrue :
      (s : TaskStore) (key : Text) (expected : Option TaskState) (target : TaskState)
      (u : TaskTransitionUpdate) (c : Clocks)
      → IsTrue key target
          (transition_current dates options s expected target u c (find_record key s.records))
  unfolding transition_current
  current-IsTrue s key expected target u c = go (find_record key s.records) refl
    where
      go :
          (m : Option StoredTask)
          → find_record key s.records ≡ m
          → IsTrue key target (transition_current dates options s expected target u c m)
      go none e = failed-IsTrue key target s _ _
      go (some r) e = found-IsTrue s r key expected target u c e

  after-IsTrue :
      (a : Answer (Unit {0})) (key : Text) (expected : Option TaskState) (target : TaskState)
      (u : TaskTransitionUpdate) (c : Clocks)
      → IsTrue key target (transition_after dates options a key expected target u c)
  unfolding transition_after
  after-IsTrue (s, err e) key expected target u c = thrown-IsTrue key target s e
  after-IsTrue (s, ok _) key expected target u c = current-IsTrue s key expected target u c

  -- What `tryTransition` answers of a change is so: the task has the snapshot of the answer, in the state
  -- that was asked for, and the table allows the transition to it from the state that the
  -- answer names.
  pub try_transition-IsTrue :
      (s : TaskStore) (key : Text) (expected : Option TaskState) (target : TaskState)
      (u : TaskTransitionUpdate) (c : Clocks) (before : TaskState) (snapshot : TaskSnapshot)
      → (try_transition dates options s key expected target u c).1 ≡ ok (changed before snapshot)
      → HasStored key target before snapshot
          (try_transition dates options s key expected target u c).0
  unfolding try_transition
  try_transition-IsTrue s key expected target u c =
      if_elim (λ (a : Answer TaskTransitionResult). IsTrue key target a) s.disposed
        (λ _. thrown-IsTrue key target s _) λ _. go (find_record key s.records) refl
    where
      go :
          (m : Option StoredTask)
          → find_record key s.records ≡ m
          → IsTrue key target (try_found dates options s expected target u c m)
      go none e = unfold try_found in failed-IsTrue key target s _ _
      go (some r) e =
          unfold try_found in
          if_elim (λ (a : Answer TaskTransitionResult). IsTrue key target a)
            (state_eq target TaskState.expired) (λ _. found-IsTrue s r key expected target u _ e)
            (λ _.
              subst
                (λ k. IsTrue k target (
                  transition_after dates options (expire_if_due dates options s r c) r.request_id
                    expected target u (within 20 c)))
                (find-request_id key s.records r e)
                (after-IsTrue _ r.request_id expected target u _))
