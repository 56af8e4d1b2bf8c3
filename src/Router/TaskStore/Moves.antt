-- ===== src/Router/TaskStore/Moves.antt =====
-- Each call of the store of src/router/task-store.ts makes steps only: transitions and timers.
use pi_to_pi.Prelude.{
  ◌≤◌, ◌≡◌, refl, ap, ◌∙◌, leb, if_elim, Bool, true, false, not, ◌&&◌, Option, none, some, List,
  Text, Result, ok, err, arith,
}
use pi_to_pi.Protocol.TaskState.{TaskState, state_eq, can_transition}
use pi_to_pi.Router.TaskStore.{
  StoredTask, TaskStore, TaskStoreOptions, TaskError, Clocks, within, NormalizedTimestamp,
  TaskTransitionUpdate, Dates,
}
use pi_to_pi.Router.TaskStore.Records.{find_record, find-request_id}
use pi_to_pi.Router.TaskStore.Transition.{
  Answer, TaskTransitionResult, is_finished, NextCancellation, transition_timed, unexpected,
  transition_found, deadline_update, without_result, expire_found, expire_record, expire_if_due,
  transition_current, transition_after, try_found, try_transition, fire_expiry,
}
use pi_to_pi.Router.TaskStore.Steps.{
  IsCarried, transitioned, expiry_fired, Steps, stay, move, Steps-trans, next_updated_at-le,
  next_cancellation-IsCarried,
}

-- The key of a record that was found finds it.
pub find-found :
    (key : Text) (rs : List StoredTask) (r : StoredTask)
    → find_record key rs ≡ some r
    → find_record r.request_id rs ≡ some r
find-found key rs r h = ap (λ k. find_record k rs) (find-request_id key rs r h) ∙ h

module _ (dates : Dates) (options : TaskStoreOptions) (purging : Bool) where
  -- The call whose answer this is made steps only.
  abbrev pub Makes : {A : Type 0} → TaskStore → Answer A → Type 0
  Makes s a = Steps options purging s a.0

  module _ (s : TaskStore) (r : StoredTask)
      (found : find_record r.request_id s.records ≡ some r) where
    timed-Makes :
        (target : TaskState) (u : TaskTransitionUpdate)
        → can_transition r.snapshot.state target ≡ true
        → is_finished r ≡ false
        → (m : Result TaskError NextCancellation) (t : Result TaskError NormalizedTimestamp)
        → ((n : NextCancellation) → m ≡ ok n → IsCarried r target n)
        → ((at : NormalizedTimestamp) → t ≡ ok at → r.updated_at_ms ≤ at.epoch_ms)
        → Makes s (transition_timed dates options s r target u m t)
    unfolding transition_timed
    timed-Makes target u legal open_still (err e) t carried later = stay
    timed-Makes target u legal open_still (ok n) (err e) carried later = stay
    timed-Makes target u legal open_still (ok n) (ok at) carried later =
        move
          (transitioned r target u n at found legal open_still (carried n refl) (later at refl)
            refl)
          stay

    pub transition_found-Makes :
        (expected : Option TaskState) (target : TaskState) (u : TaskTransitionUpdate) (c : Clocks)
        → Makes s (transition_found dates options s r expected target u c)
    unfolding transition_found
    transition_found-Makes expected target u c =
        if_elim Good (unexpected dates options expected r.snapshot.state) (λ _. stay)
          λ _.
            if_elim Good (is_finished r) (λ _. stay)
              λ open_still.
                if_elim Good (not (can_transition r.snapshot.state target)) (λ _. stay)
                  λ legal.
                    timed-Makes target u (ground arith) open_still _ _
                      (λ n. next_cancellation-IsCarried options purging dates r target u c n)
                      (λ at. next_updated_at-le options purging dates r u.updated_at c at)
      where
        Good : Answer TaskTransitionResult → Type 0
        Good a = Steps options purging s a.0

  without_result-Makes :
      {A : Type 0} (s : TaskStore) (a : Answer A) → Makes s a → Makes s (without_result a)
  without_result-Makes s (t, ok x) h = h
  without_result-Makes s (t, err e) h = h

  pub expire_record-Makes :
      (s : TaskStore) (key : Text) (c : Clocks) → Makes s (expire_record dates options s key c)
  unfolding expire_record
  expire_record-Makes s key c = go (find_record key s.records) refl
    where
      go :
          (o : Option StoredTask)
          → find_record key s.records ≡ o
          → Makes s (expire_found dates options s c o)
      go none e = unfold expire_found in stay
      go (some r) e =
          unfold expire_found in
          if_elim (λ (a : Answer (Unit {0})). Steps options purging s a.0) (is_finished r)
            (λ _. stay)
            λ _.
              if_elim (λ (a : Answer (Unit {0})). Steps options purging s a.0) s.disposed
                (λ _. stay)
                λ _. without_result-Makes s _ (
                  transition_found-Makes s r (find-found key s.records r e) none TaskState.expired
                    deadline_update c)

  pub expire_if_due-Makes :
      (s : TaskStore) (r : StoredTask) (c : Clocks) → Makes s (expire_if_due dates options s r c)
  unfolding expire_if_due
  expire_if_due-Makes s r c =
      if_elim (λ (a : Answer (Unit {0})). Steps options purging s a.0)
        (not (is_finished r) && leb r.deadline_monotonic_ms (c.monotonic 0))
        (λ _. expire_record-Makes s r.request_id (within 10 c)) (λ _. stay)

  transition_current-Makes :
      (s : TaskStore) (expected : Option TaskState) (target : TaskState) (u : TaskTransitionUpdate)
      (c : Clocks) (key : Text)
      → Makes s (transition_current dates options s expected target u c (find_record key s.records))
  unfolding transition_current
  transition_current-Makes s expected target u c key = go (find_record key s.records) refl
    where
      go :
          (o : Option StoredTask)
          → find_record key s.records ≡ o
          → Makes s (transition_current dates options s expected target u c o)
      go none e = stay
      go (some r) e = transition_found-Makes s r (find-found key s.records r e) expected target u c

  transition_after-Makes :
      (s : TaskStore) (a : Answer (Unit {0})) (key : Text) (expected : Option TaskState)
      (target : TaskState) (u : TaskTransitionUpdate) (c : Clocks)
      → Makes s a
      → Makes s (transition_after dates options a key expected target u c)
  unfolding transition_after
  transition_after-Makes s (t, err e) key expected target u c h = h
  transition_after-Makes s (t, ok _) key expected target u c h =
      Steps-trans options purging h (transition_current-Makes t expected target u c key)

  pub try_transition-Makes :
      (s : TaskStore) (key : Text) (expected : Option TaskState) (target : TaskState)
      (u : TaskTransitionUpdate) (c : Clocks)
      → Makes s (try_transition dates options s key expected target u c)
  unfolding try_transition
  try_transition-Makes s key expected target u c =
      if_elim (λ (a : Answer TaskTransitionResult). Steps options purging s a.0) s.disposed
        (λ _. stay) λ _. go (find_record key s.records) refl
    where
      go :
          (o : Option StoredTask)
          → find_record key s.records ≡ o
          → Makes s (try_found dates options s expected target u c o)
      go none e = unfold try_found in stay
      go (some r) e =
          unfold try_found in
          if_elim (λ (a : Answer TaskTransitionResult). Steps options purging s a.0)
            (state_eq target TaskState.expired)
            (λ _. transition_found-Makes s r (find-found key s.records r e) expected target u _)
            (λ _.
              transition_after-Makes s _ r.request_id expected target u _
                (expire_if_due-Makes s r c))

  pub fire_expiry-Makes :
      (s : TaskStore) (key : Text) (c : Clocks) → Makes s (fire_expiry dates options s key c)
  unfolding fire_expiry
  fire_expiry-Makes s key c = move (expiry_fired key refl) (expire_record-Makes _ key c)
