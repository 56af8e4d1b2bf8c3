-- ===== src/Router/TaskStore/Admission.antt =====
-- What `createTask` of src/router/task-store.ts stores.
use pi_to_pi.Prelude.{
  ℕ, ◌-◌, ◌≡◌, refl, ap, ◌∙◌, leb, ◌==◌, if◌then◌else◌, if_elim, Bool, false, Option, none, some,
  Text, Result, ok, err, Ensures, returns, throws, Ensures-bind, arith,
}
use pi_to_pi.Protocol.TaskState.{TaskState, state_eq, cancelling}
use pi_to_pi.Router.TaskStore.{
  TaskOwner, TaskSnapshot, StoredTask, TaskStore, TaskStoreOptions, TaskError, Clocks, within,
  NormalizedTimestamp, Dates, build_snapshot,
}
use pi_to_pi.Router.TaskStore.Records.{find_record}
use pi_to_pi.Router.TaskStore.Transition.{Answer, is_finished}
use pi_to_pi.Router.TaskStore.Create.{
  TaskStoreCreateInput, task_record, admit_task, admit_owned, admit_local, admit_created,
  admit_expiring, admit_asked, requested_state, normalize_owner, requested_at_of_input,
  with_snapshot, with_expiry_timer, insert_active, create_admitted, create_new, create_task,
}
use pi_to_pi.Router.TaskStore.Steps.{IsValidTask, Steps, stay, move, inserted}
use pi_to_pi.Router.TaskStore.Moves.{Makes, expire_record-Makes}

module _ (dates : Dates) (options : TaskStoreOptions) (purging : Bool) where
  task_record-IsValidTask :
      (i : TaskStoreCreateInput) (owner local : TaskOwner) (state : TaskState) (late : Bool)
      (created expires : NormalizedTimestamp) (requested_at : Option Text) (deadline : ℕ)
      → state_eq state cancelling ≡ false
      → IsValidTask
          (task_record dates options i owner local state late created expires requested_at deadline)
        × ((task_record dates options i owner local state late created expires requested_at
              deadline).request_id
            ≡ i.request_id)
  unfolding task_record build_snapshot
  task_record-IsValidTask i owner local state late created expires requested_at deadline h =
      ground arith

  -- The record under the key asked for.
  abbrev Admitted : TaskStoreCreateInput → StoredTask → Type 0
  Admitted i r = IsValidTask r × (r.request_id ≡ i.request_id)

  late-not_cancelling :
      (requested : TaskState) (late : Bool)
      → state_eq requested cancelling ≡ false
      → state_eq (if late then TaskState.expired else requested) cancelling ≡ false
  late-not_cancelling requested late h = ground arith

  admit_expiring-Ensures :
      (i : TaskStoreCreateInput) (c : Clocks) (owner local : TaskOwner)
      (created expires : NormalizedTimestamp)
      → state_eq (requested_state i) cancelling ≡ false
      → Ensures (Admitted i) (admit_expiring dates options i c owner local created expires)
  unfolding admit_expiring admit_asked
  admit_expiring-Ensures i c owner local created expires other =
      if_elim (Ensures (Admitted i)) (leb expires.epoch_ms created.epoch_ms) (λ _. throws)
        λ later.
          Ensures-bind (Admitted i) (requested_at_of_input dates options i (c.wall 0)) _
            λ requested_at _. returns (
              task_record-IsValidTask i owner local _ _ created expires requested_at _
                (late-not_cancelling (requested_state i) _ other))

  admit_local-Ensures :
      (i : TaskStoreCreateInput) (c : Clocks) (owner local : TaskOwner)
      → Ensures (Admitted i) (admit_local dates options i c owner local)
  unfolding admit_local admit_created
  admit_local-Ensures i c owner local =
      if_elim (Ensures (Admitted i)) (state_eq (requested_state i) cancelling) (λ _. throws)
        λ other.
          Ensures-bind (Admitted i) _ (admit_created dates options i c owner local) λ created _.
            Ensures-bind (Admitted i) _ (admit_expiring dates options i c owner local created)
              λ expires _. admit_expiring-Ensures i c owner local created expires other

  pub admit_task-Ensures :
      (i : TaskStoreCreateInput) (c : Clocks) → Ensures (Admitted i) (admit_task dates options i c)
  unfolding admit_task admit_owned
  admit_task-Ensures i c =
      Ensures-bind (Admitted i) (normalize_owner i) (admit_owned dates options i c) λ owner _.
        Ensures-bind (Admitted i) _ (admit_local dates options i c owner)
          λ local _. admit_local-Ensures i c owner local

  with_snapshot-Makes :
      (s : TaskStore) (a : Answer (Unit {0})) (snapshot : TaskSnapshot)
      → Makes dates options purging s a
      → Makes dates options purging s (with_snapshot a snapshot)
  unfolding with_snapshot
  with_snapshot-Makes s (t, ok _) snapshot h = h
  with_snapshot-Makes s (t, err e) snapshot h = h

  timed-IsValidTask :
      (r : StoredTask) (delay : ℕ)
      → IsValidTask r
      → is_finished r ≡ false
      → IsValidTask (with_expiry_timer delay r)
  timed-IsValidTask r delay v open_still = record {
    named = v.named;
    outcome = v.outcome;
    asked = v.asked;
    cancelling_asked = v.cancelling_asked;
    silent = λ over. cc;
    aborted = v.aborted;
  }

  create_admitted-Makes :
      (s : TaskStore) (m : Result TaskError StoredTask) (c : Clocks) (i : TaskStoreCreateInput)
      → find_record i.request_id s.records ≡ none
      → Ensures (Admitted i) m
      → Makes dates options purging s (create_admitted dates options s m c)
  unfolding create_admitted insert_active
  create_admitted-Makes s (err e) c i absent valid = stay
  create_admitted-Makes s (ok r) c i absent (returns (v, same)) =
      let free : find_record r.request_id s.records ≡ none =
        ap (λ k. find_record k s.records) same ∙ absent in
      if_elim Good (is_finished r) (λ _. move (inserted r free v refl) stay)
        λ open_still.
          if_elim Good (r.deadline_monotonic_ms - c.monotonic 1 == 0)
            (λ _. with_snapshot-Makes s _ r.snapshot (
              move (inserted r free v refl)
                (expire_record-Makes dates options purging _ r.request_id (within 10 c))))
            (λ _.
              move (inserted (with_expiry_timer _ r) free (timed-IsValidTask r _ v open_still) refl)
                stay)
    where
      Good : Answer TaskSnapshot → Type 0
      Good a = Steps options purging s a.0

  pub create_task-Makes :
      (s : TaskStore) (i : TaskStoreCreateInput) (c : Clocks)
      → Makes dates options purging s (create_task dates options s i c)
  unfolding create_task
  create_task-Makes s i c =
      if_elim (λ (a : Answer TaskSnapshot). Steps options purging s a.0) s.disposed (λ _. stay)
        λ _. go (find_record i.request_id s.records) refl
    where
      go :
          (o : Option StoredTask)
          → find_record i.request_id s.records ≡ o
          → Makes dates options purging s (create_new dates options s i c o)
      go (some r) e = unfold create_new in stay
      go none e = unfold create_new in create_admitted-Makes s _ c i e (admit_task-Ensures i c)
