-- ===== src/Router/TaskStore/Deadlines.antt =====
-- Deadlines in src/router/task-store.ts.
use pi_to_pi.Prelude.{
  ℕ, ◌≤◌, ◌≡◌, refl, sym, ap, ◌∙◌, subst, leb, le→leb, true, false, Bool-cases, inl, inr, Option,
  none, some, Text, text_eq, text_eq_self, Result, ok, err, arith,
}
use pi_to_pi.Protocol.TaskState.{TaskState, state_eq, is_terminal}
use pi_to_pi.Protocol.TaskState.Lifecycle.{can-expire}
use pi_to_pi.Router.TaskStore.{
  TaskSnapshot, StoredTask, TaskStore, TaskStoreOptions, TaskStoreErrorCode, invalid_transition,
  terminal, TaskError, Clocks, within, NormalizedTimestamp, TaskTransitionUpdate, Dates, epoch,
  normalize_timestamp,
}
use pi_to_pi.Router.TaskStore.Records.{find_record, change_record, find-change, find-request_id}
use pi_to_pi.Router.TaskStore.Transition.{
  Answer, TaskTransitionResult, changed, failed, is_finished, NextCancellation, requested_at_of,
  next_cancellation, next_updated_at, next_snapshot, latest, transition_timed, unexpected,
  transition_found, deadline_update, without_result, expire_found, expire_record, expire_if_due,
  transition_current, transition_after, try_found, try_transition, fire_expiry,
}
use pi_to_pi.Router.TaskStore.Answers.{found-IsTrue}

-- The task of the key has expired.
pub record HasExpired (key : Text) (s : TaskStore) : Type 0 where
  pub task : StoredTask
  pub there : find_record key s.records ≡ some task
  pub over : task.snapshot.state ≡ TaskState.expired

module _ (dates : Dates) (options : TaskStoreOptions) where
  -- The time is in the range of dates.
  abbrev pub IsDate : ℕ → Type 0
  IsDate ms = (text : Text) × (dates.to_iso ms ≡ some text)

  next_cancellation-expiry :
      (r : StoredTask) (c : Clocks)
      → (n : NextCancellation) × (next_cancellation dates options r TaskState.expired
            deadline_update c
          ≡ ok n)
  unfolding next_cancellation
  next_cancellation-expiry r c = elim (Bool-cases r.snapshot.cancellation_requested) [
    | inl asked ↦
        (record { requested = true; requested_at = requested_at_of r.snapshot }, simp asked)
    | inr not_asked ↦
        (record { requested = false; requested_at = requested_at_of r.snapshot }, simp not_asked)
  ]

  normalize-epoch :
      (ms : ℕ) (text : Text)
      → dates.to_iso ms ≡ some text
      → normalize_timestamp dates (epoch ms) ≡ ok (record { value = text; epoch_ms = ms })
  unfolding normalize_timestamp
  normalize-epoch ms text iso = ground arith

  latest-returns :
      (ms : ℕ) (t : NormalizedTimestamp)
      → IsDate ms
      → (u : NormalizedTimestamp) × (latest dates options ms t ≡ ok u)
  latest-returns ms t (text, iso) = elim (Bool-cases (leb ms t.epoch_ms)) [
    | inl late ↦ (t, rw late)
    | inr early ↦ (record { value = text; epoch_ms = ms }, rw (early, normalize-epoch ms text iso))
  ]

  next_updated_at-returns :
      (r : StoredTask) (c : Clocks)
      → IsDate (c.wall 1)
      → IsDate r.updated_at_ms
      → (t : NormalizedTimestamp) × (next_updated_at dates options r none c ≡ ok t)
  unfolding next_updated_at
  next_updated_at-returns r c (text, iso) known =
      rw (normalize-epoch (c.wall 1) text iso) (latest-returns r.updated_at_ms _ known)

  expiry-changed :
      (s : TaskStore) (r : StoredTask) (c : Clocks)
      → is_finished r ≡ false
      → IsDate (c.wall 1)
      → IsDate r.updated_at_ms
      → (snapshot : TaskSnapshot) × ((transition_found dates options s r none TaskState.expired
            deadline_update c).1
          ≡ ok (changed r.snapshot.state snapshot))
  unfolding transition_found transition_timed
  expiry-changed s r c open_still now known =
      let (n, asked) = next_cancellation-expiry r c in
      let (t, dated) = next_updated_at-returns r c now known in
      let legal = can-expire r.snapshot.state open_still in
      (
        next_snapshot options r TaskState.expired deadline_update n t,
        simp (open_still, legal, asked, dated),
      )

  expiry-HasExpired :
      (s : TaskStore) (r : StoredTask) (key : Text) (c : Clocks)
      → find_record key s.records ≡ some r
      → is_finished r ≡ false
      → IsDate (c.wall 1)
      → IsDate r.updated_at_ms
      → HasExpired key
          (transition_found dates options s r none TaskState.expired deadline_update c).0
  expiry-HasExpired s r key c at open_still now known =
      let (snapshot, answer) = expiry-changed s r c open_still now known in
      let stored =
        found-IsTrue dates options s r key none TaskState.expired deadline_update c at
          r.snapshot.state snapshot answer in
      record {
        task = stored.task;
        there = stored.stored;
        over = ap (λ (x : TaskSnapshot). x.state) stored.same ∙ stored.reached;
      }

  -- The task has expired, and the call did not throw.
  record Expires (key : Text) (a : Answer (Unit {0})) : Type 0 where
    done : HasExpired key a.0
    quiet : a.1 ≡ ok tt

  without_result-quiet :
      {A : Type 0} (a : Answer A) (x : A) → a.1 ≡ ok x → (without_result a).1 ≡ ok tt
  without_result-quiet (s, ok y) x h = refl
  without_result-quiet (s, err e) x h = absurd cc

  without_result-store : {A : Type 0} (a : Answer A) → (without_result a).0 ≡ a.0
  without_result-store (s, ok y) = refl
  without_result-store (s, err e) = refl

  expire_found-Expires :
      (s : TaskStore) (r : StoredTask) (key : Text) (c : Clocks)
      → find_record key s.records ≡ some r
      → is_finished r ≡ false
      → s.disposed ≡ false
      → IsDate (c.wall 1)
      → IsDate r.updated_at_ms
      → Expires key (expire_found dates options s c (some r))
  unfolding expire_found
  expire_found-Expires s r key c at open_still usable now known =
      let (snapshot, answer) = expiry-changed s r c open_still now known in
      let made = transition_found dates options s r none TaskState.expired deadline_update c in
      let result : Expires key (without_result made) = record {
        done =
            subst (HasExpired key) (sym (without_result-store made))
              (expiry-HasExpired s r key c at open_still now known);
        quiet = without_result-quiet made _ answer;
      } in
      simp (open_still, usable) result

  expire_record-Expires :
      (s : TaskStore) (r : StoredTask) (key : Text) (c : Clocks)
      → find_record key s.records ≡ some r
      → is_finished r ≡ false
      → s.disposed ≡ false
      → IsDate (c.wall 1)
      → IsDate r.updated_at_ms
      → Expires key (expire_record dates options s key c)
  unfolding expire_record
  expire_record-Expires s r key c at open_still usable now known =
      rw at (expire_found-Expires s r key c at open_still usable now known)

  -- A deadline timer that goes off expires its task, if the task is not over yet and the store is in use:
  -- the callback does not throw, and the task is in the state `expired`.
  pub fire_expiry-expires :
      (s : TaskStore) (key : Text) (r : StoredTask) (c : Clocks)
      → find_record key s.records ≡ some r
      → is_finished r ≡ false
      → s.disposed ≡ false
      → IsDate (c.wall 1)
      → IsDate r.updated_at_ms
      → ((fire_expiry dates options s key c).1 ≡ ok tt)
        × HasExpired key (fire_expiry dates options s key c).0
  unfolding fire_expiry
  fire_expiry-expires s key r c at open_still usable now known =
      let own : text_eq key key ≡ true = text_eq_self key in
      let there : find_record key
            (change_record key (λ x. record x { expiry_timer = none }) s.records)
          ≡ some (record r { expiry_timer = none }) =
        rw (
          find-change key key (λ x. record x { expiry_timer = none }) (λ x. refl) s.records,
          own,
          at,
        ) in
      let e =
        expire_record-Expires _ (record r { expiry_timer = none }) key c there open_still usable now
          known in
      (e.quiet, e.done)

  expire_if_due-Expires :
      (s : TaskStore) (r : StoredTask) (key : Text) (c : Clocks)
      → find_record key s.records ≡ some r
      → is_finished r ≡ false
      → s.disposed ≡ false
      → r.deadline_monotonic_ms ≤ c.monotonic 0
      → IsDate (c.wall 11)
      → IsDate r.updated_at_ms
      → Expires key (expire_if_due dates options s r c)
  unfolding expire_if_due
  expire_if_due-Expires s r key c at open_still usable due now known =
      let same = find-request_id key s.records r at in
      let e = expire_record-Expires s r key (within 10 c) at open_still usable now known in
      simp (open_still, le→leb r.deadline_monotonic_ms (c.monotonic 0) due, same) e

  finished-failed :
      (s : TaskStore) (r : StoredTask) (expected : Option TaskState) (target : TaskState)
      (u : TaskTransitionUpdate) (c : Clocks)
      → is_finished r ≡ true
      → (code : TaskStoreErrorCode) × (transition_found dates options s r expected target u c
          ≡ (s, ok (failed code (some r.snapshot))))
  unfolding transition_found
  finished-failed s r expected target u c over =
      elim (Bool-cases (unexpected dates options expected r.snapshot.state)) [
        | inl off ↦ (invalid_transition, rw off refl)
        | inr fine ↦ (terminal, simp (fine, over))
      ]

  -- The answer fails, and tells the snapshot of a task that has expired.
  pub record Misses (key : Text) (a : Answer TaskTransitionResult) : Type 0 where
    pub task : StoredTask
    pub code : TaskStoreErrorCode
    pub there : find_record key a.0.records ≡ some task
    pub over : task.snapshot.state ≡ TaskState.expired
    pub answered : a.1 ≡ ok (failed code (some task.snapshot))

  after-Misses :
      (a : Answer (Unit {0})) (key : Text) (expected : Option TaskState) (target : TaskState)
      (u : TaskTransitionUpdate) (c : Clocks)
      → Expires key a
      → Misses key (transition_after dates options a key expected target u c)
  unfolding transition_after transition_current
  after-Misses (s, err x) key expected target u c e = absurd (not_thrown x e.quiet)
    where
      not_thrown : (x : TaskError) → ◌≡◌ {A = Result TaskError (Unit {0})} (err x) (ok tt) → ⊥
      not_thrown x h = cc
  after-Misses (s, ok _) key expected target u c e =
      let gone = e.done in
      let over : is_finished gone.task ≡ true =
        ap is_terminal gone.over ∙ unfold is_terminal in refl in
      let (code, fails) = finished-failed s gone.task expected target u c over in
      rw (gone.there, fails)
        (record {
          task = gone.task;
          code = code;
          there = gone.there;
          over = gone.over;
          answered = refl;
        })

  -- The deadline wins: from a task that is not over but due, `tryTransition` to any state but `expired`
  -- makes an expired task, and fails with its snapshot.
  pub try_transition-Misses :
      (s : TaskStore) (key : Text) (r : StoredTask) (expected : Option TaskState)
      (target : TaskState) (u : TaskTransitionUpdate) (c : Clocks)
      → find_record key s.records ≡ some r
      → is_finished r ≡ false
      → s.disposed ≡ false
      → state_eq target TaskState.expired ≡ false
      → r.deadline_monotonic_ms ≤ c.monotonic 0
      → IsDate (c.wall 11)
      → IsDate r.updated_at_ms
      → Misses key (try_transition dates options s key expected target u c)
  unfolding try_transition try_found
  try_transition-Misses s key r expected target u c at open_still usable other due now known =
      let same = find-request_id key s.records r at in
      let e = expire_if_due-Expires s r key c at open_still usable due now known in
      let m =
        after-Misses (expire_if_due dates options s r c) key expected target u (within 20 c) e in
      simp (usable, at, other, same) m
