-- ===== src/Router/TaskStore/Invariant.antt =====
-- What always holds of the store of src/router/task-store.ts.
use pi_to_pi.Prelude.{
  ◌≡◌, refl, sym, ap, ◌∙◌, subst, if◌then◌else◌, if_elim, Bool, true, false, Bool-cases, inl, inr,
  Option, none, some, List, [], ◌∷◌, ◌++◌, Text, text_eq, text_eq_iff, arith,
}
use pi_to_pi.Protocol.TaskState.{TaskState, state_eq, queued}
use pi_to_pi.Router.TaskStore.{
  StoredTask, TaskStore, TaskStoreOptions, Clocks, NormalizedTimestamp, TaskTransitionUpdate, Dates,
  build_snapshot, update_reason,
}
use pi_to_pi.Router.TaskStore.Records.{
  find_record, change_record, map_option, has_key, add_key, delete_key, find-change, find-delete,
  find-append, has-add, has-delete,
}
use pi_to_pi.Router.TaskStore.Transition.{
  NextCancellation, next_snapshot, settle_task, commit_transition, remove_task,
}
use pi_to_pi.Router.TaskStore.Create.{insert_task}
use pi_to_pi.Router.TaskStore.Cancel.{clear_tasks, dispose}
use pi_to_pi.Router.TaskStore.Steps.{
  IsCarried, IsValidTask, Step, transitioned, inserted, expiry_fired, purge_fired, removed, Steps,
  stay, move, without_expiry_timer, without_purge_timer,
}
use pi_to_pi.Router.TaskStore.History.{
  Call, clears, disposes, apply_call, run_calls, apply_call-Steps,
}

-- What a key leads to: nothing, and it is not queued; or a valid task, which is queued exactly when it
-- is in the state `queued`.
abbrev pub Slot : Option StoredTask → Bool → Type 0
Slot none is_queued = is_queued ≡ false
Slot (some r) is_queued = IsValidTask r × (is_queued ≡ state_eq r.snapshot.state queued)

abbrev pub IsValidStore : TaskStore → Type 0
IsValidStore s = (key : Text) → Slot (find_record key s.records) (has_key key s.queued)

settle-IsValidTask :
    (options : TaskStoreOptions) (r : StoredTask) (target : TaskState) (u : TaskTransitionUpdate)
    (n : NextCancellation) (at : NormalizedTimestamp) (reason : Option Text)
    → IsCarried r target n
    → IsValidTask r
    → IsValidTask (settle_task options (next_snapshot options r target u n at) at.epoch_ms reason r)
unfolding settle_task next_snapshot build_snapshot
settle-IsValidTask options r target u n at reason carried v = ground arith

has-requeue :
    (b : Bool) (k key : Text) (ks : List Text)
    → has_key key (if b then add_key k ks else delete_key k ks)
      ≡ (if text_eq k key then b else has_key key ks)
has-requeue b k key ks = ground (arith, has-add k key ks, has-delete k key ks)

found_at :
    (k key : Text) (rs : List StoredTask) (m : Option StoredTask)
    → text_eq k key ≡ true
    → find_record k rs ≡ m
    → find_record key rs ≡ m
found_at k key rs m same found =
    ap (λ t. find_record t rs) (sym ((text_eq_iff k key).0 same)) ∙ found

-- A record changed under a key, together with its place in the queue.
change-Slot :
    (k key : Text) (f : StoredTask → StoredTask) (b : Bool) (r : StoredTask) (rs : List StoredTask)
    (ks : List Text)
    → ((x : StoredTask) → (f x).request_id ≡ x.request_id)
    → find_record k rs ≡ some r
    → Slot (some (f r)) b
    → Slot (find_record key rs) (has_key key ks)
    → Slot
        (find_record key (change_record k f rs))
        (has_key key (if b then add_key k ks else delete_key k ks))
change-Slot k key f b r rs ks same found new old = elim (Bool-cases (text_eq k key)) [
  | inl here ↦
      rw
        (
          find-change k key f same rs,
          has-requeue b k key ks,
          here,
          found_at k key rs (some r) here found,
        )
        new
  | inr away ↦ rw (find-change k key f same rs, has-requeue b k key ks, away) old
]

-- A change of timers, which leaves the queue.
timer-Slot :
    (k key : Text) (f : StoredTask → StoredTask) (rs : List StoredTask) (ks : List Text)
    → ((x : StoredTask) → (f x).request_id ≡ x.request_id)
    → ((x : StoredTask) → (b : Bool) → Slot (some x) b → Slot (some (f x)) b)
    → Slot (find_record key rs) (has_key key ks)
    → Slot (find_record key (change_record k f rs)) (has_key key ks)
timer-Slot k key f rs ks same keeps old = elim (Bool-cases (text_eq k key)) [
  | inl here ↦ rw (find-change k key f same rs, here) (go (find_record key rs) old)
  | inr away ↦ rw (find-change k key f same rs, away) old
]
  where
    go : (m : Option StoredTask) → Slot m (has_key key ks) → Slot (map_option f m) (has_key key ks)
    go none h = h
    go (some x) h = keeps x (has_key key ks) h

insert-Slot :
    (key : Text) (b : Bool) (r : StoredTask) (rs : List StoredTask) (ks : List Text)
    → find_record r.request_id rs ≡ none
    → Slot (some r) b
    → Slot (find_record key rs) (has_key key ks)
    → Slot
        (find_record key (rs ++ r ∷ []))
        (has_key key (if b then add_key r.request_id ks else ks))
insert-Slot key b r rs ks absent new old = elim (Bool-cases (text_eq r.request_id key)) [
  | inl here ↦
      let free : has_key key ks ≡ false =
        subst (λ m. Slot m (has_key key ks)) (found_at r.request_id key rs none here absent) old in
      let entry : has_key key (if b then add_key r.request_id ks else ks) ≡ b =
        ground (arith, has-add r.request_id key ks) in
      rw (find-append key rs r absent, here, entry) new
  | inr away ↦
      let entry : has_key key (if b then add_key r.request_id ks else ks) ≡ has_key key ks =
        ground (arith, has-add r.request_id key ks) in
      rw (find-append key rs r absent, away, entry) old
]

module _ (options : TaskStoreOptions) (purging : Bool) where
  Step-IsValidStore :
      (s s' : TaskStore) → Step options purging s s' → IsValidStore s → IsValidStore s'
  unfolding commit_transition insert_task remove_task
  Step-IsValidStore s s' (transitioned r target u n at found legal open_still carried later e) v
        key =
      let was : Slot (some r) (has_key r.request_id s.queued) =
        subst (λ m. Slot m (has_key r.request_id s.queued)) found (v r.request_id) in
      let now = settle-IsValidTask options r target u n at (update_reason u) carried was.0 in
      rw e (
        change-Slot r.request_id key _ _ r s.records s.queued (λ x. unfold settle_task in refl)
          found (now, unfold settle_task in refl) (v key))
  Step-IsValidStore s s' (inserted r absent valid e) v key =
      rw e (insert-Slot key _ r s.records s.queued absent (valid, refl) (v key))
  Step-IsValidStore s s' (expiry_fired k e) v key = rw e (
      timer-Slot k key without_expiry_timer s.records s.queued (λ x. refl) (λ x b h. ground arith)
        (v key))
  Step-IsValidStore s s' (purge_fired k e) v key = rw e (
      timer-Slot k key without_purge_timer s.records s.queued (λ x. refl) (λ x b h. ground arith)
        (v key))
  Step-IsValidStore s s' (removed r purges found over e) v key =
      rw (e, find-delete r.request_id key s.records, has-delete r.request_id key s.queued)
        (ground (arith, v key))

  pub Steps-IsValidStore :
      {s s' : TaskStore} → Steps options purging s s' → IsValidStore s → IsValidStore s'
  Steps-IsValidStore stay v = v
  Steps-IsValidStore (move {s} {t} p ps) v = Steps-IsValidStore ps (Step-IsValidStore s t p v)

empty-IsValidStore : (s : TaskStore) → IsValidStore (clear_tasks s)
unfolding clear_tasks find_record has_key
empty-IsValidStore s key = refl

data IsKept (s : TaskStore) : Type 0 where
  kept : IsValidStore s → IsKept s

of_kept : {s : TaskStore} → IsKept s → IsValidStore s
of_kept (kept v) = v

dispose-IsValidStore : (s : TaskStore) → IsValidStore s → IsValidStore (dispose s)
unfolding dispose
dispose-IsValidStore s v =
    of_kept (if_elim IsKept s.disposed (λ _. kept v) (λ _. kept (empty-IsValidStore s)))

module _ (dates : Dates) (options : TaskStoreOptions) where
  apply_call-IsValidStore :
      (s : TaskStore) (call : Call) (c : Clocks)
      → IsValidStore s
      → IsValidStore (apply_call dates options s call c)
  apply_call-IsValidStore s clears c v = unfold apply_call in empty-IsValidStore s
  apply_call-IsValidStore s disposes c v = unfold apply_call in dispose-IsValidStore s v
  apply_call-IsValidStore s call c v =
      Steps-IsValidStore options true (apply_call-Steps dates options s call c (ground arith)) v

  -- After any calls and timer events, each key that leads to a task leads to a valid one, and the set of
  -- queued keys holds exactly the keys of the tasks in the state `queued`. Valid means that the
  -- snapshot is the task's, its outcome is its state once it is over and missing before, it tells of a
  -- cancellation exactly if one was requested, as it was in `cancelling`, no deadline timer is set
  -- once the task is over, and the signal of a task that is cancelling or expired is aborted.
  pub run_calls-IsValidStore :
      (s : TaskStore) (calls : List (Call × Clocks))
      → IsValidStore s
      → IsValidStore (run_calls dates options s calls)
  unfolding run_calls
  run_calls-IsValidStore s [] v = v
  run_calls-IsValidStore s ((call, c) ∷ calls) v =
      run_calls-IsValidStore (apply_call dates options s call c) calls
        (apply_call-IsValidStore s call c v)

pub new_store-IsValidStore :
    IsValidStore (record { records = []; queued = []; disposed = false; events = [] })
unfolding find_record has_key
new_store-IsValidStore key = refl
