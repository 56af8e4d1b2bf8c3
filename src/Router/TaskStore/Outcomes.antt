-- ===== src/Router/TaskStore/Outcomes.antt =====
-- What becomes of one task of src/router/task-store.ts over a history.
use pi_to_pi.Prelude.{
  ℕ, suc, ◌+◌, ◌≤◌, ◌≡◌, refl, sym, ap, ◌∙◌, subst, true, false, Bool-cases, inl, inr, Option, none,
  some, List, [], ◌∷◌, ◌++◌, Text, text_eq, text_eq_iff, All, arith,
}
use pi_to_pi.Protocol.TaskState.{TaskState, can_transition, is_terminal}
use pi_to_pi.Protocol.TaskState.Lifecycle.{Run}
use pi_to_pi.Router.TaskStore.{
  TaskSnapshot, StoredTask, TaskStore, TaskStoreOptions, Clocks, NormalizedTimestamp,
  TaskTransitionUpdate, Dates, build_snapshot, update_reason,
}
use pi_to_pi.Router.TaskStore.Records.{find_record, change_record, find-change, find-append}
use pi_to_pi.Router.TaskStore.Transition.{
  is_finished, NextCancellation, next_snapshot, settle_task, commit_transition,
}
use pi_to_pi.Router.TaskStore.Create.{insert_task}
use pi_to_pi.Router.TaskStore.Steps.{
  IsCarried, Step, transitioned, inserted, expiry_fired, purge_fired, removed, Steps, stay, move,
  without_expiry_timer, without_purge_timer,
}
use pi_to_pi.Router.TaskStore.History.{Call, run_calls, Retains, run_calls-Steps_kept}

-- The record `r'` may be what `r` has become: by legal transitions only, with the snapshot that `r` had
-- if it was over, with an owner, a deadline and a time of creation that stay, a time of change that
-- does not go back, and a request for cancellation that is not taken back.
pub record Follows (r r' : StoredTask) : Type 0 where
  pub count : ℕ
  pub path : Run count r.snapshot.state r'.snapshot.state
  pub final : is_finished r ≡ true → r'.snapshot ≡ r.snapshot
  pub owned : r'.owner ≡ r.owner
  pub due : r'.deadline_monotonic_ms ≡ r.deadline_monotonic_ms
  pub created : r'.snapshot.created_at ≡ r.snapshot.created_at
  pub later : r.updated_at_ms ≤ r'.updated_at_ms
  pub asked : r.snapshot.cancellation_requested ≡ true → r'.snapshot.cancellation_requested ≡ true

Run-trans : {m n : ℕ} {s t u : TaskState} → Run m s t → Run n t u → Run (n + m) s u
Run-trans {m} p Run.stay = let e : 0 + m ≡ m = omega arith in rw e p
Run-trans {m} p (Run.step {n} q h) =
    let e : suc n + m ≡ suc (n + m) = omega arith in rw e (Run.step (Run-trans p q) h)

-- Nothing that `Follows` reads has changed.
unchanged-Follows : (r : StoredTask) (t : StoredTask) → t ≡ r → Follows r t
unchanged-Follows r t e = rw e (record {
  count = 0;
  path = Run.stay;
  final = λ h. refl;
  owned = refl;
  due = refl;
  created = refl;
  later = omega arith;
  asked = λ h. h;
})

timer-Follows :
    (r t : StoredTask)
    → t.snapshot ≡ r.snapshot
    → t.owner ≡ r.owner
    → t.deadline_monotonic_ms ≡ r.deadline_monotonic_ms
    → t.updated_at_ms ≡ r.updated_at_ms
    → Follows r t
timer-Follows r t same owned due at = record {
  count = 0;
  path = subst (λ (x : TaskSnapshot). Run 0 r.snapshot.state x.state) (sym same) Run.stay;
  final = λ h. same;
  owned = owned;
  due = due;
  created = ap (λ (x : TaskSnapshot). x.created_at) same;
  later = omega arith;
  asked = λ h. ap (λ (x : TaskSnapshot). x.cancellation_requested) same ∙ h;
}

Follows-trans : (r s t : StoredTask) → Follows r s → Follows s t → Follows r t
Follows-trans r s t f g = record {
  count = g.count + f.count;
  path = Run-trans f.path g.path;
  final = λ h. g.final (ap (λ (x : TaskSnapshot). is_terminal x.state) (f.final h) ∙ h) ∙ f.final h;
  owned = g.owned ∙ f.owned;
  due = g.due ∙ f.due;
  created = g.created ∙ f.created;
  later = omega (arith, f.later, g.later);
  asked = λ h. g.asked (f.asked h);
}

settle-Follows :
    (options : TaskStoreOptions) (r : StoredTask) (target : TaskState) (u : TaskTransitionUpdate)
    (n : NextCancellation) (at : NormalizedTimestamp) (reason : Option Text)
    → can_transition r.snapshot.state target ≡ true
    → is_finished r ≡ false
    → IsCarried r target n
    → r.updated_at_ms ≤ at.epoch_ms
    → Follows r (settle_task options (next_snapshot options r target u n at) at.epoch_ms reason r)
unfolding settle_task next_snapshot build_snapshot
settle-Follows options r target u n at reason legal open_still carried later = record {
  count = 1;
  path = Run.step Run.stay legal;
  final = λ h. cc;
  owned = refl;
  due = refl;
  created = refl;
  later = later;
  asked = carried.stays;
}

same_record :
    (x : StoredTask) (key : Text) (rs : List StoredTask) (r : StoredTask)
    → text_eq x.request_id key ≡ true
    → find_record x.request_id rs ≡ some x
    → find_record key rs ≡ some r
    → x ≡ r
same_record x key rs r same found here =
    let found' : find_record key rs ≡ some x =
      ap (λ k. find_record k rs) (sym ((text_eq_iff x.request_id key).0 same)) ∙ found in
    cc

still_found :
    (x : StoredTask) (key : Text) (rs : List StoredTask) (r : StoredTask)
    → find_record x.request_id rs ≡ none
    → find_record key rs ≡ some r
    → find_record key (rs ++ x ∷ []) ≡ some r
still_found x key rs r absent here =
    ground (arith, find-append key rs x absent, text_eq_iff x.request_id key)

-- A record changed under a key.
change-found :
    (k key : Text) (f : StoredTask → StoredTask) (rs : List StoredTask) (r : StoredTask)
    → ((x : StoredTask) → (f x).request_id ≡ x.request_id)
    → find_record key rs ≡ some r
    → (text_eq k key ≡ true → Follows r (f r))
    → (r' : StoredTask) × (find_record key (change_record k f rs) ≡ some r') × Follows r r'
change-found k key f rs r same found moved = elim (Bool-cases (text_eq k key)) [
  | inl here ↦ (f r, rw (find-change k key f same rs, here, found), moved here)
  | inr away ↦ (r, rw (find-change k key f same rs, away, found), unchanged-Follows r r refl)
]

module _ (options : TaskStoreOptions) where
  Step-Has :
      (s s' : TaskStore) (key : Text) (r : StoredTask)
      → Step options false s s'
      → find_record key s.records ≡ some r
      → (r' : StoredTask) × (find_record key s'.records ≡ some r') × Follows r r'
  unfolding commit_transition insert_task
  Step-Has s s' key r (transitioned x target u n at found legal open_still carried later e) here =
      rw e (
        change-found x.request_id key _ s.records r (λ y. unfold settle_task in refl) here
          λ same.
            let own = same_record x key s.records r same found here in
            subst
              (λ y. Follows y (
                settle_task options (next_snapshot options x target u n at) at.epoch_ms
                  (update_reason u) y))
              own
              (settle-Follows options x target u n at (update_reason u) legal open_still carried
                later))
  Step-Has s s' key r (inserted x absent valid e) here =
      rw e (r, still_found x key s.records r absent here, unchanged-Follows r r refl)
  Step-Has s s' key r (expiry_fired k e) here = rw e (
      change-found k key without_expiry_timer s.records r (λ y. refl) here
        λ same. timer-Follows r _ refl refl refl refl)
  Step-Has s s' key r (purge_fired k e) here = rw e (
      change-found k key without_purge_timer s.records r (λ y. refl) here
        λ same. timer-Follows r _ refl refl refl refl)
  Step-Has s s' key r (removed x impossible found over e) here = absurd (cc)

  pub Steps-Has :
      {s s' : TaskStore} (key : Text) (r : StoredTask)
      → Steps options false s s'
      → find_record key s.records ≡ some r
      → (r' : StoredTask) × (find_record key s'.records ≡ some r') × Follows r r'
  Steps-Has key r stay here = (r, here, unchanged-Follows r r refl)
  Steps-Has key r (move {s} {t} p ps) here =
      let (x, at, f) = Step-Has s t key r p here in
      let (y, at', g) = Steps-Has key x ps at in (y, at', Follows-trans r x y f g)

-- A task is still there after any calls and timer events that remove none (those of `purgeTask`, of purge
-- timers, of `clear` and `dispose`), and what it has become follows from what it was.
pub run_calls-Follows :
    (dates : Dates) (options : TaskStoreOptions) (s : TaskStore) (calls : List (Call × Clocks))
    (key : Text) (r : StoredTask)
    → All (Retains dates options) calls
    → find_record key s.records ≡ some r
    → (r' : StoredTask) × (find_record key (run_calls dates options s calls).records ≡ some r')
      × Follows r r'
run_calls-Follows dates options s calls key r kept here =
    Steps-Has options key r (run_calls-Steps_kept dates options s calls kept) here
