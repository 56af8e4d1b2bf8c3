-- ===== src/Router/Policy/Guard.antt =====
-- The execution guard of src/router/policy.ts.
use pi_to_pi.Prelude.{
  ℕ, ◌≤◌, ◌<◌, ◌≡◌, ◌≢◌, ◌⊎◌, inl, inr, refl, Bool, true, false, Option, none, some, arith,
}
use pi_to_pi.Protocol.TaskState.{TaskState}
use pi_to_pi.Router.Policy.{
  RoutingQueueEntry, QueueRecord, EntryState, other, task, may_run, is_runnable_state,
  is_entry_cancellation_requested, is_waiting, is_runnable_record,
}

-- A task in one of these states, or an entry without a state, has not started.
abbrev pub NotStarted : Option EntryState → Type 0
NotStarted state =
    (state ≡ none)
    ⊎ ((state ≡ some (task TaskState.accepted)) ⊎ (state ≡ some (task TaskState.queued)))

runnable_state-NotStarted :
    (state : Option EntryState) → is_runnable_state state ≡ true → NotStarted state
unfolding is_runnable_state
runnable_state-NotStarted none h = inl refl
runnable_state-NotStarted (some EntryState.aborted) h = absurd cc
runnable_state-NotStarted (some other) h = absurd cc
runnable_state-NotStarted (some (task TaskState.accepted)) h = inr (inl refl)
runnable_state-NotStarted (some (task TaskState.queued)) h = inr (inr refl)
runnable_state-NotStarted (some (task s)) h = absurd cc

may_run-not_false : (value : Option Bool) → may_run value ≡ true → value ≢ some false
may_run-not_false none h e = absurd cc
may_run-not_false (some true) h e = absurd cc
may_run-not_false (some false) h e = absurd cc

-- Neither the entry nor its signal is cancelled or aborted.
abbrev pub IsWanted : RoutingQueueEntry → Type 0
IsWanted e =
    (e.cancelled ≡ false)
    × ((e.aborted ≡ false) × ((e.signal_aborted ≡ false) × (e.is_cancelled ≡ false)))

-- A record with the entry as observed, at a time: it waits, its deadline is ahead, it is neither marked
-- as expired nor asked to stop, and the entry is not marked as not runnable, has not started and is
-- neither cancelled nor aborted.
abbrev pub MayRun : QueueRecord → RoutingQueueEntry → ℕ → Type 0
MayRun r e now =
    (is_waiting r.status ≡ true)
    × ((now < r.deadline)
        × ((r.expired ≡ false)
            × ((r.cancellation_requested ≡ false)
                × ((e.runnable ≢ some false) × (NotStarted e.state × IsWanted e)))))

pub runnable_record-MayRun :
    (r : QueueRecord) (e : RoutingQueueEntry) (now : ℕ)
    → is_runnable_record r e now ≡ true
    → MayRun r e now
unfolding is_runnable_record is_entry_cancellation_requested
runnable_record-MayRun r e now h = (
  ground arith,
  (
    ground arith,
    (
      ground arith,
      (
        ground arith,
        (
          may_run-not_false e.runnable (ground arith),
          (
            runnable_state-NotStarted e.state (ground arith),
            (ground arith, (ground arith, (ground arith, ground arith))),
          ),
        ),
      ),
    ),
  ),
)

not_false-may_run : (value : Option Bool) → value ≢ some false → may_run value ≡ true
not_false-may_run none h = refl
not_false-may_run (some true) h = refl
not_false-may_run (some false) h = absurd (h refl)

NotStarted-runnable_state :
    (state : Option EntryState) → NotStarted state → is_runnable_state state ≡ true
unfolding is_runnable_state
NotStarted-runnable_state state (inl e) = rw e refl
NotStarted-runnable_state state (inr (inl e)) = rw e refl
NotStarted-runnable_state state (inr (inr e)) = rw e refl

wanted-uncancelled :
    (e : RoutingQueueEntry)
    → NotStarted e.state
    → IsWanted e
    → is_entry_cancellation_requested e ≡ false
unfolding is_entry_cancellation_requested
wanted-uncancelled e (inl h) (a, (b, (c, d))) = rw (a, b, h, c, d) refl
wanted-uncancelled e (inr (inl h)) (a, (b, (c, d))) = rw (a, b, h, c, d) refl
wanted-uncancelled e (inr (inr h)) (a, (b, (c, d))) = rw (a, b, h, c, d) refl

pub MayRun-runnable_record :
    (r : QueueRecord) (e : RoutingQueueEntry) (now : ℕ)
    → MayRun r e now
    → is_runnable_record r e now ≡ true
unfolding is_runnable_record
MayRun-runnable_record r e now (waits, (ahead, (fresh, (unasked, (allowed, (early, wanted)))))) =
    let a = not_false-may_run e.runnable allowed in
    let b = NotStarted-runnable_state e.state early in
    let c = wanted-uncancelled e early wanted in ground arith

-- The guard holds at every earlier time, and before the deadline only.
pub runnable_record-earlier :
    (r : QueueRecord) (e : RoutingQueueEntry) (now earlier : ℕ)
    → is_runnable_record r e now ≡ true
    → earlier ≤ now
    → (now < r.deadline) × (is_runnable_record r e earlier ≡ true)
unfolding is_runnable_record
runnable_record-earlier r e now earlier h before = (ground arith, ground arith)
