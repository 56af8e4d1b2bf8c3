-- ===== src/Router/Policy/Queue.antt =====
-- src/router/policy.ts: the state of RoutingPolicy, its expiry and the hand-over to an executor. The
-- records of the queue and of the active map are those that are registered, so that the indexes by
-- handle, entry, id, request and lease are searches of both; callbacks do not call the policy.
use pi_to_pi.Prelude.{
  ℕ, ◌+◌, leb, ◌==◌, if◌then◌else◌, Bool, true, false, not, ◌&&◌, ◌||◌, Option, none, some, List,
  [], ◌∷◌, ◌++◌, map, length, Text,
}
use pi_to_pi.Router.Policy.{
  QueueEntry, RoutingQueueEntry, QueueRecord, active, read_monotonic_now, is_runnable_record,
}

-- What a call reads, by the number of the reading: the clock, and the entry of the record with a
-- token.
pub record Readings : Type 0 where
  pub clock : ℕ → ℕ
  pub look : ℕ → ℕ → RoutingQueueEntry

-- The readings of a call that is made within a call.
abbrev pub within : ℕ → Readings → Readings
within n w = record { clock = λ i. w.clock (n + i); look = λ i. w.look (n + i) }

-- `notified` has the tokens of the records that onExpired was told of, in order.
pub record RoutingPolicy : Type 0 where
  pub queue_capacity : ℕ
  pub active_capacity : ℕ
  pub queue : List QueueRecord
  pub active : List QueueRecord
  pub next_token : ℕ
  pub last_observed_now : Option ℕ
  pub notified : List ℕ

pub record QueueLease : Type 0 where
  pub token : ℕ
  pub handle : Text
  pub entry : QueueEntry
  pub expires_at : ℕ

abbrev pub create_lease : QueueRecord → QueueLease
create_lease r = record {
  token = r.token;
  handle = r.handle;
  entry = r.entry;
  expires_at = r.deadline;
}

abbrev pub or_clock : Option ℕ → ℕ → ℕ
or_clock none reading = reading
or_clock (some override) reading = override

-- The time of a reading, and the policy that has observed it.
abbrev pub read_now : RoutingPolicy → Option ℕ → ℕ → ℕ
read_now s override reading = read_monotonic_now s.last_observed_now (or_clock override reading)

abbrev pub observe : ℕ → RoutingPolicy → RoutingPolicy
observe now s = record s { last_observed_now = some now }

abbrev pub is_due : ℕ → QueueRecord → Bool
is_due now r = leb r.deadline now

abbrev pub is_full : RoutingPolicy → Bool
is_full s = leb s.active_capacity (length s.active)

-- `markExpired`: the record, and what onExpired is told.
abbrev pub mark_expired : QueueRecord → QueueRecord
mark_expired r = record r { expired = true; expiry_notified = true }

unfoldable pub notify_expired : List QueueRecord → List ℕ → List ℕ
notify_expired [] notified = notified
notify_expired (r ∷ rs) notified =
    notify_expired rs (if r.expiry_notified then notified else notified ++ r.token ∷ [])

unfoldable pub has_token : ℕ → List QueueRecord → Bool
has_token token [] = false
has_token token (r ∷ rs) = r.token == token || has_token token rs

unfoldable pub delete_token : ℕ → List QueueRecord → List QueueRecord
delete_token token [] = []
delete_token token (r ∷ rs) = if r.token == token then rs else r ∷ delete_token token rs

unfoldable pub change_token : ℕ → (QueueRecord → QueueRecord) → List QueueRecord → List QueueRecord
change_token token f [] = []
change_token token f (r ∷ rs) = if r.token == token then f r ∷ rs else r ∷ change_token token f rs

unfoldable pub remove_record : RoutingPolicy → QueueRecord → RoutingPolicy
remove_record s r =
    if has_token r.token s.active
    then record s { active = delete_token r.token s.active }
    else record s { queue = delete_token r.token s.queue }

-- The first loop of `expire`, from the back: what stays in the queue, and what is due.
unfoldable pub sweep_queue : Readings → ℕ → List QueueRecord → List QueueRecord
sweep_queue w now [] = []
sweep_queue w now (r ∷ rs) =
    let rest = sweep_queue w now rs in
    if is_due now r
    then rest
    else if not (is_runnable_record r (w.look 0 r.token) now)
    then rest
    else r ∷ rest

unfoldable pub due_queue : ℕ → List QueueRecord → List QueueRecord
due_queue now [] = []
due_queue now (r ∷ rs) =
    let rest = due_queue now rs in if is_due now r then rest ++ r ∷ [] else rest

-- The second loop, over the active records.
unfoldable pub mark_due : ℕ → List QueueRecord → List QueueRecord
mark_due now [] = []
mark_due now (r ∷ rs) =
    (if is_due now r && not r.expired then mark_expired r else r) ∷ mark_due now rs

unfoldable pub due_active : ℕ → List QueueRecord → List QueueRecord
due_active now [] = []
due_active now (r ∷ rs) =
    let rest = due_active now rs in if is_due now r && not r.expired then r ∷ rest else rest

-- `expire` at a time that has been observed: the policy after it, and the records whose entries it
-- returns.
unfoldable pub expire_at : RoutingPolicy → Readings → ℕ → RoutingPolicy
expire_at s w now = record (observe now s) {
  queue = sweep_queue w now s.queue;
  active = mark_due now s.active;
  notified = notify_expired (due_queue now s.queue ++ due_active now s.active) s.notified;
}

unfoldable pub expire : RoutingPolicy → Option ℕ → Readings → RoutingPolicy × List QueueEntry
expire s override w =
    let now = read_now s override (w.clock 0) in
    (
      expire_at s w now,
      map (λ (r : QueueRecord). r.entry) (due_queue now s.queue ++ due_active now s.active),
    )

unfoldable pub hand_over : RoutingPolicy → QueueRecord → RoutingPolicy × Option QueueLease
hand_over s r =
    (record s { active = s.active ++ record r { status = active } ∷ [] }, some (create_lease r))

-- `claimRecord`, after its first and after its second look at the record.
unfoldable pub claim_again :
    RoutingPolicy → QueueRecord → Readings → RoutingPolicy × Option QueueLease
claim_again s r w =
    let now = read_now s none (w.clock 1) in
    if not (is_runnable_record r (w.look 1 r.token) now)
    then (observe now s, none)
    else if is_full s
    then (observe now s, none)
    else hand_over (observe now s) r

unfoldable pub claim_record :
    RoutingPolicy → QueueRecord → Readings → RoutingPolicy × Option QueueLease
claim_record s r w =
    let now = read_now s none (w.clock 0) in
    if is_full s
    then (s, none)
    else if not (is_runnable_record r (w.look 0 r.token) now)
    then (observe now s, none)
    else claim_again (observe now s) r w

abbrev pub observed_now : RoutingPolicy → ℕ
observed_now s = or_clock s.last_observed_now 0

-- What `dequeue` does with a record that it could not hand over.
unfoldable pub drop_record : RoutingPolicy → QueueRecord → RoutingPolicy
drop_record s r =
    if is_due (observed_now s) r || r.expired
    then record s { notified = notify_expired (r ∷ []) s.notified }
    else s

unfoldable pub after_claim :
    QueueRecord
    → List QueueRecord
    → (RoutingPolicy → RoutingPolicy × Option QueueLease)
    → RoutingPolicy × Option QueueLease
    → RoutingPolicy × Option QueueLease
after_claim r rs again (s, some lease) = (record s { queue = rs }, some lease)
after_claim r rs again (s, none) =
    if is_full s then (record s { queue = r ∷ rs }, none) else again (drop_record s r)

-- The loop of `dequeue`. The queue is its argument, the state's is that of the last round.
unfoldable pub dequeue_from :
    RoutingPolicy → List QueueRecord → Readings → RoutingPolicy × Option QueueLease
dequeue_from s [] w = (record s { queue = [] }, none)
dequeue_from s (r ∷ rs) w =
    after_claim r rs (λ s'. dequeue_from s' rs (within 2 w)) (claim_record s r w)

unfoldable pub dequeue : RoutingPolicy → Option ℕ → Readings → RoutingPolicy × Option QueueLease
dequeue s override w =
    let s' = expire_at s w (read_now s override (w.clock 0)) in
    if is_full s' then (s', none) else dequeue_from s' s'.queue (within 1 w)
