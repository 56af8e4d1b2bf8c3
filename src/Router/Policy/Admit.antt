-- ===== src/Router/Policy/Admit.antt =====
-- src/router/policy.ts: `admit`, `enqueue` and `accept`.
use pi_to_pi.Prelude.{
  ℕ, zero, suc, ◌+◌, leb, ◌==◌, if◌then◌else◌, Bool, false, not, ◌||◌, Option, none, some, List, [],
  ◌∷◌, ◌++◌, map, length, Text, text_eq, Result, ok, err,
}
use pi_to_pi.Router.Policy.{QueueEntry, QueueRecord, candidate, queued, is_runnable_record}
use pi_to_pi.Router.Policy.Queue.{
  Readings, within, RoutingPolicy, QueueLease, read_now, observed_now, is_due, is_full, expire_at,
  claim_record,
}

pub data TypeError : Type 0 where
  type_error : TypeError

-- A busy decision has the number of queued and of active records; the other errors are fixed texts.
pub data QueueAdmissionDecision : Type 0 where
  accepted : QueueLease → QueueAdmissionDecision
  enqueued : QueueEntry → Text → ℕ → QueueAdmissionDecision
  busy : ℕ → ℕ → QueueAdmissionDecision
  expired cancelled : QueueAdmissionDecision

abbrev pub busy_decision : RoutingPolicy → QueueAdmissionDecision
busy_decision s = busy (length s.queue) (length s.active)

abbrev pub admission_decision_for : QueueRecord → ℕ → QueueAdmissionDecision
admission_decision_for r now = if r.expired || is_due now r then expired else cancelled

abbrev pub is_empty : Option Text → Bool
is_empty none = false
is_empty (some text) = length text == 0

unfoldable pub is_taken : Text → List Text → Bool
is_taken handle [] = false
is_taken handle (h ∷ hs) = text_eq h handle || is_taken handle hs

-- The loop that draws handles until one is not in use. With one draw more than there are handles in
-- use, the last is the answer.
unfoldable pub fresh_handle : ℕ → List Text → (ℕ → Text) → Text
fresh_handle zero taken draws = draws 0
fresh_handle (suc n) taken draws =
    let next = fresh_handle n taken (λ i. draws (suc i)) in
    if is_taken (draws 0) taken then next else draws 0

abbrev pub handles : RoutingPolicy → List Text
handles s = map (λ (r : QueueRecord). r.handle) (s.queue ++ s.active)

unfoldable pub new_record : RoutingPolicy → QueueEntry → (ℕ → Text) → QueueRecord
new_record s entry draws = record {
  token = s.next_token;
  handle = fresh_handle (length (handles s)) (handles s) draws;
  entry = entry;
  deadline = entry.expires_at;
  status = candidate;
  expired = false;
  expiry_notified = false;
  cancellation_requested = false;
}

unfoldable pub create_record :
    RoutingPolicy → QueueEntry → (ℕ → Text) → Result TypeError QueueRecord
create_record s entry draws =
    if is_empty entry.id || is_empty entry.request_id
    then err type_error
    else ok (new_record s entry draws)

abbrev pub started :
    QueueRecord → RoutingPolicy × Option QueueLease → RoutingPolicy × QueueAdmissionDecision
started r (s, some lease) = (s, accepted lease)
started r (s, none) = (s, admission_decision_for r (observed_now s))

unfoldable pub start_record :
    RoutingPolicy → QueueRecord → Readings → RoutingPolicy × QueueAdmissionDecision
start_record s r w = if is_full s then (s, busy_decision s) else started r (claim_record s r w)

unfoldable pub push_record : RoutingPolicy → QueueRecord → RoutingPolicy × QueueAdmissionDecision
push_record s r = if leb s.queue_capacity (length s.queue) then (s, busy_decision s) else (
  record s { queue = s.queue ++ record r { status = queued } ∷ [] },
  enqueued r.entry r.handle (length s.queue + 1),
)

unfoldable pub queue_record :
    RoutingPolicy → QueueRecord → Readings → RoutingPolicy × QueueAdmissionDecision
queue_record s r w =
    let now = read_now s none (w.clock 0) in
    let s' = expire_at s w now in
    if not (is_runnable_record r (w.look 1 r.token) now)
    then (s', admission_decision_for r now)
    else push_record s' r

-- The rest of `admit`, with a record that has taken its token.
unfoldable pub admit_record :
    RoutingPolicy → QueueRecord → Bool → ℕ → Readings → RoutingPolicy × QueueAdmissionDecision
admit_record s r start now w =
    if not (is_runnable_record r (w.look 0 r.token) now)
    then (s, admission_decision_for r now)
    else if start
    then start_record s r (within 1 w)
    else queue_record s r (within 1 w)

abbrev pub take_token : RoutingPolicy → RoutingPolicy
take_token s = record s { next_token = suc s.next_token }

unfoldable pub admit_created :
    RoutingPolicy
    → Result TypeError QueueRecord
    → Bool
    → ℕ
    → Readings
    → RoutingPolicy × Result TypeError QueueAdmissionDecision
admit_created s (err e) start now w = (s, err e)
admit_created s (ok r) start now w =
    let admitted = admit_record (take_token s) r start now w in (admitted.0, ok (admitted.1))

-- `start` is startImmediately, `override` the time that the caller gives.
unfoldable pub admit :
    RoutingPolicy
    → QueueEntry
    → Bool
    → Option ℕ
    → (ℕ → Text)
    → Readings
    → RoutingPolicy × Result TypeError QueueAdmissionDecision
admit s entry start override draws w =
    let now = read_now s override (w.clock 0) in
    let s' = expire_at s w now in
    admit_created s' (create_record s' entry draws) start now (within 1 w)
