-- ===== src/Router/Policy.antt =====
-- src/router/policy.ts: the limits, the clock and the execution guard of the routing policy. Times are
-- finite, and counted in ticks from 0. All failures are RangeErrors.
pub mod Limits
pub mod Guard
pub mod Queue
pub mod Admit
pub mod Cancel
pub mod Steps
pub mod Moves
pub mod Found
pub mod Cancelling
pub mod History
pub mod Bounds
pub mod Clock
pub mod Counting
pub mod Once
pub mod Handover
pub mod Admission
pub mod Service
pub mod Handles
pub mod Sweep
pub mod Removal
mod Scenarios
mod Tests
use pi_to_pi.Prelude.{
  ℕ, suc, leb, ltb, ◌==◌, ◌^◌, Bool, true, false, not, ◌||◌, ◌&&◌, any, if◌then◌else◌, Option, none,
  some, List, [], ◌∷◌, ℤ, pos, negsuc, Num, nan, infinity, minus_infinity, int, between, Result, ok,
  err, ◌>>=◌, Text,
}
use pi_to_pi.Protocol.TaskState.{TaskState, is_terminal, state_eq}
use pi_to_pi.Protocol.TaskState

pub data RangeError : Type 0 where
  range_error : RangeError

abbrev pub default_queue_capacity : ℕ
default_queue_capacity = 32

abbrev int_eq : ℤ → ℤ → Bool
int_eq (pos m) (pos n) = m == n
int_eq (negsuc m) (negsuc n) = m == n
int_eq _ _ = false

-- `===`. Numbers between the same integers may differ; both are refused in any case.
abbrev num_eq : Num → Num → Bool
num_eq (int m) (int n) = int_eq m n
num_eq (between m) (between n) = int_eq m n
num_eq infinity infinity = true
num_eq minus_infinity minus_infinity = true
num_eq _ _ = false

abbrev given : List (Option Num) → List Num
given [] = []
given (none ∷ values) = given values
given (some value ∷ values) = value ∷ given values

-- The first value that is given; the others must agree with it.
agreed : List Num → Result RangeError (Option Num)
agreed [] = ok none
agreed (capacity ∷ values) =
    if any (λ value. not (num_eq value capacity)) (capacity ∷ values)
    then err range_error
    else ok (some capacity)

resolve_configured_capacity : List (Option Num) → Result RangeError (Option Num)
resolve_configured_capacity values = agreed (given values)

-- `Number.isSafeInteger(value) && value >= 1`, and not above the default.
validate_capacity : Num → Result RangeError ℕ
validate_capacity (int (pos n)) =
    if not (ltb n (2 ^ 53)) || ltb n 1
    then err range_error
    else if ltb default_queue_capacity n
    then err range_error
    else ok n
validate_capacity _ = err range_error

pub record RoutingPolicyOptions : Type 0 where
  pub capacity : Option Num
  pub queue_capacity : Option Num
  pub max_queue_entries : Option Num
  pub limit : Option Num
  pub active_capacity : Option Num
  pub max_active_entries : Option Num

-- `configured ?? fallback`
validate_or : ℕ → Option Num → Result RangeError ℕ
validate_or fallback none = validate_capacity (int (pos fallback))
validate_or fallback (some value) = validate_capacity value

pub resolve_queue_capacity : RoutingPolicyOptions → Result RangeError ℕ
resolve_queue_capacity o =
    resolve_configured_capacity (o.capacity ∷ o.queue_capacity ∷ o.max_queue_entries ∷ o.limit ∷ [])
    >>= validate_or default_queue_capacity

pub resolve_active_capacity : RoutingPolicyOptions → ℕ → Result RangeError ℕ
resolve_active_capacity o queue_capacity =
    resolve_configured_capacity (o.active_capacity ∷ o.max_active_entries ∷ [])
    >>= validate_or queue_capacity

-- `readMonotonicNow`, which starts with no time observed: the reading, which is also the time last
-- observed from then on.
pub read_monotonic_now : Option ℕ → ℕ → ℕ
read_monotonic_now none candidate = candidate
read_monotonic_now (some last) candidate = if ltb candidate last then last else candidate

-- The strings that `state` may be.
pub data EntryState : Type 0 where
  aborted other : EntryState
  task : TaskState → EntryState

-- The object of a caller, or the lease object made for the record with a token.
pub data Object : Type 0 where
  caller_object lease_object : ℕ → Object

-- What of an entry stays as it is: which object it is, and its readonly fields.
pub record QueueEntry : Type 0 where
  pub reference : Object
  pub id : Option Text
  pub request_id : Option Text
  pub expires_at : ℕ

-- An entry as it is observed at one moment.
pub record RoutingQueueEntry : Type 0 where
  pub cancelled : Bool
  pub state : Option EntryState
  pub runnable : Option Bool
  pub aborted : Bool
  pub is_cancelled : Bool
  pub signal_aborted : Bool

pub data Status : Type 0 where
  candidate queued active cancelled released : Status

pub record QueueRecord : Type 0 where
  pub token : ℕ
  pub handle : Text
  pub entry : QueueEntry
  pub deadline : ℕ
  pub status : Status
  pub expired : Bool
  pub expiry_notified : Bool
  pub cancellation_requested : Bool

pub is_runnable_state : Option EntryState → Bool
is_runnable_state none = true
is_runnable_state (some EntryState.aborted) = false
is_runnable_state (some other) = false
is_runnable_state (some (task s)) = state_eq s TaskState.accepted || state_eq s TaskState.queued

abbrev pub is_cancelling_state : Option EntryState → Bool
is_cancelling_state (some (task s)) =
    state_eq s TaskState.cancelled || state_eq s TaskState.cancelling
is_cancelling_state _ = false

pub is_entry_cancellation_requested : RoutingQueueEntry → Bool
is_entry_cancellation_requested e =
    e.cancelled
    || (e.aborted || (is_cancelling_state e.state || (e.signal_aborted || e.is_cancelled)))

pub is_terminal_or_aborted_state : Option EntryState → Bool
is_terminal_or_aborted_state none = false
is_terminal_or_aborted_state (some EntryState.aborted) = true
is_terminal_or_aborted_state (some other) = false
is_terminal_or_aborted_state (some (task s)) = is_terminal s

-- `status === 'candidate' || status === 'queued'`
abbrev pub is_waiting : Status → Bool
is_waiting candidate = true
is_waiting queued = true
is_waiting _ = false

-- `runnable !== false`
abbrev pub may_run : Option Bool → Bool
may_run (some false) = false
may_run _ = true

-- Where `e` is the record's entry as it is observed then.
pub is_runnable_record : QueueRecord → RoutingQueueEntry → ℕ → Bool
is_runnable_record r e now =
    is_waiting r.status
    && (not r.expired
        && (not r.cancellation_requested
            && (may_run e.runnable
                && (ltb now r.deadline
                    && (is_runnable_state e.state && not (is_entry_cancellation_requested e))))))
