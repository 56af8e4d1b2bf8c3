-- ===== src/Router/TaskStore.antt =====
-- src/router/task-store.ts: the values of the task store. Times are whole milliseconds since 1970.
-- Response contents and contracts are JavaScript values, which are never changed in place.
pub mod Records
pub mod Transition
pub mod Create
pub mod Operations
pub mod Cancel
pub mod Steps
pub mod Moves
pub mod Admission
pub mod Calls
pub mod Dropping
pub mod History
pub mod Invariant
pub mod Outcomes
pub mod Answers
pub mod Authorization
pub mod Deadlines
mod Tests
use pi_to_pi.Prelude.{
  ℕ, ◌+◌, ltb, leb, if◌then◌else◌, Bool, true, false, not, ◌||◌, ◌&&◌, Option, none, some, List,
  Text, text_eq, codes, Result, ok, err, ◌>>=◌,
}
use pi_to_pi.Protocol.Json.{Value, object, string, get_field}
use pi_to_pi.Protocol.TaskState.{TaskState, is_terminal}
use pi_to_pi.Protocol.Errors.{ProtocolError}

pub record TaskOwner : Type 0 where
  pub runtime_id : Text
  pub session_id : Option Text

pub data TaskOwnership : Type 0 where
  inbound outbound : TaskOwnership

-- `cancellation` is there if cancellation was requested, with the time if it is known.
pub record TaskSnapshot : Type 0 where
  pub request_id : Text
  pub state : TaskState
  pub created_at : Text
  pub updated_at : Text
  pub expires_at : Text
  pub cancellation_requested : Bool
  pub cancellation : Option (Option Text)
  pub terminal_outcome : Option TaskState
  pub content : Option Value
  pub error : Option ProtocolError

-- `abort_signal` is the reason that the task's signal was aborted with, once it was; the timers are the
-- delays that they were set with.
pub record StoredTask : Type 0 where
  pub request_id : Text
  pub owner : TaskOwner
  pub local_owner : TaskOwner
  pub expected_target_runtime_id : Option Text
  pub room_id : Option Text
  pub response_contract : Option Value
  pub ownership : TaskOwnership
  pub deadline_ms : ℕ
  pub deadline_monotonic_ms : ℕ
  pub updated_at_ms : ℕ
  pub snapshot : TaskSnapshot
  pub abort_signal : Option (Option Text)
  pub expiry_timer : Option ℕ
  pub purge_timer : Option ℕ

-- What the hooks `onStateChange`, `onCancellationRequested` and `onExpired` are called with.
pub data TaskEvent : Type 0 where
  state_changed : Text → TaskState → TaskState → TaskSnapshot → TaskEvent
  cancellation_asked : Text → TaskOwner → TaskSnapshot → Option Text → TaskEvent
  task_expired : TaskSnapshot → TaskEvent

-- The map of records is the list of its values in insertion order, and the set of queued keys is a list
-- without repetition. `events` are the calls of hooks, in order; a hook that throws changes nothing.
pub record TaskStore : Type 0 where
  pub records : List StoredTask
  pub queued : List Text
  pub disposed : Bool
  pub events : List TaskEvent

pub data TaskAuthorizationAction : Type 0 where
  status cancel : TaskAuthorizationAction

-- No `terminal_retention_ms` stands for infinity. Without a function, `authorize` refuses.
pub record TaskStoreOptions : Type 0 where
  pub retain_terminal_response : Bool
  pub terminal_retention_ms : Option ℕ
  pub local_owner_runtime_id : Option Text
  pub authorize : Text → TaskAuthorizationAction → TaskOwner → Text → Bool

pub data TaskStoreErrorCode : Type 0 where
  duplicate not_found invalid_transition terminal unauthorized not_cancelable expired disposed :
      TaskStoreErrorCode

-- What a call throws: a `TaskStoreError`, a `RangeError` or a `TypeError`.
pub data TaskError : Type 0 where
  task_store_error : TaskStoreErrorCode → Option TaskSnapshot → TaskError
  range_error type_error : TaskError

-- A reading of the wall clock and of the monotonic clock for each place of a call that reads one; all
-- are finite.
pub record Clocks : Type 0 where
  pub wall : ℕ → ℕ
  pub monotonic : ℕ → ℕ

-- The readings for the places of a call that is made within a call.
abbrev pub within : ℕ → Clocks → Clocks
within n c = record { wall = λ i. c.wall (n + i); monotonic = λ i. c.monotonic (n + i) }

pub record NormalizedTimestamp : Type 0 where
  pub value : Text
  pub epoch_ms : ℕ

-- A `Date` and a number are their time, and a string is parsed.
pub data TaskTimestampInput : Type 0 where
  epoch : ℕ → TaskTimestampInput
  wire : Text → TaskTimestampInput

pub record TaskResponse : Type 0 where
  pub content : Option Value
  pub error : Option ProtocolError

-- `content` and `error` may be there without a value.
pub record TaskTransitionUpdate : Type 0 where
  pub content : Option (Option Value)
  pub error : Option (Option ProtocolError)
  pub response : Option TaskResponse
  pub cancellation_requested : Bool
  pub requested_at : Option TaskTimestampInput
  pub updated_at : Option TaskTimestampInput
  pub reason : Option Text

abbrev pub no_update : TaskTransitionUpdate
no_update = record {
  content = none;
  error = none;
  response = none;
  cancellation_requested = false;
  requested_at = none;
  updated_at = none;
  reason = none;
}

-- `first ?? second`
abbrev pub or_else : {A : Type 0} → Option A → Option A → Option A
or_else none second = second
or_else (some a) second = some a

abbrev pub or_value : {A : Type 0} → Option A → A → A
or_value none a = a
or_value (some b) a = b

-- What the JavaScript engine makes of dates: `new Date(ms).toISOString()`, which throws a `RangeError`
-- beyond the range of dates, and `Date.parse`.
pub record Dates : Type 0 where
  pub to_iso : ℕ → Option Text
  pub parse : Text → Option ℕ

module _ (dates : Dates) where
  unfoldable pub normalize_timestamp : TaskTimestampInput → Result TaskError NormalizedTimestamp
  normalize_timestamp (epoch ms) = elim (dates.to_iso ms) [
    | none ↦ err range_error
    | some text ↦ ok (record { value = text; epoch_ms = ms })
  ]
  normalize_timestamp (wire text) = elim (dates.parse text) [
    | none ↦ err range_error
    | some ms ↦ ok (record { value = text; epoch_ms = ms })
  ]

-- The arguments of `buildSnapshot`.
pub record SnapshotInput : Type 0 where
  pub request_id : Text
  pub state : TaskState
  pub created_at : Text
  pub updated_at : Text
  pub expires_at : Text
  pub cancellation_requested : Bool
  pub requested_at : Option Text
  pub content : Option Value
  pub error : Option ProtocolError
  pub terminal : Bool
  pub terminal_response : TaskResponse

abbrev kept : {A : Type 0} → Bool → Bool → Option A → Option A → Option A
kept false retain terminal_value value = value
kept true true terminal_value value = or_else terminal_value value
kept true false terminal_value value = none

unfoldable pub build_snapshot : Bool → SnapshotInput → TaskSnapshot
build_snapshot retain i = record {
  request_id = i.request_id;
  state = i.state;
  created_at = i.created_at;
  updated_at = i.updated_at;
  expires_at = i.expires_at;
  cancellation_requested = i.cancellation_requested;
  cancellation = if i.cancellation_requested then some i.requested_at else none;
  terminal_outcome = if i.terminal then some i.state else none;
  content = kept i.terminal retain i.terminal_response.content i.content;
  error = kept i.terminal retain i.terminal_response.error i.error;
}

unfoldable pub project_snapshot : TaskSnapshot → Bool → TaskSnapshot
project_snapshot s include_terminal_response =
    if not (is_terminal s.state) || include_terminal_response
    then s
    else record s { content = none; error = none }

unfoldable pub response_for_update : TaskTransitionUpdate → TaskResponse
response_for_update u =
    or_value u.response
      (record { content = or_value u.content none; error = or_value u.error none })

unfoldable pub update_reason : TaskTransitionUpdate → Option Text
update_reason u =
    or_else u.reason (elim (or_value u.error none) [ none ↦ none | some e ↦ some e.message ])

-- A caller without a runtime identifier is `none`.
unfoldable pub is_authorized :
    TaskStoreOptions → StoredTask → Option Text → TaskAuthorizationAction → Bool
is_authorized options r none action = false
is_authorized options r (some caller) action =
    (text_eq caller r.owner.runtime_id
      || elim options.local_owner_runtime_id [ none ↦ false | some local ↦ text_eq caller local ])
    || options.authorize r.request_id action r.owner caller
