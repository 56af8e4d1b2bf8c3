-- ===== src/Router/TaskStore/Create.antt =====
-- src/router/task-store.ts: `createTask`.
use pi_to_pi.Prelude.{
  ℕ, ◌+◌, ◌-◌, ◌*◌, leb, ◌==◌, if◌then◌else◌, Bool, not, ◌&&◌, Option, none, some, [], ◌∷◌, ◌++◌,
  Text, codes, Result, ok, err, ◌>>=◌,
}
use pi_to_pi.Protocol.Json.{Value}
use pi_to_pi.Protocol.TaskState.{TaskState, accepted, cancelling, queued, state_eq, is_terminal}
use pi_to_pi.Protocol.Errors
use pi_to_pi.Protocol.Errors.{plain_error, ProtocolError}
use pi_to_pi.Router.TaskStore.{
  TaskOwner, TaskOwnership, inbound, TaskSnapshot, StoredTask, task_expired, TaskStore,
  TaskStoreOptions, invalid_transition, duplicate, TaskError, task_store_error, range_error,
  type_error, Clocks, within, NormalizedTimestamp, TaskTimestampInput, epoch, TaskResponse, or_else,
  or_value, Dates, normalize_timestamp, build_snapshot,
}
use pi_to_pi.Router.TaskStore.Records.{find_record, add_key}
use pi_to_pi.Router.TaskStore.Transition.{Answer, disposed_error, expire_record}

-- A string is a runtime identifier without a session.
pub record TaskOwnerInput : Type 0 where
  pub runtime_id : Option Text
  pub session_id : Option Text

pub record TaskStoreCreateInput : Type 0 where
  pub request_id : Text
  pub owner : Option TaskOwnerInput
  pub requester : Option TaskOwnerInput
  pub sender : Option TaskOwnerInput
  pub local_owner : Option TaskOwnerInput
  pub owner_runtime_id : Option Text
  pub sender_runtime_id : Option Text
  pub owner_session_id : Option Text
  pub expected_target_runtime_id : Option Text
  pub room_id : Option Text
  pub response_contract : Option Value
  pub ownership : Option TaskOwnership
  pub direction : Option TaskOwnership
  pub created_at : Option TaskTimestampInput
  pub expires_at : Option TaskTimestampInput
  pub state : Option TaskState
  pub initial_state : Option TaskState
  pub admission_state : Option TaskState
  pub cancellation_requested : Bool
  pub requested_at : Option TaskTimestampInput
  pub content : Option Value
  pub error : Option ProtocolError
  pub response : Option TaskResponse

abbrev pub default_request_ttl_ms : ℕ
default_request_ttl_ms = 10 * 60 * 1000

unfoldable pub owner_of : Option Text → Option Text → Result TaskError TaskOwner
owner_of none session = err type_error
owner_of (some []) session = err type_error
owner_of (some (c ∷ cs)) session = ok (record { runtime_id = c ∷ cs; session_id = session })

unfoldable pub normalize_owner_value : Option TaskOwnerInput → Result TaskError (Option TaskOwner)
unfolding owner_of
normalize_owner_value none = ok none
normalize_owner_value (some i) = do owner ← owner_of i.runtime_id i.session_id; ok (some owner)

unfoldable pub normalize_owner : TaskStoreCreateInput → Result TaskError TaskOwner
unfolding normalize_owner_value owner_of
normalize_owner i = do
  owner ← normalize_owner_value (or_else i.requester (or_else i.owner i.sender))
  elim owner [
    | some given ↦ ok given
    | none ↦ owner_of (or_else i.owner_runtime_id i.sender_runtime_id) i.owner_session_id
  ]

unfoldable pub local_owner_of : Option Text → TaskOwner → Result TaskError TaskOwner
unfolding owner_of
local_owner_of none requester = ok requester
local_owner_of (some id) requester = owner_of (some id) none

unfoldable pub normalize_local_owner :
    TaskStoreCreateInput → TaskOwner → Option Text → Result TaskError TaskOwner
unfolding normalize_owner_value local_owner_of
normalize_local_owner i requester local_owner_runtime_id = do
  explicit ← normalize_owner_value i.local_owner
  elim explicit [ some given ↦ ok given | none ↦ local_owner_of local_owner_runtime_id requester ]

abbrev deadline_reason : Text
deadline_reason = codes "task deadline expired"

unfoldable pub requested_state : TaskStoreCreateInput → TaskState
requested_state i =
    or_value i.initial_state (or_value i.state (or_value i.admission_state accepted))

unfoldable pub insert_task : TaskStore → StoredTask → TaskStore
insert_task s r = record s {
  records = s.records ++ r ∷ [];
  queued = if state_eq r.snapshot.state queued then add_key r.request_id s.queued else s.queued;
  events =
      s.events
      ++ (if state_eq r.snapshot.state TaskState.expired then task_expired r.snapshot ∷ [] else []);
}

unfoldable pub with_snapshot : Answer (Unit {0}) → TaskSnapshot → Answer TaskSnapshot
with_snapshot (s, ok _) snapshot = (s, ok snapshot)
with_snapshot (s, err e) snapshot = (s, err e)

abbrev pub with_expiry_timer : ℕ → StoredTask → StoredTask
with_expiry_timer delay r = record r { expiry_timer = some delay }

module _ (dates : Dates) (options : TaskStoreOptions) where
  unfoldable pub requested_at_of_input : TaskStoreCreateInput → ℕ → Result TaskError (Option Text)
  requested_at_of_input i now =
      if i.cancellation_requested
      then (do
        t ← normalize_timestamp dates (or_value i.requested_at (epoch now))
        ok (some t.value))
      else ok none

  -- The record of a task that is admitted in this state, before a deadline timer is set.
  unfoldable pub task_record :
      TaskStoreCreateInput
      → TaskOwner
      → TaskOwner
      → TaskState
      → Bool
      → NormalizedTimestamp
      → NormalizedTimestamp
      → Option Text
      → ℕ
      → StoredTask
  task_record i owner local state late created expires requested_at deadline =
      let response = or_value i.response (record { content = i.content; error = i.error }) in
      record {
        request_id = i.request_id;
        owner = owner;
        local_owner = local;
        expected_target_runtime_id = i.expected_target_runtime_id;
        room_id = i.room_id;
        response_contract = i.response_contract;
        ownership = or_value i.ownership (or_value i.direction inbound);
        deadline_ms = expires.epoch_ms;
        deadline_monotonic_ms = deadline;
        updated_at_ms = created.epoch_ms;
        snapshot = build_snapshot options.retain_terminal_response (record {
          request_id = i.request_id;
          state = state;
          created_at = created.value;
          updated_at = created.value;
          expires_at = expires.value;
          cancellation_requested = i.cancellation_requested;
          requested_at = requested_at;
          content = response.content;
          error =
              if late
              then some
                  (plain_error Errors.expired (codes "task deadline elapsed before admission"))
              else response.error;
          terminal = is_terminal state;
          terminal_response = response;
        });
        abort_signal =
            if state_eq state TaskState.expired then some (some deadline_reason) else none;
        expiry_timer = none;
        purge_timer = if is_terminal state then options.terminal_retention_ms else none;
      }

  -- The checks of `createTask`, and the record that it makes, from the last step to the first.
  unfoldable pub admit_asked :
      TaskStoreCreateInput
      → Clocks
      → TaskOwner
      → TaskOwner
      → NormalizedTimestamp
      → NormalizedTimestamp
      → Option Text
      → Result TaskError StoredTask
  admit_asked i c owner local created expires requested_at =
      let requested = requested_state i in
      let late = not (is_terminal requested) && leb expires.epoch_ms (c.wall 0) in
      ok (
        task_record i owner local (if late then TaskState.expired else requested) late created
          expires requested_at (c.monotonic 0 + (expires.epoch_ms - c.wall 0)))

  unfoldable pub admit_expiring :
      TaskStoreCreateInput
      → Clocks
      → TaskOwner
      → TaskOwner
      → NormalizedTimestamp
      → NormalizedTimestamp
      → Result TaskError StoredTask
  admit_expiring i c owner local created expires =
      if leb expires.epoch_ms created.epoch_ms
      then err range_error
      else requested_at_of_input i (c.wall 0) >>= admit_asked i c owner local created expires

  unfoldable pub admit_created :
      TaskStoreCreateInput
      → Clocks
      → TaskOwner
      → TaskOwner
      → NormalizedTimestamp
      → Result TaskError StoredTask
  admit_created i c owner local created =
      normalize_timestamp dates
        (or_value i.expires_at (epoch (created.epoch_ms + default_request_ttl_ms)))
      >>= admit_expiring i c owner local created

  unfoldable pub admit_local :
      TaskStoreCreateInput → Clocks → TaskOwner → TaskOwner → Result TaskError StoredTask
  admit_local i c owner local =
      if state_eq (requested_state i) cancelling
      then err (task_store_error invalid_transition none)
      else normalize_timestamp dates (or_value i.created_at (epoch (c.wall 0)))
        >>= admit_created i c owner local

  unfoldable pub admit_owned :
      TaskStoreCreateInput → Clocks → TaskOwner → Result TaskError StoredTask
  admit_owned i c owner =
      normalize_local_owner i owner options.local_owner_runtime_id >>= admit_local i c owner

  unfoldable pub admit_task : TaskStoreCreateInput → Clocks → Result TaskError StoredTask
  admit_task i c = normalize_owner i >>= admit_owned i c

  -- `scheduleExpiry` of a new task that is not over.
  unfoldable pub insert_active : TaskStore → StoredTask → Clocks → Answer TaskSnapshot
  insert_active s r c =
      let delay = r.deadline_monotonic_ms - c.monotonic 1 in
      if delay == 0
      then with_snapshot (expire_record dates options (insert_task s r) r.request_id (within 10 c))
          r.snapshot
      else (insert_task s (with_expiry_timer delay r), ok r.snapshot)

  unfoldable pub create_admitted :
      TaskStore → Result TaskError StoredTask → Clocks → Answer TaskSnapshot
  create_admitted s (err e) c = (s, err e)
  create_admitted s (ok r) c =
      if is_terminal r.snapshot.state then (insert_task s r, ok r.snapshot) else insert_active s r c

  unfoldable pub create_new :
      TaskStore → TaskStoreCreateInput → Clocks → Option StoredTask → Answer TaskSnapshot
  create_new s i c (some r) = (s, err (task_store_error duplicate none))
  create_new s i c none = create_admitted s (admit_task i c) c

  unfoldable pub create_task : TaskStore → TaskStoreCreateInput → Clocks → Answer TaskSnapshot
  create_task s i c =
      if s.disposed
      then (s, err disposed_error)
      else create_new s i c (find_record i.request_id s.records)
