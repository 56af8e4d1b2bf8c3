-- ===== src/Router/Dedupe/Decisions.antt =====
-- src/router/dedupe.ts: records, reservations and the decisions that the store answers with. A record's
-- timer is the delay it was set with, and `serial` tells record objects apart.
use pi_to_pi.Prelude.{ℕ, if◌then◌else◌, Bool, true, false, not, Option, none, some, Text, text_eq}
use pi_to_pi.Protocol.Json.{Value}
use pi_to_pi.Protocol.Errors.{ProtocolErrorCode}
use pi_to_pi.Protocol.Errors
use pi_to_pi.Router.Dedupe.{Subject, NormalizedOperation}

pub record StoredRecord : Type 0 where
  pub normalized : NormalizedOperation
  pub open normalized use *
  pub pending : Bool
  pub has_result : Bool
  pub result : Value
  pub has_task_reference : Bool
  pub task_reference : Value
  pub timer : Option ℕ
  pub serial : ℕ

-- `DedupeRecord`: what callers see of a record.
pub record Snapshot : Type 0 where
  pub subject : Subject
  pub expires_at : Text
  pub retained_until : ℕ
  pub pending : Bool
  pub result : Option Value
  pub task_reference : Option Value

pub record Reservation : Type 0 where
  pub subject : Subject
  pub retained_until : ℕ

-- `fresh` is the kind `new`.
pub data DecisionKind : Type 0 where
  fresh replay duplicate pending ignored busy stored expired : DecisionKind

pub data Action : Type 0 where
  execute replay reject retry ignore stored : Action

-- `status` always equals `kind`. The payloads of errors are left out but for their codes.
pub record Decision : Type 0 where
  pub kind : DecisionKind
  pub action : Action
  pub operation : Option Text
  pub subject : Option Subject
  pub result : Option Value
  pub task_reference : Option Value
  pub record_of : Option Snapshot
  pub reservation : Option Reservation
  pub error : Option ProtocolErrorCode
  pub retryable : Option Bool

-- The decision with nothing but its kind, its action and the operation's name.
abbrev bare : DecisionKind → Action → Option Text → Decision
bare kind action operation = record {
  kind = kind;
  action = action;
  operation = operation;
  subject = none;
  result = none;
  task_reference = none;
  record_of = none;
  reservation = none;
  error = none;
  retryable = none;
}

abbrev pub ignored_decision : Option Text → Decision
ignored_decision operation = bare DecisionKind.ignored Action.ignore operation

abbrev about : DecisionKind → Action → Subject → Bool → Decision
about kind action s retryable = record (bare kind action (some s.operation)) {
  subject = some s;
  retryable = some retryable;
}

abbrev pub new_decision : Subject → Decision
new_decision s = about DecisionKind.fresh Action.execute s false

abbrev pub busy_decision : Subject → Decision
busy_decision s = record (about DecisionKind.busy Action.retry s true) { error = some Errors.busy }

abbrev pub expired_decision : Subject → Decision
expired_decision s = record (about DecisionKind.expired Action.retry s false) {
  error = some Errors.expired;
}

abbrev pub when : Bool → Value → Option Value
when true v = some v
when false v = none

abbrev pub snapshot : StoredRecord → Snapshot
snapshot r = record {
  subject = r.subject;
  expires_at = r.expires_at;
  retained_until = r.retained_until;
  pending = r.pending;
  result = when r.has_result r.result;
  task_reference = when r.has_task_reference r.task_reference;
}

-- The record's subject with the fingerprint that was asked about.
abbrev asked : StoredRecord → Text → Subject
asked r fingerprint = record r.normalized.subject { fingerprint = fingerprint }

abbrev pub duplicate_decision : StoredRecord → Subject → Decision
duplicate_decision r s = record (about DecisionKind.duplicate Action.reject s false) {
  error = some Errors.duplicate;
  record_of = some (snapshot r);
}

abbrev pub pending_decision : StoredRecord → Subject → Decision
pending_decision r s = record (about DecisionKind.pending Action.retry s true) {
  record_of = some (snapshot r);
}

abbrev pub replay_decision : StoredRecord → Subject → Decision
replay_decision r s = record (about DecisionKind.replay Action.replay s false) {
  record_of = some (snapshot r);
  result = when r.has_result r.result;
  task_reference = when r.has_task_reference r.task_reference;
}

-- `commitRecord` answers with the record as it now is.
abbrev pub stored_decision : StoredRecord → Decision
stored_decision r = record (about DecisionKind.stored Action.stored r.normalized.subject false) {
  record_of = some (snapshot r);
  result = when r.has_result r.result;
  task_reference = when r.has_task_reference r.task_reference;
}

unfoldable pub existing_decision : StoredRecord → Text → Decision
existing_decision r fingerprint =
    if not (text_eq r.subject.fingerprint fingerprint)
    then duplicate_decision r (asked r fingerprint)
    else if r.pending
    then pending_decision r (asked r fingerprint)
    else replay_decision r (asked r fingerprint)
