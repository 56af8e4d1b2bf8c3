-- ===== src/Router/Dedupe.antt =====
-- src/router/dedupe.ts: the values of the deduplication store. Operations, outcomes and task
-- references are JavaScript values; cloning a value gives an equal one. Times are milliseconds
-- since 1970. `validate` stands for `validatedRequestProjection` and `parse_utc` for
-- `parseRfc3339Utc` of src/protocol/validation.ts.
pub mod Decisions
pub mod Store
pub mod Commit
pub mod Find
pub mod Retention
pub mod Calls
pub mod Execution
pub mod History
pub mod Guarantees
pub mod Fresh
pub mod Retry
pub mod Keys
pub mod Pruning
mod Tests
use pi_to_pi.Prelude.{
  ℕ, ◌+◌, ◌-◌, ◌*◌, ◌==◌, if◌then◌else◌, Bool, true, false, not, ◌||◌, any, Option, none, some,
  List, [], ◌∷◌, ◌++◌, Text, text_eq, codes, Result, ok, err, ◌>>=◌,
}
use pi_to_pi.Protocol.Json.{Value, undefined, string, object, Fields, get_field}
use pi_to_pi.Protocol.Errors.{ProtocolErrorCode, expired, code_index}

abbrev dedupe_operation_names : List Text
dedupe_operation_names =
    codes "message.request"
    ∷ codes "message.notify"
    ∷ codes "message.reply"
    ∷ codes "task.cancel"
    ∷ []

pub is_dedupe_operation : Option Text → Bool
is_dedupe_operation none = false
is_dedupe_operation (some name) = any (λ candidate. text_eq candidate name) dedupe_operation_names

pub make_dedupe_key : Text → Text → Text
make_dedupe_key sender_runtime_id operation_id = sender_runtime_id ++ (0 ∷ operation_id)

abbrev as_string : Value → Option Text
as_string (string s) = some s
as_string _ = none

abbrev property : Text → Value → Value
property name (object fs) = get_field name fs
property name _ = undefined

pub operation_name : Value → Option Text
operation_name operation = as_string (property (codes "operation") operation)

abbrev is_busy_code : Value → Bool
is_busy_code (string s) = text_eq s (codes "busy")
is_busy_code _ = false

pub is_busy_result : Value → Bool
is_busy_result value =
    is_busy_code (property (codes "code") value)
    || is_busy_code (property (codes "code") (property (codes "error") value))

-- What identifies an operation in records, reservations and decisions.
pub record Subject : Type 0 where
  pub key : Text
  pub sender_runtime_id : Text
  pub operation_id : Text
  pub operation : Text
  pub fingerprint : Text

-- The part of `CanonicalRequestProjection` that the store reads.
pub record Projection : Type 0 where
  pub operation_id : Text
  pub sender_runtime_id : Text
  pub expires_at : Text
  pub fingerprint : Text

pub record NormalizedOperation : Type 0 where
  pub subject : Subject
  pub expires_at : Text
  pub expires_at_ms : ℕ
  pub retained_until : ℕ

pub data Thrown : Type 0 where
  store_is_closed not_deduplicated sender_mismatch bad_expires_at producer_raised : Thrown
  invalid : ProtocolErrorCode → Thrown

abbrev is_expired_code : ProtocolErrorCode → Bool
is_expired_code code = code_index code == code_index expired

abbrev pub Validate : Type 0
Validate = Value → ℕ → Result ProtocolErrorCode Projection

module _ (validate : Validate) (parse_utc : Value → Option ℕ) where
  -- An expired operation is validated once more, as of just before its deadline. Times are counted
  -- from 0, so that a deadline at 0 is validated as of 0.
  revalidate :
      Value → Option ℕ → Result ProtocolErrorCode Projection → Result ProtocolErrorCode Projection
  revalidate operation (some deadline) (err code) =
      if is_expired_code code then validate operation (deadline - 1) else err code
  revalidate operation _ first = first

  -- A `senderRuntimeId` beside the sender must agree with it.
  abbrev sender_agrees : Value → Text → Bool
  sender_agrees (string direct) sender = text_eq direct sender
  sender_agrees _ sender = true

  normalize_projection :
      Text → Value → ℕ → Result ProtocolErrorCode Projection → Result Thrown NormalizedOperation
  normalize_projection name direct grace (err code) = err (invalid code)
  normalize_projection name direct grace (ok p) =
      if not (sender_agrees direct p.sender_runtime_id)
      then err sender_mismatch
      else elim (parse_utc (string p.expires_at)) [
        | none ↦ err bad_expires_at
        | some deadline ↦ ok (record {
          subject = record {
            key = make_dedupe_key p.sender_runtime_id p.operation_id;
            sender_runtime_id = p.sender_runtime_id;
            operation_id = p.operation_id;
            operation = name;
            fingerprint = p.fingerprint;
          };
          expires_at = p.expires_at;
          expires_at_ms = deadline;
          retained_until = deadline + grace;
        })
      ]

  normalize_named : Option Text → Value → ℕ → ℕ → Result Thrown NormalizedOperation
  normalize_named none operation now grace = err not_deduplicated
  normalize_named (some name) operation now grace =
      if not (is_dedupe_operation (some name))
      then err not_deduplicated
      else normalize_projection name (property (codes "senderRuntimeId") operation) grace (
          revalidate operation (parse_utc (property (codes "expiresAt") operation))
            (validate operation now))

  pub normalized_operation : Value → ℕ → ℕ → Result Thrown NormalizedOperation
  unfolding normalize_named normalize_projection revalidate
  normalized_operation operation now grace =
      normalize_named (operation_name operation) operation now grace
