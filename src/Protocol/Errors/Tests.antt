-- ===== src/Protocol/Errors/Tests.antt =====
-- Concrete values through src/protocol/errors.ts.
use pi_to_pi.Prelude.{ℕ, ◌≡◌, refl, ◌↔◌, true, Option, none, some, codes, int, pos, nan, ok, err}
use pi_to_pi.Protocol.Json.{
  Value, opaque, string, boolean, number, null, array, object, nil, cons, end, field,
}
use pi_to_pi.Protocol.Errors.{
  busy, malformed, ProtocolError, ProtocolErrorOptions, retry_after_not_retryable,
  is_retryable_error_code, validate_retry_metadata, bounded_message, trim, trim_start,
  bounded_details, bounded_object, create_protocol_error, sanitize_json_value, is_secret_key,
  has_prefix, key_after_any, api_key_at, secret_at,
}
use pi_to_pi.Prelude.Strings.{text_eq}
use pi_to_pi.Protocol.Errors.Sanitize.{Safe, sanitize-Safe, sanitize_fixed_iff}
use pi_to_pi.Protocol.Errors.Message.{bounded_message_idem}
use pi_to_pi.Protocol.Errors.Create.{
  Acceptable, IsWellFormed, create-returns_iff, create-IsWellFormed,
}

errors : Unit {0}
unfolding is_retryable_error_code validate_retry_metadata bounded_message trim trim_start
    bounded_details bounded_object create_protocol_error sanitize_json_value is_secret_key
    has_prefix key_after_any api_key_at secret_at text_eq
errors = tt

abbrev leaky : Value
leaky = object (
    field (codes "peer") (array (cons (number nan) (cons opaque (cons (boolean true) nil))))
      (field (codes "API-Key") (string (codes "hunter2")) end))

abbrev cleaned : Value
cleaned = object (field (codes "peer") (array (cons null (cons (boolean true) nil))) end)

abbrev a_kilobyte : Value → Option ℕ
a_kilobyte v = some 1024

abbrev hinted : ProtocolErrorOptions
hinted = record {
  retry_after_ms = some (int (pos 250));
  details = some leaky;
  retryable = some true;
}

abbrev busy_error : ProtocolError
busy_error = record {
  code = busy;
  message = codes "queue full";
  retryable = true;
  retry_after_ms = some (int (pos 250));
  details = some cleaned;
}

sanitize_test : sanitize_json_value 0 leaky ≡ some cleaned
unfolding errors
sanitize_test = refl

create_tests :
    (create_protocol_error a_kilobyte busy (codes " queue full ") hinted ≡ ok busy_error)
    × (create_protocol_error a_kilobyte malformed
          (codes "x")
          (record { retry_after_ms = some (int (pos 250)); details = none; retryable = none })
        ≡ err retry_after_not_retryable)
unfolding errors
create_tests = (refl, refl)

sanitize-Safe_example : Safe 0 cleaned
sanitize-Safe_example = sanitize-Safe 0 leaky cleaned sanitize_test

sanitize_fixed_iff_example : (sanitize_json_value 0 cleaned ≡ some cleaned) ↔ Safe 0 cleaned
sanitize_fixed_iff_example = sanitize_fixed_iff 0 cleaned

bounded_message_idem_example :
    bounded_message (bounded_message (codes " queue full "))
    ≡ bounded_message (codes " queue full ")
bounded_message_idem_example = bounded_message_idem (codes " queue full ")

create-returns_iff_example :
    ((e : ProtocolError) × (create_protocol_error a_kilobyte busy (codes " queue full ") hinted
        ≡ ok e))
    ↔ Acceptable a_kilobyte busy hinted
create-returns_iff_example = create-returns_iff a_kilobyte busy (codes " queue full ") hinted

create-IsWellFormed_example : IsWellFormed a_kilobyte busy_error × (busy_error.code ≡ busy)
create-IsWellFormed_example =
    create-IsWellFormed a_kilobyte busy (codes " queue full ") hinted busy_error create_tests.0
