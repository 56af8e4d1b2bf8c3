-- ===== src/Protocol/Errors.antt =====
-- src/protocol/errors.ts: error codes, safe error messages and details, `createProtocolError`.
-- Strings are lists of UTF-16 code units, as `length` and `slice` see them.
pub mod Sanitize
pub mod Message
pub mod Create
mod Tests
use pi_to_pi.Prelude.{
  ℕ, zero, suc, ◌+◌, ◌-◌, ◌*◌, ltb, leb, ◌==◌, if◌then◌else◌, Bool, true, false, not, ◌&&◌, ◌||◌,
  Option, none, some, List, [], ◌∷◌, ◌++◌, map, reverse, length, take, any, Text, text_eq, codes,
  Num, int, between, is_finite_positive, Result, ok, err, ◌>>=◌,
}
use pi_to_pi.Protocol.Json.{
  Value, undefined, null, opaque, string, boolean, number, array, object, Items, nil, cons, Fields,
  end, field,
}

pub data ProtocolErrorCode : Type 0 where
  malformed incompatible expired cross_room ambiguous busy unauthorized oversized duplicate :
      ProtocolErrorCode
  cancelled unreachable not_found not_cancelable invalid_content invalid_reply internal :
      ProtocolErrorCode

-- The place in `PROTOCOL_ERROR_CODES`, by which codes are compared.
abbrev pub code_index : ProtocolErrorCode → ℕ
code_index malformed = 0
code_index incompatible = 1
code_index expired = 2
code_index cross_room = 3
code_index ambiguous = 4
code_index busy = 5
code_index unauthorized = 6
code_index oversized = 7
code_index duplicate = 8
code_index cancelled = 9
code_index unreachable = 10
code_index not_found = 11
code_index not_cancelable = 12
code_index invalid_content = 13
code_index invalid_reply = 14
code_index internal = 15

abbrev retryable_error_codes : List ProtocolErrorCode
retryable_error_codes = busy ∷ unreachable ∷ []

unfoldable pub is_retryable_error_code : ProtocolErrorCode → Bool
is_retryable_error_code code =
    any (λ candidate. code_index candidate == code_index code) retryable_error_codes

abbrev pub max_message_length : ℕ
max_message_length = 512

abbrev pub max_details_bytes : ℕ
max_details_bytes = 4 * 1024

-- The white space and line terminators that `String.prototype.trim` removes.
abbrev pub is_white_space : ℕ → Bool
is_white_space c =
    (leb 9 c && leb c 13)
    || c == 32
    || c == 0xa0
    || c == 0x1680
    || (leb 0x2000 c && leb c 0x200a)
    || c == 0x2028
    || c == 0x2029
    || c == 0x202f
    || c == 0x205f
    || c == 0x3000
    || c == 0xfeff

trim_start : Text → Text
trim_start [] = []
trim_start (c ∷ s) = if is_white_space c then trim_start s else c ∷ s

pub trim : Text → Text
unfolding trim_start
trim s = reverse (trim_start (reverse (trim_start s)))

-- Characters beyond the BMP are never control characters, so the loop over characters
-- is one over their units.
abbrev pub is_control : ℕ → Bool
is_control c = leb c 0x1f || c == 0x7f

abbrev blank_control : ℕ → ℕ
blank_control c = if is_control c then 32 else c

abbrev pub ellipsis : ℕ
ellipsis = 0x2026

pub bounded_message : Text → Text
unfolding trim
bounded_message value =
    let normalized = trim (map blank_control value) in
    let safe = if length normalized == 0 then codes "protocol error" else normalized in
    if leb (length safe) max_message_length
    then safe
    else take (max_message_length - 1) safe ++ ellipsis ∷ []

-- Simple case folding, as far as it leads to the letters of the pattern.
abbrev fold_case : ℕ → ℕ
fold_case c =
    if leb b'A' c && leb c b'Z'
    then c + 32
    else if c == 0x17f
    then b's'
    else if c == 0x212a
    then b'k'
    else c

has_prefix : Text → Text → Bool
has_prefix [] s = true
has_prefix (p ∷ ps) [] = false
has_prefix (p ∷ ps) (c ∷ s) = p == fold_case c && has_prefix ps s

abbrev is_line_terminator : ℕ → Bool
is_line_terminator c = c == 10 || c == 13 || c == 0x2028 || c == 0x2029

abbrev is_high_surrogate : ℕ → Bool
is_high_surrogate c = leb 0xd800 c && leb c 0xdbff

abbrev is_low_surrogate : ℕ → Bool
is_low_surrogate c = leb 0xdc00 c && leb c 0xdfff

-- `.?key`, where `.` is one code point.
key_after_any : Text → Bool
key_after_any (c ∷ d ∷ s) =
    has_prefix (codes "key") (c ∷ d ∷ s)
    || (not (is_line_terminator c) && has_prefix (codes "key") (d ∷ s))
    || (is_high_surrogate c && is_low_surrogate d && has_prefix (codes "key") s)
key_after_any _ = false

api_key_at : Text → Bool
api_key_at (a ∷ p ∷ i ∷ s) = has_prefix (codes "api") (a ∷ p ∷ i ∷ []) && key_after_any s
api_key_at _ = false

secret_at : Text → Bool
secret_at s =
    has_prefix (codes "credential") s
    || has_prefix (codes "password") s
    || has_prefix (codes "secret") s
    || has_prefix (codes "token") s
    || api_key_at s
    || has_prefix (codes "authorization") s

-- `SECRET_DETAIL_KEY.test(key)`
pub is_secret_key : Text → Bool
unfolding has_prefix key_after_any api_key_at secret_at
is_secret_key [] = false
is_secret_key (c ∷ s) = secret_at (c ∷ s) || is_secret_key s

abbrev pub max_depth : ℕ
max_depth = 8

abbrev pub max_entries : ℕ
max_entries = 64

-- Assigning to `__proto__` adds no own entry to the result.
abbrev pub is_proto : Text → Bool
is_proto key = text_eq key (codes "__proto__")

abbrev push_item : Option Value → Items → Items
push_item none rest = rest
push_item (some v) rest = cons v rest

abbrev set_field : Text → Option Value → Fields → Fields
set_field key none rest = rest
set_field key (some v) rest = if is_proto key then rest else field key v rest

abbrev unless_deep : ℕ → Option Value → Option Value
unless_deep depth v = if ltb max_depth depth then none else v

abbrev finite_or_null : Num → Value
finite_or_null (int n) = number (int n)
finite_or_null (between n) = number (between n)
finite_or_null _ = null

-- `none` is the result `undefined`. The second number counts what is left of `slice(0, 64)`.
mutual
  pub sanitize_json_value : ℕ → Value → Option Value
  sanitize_json_value depth undefined = none
  sanitize_json_value depth null = unless_deep depth (some null)
  sanitize_json_value depth (string s) = unless_deep depth (some (string s))
  sanitize_json_value depth (boolean b) = unless_deep depth (some (boolean b))
  sanitize_json_value depth (number n) = unless_deep depth (some (finite_or_null n))
  sanitize_json_value depth (array vs) =
      unless_deep depth (some (array (sanitize_items depth max_entries vs)))
  sanitize_json_value depth (object fs) =
      unless_deep depth (some (object (sanitize_fields depth max_entries fs)))
  sanitize_json_value depth opaque = none

  pub sanitize_items : ℕ → ℕ → Items → Items
  sanitize_items depth left nil = nil
  sanitize_items depth zero (cons v vs) = nil
  sanitize_items depth (suc left) (cons v vs) =
      push_item (sanitize_json_value (suc depth) v) (sanitize_items depth left vs)

  pub sanitize_fields : ℕ → ℕ → Fields → Fields
  sanitize_fields depth left end = end
  sanitize_fields depth zero (field k v fs) = end
  sanitize_fields depth (suc left) (field k v fs) =
      if is_secret_key k
      then sanitize_fields depth left fs
      else set_field k (sanitize_json_value (suc depth) v) (sanitize_fields depth left fs)

pub record ProtocolError : Type 0 where
  pub code : ProtocolErrorCode
  pub message : Text
  pub retryable : Bool
  pub retry_after_ms : Option Num
  pub details : Option Value

pub record ProtocolErrorOptions : Type 0 where
  pub retry_after_ms : Option Num
  pub details : Option Value
  pub retryable : Option Bool

-- The three `RangeError`s.
pub data CreateError : Type 0 where
  retryable_disagrees retry_after_not_positive retry_after_not_retryable : CreateError

abbrev pub truncated_marker : Value
truncated_marker = object (field (codes "truncated") (boolean true) end)

abbrev agrees : Option Bool → Bool → Bool
agrees none retryable = true
agrees (some true) retryable = retryable
agrees (some false) retryable = not retryable

validate_retry_metadata : Bool → Option Num → Result CreateError (Unit {0})
validate_retry_metadata retryable none = ok tt
validate_retry_metadata retryable (some n) =
    if not (is_finite_positive n)
    then err retry_after_not_positive
    else if not retryable
    then err retry_after_not_retryable
    else ok tt

-- What `createProtocolError(code, message)` returns.
unfoldable pub plain_error : ProtocolErrorCode → Text → ProtocolError
plain_error code message = record {
  code = code;
  message = bounded_message message;
  retryable = is_retryable_error_code code;
  retry_after_ms = none;
  details = none;
}

-- `Buffer.byteLength(JSON.stringify(safe), 'utf8')`, with no value where `JSON.stringify` throws, is
-- the JavaScript runtime's.
module _ (encoded_bytes : Value → Option ℕ) where
  abbrev fits : Option ℕ → Bool
  fits none = false
  fits (some n) = leb n max_details_bytes

  bounded_object : Option Value → Value
  bounded_object (some (object fs)) =
      if fits (encoded_bytes (object fs)) then object fs else truncated_marker
  bounded_object _ = truncated_marker

  pub bounded_details : Option Value → Option Value
  unfolding bounded_object sanitize_json_value
  bounded_details none = none
  bounded_details (some details) = some (bounded_object (sanitize_json_value 0 details))

  pub create_protocol_error :
      ProtocolErrorCode → Text → ProtocolErrorOptions → Result CreateError ProtocolError
  create_protocol_error code message options =
      let retryable = is_retryable_error_code code in
      if not (agrees options.retryable retryable) then err retryable_disagrees else (do
        _ ← validate_retry_metadata retryable options.retry_after_ms
        ok (record {
          code = code;
          message = bounded_message message;
          retryable = retryable;
          retry_after_ms = options.retry_after_ms;
          details = bounded_details options.details;
        }))
