-- ===== src/Protocol/Errors/Create.antt =====
-- `createProtocolError` of src/protocol/errors.ts: what its payloads satisfy, and when it throws.
use pi_to_pi.Prelude.{
  ℕ, ◌≤◌, ◌≡◌, refl, subst, ◌⊎◌, inl, inr, ◌↔◌, Bool, true, false, not, Bool-cases, Option, none,
  some, leb→le, leb, if◌then◌else◌, ◌>>=◌, Option-cases, Text, Num, is_finite_positive, Result, ok,
  err, arith,
}
use pi_to_pi.Protocol.Json.{Value, object}
use pi_to_pi.Protocol.Errors.{
  ProtocolErrorCode, busy, unreachable, is_retryable_error_code, ProtocolError,
  ProtocolErrorOptions, CreateError, retryable_disagrees, validate_retry_metadata, agrees,
  bounded_message, bounded_details, bounded_object, create_protocol_error, truncated_marker,
  max_details_bytes, sanitize_json_value, plain_error,
}
use pi_to_pi.Protocol.Errors.Sanitize.{Safe, sanitize-Safe}
use pi_to_pi.Protocol.Errors.Message.{IsBounded, bounded_message-IsBounded}

-- A retry hint is only given for retryable codes, and is a finite positive number.
abbrev RetryOk : Bool → Option Num → Type 0
RetryOk retryable none = Unit
RetryOk retryable (some n) = (retryable ≡ true) × (is_finite_positive n ≡ true)

validate-RetryOk :
    (retryable : Bool) (n : Option Num)
    → (validate_retry_metadata retryable n ≡ ok tt) ↔ RetryOk retryable n
unfolding validate_retry_metadata
validate-RetryOk retryable none = (λ _. tt, λ _. refl)
validate-RetryOk retryable (some n) = (λ h. ground arith, λ h. rw (h.0, h.1))

guarded :
    (a : Bool) (r : Result CreateError (Unit {0})) (e' : ProtocolError) {e : ProtocolError}
    → (if not a then err retryable_disagrees else (r >>= λ _. ok e')) ≡ ok e
    → (a ≡ true) × (r ≡ ok tt)
guarded true (ok u) e' h = (refl, refl)
guarded true (err x) e' h = cc
guarded false r e' h = cc

module _ (encoded_bytes : Value → Option ℕ) where
  -- Details are the fixed marker, or a safe object that encodes to at most 4096 bytes.
  abbrev pub DetailsOk : Option Value → Type 0
  DetailsOk none = Unit
  DetailsOk (some v) =
      (v ≡ truncated_marker)
      ⊎ (Safe 0 v × ((n : ℕ) × (encoded_bytes v ≡ some n) × (n ≤ max_details_bytes)))

  object-DetailsOk :
      (v : Value) → Safe 0 v → DetailsOk (some (bounded_object encoded_bytes (some v)))
  unfolding bounded_object
  object-DetailsOk (object fs) safe = elim (Option-cases (encoded_bytes (object fs))) [
    | inl none_given ↦ rw none_given (inl refl)
    | inr (n, given) ↦ elim (Bool-cases (leb n max_details_bytes)) [
      | inl small ↦ rw (given, small) (inr (safe, (n, given, leb→le _ _ small)))
      | inr large ↦ rw (given, large) (inl refl)
    ]
  ]
  object-DetailsOk _ safe = inl refl

  details-DetailsOk : (o : Option Value) → DetailsOk (bounded_details encoded_bytes o)
  unfolding bounded_details
  details-DetailsOk none = tt
  details-DetailsOk (some v) = elim (Option-cases (sanitize_json_value 0 v)) [
    | inl dropped ↦ rw (dropped, bounded_object) (inl refl)
    | inr (w, kept) ↦ rw kept (object-DetailsOk w (sanitize-Safe 0 v w kept))
  ]

  -- What every error payload satisfies.
  pub record IsWellFormed (e : ProtocolError) : Type 0 where
    pub retryable_code : (e.retryable ≡ true) ↔ ((e.code ≡ busy) ⊎ (e.code ≡ unreachable))
    pub message_ok : IsBounded e.message
    pub retry_ok : RetryOk e.retryable e.retry_after_ms
    pub details_ok : DetailsOk e.details

  retryable_iff :
      (c : ProtocolErrorCode)
      → (is_retryable_error_code c ≡ true) ↔ ((c ≡ busy) ⊎ (c ≡ unreachable))
  unfolding is_retryable_error_code
  retryable_iff c = ground arith

  payload : ProtocolErrorCode → Text → ProtocolErrorOptions → ProtocolError
  payload code message options = record {
    code = code;
    message = bounded_message message;
    retryable = is_retryable_error_code code;
    retry_after_ms = options.retry_after_ms;
    details = bounded_details encoded_bytes options.details;
  }

  -- The two conditions on the options.
  abbrev pub Acceptable : ProtocolErrorCode → ProtocolErrorOptions → Type 0
  Acceptable code options =
      (agrees options.retryable (is_retryable_error_code code) ≡ true)
      × RetryOk (is_retryable_error_code code) options.retry_after_ms

  payload-IsWellFormed :
      (code : ProtocolErrorCode) (message : Text) (options : ProtocolErrorOptions)
      → RetryOk (is_retryable_error_code code) options.retry_after_ms
      → IsWellFormed (payload code message options)
  unfolding payload
  payload-IsWellFormed code message options h = record {
    retryable_code = retryable_iff code;
    message_ok = bounded_message-IsBounded message;
    retry_ok = h;
    details_ok = details-DetailsOk options.details;
  }

  validate-tt : (b : Bool) (n : Option Num) → RetryOk b n → validate_retry_metadata b n ≡ ok tt
  validate-tt b n h = (validate-RetryOk b n).1 h

  create-payload :
      (code : ProtocolErrorCode) (message : Text) (options : ProtocolErrorOptions)
      → Acceptable code options
      → create_protocol_error encoded_bytes code message options ≡ ok (payload code message options)
  unfolding create_protocol_error payload
  create-payload code message options (same, retry) =
      rw (same, validate-tt (is_retryable_error_code code) options.retry_after_ms retry)

  ok-Acceptable :
      (code : ProtocolErrorCode) (message : Text) (options : ProtocolErrorOptions)
      (e : ProtocolError)
      → create_protocol_error encoded_bytes code message options ≡ ok e
      → Acceptable code options
  unfolding create_protocol_error
  ok-Acceptable code message options e h =
      let (same, valid) = guarded _ _ _ h in
      (same, (validate-RetryOk (is_retryable_error_code code) options.retry_after_ms).0 valid)

  -- `createProtocolError` returns an error exactly when the caller's retryability, if given, is
  -- the code's, and a retry hint, if given, is finite, positive and for a retryable code.
  pub create-returns_iff :
      (code : ProtocolErrorCode) (message : Text) (options : ProtocolErrorOptions)
      → ((e : ProtocolError) × (create_protocol_error encoded_bytes code message options ≡ ok e))
        ↔ Acceptable code options
  create-returns_iff code message options = (
    λ (e, h). ok-Acceptable code message options e h,
    λ h. (payload code message options, create-payload code message options h),
  )

  -- Every error that it returns has the code that was asked for, is marked retryable exactly
  -- for `busy` and `unreachable`, has a bounded message, a retry hint only where that is
  -- allowed, and details that are safe and encode to at most 4096 bytes, or the marker.
  pub create-IsWellFormed :
      (code : ProtocolErrorCode) (message : Text) (options : ProtocolErrorOptions)
      (e : ProtocolError)
      → create_protocol_error encoded_bytes code message options ≡ ok e
      → IsWellFormed e × (e.code ≡ code)
  create-IsWellFormed code message options e h =
      let fine = ok-Acceptable code message options e h in
      let made = create-payload code message options fine in
      let same : payload code message options ≡ e = cc in
      (
        subst IsWellFormed same (payload-IsWellFormed code message options fine.1),
        subst (λ e. e.code ≡ code) same (unfold payload in refl),
      )

-- Without options, no error is thrown.
create-plain_error :
    (encoded_bytes : Value → Option ℕ) (code : ProtocolErrorCode) (message : Text)
    → create_protocol_error encoded_bytes code message
        (record { retry_after_ms = none; details = none; retryable = none })
      ≡ ok (plain_error code message)
unfolding create_protocol_error validate_retry_metadata bounded_details plain_error
create-plain_error encoded_bytes code message = refl
