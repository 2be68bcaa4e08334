-- ===== src/Worker/Answers.antt =====
-- The checks of src/openlinker/runtime/worker.py on what the platform answers, beside that of an Event
-- (Worker/Flush): results, confirmations, rejections, leases and cancellations.
use openlinker_python.Prelude.{
  ℕ, Bool, true, false, not, ◌&&◌, List, [], ◌∷◌, Text, text, text_eq, Option, none, some, contains,
  leb, length,
}
use openlinker_python.Json.{Json, null, str, arr, obj, Fields, get_field, json_beq, field_or}
use openlinker_python.Platform.{Platform}
use openlinker_python.Errors.{
  Result, ok, err, bad_value, identity_mismatch, invalid_value, not_an_object, bad_uuid, require,
  recast, ◌>>◌, ◌>>=◌,
}
use openlinker_python.Types.Time.{parse_datetime}
use openlinker_python.Types.Uuid.{is_uuid}
use openlinker_python.Types.Identity.{RuntimeAttemptIdentity, attempt_to_dict, item}
use openlinker_python.Worker.Flush.{require_response_keys, is_positive, is_bool, is_value}

-- `if value not in {...}: raise`. A list or an object has no hash, so that the test is a TypeError.
unfoldable pub require_one_of : Json → List Text → Result (Unit {0})
require_one_of (str t) texts = require (contains texts t) bad_value
require_one_of (arr vs) texts = err invalid_value
require_one_of (obj fs) texts = err invalid_value
require_one_of _ texts = err bad_value

-- `_validate_run_status`
unfoldable pub validate_run_status : Json → Result (Unit {0})
unfolding require_one_of
validate_run_status v =
    require_one_of v
      (text "running" ∷ text "success" ∷ text "failed" ∷ text "timeout" ∷ text "canceled" ∷ [])

-- `_validate_dispatch_state`
unfoldable pub validate_dispatch_state : Json → Result (Unit {0})
unfolding require_one_of
validate_dispatch_state v = require_one_of v (
    text "pending"
    ∷ text "offered"
    ∷ text "executing"
    ∷ text "retry_wait"
    ∷ text "terminal"
    ∷ text "dead_letter"
    ∷ [])

-- `_protocol_object`
unfoldable pub protocol_object : Json → Result Fields
protocol_object (obj fs) = ok fs
protocol_object _ = err not_an_object

-- `_canonical_protocol_uuid`
abbrev pub canonical_protocol_uuid : Text → Result (Unit {0})
canonical_protocol_uuid t = require (is_uuid t) bad_uuid

-- `isinstance(reason, str) and 1 <= len(reason) <= 120`
unfoldable pub is_reason_code : Json → Bool
is_reason_code (str t) = leb 1 (length t) && leb (length t) 120
is_reason_code _ = false

-- `value == identity.to_dict()`
abbrev pub is_identity : Json → RuntimeAttemptIdentity → Bool
is_identity v i = json_beq v (obj (attempt_to_dict i))

abbrev classifications : List Text
classifications =
    text "success"
    ∷ text "retryable_failure"
    ∷ text "non_retryable_failure"
    ∷ text "timeout"
    ∷ text "canceled"
    ∷ text "dead_letter"
    ∷ []

module _ ⦃p : Platform⦄ where
  -- a time, where one is given
  unfoldable pub optional_time : Json → Result (Option ℕ)
  optional_time null = ok none
  optional_time v = do t ← recast bad_value (parse_datetime v); ok (some t)

  -- `_validate_result_ack`
  unfoldable pub validate_result_ack : Json → Text → Result (Unit {0})
  validate_result_ack value result_id = do
    fs ←
        require_response_keys value
          (text "result_id"
            ∷ text "classification"
            ∷ text "run_status"
            ∷ text "dispatch_state"
            ∷ text "replayed"
            ∷ [])
          (text "next_attempt_at" ∷ [])
    require (is_value (get_field fs (text "result_id")) (str result_id)) identity_mismatch
    classification ← item fs (text "classification")
    require_one_of classification classifications
    run_status ← item fs (text "run_status")
    validate_run_status run_status
    dispatch_state ← item fs (text "dispatch_state")
    validate_dispatch_state dispatch_state
    require (is_bool (get_field fs (text "replayed"))) bad_value
    next ← optional_time (field_or fs (text "next_attempt_at") null)
    ok tt

  -- `_validate_confirmation`, which hands on the time at which the lease ends
  unfoldable pub validate_confirmation : RuntimeAttemptIdentity → Json → ℕ → Result ℕ
  validate_confirmation i confirmation now = do
    fs ←
        require_response_keys confirmation
          (text "attempt_identity" ∷ text "attempt_no" ∷ text "lease_expires_at" ∷ []) []
    identity ← item fs (text "attempt_identity")
    require (is_identity identity i) identity_mismatch
    require (is_positive (get_field fs (text "attempt_no"))) bad_value
    lease ← item fs (text "lease_expires_at")
    lease_expires_at ← recast bad_value (parse_datetime lease)
    require (not (leb lease_expires_at now)) bad_value
    ok lease_expires_at

  -- the checks of `_reject_assignment` on the response
  unfoldable pub validate_rejection : RuntimeAttemptIdentity → Json → Result (Unit {0})
  validate_rejection i response = do
    fs ←
        require_response_keys response
          (text "attempt_identity" ∷ text "outcome" ∷ text "dispatch_state" ∷ []) []
    identity ← item fs (text "attempt_identity")
    require (is_identity identity i) identity_mismatch
    outcome ← item fs (text "outcome")
    require_one_of outcome (text "offer_rejected" ∷ text "lease_revoked" ∷ [])
    dispatch_state ← item fs (text "dispatch_state")
    validate_dispatch_state dispatch_state

  -- the checks of `_renew_lease_loop` on the answer: the new end of the lease, and a command
  unfoldable pub validate_renewal : RuntimeAttemptIdentity → Json → ℕ → Result (ℕ × Option Json)
  validate_renewal i renewed now = do
    fs ←
        require_response_keys renewed (text "attempt_identity" ∷ text "lease_expires_at" ∷ [])
          (text "pending_command" ∷ [])
    identity ← item fs (text "attempt_identity")
    require (is_identity identity i) identity_mismatch
    lease ← item fs (text "lease_expires_at")
    renewed_until ← parse_datetime lease
    require (not (leb renewed_until now)) bad_value
    let command = field_or fs (text "pending_command") null
    ok (renewed_until, elim (json_beq command null) [ true ↦ none | false ↦ some command ])
