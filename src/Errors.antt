-- ===== src/Errors.antt =====
-- The exceptions of src/openlinker/runtime (types.py), one constructor for each message that a
-- modelled function raises, and computations that may raise.
use openlinker_python.Prelude.{
  ℕ, List, Text, ◌≡◌, refl, Bool, true, false, ◌⊎◌, inl, inr, Option, none, some,
}

-- RuntimeStoreError and its subclasses RuntimeStoreCorrupt and RuntimeStoreCapacity,
-- RuntimeProtocolError, Python's own ValueError, TypeError and KeyError, and OSError.
pub data ErrorClass : Type 0 where
  store_error store_corrupt store_capacity protocol_error value_error os_error : ErrorClass
  remote_error call_error : ErrorClass

pub data Error : Type 0 where
  -- RuntimeStoreError
  store_closed store_poisoned assignment_not_found events_need_started result_needs_started : Error
  delete_non_terminal delete_with_spool clear_non_terminal discard_non_terminal : Error
  handler_needs_confirmed unsafe_reconnect unsafe_resume resume_not_executable : Error
  -- RuntimeStoreCorrupt
  assignment_conflict attempt_has_assignment invalid_transition invalid_replay_ranges : Error
  event_unavailable event_ack_mismatch result_conflict result_ack_mismatch : Error
  bad_identifier bad_session_epoch identity_digest_mismatch : Error
  bad_durable_identity bad_durable_assignment bad_durable_state bad_durable_sequence : Error
  bad_durable_event bad_durable_result bad_durable_json bad_runtime_identity : Error
  runtime_identity_missing runtime_key_missing bad_runtime_key filename_conflict : Error
  duplicate_attempt record_identity_mismatch duplicate_event_sequence record_header : Error
  record_unreadable : Error
  event_gap journal_disagrees sequence_jump result_journal_disagrees finished_without_result : Error
  -- RuntimeStoreCapacity
  byte_limit record_limit space_reserve space_unknown : Error
  -- RuntimeProtocolError
  bad_uuid bad_attempt_identity bad_capability unexpected_fields bad_value : Error
  identity_mismatch missing_decision result_not_durable : Error
  not_an_object bad_assignment bad_offer bad_ready bad_core_instance repeated_features : Error
  bad_ttl missing_features bad_run_summary inconsistent_state run_id_mismatch bad_drain : Error
  -- ValueError, TypeError or KeyError
  invalid_value not_an_integer missing_key bad_timestamp : Error
  -- OSError
  io_failure : Error
  -- RuntimeRemoteError, with its code and the missing ranges of Events
  remote : Text → List (ℕ × ℕ) → Error
  -- any other exception of a call of the platform
  call_failed : Error
  -- asyncio.CancelledError
  task_cancelled : Error

unfoldable pub error_class : Error → ErrorClass
error_class store_closed = ErrorClass.store_error
error_class store_poisoned = ErrorClass.store_error
error_class assignment_not_found = ErrorClass.store_error
error_class events_need_started = ErrorClass.store_error
error_class result_needs_started = ErrorClass.store_error
error_class delete_non_terminal = ErrorClass.store_error
error_class delete_with_spool = ErrorClass.store_error
error_class clear_non_terminal = ErrorClass.store_error
error_class discard_non_terminal = ErrorClass.store_error
error_class handler_needs_confirmed = ErrorClass.store_error
error_class unsafe_reconnect = ErrorClass.store_error
error_class unsafe_resume = ErrorClass.store_error
error_class resume_not_executable = ErrorClass.store_error
error_class byte_limit = store_capacity
error_class record_limit = store_capacity
error_class space_reserve = store_capacity
error_class space_unknown = store_capacity
error_class bad_uuid = protocol_error
error_class bad_attempt_identity = protocol_error
error_class bad_capability = protocol_error
error_class unexpected_fields = protocol_error
error_class bad_value = protocol_error
error_class identity_mismatch = protocol_error
error_class missing_decision = protocol_error
error_class result_not_durable = protocol_error
error_class not_an_object = protocol_error
error_class bad_assignment = protocol_error
error_class bad_offer = protocol_error
error_class bad_ready = protocol_error
error_class bad_core_instance = protocol_error
error_class repeated_features = protocol_error
error_class bad_ttl = protocol_error
error_class missing_features = protocol_error
error_class bad_run_summary = protocol_error
error_class inconsistent_state = protocol_error
error_class run_id_mismatch = protocol_error
error_class bad_drain = protocol_error
error_class missing_key = value_error
error_class bad_timestamp = value_error
error_class invalid_value = value_error
error_class not_an_integer = value_error
error_class io_failure = os_error
error_class (remote code missing) = remote_error
error_class call_failed = call_error
error_class task_cancelled = call_error
error_class _ = store_corrupt

pub data Result {ℓ} (A : Type ℓ) : Type ℓ where
  ok : A → Result A
  err : Error → Result A

pub Result-cases {ℓ} :
    {A : Type ℓ} (r : Result A) → ((a : A) × (r ≡ ok a)) ⊎ ((e : Error) × (r ≡ err e))
Result-cases (ok a) = inl (a, refl)
Result-cases (err e) = inr (e, refl)

-- a check, and what follows it where it passes
infixl 5 ◌>>◌
abbrev pub ◌>>◌ {ℓ} : {B : Type ℓ} → Result (Unit {0}) → Result B → Result B
ok passed >> rest = rest
err raised >> rest = err raised

-- the rest of a block, with what the step before it returned
infixl 5 ◌>>=◌
abbrev pub ◌>>=◌ {ℓ κ} : {A : Type ℓ} {B : Type κ} → Result A → (A → Result B) → Result B
err raised >>= rest = err raised
ok value >>= rest = rest value

-- `if not b: raise e`
abbrev pub require : Bool → Error → Result (Unit {0})
require true e = ok tt
require false e = err e

abbrev pub is_value_error : ErrorClass → Bool
is_value_error value_error = true
is_value_error _ = false

-- `except (KeyError, TypeError, ValueError) as exc: raise e from exc`
unfoldable pub recast {ℓ} : {A : Type ℓ} → Error → Result A → Result A
recast e (ok a) = ok a
recast e (err d) = elim (is_value_error (error_class d)) [ true ↦ err e | false ↦ err d ]

-- The value of an Option, or an exception.
abbrev pub some_or {ℓ} : {A : Type ℓ} → Option A → Error → Result A
some_or none e = err e
some_or (some a) e = ok a
