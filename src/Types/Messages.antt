-- ===== src/Types/Messages.antt =====
-- The messages of src/openlinker/runtime/types.py that a worker receives, `RuntimeAssignment`,
-- `RuntimeReady` and `RuntimeCommand`, the hello that it sends, and `RuntimeEvent.validate`.
pub mod Echo
use openlinker_python.Prelude.{
  ℕ, Bool, true, false, not, ◌&&◌, ◌||◌, List, [], ◌∷◌, ◌++◌, map, Text, text, text_eq, nat_eq,
  ◌==◌, ltb, leb, if◌then◌else◌, contains, all_of, length, pos, none, some,
}
use openlinker_python.Text.{is_empty, split_at}
use openlinker_python.Json.{Json, null, int, str, arr, obj, Fields, end, field, array, field_or}
use openlinker_python.Json.Convert.{str_of}
use openlinker_python.Platform.{Platform}
use openlinker_python.Errors.{
  Result, ok, err, require, recast, bad_assignment, bad_offer, bad_ready, bad_core_instance,
  repeated_features, bad_ttl, missing_features, invalid_value, ◌>>◌, ◌>>=◌,
}
use openlinker_python.Types.Checks.{
  require_keys, require_uuid, require_object, optional_object, require_capability,
}
use openlinker_python.Types.Identity.{
  RuntimeAttemptIdentity, attempt_from_dict, item, to_int, nat_of, elements,
}
use openlinker_python.Types.Time.{parse_datetime}
use openlinker_python.Types.Features.{
  required_features, is_lower, is_lower_or_digit, normalize_runtime_optional_features,
}

pub record RuntimeAssignment : Type 0 where
  pub attempt_identity : RuntimeAttemptIdentity
  pub offer_no : ℕ
  pub offer_expires_at : ℕ
  pub attempt_deadline_at : ℕ
  pub run_deadline_at : ℕ
  pub input : Fields
  pub metadata : Fields
  pub node_envelope : Text
  pub agent_invocation_token : Text

abbrev pub assignment_keys : List Text
assignment_keys =
    text "attempt_identity"
    ∷ text "offer_no"
    ∷ text "offer_expires_at"
    ∷ text "attempt_deadline_at"
    ∷ text "run_deadline_at"
    ∷ text "input"
    ∷ text "node_envelope"
    ∷ text "agent_invocation_token"
    ∷ []

pub record RuntimeReady : Type 0 where
  pub core_instance_id : Text
  pub attachment_id : Text
  pub features : List Text
  pub offer_ttl_seconds : ℕ
  pub lease_ttl_seconds : ℕ
  pub database_time : ℕ

abbrev pub ready_keys : List Text
ready_keys =
    text "core_instance_id"
    ∷ text "attachment_id"
    ∷ text "features"
    ∷ text "offer_ttl_seconds"
    ∷ text "lease_ttl_seconds"
    ∷ text "database_time"
    ∷ []

-- `len(set(texts)) == len(texts)`
unfoldable pub all_distinct : List Text → Bool
all_distinct [] = true
all_distinct (t ∷ ts) = not (contains ts t) && all_distinct ts

-- the checks of `RuntimeReady.from_dict` on the decoded fields
unfoldable pub check_ready : RuntimeReady → Result (Unit {0})
check_ready r = do
  require (leb 1 (length r.core_instance_id) && leb (length r.core_instance_id) 200)
      bad_core_instance
  require_uuid (str r.attachment_id)
  require (all_distinct r.features) repeated_features
  require (leb 1 r.offer_ttl_seconds && leb 1 r.lease_ttl_seconds) bad_ttl
  require (all_of (λ f. contains r.features f) required_features) missing_features

module _ ⦃p : Platform⦄ where
  -- the constructor call of `RuntimeAssignment.from_dict`
  unfoldable pub runtime_assignment_fields : Fields → Result RuntimeAssignment
  runtime_assignment_fields fs = do
    raw_identity ← item fs (text "attempt_identity")
    attempt_identity ← attempt_from_dict raw_identity
    raw_offer ← item fs (text "offer_no")
    offer_no ← to_int raw_offer
    raw_expires ← item fs (text "offer_expires_at")
    offer_expires_at ← parse_datetime raw_expires
    raw_attempt ← item fs (text "attempt_deadline_at")
    attempt_deadline_at ← parse_datetime raw_attempt
    raw_run ← item fs (text "run_deadline_at")
    run_deadline_at ← parse_datetime raw_run
    raw_input ← item fs (text "input")
    input ← require_object raw_input
    metadata ← optional_object (field_or fs (text "metadata") null)
    envelope ← item fs (text "node_envelope")
    token ← item fs (text "agent_invocation_token")
    ok (record {
      attempt_identity = attempt_identity;
      offer_no = nat_of offer_no;
      offer_expires_at = offer_expires_at;
      attempt_deadline_at = attempt_deadline_at;
      run_deadline_at = run_deadline_at;
      input = input;
      metadata = metadata;
      node_envelope = str_of envelope;
      agent_invocation_token = str_of token;
    })

  -- `RuntimeAssignment.from_dict`
  unfoldable pub runtime_assignment_from_dict : Json → Result RuntimeAssignment
  runtime_assignment_from_dict v = do
    fs ← require_keys v assignment_keys (text "metadata" ∷ [])
    a ← recast bad_assignment (runtime_assignment_fields fs)
    require (leb 1 a.offer_no) bad_offer
    require_capability a.node_envelope (text "ol_ctx_v2.")
    require_capability a.agent_invocation_token (text "ol_inv_v2.")
    ok a

  -- the constructor call of `RuntimeReady.from_dict`
  unfoldable pub ready_fields : Fields → Result RuntimeReady
  ready_fields fs = do
    core ← item fs (text "core_instance_id")
    attachment ← item fs (text "attachment_id")
    raw_features ← item fs (text "features")
    features ← elements raw_features
    raw_offer ← item fs (text "offer_ttl_seconds")
    offer_ttl ← to_int raw_offer
    raw_lease ← item fs (text "lease_ttl_seconds")
    lease_ttl ← to_int raw_lease
    raw_time ← item fs (text "database_time")
    database_time ← parse_datetime raw_time
    ok (record {
      core_instance_id = str_of core;
      attachment_id = str_of attachment;
      features = map (λ f. str_of f) features;
      offer_ttl_seconds = nat_of offer_ttl;
      lease_ttl_seconds = nat_of lease_ttl;
      database_time = database_time;
    })

  -- `RuntimeReady.from_dict`
  unfoldable pub ready_from_dict : Json → Result RuntimeReady
  unfolding check_ready
  ready_from_dict v = do
    fs ← require_keys v ready_keys []
    r ← recast bad_ready (ready_fields fs)
    check_ready r
    ok r

  -- `RuntimeCommand.from_dict`: the type and the payload
  unfoldable pub command_from_dict : Fields → Result (Text × Fields)
  command_from_dict fs = do
    payload ← require_object (field_or fs (text "payload") null)
    ok (str_of (field_or fs (text "type") (str [])), payload)

-- a part `[a-z][a-z0-9_]*`
abbrev is_event_part : Text → Bool
is_event_part [] = false
is_event_part (c ∷ t) = is_lower c && all_of (λ d. is_lower_or_digit d || d == b'_') t

-- `_EVENT_TYPE`: two parts or more, with dots between them
unfoldable pub is_event_type : Text → Bool
is_event_type t =
    let parts = split_at b'.' t in leb 2 (length parts) && all_of (λ part. is_event_part part) parts

-- `_CORE_EVENT_TYPES`
unfoldable pub core_event_types : List Text
core_event_types =
    text "run.completed" ∷ text "run.failed" ∷ text "run.canceled" ∷ text "run.stream.gap" ∷ []

-- `RuntimeEvent.validate`
unfoldable pub validate_event : Text → Json → Result (Unit {0})
validate_event event_type payload = do
  require (is_event_type event_type && not (contains core_event_types event_type)) invalid_value
  fs ← require_object payload
  ok tt

-- What a worker says of itself.
pub record Hello : Type 0 where
  pub node_id : Text
  pub agent_id : Text
  pub worker_id : Text
  pub runtime_session_id : Text
  pub session_epoch : ℕ
  pub node_version : Text
  pub capacity : ℕ
  pub optional_features : List Json

-- the features of `runtime_hello`
unfoldable pub hello_features : List Json → Result (List Text)
hello_features optional = do
  more ← normalize_runtime_optional_features optional
  ok (required_features ++ more)

-- `RUNTIME_CONTRACT_DIGEST`
abbrev pub contract_digest : Text
contract_digest = text "4be9b2fe09eeedf0e37119075134064be88f93b301c502cdfa21a6cb978c6481"

-- `runtime_hello`
unfoldable pub runtime_hello : Hello → Result Fields
runtime_hello h = do
  features ← hello_features h.optional_features
  ok (
      field (text "node_id") (str h.node_id) (
        field (text "agent_id") (str h.agent_id) (
          field (text "worker_id") (str h.worker_id) (
            field (text "runtime_session_id") (str h.runtime_session_id) (
              field (text "session_epoch") (int (pos h.session_epoch)) (
                field (text "node_version") (str h.node_version) (
                  field (text "capacity") (int (pos h.capacity)) (
                    field (text "features") (arr (array (map str features)))
                      (field (text "contract_digest") (str contract_digest) end)))))))))
