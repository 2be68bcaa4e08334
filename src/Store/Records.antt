-- ===== src/Store/Records.antt =====
-- src/openlinker/runtime/store.py: the identities and the records that a store keeps. A time is an
-- aware `datetime`, as a number of microseconds.
use openlinker_python.Prelude.{
  ℕ, Bool, ◌&&◌, Text, text_eq, nat_eq, ◌==◌, leb, List, [], ◌∷◌, text, ℤ,
}
use openlinker_python.Json.{Fields, json_beq, obj}
use openlinker_python.Platform.{Platform}
use openlinker_python.Errors.{
  Result, ok, bad_identifier, bad_session_epoch, identity_digest_mismatch, ◌>>◌, require,
}
use openlinker_python.Types.Uuid.{is_uuid, deterministic_uuid}
use openlinker_python.Types.Identity.{RuntimeAttemptIdentity, attempt_beq, validate}
use openlinker_python.Store.State.{State}

pub record RuntimeIdentity : Type 0 where
  pub worker_id : Text
  pub runtime_session_id : Text
  pub session_epoch : ℕ

pub record LocalAttemptIdentity : Type 0 where
  pub attempt : RuntimeAttemptIdentity
  pub session_epoch : ℕ
  pub assignment_message_id : Text
  pub offer_id : Text

-- the generated `__eq__`
unfoldable pub identity_beq : LocalAttemptIdentity → LocalAttemptIdentity → Bool
identity_beq a b =
    attempt_beq a.attempt b.attempt
    && a.session_epoch == b.session_epoch
    && (a.assignment_message_id == b.assignment_message_id && a.offer_id == b.offer_id)

module _ ⦃p : Platform⦄ where
  -- `LocalAttemptIdentity.from_attempt`
  unfoldable pub from_attempt : RuntimeAttemptIdentity → ℕ → LocalAttemptIdentity
  from_attempt a epoch = record {
    attempt = a;
    session_epoch = epoch;
    assignment_message_id = deterministic_uuid (text "assignment" ∷ a.attempt_id ∷ a.lease_id ∷ []);
    offer_id = deterministic_uuid (text "offer" ∷ a.attempt_id ∷ a.lease_id ∷ []);
  }

  -- the checks of `LocalAttemptIdentity.from_dict` on the decoded fields
  unfoldable pub check_identity : LocalAttemptIdentity → Result (Unit {0})
  check_identity i = do
    validate i.attempt
    require (leb 1 i.session_epoch) bad_session_epoch
    require (is_uuid i.assignment_message_id) bad_identifier
    require (is_uuid i.offer_id) bad_identifier
    require (identity_beq (from_attempt i.attempt i.session_epoch) i) identity_digest_mismatch

pub record AssignmentRecord : Type 0 where
  pub identity : LocalAttemptIdentity
  pub input : Fields
  pub metadata : Fields
  pub node_envelope : Text
  pub agent_invocation_token : Text
  pub offer_expires_at : ℕ
  pub attempt_deadline_at : ℕ
  pub run_deadline_at : ℕ
  pub state : State
  pub last_client_event_seq : ℕ
  pub acked_client_event_seq : ℕ
  pub acked_out_of_order_event_seqs : List ℕ
  pub result_id : Text
  pub final_client_event_seq : ℤ
  pub updated_at : ℕ

abbrev pub attempt_id_of : AssignmentRecord → Text
attempt_id_of r = r.identity.attempt.attempt_id

abbrev pub message_id_of : AssignmentRecord → Text
message_id_of r = r.identity.assignment_message_id

pub record EventRecord : Type 0 where
  pub identity : LocalAttemptIdentity
  pub client_event_id : Text
  pub client_event_seq : ℕ
  pub event_type : Text
  pub payload : Fields
  pub created_at : ℕ

pub record ResultRecord : Type 0 where
  pub identity : LocalAttemptIdentity
  pub result_id : Text
  pub final_client_event_seq : ℤ
  pub payload : Fields
  pub created_at : ℕ

-- `existing.input == record.input`
unfoldable pub object_beq : Fields → Fields → Bool
object_beq a b = json_beq (obj a) (obj b)

-- `_copy_assignment`: what is decoded has the fields that were encoded, once the identity has passed
-- its checks. The state and the sequences of a record in memory pass theirs.
unfoldable pub copy_assignment : ⦃p : Platform⦄ → AssignmentRecord → Result AssignmentRecord
copy_assignment r = do check_identity r.identity; ok r
