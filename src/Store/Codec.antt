-- ===== src/Store/Codec.antt =====
-- The JSON form of the records of src/openlinker/runtime/store.py: `to_dict` and `from_dict`.
pub mod RoundTrip
mod Examples
use openlinker_python.Prelude.{
  ℕ, ◌+◌, Bool, true, false, ◌&&◌, ◌||◌, not, List, [], ◌∷◌, map, Text, text, text_eq, nat_eq, ◌==◌,
  leb, Option, none, some, if◌then◌else◌, ℤ, pos, negsuc,
}
use openlinker_python.Json.{
  Json, null, bool, int, str, arr, obj, Fields, end, field, get_field, items, array, keys, field_or,
}
use openlinker_python.Json.Convert.{str_of, int_of}
use openlinker_python.Platform.{Platform}
use openlinker_python.Errors.{
  Result, ok, err, invalid_value, missing_key, bad_durable_identity, bad_durable_assignment,
  bad_durable_state, bad_durable_sequence, bad_durable_event, bad_durable_result, bad_durable_json,
  bad_identifier, ◌>>◌, ◌>>=◌, require, some_or, recast,
}
use openlinker_python.Types.Uuid.{is_uuid}
use openlinker_python.Types.Time.{parse_datetime, format_datetime}
use openlinker_python.Types.Identity.{
  nat_of, item, to_int, elements, attempt_to_dict, attempt_from_dict,
}
use openlinker_python.Store.State.{
  State, received, ack_sent, confirmed, started, finished, result_acked, reject_sent, rejected,
  revoked, state_text,
}
use openlinker_python.Store.Records.{
  LocalAttemptIdentity, AssignmentRecord, EventRecord, ResultRecord, check_identity,
}

-- `value[...]` on what is no object is a TypeError.
abbrev pub as_object : Json → Result Fields
as_object (obj fs) = ok fs
as_object _ = err invalid_value

-- `_json_object`
unfoldable pub json_object : Json → Result Fields
json_object (obj fs) = ok fs
json_object _ = err bad_durable_json

-- the key of `_TRANSITIONS` that a text is
unfoldable pub state_of : Text → Option State
state_of t =
    if t == text "received"
    then some received
    else if t == text "ack_sent"
    then some ack_sent
    else if t == text "confirmed"
    then some confirmed
    else if t == text "started"
    then some started
    else if t == text "finished"
    then some finished
    else if t == text "result_acked"
    then some result_acked
    else if t == text "reject_sent"
    then some reject_sent
    else if t == text "rejected"
    then some rejected
    else if t == text "revoked"
    then some revoked
    else none

-- `[int(item) for item in ...]`; a number below 0, which no Event has, is read as 0
unfoldable pub sequences : List Json → Result (List ℕ)
sequences [] = ok []
sequences (v ∷ vs) = do n ← to_int v; rest ← sequences vs; ok (nat_of n ∷ rest)

abbrev pub is_negative : ℤ → Bool
is_negative (pos n) = false
is_negative (negsuc n) = true

-- `LocalAttemptIdentity.to_dict`
unfoldable pub identity_to_dict : LocalAttemptIdentity → Fields
identity_to_dict i = field (text "attempt") (obj (attempt_to_dict i.attempt)) (
    field (text "session_epoch") (int (pos i.session_epoch)) (
      field (text "assignment_message_id") (str i.assignment_message_id)
        (field (text "offer_id") (str i.offer_id) end)))

module _ ⦃p : Platform⦄ where
  unfoldable pub identity_fields : Json → Result LocalAttemptIdentity
  identity_fields v = do
    fs ← as_object v
    raw ← item fs (text "attempt")
    attempt ← attempt_from_dict raw
    epoch ← item fs (text "session_epoch")
    session_epoch ← to_int epoch
    message_id ← item fs (text "assignment_message_id")
    offer_id ← item fs (text "offer_id")
    ok (record {
      attempt = attempt;
      session_epoch = nat_of session_epoch;
      assignment_message_id = str_of message_id;
      offer_id = str_of offer_id;
    })

  -- `LocalAttemptIdentity.from_dict`. The Attempt is validated by now, so that of the checks only the
  -- others can raise.
  unfoldable pub identity_from_dict : Json → Result LocalAttemptIdentity
  identity_from_dict v = do
    i ← recast bad_durable_identity (identity_fields v)
    check_identity i
    ok i

  -- the second half of `AssignmentRecord.to_dict`
  unfoldable pub progress_to_dict : AssignmentRecord → Fields
  progress_to_dict r = field (text "state") (str (state_text r.state)) (
      field (text "last_client_event_seq") (int (pos r.last_client_event_seq)) (
        field (text "acked_client_event_seq") (int (pos r.acked_client_event_seq)) (
          field (text "acked_out_of_order_event_seqs")
            (arr (array (map (λ n. int (pos n)) r.acked_out_of_order_event_seqs)))
            (field (text "result_id") (str r.result_id) (
              field (text "final_client_event_seq") (int r.final_client_event_seq)
                (field (text "updated_at") (str (format_datetime r.updated_at)) end))))))

  -- `AssignmentRecord.to_dict`
  unfoldable pub assignment_to_dict : AssignmentRecord → Fields
  unfolding progress_to_dict
  assignment_to_dict r = field (text "identity") (obj (identity_to_dict r.identity)) (
      field (text "input") (obj r.input) (
        field (text "metadata") (obj r.metadata) (
          field (text "node_envelope") (str r.node_envelope) (
            field (text "agent_invocation_token") (str r.agent_invocation_token) (
              field (text "offer_expires_at") (str (format_datetime r.offer_expires_at)) (
                field (text "attempt_deadline_at") (str (format_datetime r.attempt_deadline_at)) (
                  field (text "run_deadline_at") (str (format_datetime r.run_deadline_at))
                    (progress_to_dict r))))))))

  -- `parse_datetime(value[key])`
  abbrev time_at : Fields → Text → Result ℕ
  time_at fs k = do v ← item fs k; parse_datetime v

  -- What the constructor call of `AssignmentRecord.from_dict` gives: the text of the state, the two
  -- counters as they were read, and the record once the state is known.
  unfoldable pub assignment_fields : Fields → Result (Text × ℤ × ℤ × (State → AssignmentRecord))
  assignment_fields fs = do
    raw_identity ← item fs (text "identity")
    identity ← identity_from_dict raw_identity
    raw_input ← item fs (text "input")
    input ← json_object raw_input
    metadata ← json_object (field_or fs (text "metadata") (obj end))
    node_envelope ← item fs (text "node_envelope")
    token ← item fs (text "agent_invocation_token")
    offer_expires_at ← time_at fs (text "offer_expires_at")
    attempt_deadline_at ← time_at fs (text "attempt_deadline_at")
    run_deadline_at ← time_at fs (text "run_deadline_at")
    raw_state ← item fs (text "state")
    last ← to_int (field_or fs (text "last_client_event_seq") (int (pos 0)))
    acked ← to_int (field_or fs (text "acked_client_event_seq") (int (pos 0)))
    raw_seqs ← elements (field_or fs (text "acked_out_of_order_event_seqs") (arr (array [])))
    seqs ← sequences raw_seqs
    final ← to_int (field_or fs (text "final_client_event_seq") (int (pos 0)))
    updated_at ← time_at fs (text "updated_at")
    ok (
      str_of raw_state,
      last,
      acked,
      λ state. record {
        identity = identity;
        input = input;
        metadata = metadata;
        node_envelope = str_of node_envelope;
        agent_invocation_token = str_of token;
        offer_expires_at = offer_expires_at;
        attempt_deadline_at = attempt_deadline_at;
        run_deadline_at = run_deadline_at;
        state = state;
        last_client_event_seq = nat_of last;
        acked_client_event_seq = nat_of acked;
        acked_out_of_order_event_seqs = seqs;
        result_id = str_of (field_or fs (text "result_id") (str []));
        final_client_event_seq = final;
        updated_at = updated_at;
      },
    )

  -- `AssignmentRecord.from_dict`
  unfoldable pub assignment_from_dict : Fields → Result AssignmentRecord
  assignment_from_dict fs = do
    parts ← recast bad_durable_assignment (assignment_fields fs)
    state ← some_or (state_of parts.0) bad_durable_state
    require (not (is_negative parts.1 || is_negative parts.2)) bad_durable_sequence
    ok (parts.3 state)

  -- `EventRecord.to_dict`
  unfoldable pub event_to_dict : EventRecord → Fields
  event_to_dict e = field (text "identity") (obj (identity_to_dict e.identity)) (
      field (text "client_event_id") (str e.client_event_id) (
        field (text "client_event_seq") (int (pos e.client_event_seq)) (
          field (text "event_type") (str e.event_type) (
            field (text "payload") (obj e.payload)
              (field (text "created_at") (str (format_datetime e.created_at)) end)))))

  unfoldable pub event_fields : Fields → Result EventRecord
  event_fields fs = do
    raw_identity ← item fs (text "identity")
    identity ← identity_from_dict raw_identity
    id ← item fs (text "client_event_id")
    raw_seq ← item fs (text "client_event_seq")
    seq ← to_int raw_seq
    kind ← item fs (text "event_type")
    raw_payload ← item fs (text "payload")
    payload ← json_object raw_payload
    created_at ← time_at fs (text "created_at")
    ok (record {
      identity = identity;
      client_event_id = str_of id;
      client_event_seq = nat_of seq;
      event_type = str_of kind;
      payload = payload;
      created_at = created_at;
    })

  -- `EventRecord.from_dict`
  unfoldable pub event_from_dict : Fields → Result EventRecord
  event_from_dict fs = do
    e ← recast bad_durable_event (event_fields fs)
    require (is_uuid e.client_event_id) bad_identifier
    require (leb 1 e.client_event_seq) bad_durable_sequence
    ok e

  -- `ResultRecord.to_dict`
  unfoldable pub result_to_dict : ResultRecord → Fields
  result_to_dict x = field (text "identity") (obj (identity_to_dict x.identity)) (
      field (text "result_id") (str x.result_id) (
        field (text "final_client_event_seq") (int x.final_client_event_seq) (
          field (text "payload") (obj x.payload)
            (field (text "created_at") (str (format_datetime x.created_at)) end))))

  unfoldable pub result_fields : Fields → Result ResultRecord
  result_fields fs = do
    raw_identity ← item fs (text "identity")
    identity ← identity_from_dict raw_identity
    id ← item fs (text "result_id")
    raw_final ← item fs (text "final_client_event_seq")
    final ← to_int raw_final
    raw_payload ← item fs (text "payload")
    payload ← json_object raw_payload
    created_at ← time_at fs (text "created_at")
    ok (record {
      identity = identity;
      result_id = str_of id;
      final_client_event_seq = final;
      payload = payload;
      created_at = created_at;
    })

  -- `ResultRecord.from_dict`
  unfoldable pub result_from_dict : Fields → Result ResultRecord
  result_from_dict fs = do
    x ← recast bad_durable_result (result_fields fs)
    require (is_uuid x.result_id) bad_identifier
    require (not (is_negative x.final_client_event_seq)) bad_durable_sequence
    ok x
