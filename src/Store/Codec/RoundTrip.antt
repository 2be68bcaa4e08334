-- ===== src/Store/Codec/RoundTrip.antt =====
-- Decoding what was encoded, for the records of src/openlinker/runtime/store.py.
use openlinker_python.Prelude.{
  ℕ, ◌≡◌, refl, ◌∙◌, true, false, List, [], ◌∷◌, map, text_beq, contains, all_of, some, pos, arith,
  inl, inr, leb,
}
use openlinker_python.Json.{obj, int, items, array, get_field}
use openlinker_python.Json.Convert.{str_of, int_of}
use openlinker_python.Platform.{Platform}
use openlinker_python.Errors.{
  Error, ok, err, Result-cases, error_class, is_value_error, recast, ◌>>◌, bad_durable_identity,
  bad_durable_assignment,
}
use openlinker_python.Types.Uuid.{is_uuid}
use openlinker_python.Types.Time.{parse_datetime-format_datetime}
use openlinker_python.Types.Checks.{require_keys}
use openlinker_python.Types.Identity.{
  RuntimeAttemptIdentity, validate, attempt_to_dict, attempt_from_dict,
}
use openlinker_python.Store.State.{State, state_text}
use openlinker_python.Store.Records.{
  LocalAttemptIdentity, AssignmentRecord, EventRecord, ResultRecord, check_identity,
  copy_assignment,
}
use openlinker_python.Store.Codec.{
  state_of, sequences, identity_to_dict, identity_fields, identity_from_dict, assignment_to_dict,
  assignment_fields, assignment_from_dict, event_to_dict, event_fields, event_from_dict,
  result_to_dict, result_fields, result_from_dict, json_object, is_negative,
}

state_of-state_text : (q : State) → state_of (state_text q) ≡ some q
unfolding state_of state_text text_beq
state_of-state_text State.received = refl
state_of-state_text State.ack_sent = refl
state_of-state_text State.confirmed = refl
state_of-state_text State.started = refl
state_of-state_text State.finished = refl
state_of-state_text State.result_acked = refl
state_of-state_text State.reject_sent = refl
state_of-state_text State.rejected = refl
state_of-state_text State.revoked = refl

sequences-items : (ns : List ℕ) → sequences (items (array (map (λ n. int (pos n)) ns))) ≡ ok ns
unfolding sequences int_of
sequences-items [] = refl
sequences-items (n ∷ ns) = rw (sequences-items ns)

validate_no_value_error :
    (a : RuntimeAttemptIdentity) (e : Error)
    → validate a ≡ err e
    → is_value_error (error_class e) ≡ false
unfolding validate error_class
validate_no_value_error a e h = ground arith

module _ ⦃p : Platform⦄ where
  attempt_from_dict-eq :
      (a : RuntimeAttemptIdentity) (e : Error)
      → validate a ≡ err e
      → attempt_from_dict (obj (attempt_to_dict a)) ≡ err e
  unfolding attempt_from_dict attempt_to_dict require_keys get_field contains all_of text_beq str_of
      int_of recast
  attempt_from_dict-eq a e h = rw h

  identity_fields-ok :
      (i : LocalAttemptIdentity)
      → validate i.attempt ≡ ok tt
      → identity_fields (obj (identity_to_dict i)) ≡ ok i
  unfolding identity_fields identity_to_dict get_field text_beq str_of int_of attempt_from_dict
      attempt_to_dict require_keys contains all_of recast
  identity_fields-ok i h = rw h

  identity_fields-err :
      (i : LocalAttemptIdentity) (e : Error)
      → validate i.attempt ≡ err e
      → identity_fields (obj (identity_to_dict i)) ≡ err e
  unfolding identity_fields identity_to_dict get_field text_beq
  identity_fields-err i e h = rw (attempt_from_dict-eq i.attempt e h)

  recast-other :
      {A : Type 0} (d e : Error)
      → is_value_error (error_class e) ≡ false
      → recast {A = A} d (err e) ≡ err e
  unfolding recast
  recast-other d e h = rw (h, recast)

  -- what is decoded, beside the checks
  identity_from_dict-identity_to_dict :
      (i : LocalAttemptIdentity)
      → identity_from_dict (obj (identity_to_dict i)) ≡ (check_identity i >> ok i)
  unfolding identity_from_dict
  identity_from_dict-identity_to_dict i = elim (Result-cases (validate i.attempt)) [
    | inl (u, h) ↦ rw (identity_fields-ok i h) (unfold recast in refl)
    | inr (e, h) ↦
        rw
          (
            identity_fields-err i e h,
            recast-other {A = LocalAttemptIdentity} bad_durable_identity e
                (validate_no_value_error i.attempt e h),
          )
          (unfold check_identity in rw h)
  ]

  check_identity_no_value_error :
      (i : LocalAttemptIdentity) (e : Error)
      → check_identity i ≡ err e
      → is_value_error (error_class e) ≡ false
  unfolding check_identity error_class
  check_identity_no_value_error i e h = ground (arith, validate_no_value_error i.attempt e)

  identity_ok :
      (i : LocalAttemptIdentity)
      → check_identity i ≡ ok tt
      → identity_from_dict (obj (identity_to_dict i)) ≡ ok i
  identity_ok i h = identity_from_dict-identity_to_dict i ∙ (rw h)

  identity_err :
      (i : LocalAttemptIdentity) (e : Error)
      → check_identity i ≡ err e
      → identity_from_dict (obj (identity_to_dict i)) ≡ err e
  identity_err i e h = identity_from_dict-identity_to_dict i ∙ (rw h)

  assignment_from_dict-ok :
      (r : AssignmentRecord)
      → check_identity r.identity ≡ ok tt
      → assignment_from_dict (assignment_to_dict r) ≡ ok r
  unfolding assignment_from_dict assignment_fields assignment_to_dict get_field text_beq str_of
      int_of json_object recast
  assignment_from_dict-ok r h =
      rw
        (
          identity_ok r.identity h,
          parse_datetime-format_datetime r.offer_expires_at,
          parse_datetime-format_datetime r.attempt_deadline_at,
          parse_datetime-format_datetime r.run_deadline_at,
          parse_datetime-format_datetime r.updated_at,
          sequences-items r.acked_out_of_order_event_seqs,
          state_of-state_text r.state,
        )
        refl

  assignment_from_dict-err :
      (r : AssignmentRecord) (e : Error)
      → check_identity r.identity ≡ err e
      → assignment_from_dict (assignment_to_dict r) ≡ err e
  unfolding assignment_from_dict assignment_fields assignment_to_dict get_field text_beq
  assignment_from_dict-err r e h =
      rw
        (
          identity_err r.identity e h,
          recast-other bad_durable_assignment e (check_identity_no_value_error r.identity e h),
        )
        refl

  -- Decoding what was encoded gives the record again where its identity passes the checks, and
  -- otherwise raises what they raise. This is `_copy_assignment`.
  pub copy_assignment-eq :
      (r : AssignmentRecord) → assignment_from_dict (assignment_to_dict r) ≡ copy_assignment r
  unfolding copy_assignment
  copy_assignment-eq r = elim (Result-cases (check_identity r.identity)) [
    | inl (u, h) ↦ assignment_from_dict-ok r h ∙ (rw h)
    | inr (e, h) ↦ assignment_from_dict-err r e h ∙ (rw h)
  ]

  -- An Event is decoded as it was encoded, where its identity passes the checks, its identifier is a
  -- UUID and its sequence is not 0.
  pub event_from_dict-event_to_dict :
      (e : EventRecord)
      → check_identity e.identity ≡ ok tt
      → is_uuid e.client_event_id ≡ true
      → leb 1 e.client_event_seq ≡ true
      → event_from_dict (event_to_dict e) ≡ ok e
  unfolding event_from_dict event_fields event_to_dict get_field text_beq str_of int_of json_object
      recast
  event_from_dict-event_to_dict e h u n =
      rw (identity_ok e.identity h, parse_datetime-format_datetime e.created_at, u, n) refl

  -- A Result is decoded as it was encoded, where its identity passes the checks, its identifier is a
  -- UUID and its final sequence is not negative.
  pub result_from_dict-result_to_dict :
      (x : ResultRecord)
      → check_identity x.identity ≡ ok tt
      → is_uuid x.result_id ≡ true
      → is_negative x.final_client_event_seq ≡ false
      → result_from_dict (result_to_dict x) ≡ ok x
  unfolding result_from_dict result_fields result_to_dict get_field text_beq str_of int_of
      json_object recast
  result_from_dict-result_to_dict x h u n =
      rw (identity_ok x.identity h, parse_datetime-format_datetime x.created_at, u, n) refl
