-- ===== src/Store/Codec/Examples.antt =====
-- The theorems on the JSON form of records (src/openlinker/runtime/store.py) at concrete records.
use openlinker_python.Prelude.{◌≡◌, refl, pos}
use openlinker_python.Json.{end}
use openlinker_python.Errors.{ok}
use openlinker_python.Store.Records.{EventRecord, ResultRecord, copy_assignment}
use openlinker_python.Store.Codec.{
  assignment_to_dict, assignment_from_dict, event_to_dict, event_from_dict, result_to_dict,
  result_from_dict,
}
use openlinker_python.Store.Codec.RoundTrip.{
  copy_assignment-eq, event_from_dict-event_to_dict, result_from_dict-result_to_dict,
}
use openlinker_python.Store.Examples.{code, valid_identity, an_event}
use openlinker_python.Examples.{assignment, attempt_a, flat}

copy_assignment-eq_example :
    assignment_from_dict (assignment_to_dict assignment) ≡ copy_assignment assignment
copy_assignment-eq_example = copy_assignment-eq assignment

abbrev stored_event : EventRecord
stored_event = an_event 3 attempt_a 5

event_from_dict-event_to_dict_example :
    event_from_dict (event_to_dict stored_event) ≡ ok stored_event
unfolding code
event_from_dict-event_to_dict_example =
    event_from_dict-event_to_dict stored_event valid_identity refl refl

abbrev stored_result : ResultRecord
stored_result = record {
  identity = assignment.identity;
  result_id = attempt_a;
  final_client_event_seq = pos 3;
  payload = end;
  created_at = 7;
}

result_from_dict-result_to_dict_example :
    result_from_dict (result_to_dict stored_result) ≡ ok stored_result
unfolding code
result_from_dict-result_to_dict_example =
    result_from_dict-result_to_dict stored_result valid_identity refl refl
