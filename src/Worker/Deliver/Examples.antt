-- ===== src/Worker/Deliver/Examples.antt =====
-- The theorem on the sending of the spool (src/openlinker/runtime/worker.py) at a concrete worker.
use openlinker_python.Prelude.{
  ◌≡◌, refl, true, false, [], ◌∷◌, Text, text, text_eq, text_beq, some, pos, arith, contains,
  all_of,
}
use openlinker_python.Dict.{get}
use openlinker_python.Json.{Json, obj, field, end, str, int, bool, get_field, set_field, json_beq}
use openlinker_python.Errors.{ok, err, call_failed}
use openlinker_python.Types.Checks.{has_keys}
use openlinker_python.Store.State.{finished}
use openlinker_python.Store.Records.{AssignmentRecord, EventRecord, ResultRecord, from_attempt}
use openlinker_python.Store.Memory.{MemoryStore, full_payload}
use openlinker_python.Store.Methods.{
  store_result, new_result, with_result, result_id_for, final_seq_for,
}
use openlinker_python.Store.Invariant.{IsConsistent}
use openlinker_python.Store.Reach.{after, stores, after-IsConsistent}
use openlinker_python.Store.Examples.{code, two_events, two_events-IsConsistent}
use openlinker_python.Worker.Attempts.{Worker, Meanwhile}
use openlinker_python.Worker.Attempts.Revoke.{Holds}
use openlinker_python.Worker.Flush.{validate_event_ack, require_response_keys}
use openlinker_python.Worker.Answers.{
  validate_result_ack, validate_run_status, validate_dispatch_state, require_one_of, optional_time,
}
use openlinker_python.Worker.Deliver.{Answers, flush_attempt_spool}
use openlinker_python.Worker.Deliver.Settles.{Accepts, IsDelivered, flush_attempt_spool-IsDelivered}
use openlinker_python.Examples.{assignment, attempt_a, flat}

abbrev result_name : Text
result_name = text "result"

abbrev finished_store : MemoryStore
finished_store = after two_events (stores attempt_a end result_name 7 7)

finished_store-IsConsistent : IsConsistent finished_store
finished_store-IsConsistent =
    after-IsConsistent two_events (stores attempt_a end result_name 7 7) tt two_events-IsConsistent

abbrev finished_assignment : AssignmentRecord
finished_assignment = record assignment {
  state = finished;
  last_client_event_seq = 2;
  result_id = result_name;
  final_client_event_seq = pos 2;
  updated_at = 7;
}

abbrev kept_result : ResultRecord
kept_result = record {
  identity = assignment.identity;
  result_id = result_name;
  final_client_event_seq = pos 2;
  payload =
      field (text "result_id") (str result_name)
        (field (text "final_client_event_seq") (int (pos 2)) end);
  created_at = 7;
}

finished_store-Holds : Holds finished_store finished_assignment
unfolding code store_result new_result with_result result_id_for final_seq_for full_payload
    get_field set_field
finished_store-Holds = record {
  consistent = finished_store-IsConsistent;
  is_open = refl;
  there = refl;
}

has_result : get finished_store.results attempt_a ≡ some kept_result
unfolding code store_result new_result with_result result_id_for final_seq_for full_payload
    get_field set_field
has_result = refl

abbrev finished_worker : Worker
finished_worker = record {
  store = finished_store;
  node_id = text "node";
  agent_id = text "agent";
  capacity = 2;
  draining = false;
  active = [];
  terminal_attempts = [];
  spool_permissions = (attempt_a, (true, true)) ∷ [];
  cancellations = [];
}

-- the acknowledgements of every Event, and of the Result
abbrev event_ack : EventRecord → Json
event_ack e = obj (
    field (text "client_event_id") (str e.client_event_id) (
      field (text "client_event_seq") (int (pos e.client_event_seq))
        (field (text "sequence") (int (pos 1)) (field (text "replayed") (bool false) end))))

abbrev result_ack : Json
result_ack = obj (
    field (text "result_id") (str result_name) (
      field (text "classification") (str (text "success")) (
        field (text "run_status") (str (text "success")) (
          field (text "dispatch_state") (str (text "terminal"))
            (field (text "replayed") (bool false) end)))))

abbrev accepting : Answers
accepting = record {
  event = λ e. ok (event_ack e);
  result = ok result_ack;
  event_again = λ e. err call_failed;
  result_again = err call_failed;
}

-- other tasks that start draining the worker whenever they run
abbrev draining_tasks : Meanwhile
draining_tasks x w = record w { draining = true }

accepting-Accepts : Accepts accepting.event
unfolding validate_event_ack require_response_keys has_keys all_of contains get_field json_beq
    text_beq
accepting-Accepts e =
    (event_ack e, refl, ground (arith, text_eq.same_iff e.client_event_id e.client_event_id))

flush_attempt_spool-IsDelivered_example :
    IsDelivered finished_assignment.identity
      (flush_attempt_spool draining_tasks accepting finished_assignment 9 finished_worker).0
      (flush_attempt_spool draining_tasks accepting finished_assignment 9 finished_worker).1
unfolding get text_beq validate_result_ack require_response_keys has_keys all_of contains get_field
    json_beq require_one_of validate_run_status validate_dispatch_state optional_time from_attempt
flush_attempt_spool-IsDelivered_example =
    flush_attempt_spool-IsDelivered finished_worker finished_assignment finished_store-Holds
      kept_result has_result refl draining_tasks (λ x w. refl) accepting accepting-Accepts
      result_ack refl refl 9
