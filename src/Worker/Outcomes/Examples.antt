-- ===== src/Worker/Outcomes/Examples.antt =====
-- The theorem on the Result of a handler (src/openlinker/runtime/worker.py) at a handler that raises.
use openlinker_python.Prelude.{◌≡◌, refl, some, none, false, [], ◌∷◌, text, text_eq, pos, ◌⊎◌}
use openlinker_python.Dict.{get}
use openlinker_python.Json.{get_field}
use openlinker_python.Store.Records.{AssignmentRecord, ResultRecord, attempt_id_of}
use openlinker_python.Store.Methods.{
  new_result, with_result, store_result, result_id_for, final_seq_for,
}
use openlinker_python.Store.State.{started}
use openlinker_python.Store.Examples.{code, two_events}
use openlinker_python.Worker.Attempts.{Worker, Meanwhile, for_lock}
use openlinker_python.Worker.Outcomes.{
  raised, Draws, failed, handler_error, outcome_result, keep_result, finish_attempt, result_payload,
  bounded,
}
use openlinker_python.Worker.Outcomes.Form.{HasForm}
use openlinker_python.Worker.Outcomes.Kept.{finish_attempt-HasForm}
use openlinker_python.Worker.Run.{◌>>=◌}
use openlinker_python.Examples.{assignment, attempt_a, flat}

-- the assignment that the store holds for the two Events
abbrev running : AssignmentRecord
running = record assignment { state = started; last_client_event_seq = 2; updated_at = 6 }

abbrev busy : Worker
busy = record {
  store = two_events;
  node_id = text "node";
  agent_id = text "agent";
  capacity = 2;
  draining = false;
  active =
      (attempt_a, record { assignment = running; cancelled = false; lease_expires_at = none }) ∷ [];
  terminal_attempts = [];
  spool_permissions = [];
  cancellations = [];
}

abbrev draws : Draws
draws = record {
  event_id = λ n. attempt_a;
  result_id = attempt_a;
  elapsed_ms = 3;
  message = λ e. [];
  force_cancel = false;
}

-- the other tasks only forget the cancellations
abbrev forgets : Meanwhile
forgets x w = record w { cancellations = [] }

-- the Result that is kept when the handler raised
abbrev failure : ResultRecord
failure =
    new_result running
      (result_payload running.identity.attempt (handler_error draws (text "no")) (pos 3)) attempt_a
      (pos 2) 9

finish_attempt-HasForm_example :
    (get busy.store.results (attempt_id_of running) ≡ some failure)
    ⊎ (get
          (forgets
            (for_lock (attempt_id_of running))
            (outcome_result draws
              (attempt_id_of running)
              (raised (text "no"))
              9
              busy).1).store.results
          (attempt_id_of running)
        ≡ some failure)
    ⊎ HasForm failure.payload
unfolding code finish_attempt keep_result outcome_result handler_error failed bounded new_result
    result_payload ◌>>=◌ store_result result_id_for final_seq_for get_field with_result
finish_attempt-HasForm_example =
    finish_attempt-HasForm draws forgets running (raised (text "no")) 9 busy failure refl
