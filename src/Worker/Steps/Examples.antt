-- ===== src/Worker/Steps/Examples.antt =====
-- The theorems on the steps of a worker (src/openlinker/runtime/worker.py) at a concrete worker.
use openlinker_python.Prelude.{refl, false, [], ◌∷◌, Text, text, text_beq, contains, pos, arith}
use openlinker_python.Dict.{get}
use openlinker_python.Json.{Json, obj, str, int, field, end}
use openlinker_python.Errors.{ok, err, call_failed}
use openlinker_python.Types.Messages.{RuntimeAssignment}
use openlinker_python.Types.Identity.{attempt_to_dict}
use openlinker_python.Store.Memory.{new}
use openlinker_python.Worker.Attempts.{Worker}
use openlinker_python.Worker.Outcomes.{returned, an_object, Draws}
use openlinker_python.Worker.Steps.{Steps, done, then, takes, sends, finishes, after_all}
use openlinker_python.Worker.Steps.Stopped.{IsStopped, after_all-IsStopped}
use openlinker_python.Examples.{assignment, attempt, attempt_a, flat}

abbrev session : Text
session = text "00000000-0000-4000-8000-000000000006"

abbrev idle : Worker
idle = record {
  store = new (text "worker") session;
  node_id = text "00000000-0000-4000-8000-000000000004";
  agent_id = text "00000000-0000-4000-8000-000000000005";
  capacity = 2;
  draining = false;
  active = [];
  terminal_attempts = [];
  spool_permissions = [];
  cancellations = [];
}

abbrev offer : RuntimeAssignment
offer = record {
  attempt_identity = attempt;
  offer_no = 1;
  offer_expires_at = 10;
  attempt_deadline_at = 20;
  run_deadline_at = 30;
  input = end;
  metadata = end;
  node_envelope = [];
  agent_invocation_token = [];
}

-- the confirmation of the offer; a lease up to the time 8
abbrev confirmation : Json
confirmation = obj (
    field (text "attempt_identity") (obj (attempt_to_dict attempt)) (
      field (text "attempt_no") (int (pos 1))
        (field (text "lease_expires_at") (str (text "11111111+00:00")) end)))

abbrev draws : Draws
draws = record {
  event_id = λ n. attempt_a;
  result_id = attempt_a;
  elapsed_ms = 3;
  message = λ e. [];
  force_cancel = false;
}

-- an offer that is confirmed, during which the spool is sent; then its handler returns
abbrev two_steps : Steps
two_steps =
    then
      (takes offer
        (λ x.
          then
            (sends (λ y. done)
              (λ a. record {
                event = λ e. err call_failed;
                result = err call_failed;
                event_again = λ e. err call_failed;
                result_again = err call_failed;
              })
              4)
            done)
        (ok confirmation) 5)
      (then (finishes draws (λ x. done) assignment (returned (an_object end)) 6) done)

abbrev stopped : Worker
stopped = record idle { terminal_attempts = attempt_a ∷ [] }

stopped-IsStopped : IsStopped attempt_a stopped
unfolding contains text_beq get
stopped-IsStopped = record { terminal = refl; told = λ x g. absurd (ground arith) }

after_all-IsStopped_example : IsStopped attempt_a (after_all two_steps stopped)
after_all-IsStopped_example = after_all-IsStopped attempt_a two_steps stopped stopped-IsStopped
