-- ===== src/Worker/Examples.antt =====
-- The theorems on src/openlinker/runtime/worker.py at concrete values.
use openlinker_python.Prelude.{
  ℕ, ◌+◌, text_beq, ap, arith, nat_eq, text_eq, ◌≡◌, true, false, contains, [], ◌∷◌, text, refl,
}
use openlinker_python.Errors.{ok}
use openlinker_python.Store.Memory.{memory_ready}
use openlinker_python.Store.Methods.{events_in_ranges}
use openlinker_python.Store.Examples.{
  code, two_events, two_events-IsConsistent, two_pending, an_event,
}
use openlinker_python.Worker.Ranges.{event_ranges}
use openlinker_python.Worker.Ranges.Resend.{events_in_ranges-event_ranges}
use openlinker_python.Store.Records.{AssignmentRecord}
use openlinker_python.Worker.Attempts.{Worker, revoke_attempt}
use openlinker_python.Worker.Attempts.Gone.{revoke_attempt-IsRevoked, IsRevoked}
use openlinker_python.Worker.Policy.{
  Failure, remote, policy_recovery, is_runtime_policy_recovery_signal, Reply, returned, raised,
  try_again, runtime_policy_recover_once,
}
use openlinker_python.Worker.Policy.Once.{runtime_policy_recover_once-no_signal}
use openlinker_python.Store.State.{started}
use openlinker_python.Examples.{assignment, attempt_a, flat}

events_in_ranges-event_ranges_example :
    events_in_ranges memory_ready attempt_a
      (event_ranges (an_event 1 (text "e1") 5 ∷ an_event 2 (text "e2") 6 ∷ []))
      two_events
    ≡ ok (an_event 1 (text "e1") 5 ∷ an_event 2 (text "e2") 6 ∷ [])
events_in_ranges-event_ranges_example =
    events_in_ranges-event_ranges memory_ready two_events two_events-IsConsistent attempt_a
      (an_event 1 (text "e1") 5 ∷ an_event 2 (text "e2") 6 ∷ []) two_pending

abbrev worker : Worker
worker = record {
  store = two_events;
  node_id = text "node";
  agent_id = text "agent";
  capacity = 2;
  draining = false;
  active = [];
  terminal_attempts = [];
  spool_permissions = (attempt_a, (true, true)) ∷ [];
  cancellations = [];
}

-- the assignment that the store holds for the two Events
abbrev running : AssignmentRecord
running = record assignment { state = started; last_client_event_seq = 2; updated_at = 6 }

revoke_attempt-IsRevoked_example :
    IsRevoked running (revoke_attempt running 9 worker).0 (revoke_attempt running 9 worker).1
    × (contains (revoke_attempt running 9 worker).1.terminal_attempts attempt_a ≡ true)
unfolding code
revoke_attempt-IsRevoked_example =
    revoke_attempt-IsRevoked worker running
      (record { consistent = two_events-IsConsistent; is_open = refl; there = refl }) 9

abbrev policy_changed : Failure
policy_changed = remote 403 (text "FORBIDDEN") (text "RUNTIME_POLICY_CHANGED")

-- the number of tries so far
abbrev always_forbidden : ℕ → Reply ℕ × ℕ
always_forbidden n = (raised policy_changed, n + 1)

abbrev discovered : Failure → ℕ → Reply (Unit {0}) × ℕ
discovered f n = (returned tt, n)

two_tries : runtime_policy_recover_once always_forbidden discovered 0 ≡ (raised policy_recovery, 2)
unfolding runtime_policy_recover_once try_again is_runtime_policy_recovery_signal text_beq
two_tries = refl

runtime_policy_recover_once-no_signal_example :
    is_runtime_policy_recovery_signal policy_recovery ≡ false
runtime_policy_recover_once-no_signal_example =
    runtime_policy_recover_once-no_signal always_forbidden discovered
      (λ g s e h. absurd (ground arith)) 0 policy_recovery (ap (λ r. r.0) two_tries)
