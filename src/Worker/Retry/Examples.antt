-- ===== src/Worker/Retry/Examples.antt =====
-- The theorems on `_retry_call` of src/openlinker/runtime/worker.py at concrete turns.
use openlinker_python.Prelude.{
  ℕ, zero, suc, ◌*◌, ◌≤◌, ◌<◌, ◌≡◌, refl, true, false, List, [], ◌∷◌, some, arith, All, length,
  text, nat_eq, text_eq, contains, text_beq,
}
use openlinker_python.Worker.Assign.{lease_terminal_codes}
use openlinker_python.Worker.Policy.{
  remote, is_runtime_policy_recovery_signal, fatal_error, permanent_codes,
}
use openlinker_python.Worker.Retry.{
  Ending, value, failed, Turn, RetryOptions, retry_call, retry_turns, take_turn, after_failure,
  is_stopped, switches, retry_delay, is_assignment_terminal,
}
use openlinker_python.Worker.Retry.Ends.{IsReason, IsTransient, retry_call-due, retry_call-ends}
use openlinker_python.Worker.Retry.Delays.{IsDelay, IsBounded, retry_call-IsDelay}

abbrev options : RetryOptions
options = record {
  deadline = some 20;
  tolerate_transport_switch = true;
  continue_during_shutdown = false;
}

-- a turn whose call the platform could not answer
abbrev busy : ℕ → Turn ℕ
busy clock = record {
  force_cancel = false;
  stopping = false;
  cancellation = false;
  transport = some 1;
  answer = failed (remote 503 (text "BUSY") (text "busy"));
  transitioning = false;
  transport_then = some 1;
  now = clock;
  retry_minimum = 10;
  retry_maximum = 1000;
  uniform = λ a b. a;
}

-- two such turns, and then an answer
abbrev recovering : ℕ → Turn ℕ
recovering zero = busy 5
recovering (suc zero) = busy 6
recovering (suc (suc k)) = record (busy 7) { answer = value 42 }

-- a platform that never answers
abbrev down : ℕ → Turn ℕ
down k = busy (k * 9)

recovering_runs : retry_call options 3 recovering ≡ some (value 42, 80 ∷ 160 ∷ [])
unfolding retry_call retry_turns take_turn after_failure is_stopped switches retry_delay fatal_error
    is_runtime_policy_recovery_signal is_assignment_terminal lease_terminal_codes permanent_codes
    contains text_beq
recovering_runs = refl

retry_call-due_example :
    (e : Ending ℕ) × (delays : List ℕ) × (retry_call options 9 down ≡ some (e, delays))
    × (length delays ≤ 3)
retry_call-due_example =
    retry_call-due options 3 down 9 (omega arith)
      (record { not_transitioning = refl; same_transport = refl }) refl

retry_call-ends_example :
    IsReason options (recovering 2) (value 42)
    × ((k : ℕ) → k < 2 → IsTransient options (recovering k))
retry_call-ends_example =
    retry_call-ends options 3 recovering (value 42) (80 ∷ 160 ∷ []) recovering_runs

recovering-IsBounded : (k : ℕ) → IsBounded 10 1000 (recovering k)
recovering-IsBounded zero = record {
  draws = λ a b h. (omega arith, h);
  above = omega arith;
  ordered = omega arith;
  below = omega arith;
}
recovering-IsBounded (suc zero) = record {
  draws = λ a b h. (omega arith, h);
  above = omega arith;
  ordered = omega arith;
  below = omega arith;
}
recovering-IsBounded (suc (suc k)) = record {
  draws = λ a b h. (omega arith, h);
  above = omega arith;
  ordered = omega arith;
  below = omega arith;
}

retry_call-IsDelay_example : All (IsDelay 10 1000) (80 ∷ 160 ∷ [])
retry_call-IsDelay_example =
    retry_call-IsDelay options 10 1000 3 recovering (value 42) (80 ∷ 160 ∷ []) recovering-IsBounded
      recovering_runs
