-- ===== src/Worker/Retry.antt =====
-- `_retry_call` and `_retry_delay` of src/openlinker/runtime/worker.py. What a turn of the loop finds,
-- the flags and the transport of the worker, the answer of the call and the clock, is a `Turn`; a run
-- meets one after the other. Times are numbers, a delay is counted in tenths of the unit of the
-- configured ones, so that its share of a fifth is exact, and the draw of `random.uniform` is an
-- argument.
pub mod Ends
pub mod Delays
mod Examples
use openlinker_python.Prelude.{
  ℕ, zero, suc, ◌*◌, ◌^◌, Bool, true, false, not, ◌&&◌, ◌||◌, List, [], ◌∷◌, text, Option, none,
  some, ◌==◌, if◌then◌else◌, contains, leb, nat_eq, text_eq,
}
use openlinker_python.Worker.Assign.{lease_terminal_codes}
use openlinker_python.Worker.Policy.{
  Failure, remote, other, is_runtime_policy_recovery_signal, fatal_error,
}

-- what comes of a call: a value, `asyncio.CancelledError`, or another exception
pub data Ending {ℓ} (A : Type ℓ) : Type ℓ where
  value : A → Ending A
  cancelled : Ending A
  failed : Failure → Ending A

-- What a turn finds. A transport is known by a number; `none` is one that is not initialized.
pub record Turn (A : Type 0) : Type 0 where
  pub force_cancel : Bool
  pub stopping : Bool
  -- `cancellation is not None and cancellation.is_set()`
  pub cancellation : Bool
  pub transport : Option ℕ
  -- what the call comes to, with the one policy recovery where it is policy aware
  pub answer : Ending A
  -- after the call
  pub transitioning : Bool
  pub transport_then : Option ℕ
  pub now : ℕ
  -- the worker's two delays by then: a recovery of the policy during the call may change them
  pub retry_minimum : ℕ
  pub retry_maximum : ℕ
  -- the draw for a delay, between two bounds
  pub uniform : ℕ → ℕ → ℕ

-- the arguments of a call of `_retry_call`
pub record RetryOptions : Type 0 where
  pub deadline : Option ℕ
  pub tolerate_transport_switch : Bool
  pub continue_during_shutdown : Bool

-- `min(a, b)`
abbrev pub lesser : ℕ → ℕ → ℕ
lesser a b = if leb a b then a else b

abbrev pub is_due : Option ℕ → ℕ → Bool
is_due none now = false
is_due (some deadline) now = leb deadline now

-- `exc.code in _ASSIGNMENT_TERMINAL_CODES`
unfoldable pub is_assignment_terminal : Failure → Bool
is_assignment_terminal (remote status code message) =
    contains lease_terminal_codes code || code == text "RUN_CANCEL_REQUESTED"
is_assignment_terminal _ = false

abbrev pub is_same : ℕ → Option ℕ → Option Bool
is_same before none = none
is_same before (some after) = some (before == after)

-- what a turn comes to: the end of the loop, or a delay and the count of attempts for the next turn
pub data Step {ℓ} (A : Type ℓ) : Type ℓ where
  ends : Ending A → Step A
  wait : (delay attempt : ℕ) → Step A

abbrev pub not_initialized : Failure
not_initialized = other (text "Runtime transport is not initialized")

-- `_retry_delay`, in tenths of the unit of the two delays
unfoldable pub retry_delay : ℕ → ℕ → (ℕ → ℕ → ℕ) → ℕ → ℕ
retry_delay minimum maximum uniform attempt =
    let delay = lesser maximum (minimum * 2 ^ lesser attempt 16) in uniform (delay * 8) (delay * 12)

module _ (o : RetryOptions) {A : Type 0} where
  -- `self._transport_transitioning or transport is not self._transport_required()`, where a switch is
  -- tolerated; `none` where there is no transport any more
  unfoldable pub switches : Turn A → ℕ → Option Bool
  switches t before =
      if not o.tolerate_transport_switch
      then some false
      else if t.transitioning
      then some true
      else elim (is_same before t.transport_then) [ none ↦ none | some same ↦ some (not same) ]

  -- `except Exception as exc`
  unfoldable pub after_failure : Turn A → ℕ → Failure → ℕ → Step A
  after_failure t before f attempt =
      if is_runtime_policy_recovery_signal f then ends (failed f) else elim (switches t before) [
        | none ↦ ends (failed not_initialized)
        | some true ↦ wait (t.retry_minimum * 10) attempt
        | some false ↦
            if fatal_error f || is_assignment_terminal f
            then ends (failed f)
            else if is_due o.deadline t.now
            then ends (failed f)
            else wait (retry_delay t.retry_minimum t.retry_maximum t.uniform attempt) (suc attempt)
      ]

  -- the conditions of the loop
  unfoldable pub is_stopped : Turn A → Bool
  is_stopped t = t.force_cancel || (not o.continue_during_shutdown && t.stopping) || t.cancellation

  unfoldable pub take_turn : Turn A → ℕ → Step A
  take_turn t attempt = if is_stopped t then ends cancelled else elim t.transport [
    | none ↦ ends (failed not_initialized)
    | some before ↦ elim t.answer [
      | value a ↦ ends (value a)
      | cancelled ↦ ends cancelled
      | failed f ↦ after_failure t before f attempt
    ]
  ]

  -- The loop, on fuel, with the delays that it waits.
  unfoldable pub retry_turns : ℕ → (ℕ → Turn A) → ℕ → Option (Ending A × List ℕ)
  retry_turns zero turns attempt = none
  retry_turns (suc fuel) turns attempt = elim (take_turn (turns 0) attempt) [
    | ends e ↦ some (e, [])
    | wait delay next ↦ elim (retry_turns fuel (λ k. turns (suc k)) next) [
      | none ↦ none
      | some (e, delays) ↦ some (e, delay ∷ delays)
    ]
  ]

  -- `_retry_call`
  unfoldable pub retry_call : ℕ → (ℕ → Turn A) → Option (Ending A × List ℕ)
  retry_call fuel turns = retry_turns fuel turns 0
