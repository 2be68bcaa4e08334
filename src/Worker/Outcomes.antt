-- ===== src/Worker/Outcomes.antt =====
-- What a worker of src/openlinker/runtime/worker.py makes of its handler: `_normalize_result`,
-- `_result_payload`, `_bounded`, `_persist_event` and `_execute_attempt`. The handler is an argument,
-- by the outcome of its call.
pub mod Form
pub mod Kept
mod Examples
use openlinker_python.Prelude.{
  ℕ, ◌+◌, Bool, true, false, not, ◌&&◌, ◌||◌, List, [], ◌∷◌, Text, text, text_eq, int_eq, Option,
  none, some, ◌==◌, if◌then◌else◌, take, leb, ℤ, pos, negsuc,
}
use openlinker_python.Text.{is_empty, strip}
use openlinker_python.Dict.{get}
use openlinker_python.Json.{Json, bool, int, str, obj, Fields, end, field}
use openlinker_python.Platform.{Platform}
use openlinker_python.Errors.{Error, Result, ok, err, invalid_value, task_cancelled}
use openlinker_python.Exec.{Exec, pure, raise, read}
use openlinker_python.Worker.Run.{◌>>=◌}
use openlinker_python.Types.Identity.{RuntimeAttemptIdentity, attempt_to_dict}
use openlinker_python.Types.Messages.{validate_event}
use openlinker_python.Store.Records.{AssignmentRecord, attempt_id_of}
use openlinker_python.Store.Memory.{memory_ready}
use openlinker_python.Store.Methods as store
use openlinker_python.Worker.Attempts.{
  Worker, on_store, change, allow_spool, await, Meanwhile, Wait, for_lock,
}

-- `RuntimeEvent`
pub record RuntimeEvent : Type 0 where
  pub event_type : Text
  pub payload : Json

-- `RuntimeHandlerError`
pub record RuntimeHandlerError : Type 0 where
  pub code : Text
  pub message : Text

pub record RuntimeResult : Type 0 where
  pub status : Text
  pub output : Option Json
  pub events : List RuntimeEvent
  pub error : Option RuntimeHandlerError
  pub duration_ms : ℤ

-- `RuntimeResult.success`
unfoldable pub success : Fields → RuntimeResult
success output = record {
  status = text "success";
  output = some (obj output);
  events = [];
  error = none;
  duration_ms = pos 0;
}

-- `RuntimeResult.failed`
unfoldable pub failed : Text → Text → RuntimeResult
failed code message = record {
  status = text "failed";
  output = none;
  events = [];
  error = some (record { code = code; message = message });
  duration_ms = pos 0;
}

-- What a handler returns: a Result, None, an object, or another value.
pub data Returned : Type 0 where
  a_result : RuntimeResult → Returned
  nothing : Returned
  an_object : Fields → Returned
  a_value : Json → Returned

unfoldable pub as_result : Returned → RuntimeResult
unfolding success
as_result (a_result r) = r
as_result nothing = success end
as_result (an_object fs) = success fs
as_result (a_value v) = success (field (text "value") v end)

unfoldable pub invalid_result : Text → RuntimeResult
unfolding failed
invalid_result message = failed (text "RESULT_INVALID") message

-- the checks of `_normalize_result`; an output that is no object is a ValueError
unfoldable pub check_success :
    RuntimeResult → Option Json → Option RuntimeHandlerError → Result RuntimeResult
unfolding invalid_result
check_success r (some (obj fs)) none = ok r
check_success r (some v) none = err invalid_value
check_success r _ _ = ok (invalid_result (text "successful Runtime result requires output only"))

unfoldable pub check_failed :
    RuntimeResult → Option Json → Option RuntimeHandlerError → RuntimeResult
unfolding invalid_result
check_failed r none (some e) = r
check_failed r _ _ = invalid_result (text "failed Runtime result requires error only")

-- `_normalize_result`
unfoldable pub normalize_result : Returned → Result RuntimeResult
unfolding check_success check_failed as_result invalid_result
normalize_result v =
    let r = as_result v in
    if r.status == text "success"
    then check_success r r.output r.error
    else if r.status == text "failed"
    then ok (check_failed r r.output r.error)
    else ok (invalid_result (text "Runtime result status is invalid"))

-- `_bounded`
unfoldable pub bounded : Text → ℕ → Text → Text
bounded value maximum fallback =
    let stripped = strip value in take maximum (if is_empty stripped then fallback else stripped)

-- `min(max(duration_ms, 0), 2_147_483_647)`
unfoldable pub clamp : ℤ → ℕ
clamp (pos n) = if leb n 2147483647 then n else 2147483647
clamp (negsuc n) = 0

-- `result.output or {}`
abbrev pub output_or_empty : Option Json → Json
output_or_empty none = obj end
output_or_empty (some v) = v

abbrev pub error_or_default : Option RuntimeHandlerError → RuntimeHandlerError
error_or_default none = record { code = text "HANDLER_ERROR"; message = text "handler failed" }
error_or_default (some e) = e

-- the part on the output or the error
unfoldable pub result_body : RuntimeResult → Fields
unfolding bounded
result_body r =
    let e = error_or_default r.error in
    if r.status == text "success"
    then field (text "output") (output_or_empty r.output) end
    else field (text "error")
        (obj (
          field (text "error_code") (str (bounded e.code 120 (text "HANDLER_ERROR"))) (
            field (text "message") (str (bounded e.message 500 (text "handler failed")))
              (field (text "retryable_hint") (bool false) end))))
        end

-- `_result_payload`
unfoldable pub result_payload : RuntimeAttemptIdentity → RuntimeResult → ℤ → Fields
unfolding result_body clamp
result_payload i r duration_ms = field (text "attempt_identity") (obj (attempt_to_dict i)) (
    field (text "status") (str r.status)
      (field (text "duration_ms") (int (pos (clamp duration_ms))) (result_body r)))

-- how the call of the handler ends
pub data Outcome : Type 0 where
  returned : Returned → Outcome
  raised : Text → Outcome
  cancelled : Outcome
  authority_invalid : Outcome

-- Whether `cancel_event` of the Attempt is set. An Attempt that is not active is over, and its context
-- is closed.
abbrev pub is_cancelled : Text → Worker → Bool
is_cancelled a w = elim (get w.active a) [ none ↦ true | some x ↦ x.cancelled ]

-- What the end of an Attempt draws: the identifiers of its Events and of its Result, the time it
-- took, the text of an exception, and whether the worker is stopped by force.
pub record Draws : Type 0 where
  pub event_id : ℕ → Text
  pub result_id : Text
  pub elapsed_ms : ℕ
  pub message : Error → Text
  pub force_cancel : Bool

module _ ⦃p : Platform⦄ (draws : Draws) where
  -- `_persist_event`
  unfoldable pub persist_event : Text → RuntimeEvent → Text → ℕ → Exec Worker (Unit {0})
  persist_event a e id now = do
    _ ← read (λ w. validate_event e.event_type e.payload)
    elim e.payload [
      | obj fs ↦ do
        _ ← on_store (store.append_event memory_ready a e.event_type fs id now now)
        pure tt
      | _ ↦ raise invalid_value
    ]

  -- `RuntimeContext.emit`
  unfoldable pub emit : Text → RuntimeEvent → Text → ℕ → Exec Worker (Unit {0})
  emit a e id now = do
    stopped ← read (λ w. ok (is_cancelled a w || draws.force_cancel))
    if stopped then raise task_cancelled else persist_event a e id now

  -- the loop on the Events of the Result
  unfoldable pub persist_events : Text → List RuntimeEvent → ℕ → ℕ → Exec Worker (Unit {0})
  persist_events a [] n now = pure tt
  persist_events a (e ∷ es) n now = do
    _ ← persist_event a e (draws.event_id n) now
    persist_events a es (n + 1) now

  unfoldable pub handler_error : Text → RuntimeResult
  unfolding failed bounded
  handler_error message =
      failed (text "HANDLER_ERROR") (bounded message 500 (text "handler failed"))

  -- `except Exception as exc`
  unfoldable pub catching_failure : Exec Worker RuntimeResult → Exec Worker RuntimeResult
  catching_failure m w =
      let (q, w') = m w in
      (elim q [ ok r ↦ ok r | err e ↦ ok (handler_error (draws.message e)) ], w')

  -- the Result of an outcome
  unfoldable pub outcome_result : Text → Outcome → ℕ → Exec Worker RuntimeResult
  outcome_result a (returned v) now =
      catching_failure
        do r ← read (λ w. normalize_result v); _ ← persist_events a r.events 0 now; pure r
  outcome_result a (raised message) now = pure (handler_error message)
  outcome_result a cancelled now =
      pure
        (failed (text "HANDLER_CANCELLED") (text "handler stopped without a Runtime cancellation"))
  outcome_result a authority_invalid now = pure (
      failed (text "ASSIGNMENT_AUTHORITY_INVALID") (text "assignment Runtime authority is invalid"))

  -- the end of `_execute_attempt`, once it holds the lock of the Attempt
  unfoldable pub keep_result : AssignmentRecord → RuntimeResult → ℕ → Exec Worker (Unit {0})
  keep_result r result now = do
    let a = attempt_id_of r
    stopped ← read (λ w. ok (is_cancelled a w || draws.force_cancel))
    if stopped then pure tt else do
      let duration =
          if result.duration_ms == pos 0 then pos draws.elapsed_ms else result.duration_ms
      _ ← on_store (
          store.store_result memory_ready a (result_payload r.identity.attempt result duration)
            draws.result_id now now)
      change (allow_spool a)

  -- `_execute_attempt`, from the end of the handler's call
  unfoldable pub finish_attempt :
      Meanwhile → AssignmentRecord → Outcome → ℕ → Exec Worker (Unit {0})
  finish_attempt meanwhile r outcome now = do
    let a = attempt_id_of r
    result ← outcome_result a outcome now
    stopped ← read (λ w. ok (is_cancelled a w || draws.force_cancel))
    if stopped
        then pure tt
        else do _ ← await (meanwhile (for_lock a)) (ok tt); keep_result r result now
