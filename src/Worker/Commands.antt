-- ===== src/Worker/Commands.antt =====
-- The commands of the platform in src/openlinker/runtime/worker.py: `_handle_command`,
-- `_handle_cancel`, `_ack_cancel`, and one turn of `_renew_lease_loop`. What a call of the platform comes
-- to is an argument.
use openlinker_python.Prelude.{
  ℕ, Bool, true, false, not, ◌&&◌, ◌||◌, List, [], ◌∷◌, Text, text, text_eq, Option, none, some,
  ◌==◌, if◌then◌else◌, leb, is_some,
}
use openlinker_python.Dict.{get}
use openlinker_python.Json.{Json, null, str, obj, Fields, field_or, json_beq}
use openlinker_python.Json.Convert.{str_of}
use openlinker_python.Platform.{Platform}
use openlinker_python.Errors.{
  Result, ok, err, bad_value, identity_mismatch, require, recast, ◌>>◌ as then_ok,
  ◌>>=◌ as and_then,
}
use openlinker_python.Exec.{Exec, pure, raise, read}
use openlinker_python.Worker.Run.{◌>>=◌}
use openlinker_python.Types.Identity.{RuntimeAttemptIdentity, attempt_beq, attempt_from_dict, item}
use openlinker_python.Types.Time.{parse_datetime}
use openlinker_python.Types.Runs.{validate_runtime_drain_payload}
use openlinker_python.Store.Records.{AssignmentRecord, attempt_id_of, message_id_of}
use openlinker_python.Store.Memory.{memory_ready}
use openlinker_python.Store.Methods as store
use openlinker_python.Worker.Flush.{require_response_keys}
use openlinker_python.Worker.Answers.{
  protocol_object, canonical_protocol_uuid, is_reason_code, validate_dispatch_state,
  validate_run_status, validate_renewal,
}
use openlinker_python.Worker.Assign.{ends_assignment}
use openlinker_python.Worker.Attempts.{
  Worker, change, add_terminal, cancel_active, forget_permissions, set_lease, await, is_not_found,
  finalize_when_free, revoke_when_free, Meanwhile, for_answer,
}

abbrev pub key_beq : Text × Text → Text × Text → Bool
key_beq (a, b) (c, d) = a == c && b == d

-- `key in self._cancellations`
unfoldable pub has_key : List (Text × Text) → Text × Text → Bool
has_key [] key = false
has_key (k ∷ ks) key = key_beq k key || has_key ks key

-- `self._cancellations.discard(key)`
unfoldable pub discard_key : Text × Text → List (Text × Text) → List (Text × Text)
discard_key key [] = []
discard_key key (k ∷ ks) = let rest = discard_key key ks in if key_beq k key then rest else k ∷ rest

-- A valid payload of `run.cancel`.
pub record Cancellation : Type 0 where
  pub cancellation_id : Text
  pub identity : RuntimeAttemptIdentity
  pub deadline : ℕ

abbrev pub cancellation_key : Cancellation → Text × Text
cancellation_key c = (c.cancellation_id, c.identity.attempt_id)

module _ ⦃p : Platform⦄ where
  -- the checks of `_handle_command` on the payload of `run.cancel`
  unfoldable pub check_cancel : Fields → Result Cancellation
  check_cancel payload =
      and_then
        (require_response_keys (obj payload)
          (text "cancellation_id"
            ∷ text "attempt_identity"
            ∷ text "reason_code"
            ∷ text "deadline_at"
            ∷ [])
          [])
        (λ fs.
          let id = str_of (field_or fs (text "cancellation_id") (str [])) in
          then_ok (canonical_protocol_uuid id) (
            and_then (item fs (text "reason_code")) (λ reason.
              then_ok (require (is_reason_code reason) bad_value) (
                and_then (item fs (text "deadline_at")) (λ raw_deadline.
                  and_then (recast bad_value (parse_datetime raw_deadline)) (λ deadline.
                    and_then (protocol_object (field_or fs (text "attempt_identity") null)) (λ raw.
                      and_then (attempt_from_dict (obj raw)) (λ identity. ok (record {
                        cancellation_id = id;
                        identity = identity;
                        deadline = deadline;
                      })))))))))

  -- the checks on the payload of `run.lease.revoked`
  unfoldable pub check_revocation : Fields → Result RuntimeAttemptIdentity
  check_revocation payload =
      and_then
        (require_response_keys (obj payload)
          (text "attempt_identity"
            ∷ text "reason_code"
            ∷ text "dispatch_state"
            ∷ text "run_status"
            ∷ [])
          [])
        (λ fs. and_then (item fs (text "reason_code")) (λ reason.
          then_ok (require (is_reason_code reason) bad_value) (
            and_then (item fs (text "dispatch_state")) (λ dispatch_state.
              then_ok (validate_dispatch_state dispatch_state) (
                and_then (item fs (text "run_status")) (λ run_status.
                  then_ok (validate_run_status run_status) (
                    and_then (protocol_object (field_or fs (text "attempt_identity") null))
                      (λ raw. attempt_from_dict (obj raw)))))))))

  -- the end of `_handle_command` for `run.lease.revoked`
  unfoldable pub revoke_lease : Meanwhile → RuntimeAttemptIdentity → ℕ → Exec Worker (Unit {0})
  revoke_lease meanwhile i now = do
    found ← read (λ w. ok (store.assignment_for_attempt memory_ready i.attempt_id w.store))
    elim found [
      | err e ↦ if is_not_found e then pure tt else raise e
      | ok r ↦
          if attempt_beq r.identity.attempt i then revoke_when_free meanwhile r now else pure tt
    ]

  -- the branches of `_handle_command`
  unfoldable pub run_command : Meanwhile → Text → Fields → ℕ → Exec Worker (Option Cancellation)
  run_command meanwhile kind payload now =
      if kind == text "run.cancel"
      then (do
        c ← read (λ w. check_cancel payload)
        known ← read (λ w. ok (has_key w.cancellations (cancellation_key c)))
        if known then pure none else do
          _ ← change (λ w. record w { cancellations = cancellation_key c ∷ w.cancellations })
          pure (some c))
      else if kind == text "runtime.drain"
      then (do
        _ ← read (λ w. validate_runtime_drain_payload (obj payload))
        _ ← change (λ w. record w { draining = true })
        pure none)
      else if kind == text "run.lease.revoked"
      then (do
        i ← read (λ w. check_revocation payload)
        _ ← revoke_lease meanwhile i now
        pure none)
      else raise bad_value

  -- `_handle_command`: the cancellation whose task is spawned, if any
  unfoldable pub handle_command : Meanwhile → Fields → ℕ → Exec Worker (Option Cancellation)
  handle_command meanwhile command now = do
    payload ← read (λ w. protocol_object (field_or command (text "payload") null))
    run_command meanwhile (str_of (field_or command (text "type") (str []))) payload now

  -- the checks of `_ack_cancel` on the response
  unfoldable pub validate_cancel_ack : Json → Text → Text → Result (Unit {0})
  validate_cancel_ack response cancellation_id state = and_then (protocol_object response) (λ fs.
      then_ok
        (require (json_beq (field_or fs (text "cancellation_id") null) (str cancellation_id))
          identity_mismatch)
        (and_then
          (require_response_keys response
            (text "cancellation_id" ∷ text "cancel_state" ∷ text "updated_at" ∷ [])
            (text "error_code" ∷ []))
          (λ gs. and_then (item gs (text "cancel_state")) (λ cancel_state.
            then_ok (require (json_beq cancel_state (str state)) bad_value) (
              and_then (item gs (text "updated_at"))
                (λ updated_at. and_then (parse_datetime updated_at) (λ time. ok tt)))))))

  -- `_ack_cancel_best_effort`: whether the platform took the state
  unfoldable pub ack_cancel_best_effort :
      (Text → Text → Result Json) → Cancellation → Text → Text → Bool
  ack_cancel_best_effort send c state code =
      elim (and_then (send state code) (λ v. validate_cancel_ack v c.cancellation_id state)) [
        | ok done ↦ true
        | err e ↦ false
      ]

  -- `_handle_cancel` up to its `finally`. `handler_stopped` is whether the task of an active Attempt
  -- ended before the deadline. The answers to the other states change nothing. It says whether the cancellation was taken as stopped.
  unfoldable pub cancel_attempt :
      Cancellation
      → (Text → Text → Result Json)
      → Meanwhile
      → (handler_stopped : Bool) → ℕ
      → Exec Worker Bool
  cancel_attempt c send meanwhile handler_stopped now = do
    let a = c.identity.attempt_id
    found ← read (λ w. ok (store.assignment_for_attempt memory_ready a w.store))
    elim found [
      | err e ↦ if is_not_found e then await (meanwhile for_answer) (ok false) else raise e
      | ok r ↦
          if not (attempt_beq r.identity.attempt c.identity)
          then await (meanwhile for_answer) (ok false)
          else (do
            _ ← change (λ w. forget_permissions a (cancel_active a (add_terminal a w)))
            running ← read (λ w. ok (is_some (get w.active a)))
            _ ← await (meanwhile for_answer) (ok tt)
            if (not running || handler_stopped) && ack_cancel_best_effort send c (text "stopped") []
                then (do _ ← finalize_when_free meanwhile r now; pure true)
                else pure false)
    ]

  -- `_handle_cancel`
  unfoldable pub handle_cancel :
      Cancellation → (Text → Text → Result Json) → Meanwhile → Bool → ℕ → Exec Worker Bool
  handle_cancel c send meanwhile handler_stopped now w =
      let (q, w') = cancel_attempt c send meanwhile handler_stopped now w in
      (q, record w' { cancellations = discard_key (cancellation_key c) w'.cancellations })

  -- the lease of an Attempt is over
  abbrev lease_over : Text → ℕ → Worker → Bool
  lease_over a now w = elim (get w.active a) [
    | none ↦ false
    | some x ↦ elim x.lease_expires_at [ none ↦ false | some t ↦ leb t now ]
  ]

  -- one turn of `_renew_lease_loop`, up to a failure that it retries: what is done with the answer
  unfoldable pub renew_lease :
      AssignmentRecord → Meanwhile → Result Json → ℕ → Exec Worker (Option Cancellation)
  renew_lease r meanwhile answer now = do
    let a = attempt_id_of r
    over ← read (λ w. ok (lease_over a now w))
    if over then (do _ ← revoke_when_free meanwhile r now; pure none) else do
      current ← read (λ w. store.assignment memory_ready (message_id_of r) w.store)
      _ ← await (meanwhile for_answer) (ok tt)
      elim answer [
        | err e ↦
            if ends_assignment e
            then (do _ ← revoke_when_free meanwhile r now; pure none)
            else raise e
        | ok value ↦ do
          renewed ← read (λ w. validate_renewal current.identity.attempt value now)
          _ ← change (set_lease a (some renewed.0))
          elim renewed.1 [
            | none ↦ pure none
            | some command ↦ do
              fs ← read (λ w. protocol_object command)
              handle_command meanwhile fs now
          ]
      ]
