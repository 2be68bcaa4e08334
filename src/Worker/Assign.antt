-- ===== src/Worker/Assign.antt =====
-- How a worker of src/openlinker/runtime/worker.py takes an assignment: `_handle_assignment`,
-- `_reject_assignment`, `_retry_assignment_operation`, `_converge_assignment_terminal_error`. What a
-- call of the platform comes to after its retries is an argument, `answer`, and what the other tasks
-- do to the worker while it is awaited is another, `meanwhile`.
use openlinker_python.Prelude.{
  ℕ, Bool, true, false, not, ◌&&◌, ◌||◌, List, [], ◌∷◌, Text, text, text_eq, nat_eq, Option, none,
  some, ◌==◌, if◌then◌else◌, contains, leb, pos,
}
use openlinker_python.Json.{Json}
use openlinker_python.Platform.{Platform}
use openlinker_python.Errors.{Error, Result, ok, err, remote, identity_mismatch}
use openlinker_python.Exec.{Exec, pure, raise, read, checked}
use openlinker_python.Worker.Run.{◌>>=◌}
use openlinker_python.Types.Identity.{RuntimeAttemptIdentity, attempt_beq}
use openlinker_python.Types.Messages.{RuntimeAssignment}
use openlinker_python.Store.State.{
  received, ack_sent, confirmed, started, finished, reject_sent, rejected, state_eq,
}
use openlinker_python.Store.Records.{AssignmentRecord, LocalAttemptIdentity, message_id_of}
use openlinker_python.Store.Memory.{memory_ready}
use openlinker_python.Store.Methods as store
use openlinker_python.Worker.Answers.{validate_confirmation, validate_rejection}
use openlinker_python.Worker.Attempts.{
  Worker, on_store, change, add_terminal, allow_spool, set_lease, await, is_not_found,
  capacity_snapshot, local_identity, start_confirmed_attempt, revoke_when_free, Meanwhile,
  for_answer,
}

-- `_LEASE_TERMINAL_CODES`
unfoldable pub lease_terminal_codes : List Text
lease_terminal_codes = text "STALE_LEASE" ∷ text "LEASE_EXPIRED" ∷ text "RUN_ALREADY_TERMINAL" ∷ []

-- `_ASSIGNMENT_TERMINAL_CODES`
unfoldable pub ends_assignment : Error → Bool
ends_assignment (remote code missing) =
    contains lease_terminal_codes code || code == text "RUN_CANCEL_REQUESTED"
ends_assignment _ = false

-- the record that `_handle_assignment` makes of an assignment
unfoldable pub new_record : LocalAttemptIdentity → RuntimeAssignment → ℕ → AssignmentRecord
new_record local a now = record {
  identity = local;
  input = a.input;
  metadata = a.metadata;
  node_envelope = a.node_envelope;
  agent_invocation_token = a.agent_invocation_token;
  offer_expires_at = a.offer_expires_at;
  attempt_deadline_at = a.attempt_deadline_at;
  run_deadline_at = a.run_deadline_at;
  state = received;
  last_client_event_seq = 0;
  acked_client_event_seq = 0;
  acked_out_of_order_event_seqs = [];
  result_id = [];
  final_client_event_seq = pos 0;
  updated_at = now;
}

-- no room: `capacity == 0 or inflight >= capacity`
abbrev pub is_full : ℕ × ℕ → Bool
is_full (capacity, inflight) = capacity == 0 || leb capacity inflight

abbrev pub is_terminal_attempt : Text → Exec Worker Bool
is_terminal_attempt a = read (λ w. ok (contains w.terminal_attempts a))

module _ ⦃p : Platform⦄ where
  -- `_converge_assignment_terminal_error`
  unfoldable pub converge_assignment_terminal_error :
      Meanwhile → RuntimeAttemptIdentity → Error → ℕ → Exec Worker Bool
  converge_assignment_terminal_error meanwhile i error now =
      if not (ends_assignment error) then pure false else do
        found ← read (λ w. ok (store.assignment_for_attempt memory_ready i.attempt_id w.store))
        elim found [
          | err e ↦
              if is_not_found e
              then (do _ ← change (add_terminal i.attempt_id); pure true)
              else raise e
          | ok r ↦
              checked (attempt_beq r.identity.attempt i) identity_mismatch
                do _ ← revoke_when_free meanwhile r now; pure true
        ]

  -- `_retry_assignment_operation`: `none` where the Attempt is terminal
  unfoldable pub retry_assignment_operation :
      RuntimeAttemptIdentity → Meanwhile → Result Json → ℕ → Exec Worker (Option Json)
  retry_assignment_operation i meanwhile answer now = do
    over ← is_terminal_attempt i.attempt_id
    if over then pure none else do
      _ ← await (meanwhile for_answer) (ok tt)
      elim answer [
        | err e ↦ do
          converged ← converge_assignment_terminal_error meanwhile i e now
          if converged then pure none else raise e
        | ok value ↦ do
          over_now ← is_terminal_attempt i.attempt_id
          if over_now then pure none else pure (some value)
      ]

  -- `_reject_assignment`
  unfoldable pub reject_assignment :
      AssignmentRecord → Meanwhile → Result Json → ℕ → Exec Worker (Unit {0})
  reject_assignment r meanwhile answer now = do
    r' ←
        if r.state == received
        then on_store (store.advance_assignment memory_ready (message_id_of r) reject_sent now)
        else pure r
    response ← retry_assignment_operation r'.identity.attempt meanwhile answer now
    elim response [
      | none ↦ pure tt
      | some value ↦ do
        _ ← read (λ w. validate_rejection r'.identity.attempt value)
        _ ← on_store (store.advance_assignment memory_ready (message_id_of r') rejected now)
        on_store (store.delete_assignment memory_ready (message_id_of r'))
    ]

  -- the part of `_handle_assignment` for an acknowledgement that is still to be confirmed
  unfoldable pub confirm_assignment :
      RuntimeAttemptIdentity
      → AssignmentRecord
      → Meanwhile
      → Result Json
      → ℕ
      → Exec Worker (Unit {0})
  confirm_assignment i r meanwhile answer now = do
    response ← retry_assignment_operation i meanwhile answer now
    elim response [
      | none ↦ pure tt
      | some value ↦ do
        lease ← read (λ w. validate_confirmation i value now)
        over ← is_terminal_attempt i.attempt_id
        if over then pure tt else do
          r' ← on_store (store.advance_assignment memory_ready (message_id_of r) confirmed now)
          _ ← change (allow_spool i.attempt_id)
          start_confirmed_attempt r' (some lease) now
    ]

  -- its part for an Attempt that was started before
  unfoldable pub renew_assignment :
      RuntimeAttemptIdentity → Meanwhile → Result Json → ℕ → Exec Worker (Unit {0})
  renew_assignment i meanwhile answer now = do
    response ← retry_assignment_operation i meanwhile answer now
    elim response [
      | none ↦ pure tt
      | some value ↦ do
        lease ← read (λ w. validate_confirmation i value now)
        change (set_lease i.attempt_id (some lease))
    ]

  -- `_handle_assignment`
  unfoldable pub handle_assignment :
      RuntimeAssignment → Meanwhile → Result Json → ℕ → Exec Worker (Unit {0})
  handle_assignment a meanwhile answer now = do
    let i = a.attempt_identity
    over ← is_terminal_attempt i.attempt_id
    if over then pure tt else do
      local ← read (local_identity i)
      r ← on_store (store.create_assignment memory_ready (new_record local a now) now)
      snapshot ← read (λ w. ok (capacity_snapshot w))
      if r.state == received && is_full snapshot
          then reject_assignment r meanwhile answer now
          else do
            r' ←
                if r.state == received
                then on_store
                    (store.advance_assignment memory_ready local.assignment_message_id ack_sent now)
                else pure r
            if r'.state == ack_sent
                then confirm_assignment i r' meanwhile answer now
                else if r'.state == confirmed
                then (do _ ← change (allow_spool i.attempt_id); start_confirmed_attempt r' none now)
                else if r'.state == started || r'.state == finished
                then renew_assignment i meanwhile answer now
                else pure tt
