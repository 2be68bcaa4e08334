-- ===== src/Worker/Attempts.antt =====
-- `RuntimeWorker` of src/openlinker/runtime/worker.py: what it keeps of its Attempts beside the store,
-- and the methods that start, revoke and clear one. What the other tasks do while a
-- method waits for the lock of an Attempt is an argument. `now` is the time that the store draws.
pub mod Revoke
pub mod Gone
use openlinker_python.Prelude.{
  ℕ, Bool, true, false, not, ◌&&◌, ◌||◌, List, [], ◌∷◌, Text, text_eq, nat_eq, Option, none, some,
  ◌==◌, if◌then◌else◌, length, contains, leb, is_some,
}
use openlinker_python.Dict.{Dict, get, set_item, pop}
use openlinker_python.Platform.{Platform}
use openlinker_python.Errors.{
  Error, Result, ok, err, assignment_not_found, handler_needs_confirmed, result_not_durable,
  identity_mismatch,
}
use openlinker_python.Exec.{Exec, pure, raise, read, checked}
use openlinker_python.Worker.Run.{◌>>=◌}
use openlinker_python.Types.Identity.{RuntimeAttemptIdentity}
use openlinker_python.Store.State.{
  confirmed, started, result_acked, revoked as was_revoked, state_eq, is_terminal,
}
use openlinker_python.Store.Records.{
  EventRecord, AssignmentRecord, LocalAttemptIdentity, from_attempt, attempt_id_of, message_id_of,
}
use openlinker_python.Store.Memory.{MemoryStore, memory_ready, accepts_new_runs}
use openlinker_python.Store.Methods as store

-- `_ActiveAttempt`: whether `cancel_event` is set, and `lease_expires_at`
pub record ActiveAttempt : Type 0 where
  pub assignment : AssignmentRecord
  pub cancelled : Bool
  pub lease_expires_at : Option ℕ

pub record Worker : Type 0 where
  pub store : MemoryStore
  pub node_id : Text
  pub agent_id : Text
  pub capacity : ℕ
  pub draining : Bool
  pub active : Dict Text ActiveAttempt
  pub terminal_attempts : List Text
  -- whether the Events and the Result of an Attempt may be sent
  pub spool_permissions : Dict Text (Bool × Bool)
  -- the cancellations that are under way, each with its Attempt
  pub cancellations : List (Text × Text)

-- A method of the store.
abbrev pub on_store : {A : Type 0} → Exec MemoryStore A → Exec Worker A
on_store m w = let (r, s) = m w.store in (r, record w { store = s })

abbrev pub change : (Worker → Worker) → Exec Worker (Unit {0})
change f w = (ok tt, f w)

-- `self._terminal_attempts.add(attempt_id)`
abbrev pub add_terminal : Text → Worker → Worker
add_terminal a w = record w {
  terminal_attempts =
      if contains w.terminal_attempts a then w.terminal_attempts else a ∷ w.terminal_attempts;
}

abbrev pub cancel_active : Text → Worker → Worker
cancel_active a w = elim (get w.active a) [
  | none ↦ w
  | some x ↦ record w { active = set_item w.active a (record x { cancelled = true }) }
]

-- `_remove_active_attempt`
unfoldable pub remove_active_attempt : Text → Worker → Worker
remove_active_attempt a w = record w { active = pop w.active a }

-- What a task waits for: the lock of an Attempt, to revoke it or for another end, the answer to an
-- Event or to an Event that is sent again, the one to the Result of an Attempt, the first and the
-- second time, or that to another request.
pub data Wait : Type 0 where
  for_lock for_revocation : Text → Wait
  for_event for_event_again : EventRecord → Wait
  for_result for_result_again : Text → Wait
  for_answer : Wait

-- what the other tasks do during each of these
abbrev pub Meanwhile : Type 0
Meanwhile = Wait → Worker → Worker

-- Where a task waits, the others go on: what they do to the worker comes before the answer.
abbrev pub await : {A : Type 0} → (Worker → Worker) → Result A → Exec Worker A
await meanwhile answer w = (answer, meanwhile w)

abbrev pub set_lease : Text → Option ℕ → Worker → Worker
set_lease a lease w = elim (get w.active a) [
  | none ↦ w
  | some x ↦ record w { active = set_item w.active a (record x { lease_expires_at = lease }) }
]

abbrev pub forget_permissions : Text → Worker → Worker
forget_permissions a w = record w { spool_permissions = pop w.spool_permissions a }

abbrev pub allow_spool : Text → Worker → Worker
allow_spool a w = record w { spool_permissions = set_item w.spool_permissions a (true, true) }

-- `_capacity_snapshot`
unfoldable pub capacity_snapshot : Worker → ℕ × ℕ
capacity_snapshot w =
    (if not w.draining && accepts_new_runs w.store then w.capacity else 0, length w.active)

-- `str(exc) == "assignment not found"`
unfoldable pub is_not_found : Error → Bool
is_not_found assignment_not_found = true
is_not_found _ = false

module _ ⦃p : Platform⦄ where
  -- `_local_identity`
  unfoldable pub local_identity : RuntimeAttemptIdentity → Worker → Result LocalAttemptIdentity
  local_identity i w =
      let current = w.store.identity in
      if i.node_id == w.node_id
        && i.agent_id == w.agent_id
        && i.worker_id == current.worker_id
        && i.runtime_session_id == current.runtime_session_id
      then ok (from_attempt i current.session_epoch)
      else err identity_mismatch

  -- `_start_confirmed_attempt`, up to the two tasks that it spawns
  unfoldable pub start_confirmed_attempt : AssignmentRecord → Option ℕ → ℕ → Exec Worker (Unit {0})
  start_confirmed_attempt r lease now = do
    let a = attempt_id_of r
    known ← read (λ w. ok (is_some (get w.active a) || contains w.terminal_attempts a))
    if known
        then pure tt
        else checked (r.state == confirmed) handler_needs_confirmed do
          r' ← on_store (store.advance_assignment memory_ready (message_id_of r) started now)
          change (λ w. record w {
            active =
                set_item w.active a
                  (record { assignment = r'; cancelled = false; lease_expires_at = lease });
          })

  -- `_finalize_revoked_attempt`, once it holds the lock of the Attempt
  unfoldable pub finalize_revoked_attempt : AssignmentRecord → ℕ → Exec Worker (Unit {0})
  finalize_revoked_attempt r now = do
    let a = attempt_id_of r
    _ ← change (forget_permissions a)
    found ← read (λ w. ok (store.assignment memory_ready (message_id_of r) w.store))
    elim found [
      | err e ↦ if is_not_found e then change (remove_active_attempt a) else raise e
      | ok current ↦ do
        _ ←
            if is_terminal current.state
            then pure current
            else on_store
                (store.advance_assignment memory_ready (message_id_of current) was_revoked now)
        _ ← on_store (store.discard_terminal_spool memory_ready a)
        _ ← on_store (store.delete_assignment memory_ready (message_id_of current))
        change (remove_active_attempt a)
    ]

  -- `_revoke_attempt`, where the lock of the Attempt is free
  unfoldable pub revoke_attempt : AssignmentRecord → ℕ → Exec Worker (Unit {0})
  revoke_attempt r now = do
    _ ← change (λ w. cancel_active (attempt_id_of r) (add_terminal (attempt_id_of r) w))
    finalize_revoked_attempt r now

  -- `_finalize_revoked_attempt`, where it may wait for the lock of the Attempt
  unfoldable pub finalize_when_free : Meanwhile → AssignmentRecord → ℕ → Exec Worker (Unit {0})
  finalize_when_free meanwhile r now = do
    _ ← await (meanwhile (for_revocation (attempt_id_of r))) (ok tt)
    finalize_revoked_attempt r now

  -- `_revoke_attempt`, where it may wait for the lock
  unfoldable pub revoke_when_free : Meanwhile → AssignmentRecord → ℕ → Exec Worker (Unit {0})
  revoke_when_free meanwhile r now = do
    _ ← change (λ w. cancel_active (attempt_id_of r) (add_terminal (attempt_id_of r) w))
    finalize_when_free meanwhile r now

  -- `_clear_from_resume`
  unfoldable pub clear_from_resume :
      Meanwhile → AssignmentRecord → Bool → ℕ → Exec Worker (Unit {0})
  clear_from_resume meanwhile r revoked now =
      let a = attempt_id_of r in
      let clear : Exec Worker (Unit {0}) = do
        _ ← change (cancel_active a)
        _ ← await (meanwhile (for_lock a)) (ok tt)
        found ← read (λ w. store.pending_result memory_ready a w.store)
        current ← elim found [
          | none ↦ pure r
          | some x ↦ do
            _ ← on_store (store.ack_result memory_ready a x.result_id now)
            read (λ w. store.assignment memory_ready (message_id_of r) w.store)
        ]
        checked (current.state == result_acked) result_not_durable do
          _ ← on_store (store.clear_terminal_events memory_ready a)
          _ ← on_store (store.delete_assignment memory_ready (message_id_of current))
          change (λ w. forget_permissions a (remove_active_attempt a w))
      in if revoked then revoke_when_free meanwhile r now else clear
