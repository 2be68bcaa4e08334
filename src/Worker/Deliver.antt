-- ===== src/Worker/Deliver.antt =====
-- The sending of what is spooled in src/openlinker/runtime/worker.py: `_flush_attempt_spool` with its
-- one repair of missing Events, and `_flush_spool`. What the platform answers to each request is an
-- argument, and so is what the other tasks do during each wait: the lock of an Attempt keeps away only
-- those that take it, and no Event that its handler emits.
pub mod Settles
mod Examples
use openlinker_python.Prelude.{
  ℕ, Bool, true, false, not, ◌&&◌, ◌||◌, List, [], ◌∷◌, Text, text, text_eq, Option, none, some,
  ◌==◌, if◌then◌else◌,
}
use openlinker_python.Text.{is_empty}
use openlinker_python.Dict.{get}
use openlinker_python.Json.{Json}
use openlinker_python.Platform.{Platform}
use openlinker_python.Errors.{Error, Result, ok, err, remote}
use openlinker_python.Exec.{Exec, pure, raise, read, checked}
use openlinker_python.Worker.Run.{◌>>=◌}
use openlinker_python.Store.Records.{
  AssignmentRecord, EventRecord, ResultRecord, attempt_id_of, message_id_of,
}
use openlinker_python.Store.Memory.{memory_ready}
use openlinker_python.Store.Methods as store
use openlinker_python.Worker.Flush.{validate_event_ack}
use openlinker_python.Worker.Answers.{validate_result_ack}
use openlinker_python.Worker.Assign.{ends_assignment}
use openlinker_python.Worker.Attempts.{
  Worker, on_store, change, forget_permissions, remove_active_attempt, revoke_when_free, await,
  Meanwhile, Wait, for_lock, for_event, for_event_again, for_result, for_result_again,
}

-- What the platform answers: to each Event, to the Result, to each Event that is sent again, and to
-- the Result after that.
pub record Answers : Type 0 where
  pub event : EventRecord → Result Json
  pub result : Result Json
  pub event_again : EventRecord → Result Json
  pub result_again : Result Json

-- the ranges to repair: of `EVENTS_MISSING`, where it names any
unfoldable pub missing_ranges : Error → Option (List (ℕ × ℕ))
missing_ranges (remote code missing) =
    if code == text "EVENTS_MISSING" && not (is_empty missing) then some missing else none
missing_ranges _ = none

module _ ⦃p : Platform⦄ (send : EventRecord → Result Json)
    (waits : EventRecord → Worker → Worker) where
  -- a turn of the loops on Events
  unfoldable pub deliver_event : Text → EventRecord → ℕ → Exec Worker (Unit {0})
  deliver_event a e now = do
    ack ← await (waits e) (send e)
    _ ← read (λ w. validate_event_ack ack e.client_event_id e.client_event_seq)
    on_store (store.ack_event memory_ready a e.client_event_id e.client_event_seq now)

  unfoldable pub deliver_events : Text → List EventRecord → ℕ → Exec Worker (Unit {0})
  deliver_events a [] now = pure tt
  deliver_events a (e ∷ es) now = do _ ← deliver_event a e now; deliver_events a es now

  -- the first part of `_flush_attempt_spool`, where Events are allowed
  unfoldable pub flush_pending : Text → ℕ → Exec Worker (Unit {0})
  flush_pending a now = do
    es ← read (λ w. store.pending_events memory_ready a w.store)
    deliver_events a es now

  -- `_replay_events`
  unfoldable pub replay_ranges : Text → List (ℕ × ℕ) → ℕ → Exec Worker (Unit {0})
  replay_ranges a ranges now = do
    es ← read (λ w. store.events_in_ranges memory_ready a ranges w.store)
    deliver_events a es now

module _ ⦃p : Platform⦄ (meanwhile : Meanwhile) (answers : Answers) where
  -- the loop on `send_result`, which repairs once
  unfoldable pub send_result : Text → ℕ → Exec Worker Json
  send_result a now = do
    _ ← await (meanwhile (for_result a)) (ok tt)
    elim answers.result [
      | ok ack ↦ pure ack
      | err e ↦ elim (missing_ranges e) [
        | none ↦ raise e
        | some ranges ↦ do
          _ ← replay_ranges answers.event_again (λ x. meanwhile (for_event_again x)) a ranges now
          await (meanwhile (for_result_again a)) answers.result_again
      ]
    ]

  -- what follows once the Result is sent
  unfoldable pub settle : AssignmentRecord → ResultRecord → ℕ → Exec Worker (Unit {0})
  settle r x now = do
    let a = attempt_id_of r
    ack ← send_result a now
    _ ← read (λ w. validate_result_ack ack x.result_id)
    _ ← on_store (store.ack_result memory_ready a x.result_id now)
    _ ← on_store (store.clear_terminal_events memory_ready a)
    _ ← on_store (store.delete_assignment memory_ready (message_id_of r))
    change (λ w. remove_active_attempt a (forget_permissions a w))

  -- the part on the Result
  unfoldable pub flush_result : AssignmentRecord → ℕ → Exec Worker (Unit {0})
  flush_result r now = do
    left ← read (λ w. store.pending_events memory_ready (attempt_id_of r) w.store)
    if not (is_empty left) then pure tt else do
      found ← read (λ w. store.pending_result memory_ready (attempt_id_of r) w.store)
      elim found [ none ↦ pure tt | some x ↦ settle r x now ]

  -- `_flush_attempt_spool`
  unfoldable pub flush_attempt_spool : AssignmentRecord → ℕ → Exec Worker (Unit {0})
  flush_attempt_spool r now = do
    permission ← read (λ w. ok (get w.spool_permissions (attempt_id_of r)))
    elim permission [
      | none ↦ pure tt
      | some (events_allowed, result_allowed) ↦ do
        _ ←
            if events_allowed
            then flush_pending answers.event (λ x. meanwhile (for_event x)) (attempt_id_of r) now
            else pure tt
        if result_allowed then flush_result r now else pure tt
    ]

-- `except RuntimeRemoteError`: whether the method ended with the end of a lease
unfoldable pub catching_terminal : Exec Worker (Unit {0}) → Exec Worker Bool
catching_terminal m w =
    let (q, w') = m w in
    (
      elim q [
        | ok done ↦ ok false
        | err e ↦ elim (ends_assignment e) [ true ↦ ok true | false ↦ err e ]
      ],
      w',
    )

module _ ⦃p : Platform⦄ (meanwhile : Meanwhile) (answers : Text → Answers) where
  -- the loop of `_flush_spool`, with the answers for each Attempt
  unfoldable pub flush_each : List AssignmentRecord → ℕ → Exec Worker (Unit {0})
  flush_each [] now = pure tt
  flush_each (r ∷ rs) now = do
    _ ← await (meanwhile (for_lock (attempt_id_of r))) (ok tt)
    ended ← catching_terminal (flush_attempt_spool meanwhile (answers (attempt_id_of r)) r now)
    _ ← if ended then revoke_when_free meanwhile r now else pure tt
    flush_each rs now

  -- `_flush_spool`
  unfoldable pub flush_spool : ℕ → Exec Worker (Unit {0})
  flush_spool now = do
    rs ← read (λ w. store.all_assignments memory_ready w.store)
    flush_each rs now
