-- ===== src/Worker/Attempts/Revoke.antt =====
-- What `_revoke_attempt` of src/openlinker/runtime/worker.py leaves of an Attempt.
use openlinker_python.Prelude.{
  ℕ, ◌≡◌, refl, ap, true, false, [], text_eq, nat_eq, none, some, contains, arith,
}
use mathlib.Core.Path.{subst}
use openlinker_python.Dict.{get, pop, get-set_item, get-pop}
use openlinker_python.Platform.{Platform}
use openlinker_python.Errors.{ok}
use openlinker_python.Exec.{Exec, ◌>>=◌}
use openlinker_python.Store.State.{State, revoked, state_eq, is_terminal, transitions}
use openlinker_python.Store.Records.{AssignmentRecord, attempt_id_of, message_id_of}
use openlinker_python.Store.Lookups.{copy_assignment_valid}
use openlinker_python.Store.Memory.{MemoryStore, memory_ready, put_assignment, events_of}
use openlinker_python.Store.Methods as store
use openlinker_python.Store.Invariant.{IsConsistent}
use openlinker_python.Store.Preserves.Assignments.{
  advance_assignment-IsConsistent, delete_assignment-IsConsistent,
}
use openlinker_python.Store.Preserves.Results.{discard_terminal_spool-IsConsistent}

-- An assignment that a store holds, while it is open.
pub record Holds ⦃p : Platform⦄ (s : MemoryStore) (x : AssignmentRecord) : Type 0 where
  pub consistent : IsConsistent s
  pub is_open : s.closed ≡ false
  pub there : get s.assignments (message_id_of x) ≡ some x

-- Nothing is left of the Attempt of an assignment.
pub record Gone (s : MemoryStore) (x : AssignmentRecord) : Type 0 where
  pub no_assignment : get s.assignments (message_id_of x) ≡ none
  pub no_attempt : get s.attempts (attempt_id_of x) ≡ none
  pub no_events : events_of s (attempt_id_of x) ≡ []
  pub no_result : get s.results (attempt_id_of x) ≡ none

can_revoke : (q : State) → is_terminal q ≡ false → contains (transitions q) revoked ≡ true
unfolding is_terminal transitions contains
can_revoke q h = ground arith

module _ ⦃p : Platform⦄ (s : MemoryStore) (x : AssignmentRecord) (h : Holds s x) where
  pub held : store.assignment memory_ready (message_id_of x) s ≡ ok x
  unfolding store.assignment memory_ready
  held = ground (
    arith,
    h.is_open,
    h.there,
    copy_assignment_valid x (h.consistent.index.valid (message_id_of x) x h.there),
  )

  pub held_by_attempt : store.assignment_for_attempt memory_ready (attempt_id_of x) s ≡ ok x
  unfolding store.assignment_for_attempt
  held_by_attempt = ground (arith, h.consistent.index.indexed (message_id_of x) x h.there, held)

  pub advanced :
      (now : ℕ)
      → is_terminal x.state ≡ false
      → let y : AssignmentRecord = record x { state = revoked; updated_at = now } in
        store.advance_assignment memory_ready (message_id_of x) revoked now s
        ≡ (ok y, put_assignment y s)
  unfolding store.advance_assignment store.move_assignment is_terminal
  advanced now live =
      let valid = h.consistent.index.valid (message_id_of x) x h.there in
      ground (
        arith,
        held,
        can_revoke x.state live,
        copy_assignment_valid (record x { state = revoked; updated_at = now }) valid,
      )

  abbrev without_spool : MemoryStore
  without_spool = record s {
    events = pop s.events (attempt_id_of x);
    results = pop s.results (attempt_id_of x);
  }

  discarded :
      is_terminal x.state ≡ true
      → store.discard_terminal_spool memory_ready (attempt_id_of x) s ≡ (ok tt, without_spool)
  unfolding store.discard_terminal_spool
  discarded end = rw (held_by_attempt, end, store.discard_terminal_spool) refl

  pub deleted :
      is_terminal x.state ≡ true
      → events_of s (attempt_id_of x) ≡ []
      → get s.results (attempt_id_of x) ≡ none
      → store.delete_assignment memory_ready (message_id_of x) s ≡ (
        ok tt,
        record s {
          assignments = pop s.assignments (message_id_of x);
          attempts = pop s.attempts (attempt_id_of x);
        },
      )
  unfolding store.delete_assignment
  deleted end no_events no_result =
      rw (held, end, no_events, no_result, store.delete_assignment) refl

  without_spool-Holds : is_terminal x.state ≡ true → Holds without_spool x
  without_spool-Holds end = record {
    consistent =
        subst IsConsistent (ap (λ t. t.1) (discarded end))
          (discard_terminal_spool-IsConsistent memory_ready s h.consistent (attempt_id_of x));
    is_open = h.is_open;
    there = h.there;
  }

  pub put-Holds :
      (now : ℕ)
      → is_terminal x.state ≡ false
      → let y : AssignmentRecord = record x { state = revoked; updated_at = now } in
        Holds (put_assignment y s) y
  put-Holds now live =
      let y : AssignmentRecord = record x { state = revoked; updated_at = now } in
      record {
        consistent = subst IsConsistent (ap (λ t. t.1) (advanced now live)) (
            advance_assignment-IsConsistent memory_ready s h.consistent (message_id_of x) revoked
              now);
        is_open = h.is_open;
        there = ground (
          arith,
          get-set_item s.assignments (message_id_of x) (message_id_of x) y,
          text_eq.same_iff (message_id_of x) (message_id_of x),
        );
      }

-- the two methods that end an Attempt whose assignment is terminal
abbrev pub ends_attempt : ⦃p : Platform⦄ → AssignmentRecord → Exec MemoryStore (Unit {0})
ends_attempt x = do
  _ ← store.discard_terminal_spool memory_ready (attempt_id_of x)
  store.delete_assignment memory_ready (message_id_of x)

-- the store when they are done
abbrev pub emptied : MemoryStore → AssignmentRecord → MemoryStore
emptied s x = record s {
  assignments = pop s.assignments (message_id_of x);
  attempts = pop s.attempts (attempt_id_of x);
  events = pop s.events (attempt_id_of x);
  results = pop s.results (attempt_id_of x);
}

pub emptied-Gone : (s : MemoryStore) (x : AssignmentRecord) → Gone (emptied s x) x
emptied-Gone s x = record {
  no_assignment = ground (
    arith,
    get-pop s.assignments (message_id_of x) (message_id_of x),
    text_eq.same_iff (message_id_of x) (message_id_of x),
  );
  no_attempt = ground (
    arith,
    get-pop s.attempts (attempt_id_of x) (attempt_id_of x),
    text_eq.same_iff (attempt_id_of x) (attempt_id_of x),
  );
  no_events =
      unfold events_of in
      ground (
        arith,
        get-pop s.events (attempt_id_of x) (attempt_id_of x),
        text_eq.same_iff (attempt_id_of x) (attempt_id_of x),
      );
  no_result = ground (
    arith,
    get-pop s.results (attempt_id_of x) (attempt_id_of x),
    text_eq.same_iff (attempt_id_of x) (attempt_id_of x),
  );
}

module _ ⦃p : Platform⦄ (s : MemoryStore) (x : AssignmentRecord) (h : Holds s x)
    (end : is_terminal x.state ≡ true) where
  pub ends : ends_attempt x s ≡ (ok tt, emptied s x)
  ends =
      let gone = emptied-Gone s x in
      rw
        (
          discarded s x h end,
          deleted (without_spool s x h) x (without_spool-Holds s x h end) end
              (unfold events_of in gone.no_events) gone.no_result,
        )
        refl

  pub emptied-IsConsistent : IsConsistent (emptied s x)
  emptied-IsConsistent =
      let gone = emptied-Gone s x in
      let held_after = without_spool-Holds s x h end in
      subst IsConsistent
        (ap (λ t. t.1)
          (deleted (without_spool s x h) x held_after end (unfold events_of in gone.no_events)
            gone.no_result))
        (delete_assignment-IsConsistent memory_ready (without_spool s x h) held_after.consistent
          (message_id_of x))
