-- ===== src/Worker/Attempts/Gone.antt =====
-- The end of a revoked Attempt in src/openlinker/runtime/worker.py: store and worker forget it.
use openlinker_python.Prelude.{
  ℕ, ◌≡◌, refl, sym, ap, true, false, Text, text_eq, none, contains, arith, Bool-cases,
  Option-cases, inl, inr,
}
use mathlib.Core.Path.{subst}
use openlinker_python.Dict.{get, pop, get-pop}
use openlinker_python.Platform.{Platform}
use openlinker_python.Errors.{Result, ok}
use openlinker_python.Store.State.{revoked, state_eq, is_terminal}
use openlinker_python.Store.Records.{AssignmentRecord, attempt_id_of}
use openlinker_python.Store.Memory.{put_assignment}
use openlinker_python.Store.Invariant.{IsConsistent}
use openlinker_python.Worker.Attempts.{
  Worker, add_terminal, cancel_active, finalize_revoked_attempt, revoke_attempt,
  remove_active_attempt,
}
use openlinker_python.Worker.Run.{◌>>=◌}
use openlinker_python.Worker.Attempts.Revoke.{
  Holds, Gone, held, advanced, put-Holds, ends, emptied, emptied-Gone, emptied-IsConsistent,
}

-- The end of a method that revoked an Attempt.
pub record IsRevoked ⦃p : Platform⦄ (x : AssignmentRecord) (r : Result (Unit {0})) (w : Worker)
    : Type 0 where
  pub returns : r ≡ ok tt
  pub gone : Gone w.store x
  pub consistent : IsConsistent w.store
  pub not_active : get w.active (attempt_id_of x) ≡ none
  pub no_permission : get w.spool_permissions (attempt_id_of x) ≡ none

module _ ⦃p : Platform⦄ (w : Worker) (x : AssignmentRecord) (h : Holds w.store x) (now : ℕ) where
  finalized_terminal :
      is_terminal x.state ≡ true
      → finalize_revoked_attempt x now w ≡ (
        ok tt,
        record w {
          store = emptied w.store x;
          active = pop w.active (attempt_id_of x);
          spool_permissions = pop w.spool_permissions (attempt_id_of x);
        },
      )
  unfolding ◌>>=◌ finalize_revoked_attempt remove_active_attempt
  finalized_terminal end = ground (arith, held w.store x h, ends w.store x h end)

  finalized_live :
      is_terminal x.state ≡ false
      → let y : AssignmentRecord = record x { state = revoked; updated_at = now } in
        finalize_revoked_attempt x now w ≡ (
          ok tt,
          record w {
            store = emptied (put_assignment y w.store) y;
            active = pop w.active (attempt_id_of x);
            spool_permissions = pop w.spool_permissions (attempt_id_of x);
          },
        )
  unfolding ◌>>=◌ finalize_revoked_attempt remove_active_attempt is_terminal
  finalized_live live =
      let y : AssignmentRecord = record x { state = revoked; updated_at = now } in
      ground (
        arith,
        held w.store x h,
        advanced w.store x h now live,
        ends (put_assignment y w.store) y (put-Holds w.store x h now live) refl,
      )

  forgotten :
      (get (pop w.active (attempt_id_of x)) (attempt_id_of x) ≡ none)
      × (get (pop w.spool_permissions (attempt_id_of x)) (attempt_id_of x) ≡ none)
  forgotten =
      let a = attempt_id_of x in
      let same = text_eq.same_iff a a in
      (
        ground (arith, get-pop w.active a a, same),
        ground (arith, get-pop w.spool_permissions a a, same),
      )

  finalize_revoked_attempt-IsRevoked :
      IsRevoked x (finalize_revoked_attempt x now w).0 (finalize_revoked_attempt x now w).1
  finalize_revoked_attempt-IsRevoked = elim (Bool-cases (is_terminal x.state)) [
    | inl end ↦ rw (finalized_terminal end) (record {
      returns = refl;
      gone = emptied-Gone w.store x;
      consistent = emptied-IsConsistent w.store x h end;
      not_active = forgotten.0;
      no_permission = forgotten.1;
    })
    | inr live ↦
        let y : AssignmentRecord = record x { state = revoked; updated_at = now } in
        let gone = emptied-Gone (put_assignment y w.store) y in
        rw (finalized_live live) (record {
          returns = refl;
          gone = record {
            no_assignment = gone.no_assignment;
            no_attempt = gone.no_attempt;
            no_events = gone.no_events;
            no_result = gone.no_result;
          };
          consistent =
              emptied-IsConsistent (put_assignment y w.store) y (put-Holds w.store x h now live)
                (unfold is_terminal in refl);
          not_active = forgotten.0;
          no_permission = forgotten.1;
        })
  ]

  same_terminal : (finalize_revoked_attempt x now w).1.terminal_attempts ≡ w.terminal_attempts
  same_terminal = elim (Bool-cases (is_terminal x.state)) [
    | inl end ↦ ap (λ t. t.1.terminal_attempts) (finalized_terminal end)
    | inr live ↦ ap (λ t. t.1.terminal_attempts) (finalized_live live)
  ]

cancel_active-rest :
    (a : Text) (w : Worker)
    → ((cancel_active a w).store ≡ w.store)
      × ((cancel_active a w).terminal_attempts ≡ w.terminal_attempts)
cancel_active-rest a w = elim (Option-cases (get w.active a)) [
  | inl e ↦ rw (e, cancel_active) (refl, refl)
  | inr (x, e) ↦ rw (e, cancel_active) (refl, refl)
]

contains-add_terminal :
    (a : Text) (w : Worker) → contains (add_terminal a w).terminal_attempts a ≡ true
unfolding contains
contains-add_terminal a w = elim (Bool-cases (contains w.terminal_attempts a)) [
  | inl e ↦ rw e e
  | inr e ↦ rw e (ground (arith, text_eq.same_iff a a))
]

module _ ⦃p : Platform⦄ where
  -- When a worker revokes an Attempt whose assignment its open and consistent store holds, in any
  -- state of it, the method returns, and then the store is consistent, has neither the assignment,
  -- nor the Attempt, nor an Event or a Result of it, and the worker has it neither as active nor
  -- among the Attempts that may send, but among the terminal ones.
  pub revoke_attempt-IsRevoked :
      (w : Worker) (x : AssignmentRecord)
      → Holds w.store x
      → (now : ℕ)
      → IsRevoked x (revoke_attempt x now w).0 (revoke_attempt x now w).1
        × (contains (revoke_attempt x now w).1.terminal_attempts (attempt_id_of x) ≡ true)
  unfolding ◌>>=◌ revoke_attempt
  revoke_attempt-IsRevoked w x h now =
      let a = attempt_id_of x in
      let u = cancel_active a (add_terminal a w) in
      let (kept, listed) = cancel_active-rest a (add_terminal a w) in
      let h' : Holds u.store x = subst (λ s. Holds s x) (sym kept) h in
      (
        finalize_revoked_attempt-IsRevoked u x h' now,
        rw (same_terminal u x h' now, listed) (contains-add_terminal a w),
      )
