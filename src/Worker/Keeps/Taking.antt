-- ===== src/Worker/Keeps/Taking.antt =====
-- What revoking an Attempt and taking an assignment keep (src/openlinker/runtime/worker.py).
use openlinker_python.Prelude.{ℕ, refl, Bool, text_eq, Option}
use openlinker_python.Json.{Json}
use openlinker_python.Platform.{Platform}
use openlinker_python.Errors.{Error, Result}
use openlinker_python.Types.Identity.{RuntimeAttemptIdentity}
use openlinker_python.Types.Messages.{RuntimeAssignment}
use openlinker_python.Store.Records.{AssignmentRecord, LocalAttemptIdentity}
use openlinker_python.Store.Memory.{memory_ready}
use openlinker_python.Store.Methods as store
use openlinker_python.Store.Preserves.Assignments.{create_assignment-IsConsistent}
use openlinker_python.Worker.Attempts.{
  Worker, start_confirmed_attempt, on_store, finalize_revoked_attempt, revoke_attempt,
  finalize_when_free, revoke_when_free, Meanwhile, Wait, clear_from_resume,
}
use openlinker_python.Worker.Assign.{
  new_record, converge_assignment_terminal_error, retry_assignment_operation, reject_assignment,
  confirm_assignment, renew_assignment, handle_assignment,
}
use openlinker_python.Worker.Keeps.{
  IsKept, Keeps, change-Keeps, pure-Keeps, raise-Keeps, read-Keeps, await-Keeps, bind-Keeps,
  if-Keeps, checked-Keeps, option-Keeps, result-Keeps, advance-Keeps, delete-Keeps,
  ack_result-Keeps, clear-Keeps, discard-Keeps,
}

module _ ⦃p : Platform⦄ (P : Worker → Type 0) (k : IsKept P) where
  pub finalize_revoked_attempt-Keeps :
      (r : AssignmentRecord) (now : ℕ) → Keeps P (finalize_revoked_attempt r now)
  unfolding finalize_revoked_attempt
  finalize_revoked_attempt-Keeps r now =
      bind-Keeps P _ _ (change-Keeps P _ (λ w x. k.permitted w _ x)) λ _.
        bind-Keeps P _ _ (read-Keeps P _) λ found.
          result-Keeps P found _ _
            (λ e. if-Keeps P _ _ _ (change-Keeps P _ (λ w x. k.removed w _ x)) (raise-Keeps P _ _))
            (λ r'.
              bind-Keeps P _ _ (if-Keeps P _ _ _ (pure-Keeps P _) (advance-Keeps P k _ _ now)) λ _.
                bind-Keeps P _ _ (discard-Keeps P k _) λ _.
                  bind-Keeps P _ _ (delete-Keeps P k _)
                    λ _. change-Keeps P _ (λ w x. k.removed w _ x))

  pub revoke_attempt-Keeps : (r : AssignmentRecord) (now : ℕ) → Keeps P (revoke_attempt r now)
  unfolding revoke_attempt
  revoke_attempt-Keeps r now =
      bind-Keeps P _ _ (change-Keeps P _ (λ w x. k.cancelled _ _ (k.ended w _ x)))
        λ _. finalize_revoked_attempt-Keeps r now

  module _ (meanwhile : Meanwhile)
      (others : (x : Wait) (w : Worker) → P w → P (meanwhile x w)) where
    pub finalize_when_free-Keeps :
        (r : AssignmentRecord) (now : ℕ) → Keeps P (finalize_when_free meanwhile r now)
    unfolding finalize_when_free
    finalize_when_free-Keeps r now =
        bind-Keeps P _ _ (await-Keeps P _ _ (others _)) λ _. finalize_revoked_attempt-Keeps r now

    pub revoke_when_free-Keeps :
        (r : AssignmentRecord) (now : ℕ) → Keeps P (revoke_when_free meanwhile r now)
    unfolding revoke_when_free
    revoke_when_free-Keeps r now =
        bind-Keeps P _ _ (change-Keeps P _ (λ w x. k.cancelled _ _ (k.ended w _ x)))
          λ _. finalize_when_free-Keeps r now

    pub clear_from_resume-Keeps :
        (r : AssignmentRecord) (revoked : Bool) (now : ℕ)
        → Keeps P (clear_from_resume meanwhile r revoked now)
    unfolding clear_from_resume
    clear_from_resume-Keeps r revoked now = if-Keeps P revoked _ _ (revoke_when_free-Keeps r now) (
        bind-Keeps P _ _ (change-Keeps P _ (λ w x. k.cancelled w _ x)) λ _.
          bind-Keeps P _ _ (await-Keeps P _ _ (others _)) λ _.
            bind-Keeps P _ _ (read-Keeps P _) λ found.
              bind-Keeps P _ _
                (option-Keeps P found _ _ (pure-Keeps P _)
                  (λ y. bind-Keeps P _ _ (ack_result-Keeps P k _ _ now) λ _. read-Keeps P _))
                λ r'. checked-Keeps P _ _ _ (
                  bind-Keeps P _ _ (clear-Keeps P k _) λ _.
                    bind-Keeps P _ _ (delete-Keeps P k _)
                      λ _. change-Keeps P _ (λ w x. k.permitted _ _ (k.removed w _ x))))

    converge_assignment_terminal_error-Keeps :
        (i : RuntimeAttemptIdentity) (e : Error) (now : ℕ)
        → Keeps P (converge_assignment_terminal_error meanwhile i e now)
    unfolding converge_assignment_terminal_error
    converge_assignment_terminal_error-Keeps i e now = if-Keeps P _ _ _ (pure-Keeps P _) (
        bind-Keeps P _ _ (read-Keeps P _) λ found.
          result-Keeps P found _ _
            (λ d.
              if-Keeps P _ _ _
                (bind-Keeps P _ _ (change-Keeps P _ (λ w x. k.ended w _ x)) λ _. pure-Keeps P _)
                (raise-Keeps P _ _))
            (λ r.
              checked-Keeps P _ _ _
                (bind-Keeps P _ _ (revoke_when_free-Keeps r now) λ _. pure-Keeps P _)))

  module _ (meanwhile : Meanwhile) (others : (x : Wait) (w : Worker) → P w → P (meanwhile x w))
      (answer : Result Json) (now : ℕ) where
    start-Keeps : (r : AssignmentRecord) (t : Option ℕ) → Keeps P (start_confirmed_attempt r t now)
    unfolding Keeps
    start-Keeps r t w x = k.started w r t now x

    create-Keeps :
        (i : LocalAttemptIdentity) (a : RuntimeAssignment)
        → Keeps P (on_store (store.create_assignment memory_ready (new_record i a now) now))
    unfolding Keeps new_record
    create-Keeps i a w x =
        k.stored w _
          (λ v.
            create_assignment-IsConsistent memory_ready w.store v (new_record i a now) now
              (record { no_event = refl; no_ack = refl; none_ahead = refl }))
          x

    retry_assignment_operation-Keeps :
        (i : RuntimeAttemptIdentity) → Keeps P (retry_assignment_operation i meanwhile answer now)
    unfolding retry_assignment_operation
    retry_assignment_operation-Keeps i = bind-Keeps P _ _ (read-Keeps P _) λ over.
        if-Keeps P over _ _ (pure-Keeps P _) (
          bind-Keeps P _ _ (await-Keeps P _ _ (others _)) λ _.
            result-Keeps P answer _ _
              (λ e.
                bind-Keeps P _ _ (converge_assignment_terminal_error-Keeps meanwhile others i e now)
                  λ c. if-Keeps P c _ _ (pure-Keeps P _) (raise-Keeps P _ _))
              (λ v.
                bind-Keeps P _ _ (read-Keeps P _)
                  λ gone. if-Keeps P gone _ _ (pure-Keeps P _) (pure-Keeps P _)))

    reject_assignment-Keeps :
        (r : AssignmentRecord) → Keeps P (reject_assignment r meanwhile answer now)
    unfolding reject_assignment
    reject_assignment-Keeps r =
        bind-Keeps P _ _ (if-Keeps P _ _ _ (advance-Keeps P k _ _ now) (pure-Keeps P _)) λ r'.
          bind-Keeps P _ _ (retry_assignment_operation-Keeps _) λ response.
            option-Keeps P response _ _ (pure-Keeps P _) (λ v.
              bind-Keeps P _ _ (read-Keeps P _)
                λ _. bind-Keeps P _ _ (advance-Keeps P k _ _ now) λ _. delete-Keeps P k _)

    confirm_assignment-Keeps :
        (i : RuntimeAttemptIdentity) (r : AssignmentRecord)
        → Keeps P (confirm_assignment i r meanwhile answer now)
    unfolding confirm_assignment
    confirm_assignment-Keeps i r = bind-Keeps P _ _ (retry_assignment_operation-Keeps i) λ response.
        option-Keeps P response _ _ (pure-Keeps P _) (λ v.
          bind-Keeps P _ _ (read-Keeps P _) λ lease. bind-Keeps P _ _ (read-Keeps P _) λ over.
            if-Keeps P over _ _ (pure-Keeps P _) (
              bind-Keeps P _ _ (advance-Keeps P k _ _ now) λ r'.
                bind-Keeps P _ _ (change-Keeps P _ (λ w x. k.permitted w _ x))
                  λ _. start-Keeps r' _))

    renew_assignment-Keeps :
        (i : RuntimeAttemptIdentity) → Keeps P (renew_assignment i meanwhile answer now)
    unfolding renew_assignment
    renew_assignment-Keeps i = bind-Keeps P _ _ (retry_assignment_operation-Keeps i) λ response.
        option-Keeps P response _ _ (pure-Keeps P _) (λ v.
          bind-Keeps P _ _ (read-Keeps P _) λ lease. change-Keeps P _ (λ w x. k.leased w _ _ x))

    pub handle_assignment-Keeps :
        (a : RuntimeAssignment) → Keeps P (handle_assignment a meanwhile answer now)
    unfolding handle_assignment new_record
    handle_assignment-Keeps a = bind-Keeps P _ _ (read-Keeps P _) λ over.
        if-Keeps P over _ _ (pure-Keeps P _) (
          bind-Keeps P _ _ (read-Keeps P _) λ local. bind-Keeps P _ _ (create-Keeps local a) λ r.
            bind-Keeps P _ _ (read-Keeps P _) λ snapshot.
              if-Keeps P _ _ _ (reject_assignment-Keeps r) (
                bind-Keeps P _ _ (if-Keeps P _ _ _ (advance-Keeps P k _ _ now) (pure-Keeps P _))
                  λ r'. if-Keeps P _ _ _ (confirm_assignment-Keeps a.attempt_identity r') (
                    if-Keeps P _ _ _
                      (bind-Keeps P _ _ (change-Keeps P _ (λ w x. k.permitted w _ x))
                        λ _. start-Keeps r' _)
                      (if-Keeps P _ _ _ (renew_assignment-Keeps a.attempt_identity)
                        (pure-Keeps P _)))))
