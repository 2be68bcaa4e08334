-- ===== src/Worker/Keeps/Resuming.antt =====
-- What the resuming of a session and the commands of the platform keep (src/openlinker/runtime/worker.py).
use openlinker_python.Prelude.{
  text, text_eq, ◌==◌, ℕ, Bool, true, false, not, List, [], ◌∷◌, Text, Option,
}
use openlinker_python.Dict.{Dict, get}
use openlinker_python.Json.{Json, null, bool, int, str, arr, obj, Fields}
use openlinker_python.Platform.{Platform}
use openlinker_python.Errors.{Result, invalid_value, bad_value}
use openlinker_python.Exec.{raise}
use openlinker_python.Store.Records.{AssignmentRecord, attempt_id_of}
use openlinker_python.Types.Identity.{RuntimeAttemptIdentity, attempt_beq}
use openlinker_python.Worker.Attempts.{
  Worker, Meanwhile, Wait, start_confirmed_attempt, change, forget_permissions, cancel_active,
  add_terminal, is_not_found,
}
use openlinker_python.Worker.Resume.{
  ResumeItem, continue_execution, apply_action, apply_decision, apply_decisions,
  resume_durable_state,
}
use openlinker_python.Worker.Commands.{
  Cancellation, revoke_lease, run_command, handle_command, cancel_attempt, handle_cancel,
  renew_lease,
}
use openlinker_python.Worker.Keeps.{
  IsKept, Keeps, change-Keeps, pure-Keeps, raise-Keeps, read-Keeps, await-Keeps, bind-Keeps,
  if-Keeps, checked-Keeps, option-Keeps, result-Keeps, advance-Keeps,
}
use openlinker_python.Worker.Keeps.Taking.{
  finalize_when_free-Keeps, revoke_when_free-Keeps, clear_from_resume-Keeps,
}

module _ ⦃p : Platform⦄ (P : Worker → Type 0) (k : IsKept P) where
  start-Keeps :
      (r : AssignmentRecord) (t : Option ℕ) (now : ℕ) → Keeps P (start_confirmed_attempt r t now)
  unfolding Keeps
  start-Keeps r t now w x = k.started w r t now x

  continue_execution-Keeps :
      (reconnect : Bool) (r : AssignmentRecord) (d : Fields) (now : ℕ)
      → Keeps P (continue_execution reconnect r d now)
  unfolding continue_execution
  continue_execution-Keeps reconnect r d now =
      if-Keeps P _ _ _
        (bind-Keeps P _ _ (read-Keeps P _) λ owned. checked-Keeps P owned _ _ (
          bind-Keeps P _ _ (read-Keeps P _) λ expires.
            bind-Keeps P _ _
              (option-Keeps P expires _ _ (pure-Keeps P _)
                (λ t. change-Keeps P _ (λ w x. k.leased w _ _ x)))
              λ _. change-Keeps P _ (λ w x. k.permitted w _ x)))
        (if-Keeps P _ _ _ (raise-Keeps P _ _) (
          bind-Keeps P _ _ (if-Keeps P _ _ _ (advance-Keeps P k _ _ now) (pure-Keeps P _)) λ r'.
            checked-Keeps P _ _ _ (
              bind-Keeps P _ _ (change-Keeps P _ (λ w x. k.permitted w _ x))
                λ _. bind-Keeps P _ _ (read-Keeps P _) λ expires. start-Keeps r' expires now)))

  module _ (meanwhile : Meanwhile)
      (others : (x : Wait) (w : Worker) → P w → P (meanwhile x w)) where
    apply_action-Keeps :
        (reconnect : Bool) (r : AssignmentRecord) (d : Fields) (action : Text) (now : ℕ)
        → Keeps P (apply_action meanwhile reconnect r d action now)
    unfolding apply_action
    apply_action-Keeps reconnect r d action now =
        if-Keeps P _ _ _ (continue_execution-Keeps reconnect r d now) (
          if-Keeps P _ _ _
            (bind-Keeps P _ _ (read-Keeps P _)
              λ allowed. change-Keeps P _ (λ w x. k.permitted w _ x))
            (if-Keeps P _ _ _ (clear_from_resume-Keeps P k meanwhile others r false now) (
              if-Keeps P _ _ _ (clear_from_resume-Keeps P k meanwhile others r true now)
                (raise-Keeps P _ _))))

    by_kind-Keeps :
        (reconnect : Bool) (r : AssignmentRecord) (d : Fields) (kind : Json) (now : ℕ)
        → Keeps {A = Unit {0}} P (elim kind [
          | str action ↦ apply_action meanwhile reconnect r d action now
          | arr vs ↦ raise invalid_value
          | obj fs ↦ raise invalid_value
          | _ ↦ raise bad_value
        ])
    by_kind-Keeps reconnect r d (str action) now = apply_action-Keeps reconnect r d action now
    by_kind-Keeps reconnect r d (arr vs) now = raise-Keeps P _ _
    by_kind-Keeps reconnect r d (obj fs) now = raise-Keeps P _ _
    by_kind-Keeps reconnect r d null now = raise-Keeps P _ _
    by_kind-Keeps reconnect r d (bool b) now = raise-Keeps P _ _
    by_kind-Keeps reconnect r d (int n) now = raise-Keeps P _ _

    apply_decision-Keeps :
        (reconnect : Bool) (ds : Dict Text Fields) (r : AssignmentRecord) (now : ℕ)
        → Keeps P (apply_decision meanwhile reconnect ds r now)
    unfolding apply_decision
    apply_decision-Keeps reconnect ds r now =
        option-Keeps P (get ds (attempt_id_of r)) _ _ (raise-Keeps P _ _)
          (λ d. checked-Keeps P _ _ _ (by_kind-Keeps reconnect r d _ now))

    apply_decisions-Keeps :
        (reconnect : Bool) (ds : Dict Text Fields) (rs : List AssignmentRecord) (now : ℕ)
        → Keeps P (apply_decisions meanwhile reconnect ds rs now)
    unfolding apply_decisions
    apply_decisions-Keeps reconnect ds [] now = pure-Keeps P _
    apply_decisions-Keeps reconnect ds (r ∷ rs) now =
        bind-Keeps P _ _ (apply_decision-Keeps reconnect ds r now)
          λ _. apply_decisions-Keeps reconnect ds rs now

  pub resume_durable_state-Keeps :
      (reconnect : Bool) (meanwhile : Meanwhile)
      → ((x : Wait) (w : Worker) → P w → P (meanwhile x w))
      → (resume : List ResumeItem → Result (List Json)) (now : ℕ)
      → Keeps P (resume_durable_state reconnect meanwhile resume now)
  unfolding resume_durable_state
  resume_durable_state-Keeps reconnect meanwhile others resume now =
      bind-Keeps P _ _ (read-Keeps P _) λ held. if-Keeps P _ _ _ (pure-Keeps P _) (
        bind-Keeps P _ _ (read-Keeps P _) λ attempts.
          bind-Keeps P _ _ (await-Keeps P _ _ (others _)) λ decisions.
            bind-Keeps P _ _ (read-Keeps P _) λ _.
              bind-Keeps P _ _ (read-Keeps P _)
                λ ds. apply_decisions-Keeps meanwhile others reconnect ds _ now)

  module _ (meanwhile : Meanwhile)
      (others : (x : Wait) (w : Worker) → P w → P (meanwhile x w)) where
    revoke_lease-Keeps :
        (i : RuntimeAttemptIdentity) (now : ℕ) → Keeps P (revoke_lease meanwhile i now)
    unfolding revoke_lease
    revoke_lease-Keeps i now = bind-Keeps P _ _ (read-Keeps P _) λ found.
        result-Keeps P found _ _ (λ e. if-Keeps P _ _ _ (pure-Keeps P _) (raise-Keeps P _ _))
          (λ r.
            if-Keeps P _ _ _ (revoke_when_free-Keeps P k meanwhile others r now) (pure-Keeps P _))

    run_command-Keeps :
        (kind : Text) (payload : Fields) (now : ℕ)
        → Keeps P (run_command meanwhile kind payload now)
    unfolding run_command
    run_command-Keeps kind payload now =
        if-Keeps P (kind == text "run.cancel") _ _
          (bind-Keeps P _ _ (read-Keeps P _) λ c. bind-Keeps P _ _ (read-Keeps P _) λ known.
            if-Keeps P known _ _ (pure-Keeps P _)
              (bind-Keeps P _ _ (change-Keeps P _ (λ w x. k.noted w _ x)) λ _. pure-Keeps P _))
          (if-Keeps P (kind == text "runtime.drain") _ _
            (bind-Keeps P _ _ (read-Keeps P _)
              λ _. bind-Keeps P _ _ (change-Keeps P _ (λ w x. k.drained w x)) λ _. pure-Keeps P _)
            (if-Keeps P (kind == text "run.lease.revoked") _ _
              (bind-Keeps P _ _ (read-Keeps P _)
                λ i. bind-Keeps P _ _ (revoke_lease-Keeps i now) λ _. pure-Keeps P _)
              (raise-Keeps P _ _)))

    pub handle_command-Keeps :
        (command : Fields) (now : ℕ) → Keeps P (handle_command meanwhile command now)
    unfolding handle_command
    handle_command-Keeps command now =
        bind-Keeps P _ _ (read-Keeps P _) λ payload. run_command-Keeps _ payload now

  stop-Keeps :
      (a : Text) → Keeps P (change (λ w. forget_permissions a (cancel_active a (add_terminal a w))))
  stop-Keeps a =
      change-Keeps P (λ w. forget_permissions a (cancel_active a (add_terminal a w)))
        (λ w x. k.permitted _ _ (k.cancelled _ a (k.ended w a x)))

  module _ (c : Cancellation) (send : Text → Text → Result Json) (meanwhile : Meanwhile)
      (others : (x : Wait) (w : Worker) → P w → P (meanwhile x w)) (handler_stopped : Bool)
      (now : ℕ) where
    cancel_attempt-Keeps : Keeps P (cancel_attempt c send meanwhile handler_stopped now)
    unfolding cancel_attempt
    cancel_attempt-Keeps = bind-Keeps P _ _ (read-Keeps P _) λ found.
        result-Keeps P found _ _
          (λ e. if-Keeps P (is_not_found e) _ _ (await-Keeps P _ _ (others _)) (raise-Keeps P _ _))
          (λ r.
            if-Keeps P (not (attempt_beq r.identity.attempt c.identity)) _ _
              (await-Keeps P _ _ (others _))
              (bind-Keeps P _ _ (stop-Keeps c.identity.attempt_id) λ _.
                bind-Keeps P _ _ (read-Keeps P _) λ running.
                  bind-Keeps P _ _ (await-Keeps P _ _ (others _)) λ _.
                    if-Keeps P _ _ _
                      (bind-Keeps P _ _ (finalize_when_free-Keeps P k meanwhile others r now)
                        λ _. pure-Keeps P _)
                      (pure-Keeps P _)))

    pub handle_cancel-Keeps : Keeps P (handle_cancel c send meanwhile handler_stopped now)
    unfolding handle_cancel Keeps
    handle_cancel-Keeps w x = k.noted _ _ (cancel_attempt-Keeps w x)

  pub renew_lease-Keeps :
      (r : AssignmentRecord) (meanwhile : Meanwhile)
      → ((x : Wait) (w : Worker) → P w → P (meanwhile x w))
      → (answer : Result Json) (now : ℕ) → Keeps P (renew_lease r meanwhile answer now)
  unfolding renew_lease
  renew_lease-Keeps r meanwhile others answer now = bind-Keeps P _ _ (read-Keeps P _) λ over.
      if-Keeps P over _ _
        (bind-Keeps P _ _ (revoke_when_free-Keeps P k meanwhile others r now) λ _. pure-Keeps P _)
        (bind-Keeps P _ _ (read-Keeps P _) λ current.
          bind-Keeps P _ _ (await-Keeps P _ _ (others _)) λ _.
            result-Keeps P answer _ _
              (λ e.
                if-Keeps P _ _ _
                  (bind-Keeps P _ _ (revoke_when_free-Keeps P k meanwhile others r now)
                    λ _. pure-Keeps P _)
                  (raise-Keeps P _ _))
              (λ v. bind-Keeps P _ _ (read-Keeps P _) λ renewed.
                bind-Keeps P _ _ (change-Keeps P _ (λ w x. k.leased w _ _ x)) λ _.
                  option-Keeps P renewed.1 _ _ (pure-Keeps P _) (λ command.
                    bind-Keeps P _ _ (read-Keeps P _)
                      λ fs. handle_command-Keeps meanwhile others fs now)))
