-- ===== src/Worker/Steps.antt =====
-- The steps of a worker (src/openlinker/runtime/worker.py): each handler with what the platform answers, and
-- with the steps that the other tasks make during each of its waits, for an answer or for a lock.
pub mod Sound
pub mod Stopped
mod Examples
use openlinker_python.Prelude.{ℕ, ◌≡◌, Bool, List, Text, Option}
use openlinker_python.Json.{Json, Fields}
use openlinker_python.Platform.{Platform}
use openlinker_python.Errors.{Result}
use openlinker_python.Types.Messages.{RuntimeAssignment}
use openlinker_python.Store.Records.{AssignmentRecord}
use openlinker_python.Worker.Attempts.{Worker, Wait}
use openlinker_python.Worker.Assign.{handle_assignment}
use openlinker_python.Worker.Deliver.{Answers, flush_spool}
use openlinker_python.Worker.Resume.{ResumeItem, resume_durable_state}
use openlinker_python.Worker.Commands.{Cancellation, handle_command, handle_cancel, renew_lease}
use openlinker_python.Worker.Outcomes.{RuntimeEvent, Outcome, Draws, emit, finish_attempt}
use openlinker_python.Worker.Keeps.{IsKept, kept}
use openlinker_python.Worker.Keeps.Taking.{handle_assignment-Keeps}
use openlinker_python.Worker.Keeps.Sending.{flush_spool-Keeps}
use openlinker_python.Worker.Keeps.Resuming.{
  resume_durable_state-Keeps, handle_command-Keeps, handle_cancel-Keeps, renew_lease-Keeps,
}
use openlinker_python.Worker.Keeps.Finishing.{emit-Keeps, finish_attempt-Keeps}

mutual
  pub data Step : Type 0 where
    takes : RuntimeAssignment → (Wait → Steps) → Result Json → ℕ → Step
    sends : (Wait → Steps) → (Text → Answers) → ℕ → Step
    resumes : Bool → (Wait → Steps) → (List ResumeItem → Result (List Json)) → ℕ → Step
    obeys : (Wait → Steps) → Fields → ℕ → Step
    cancels : Cancellation → (Text → Text → Result Json) → (Wait → Steps) → Bool → ℕ → Step
    renews : AssignmentRecord → (Wait → Steps) → Result Json → ℕ → Step
    emits : Draws → Text → RuntimeEvent → Text → ℕ → Step
    finishes : Draws → (Wait → Steps) → AssignmentRecord → Outcome → ℕ → Step

  -- some steps, one after the other
  pub data Steps : Type 0 where
    done : Steps
    then : Step → Steps → Steps

module _ ⦃p : Platform⦄ where
  -- the worker that a step leaves, whether its handler returned or raised
  unfoldable mutual
    pub after : Step → Worker → Worker
    after (takes a others answer now) w =
        (handle_assignment a (λ x. after_all (others x)) answer now w).1
    after (sends others answers now) w = (flush_spool (λ x. after_all (others x)) answers now w).1
    after (resumes reconnect others resume now) w =
        (resume_durable_state reconnect (λ x. after_all (others x)) resume now w).1
    after (obeys others command now) w =
        (handle_command (λ x. after_all (others x)) command now w).1
    after (cancels c send others stopped now) w =
        (handle_cancel c send (λ x. after_all (others x)) stopped now w).1
    after (renews r others answer now) w =
        (renew_lease r (λ x. after_all (others x)) answer now w).1
    after (emits draws a e id now) w = (emit draws a e id now w).1
    after (finishes draws others r outcome now) w =
        (finish_attempt draws (λ x. after_all (others x)) r outcome now w).1

    pub after_all : Steps → Worker → Worker
    after_all done w = w
    after_all (then s ss) w = after_all ss (after s w)

module _ ⦃p : Platform⦄ (P : Worker → Type 0) (k : IsKept P) where
  mutual
    unfolding after after_all

    pub after-kept : (s : Step) (w : Worker) → P w → P (after s w)
    after-kept (takes a others answer now) w x =
        kept P _
          (handle_assignment-Keeps P k (λ x. after_all (others x)) (λ x. after_all-kept (others x))
            answer now a)
          w x
    after-kept (sends others answers now) w x =
        kept P _
          (flush_spool-Keeps P k (λ x. after_all (others x)) (λ x. after_all-kept (others x))
            answers now)
          w x
    after-kept (resumes reconnect others resume now) w x =
        kept P _
          (resume_durable_state-Keeps P k reconnect (λ x. after_all (others x))
            (λ x. after_all-kept (others x)) resume now)
          w x
    after-kept (obeys others command now) w x =
        kept P _
          (handle_command-Keeps P k (λ x. after_all (others x)) (λ x. after_all-kept (others x))
            command now)
          w x
    after-kept (cancels c send others stopped now) w x =
        kept P _
          (handle_cancel-Keeps P k c send (λ x. after_all (others x))
            (λ x. after_all-kept (others x)) stopped now)
          w x
    after-kept (renews r others answer now) w x =
        kept P _
          (renew_lease-Keeps P k r (λ x. after_all (others x)) (λ x. after_all-kept (others x))
            answer now)
          w x
    after-kept (emits draws a e id now) w x = kept P _ (emit-Keeps P k draws a e id now) w x
    after-kept (finishes draws others r outcome now) w x =
        kept P _
          (finish_attempt-Keeps P k draws (λ x. after_all (others x))
            (λ x. after_all-kept (others x)) r outcome now)
          w x

    pub after_all-kept : (ss : Steps) (w : Worker) → P w → P (after_all ss w)
    after_all-kept done w x = x
    after_all-kept (then s ss) w x = after_all-kept ss (after s w) (after-kept s w x)
