-- ===== src/Worker/Keeps/Finishing.antt =====
-- What the end of a handler keeps (src/openlinker/runtime/worker.py).
use openlinker_python.Prelude.{ℕ, ◌+◌, List, [], ◌∷◌, Text}
use openlinker_python.Json.{Json, null, bool, int, str, arr, obj, Fields}
use openlinker_python.Platform.{Platform}
use openlinker_python.Errors.{invalid_value}
use openlinker_python.Exec.{Exec, pure, raise}
use openlinker_python.Worker.Run.{◌>>=◌}
use openlinker_python.Store.Records.{AssignmentRecord}
use openlinker_python.Store.Memory.{memory_ready}
use openlinker_python.Store.Methods as store
use openlinker_python.Store.Preserves.Events.{append_event-IsConsistent}
use openlinker_python.Store.Preserves.Results.{store_result-IsConsistent}
use openlinker_python.Worker.Attempts.{Worker, on_store, Meanwhile, Wait}
use openlinker_python.Worker.Outcomes.{
  RuntimeEvent, RuntimeResult, Outcome, returned, raised, cancelled, authority_invalid, Draws,
  persist_event, persist_events, emit, catching_failure, outcome_result, keep_result,
  finish_attempt,
}
use openlinker_python.Worker.Keeps.{
  IsKept, Keeps, change-Keeps, pure-Keeps, raise-Keeps, read-Keeps, await-Keeps, bind-Keeps,
  if-Keeps,
}

module _ ⦃p : Platform⦄ (P : Worker → Type 0) (k : IsKept P) where
  append-Keeps :
      (a kind : Text) (fs : Fields) (id : Text) (t u : ℕ)
      → Keeps P (on_store (store.append_event memory_ready a kind fs id t u))
  unfolding Keeps
  append-Keeps a kind fs id t u w x =
      k.stored w _ (λ v. append_event-IsConsistent memory_ready w.store v a kind fs id t u) x

  store_result-Keeps :
      (a : Text) (fs : Fields) (id : Text) (t u : ℕ)
      → Keeps P (on_store (store.store_result memory_ready a fs id t u))
  unfolding Keeps
  store_result-Keeps a fs id t u w x =
      k.stored w _ (λ v. store_result-IsConsistent memory_ready w.store v a fs id t u) x

  payload-Keeps :
      (a kind : Text) (payload : Json) (id : Text) (now : ℕ)
      → Keeps {A = Unit {0}} P (elim payload [
        | obj fs ↦ (do _ ← on_store (store.append_event memory_ready a kind fs id now now); pure tt)
        | _ ↦ raise invalid_value
      ])
  payload-Keeps a kind (obj fs) id now =
      bind-Keeps P _ _ (append-Keeps a kind fs id now now) λ _. pure-Keeps P _
  payload-Keeps a kind (arr vs) id now = raise-Keeps P _ _
  payload-Keeps a kind (str t) id now = raise-Keeps P _ _
  payload-Keeps a kind null id now = raise-Keeps P _ _
  payload-Keeps a kind (bool b) id now = raise-Keeps P _ _
  payload-Keeps a kind (int n) id now = raise-Keeps P _ _

  module _ (draws : Draws) where
    persist_event-Keeps :
        (a : Text) (e : RuntimeEvent) (id : Text) (now : ℕ)
        → Keeps P (persist_event draws a e id now)
    unfolding persist_event
    persist_event-Keeps a e id now =
        bind-Keeps P _ _ (read-Keeps P _) λ _. payload-Keeps a e.event_type e.payload id now

    pub emit-Keeps :
        (a : Text) (e : RuntimeEvent) (id : Text) (now : ℕ) → Keeps P (emit draws a e id now)
    unfolding emit
    emit-Keeps a e id now =
        bind-Keeps P _ _ (read-Keeps P _)
          λ stopped. if-Keeps P stopped _ _ (raise-Keeps P _ _) (persist_event-Keeps a e id now)

    persist_events-Keeps :
        (a : Text) (es : List RuntimeEvent) (n now : ℕ) → Keeps P (persist_events draws a es n now)
    unfolding persist_events
    persist_events-Keeps a [] n now = pure-Keeps P _
    persist_events-Keeps a (e ∷ es) n now =
        bind-Keeps P _ _ (persist_event-Keeps a e _ now) λ _. persist_events-Keeps a es (n + 1) now

    catching_failure-Keeps :
        (m : Exec Worker RuntimeResult) → Keeps P m → Keeps P (catching_failure draws m)
    unfolding Keeps catching_failure
    catching_failure-Keeps m h w x = h w x

    outcome_result-Keeps :
        (a : Text) (outcome : Outcome) (now : ℕ) → Keeps P (outcome_result draws a outcome now)
    unfolding outcome_result
    outcome_result-Keeps a (returned v) now = catching_failure-Keeps _ (
        bind-Keeps P _ _ (read-Keeps P _)
          λ r. bind-Keeps P _ _ (persist_events-Keeps a r.events 0 now) λ _. pure-Keeps P _)
    outcome_result-Keeps a (raised message) now = pure-Keeps P _
    outcome_result-Keeps a cancelled now = pure-Keeps P _
    outcome_result-Keeps a authority_invalid now = pure-Keeps P _

    keep_result-Keeps :
        (r : AssignmentRecord) (result : RuntimeResult) (now : ℕ)
        → Keeps P (keep_result draws r result now)
    unfolding keep_result
    keep_result-Keeps r result now = bind-Keeps P _ _ (read-Keeps P _) λ stopped.
        if-Keeps P stopped _ _ (pure-Keeps P _) (
          bind-Keeps P _ _ (store_result-Keeps _ _ _ now now)
            λ _. change-Keeps P _ (λ w x. k.permitted w _ x))

    pub finish_attempt-Keeps :
        (meanwhile : Meanwhile)
        → ((x : Wait) (w : Worker) → P w → P (meanwhile x w))
        → (r : AssignmentRecord) (outcome : Outcome) (now : ℕ)
        → Keeps P (finish_attempt draws meanwhile r outcome now)
    unfolding finish_attempt
    finish_attempt-Keeps meanwhile others r outcome now =
        bind-Keeps P _ _ (outcome_result-Keeps _ outcome now) λ result.
          bind-Keeps P _ _ (read-Keeps P _) λ stopped.
            if-Keeps P stopped _ _ (pure-Keeps P _)
              (bind-Keeps P _ _ (await-Keeps P _ _ (others _)) λ _. keep_result-Keeps r result now)
