-- ===== src/Worker/Keeps/Sending.antt =====
-- What the sending of the spool keeps (src/openlinker/runtime/worker.py).
use openlinker_python.Prelude.{ℕ, List, [], ◌∷◌, Text}
use openlinker_python.Json.{Json}
use openlinker_python.Platform.{Platform}
use openlinker_python.Errors.{Result}
use openlinker_python.Exec.{Exec}
use openlinker_python.Store.Records.{AssignmentRecord, EventRecord, ResultRecord}
use openlinker_python.Store.Memory.{memory_ready}
use openlinker_python.Store.Methods as store
use openlinker_python.Store.Preserves.Events.{ack_event-IsConsistent}
use openlinker_python.Worker.Attempts.{
  Worker, on_store, Meanwhile, Wait, for_event, for_event_again,
}
use openlinker_python.Worker.Deliver.{
  deliver_event, deliver_events, flush_pending, replay_ranges, Answers, missing_ranges, send_result,
  settle, flush_result, flush_attempt_spool, catching_terminal, flush_each, flush_spool,
}
use openlinker_python.Worker.Keeps.{
  IsKept, Keeps, change-Keeps, pure-Keeps, raise-Keeps, read-Keeps, await-Keeps, bind-Keeps,
  if-Keeps, option-Keeps, result-Keeps, delete-Keeps, ack_result-Keeps, clear-Keeps,
}
use openlinker_python.Worker.Keeps.Taking.{revoke_when_free-Keeps}

module _ ⦃p : Platform⦄ (P : Worker → Type 0) (k : IsKept P) where
  ack_event-Keeps :
      (a id : Text) (seq now : ℕ) → Keeps P (on_store (store.ack_event memory_ready a id seq now))
  unfolding Keeps
  ack_event-Keeps a id seq now w x =
      k.stored w _ (λ v. ack_event-IsConsistent memory_ready w.store v a id seq now) x

  module _ (send : EventRecord → Result Json) (waits : EventRecord → Worker → Worker)
      (others : (e : EventRecord) (w : Worker) → P w → P (waits e w)) (a : Text) (now : ℕ) where
    deliver_event-Keeps : (e : EventRecord) → Keeps P (deliver_event send waits a e now)
    unfolding deliver_event
    deliver_event-Keeps e =
        bind-Keeps P _ _ (await-Keeps P _ _ (others e))
          λ ack. bind-Keeps P _ _ (read-Keeps P _) λ _. ack_event-Keeps a _ _ now

    deliver_events-Keeps : (es : List EventRecord) → Keeps P (deliver_events send waits a es now)
    unfolding deliver_events
    deliver_events-Keeps [] = pure-Keeps P _
    deliver_events-Keeps (e ∷ es) =
        bind-Keeps P _ _ (deliver_event-Keeps e) λ _. deliver_events-Keeps es

    flush_pending-Keeps : Keeps P (flush_pending send waits a now)
    unfolding flush_pending
    flush_pending-Keeps = bind-Keeps P _ _ (read-Keeps P _) λ es. deliver_events-Keeps es

    replay_ranges-Keeps : (ranges : List (ℕ × ℕ)) → Keeps P (replay_ranges send waits a ranges now)
    unfolding replay_ranges
    replay_ranges-Keeps ranges = bind-Keeps P _ _ (read-Keeps P _) λ es. deliver_events-Keeps es

module _ ⦃p : Platform⦄ (P : Worker → Type 0) (k : IsKept P) (meanwhile : Meanwhile)
    (others : (x : Wait) (w : Worker) → P w → P (meanwhile x w)) where
  send_result-Keeps : (s : Answers) (a : Text) (now : ℕ) → Keeps P (send_result meanwhile s a now)
  unfolding send_result
  send_result-Keeps s a now = bind-Keeps P _ _ (await-Keeps P _ _ (others _)) λ _.
      result-Keeps P s.result _ _
        (λ e. option-Keeps P (missing_ranges e) _ _ (raise-Keeps P _ _) (λ ranges.
          bind-Keeps P _ _
            (replay_ranges-Keeps P k s.event_again _ (λ x. others (for_event_again x)) a now ranges)
            λ _. await-Keeps P _ _ (others _)))
        (λ ack. pure-Keeps P _)

  settle-Keeps :
      (s : Answers) (r : AssignmentRecord) (y : ResultRecord) (now : ℕ)
      → Keeps P (settle meanwhile s r y now)
  unfolding settle
  settle-Keeps s r y now = bind-Keeps P _ _ (send_result-Keeps s _ now) λ ack.
      bind-Keeps P _ _ (read-Keeps P _) λ _. bind-Keeps P _ _ (ack_result-Keeps P k _ _ now) λ _.
        bind-Keeps P _ _ (clear-Keeps P k _) λ _.
          bind-Keeps P _ _ (delete-Keeps P k _)
            λ _. change-Keeps P _ (λ w x. k.removed _ _ (k.permitted w _ x))

  flush_result-Keeps :
      (s : Answers) (r : AssignmentRecord) (now : ℕ) → Keeps P (flush_result meanwhile s r now)
  unfolding flush_result
  flush_result-Keeps s r now = bind-Keeps P _ _ (read-Keeps P _) λ left.
      if-Keeps P _ _ _ (pure-Keeps P _) (
        bind-Keeps P _ _ (read-Keeps P _)
          λ found. option-Keeps P found _ _ (pure-Keeps P _) (λ y. settle-Keeps s r y now))

  flush_attempt_spool-Keeps :
      (s : Answers) (r : AssignmentRecord) (now : ℕ)
      → Keeps P (flush_attempt_spool meanwhile s r now)
  unfolding flush_attempt_spool
  flush_attempt_spool-Keeps s r now = bind-Keeps P _ _ (read-Keeps P _) λ permission.
      option-Keeps P permission _ _ (pure-Keeps P _) (λ q.
        bind-Keeps P _ _
          (if-Keeps P q.0 _ _ (flush_pending-Keeps P k s.event _ (λ x. others (for_event x)) _ now)
            (pure-Keeps P _))
          λ _. if-Keeps P q.1 _ _ (flush_result-Keeps s r now) (pure-Keeps P _))

  catching_terminal-Keeps : (m : Exec Worker (Unit {0})) → Keeps P m → Keeps P (catching_terminal m)
  unfolding Keeps catching_terminal
  catching_terminal-Keeps m h w x = h w x

  flush_each-Keeps :
      (answers : Text → Answers) (rs : List AssignmentRecord) (now : ℕ)
      → Keeps P (flush_each meanwhile answers rs now)
  unfolding flush_each
  flush_each-Keeps answers [] now = pure-Keeps P _
  flush_each-Keeps answers (r ∷ rs) now = bind-Keeps P _ _ (await-Keeps P _ _ (others _)) λ _.
      bind-Keeps P _ _ (catching_terminal-Keeps _ (flush_attempt_spool-Keeps _ r now)) λ ended.
        bind-Keeps P _ _
          (if-Keeps P ended _ _ (revoke_when_free-Keeps P k meanwhile others r now)
            (pure-Keeps P _))
          λ _. flush_each-Keeps answers rs now

  pub flush_spool-Keeps :
      (answers : Text → Answers) (now : ℕ) → Keeps P (flush_spool meanwhile answers now)
  unfolding flush_spool
  flush_spool-Keeps answers now =
      bind-Keeps P _ _ (read-Keeps P _) λ rs. flush_each-Keeps answers rs now
