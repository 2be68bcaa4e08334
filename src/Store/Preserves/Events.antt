-- ===== src/Store/Preserves/Events.antt =====
-- `append_event` and `ack_event` of src/openlinker/runtime/store.py keep a store consistent.
use openlinker_python.Prelude.{
  ℕ, Text, text_eq, nat_eq, ◌==◌, inl, inr, ap, refl, ◌∙◌, Bool-cases, Option-cases, eq_of_==,
}
use openlinker_python.Dict.{get}
use openlinker_python.Json.{Fields}
use openlinker_python.Platform.{Platform}
use openlinker_python.Errors.{Result, Result-cases}
use openlinker_python.Store.State.{started, state_eq}
use openlinker_python.Store.Acks.{apply_event_ack}
use openlinker_python.Store.Memory.{MemoryStore, events_of}
use openlinker_python.Store.Methods.{assignment_for_attempt, append_event, ack_event}
use openlinker_python.Store.Invariant.{IsConsistent}
use openlinker_python.Store.Lookups.{attempt_found}
use openlinker_python.Store.Preserves.Spool.{append-IsSound, ack-IsSound}
use openlinker_python.Store.Preserves.Puts.{put-IsConsistent, put_events-IsConsistent, spool}

module _ ⦃p : Platform⦄ (ready : MemoryStore → Result (Unit {0})) (s : MemoryStore)
    (v : IsConsistent s) where
  pub append_event-IsConsistent :
      (a event_type : Text) (payload : Fields) (event_id : Text) (created updated : ℕ)
      → IsConsistent (append_event ready a event_type payload event_id created updated s).1
  unfolding append_event
  append_event-IsConsistent a event_type payload event_id created updated =
      elim (Result-cases (assignment_for_attempt ready a s)) [
        | inr (e, h) ↦ rw (h, append_event) v
        | inl (r, h) ↦ elim (Bool-cases (r.state == started)) [
          | inr f ↦ rw (h, f, append_event) v
          | inl t ↦
              let (there, mine) = attempt_found ready s a r v.index h in
              rw (h, t, append_event, ← mine)
                (put_events-IsConsistent s v r there _ _ refl (
                  append-IsSound r (spool s v r there) _ updated (eq_of_== r.state started t) refl))
        ]
      ]

  pub ack_event-IsConsistent :
      (a event_id : Text) (seq now : ℕ) → IsConsistent (ack_event ready a event_id seq now s).1
  unfolding ack_event apply_event_ack
  ack_event-IsConsistent a event_id seq now =
      elim (Result-cases (assignment_for_attempt ready a s)) [
        | inr (e, h) ↦ rw (h, ack_event) v
        | inl (r, h) ↦ elim (Option-cases (get (events_of s a) seq)) [
          | inl g ↦ rw (h, g, ack_event) v
          | inr (e, g) ↦ elim (Bool-cases (e.client_event_id == event_id)) [
            | inr f ↦ rw (h, g, f, ack_event) v
            | inl t ↦
                let (there, mine) = attempt_found ready s a r v.index h in
                rw (h, g, t, ack_event)
                  (put-IsConsistent s v r there _ refl (
                    ack-IsSound r (spool s v r there) seq e now
                      (ap (λ b. get (events_of s b) seq) mine ∙ g)))
          ]
        ]
      ]
