-- ===== src/Store/Pending.antt =====
-- What `pending_events` of src/openlinker/runtime/store.py returns after an Event was appended or
-- acknowledged.
use openlinker_python.Prelude.{
  ℕ, ◌+◌, ◌≤◌, ◌<◌, ◌≡◌, refl, ap, ◌∙◌, true, false, List, [], ◌∷◌, ◌++◌, Text, text_eq, nat_eq,
  ◌==◌, arith, Bool-cases, Option-cases, inl, inr,
}
use mathlib.Core.Path.{subst}
use openlinker_python.Dict.{get, set_item, get-set_item}
use openlinker_python.Json.{Fields}
use openlinker_python.Platform.{Platform}
use openlinker_python.Errors.{Result, ok, Result-cases}
use openlinker_python.Store.State.{started, state_eq}
use openlinker_python.Store.Records.{AssignmentRecord, EventRecord, message_id_of}
use openlinker_python.Store.Acks.{event_acked, apply_event_ack}
use openlinker_python.Store.Acks.Laws.{event_acked-apply_event_ack}
use openlinker_python.Store.Memory.{
  MemoryStore, memory_ready, put_assignment, add_event, events_of, sort_items, unacked,
}
use openlinker_python.Store.Methods.{
  assignment, assignment_for_attempt, append_event, ack_event, pending_events,
}
use openlinker_python.Store.Invariant.{IsConsistent, IsSound}
use openlinker_python.Store.Lookups.{
  attempt_found, assignment_found, attempt_message, copy_assignment_valid,
}
use openlinker_python.Store.Sorting.{
  keys_below, sort_items-set_item, unacked_last, unacked_same, unacked_without, without_seq,
  sort_items-Numbered,
}

not_acked :
    (r : AssignmentRecord) (q n : ℕ)
    → n < q
    → ((k : ℕ) → event_acked r k ≡ true → k ≤ n)
    → event_acked r q ≡ false
not_acked r q n h bound = ground (arith, bound q)

module _ ⦃p : Platform⦄ (ready : MemoryStore → Result (Unit {0})) (s : MemoryStore)
    (v : IsConsistent s) where
  -- the assignment of an Attempt after a write to it
  pub assignment_for_attempt-put :
      (t : MemoryStore) (a : Text) (r r' : AssignmentRecord)
      → assignment_for_attempt ready a s ≡ ok r
      → r'.identity ≡ r.identity
      → t.assignments ≡ set_item s.assignments (message_id_of r) r'
      → t.attempts ≡ s.attempts
      → ready t ≡ ok tt
      → assignment_for_attempt ready a t ≡ ok r'
  unfolding assignment_for_attempt assignment
  assignment_for_attempt-put t a r r' h same put left open_ =
      let (m, at, found) = attempt_message ready s a r h in
      let there = assignment_found ready s m r found in
      let valid = v.index.valid m r there in
      ground (
        arith,
        v.index.filed m r there,
        get-set_item s.assignments (message_id_of r) m r',
        text_eq.same_iff (message_id_of r) m,
        ap (λ x. get x a) left,
        ap (λ x. get x m) put,
        copy_assignment_valid r',
      )

  -- the sequences of a consistent spool are at most the count of its assignment
  pub spool_keys :
      (a : Text) (r : AssignmentRecord)
      → assignment_for_attempt ready a s ≡ ok r
      → IsSound (events_of s a) (get s.results a) r
  spool_keys a r h =
      let (there, mine) = attempt_found ready s a r v.index h in
      subst (λ b. IsSound (events_of s b) (get s.results b) r) mine
        (v.sound (message_id_of r) r there)

  added_events :
      (a : Text) (r' : AssignmentRecord) (n : ℕ) (e : EventRecord)
      → events_of (put_assignment r' (add_event a (n + 1) e s)) a
        ≡ set_item (events_of s a) (n + 1) e
  unfolding events_of
  added_events a r' n e =
      ground (
        arith,
        get-set_item s.events a a (set_item (events_of s a) (n + 1) e),
        text_eq.same_iff a a,
      )

  appended-pending :
      (a : Text) (r : AssignmentRecord) (e : EventRecord) (now : ℕ)
      → assignment_for_attempt ready a s ≡ ok r
      → let t =
          put_assignment
            (record r { last_client_event_seq = r.last_client_event_seq + 1; updated_at = now })
            (add_event a (r.last_client_event_seq + 1) e s) in
        (ready t ≡ ok tt
          → pending_events ready a t ≡ ok (unacked r (sort_items (events_of s a)) ++ e ∷ []))
  unfolding pending_events event_acked
  appended-pending a r e now h open_ =
      let n = r.last_client_event_seq in
      let d = events_of s a in
      let r' : AssignmentRecord = record r { last_client_event_seq = n + 1; updated_at = now } in
      let t : MemoryStore = put_assignment r' (add_event a (n + 1) e s) in
      let sound = spool_keys a r h in
      let found = assignment_for_attempt-put t a r r' h refl refl refl open_ in
      let there : events_of t a ≡ set_item d (n + 1) e = added_events a r' n e in
      let sorted = sort_items-set_item n e d (keys_below n d (λ q x g. (sound.within q x g).1)) in
      let last =
        unacked_last r' (n + 1) e (sort_items d)
          (not_acked r (n + 1) n (omega arith) sound.acked) in
      rw (found, pending_events)
        (cc (there, sorted, last, unacked_same r r' (sort_items d) (λ q. refl)))

  acked-pending :
      (a : Text) (r : AssignmentRecord) (q now : ℕ)
      → assignment_for_attempt ready a s ≡ ok r
      → let t = put_assignment (record (apply_event_ack r q) { updated_at = now }) s in
        (ready t ≡ ok tt
          → pending_events ready a t ≡ ok (without_seq q (unacked r (sort_items (events_of s a)))))
  unfolding pending_events apply_event_ack event_acked events_of
  acked-pending a r q now h open_ =
      let r' : AssignmentRecord = record (apply_event_ack r q) { updated_at = now } in
      let t : MemoryStore = put_assignment r' s in
      let found = assignment_for_attempt-put t a r r' h refl refl refl open_ in
      let numbered = sort_items-Numbered (events_of s a) (spool_keys a r h).numbered in
      rw (found, pending_events)
        (ap ok (
          unacked_without r r' q (sort_items (events_of s a)) numbered
            (λ k. event_acked-apply_event_ack r q k)))

  -- a found assignment shows that the store is ready
  found_ready :
      (a : Text) (r : AssignmentRecord) → assignment_for_attempt ready a s ≡ ok r → ready s ≡ ok tt
  unfolding assignment
  found_ready a r h = let (m, at, found) = attempt_message ready s a r h in ground arith

  pending_before :
      (a : Text) (r : AssignmentRecord) (before : List EventRecord)
      → assignment_for_attempt ready a s ≡ ok r
      → pending_events ready a s ≡ ok before
      → before ≡ unacked r (sort_items (events_of s a))
  unfolding pending_events
  pending_before a r before h g = ground arith

module _ ⦃p : Platform⦄ (s : MemoryStore) (v : IsConsistent s) (a : Text)
    (before : List EventRecord) (pending : pending_events memory_ready a s ≡ ok before) where
  -- An Event that `append_event` returns stands last among the pending Events of its Attempt, behind
  -- those that were pending before.
  pub append_event-pending :
      (event_type : Text) (payload : Fields) (event_id : Text) (created updated : ℕ)
      (e : EventRecord)
      → (append_event memory_ready a event_type payload event_id created updated s).0 ≡ ok e
      → pending_events memory_ready a
          (append_event memory_ready a event_type payload event_id created updated s).1
        ≡ ok (before ++ e ∷ [])
  unfolding append_event memory_ready
  append_event-pending event_type payload event_id created updated e =
      elim (Result-cases (assignment_for_attempt memory_ready a s)) [
        | inr (x, h) ↦ rw (h, append_event) (λ q. cc q)
        | inl (r, h) ↦ elim (Bool-cases (r.state == started)) [
          | inr f ↦ rw (h, f, append_event) (λ q. cc q)
          | inl t ↦
              rw (h, t, append_event, pending_before memory_ready s v a r before h pending)
                (λ q.
                  appended-pending memory_ready s v a r _ updated h
                    (found_ready memory_ready s v a r h)
                  ∙ cc q)
        ]
      ]

  -- An Event whose acknowledgement `ack_event` accepts is no longer pending; the other Events are, in
  -- the same order.
  pub ack_event-pending :
      (event_id : Text) (seq now : ℕ)
      → (ack_event memory_ready a event_id seq now s).0 ≡ ok tt
      → pending_events memory_ready a (ack_event memory_ready a event_id seq now s).1
        ≡ ok (without_seq seq before)
  unfolding ack_event memory_ready apply_event_ack
  ack_event-pending event_id seq now =
      elim (Result-cases (assignment_for_attempt memory_ready a s)) [
        | inr (x, h) ↦ rw (h, ack_event) (λ q. cc q)
        | inl (r, h) ↦ elim (Option-cases (get (events_of s a) seq)) [
          | inl g ↦ rw (h, g, ack_event) (λ q. cc q)
          | inr (e, g) ↦ elim (Bool-cases (e.client_event_id == event_id)) [
            | inr f ↦ rw (h, g, f, ack_event) (λ q. cc q)
            | inl t ↦
                rw (h, g, t, ack_event, pending_before memory_ready s v a r before h pending)
                  (λ q.
                    acked-pending memory_ready s v a r seq now h
                      (found_ready memory_ready s v a r h))
          ]
        ]
      ]
