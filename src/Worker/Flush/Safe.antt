-- ===== src/Worker/Flush/Safe.antt =====
-- What the sending of Events in src/openlinker/runtime/worker.py leaves in the store, where nothing else
-- runs during its waits.
use openlinker_python.Prelude.{ℕ, ◌≡◌, refl, ◌∙◌, ap, nat_eq, List, [], ◌∷◌, Text, arith, inl, inr}
use openlinker_python.Platform.{Platform}
use openlinker_python.Json.{Json}
use openlinker_python.Errors.{Result, ok, Result-cases}
use openlinker_python.Store.Records.{EventRecord}
use openlinker_python.Store.Memory.{MemoryStore, memory_ready}
use openlinker_python.Store.Methods.{pending_events}
use openlinker_python.Store.Invariant.{IsConsistent}
use openlinker_python.Store.Sorting.{without_seq}
use openlinker_python.Store.Pending.{ack_event-pending}
use openlinker_python.Store.Preserves.Events.{ack_event-IsConsistent}
use openlinker_python.Worker.Flush.{send_one, send_all, flush_events, validate_event_ack}

-- the Events of a list without those of another
abbrev pub without_all : List EventRecord → List EventRecord → List EventRecord
without_all [] rest = rest
without_all (e ∷ es) rest = without_all es (without_seq e.client_event_seq rest)

without_seq-without_seq :
    (n k : ℕ) (es : List EventRecord)
    → without_seq n (without_seq k es) ≡ without_seq k (without_seq n es)
unfolding without_seq
without_seq-without_seq n k [] = refl
without_seq-without_seq n k (e ∷ es) = ground (arith, without_seq-without_seq n k es)

without_all-without_seq :
    (es : List EventRecord) (n : ℕ) (rest : List EventRecord)
    → without_all es (without_seq n rest) ≡ without_seq n (without_all es rest)
without_all-without_seq [] n rest = refl
without_all-without_seq (e ∷ es) n rest =
    ap (without_all es) (without_seq-without_seq e.client_event_seq n rest)
    ∙ without_all-without_seq es n (without_seq e.client_event_seq rest)

without_all_self : (es : List EventRecord) → without_all es es ≡ []
without_all_self [] = refl
without_all_self (e ∷ es) =
    let n = e.client_event_seq in
    let first : without_seq n (e ∷ es) ≡ without_seq n es = unfold without_seq in ground arith in
    ap (without_all es) first
    ∙ without_all-without_seq es n es
    ∙ ap (without_seq n) (without_all_self es)
    ∙ (unfold without_seq in refl)

module _ ⦃p : Platform⦄ (send_event : EventRecord → Result Json) (a : Text) (now : ℕ) where
  send_one-IsConsistent :
      (e : EventRecord) (s : MemoryStore)
      → IsConsistent s
      → IsConsistent (send_one send_event a e now s).1
  unfolding send_one
  send_one-IsConsistent e s v = elim (Result-cases (send_event e)) [
    | inr (x, q) ↦ rw (q, send_one) v
    | inl (ack, q) ↦
        elim (Result-cases (validate_event_ack ack e.client_event_id e.client_event_seq)) [
          | inr (x, k) ↦ rw (q, k, send_one) v
          | inl (u, k) ↦
              rw (q, k, send_one)
                (ack_event-IsConsistent memory_ready s v a e.client_event_id e.client_event_seq now)
        ]
  ]

  send_all-IsConsistent :
      (es : List EventRecord) (s : MemoryStore)
      → IsConsistent s
      → IsConsistent (send_all send_event a es now s).1
  unfolding send_all
  send_all-IsConsistent [] s v = v
  send_all-IsConsistent (e ∷ es) s v =
      grind (arith, send_one-IsConsistent e s v, send_all-IsConsistent es)

  send_one-pending :
      (e : EventRecord) (s : MemoryStore) (before : List EventRecord)
      → IsConsistent s
      → pending_events memory_ready a s ≡ ok before
      → (send_one send_event a e now s).0 ≡ ok tt
      → pending_events memory_ready a (send_one send_event a e now s).1
        ≡ ok (without_seq e.client_event_seq before)
  unfolding send_one
  send_one-pending e s before v pending h =
      ground
        (arith, ack_event-pending s v a before pending e.client_event_id e.client_event_seq now)

  send_all-pending :
      (es : List EventRecord) (s : MemoryStore) (before : List EventRecord)
      → IsConsistent s
      → pending_events memory_ready a s ≡ ok before
      → (send_all send_event a es now s).0 ≡ ok tt
      → pending_events memory_ready a (send_all send_event a es now s).1
        ≡ ok (without_all es before)
  unfolding send_all
  send_all-pending [] s before v pending h = pending
  send_all-pending (e ∷ es) s before v pending h =
      elim (Result-cases (send_one send_event a e now s).0) [
        | inr (x, q) ↦ absurd (ground arith)
        | inl (u, q) ↦
            rw (q, send_all)
              (send_all-pending es (send_one send_event a e now s).1
                (without_seq e.client_event_seq before) (send_one-IsConsistent e s v)
                (send_one-pending e s before v pending q) (ground arith))
      ]

  pub flush_events-pending :
      (s : MemoryStore)
      → IsConsistent s
      → IsConsistent (flush_events send_event a now s).1
        × ((flush_events send_event a now s).0 ≡ ok tt
            → pending_events memory_ready a (flush_events send_event a now s).1 ≡ ok [])
  unfolding flush_events
  flush_events-pending s v = elim (Result-cases (pending_events memory_ready a s)) [
    | inr (x, q) ↦ rw (q, flush_events) (v, λ h. absurd (ground arith))
    | inl (es, q) ↦
        rw (q, flush_events)
          (
            send_all-IsConsistent es s v,
            λ h. send_all-pending es s es v q h ∙ ap ok (without_all_self es),
          )
  ]
