-- ===== src/Store/Preserves/Results.antt =====
-- `store_result`, `ack_result` and the clean-up of src/openlinker/runtime/store.py keep a store consistent.
use openlinker_python.Prelude.{
  ℕ, ◌≡◌, true, [], none, some, Text, text_eq, nat_eq, ◌==◌, arith, inl, inr, ◌⊎◌, sym, refl,
  Bool-cases, Option-cases, ◌||◌,
}
use mathlib.Core.Path.{subst}
use openlinker_python.Dict.{get, set_item, pop, get-set_item, get-pop}
use openlinker_python.Json.{Fields}
use openlinker_python.Platform.{Platform}
use openlinker_python.Errors.{Result, Result-cases}
use openlinker_python.Store.State.{
  State, started, finished, result_acked, revoked, is_terminal, state_eq,
}
use openlinker_python.Store.Records.{
  AssignmentRecord, ResultRecord, attempt_id_of, message_id_of, object_beq,
}
use openlinker_python.Store.Memory.{MemoryStore, events_of, put_assignment}
use openlinker_python.Store.Methods.{
  assignment_for_attempt, store_result, ack_result, clear_terminal_events, discard_terminal_spool,
  with_result, new_result, result_id_for, final_seq_for,
}
use openlinker_python.Store.Invariant.{IsSound, IsConsistent}
use openlinker_python.Store.Lookups.{attempt_found, events_of-pop}
use openlinker_python.Store.Preserves.Spool.{
  result-IsSound, settle-IsSound, clear-IsSound, unmatched-IsSound,
}
use openlinker_python.Store.Preserves.Puts.{put_result-IsConsistent, spool, spool-IsConsistent}

terminal_of : (s : State) → (s == result_acked || s == revoked) ≡ true → is_terminal s ≡ true
unfolding is_terminal
terminal_of s h = ground arith

running_of : (s : State) → (s == started || s == finished) ≡ true → (s ≡ started) ⊎ (s ≡ finished)
running_of s h = ground arith

module _ ⦃p : Platform⦄ (ready : MemoryStore → Result (Unit {0})) (s : MemoryStore)
    (v : IsConsistent s) where
  settled-IsConsistent :
      (r : AssignmentRecord)
      → get s.assignments (message_id_of r) ≡ some r
      → (now : ℕ)
      → IsConsistent (record s {
        assignments =
            set_item s.assignments
              (message_id_of r)
              (record r { state = result_acked; updated_at = now });
        results = pop s.results (attempt_id_of r);
      })
  settled-IsConsistent r there now =
      let a = attempt_id_of r in
      let law = λ (b : Text). get-pop s.results a b in
      let gone : get (pop s.results a) a ≡ none = ground (arith, law a, text_eq.same_iff a a) in
      put_result-IsConsistent s v r there _ _ refl
        (λ b ne. ground (arith, law b, text_eq.same_iff a b))
        (subst
          (λ f. IsSound (events_of s a) f (record r { state = result_acked; updated_at = now }))
          (sym gone) (settle-IsSound r (spool s v r there) now))

  pub ack_result-IsConsistent :
      (a result_id : Text) (now : ℕ) → IsConsistent (ack_result ready a result_id now s).1
  unfolding ack_result
  ack_result-IsConsistent a result_id now = elim (Result-cases (assignment_for_attempt ready a s)) [
    | inr (e, h) ↦ rw (h, ack_result) v
    | inl (r, h) ↦ elim (Option-cases (get s.results a)) [
      | inl g ↦ rw (h, g, ack_result) v
      | inr (x, g) ↦ elim (Bool-cases (x.result_id == result_id)) [
        | inr f ↦ rw (h, g, f, ack_result) v
        | inl t ↦
            let (there, mine) = attempt_found ready s a r v.index h in
            rw (h, g, t, ack_result, ← mine) (settled-IsConsistent r there now)
      ]
    ]
  ]

  -- the writes of `clear_terminal_events`
  cleared-IsConsistent :
      (r : AssignmentRecord)
      → get s.assignments (message_id_of r) ≡ some r
      → is_terminal r.state ≡ true
      → IsConsistent (record s { events = pop s.events (attempt_id_of r) })
  cleared-IsConsistent r there h =
      let a = attempt_id_of r in
      let law = λ (b : Text). events_of-pop s a b in
      spool-IsConsistent s v r there (pop s.events a) s.results []
        (ground (arith, law a, text_eq.same_iff a a))
        (λ b ne. ground (arith, law b, text_eq.same_iff a b)) (λ b ne. refl)
        (clear-IsSound r (spool s v r there) h)

  -- the writes of `discard_terminal_spool`
  discarded-IsConsistent :
      (r : AssignmentRecord)
      → get s.assignments (message_id_of r) ≡ some r
      → is_terminal r.state ≡ true
      → IsConsistent (record s {
        events = pop s.events (attempt_id_of r);
        results = pop s.results (attempt_id_of r);
      })
  discarded-IsConsistent r there h =
      let a = attempt_id_of r in
      let law = λ (b : Text). events_of-pop s a b in
      let gone : get (pop s.results a) a ≡ none =
        ground (arith, get-pop s.results a a, text_eq.same_iff a a) in
      spool-IsConsistent s v r there (pop s.events a) (pop s.results a) []
        (ground (arith, law a, text_eq.same_iff a a))
        (λ b ne. ground (arith, law b, text_eq.same_iff a b))
        (λ b ne. ground (arith, get-pop s.results a b, text_eq.same_iff a b))
        (subst (λ f. IsSound [] f r) (sym gone)
          (unmatched-IsSound r (clear-IsSound r (spool s v r there) h)))

  pub clear_terminal_events-IsConsistent :
      (a : Text) → IsConsistent (clear_terminal_events ready a s).1
  unfolding clear_terminal_events
  clear_terminal_events-IsConsistent a = elim (Result-cases (assignment_for_attempt ready a s)) [
    | inr (e, h) ↦ rw (h, clear_terminal_events) v
    | inl (r, h) ↦ elim (Bool-cases (r.state == result_acked || r.state == revoked)) [
      | inr f ↦ rw (h, f, clear_terminal_events) v
      | inl t ↦
          let (there, mine) = attempt_found ready s a r v.index h in
          rw (h, t, clear_terminal_events, ← mine)
            (cleared-IsConsistent r there (terminal_of r.state t))
    ]
  ]

  pub discard_terminal_spool-IsConsistent :
      (a : Text) → IsConsistent (discard_terminal_spool ready a s).1
  unfolding discard_terminal_spool
  discard_terminal_spool-IsConsistent a = elim (Result-cases (assignment_for_attempt ready a s)) [
    | inr (e, h) ↦ rw (h, discard_terminal_spool) v
    | inl (r, h) ↦ elim (Bool-cases (is_terminal r.state)) [
      | inr f ↦ rw (h, f, discard_terminal_spool) v
      | inl t ↦
          let (there, mine) = attempt_found ready s a r v.index h in
          rw (h, t, discard_terminal_spool, ← mine) (discarded-IsConsistent r there t)
    ]
  ]

  -- the writes of `store_result`
  stored-IsConsistent :
      (r : AssignmentRecord) (x : ResultRecord) (now : ℕ)
      → get s.assignments (message_id_of r) ≡ some r
      → (r.state == started || r.state == finished) ≡ true
      → IsConsistent (
          put_assignment
            (with_result r x.result_id x.final_client_event_seq now)
            (record s { results = set_item s.results (attempt_id_of r) x }))
  unfolding with_result
  stored-IsConsistent r x now there h =
      let a = attempt_id_of r in
      let law = λ (b : Text). get-set_item s.results a b x in
      let mine : get (set_item s.results a x) a ≡ some x =
        ground (arith, law a, text_eq.same_iff a a) in
      put_result-IsConsistent s v r there (with_result r x.result_id x.final_client_event_seq now)
        (set_item s.results a x) refl (λ b ne. ground (arith, law b, text_eq.same_iff a b))
        (subst
          (λ f. IsSound (events_of s a) f (with_result r x.result_id x.final_client_event_seq now))
          (sym mine) (result-IsSound r (spool s v r there) x now (running_of r.state h)))

  pub store_result-IsConsistent :
      (a : Text) (payload : Fields) (fresh : Text) (created updated : ℕ)
      → IsConsistent (store_result ready a payload fresh created updated s).1
  unfolding store_result
  store_result-IsConsistent a payload fresh created updated =
      elim (Result-cases (assignment_for_attempt ready a s)) [
        | inr (e, h) ↦ rw (h, store_result) v
        | inl (r, h) ↦ elim (Bool-cases (r.state == started || r.state == finished)) [
          | inr f ↦ rw (h, f, store_result) v
          | inl t ↦ elim (Option-cases (get s.results a)) [
            | inr (x, g) ↦ elim (Bool-cases (object_beq x.payload payload)) [
              | inl q ↦ rw (h, t, g, q, store_result) v
              | inr q ↦ rw (h, t, g, q, store_result) v
            ]
            | inl g ↦ elim (Result-cases (final_seq_for payload r.last_client_event_seq)) [
              | inr (e, q) ↦ rw (h, t, g, q, store_result) v
              | inl (n, q) ↦
                  let (there, mine) = attempt_found ready s a r v.index h in
                  rw (h, t, g, q, store_result, ← mine)
                    (stored-IsConsistent r
                      (new_result r payload (result_id_for payload fresh) n created) updated there
                      t)
            ]
          ]
        ]
      ]
