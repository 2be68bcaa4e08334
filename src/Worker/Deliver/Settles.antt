-- ===== src/Worker/Deliver/Settles.antt =====
-- The end of an Attempt whose spool the platform takes (src/openlinker/runtime/worker.py).
use openlinker_python.Prelude.{
  ℕ, ◌≡◌, refl, sym, ap, ◌∙◌, true, false, List, [], ◌∷◌, Text, text_eq, nat_eq, none, some, arith,
  inl, inr,
}
use mathlib.Core.Path.{subst}
use openlinker_python.Dict.{Dict, get, pop, get-set_item, get-pop}
use openlinker_python.Json.{Json}
use openlinker_python.Platform.{Platform}
use openlinker_python.Errors.{Result, ok, Result-cases}
use openlinker_python.Store.State.{result_acked, state_eq, is_terminal}
use openlinker_python.Store.Records.{
  AssignmentRecord, EventRecord, ResultRecord, LocalAttemptIdentity, attempt_id_of, message_id_of,
}
use openlinker_python.Store.Acks.{apply_event_ack}
use openlinker_python.Store.Memory.{
  MemoryStore, memory_ready, put_assignment, events_of, sort_items, unacked,
}
use openlinker_python.Store.Methods as store
use openlinker_python.Store.Invariant.{IsConsistent}
use openlinker_python.Store.Preserves.Assignments.{delete_assignment-IsConsistent}
use openlinker_python.Store.Preserves.Events.{ack_event-IsConsistent}
use openlinker_python.Store.Preserves.Results.{
  ack_result-IsConsistent, clear_terminal_events-IsConsistent,
}
use openlinker_python.Worker.Run.{◌>>=◌}
use openlinker_python.Worker.Attempts.{
  Worker, remove_active_attempt, Meanwhile, Wait, for_event, for_result,
}
use openlinker_python.Worker.Attempts.Revoke.{Holds, held_by_attempt, deleted}
use openlinker_python.Worker.Ranges.Resend.{Chain, pending-Chain}
use openlinker_python.Worker.Flush.{send_one, send_all, flush_events, validate_event_ack}
use openlinker_python.Worker.Flush.Safe.{flush_events-pending}
use openlinker_python.Worker.Answers.{validate_result_ack}
use openlinker_python.Worker.Deliver.{
  deliver_event, deliver_events, flush_pending, Answers, send_result, settle, flush_result,
  flush_attempt_spool,
}

-- The platform answers each Event with a valid acknowledgement.
abbrev pub Accepts : (EventRecord → Result Json) → Type 0
Accepts send =
    (e : EventRecord)
    → (v : Json) × (send e ≡ ok v)
      × (validate_event_ack v e.client_event_id e.client_event_seq ≡ ok tt)

-- The other tasks leave the store alone.
abbrev pub IsQuiet : Meanwhile → Type 0
IsQuiet meanwhile = (x : Wait) (w : Worker) → (meanwhile x w).store ≡ w.store

-- The end of a method that delivered the spool of an Attempt.
pub record IsDelivered ⦃p : Platform⦄ (i : LocalAttemptIdentity) (r : Result (Unit {0}))
    (w : Worker) : Type 0 where
  pub returns : r ≡ ok tt
  pub no_assignment : get w.store.assignments i.assignment_message_id ≡ none
  pub no_attempt : get w.store.attempts i.attempt.attempt_id ≡ none
  pub no_events : events_of w.store i.attempt.attempt_id ≡ []
  pub no_result : get w.store.results i.attempt.attempt_id ≡ none
  pub consistent : IsConsistent w.store
  pub not_active : get w.active i.attempt.attempt_id ≡ none
  pub no_permission : get w.spool_permissions i.attempt.attempt_id ≡ none

module _ ⦃p : Platform⦄ (i : LocalAttemptIdentity) (d : Dict ℕ EventRecord) (y : ResultRecord) where
  -- The store holds an assignment of this identity, with these Events and this Result.
  record Carries (s : MemoryStore) : Type 0 where
    current : AssignmentRecord
    same : current.identity ≡ i
    holds : Holds s current
    events : events_of s i.attempt.attempt_id ≡ d
    result : get s.results i.attempt.attempt_id ≡ some y

  abbrev a : Text
  a = i.attempt.attempt_id

  found :
      (s : MemoryStore) (c : Carries s)
      → store.assignment_for_attempt memory_ready a s ≡ ok c.current
  found s c =
      subst (λ j. store.assignment_for_attempt memory_ready j.attempt.attempt_id s ≡ ok c.current)
        c.same (held_by_attempt s c.current c.holds)

  acked : (s : MemoryStore) → Carries s → ℕ → ℕ → AssignmentRecord
  acked s c q now = record (apply_event_ack c.current q) { updated_at = now }

  ack_event-eq :
      (s : MemoryStore) (c : Carries s) (e : EventRecord) (now : ℕ)
      → get d e.client_event_seq ≡ some e
      → store.ack_event memory_ready a e.client_event_id e.client_event_seq now s
        ≡ (ok tt, put_assignment (acked s c e.client_event_seq now) s)
  unfolding store.ack_event acked
  ack_event-eq s c e now at =
      let here : get (events_of s a) e.client_event_seq ≡ some e =
        ap (λ m. get m e.client_event_seq) c.events ∙ at in
      ground (arith, found s c, here, text_eq.same_iff e.client_event_id e.client_event_id)

  ack_event-Carries :
      (s : MemoryStore) (c : Carries s) (e : EventRecord) (now : ℕ)
      → get d e.client_event_seq ≡ some e
      → Carries (put_assignment (acked s c e.client_event_seq now) s)
  unfolding acked apply_event_ack events_of
  ack_event-Carries s c e now at = record {
    current = acked s c e.client_event_seq now;
    same = c.same;
    holds = record {
      consistent = subst IsConsistent (ap (λ t. t.1) (ack_event-eq s c e now at)) (
          ack_event-IsConsistent memory_ready s c.holds.consistent a e.client_event_id
            e.client_event_seq now);
      is_open = c.holds.is_open;
      there =
          let m = message_id_of c.current in
          ground (
            arith,
            get-set_item s.assignments m m (acked s c e.client_event_seq now),
            text_eq.same_iff m m,
          );
    };
    events = c.events;
    result = c.result;
  }

  module _ (send : EventRecord → Result Json) (accepts : Accepts send) (now : ℕ) where
    send_one-eq :
        (s : MemoryStore) (e : EventRecord)
        → send_one send a e now s
          ≡ store.ack_event memory_ready a e.client_event_id e.client_event_seq now s
    unfolding send_one
    send_one-eq s e = let (v, sent, valid) = accepts e in rw (sent, valid) refl

    -- Every Event of the spool that is sent is acknowledged.
    send_all-Carries :
        (es : List EventRecord) (b : ℕ) (s : MemoryStore)
        → Chain d b es
        → Carries s
        → ((send_all send a es now s).0 ≡ ok tt) × Carries (send_all send a es now s).1
    unfolding send_all
    send_all-Carries [] b s chain c = (refl, c)
    send_all-Carries (e ∷ es) b s chain c =
        rw (send_one-eq s e, ack_event-eq s c e now chain.1)
          (send_all-Carries es e.client_event_seq _ chain.2 (ack_event-Carries s c e now chain.1))

    flush_events-Carries :
        (s : MemoryStore)
        → Carries s
        → ((flush_events send a now s).0 ≡ ok tt) × Carries (flush_events send a now s).1
    unfolding flush_events store.pending_events
    flush_events-Carries s c =
        let es = unacked c.current (sort_items (events_of s a)) in
        let chain : Chain d 0 es =
          subst (λ m. Chain m 0 es) c.events
            (pending-Chain memory_ready s c.holds.consistent a c.current (found s c)) in
        rw (found s c) (send_all-Carries es 0 s chain c)

  module _ (s : MemoryStore) (c : Carries s) (now : ℕ) where
    abbrev settled : AssignmentRecord
    settled = record c.current { state = result_acked; updated_at = now }

    -- the store once the Result is acknowledged, once the Events are cleared, and in the end
    abbrev without_result : MemoryStore
    without_result = put_assignment settled (record s { results = pop s.results a })

    abbrev without_events : MemoryStore
    without_events = record without_result { events = pop s.events a }

    abbrev without_all : MemoryStore
    without_all = record without_events {
      assignments = pop without_events.assignments (message_id_of c.current);
      attempts = pop s.attempts a;
    }

    ack_result-eq : store.ack_result memory_ready a y.result_id now s ≡ (ok tt, without_result)
    unfolding store.ack_result
    ack_result-eq = ground (arith, found s c, c.result, text_eq.same_iff y.result_id y.result_id)

    settled_there : get without_result.assignments (message_id_of c.current) ≡ some settled
    settled_there =
        let m = message_id_of c.current in
        ground (arith, get-set_item s.assignments m m settled, text_eq.same_iff m m)

    without_result-Holds : Holds without_result settled
    without_result-Holds = record {
      consistent =
          subst IsConsistent (ap (λ t. t.1) ack_result-eq)
            (ack_result-IsConsistent memory_ready s c.holds.consistent a y.result_id now);
      is_open = c.holds.is_open;
      there = settled_there;
    }

    mine : attempt_id_of settled ≡ a
    mine = ap (λ j. j.attempt.attempt_id) c.same

    clear-eq : store.clear_terminal_events memory_ready a without_result ≡ (ok tt, without_events)
    unfolding store.clear_terminal_events
    clear-eq =
        let there : store.assignment_for_attempt memory_ready a without_result ≡ ok settled =
          subst (λ b. store.assignment_for_attempt memory_ready b without_result ≡ ok settled) mine
            (held_by_attempt without_result settled without_result-Holds) in
        rw (there, store.clear_terminal_events) refl

    without_events-Holds : Holds without_events settled
    without_events-Holds = record {
      consistent = subst IsConsistent (ap (λ t. t.1) clear-eq) (
          clear_terminal_events-IsConsistent memory_ready without_result
            without_result-Holds.consistent a);
      is_open = c.holds.is_open;
      there = settled_there;
    }

    delete-eq :
        store.delete_assignment memory_ready (message_id_of c.current) without_events
        ≡ (ok tt, without_all)
    delete-eq =
        let no_events : events_of without_events a ≡ [] =
          unfold events_of in ground (arith, get-pop s.events a a, text_eq.same_iff a a) in
        let no_result : get (pop s.results a) a ≡ none =
          ground (arith, get-pop s.results a a, text_eq.same_iff a a) in
        deleted without_events settled without_events-Holds (unfold is_terminal in refl)
          (ap (events_of without_events) mine ∙ no_events)
          (ap (get (pop s.results a)) mine ∙ no_result)
        ∙ ap (λ b. (ok tt, record without_all { attempts = pop s.attempts b })) mine

    without_all-IsConsistent : IsConsistent without_all
    without_all-IsConsistent = subst IsConsistent (ap (λ t. t.1) delete-eq) (
        delete_assignment-IsConsistent memory_ready without_events without_events-Holds.consistent
          (message_id_of c.current))

    -- the worker in the end
    abbrev delivered : Worker → Worker
    delivered w = record w {
      store = without_all;
      active = pop w.active a;
      spool_permissions = pop w.spool_permissions a;
    }

    delivered-IsDelivered : (w : Worker) → IsDelivered i (ok tt) (delivered w)
    delivered-IsDelivered w =
        let gone : get without_all.assignments (message_id_of c.current) ≡ none = ground (
          arith,
          get-pop without_events.assignments (message_id_of c.current) (message_id_of c.current),
          text_eq.same_iff (message_id_of c.current) (message_id_of c.current),
        ) in
        let self = text_eq.same_iff a a in
        record {
          returns = refl;
          no_assignment =
              ap (get without_all.assignments) (sym (ap (λ j. j.assignment_message_id) c.same))
              ∙ gone;
          no_attempt = ground (arith, get-pop s.attempts a a, self);
          no_events = unfold events_of in ground (arith, get-pop s.events a a, self);
          no_result = ground (arith, get-pop s.results a a, self);
          consistent = without_all-IsConsistent;
          not_active = ground (arith, get-pop w.active a a, self);
          no_permission = ground (arith, get-pop w.spool_permissions a a, self);
        }

    module _ (meanwhile : Meanwhile) (quiet : IsQuiet meanwhile) (answers : Answers) (v : Json)
        (taken : answers.result ≡ ok v) (valid : validate_result_ack v y.result_id ≡ ok tt)
        (x : AssignmentRecord) (named : x.identity ≡ i) where
      settle-eq :
          (w : Worker)
          → w.store ≡ s
          → settle meanwhile answers x y now w
            ≡ (ok tt, delivered (meanwhile (for_result (attempt_id_of x)) w))
      unfolding ◌>>=◌ settle send_result remove_active_attempt
      settle-eq w at =
          let same : (meanwhile (for_result (attempt_id_of x)) w).store ≡ s =
            quiet (for_result (attempt_id_of x)) w ∙ at in
          ground (arith, named, c.same, same, taken, valid, ack_result-eq, clear-eq, delete-eq)

-- What is sent where the others leave the store alone is what is sent where they do nothing.
module _ ⦃p : Platform⦄ (send : EventRecord → Result Json) (waits : EventRecord → Worker → Worker)
    (quiet : (e : EventRecord) (w : Worker) → (waits e w).store ≡ w.store) (a : Text)
    (now : ℕ) where
  abbrev Agrees : Result (Unit {0}) × Worker → Result (Unit {0}) × MemoryStore → Type 0
  Agrees r q = (r.0 ≡ q.0) × (r.1.store ≡ q.1)

  deliver_event-Agrees :
      (e : EventRecord) (w : Worker)
      → Agrees (deliver_event send waits a e now w) (send_one send a e now w.store)
  unfolding ◌>>=◌ deliver_event send_one
  deliver_event-Agrees e w =
      let q = quiet e w in
      elim (Result-cases (send e)) [
        | inr (x, h) ↦ rw h (refl, q)
        | inl (ack, h) ↦
            elim (Result-cases (validate_event_ack ack e.client_event_id e.client_event_seq)) [
              | inr (x, k) ↦ rw (h, k) (refl, q)
              | inl (u, k) ↦ rw (h, k, q) (refl, refl)
            ]
      ]

  deliver_events-Agrees :
      (es : List EventRecord) (w : Worker)
      → Agrees (deliver_events send waits a es now w) (send_all send a es now w.store)
  unfolding ◌>>=◌ deliver_events send_all
  deliver_events-Agrees [] w = (refl, refl)
  deliver_events-Agrees (e ∷ es) w =
      let (r, t) = deliver_event-Agrees e w in
      elim (Result-cases (send_one send a e now w.store).0) [
        | inr (x, h) ↦ let h' = r ∙ h in rw (h, h') (refl, t)
        | inl (u, h) ↦
            let h' = r ∙ h in
            let (r2, t2) = deliver_events-Agrees es (deliver_event send waits a e now w).1 in
            rw (h, h', ← t) (r2, t2)
      ]

  flush_pending-Agrees :
      (w : Worker) → Agrees (flush_pending send waits a now w) (flush_events send a now w.store)
  unfolding ◌>>=◌ flush_pending flush_events
  flush_pending-Agrees w = elim (Result-cases (store.pending_events memory_ready a w.store)) [
    | inr (x, h) ↦ rw h (refl, refl)
    | inl (es, h) ↦ rw h (deliver_events-Agrees es w)
  ]

flush-eq :
    ⦃p : Platform⦄ (meanwhile : Meanwhile) (w w' w1 : Worker) (x : AssignmentRecord)
    (y : ResultRecord) (answers : Answers) (now : ℕ)
    → get w.spool_permissions (attempt_id_of x) ≡ some (true, true)
    → flush_pending answers.event (λ e. meanwhile (for_event e)) (attempt_id_of x) now w
      ≡ (ok tt, w1)
    → store.pending_events memory_ready (attempt_id_of x) w1.store ≡ ok []
    → store.pending_result memory_ready (attempt_id_of x) w1.store ≡ ok (some y)
    → settle meanwhile answers x y now w1 ≡ (ok tt, w')
    → flush_attempt_spool meanwhile answers x now w ≡ (ok tt, w')
unfolding ◌>>=◌ flush_attempt_spool flush_result
flush-eq meanwhile w w' w1 x y answers now permission sent left found ended =
    ground (arith, permission, sent, left, found, ended)

pending_result-eq :
    ⦃p : Platform⦄ (s : MemoryStore) (a : Text) (y : ResultRecord)
    → s.closed ≡ false
    → get s.results a ≡ some y
    → store.pending_result memory_ready a s ≡ ok (some y)
unfolding store.pending_result memory_ready
pending_result-eq s a y is_open found = rw (is_open, found) refl

-- An Attempt has a Result in an open and consistent store, and its Events and its Result may be sent.
-- When the platform answers each Event and the Result with a valid acknowledgement, and the other tasks
-- leave the store alone meanwhile, one flush of its spool returns, and then the store has neither its
-- assignment, nor an Event, nor its Result, and is consistent, and the worker has forgotten the
-- Attempt: nothing is left to be sent, and nothing can be sent twice.
pub flush_attempt_spool-IsDelivered :
    ⦃p : Platform⦄ (w : Worker) (x : AssignmentRecord)
    → Holds w.store x
    → (y : ResultRecord) → get w.store.results (attempt_id_of x) ≡ some y
    → get w.spool_permissions (attempt_id_of x) ≡ some (true, true)
    → (meanwhile : Meanwhile) → IsQuiet meanwhile
    → (answers : Answers) → Accepts answers.event
    → (v : Json) → answers.result ≡ ok v
    → validate_result_ack v y.result_id ≡ ok tt
    → (now : ℕ)
    → IsDelivered x.identity
        (flush_attempt_spool meanwhile answers x now w).0
        (flush_attempt_spool meanwhile answers x now w).1
flush_attempt_spool-IsDelivered w x h y result permission meanwhile quiet answers accepts v taken
      valid now =
    let i = x.identity in
    let a = attempt_id_of x in
    let d = events_of w.store a in
    let here : Carries i d y w.store = record {
      current = x;
      same = refl;
      holds = h;
      events = refl;
      result = result;
    } in
    let (sent, c) = flush_events-Carries i d y answers.event accepts now w.store here in
    let s = (flush_events answers.event a now w.store).1 in
    let left = (flush_events-pending answers.event a now w.store h.consistent).1 sent in
    let waits : EventRecord → Worker → Worker = λ e. meanwhile (for_event e) in
    let (returned, same) =
      flush_pending-Agrees answers.event waits (λ e. quiet (for_event e)) a now w in
    let w1 = (flush_pending answers.event waits a now w).1 in
    let w2 = meanwhile (for_result a) w1 in
    let all =
      flush-eq meanwhile w (delivered i d y s c now w2) w1 x y answers now permission
        (ap (λ r. (r, w1)) (returned ∙ sent)) (ap (store.pending_events memory_ready a) same ∙ left)
        (ap (store.pending_result memory_ready a) same
          ∙ pending_result-eq s a y c.holds.is_open c.result)
        (settle-eq i d y s c now meanwhile quiet answers v taken valid x refl w1 same) in
    rw all (delivered-IsDelivered i d y s c now w2)
