-- ===== src/Store/Methods.antt =====
-- The methods of `MemoryRuntimeStore` (src/openlinker/runtime/store.py) that find, add and change
-- assignments, Events and Results.
use openlinker_python.Prelude.{
  ℕ, ◌+◌, not, ◌&&◌, ◌||◌, List, [], ◌==◌, nat_eq, text_eq, if◌then◌else◌, Text, text, Option, none,
  some, ℤ, pos, length, contains, is_some,
}
use openlinker_python.Text.{is_empty}
use openlinker_python.Dict.{get, set_item, pop, values}
use openlinker_python.Json.{Fields, get_field}
use openlinker_python.Json.Convert.{str_of, int_of}
use openlinker_python.Platform.{Platform}
use openlinker_python.Errors.{
  Result, ok, assignment_not_found, events_need_started, result_needs_started, delete_non_terminal,
  delete_with_spool, clear_non_terminal, discard_non_terminal, assignment_conflict,
  attempt_has_assignment, invalid_transition, event_ack_mismatch, result_conflict,
  result_ack_mismatch, not_an_integer,
}
use openlinker_python.Exec.{Exec, pure, raise, read, checked, ◌>>=◌}
use openlinker_python.Store.State.{
  State, received, started, finished, result_acked, revoked, state_eq, transitions, is_terminal,
}
use openlinker_python.Store.Records.{
  AssignmentRecord, EventRecord, ResultRecord, attempt_id_of, message_id_of, identity_beq,
  object_beq, copy_assignment,
}
use openlinker_python.Store.Acks.{apply_event_ack}
use openlinker_python.Store.Memory.{
  MemoryStore, RuntimeSpoolStatus, or_raise, ◌>>>◌, put_assignment, events_of, sort_items, unacked,
  ranges_events, full_payload, add_event, copy_all, total_events,
}

-- `int(payload.get("final_client_event_seq", last))`
unfoldable pub final_seq_for : Fields → ℕ → Result ℤ
final_seq_for payload last = elim (get_field payload (text "final_client_event_seq")) [
  | none ↦ ok (pos last)
  | some v ↦ or_raise (int_of v) not_an_integer
]

-- the Result that `store_result` makes
unfoldable pub new_result : AssignmentRecord → Fields → Text → ℤ → ℕ → ResultRecord
new_result r payload result_id final created = record {
  identity = r.identity;
  result_id = result_id;
  final_client_event_seq = final;
  payload = full_payload payload result_id final;
  created_at = created;
}

-- the assignment that `store_result` leaves
unfoldable pub with_result : AssignmentRecord → Text → ℤ → ℕ → AssignmentRecord
with_result r result_id final now = record r {
  result_id = result_id;
  final_client_event_seq = final;
  state = if r.state == started then finished else r.state;
  updated_at = now;
}

module _ ⦃p : Platform⦄ where
  -- the part of `create_assignment` for a new message
  unfoldable pub insert_assignment : AssignmentRecord → Exec MemoryStore AssignmentRecord
  insert_assignment r = do
    copied ← read (λ s. copy_assignment r)
    (λ s. (
      copy_assignment r,
      record (put_assignment copied s) {
        attempts = set_item s.attempts (attempt_id_of r) (message_id_of r);
      },
    ))

  -- the end of `advance_assignment`
  unfoldable pub move_assignment : AssignmentRecord → Exec MemoryStore AssignmentRecord
  move_assignment r = do
    copied ← read (λ s. copy_assignment r)
    (λ s. (ok r, put_assignment copied s))

  -- `str(payload.get("result_id", "")) or str(uuid.uuid4())`
  unfoldable pub result_id_for : Fields → Text → Text
  result_id_for payload fresh =
      let given : Text = elim (get_field payload (text "result_id")) [
        | none ↦ []
        | some v ↦ str_of v
      ] in
      if is_empty given then fresh else given

module _ ⦃p : Platform⦄ (ready : MemoryStore → Result (Unit {0})) where
  -- `assignment`
  unfoldable pub assignment : Text → MemoryStore → Result AssignmentRecord
  assignment message_id s = ready s >>> λ _.
      or_raise (get s.assignments message_id) assignment_not_found >>> copy_assignment

  -- `assignment_for_attempt`
  unfoldable pub assignment_for_attempt : Text → MemoryStore → Result AssignmentRecord
  assignment_for_attempt attempt_id s =
      or_raise (get s.attempts attempt_id) assignment_not_found >>> λ message_id.
      assignment message_id s

  -- `assignments`
  unfoldable pub all_assignments : MemoryStore → Result (List AssignmentRecord)
  all_assignments s = ready s >>> λ _. copy_all (values s.assignments)

  unfoldable pub spool_status : MemoryStore → Result RuntimeSpoolStatus
  spool_status s = ready s >>> λ _. ok (record {
    assignments = length s.assignments;
    events = total_events s.events;
    results = length s.results;
  })

  unfoldable pub pending_events : Text → MemoryStore → Result (List EventRecord)
  pending_events attempt_id s = assignment_for_attempt attempt_id s >>> λ r.
      ok (unacked r (sort_items (events_of s attempt_id)))

  unfoldable pub events_in_ranges : Text → List (ℕ × ℕ) → MemoryStore → Result (List EventRecord)
  events_in_ranges attempt_id ranges s =
      assignment_for_attempt attempt_id s >>> λ _. ranges_events (events_of s attempt_id) 0 ranges

  unfoldable pub pending_result : Text → MemoryStore → Result (Option ResultRecord)
  pending_result attempt_id s = ready s >>> λ _. ok (get s.results attempt_id)

  unfoldable pub create_assignment : AssignmentRecord → ℕ → Exec MemoryStore AssignmentRecord
  create_assignment r now = do
    _ ← read ready
    existing ← read (λ s. ok (get s.assignments (message_id_of r)))
    elim existing [
      | some old ↦
          checked (identity_beq old.identity r.identity && object_beq old.input r.input)
            assignment_conflict (pure old)
      | none ↦ do
        taken ← read (λ s. ok (is_some (get s.attempts (attempt_id_of r))))
        checked (not taken) attempt_has_assignment
            (insert_assignment (record r { state = received; updated_at = now }))
    ]

  unfoldable pub advance_assignment : Text → State → ℕ → Exec MemoryStore AssignmentRecord
  advance_assignment message_id state now = do
    r ← read (assignment message_id)
    if state == r.state
        then pure r
        else checked (contains (transitions r.state) state) invalid_transition
            (move_assignment (record r { state = state; updated_at = now }))

  unfoldable pub delete_assignment : Text → Exec MemoryStore (Unit {0})
  delete_assignment message_id = do
    r ← read (assignment message_id)
    checked (is_terminal r.state) delete_non_terminal do
      kept ← read (λ s. ok (
          not (is_empty (events_of s (attempt_id_of r)))
          || is_some (get s.results (attempt_id_of r))))
      checked (not kept) delete_with_spool (λ s. (
        ok tt,
        record s {
          assignments = pop s.assignments message_id;
          attempts = pop s.attempts (attempt_id_of r);
        },
      ))

  -- The identifier and the two times are those that the method draws.
  unfoldable pub append_event : Text → Text → Fields → Text → ℕ → ℕ → Exec MemoryStore EventRecord
  append_event attempt_id event_type payload event_id created updated = do
    r ← read (assignment_for_attempt attempt_id)
    checked (r.state == started) events_need_started (
        let sequence = r.last_client_event_seq + 1 in
        let event : EventRecord = record {
          identity = r.identity;
          client_event_id = event_id;
          client_event_seq = sequence;
          event_type = event_type;
          payload = payload;
          created_at = created;
        } in
        λ s. (
          ok event,
          put_assignment (record r { last_client_event_seq = sequence; updated_at = updated })
              (add_event attempt_id sequence event s),
        ))

  unfoldable pub ack_event : Text → Text → ℕ → ℕ → Exec MemoryStore (Unit {0})
  ack_event attempt_id event_id event_seq now = do
    r ← read (assignment_for_attempt attempt_id)
    found ← read (λ s. ok (get (events_of s attempt_id) event_seq))
    elim found [
      | none ↦ raise event_ack_mismatch
      | some e ↦ checked (e.client_event_id == event_id) event_ack_mismatch (λ s.
          (ok tt, put_assignment (record (apply_event_ack r event_seq) { updated_at = now }) s))
    ]

  unfoldable pub store_result : Text → Fields → Text → ℕ → ℕ → Exec MemoryStore ResultRecord
  unfolding new_result with_result
  store_result attempt_id payload fresh created updated = do
    r ← read (assignment_for_attempt attempt_id)
    checked (r.state == started || r.state == finished) result_needs_started do
      found ← read (λ s. ok (get s.results attempt_id))
      elim found [
        | some old ↦ checked (object_beq old.payload payload) result_conflict (pure old)
        | none ↦ do
          final ← read (λ s. final_seq_for payload r.last_client_event_seq)
          let result_id = result_id_for payload fresh
          let result = new_result r payload result_id final created
          (λ s. (
            ok result,
            put_assignment (with_result r result_id final updated)
                (record s { results = set_item s.results attempt_id result }),
          ))
      ]

  unfoldable pub ack_result : Text → Text → ℕ → Exec MemoryStore (Unit {0})
  ack_result attempt_id result_id now = do
    r ← read (assignment_for_attempt attempt_id)
    found ← read (λ s. ok (get s.results attempt_id))
    elim found [
      | none ↦ raise result_ack_mismatch
      | some old ↦ checked (old.result_id == result_id) result_ack_mismatch (λ s. (
        ok tt,
        put_assignment (record r { state = result_acked; updated_at = now })
            (record s { results = pop s.results attempt_id }),
      ))
    ]

  unfoldable pub clear_terminal_events : Text → Exec MemoryStore (Unit {0})
  clear_terminal_events attempt_id = do
    r ← read (assignment_for_attempt attempt_id)
    checked (r.state == result_acked || r.state == revoked) clear_non_terminal
        (λ s. (ok tt, record s { events = pop s.events attempt_id }))

  unfoldable pub discard_terminal_spool : Text → Exec MemoryStore (Unit {0})
  discard_terminal_spool attempt_id = do
    r ← read (assignment_for_attempt attempt_id)
    checked (is_terminal r.state) discard_non_terminal (λ s.
        (ok tt, record s { events = pop s.events attempt_id; results = pop s.results attempt_id }))
