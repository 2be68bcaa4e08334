-- ===== src/Store/File/Methods.antt =====
-- The methods of `FileRuntimeStore` (src/openlinker/runtime/store.py) that change it.
use openlinker_python.Prelude.{
  ℕ, ◌+◌, not, ◌||◌, List, [], ◌∷◌, ◌==◌, nat_eq, text_eq, if◌then◌else◌, Text, none, some, true,
  is_some, map,
}
use openlinker_python.Text.{is_empty}
use openlinker_python.Dict.{get, set_item, pop, values}
use openlinker_python.Json.{Fields}
use openlinker_python.Platform.{Platform}
use openlinker_python.Errors.{
  Result, ok, events_need_started, delete_non_terminal, delete_with_spool, clear_non_terminal,
  discard_non_terminal, result_conflict, result_ack_mismatch,
}
use openlinker_python.Exec.{Exec, pure, raise, read, checked, ◌>>=◌}
use openlinker_python.Store.State.{State, started, result_acked, revoked, state_eq, is_terminal}
use openlinker_python.Store.Records.{
  AssignmentRecord, EventRecord, ResultRecord, attempt_id_of, object_beq,
}
use openlinker_python.Store.Memory.{MemoryStore, put_assignment, add_event, events_of, full_payload}
use openlinker_python.Store.Methods as memory
use openlinker_python.Store.File.{
  Device, FileStore, an_event, a_result, inherited, poisoning, change_memory, write_record,
  remove_record, remove_records, persist_assignment, ready_unless,
}
use openlinker_python.Store.File.Keys.{RecordPath, assignment_path, event_path, result_path}

-- the paths of the Events of an Attempt
abbrev pub event_paths : MemoryStore → Text → List RecordPath
event_paths m a = map (λ e. event_path a e.client_event_id) (values (events_of m a))

module _ ⦃p : Platform⦄ where
  -- the method `assignment`
  unfoldable pub find : Text → FileStore → Result AssignmentRecord
  find message_id s = memory.assignment (ready_unless s.poisoned) message_id s.memory

  -- the method `assignment_for_attempt`
  unfoldable pub find_attempt : Text → FileStore → Result AssignmentRecord
  find_attempt attempt_id s =
      memory.assignment_for_attempt (ready_unless s.poisoned) attempt_id s.memory

module _ ⦃p : Platform⦄ (device : Device) where
  unfoldable pub create_assignment : AssignmentRecord → ℕ → Exec FileStore AssignmentRecord
  create_assignment r now = do
    result ← inherited (λ ready. memory.create_assignment ready r now)
    _ ← poisoning (persist_assignment device result)
    pure result

  unfoldable pub advance_assignment : Text → State → ℕ → Exec FileStore AssignmentRecord
  advance_assignment message_id state now = do
    result ← inherited (λ ready. memory.advance_assignment ready message_id state now)
    _ ← poisoning (persist_assignment device result)
    pure result

  unfoldable pub delete_assignment : Text → Exec FileStore (Unit {0})
  delete_assignment message_id = do
    r ← read (find message_id)
    checked (is_terminal r.state) delete_non_terminal do
      kept ← read (λ s. ok (
          not (is_empty (events_of s.memory (attempt_id_of r)))
          || is_some (get s.memory.results (attempt_id_of r))))
      checked (not kept) delete_with_spool (
          poisoning do
            _ ← remove_record device (assignment_path message_id)
            change_memory (λ m. record m {
              assignments = pop m.assignments message_id;
              attempts = pop m.attempts (attempt_id_of r);
            }))

  unfoldable pub append_event : Text → Text → Fields → Text → ℕ → ℕ → Exec FileStore EventRecord
  append_event attempt_id event_type payload event_id created updated = do
    r ← read (find_attempt attempt_id)
    checked (r.state == started) events_need_started (
        let sequence = r.last_client_event_seq + 1 in
        let event : EventRecord = record {
          identity = r.identity;
          client_event_id = event_id;
          client_event_seq = sequence;
          event_type = event_type;
          payload = payload;
          created_at = created;
        } in
        let counted : AssignmentRecord = record r {
          last_client_event_seq = sequence;
          updated_at = updated;
        } in
        poisoning do
          _ ← write_record device (event_path attempt_id event_id) (an_event event)
          _ ← change_memory (λ m. put_assignment counted (add_event attempt_id sequence event m))
          _ ← persist_assignment device counted
          pure event)

  unfoldable pub ack_event : Text → Text → ℕ → ℕ → Exec FileStore (Unit {0})
  ack_event attempt_id event_id event_seq now = do
    _ ← inherited (λ ready. memory.ack_event ready attempt_id event_id event_seq now)
    poisoning do r ← read (find_attempt attempt_id); persist_assignment device r

  -- `store_result` where no Result is kept
  abbrev pub store_new : Text → Fields → Text → ℕ → ℕ → Exec FileStore ResultRecord
  store_new attempt_id payload fresh created updated = do
    r ← read (find_attempt attempt_id)
    final ← read (λ s. memory.final_seq_for payload r.last_client_event_seq)
    let result_id = memory.result_id_for payload fresh
    let result = memory.new_result r payload result_id final created
    let kept = memory.with_result r result_id final updated
    poisoning do
      _ ← write_record device (result_path attempt_id) (a_result result)
      _ ←
          change_memory
            (λ m. put_assignment kept (record m { results = set_item m.results attempt_id result }))
      _ ← persist_assignment device kept
      pure result

  -- A Result that is kept answers for its payload with or without the fields that were added to it.
  unfoldable pub store_result : Text → Fields → Text → ℕ → ℕ → Exec FileStore ResultRecord
  store_result attempt_id payload fresh created updated = do
    found ← read (λ s. ok (get s.memory.results attempt_id))
    elim found [
      | some old ↦
          checked
            (object_beq old.payload payload
              || object_beq old.payload
                  (full_payload payload old.result_id old.final_client_event_seq))
            result_conflict (pure old)
      | none ↦ store_new attempt_id payload fresh created updated
    ]

  -- `ack_result` where a Result is kept
  abbrev pub settle : Text → Text → ℕ → ResultRecord → Exec FileStore (Unit {0})
  settle attempt_id result_id now old = checked (old.result_id == result_id) result_ack_mismatch do
    r ← read (find_attempt attempt_id)
    let settled : AssignmentRecord = record r { state = result_acked; updated_at = now }
    _ ← change_memory (put_assignment settled)
    poisoning do
      _ ← persist_assignment device settled
      _ ← remove_record device (result_path attempt_id)
      change_memory (λ m. record m { results = pop m.results attempt_id })

  unfoldable pub ack_result : Text → Text → ℕ → Exec FileStore (Unit {0})
  ack_result attempt_id result_id now = do
    found ← read (λ s. ok (get s.memory.results attempt_id))
    elim found [ none ↦ raise result_ack_mismatch | some old ↦ settle attempt_id result_id now old ]

  unfoldable pub clear_terminal_events : Text → Exec FileStore (Unit {0})
  clear_terminal_events attempt_id = do
    r ← read (find_attempt attempt_id)
    checked (r.state == result_acked || r.state == revoked) clear_non_terminal (
        poisoning do
          m ← read (λ s. ok s.memory)
          _ ← remove_records device (event_paths m attempt_id)
          change_memory (λ n. record n { events = pop n.events attempt_id }))

  unfoldable pub discard_terminal_spool : Text → Exec FileStore (Unit {0})
  discard_terminal_spool attempt_id = do
    r ← read (find_attempt attempt_id)
    checked (is_terminal r.state) discard_non_terminal (
        poisoning do
          m ← read (λ s. ok s.memory)
          _ ← remove_records device (event_paths m attempt_id)
          _ ←
              remove_records device
                (if is_some (get m.results attempt_id) then result_path attempt_id ∷ [] else [])
          change_memory (λ n. record n {
            events = pop n.events attempt_id;
            results = pop n.results attempt_id;
          }))

-- `close`: the key and the lock are not part of the model
unfoldable pub close : FileStore → FileStore
close s = record s { memory = record s.memory { closed = true } }
