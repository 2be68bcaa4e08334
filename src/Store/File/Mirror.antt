-- ===== src/Store/File/Mirror.antt =====
-- A `FileRuntimeStore` (src/openlinker/runtime/store.py) that is not poisoned keeps the same records in
-- memory as a `MemoryRuntimeStore`.
use openlinker_python.Prelude.{
  ℕ, ◌≡◌, refl, ap, ◌∙◌, inl, inr, [], ◌∷◌, Text, Option-cases, text_eq, Bool-cases, ◌+◌,
  if◌then◌else◌, ◌==◌, not, ◌||◌, is_some,
}
use openlinker_python.Text.{is_empty}
use openlinker_python.Dict.{get, pop}
use openlinker_python.Platform.{Platform}
use openlinker_python.Errors.{delete_with_spool, Result, ok, err, Result-cases}
use openlinker_python.Exec.{Exec, pure, continue, read, ◌>>=◌}
use openlinker_python.Store.Memory.{MemoryStore, events_of, put_assignment, add_event}
use openlinker_python.Store.Records.{AssignmentRecord, EventRecord, message_id_of, attempt_id_of}
use openlinker_python.Store.State.{State, started, result_acked, revoked, state_eq, is_terminal}
use openlinker_python.Json.{Fields}
use openlinker_python.Store.Methods as memory
use openlinker_python.Store.File.{
  Device, FileStore, an_assignment, an_event, ready_unless, poisoning, write_record, remove_record,
  remove_records, persist_assignment, change_memory,
}
use openlinker_python.Store.File.Keys.{assignment_path, event_path, result_path}
use openlinker_python.Store.File.Methods.{
  find, find_attempt, create_assignment, advance_assignment, delete_assignment, append_event,
  ack_event, ack_result, clear_terminal_events, discard_terminal_spool, event_paths,
}
use openlinker_python.Store.File.Refines.{
  Refines, poisoning-memory, inherited_then, then_pure, changed_then, removed_then,
  continue-Refines, changing-Refines, write_record-IsSame, remove_record-IsSame,
  remove_records-IsSame,
}

module _ (device : Device) where
  module _ ⦃p : Platform⦄ (s : FileStore) where
    persist-memory :
        {B : Type 0} (r : AssignmentRecord) (b : B) (t : FileStore)
        → ((poisoning (persist_assignment device r) >>= (λ _. pure b)) t).1.memory ≡ t.memory
    unfolding persist_assignment
    persist-memory r b t =
        let m : Exec FileStore (Unit {0}) = persist_assignment device r in
        ap (λ u. u.memory) (then_pure (poisoning m) (λ a. b) t)
        ∙ poisoning-memory m t
        ∙ (write_record-IsSame device (assignment_path (message_id_of r)) (an_assignment r) t).0

    written_then :
        {B : Type 0} (r : AssignmentRecord) (b : B) (t : FileStore)
        → ((persist_assignment device r >>= (λ a. pure b)) t).1.memory ≡ t.memory
    unfolding persist_assignment
    written_then r b t =
        let path = assignment_path (message_id_of r) in
        ap (λ u. u.memory) (then_pure (write_record device path (an_assignment r)) (λ a. b) t)
        ∙ (write_record-IsSame device path (an_assignment r) t).0

    pub create-Refines :
        (r : AssignmentRecord) (now : ℕ)
        → (create_assignment device r now s).1.memory
          ≡ (memory.create_assignment (ready_unless s.poisoned) r now s.memory).1
    unfolding create_assignment
    create-Refines r now =
        inherited_then (λ ready. memory.create_assignment ready r now)
          (λ result. poisoning (persist_assignment device result) >>= (λ a. pure result)) s
          (λ a t. persist-memory a a t)

    pub advance-Refines :
        (message_id : Text) (state : State) (now : ℕ)
        → (advance_assignment device message_id state now s).1.memory
          ≡ (memory.advance_assignment (ready_unless s.poisoned) message_id state now s.memory).1
    unfolding advance_assignment
    advance-Refines message_id state now =
        inherited_then (λ ready. memory.advance_assignment ready message_id state now)
          (λ result. poisoning (persist_assignment device result) >>= (λ a. pure result)) s
          (λ a t. persist-memory a a t)

    ack_written :
        (r : Result AssignmentRecord) (t : FileStore)
        → (continue r (λ a. persist_assignment device a) t).1.memory ≡ t.memory
    unfolding persist_assignment
    ack_written (err e) t = refl
    ack_written (ok r) t =
        (write_record-IsSame device (assignment_path (message_id_of r)) (an_assignment r) t).0

    pub ack-Refines :
        (attempt_id event_id : Text) (event_seq now : ℕ)
        → (ack_event device attempt_id event_id event_seq now s).1.memory
          ≡ (memory.ack_event
              (ready_unless s.poisoned)
              attempt_id
              event_id
              event_seq
              now
              s.memory).1
    unfolding ack_event
    ack-Refines attempt_id event_id event_seq now =
        inherited_then (λ ready. memory.ack_event ready attempt_id event_id event_seq now) _ s
          (λ a t.
            poisoning-memory (read (find_attempt attempt_id) >>= (λ r. persist_assignment device r))
              t
            ∙ ack_written (find_attempt attempt_id t) t)

    pub delete-Refines :
        (message_id : Text)
        → Refines
            (delete_assignment device message_id s)
            (memory.delete_assignment (ready_unless s.poisoned) message_id s.memory)
    unfolding delete_assignment memory.delete_assignment find
    delete-Refines message_id = continue-Refines (find message_id s) _ _ s λ r.
        let kept =
          not (is_empty (events_of s.memory (attempt_id_of r)))
          || is_some (get s.memory.results (attempt_id_of r)) in
        let forget : MemoryStore → MemoryStore = λ m. record m {
          assignments = pop m.assignments message_id;
          attempts = pop m.attempts (attempt_id_of r);
        } in
        let remove = remove_record device (assignment_path message_id) in
        elim (Bool-cases (is_terminal r.state)) [
          | inr n ↦ rw n (λ h. refl)
          | inl y ↦ rw y (
              changing-Refines s (not kept) delete_with_spool remove forget
                (remove_record-IsSame device (assignment_path message_id) s).0)
        ]

    pub clear-Refines :
        (attempt_id : Text)
        → Refines
            (clear_terminal_events device attempt_id s)
            (memory.clear_terminal_events (ready_unless s.poisoned) attempt_id s.memory)
    unfolding clear_terminal_events memory.clear_terminal_events find_attempt poisoning
    clear-Refines attempt_id = continue-Refines (find_attempt attempt_id s) _ _ s λ r.
        let paths = event_paths s.memory attempt_id in
        elim (Bool-cases (r.state == result_acked || r.state == revoked)) [
          | inr n ↦ rw n (λ h. refl)
          | inl y ↦ rw y (
              changed_then (remove_records device paths s)
                (λ n. record n { events = pop n.events attempt_id }) (pure tt) s
                (remove_records-IsSame device paths s).0 (λ t. refl))
        ]

    pub discard-Refines :
        (attempt_id : Text)
        → Refines
            (discard_terminal_spool device attempt_id s)
            (memory.discard_terminal_spool (ready_unless s.poisoned) attempt_id s.memory)
    unfolding discard_terminal_spool memory.discard_terminal_spool find_attempt poisoning
    discard-Refines attempt_id = continue-Refines (find_attempt attempt_id s) _ _ s λ r.
        let paths = event_paths s.memory attempt_id in
        let others =
          if is_some (get s.memory.results attempt_id) then result_path attempt_id ∷ [] else [] in
        let forget : MemoryStore → MemoryStore =
          λ n. record n { events = pop n.events attempt_id; results = pop n.results attempt_id } in
        elim (Bool-cases (is_terminal r.state)) [
          | inr n ↦ rw n (λ h. refl)
          | inl y ↦ rw y (
              removed_then (remove_records device paths s)
                (remove_records device others >>= (λ a. change_memory forget)) (forget s.memory)
                λ t same.
                  changed_then (remove_records device others t) forget (pure tt) s
                    ((remove_records-IsSame device others t).0
                      ∙ same
                      ∙ (remove_records-IsSame device paths s).0)
                    (λ u. refl))
        ]

    pub append-Refines :
        (a kind : Text) (payload : Fields) (id : Text) (t u : ℕ)
        → Refines
            (append_event device a kind payload id t u s)
            (memory.append_event (ready_unless s.poisoned) a kind payload id t u s.memory)
    unfolding append_event memory.append_event find_attempt poisoning
    append-Refines a kind payload id t u = continue-Refines (find_attempt a s) _ _ s λ r.
        let sequence = r.last_client_event_seq + 1 in
        let event : EventRecord = record {
          identity = r.identity;
          client_event_id = id;
          client_event_seq = sequence;
          event_type = kind;
          payload = payload;
          created_at = t;
        } in
        let counted : AssignmentRecord = record r {
          last_client_event_seq = sequence;
          updated_at = u;
        } in
        elim (Bool-cases (r.state == started)) [
          | inr n ↦ rw n (λ h. refl)
          | inl y ↦ rw y (
              changed_then (write_record device (event_path a id) (an_event event) s)
                (λ m. put_assignment counted (add_event a sequence event m))
                (persist_assignment device counted >>= (λ b. pure event)) s
                (write_record-IsSame device (event_path a id) (an_event event) s).0
                (written_then counted event))
        ]

    pub settle-Refines :
        (attempt_id result_id : Text) (now : ℕ)
        → Refines
            (ack_result device attempt_id result_id now s)
            (memory.ack_result (ready_unless s.poisoned) attempt_id result_id now s.memory)
    unfolding ack_result memory.ack_result find_attempt poisoning persist_assignment
    settle-Refines attempt_id result_id now =
        elim (Result-cases
          (memory.assignment_for_attempt (ready_unless s.poisoned) attempt_id s.memory)) [
            | inr (d, q) ↦ elim (Option-cases (get s.memory.results attempt_id)) [
              | inl e ↦ rw (e, q) (λ h. refl)
              | inr (old, e) ↦ elim (Bool-cases (old.result_id == result_id)) [
                | inr n ↦ rw (e, n, q) (λ h. refl)
                | inl y ↦ rw (e, y, q) (λ h. refl)
              ]
            ]
            | inl (r, q) ↦ elim (Option-cases (get s.memory.results attempt_id)) [
              | inl e ↦ rw (q, e) (λ h. refl)
              | inr (old, e) ↦ elim (Bool-cases (old.result_id == result_id)) [
                | inr n ↦ rw (q, e, n) (λ h. refl)
                | inl y ↦
                    let settled : AssignmentRecord = record r {
                      state = result_acked;
                      updated_at = now;
                    } in
                    let put : FileStore = record s { memory = put_assignment settled s.memory } in
                    let forget : MemoryStore → MemoryStore =
                      λ n. record n { results = pop n.results attempt_id } in
                    let path = assignment_path (message_id_of settled) in
                    rw (q, e, y, q)
                      (removed_then (write_record device path (an_assignment settled) put)
                        (remove_record device (result_path attempt_id)
                          >>= (λ a. change_memory forget))
                        (forget put.memory)
                        λ t same.
                          changed_then (remove_record device (result_path attempt_id) t) forget
                            (pure tt) put
                            ((remove_record-IsSame device (result_path attempt_id) t).0
                              ∙ same
                              ∙ (write_record-IsSame device path (an_assignment settled) put).0)
                            (λ u. refl))
              ]
            ]
          ]
