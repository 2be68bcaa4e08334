-- ===== src/Store/Examples.antt =====
-- The theorems on src/openlinker/runtime/store.py at concrete stores, and runs of its methods.
use openlinker_python.Prelude.{
  ℕ, ◌≡◌, refl, List, [], ◌∷◌, ◌++◌, Text, text, arith, text_beq, contains, true, nat_eq, leb,
}
use openlinker_python.Dict.{get, set_item, pop}
use openlinker_python.Json.{end, json_beq}
use openlinker_python.Errors.{ok}
use openlinker_python.Types.Identity.{attempt_beq, validate}
use openlinker_python.Types.Uuid.{
  is_uuid, deterministic_uuid, digest_uuid, uuid_text, stamp, hex_text, has_nonzero, hex_group,
  dash, utf8,
}
use openlinker_python.Store.State.{ack_sent, confirmed, started, transitions, is_terminal}
use openlinker_python.Store.Seqs.{sorted_set, add_seq, remove_seq}
use openlinker_python.Store.Records.{
  AssignmentRecord, EventRecord, from_attempt, check_identity, identity_beq, copy_assignment,
  object_beq,
}
use openlinker_python.Store.Acks.{
  event_acked, in_window, ack_window, absorb, absorb_all, apply_event_ack,
}
use openlinker_python.Store.Acks.Laws.{
  event_acked-apply_event_ack, apply_event_ack-IsCanonical, acked_of_no_gap, IsCanonical,
}
use openlinker_python.Store.Memory.{
  MemoryStore, new, memory_ready, events_of, sort_items, insert_item, unacked,
}
use openlinker_python.Store.Methods.{
  create_assignment, insert_assignment, advance_assignment, move_assignment, append_event,
  ack_event, pending_events, assignment as find_assignment, assignment_for_attempt,
}
use openlinker_python.Store.Reach.{
  Call, creates, advances, appends, after, after_calls, after_calls-IsConsistent,
}
use openlinker_python.Store.Preserves.Spool.{IsFresh}
use openlinker_python.Store.Invariant.{IsConsistent}
use openlinker_python.Store.Sorting.{without_seq}
use openlinker_python.Store.Pending.{append_event-pending, ack_event-pending}
use openlinker_python.Examples.{assignment, attempt_a, flat}

-- To unfold this is to unfold the methods of a store and what they call.
unfoldable pub code : Unit {0}
unfolding check_identity validate is_uuid hex_group dash has_nonzero from_attempt deterministic_uuid
    digest_uuid uuid_text stamp hex_text identity_beq attempt_beq utf8 text_beq copy_assignment
    object_beq json_beq get set_item pop contains transitions is_terminal sorted_set add_seq
    remove_seq event_acked in_window ack_window absorb absorb_all apply_event_ack new memory_ready
    events_of sort_items insert_item unacked create_assignment insert_assignment advance_assignment
    move_assignment append_event ack_event pending_events find_assignment assignment_for_attempt
    after without_seq
code = tt

pub valid_identity : check_identity assignment.identity ≡ ok tt
unfolding code
valid_identity = refl

abbrev pub empty_store : MemoryStore
empty_store = new (text "worker") (text "session")

abbrev pub message : Text
unfolding code
message = assignment.identity.assignment_message_id

abbrev calls_to_start : List Call
calls_to_start =
    creates assignment 1
    ∷ advances message ack_sent 2
    ∷ advances message confirmed 3
    ∷ advances message started 4
    ∷ []

abbrev started_store : MemoryStore
started_store = after_calls empty_store calls_to_start

abbrev two_appends : List Call
two_appends =
    appends attempt_a (text "a.b") end (text "e1") 5 5
    ∷ appends attempt_a (text "a.b") end (text "e2") 6 6
    ∷ []

abbrev pub two_events : MemoryStore
two_events = after_calls started_store two_appends

assignment-IsFresh : IsFresh assignment
assignment-IsFresh = record { no_event = refl; no_ack = refl; none_ahead = refl }

after_calls-IsConsistent_example : IsConsistent started_store
after_calls-IsConsistent_example =
    after_calls-IsConsistent (text "worker") (text "session") calls_to_start
      (assignment-IsFresh, (tt, (tt, (tt, tt))))

pub two_events-IsConsistent : IsConsistent two_events
two_events-IsConsistent =
    after_calls-IsConsistent (text "worker") (text "session") (calls_to_start ++ two_appends)
      (assignment-IsFresh, (tt, (tt, (tt, (tt, (tt, tt))))))

abbrev pub an_event : ℕ → Text → ℕ → EventRecord
an_event seq id created = record {
  identity = assignment.identity;
  client_event_id = id;
  client_event_seq = seq;
  event_type = text "a.b";
  payload = end;
  created_at = created;
}

pub two_pending :
    pending_events memory_ready attempt_a two_events
    ≡ ok (an_event 1 (text "e1") 5 ∷ an_event 2 (text "e2") 6 ∷ [])
unfolding code
two_pending = refl

append_event-pending_example :
    pending_events memory_ready attempt_a
      (append_event memory_ready attempt_a (text "a.c") end (text "e3") 7 7 two_events).1
    ≡ ok (
        an_event 1 (text "e1") 5
        ∷ an_event 2 (text "e2") 6
        ∷ record {
          identity = assignment.identity;
          client_event_id = text "e3";
          client_event_seq = 3;
          event_type = text "a.c";
          payload = end;
          created_at = 7;
        }
        ∷ [])
unfolding code
append_event-pending_example =
    append_event-pending two_events two_events-IsConsistent attempt_a
      (an_event 1 (text "e1") 5 ∷ an_event 2 (text "e2") 6 ∷ []) two_pending (text "a.c") end
      (text "e3") 7 7 _ refl

ack_event-pending_example :
    pending_events memory_ready attempt_a
      (ack_event memory_ready attempt_a (text "e2") 2 8 two_events).1
    ≡ ok (an_event 1 (text "e1") 5 ∷ [])
unfolding code
ack_event-pending_example =
    ack_event-pending two_events two_events-IsConsistent attempt_a
      (an_event 1 (text "e1") 5 ∷ an_event 2 (text "e2") 6 ∷ []) two_pending (text "e2") 2 8 refl

-- 1 is acknowledged, and 3 and 4 beyond it
abbrev gapped : AssignmentRecord
gapped = record assignment {
  last_client_event_seq = 5;
  acked_client_event_seq = 1;
  acked_out_of_order_event_seqs = 3 ∷ 4 ∷ [];
}

gap_closed :
    apply_event_ack gapped 2
    ≡ record gapped { acked_client_event_seq = 4; acked_out_of_order_event_seqs = [] }
unfolding code
gap_closed = refl

event_acked-apply_event_ack_example : event_acked (apply_event_ack gapped 2) 4 ≡ true
unfolding code
event_acked-apply_event_ack_example = event_acked-apply_event_ack gapped 2 4

apply_event_ack-IsCanonical_example : IsCanonical (apply_event_ack gapped 5)
apply_event_ack-IsCanonical_example = apply_event_ack-IsCanonical gapped 5 (omega arith)

abbrev closed_window : AssignmentRecord
closed_window = record gapped { acked_client_event_seq = 4; acked_out_of_order_event_seqs = [] }

closed_window-acked : (q : ℕ) → event_acked closed_window q ≡ leb q 4
unfolding event_acked in_window contains
closed_window-acked q = ground arith

acked_of_no_gap_example :
    (closed_window.acked_client_event_seq ≡ 4) × (closed_window.acked_out_of_order_event_seqs ≡ [])
acked_of_no_gap_example = acked_of_no_gap closed_window 4 tt closed_window-acked
