-- ===== src/Store/Acks.antt =====
-- src/openlinker/runtime/store.py: `_event_acked` and `_apply_event_ack`. An assignment counts the
-- acknowledged Events up to `acked_client_event_seq`, and lists those beyond it.
pub mod Laws
use openlinker_python.Prelude.{
  ℕ, zero, suc, ◌+◌, Bool, true, false, ◌||◌, List, [], ◌∷◌, leb, ◌==◌, nat_eq, if◌then◌else◌,
  contains, length,
}
use openlinker_python.Store.Seqs.{sorted_set, remove_seq}
use openlinker_python.Store.Records.{AssignmentRecord}

-- `sequence <= acked or sequence in ahead`
unfoldable pub in_window : ℕ → List ℕ → ℕ → Bool
in_window acked ahead sequence = leb sequence acked || contains ahead sequence

unfoldable pub event_acked : AssignmentRecord → ℕ → Bool
event_acked r sequence = in_window r.acked_client_event_seq r.acked_out_of_order_event_seqs sequence

-- The loop `while acked + 1 in pending`. Each round takes one sequence from `pending`, so its length
-- is fuel enough.
unfoldable pub absorb : ℕ → ℕ → List ℕ → ℕ × List ℕ
absorb zero acked pending = (acked, pending)
absorb (suc fuel) acked pending = elim (contains pending (acked + 1)) [
  | true ↦ absorb fuel (acked + 1) (remove_seq (acked + 1) pending)
  | false ↦ (acked, pending)
]

unfoldable pub absorb_all : ℕ → List ℕ → ℕ × List ℕ
absorb_all acked pending = absorb (length pending) acked pending

-- The two fields that `_apply_event_ack` changes, on its three branches.
unfoldable pub ack_window : ℕ → List ℕ → ℕ → ℕ × List ℕ
ack_window acked ahead sequence =
    let (acked', pending) = absorb_all sequence (sorted_set ahead) in
    if in_window acked ahead sequence
    then (acked, ahead)
    else if sequence == acked + 1
    then (acked', sorted_set pending)
    else (acked, sorted_set (sequence ∷ ahead))

unfoldable pub apply_event_ack : AssignmentRecord → ℕ → AssignmentRecord
apply_event_ack r sequence =
    let (acked, ahead) =
      ack_window r.acked_client_event_seq r.acked_out_of_order_event_seqs sequence in
    record r { acked_client_event_seq = acked; acked_out_of_order_event_seqs = ahead }
