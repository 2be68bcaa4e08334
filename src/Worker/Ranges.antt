-- ===== src/Worker/Ranges.antt =====
-- `_event_ranges` of src/openlinker/runtime/worker.py: the pending Events of a resume request, as
-- ranges of sequences.
pub mod Resend
use openlinker_python.Prelude.{
  ℕ, ◌+◌, Bool, true, false, List, [], ◌∷◌, leb, ◌==◌, nat_eq, if◌then◌else◌,
}
use openlinker_python.Store.Records.{EventRecord}

unfoldable pub insert_seq : ℕ → List ℕ → List ℕ
insert_seq n [] = n ∷ []
insert_seq n (x ∷ xs) = let rest = insert_seq n xs in if leb n x then n ∷ x ∷ xs else x ∷ rest

-- `sorted(item.client_event_seq for item in events)`
unfoldable pub sorted_seqs : List EventRecord → List ℕ
sorted_seqs [] = []
sorted_seqs (e ∷ es) = insert_seq e.client_event_seq (sorted_seqs es)

-- the loop, with the range that is open
unfoldable pub merge_ranges : ℕ → ℕ → List ℕ → List (ℕ × ℕ)
merge_ranges start end [] = (start, end) ∷ []
merge_ranges start end (q ∷ qs) = elim (q == end + 1) [
  | true ↦ merge_ranges start q qs
  | false ↦ (start, end) ∷ merge_ranges q q qs
]

unfoldable pub ranges_of : List ℕ → List (ℕ × ℕ)
unfolding merge_ranges
ranges_of [] = []
ranges_of (q ∷ qs) = merge_ranges q q qs

unfoldable pub event_ranges : List EventRecord → List (ℕ × ℕ)
unfolding ranges_of sorted_seqs
event_ranges events = ranges_of (sorted_seqs events)
