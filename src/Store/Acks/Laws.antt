-- ===== src/Store/Acks/Laws.antt =====
-- What acknowledging an Event does to the set of acknowledged Events.
use openlinker_python.Prelude.{
  eq_of_==, contains-cons, ℕ, zero, suc, ◌+◌, ◌≤◌, ◌<◌, ◌≡◌, refl, false, ◌||◌, List, [], ◌∷◌,
  arith, leb, ◌==◌, nat_eq, contains, length, Bool-cases, inl, inr,
}
use openlinker_python.Store.Seqs.{
  sorted_set, remove_seq, contains-remove_seq, contains-sorted_set, length-remove_seq-lt, Above,
  remove_seq-Above, Above-next, sorted_set_of_Above, add_seq-Above, contains_below,
}
use openlinker_python.Store.Records.{AssignmentRecord}
use openlinker_python.Store.Acks.{
  event_acked, in_window, ack_window, absorb, absorb_all, apply_event_ack,
}

-- The loop keeps the union of `{1 .. acked}` and `pending`.
absorb_keeps :
    (fuel acked : ℕ) (pending : List ℕ) (q : ℕ)
    → (leb q (absorb fuel acked pending).0 || contains (absorb fuel acked pending).1 q)
      ≡ (leb q acked || contains pending q)
unfolding absorb
absorb_keeps zero acked pending q = refl
absorb_keeps (suc fuel) acked pending q = ground (
  arith,
  absorb_keeps fuel (acked + 1) (remove_seq (acked + 1) pending) q,
  contains-remove_seq (acked + 1) q pending,
)

-- The fuel is enough: the loop ends by its test.
absorb_done :
    (fuel acked : ℕ) (pending : List ℕ)
    → length pending ≤ fuel
    → contains (absorb fuel acked pending).1 ((absorb fuel acked pending).0 + 1) ≡ false
unfolding absorb contains
absorb_done zero acked [] h = refl
absorb_done zero acked (x ∷ xs) h = absurd (omega arith)
absorb_done (suc fuel) acked pending h = ground (
  arith,
  absorb_done fuel (acked + 1) (remove_seq (acked + 1) pending),
  length-remove_seq-lt (acked + 1) pending,
)

-- Without its next sequence, what stands above `acked` stands above `acked + 1`.
remove_next-Above :
    (acked : ℕ) (pending : List ℕ)
    → Above acked pending
    → Above (acked + 1) (remove_seq (acked + 1) pending)
remove_next-Above acked pending u =
    Above-next acked (remove_seq (acked + 1) pending) (remove_seq-Above acked (acked + 1) pending u)
      (rw contains-remove_seq (ground arith))

absorb-Above :
    (fuel acked : ℕ) (pending : List ℕ)
    → Above acked pending
    → Above (absorb fuel acked pending).0 (absorb fuel acked pending).1
unfolding absorb
absorb-Above zero acked pending u = u
absorb-Above (suc fuel) acked pending u = ground (
  arith,
  absorb-Above fuel (acked + 1) (remove_seq (acked + 1) pending),
  remove_next-Above acked pending u,
)

in_window-ack_window :
    (acked : ℕ) (ahead : List ℕ) (s q : ℕ)
    → in_window (ack_window acked ahead s).0 (ack_window acked ahead s).1 q
      ≡ (in_window acked ahead q || q == s)
unfolding in_window ack_window absorb_all
in_window-ack_window acked ahead s q =
    let n = length (sorted_set ahead) in
    let after = absorb n s (sorted_set ahead) in
    ground (
      arith,
      absorb_keeps n s (sorted_set ahead) q,
      contains-sorted_set q ahead,
      contains-sorted_set q (s ∷ ahead),
      contains-sorted_set q after.1,
      contains-cons s q ahead,
      nat_eq.same_iff q s,
    )

-- Acknowledging a sequence adds it to the acknowledged ones, and changes no other.
pub event_acked-apply_event_ack :
    (r : AssignmentRecord) (s q : ℕ)
    → event_acked (apply_event_ack r s) q ≡ (event_acked r q || q == s)
unfolding event_acked apply_event_ack
event_acked-apply_event_ack r s q =
    in_window-ack_window r.acked_client_event_seq r.acked_out_of_order_event_seqs s q

-- The window is canonical: the out-of-order sequences ascend, and stand beyond the next one.
abbrev Canonical : ℕ → List ℕ → Type 0
Canonical acked ahead = Above (acked + 1) ahead

abbrev pub IsCanonical : AssignmentRecord → Type 0
IsCanonical r = Above (r.acked_client_event_seq + 1) r.acked_out_of_order_event_seqs

sorted_set-Above_of_Above : (b : ℕ) (xs : List ℕ) → Above b xs → Above b (sorted_set xs)
sorted_set-Above_of_Above b xs u = rw (sorted_set_of_Above b xs u) u

sorted_set_cons-Above : (b s : ℕ) (xs : List ℕ) → b < s → Above b xs → Above b (sorted_set (s ∷ xs))
unfolding sorted_set
sorted_set_cons-Above b s xs h u =
    add_seq-Above b s (sorted_set xs) h (sorted_set-Above_of_Above b xs u)

absorb_all-Above :
    (s : ℕ) (pending : List ℕ)
    → Above s pending
    → Above ((absorb_all s pending).0 + 1) (sorted_set (absorb_all s pending).1)
unfolding absorb_all
absorb_all-Above s pending u =
    let n = length pending in
    let after = absorb n s pending in
    let above = absorb-Above n s pending u in
    sorted_set-Above_of_Above (after.0 + 1) after.1
      (Above-next after.0 after.1 above (absorb_done n s pending (omega arith)))

ack_window-Above :
    (acked : ℕ) (ahead : List ℕ) (s : ℕ)
    → Above (acked + 1) ahead
    → Above ((ack_window acked ahead s).0 + 1) (ack_window acked ahead s).1
unfolding in_window ack_window
ack_window-Above acked ahead s u = elim (Bool-cases (in_window acked ahead s)) [
  | inl old ↦ rw (old, ack_window) u
  | inr new ↦ elim (Bool-cases (s == acked + 1)) [
    | inl next ↦
        let e = eq_of_== s (acked + 1) next in
        rw (new, next, ack_window)
          (absorb_all-Above s (sorted_set ahead)
            (rw e (sorted_set-Above_of_Above (acked + 1) ahead u)))
    | inr gap ↦
        rw (new, gap, ack_window) (sorted_set_cons-Above (acked + 1) s ahead (ground arith) u)
  ]
]

pub apply_event_ack-IsCanonical :
    (r : AssignmentRecord) (s : ℕ) → IsCanonical r → IsCanonical (apply_event_ack r s)
unfolding apply_event_ack
apply_event_ack-IsCanonical r s c =
    ack_window-Above r.acked_client_event_seq r.acked_out_of_order_event_seqs s c

-- In a canonical window, what is acknowledged without a gap is counted.
window_of_no_gap :
    (acked : ℕ) (ahead : List ℕ) (n : ℕ)
    → Above (acked + 1) ahead
    → ((q : ℕ) → in_window acked ahead q ≡ leb q n)
    → (acked ≡ n) × (ahead ≡ [])
unfolding in_window contains
window_of_no_gap acked [] n u h = ground (arith, h acked, h n)
window_of_no_gap acked (x ∷ xs) n u h =
    absurd (ground (arith, h x, h (acked + 1), contains_below (acked + 1) x xs))

-- When the acknowledged Events of a canonical window are those up to `n`, the window is closed: it
-- counts `n` and lists none beyond.
pub acked_of_no_gap :
    (r : AssignmentRecord) (n : ℕ)
    → IsCanonical r
    → ((q : ℕ) → event_acked r q ≡ leb q n)
    → (r.acked_client_event_seq ≡ n) × (r.acked_out_of_order_event_seqs ≡ [])
unfolding event_acked
acked_of_no_gap r n c h =
    window_of_no_gap r.acked_client_event_seq r.acked_out_of_order_event_seqs n c h
