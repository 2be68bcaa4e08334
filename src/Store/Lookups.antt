-- ===== src/Store/Lookups.antt =====
-- What `assignment` and `assignment_for_attempt` (src/openlinker/runtime/store.py) find in a
-- consistent store, and what `_events.get` returns after a write.
use openlinker_python.Prelude.{
  ℕ, ◌≡◌, [], some, Text, text_eq, nat_eq, Option-cases, ap, ◌∙◌, inl, inr, ◌==◌, if◌then◌else◌,
  arith,
}
use openlinker_python.Dict.{Dict, get, set_item, pop, get-set_item, get-pop}
use openlinker_python.Platform.{Platform}
use openlinker_python.Errors.{Result, ok, ◌>>=◌}
use openlinker_python.Store.Records.{
  AssignmentRecord, EventRecord, attempt_id_of, message_id_of, check_identity, copy_assignment,
}
use openlinker_python.Store.Memory.{MemoryStore, events_of}
use openlinker_python.Store.Methods.{assignment, assignment_for_attempt}
use openlinker_python.Store.Invariant.Index.{IsIndexed}

pub events_of-set :
    (s : MemoryStore) (a b : Text) (d : Dict ℕ EventRecord)
    → events_of (record s { events = set_item s.events a d }) b
      ≡ (if a == b then d else events_of s b)
unfolding events_of
events_of-set s a b d = ground (arith, get-set_item s.events a b d)

pub events_of-pop :
    (s : MemoryStore) (a b : Text)
    → events_of (record s { events = pop s.events a }) b ≡ (if a == b then [] else events_of s b)
unfolding events_of
events_of-pop s a b = ground (arith, get-pop s.events a b)

module _ ⦃p : Platform⦄ where
  pub copy_assignment-ok :
      (r x : AssignmentRecord)
      → copy_assignment r ≡ ok x
      → (x ≡ r) × (check_identity r.identity ≡ ok tt)
  unfolding copy_assignment
  copy_assignment-ok r x h = ground arith

  pub copy_assignment_valid :
      (r : AssignmentRecord) → check_identity r.identity ≡ ok tt → copy_assignment r ≡ ok r
  unfolding copy_assignment
  copy_assignment_valid r h = rw (h, ◌>>=◌)

module _ ⦃p : Platform⦄ (ready : MemoryStore → Result (Unit {0})) (s : MemoryStore) where
  pub assignment_found :
      (m : Text) (r : AssignmentRecord) → assignment ready m s ≡ ok r → get s.assignments m ≡ some r
  unfolding assignment copy_assignment
  assignment_found m r h = ground arith

  -- what `_attempts` leads to is looked up among the assignments
  pub attempt_message :
      (a : Text) (r : AssignmentRecord)
      → assignment_for_attempt ready a s ≡ ok r
      → (m : Text) × (get s.attempts a ≡ some m) × (assignment ready m s ≡ ok r)
  unfolding assignment_for_attempt
  attempt_message a r h = elim (Option-cases (get s.attempts a)) [
    | inl e ↦ absurd (ground arith)
    | inr (m, e) ↦ (m, e, ground arith)
  ]

  -- The assignment of an Attempt stands under its own message.
  pub attempt_found :
      (a : Text) (r : AssignmentRecord)
      → IsIndexed s.assignments s.attempts
      → assignment_for_attempt ready a s ≡ ok r
      → (get s.assignments (message_id_of r) ≡ some r) × (attempt_id_of r ≡ a)
  attempt_found a r v h =
      let (m, e, found) = attempt_message a r h in
      let there = assignment_found m r found in
      let (x, at, mine) = v.owned a m e in
      (ap (get s.assignments) (v.filed m r there) ∙ there, ground arith)
