-- ===== src/Store/Preserves/Assignments.antt =====
-- `create_assignment`, `advance_assignment` and `delete_assignment` of
-- src/openlinker/runtime/store.py keep a store consistent.
use openlinker_python.Prelude.{
  ℕ, ◌≡◌, true, false, [], Option, none, some, Text, text_eq, nat_eq, ◌==◌, arith, inl, inr, ap,
  sym, refl, ◌∙◌, Bool-cases, Option-cases, eq_of_==, contains, not, ◌||◌, ◌&&◌, is_some,
}
use mathlib.Core.Path.{subst}
use openlinker_python.Dict.{Dict, get, set_item, pop, get-set_item, get-pop}
use openlinker_python.Text.{is_empty}
use openlinker_python.Store.Invariant.Index.{insert-IsIndexed, delete-IsIndexed}
use openlinker_python.Platform.{Platform}
use openlinker_python.Errors.{Result, ok, Result-cases}
use openlinker_python.Store.State.{State, received, is_terminal, state_eq, transitions}
use openlinker_python.Store.Records.{
  AssignmentRecord, EventRecord, ResultRecord, attempt_id_of, message_id_of, object_beq,
  identity_beq, copy_assignment, check_identity,
}
use openlinker_python.Store.Memory.{MemoryStore, events_of}
use openlinker_python.Store.Methods.{
  assignment, move_assignment, advance_assignment, create_assignment, insert_assignment,
  delete_assignment,
}
use openlinker_python.Store.Invariant.{IsSound, IsConsistent}
use openlinker_python.Store.Lookups.{assignment_found, copy_assignment-ok}
use openlinker_python.Store.Preserves.Spool.{move-IsSound, IsFresh, fresh-IsSound}
use openlinker_python.Store.Preserves.Puts.{put-IsConsistent, spool}

nothing_left :
    (d : Dict ℕ EventRecord) (f : Option ResultRecord)
    → (not (is_empty d) || is_some f) ≡ false
    → (d ≡ []) × (f ≡ none)
nothing_left d f h = ground arith

module _ ⦃p : Platform⦄ (ready : MemoryStore → Result (Unit {0})) (s : MemoryStore)
    (v : IsConsistent s) where
  -- the writes of `create_assignment`
  inserted-IsConsistent :
      (r : AssignmentRecord)
      → IsFresh r
      → get s.assignments (message_id_of r) ≡ none
      → get s.attempts (attempt_id_of r) ≡ none
      → check_identity r.identity ≡ ok tt
      → IsConsistent (record s {
        assignments = set_item s.assignments (message_id_of r) r;
        attempts = set_item s.attempts (attempt_id_of r) (message_id_of r);
      })
  unfolding events_of
  inserted-IsConsistent r new fresh free good =
      let a = attempt_id_of r in
      let empty = v.no_orphan a free in
      record {
        index = insert-IsIndexed r v.index fresh free good;
        sound = λ m x h.
            let law = get-set_item s.assignments (message_id_of r) m r in
            elim (Bool-cases (message_id_of r == m)) [
              | inr e ↦ v.sound m x (ground arith)
              | inl e ↦
                  let same : r ≡ x = ground arith in
                  subst
                    (λ y.
                      IsSound (events_of s (attempt_id_of y)) (get s.results (attempt_id_of y)) y)
                    same
                    (subst (λ d. IsSound d (get s.results a) r) (sym empty.0)
                      (subst (λ f. IsSound [] f r) (sym empty.1) (fresh-IsSound r new)))
            ];
        no_orphan = λ b h.
            v.no_orphan b
              (ground (arith, get-set_item s.attempts a b (message_id_of r), text_eq.same_iff a b));
      }

  pub create_assignment-IsConsistent :
      (r : AssignmentRecord) (now : ℕ)
      → IsFresh r
      → IsConsistent (create_assignment ready r now s).1
  unfolding create_assignment insert_assignment
  create_assignment-IsConsistent r now new = elim (Result-cases (ready s)) [
    | inr (e, h) ↦ rw (h, create_assignment) v
    | inl (u, h) ↦ elim (Option-cases (get s.assignments (message_id_of r))) [
      | inr (old, g) ↦
          elim (Bool-cases (identity_beq old.identity r.identity && object_beq old.input r.input)) [
            | inl t ↦ rw (h, g, t, create_assignment) v
            | inr t ↦ rw (h, g, t, create_assignment) v
          ]
      | inl g ↦ elim (Option-cases (get s.attempts (attempt_id_of r))) [
        | inr (m, k) ↦ rw (h, g, k, create_assignment) v
        | inl k ↦
            elim (Result-cases
              (copy_assignment (record r { state = received; updated_at = now }))) [
                | inr (e, c) ↦ rw (h, g, k, create_assignment, insert_assignment, c) v
                | inl (x, c) ↦
                    let (same, good) = copy_assignment-ok _ x c in
                    rw (h, g, k, create_assignment, insert_assignment, c, same)
                      (inserted-IsConsistent (record r { state = received; updated_at = now })
                        (record {
                          no_event = new.no_event;
                          no_ack = new.no_ack;
                          none_ahead = new.none_ahead;
                        })
                        g k good)
              ]
      ]
    ]
  ]

  -- the writes of `delete_assignment`
  deleted-IsConsistent :
      (m : Text) (r : AssignmentRecord)
      → get s.assignments m ≡ some r
      → events_of s (attempt_id_of r) ≡ []
      → get s.results (attempt_id_of r) ≡ none
      → IsConsistent (record s {
        assignments = pop s.assignments m;
        attempts = pop s.attempts (attempt_id_of r);
      })
  unfolding events_of
  deleted-IsConsistent m r at empty none_left =
      let a = attempt_id_of r in
      record {
        index = delete-IsIndexed m r v.index at;
        sound = λ k x h. v.sound k x (ground (arith, get-pop s.assignments m k));
        no_orphan = λ b h. elim (Bool-cases (a == b)) [
          | inl e ↦
              subst (λ c. (events_of s c ≡ []) × (get s.results c ≡ none)) (eq_of_== a b e)
                (empty, none_left)
          | inr e ↦ v.no_orphan b (ground (arith, get-pop s.attempts a b))
        ];
      }

  pub delete_assignment-IsConsistent : (m : Text) → IsConsistent (delete_assignment ready m s).1
  unfolding delete_assignment
  delete_assignment-IsConsistent m = elim (Result-cases (assignment ready m s)) [
    | inr (e, h) ↦ rw (h, delete_assignment) v
    | inl (r, h) ↦ elim (Bool-cases (is_terminal r.state)) [
      | inr f ↦ rw (h, f, delete_assignment) v
      | inl t ↦
          elim (Bool-cases (
            not (is_empty (events_of s (attempt_id_of r)))
            || is_some (get s.results (attempt_id_of r)))) [
              | inl g ↦ rw (h, t, g, delete_assignment) v
              | inr g ↦
                  let left =
                    nothing_left (events_of s (attempt_id_of r)) (get s.results (attempt_id_of r))
                      g in
                  rw (h, t, g, delete_assignment)
                    (deleted-IsConsistent m r (assignment_found ready s m r h) left.0 left.1)
            ]
    ]
  ]

  moved-IsConsistent :
      (m : Text) (r : AssignmentRecord) (next : State) (now : ℕ)
      → get s.assignments m ≡ some r
      → contains (transitions r.state) next ≡ true
      → IsConsistent (move_assignment (record r { state = next; updated_at = now }) s).1
  unfolding move_assignment copy_assignment
  moved-IsConsistent m r next now at move =
      let there : get s.assignments (message_id_of r) ≡ some r =
        ap (get s.assignments) (v.index.filed m r at) ∙ at in
      rw (v.index.valid m r at, move_assignment, copy_assignment)
        (put-IsConsistent s v r there _ refl (move-IsSound r (spool s v r there) next now move))

  pub advance_assignment-IsConsistent :
      (m : Text) (next : State) (now : ℕ) → IsConsistent (advance_assignment ready m next now s).1
  unfolding advance_assignment
  advance_assignment-IsConsistent m next now = elim (Result-cases (assignment ready m s)) [
    | inr (e, h) ↦ rw (h, advance_assignment) v
    | inl (r, h) ↦ elim (Bool-cases (next == r.state)) [
      | inl t ↦ rw (h, t, advance_assignment) v
      | inr f ↦ elim (Bool-cases (contains (transitions r.state) next)) [
        | inr g ↦ rw (h, f, g, advance_assignment) v
        | inl g ↦
            rw (h, f, g, advance_assignment)
              (moved-IsConsistent m r next now (assignment_found ready s m r h) g)
      ]
    ]
  ]
