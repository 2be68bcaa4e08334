-- ===== src/Store/Invariant.antt =====
-- The invariant of a runtime store: `_assignments` and `_attempts` index one another, and the spool
-- of each Attempt agrees with the counters of its assignment.
pub mod Index
use openlinker_python.Prelude.{
  ℕ, ◌+◌, ◌≤◌, ◌≡◌, ◌≢◌, Bool, true, false, List, [], ◌∷◌, Option, none, some, Text, text_eq,
  nat_eq, ℤ, ◌⊎◌, ap, refl, sym, ◌∙◌, Bool-cases, inl, inr, ne_of_==, ◌==◌, if◌then◌else◌, arith,
}
use mathlib.Core.Path.{subst₂, subst₃}
use openlinker_python.Dict.{Dict, get, set_item, pop, get-set_item, get-pop}
use openlinker_python.Platform.{Platform}
use openlinker_python.Store.State.{State, finished, result_acked, revoked, is_terminal}
use openlinker_python.Store.Records.{
  AssignmentRecord, EventRecord, ResultRecord, attempt_id_of, message_id_of, check_identity,
}
use openlinker_python.Store.Acks.{event_acked}
use openlinker_python.Store.Acks.Laws.{IsCanonical}
use openlinker_python.Store.Memory.{MemoryStore, events_of}
use Index.{IsIndexed, put-IsIndexed, insert-IsIndexed, delete-IsIndexed}

-- Each Event stands under its own number.
abbrev pub Numbered : Dict ℕ EventRecord → Type 0
Numbered [] = Unit
Numbered ((k, e) ∷ d) = (e.client_event_seq ≡ k) × Numbered d

-- No number stands twice.
abbrev pub Unique : Dict ℕ EventRecord → Type 0
Unique [] = Unit
Unique ((k, e) ∷ d) = (get d k ≡ none) × Unique d

-- An assignment beside the Events and the Result that are spooled for its Attempt.
pub record IsSound (d : Dict ℕ EventRecord) (found : Option ResultRecord) (r : AssignmentRecord)
    : Type 0 where
  pub numbered : Numbered d
  pub unique : Unique d
  pub within :
      (q : ℕ) (e : EventRecord) → get d q ≡ some e → (1 ≤ q) × (q ≤ r.last_client_event_seq)
  pub complete :
      (q : ℕ) → is_terminal r.state ≡ false → 1 ≤ q → q ≤ r.last_client_event_seq → get d q ≢ none
  pub window : IsCanonical r
  pub acked : (q : ℕ) → event_acked r q ≡ true → q ≤ r.last_client_event_seq
  pub matched :
      (x : ResultRecord)
      → found ≡ some x
      → (x.result_id ≡ r.result_id)
        × (x.final_client_event_seq ≡ r.final_client_event_seq)
        × ((r.state ≡ finished) ⊎ (is_terminal r.state ≡ true))

pub record IsConsistent ⦃p : Platform⦄ (s : MemoryStore) : Type 0 where
  pub index : IsIndexed s.assignments s.attempts
  pub sound :
      (m : Text) (r : AssignmentRecord)
      → get s.assignments m ≡ some r
      → IsSound (events_of s (attempt_id_of r)) (get s.results (attempt_id_of r)) r
  pub no_orphan :
      (a : Text) → get s.attempts a ≡ none → (events_of s a ≡ []) × (get s.results a ≡ none)

-- The same assignments and Attempts, with one assignment and its spool changed.
pub record Updates (s t : MemoryStore) (r r' : AssignmentRecord) : Type 0 where
  pub there : get s.assignments (message_id_of r) ≡ some r
  pub same : r'.identity ≡ r.identity
  pub assignments : t.assignments ≡ set_item s.assignments (message_id_of r) r'
  pub attempts : t.attempts ≡ s.attempts
  pub events : (b : Text) → attempt_id_of r ≢ b → events_of t b ≡ events_of s b
  pub results : (b : Text) → attempt_id_of r ≢ b → get t.results b ≡ get s.results b

IsSound-subst :
    {d d' : Dict ℕ EventRecord} {f f' : Option ResultRecord} {r r' : AssignmentRecord}
    → d ≡ d'
    → f ≡ f'
    → r ≡ r'
    → IsSound d f r
    → IsSound d' f' r'
IsSound-subst = subst₃ IsSound

module _ ⦃p : Platform⦄ {s t : MemoryStore} {r r' : AssignmentRecord} (v : IsConsistent s)
    (u : Updates s t r r') where
  -- Another assignment is for another Attempt.
  other_attempt :
      (m : Text) (x : AssignmentRecord)
      → get s.assignments m ≡ some x
      → message_id_of r ≢ m
      → attempt_id_of r ≢ attempt_id_of x
  other_attempt m x h ne e = ne (
      ground (
        arith,
        v.index.indexed m x h,
        v.index.indexed (message_id_of r) r u.there,
        ap (get s.attempts) e,
      ))

  update-sound :
      IsSound (events_of t (attempt_id_of r)) (get t.results (attempt_id_of r)) r'
      → (m : Text) (x : AssignmentRecord) → get t.assignments m ≡ some x
      → IsSound (events_of t (attempt_id_of x)) (get t.results (attempt_id_of x)) x
  update-sound new m x h =
      let at : get (set_item s.assignments (message_id_of r) r') m ≡ some x =
        rw u.assignments at h in
      let law = get-set_item s.assignments (message_id_of r) m r' in
      elim (Bool-cases (message_id_of r == m)) [
        | inl e ↦
            let x-eq : r' ≡ x = ground arith in
            let b-eq : attempt_id_of r ≡ attempt_id_of x = ground (arith, u.same) in
            IsSound-subst (ap (events_of t) b-eq) (ap (get t.results) b-eq) x-eq new
        | inr e ↦
            let old : get s.assignments m ≡ some x = ground arith in
            let ne = other_attempt m x old (ne_of_== (message_id_of r) m e) in
            IsSound-subst (sym (u.events (attempt_id_of x) ne))
              (sym (u.results (attempt_id_of x) ne)) refl (v.sound m x old)
      ]

  update-no_orphan :
      (a : Text) → get t.attempts a ≡ none → (events_of t a ≡ []) × (get t.results a ≡ none)
  update-no_orphan a h =
      let free : get s.attempts a ≡ none = rw u.attempts at h in
      let ne : attempt_id_of r ≢ a =
        λ e. cc (free, v.index.indexed (message_id_of r) r u.there, ap (get s.attempts) e) in
      (u.events a ne ∙ (v.no_orphan a free).0, u.results a ne ∙ (v.no_orphan a free).1)

  -- A consistent store stays so under a change of one assignment and its spool that agree.
  pub update-IsConsistent :
      IsSound (events_of t (attempt_id_of r)) (get t.results (attempt_id_of r)) r' → IsConsistent t
  update-IsConsistent new = record {
    index =
        subst₂ IsIndexed (sym u.assignments) (sym u.attempts)
          (put-IsIndexed (message_id_of r) r r' v.index u.there u.same);
    sound = update-sound new;
    no_orphan = update-no_orphan;
  }
