-- ===== src/Store/Preserves/Puts.antt =====
-- A consistent store under the writes that the methods of src/openlinker/runtime/store.py make.
use openlinker_python.Prelude.{ℕ, ◌≡◌, ◌≢◌, some, Text, text_eq, nat_eq, arith, sym, refl}
use mathlib.Core.Path.{subst}
use openlinker_python.Dict.{Dict, get, set_item, get-set_item, set_item_self}
use openlinker_python.Platform.{Platform}
use openlinker_python.Store.State.{state_eq}
use openlinker_python.Store.Records.{
  AssignmentRecord, EventRecord, ResultRecord, attempt_id_of, message_id_of,
}
use openlinker_python.Store.Memory.{MemoryStore, events_of}
use openlinker_python.Store.Invariant.{IsSound, IsConsistent, update-IsConsistent}

module _ ⦃p : Platform⦄ (s : MemoryStore) (v : IsConsistent s) (r : AssignmentRecord)
    (there : get s.assignments (message_id_of r) ≡ some r) where
  abbrev pub spool : IsSound (events_of s (attempt_id_of r)) (get s.results (attempt_id_of r)) r
  spool = v.sound (message_id_of r) r there

  -- a change of the assignment alone
  pub put-IsConsistent :
      (r' : AssignmentRecord)
      → r'.identity ≡ r.identity
      → IsSound (events_of s (attempt_id_of r)) (get s.results (attempt_id_of r)) r'
      → IsConsistent (record s { assignments = set_item s.assignments (message_id_of r) r' })
  unfolding events_of
  put-IsConsistent r' same new =
      update-IsConsistent v
        (record {
          there = there;
          same = same;
          assignments = refl;
          attempts = refl;
          events = λ b ne. refl;
          results = λ b ne. refl;
        })
        new

  -- a change of the assignment and of its Events
  pub put_events-IsConsistent :
      (r' : AssignmentRecord) (d : Dict ℕ EventRecord)
      → r'.identity ≡ r.identity
      → IsSound d (get s.results (attempt_id_of r)) r'
      → IsConsistent (record s {
        assignments = set_item s.assignments (message_id_of r) r';
        events = set_item s.events (attempt_id_of r) d;
      })
  unfolding events_of
  put_events-IsConsistent r' d same new =
      let a = attempt_id_of r in
      let law = λ (b : Text). get-set_item s.events a b d in
      let now : MemoryStore = record s {
        assignments = set_item s.assignments (message_id_of r) r';
        events = set_item s.events a d;
      } in
      let q : events_of now a ≡ d = ground (arith, law a, text_eq.same_iff a a) in
      update-IsConsistent v
        (record {
          there = there;
          same = same;
          assignments = refl;
          attempts = refl;
          events = λ b ne. ground (arith, law b, text_eq.same_iff (attempt_id_of r) b);
          results = λ b ne. refl;
        })
        (subst (λ x. IsSound x (get s.results a) r') (sym q) new)

  -- a change of the assignment and of its Result
  pub put_result-IsConsistent :
      (r' : AssignmentRecord) (rs : Dict Text ResultRecord)
      → r'.identity ≡ r.identity
      → ((b : Text) → attempt_id_of r ≢ b → get rs b ≡ get s.results b)
      → IsSound (events_of s (attempt_id_of r)) (get rs (attempt_id_of r)) r'
      → IsConsistent
          (record s { assignments = set_item s.assignments (message_id_of r) r'; results = rs })
  unfolding events_of
  put_result-IsConsistent r' rs same others new =
      update-IsConsistent v
        (record {
          there = there;
          same = same;
          assignments = refl;
          attempts = refl;
          events = λ b ne. refl;
          results = others;
        })
        new

  -- a change of the Events and the Result alone
  pub spool-IsConsistent :
      (evs : Dict Text (Dict ℕ EventRecord)) (rs : Dict Text ResultRecord) (d : Dict ℕ EventRecord)
      → events_of (record s { events = evs }) (attempt_id_of r) ≡ d
      → ((b : Text) → attempt_id_of r ≢ b → events_of (record s { events = evs }) b ≡ events_of s b)
      → ((b : Text) → attempt_id_of r ≢ b → get rs b ≡ get s.results b)
      → IsSound d (get rs (attempt_id_of r)) r
      → IsConsistent (record s { events = evs; results = rs })
  unfolding events_of
  spool-IsConsistent evs rs d mine others left new =
      update-IsConsistent v
        (record {
          there = there;
          same = refl;
          assignments = sym (set_item_self s.assignments (message_id_of r) r there);
          attempts = refl;
          events = others;
          results = left;
        })
        (subst (λ x. IsSound x (get rs (attempt_id_of r)) r) (sym mine) new)
