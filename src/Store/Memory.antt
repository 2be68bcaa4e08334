-- ===== src/Store/Memory.antt =====
-- `MemoryRuntimeStore` of src/openlinker/runtime/store.py. A method that reads is a function of the
-- store; a method that writes is an `Exec`. `ready` is the method `_ready`, which a subclass
-- overrides; new identifiers and the time are arguments. The lock makes each method one step.
use openlinker_python.Prelude.{
  ℕ, zero, suc, ◌+◌, ◌-◌, Bool, true, false, not, ◌&&◌, ◌||◌, List, [], ◌∷◌, ◌++◌, leb, ltb, ◌==◌,
  nat_eq, text_eq, if◌then◌else◌, Text, text, Option, none, some, ℤ, length,
}
use openlinker_python.Dict.{Dict, get, set_item}
use openlinker_python.Json.{Fields, set_field, str, int}
use openlinker_python.Platform.{Platform}
use openlinker_python.Errors.{
  Error, Result, ok, err, store_closed, invalid_replay_ranges, event_unavailable, ◌>>=◌ as then_ok,
}
use openlinker_python.Store.State.{state_eq}
use openlinker_python.Store.Records.{
  RuntimeIdentity, AssignmentRecord, EventRecord, ResultRecord, message_id_of, copy_assignment,
}
use openlinker_python.Store.Acks.{event_acked}

pub record MemoryStore : Type 0 where
  pub identity : RuntimeIdentity
  pub assignments : Dict Text AssignmentRecord
  pub attempts : Dict Text Text
  pub events : Dict Text (Dict ℕ EventRecord)
  pub results : Dict Text ResultRecord
  pub closed : Bool

-- `__init__`, with the two identifiers that it draws
unfoldable pub new : Text → Text → MemoryStore
new worker session = record {
  identity = record { worker_id = worker; runtime_session_id = session; session_epoch = 1 };
  assignments = [];
  attempts = [];
  events = [];
  results = [];
  closed = false;
}

unfoldable pub accepts_new_runs : MemoryStore → Bool
accepts_new_runs s = not s.closed

unfoldable pub close : MemoryStore → MemoryStore
close s = record s { closed = true }

-- `_ready`
unfoldable pub memory_ready : MemoryStore → Result (Unit {0})
memory_ready s = if s.closed then err store_closed else ok tt

abbrev pub or_raise {ℓ} : {A : Type ℓ} → Option A → Error → Result A
or_raise none e = err e
or_raise (some a) e = ok a

infixl 5 ◌>>>◌
abbrev pub ◌>>>◌ {ℓ κ} : {A : Type ℓ} {B : Type κ} → Result A → (A → Result B) → Result B
r >>> f = then_ok r f

-- `self._assignments[record.identity.assignment_message_id] = record`
abbrev pub put_assignment : AssignmentRecord → MemoryStore → MemoryStore
put_assignment r s = record s { assignments = set_item s.assignments (message_id_of r) r }

-- `self._events.get(attempt_id, {})`
unfoldable pub events_of : MemoryStore → Text → Dict ℕ EventRecord
events_of s a = elim (get s.events a) [ none ↦ [] | some d ↦ d ]

unfoldable pub insert_item : ℕ → EventRecord → Dict ℕ EventRecord → Dict ℕ EventRecord
insert_item k v [] = (k, v) ∷ []
insert_item k v ((j, w) ∷ d) =
    let rest = insert_item k v d in if leb k j then (k, v) ∷ (j, w) ∷ d else (j, w) ∷ rest

-- `sorted(d.items())`: the keys of a dict are distinct
unfoldable pub sort_items : Dict ℕ EventRecord → Dict ℕ EventRecord
unfolding insert_item
sort_items [] = []
sort_items ((k, v) ∷ d) = insert_item k v (sort_items d)

-- the comprehension of `pending_events`
unfoldable pub unacked : AssignmentRecord → Dict ℕ EventRecord → List EventRecord
unacked r [] = []
unacked r ((seq, e) ∷ d) = if event_acked r seq then unacked r d else e ∷ unacked r d

-- `for sequence in range(start, start + n)`
unfoldable pub range_events : Dict ℕ EventRecord → ℕ → ℕ → Result (List EventRecord)
range_events d start zero = ok []
range_events d start (suc n) = or_raise (get d start) event_unavailable >>> λ e.
    range_events d (start + 1) n >>> λ es. ok (e ∷ es)

-- the loop of `events_in_ranges`
unfoldable pub ranges_events : Dict ℕ EventRecord → ℕ → List (ℕ × ℕ) → Result (List EventRecord)
ranges_events d previous [] = ok []
ranges_events d previous ((start, end) ∷ rest) =
    let here = range_events d start (end + 1 - start) in
    let more = ranges_events d end rest in
    if ltb start 1 || ltb end start || leb start previous
    then err invalid_replay_ranges
    else here >>> λ xs. more >>> λ ys. ok (xs ++ ys)

-- `payload["result_id"] = ...; payload["final_client_event_seq"] = ...`
unfoldable pub full_payload : Fields → Text → ℤ → Fields
full_payload payload result_id final =
    set_field (set_field payload (text "result_id") (str result_id)) (text "final_client_event_seq")
      (int final)

-- The entry that a new Event makes, and the count of its assignment.
abbrev pub add_event : Text → ℕ → EventRecord → MemoryStore → MemoryStore
add_event a seq e s = record s { events = set_item s.events a (set_item (events_of s a) seq e) }

abbrev pub copy_all : ⦃p : Platform⦄ → List AssignmentRecord → Result (List AssignmentRecord)
copy_all [] = ok []
copy_all (r ∷ rs) = copy_assignment r >>> λ r'. copy_all rs >>> λ rs'. ok (r' ∷ rs')

-- `sum(len(records) for records in self._events.values())`
abbrev pub total_events : Dict Text (Dict ℕ EventRecord) → ℕ
total_events [] = 0
total_events ((a, d) ∷ ds) = length d + total_events ds

pub record RuntimeSpoolStatus : Type 0 where
  pub assignments : ℕ
  pub events : ℕ
  pub results : ℕ

-- the property `empty`
unfoldable pub is_drained : RuntimeSpoolStatus → Bool
is_drained c = c.assignments == 0 && c.events == 0 && c.results == 0
