-- ===== src/Store/Preserves/Spool.antt =====
-- The spool of one Attempt under the writes of src/openlinker/runtime/store.py.
use openlinker_python.Prelude.{
  ℕ, refl, ◌+◌, ◌≡◌, true, false, [], ◌∷◌, Option, none, some, text_eq, nat_eq, contains, arith,
  ◌⊎◌,
}
use openlinker_python.Dict.{Dict, get, set_item, get-set_item}
use openlinker_python.Store.State.{
  State, started, finished, result_acked, is_terminal, state_eq, transitions,
}
use openlinker_python.Store.Records.{AssignmentRecord, EventRecord, ResultRecord}
use openlinker_python.Store.Acks.{event_acked, apply_event_ack, in_window}
use openlinker_python.Store.Acks.Laws.{event_acked-apply_event_ack, apply_event_ack-IsCanonical}
use openlinker_python.Store.Methods.{with_result}
use openlinker_python.Store.Invariant.{IsSound, Numbered, Unique}

-- Nothing leaves a terminal state, and only terminal states follow `finished`.
transition_from :
    (a b : State)
    → contains (transitions a) b ≡ true
    → (is_terminal a ≡ false) × (a ≡ finished → is_terminal b ≡ true)
unfolding transitions is_terminal contains
transition_from a b h = ground arith

Numbered-set_item :
    (d : Dict ℕ EventRecord) (q : ℕ) (e : EventRecord)
    → e.client_event_seq ≡ q
    → Numbered d
    → Numbered (set_item d q e)
unfolding set_item
Numbered-set_item [] q e h n = (h, tt)
Numbered-set_item ((k, w) ∷ d) q e h n = ground (arith, Numbered-set_item d q e h n.1)

Unique-set_item :
    (d : Dict ℕ EventRecord) (q : ℕ) (e : EventRecord) → Unique d → Unique (set_item d q e)
unfolding set_item get
Unique-set_item [] q e u = (refl, tt)
Unique-set_item ((k, w) ∷ d) q e u = ground (arith, Unique-set_item d q e u.1, get-set_item d q k e)

module _ {d : Dict ℕ EventRecord} {f : Option ResultRecord} (r : AssignmentRecord)
    (v : IsSound d f r) where
  -- the next Event of a started assignment
  pub append-IsSound :
      (e : EventRecord) (now : ℕ)
      → r.state ≡ started
      → e.client_event_seq ≡ r.last_client_event_seq + 1
      → IsSound
          (set_item d (r.last_client_event_seq + 1) e)
          f
          (record r { last_client_event_seq = r.last_client_event_seq + 1; updated_at = now })
  unfolding event_acked
  append-IsSound e now h at =
      let next = r.last_client_event_seq + 1 in
      let law = λ (q : ℕ). get-set_item d next q e in
      record {
        numbered = Numbered-set_item d next e at v.numbered;
        unique = Unique-set_item d next e v.unique;
        within = λ q x g. ground (arith, law q, v.within q x);
        complete = λ q live low high. ground (arith, law q, v.complete q, h);
        window = v.window;
        acked = λ q g. ground (arith, v.acked q);
        matched = λ x g. ground (arith, v.matched x, h);
      }

  -- the acknowledgement of an Event of the spool
  pub ack-IsSound :
      (q : ℕ) (e : EventRecord) (now : ℕ)
      → get d q ≡ some e
      → IsSound d f (record (apply_event_ack r q) { updated_at = now })
  unfolding apply_event_ack event_acked
  ack-IsSound q e now h = record {
    numbered = v.numbered;
    unique = v.unique;
    within = λ k x g. v.within k x g;
    complete = λ k live low high. v.complete k live low high;
    window = apply_event_ack-IsCanonical r q v.window;
    acked = λ k g. ground (arith, event_acked-apply_event_ack r q k, v.acked k, v.within q e h);
    matched = λ x g. v.matched x g;
  }

  -- a transition of the state
  pub move-IsSound :
      (next : State) (now : ℕ)
      → contains (transitions r.state) next ≡ true
      → IsSound d f (record r { state = next; updated_at = now })
  unfolding event_acked
  move-IsSound next now h =
      let move = transition_from r.state next h in
      record {
        numbered = v.numbered;
        unique = v.unique;
        within = λ q x g. v.within q x g;
        complete = λ q live low high. v.complete q move.0 low high;
        window = v.window;
        acked = λ q g. v.acked q g;
        matched = λ x g. ground (arith, v.matched x g, move);
      }

  -- the Result of an assignment that has none
  pub result-IsSound :
      (x : ResultRecord) (now : ℕ)
      → (r.state ≡ started) ⊎ (r.state ≡ finished)
      → IsSound d (some x) (with_result r x.result_id x.final_client_event_seq now)
  unfolding with_result event_acked is_terminal
  result-IsSound x now h = record {
    numbered = v.numbered;
    unique = v.unique;
    within = λ q y g. v.within q y g;
    complete = λ q live low high. ground (arith, v.complete q);
    window = v.window;
    acked = λ q g. v.acked q g;
    matched = λ y g. ground arith;
  }

  -- an assignment that leaves its Result behind
  pub settle-IsSound :
      (now : ℕ) → IsSound d none (record r { state = result_acked; updated_at = now })
  unfolding is_terminal event_acked
  settle-IsSound now = record {
    numbered = v.numbered;
    unique = v.unique;
    within = λ q y g. v.within q y g;
    complete = λ q live low high. absurd (ground arith);
    window = v.window;
    acked = λ q g. v.acked q g;
    matched = λ y g. absurd (ground arith);
  }

  -- a terminal assignment whose Events are gone
  pub clear-IsSound : is_terminal r.state ≡ true → IsSound [] f r
  unfolding get
  clear-IsSound h = record {
    numbered = tt;
    unique = tt;
    within = λ q y g. absurd (ground arith);
    complete = λ q live low high. absurd (ground arith);
    window = v.window;
    acked = v.acked;
    matched = v.matched;
  }

  -- and without its Result
  pub unmatched-IsSound : IsSound d none r
  unmatched-IsSound = record {
    numbered = v.numbered;
    unique = v.unique;
    within = v.within;
    complete = v.complete;
    window = v.window;
    acked = v.acked;
    matched = λ y g. absurd (ground arith);
  }

-- A record as it is made for a new assignment: no Event counted yet.
pub record IsFresh (r : AssignmentRecord) : Type 0 where
  pub no_event : r.last_client_event_seq ≡ 0
  pub no_ack : r.acked_client_event_seq ≡ 0
  pub none_ahead : r.acked_out_of_order_event_seqs ≡ []

pub fresh-IsSound : (r : AssignmentRecord) → IsFresh r → IsSound [] none r
unfolding get event_acked in_window contains
fresh-IsSound r h = record {
  numbered = tt;
  unique = tt;
  within = λ q y g. absurd (ground arith);
  complete = λ q live low high. absurd (ground arith);
  window = rw h.none_ahead tt;
  acked = λ q g. ground arith;
  matched = λ y g. absurd (ground arith);
}
