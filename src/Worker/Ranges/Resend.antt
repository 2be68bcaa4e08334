-- ===== src/Worker/Ranges/Resend.antt =====
-- The ranges that `_event_ranges` (src/openlinker/runtime/worker.py) announces for pending Events are
-- those for which `events_in_ranges` (src/openlinker/runtime/store.py) returns the same Events.
use mathlib.Core.Path.{subst}
use mathlib.Core.List.{append_assoc}
use openlinker_python.Store.Sorting.{sort_items-Numbered}
use openlinker_python.Prelude.{
  ◌≢◌, ℕ, zero, suc, ◌+◌, ◌-◌, ◌≤◌, ◌<◌, ◌≡◌, refl, ap, ◌∙◌, List, [], ◌∷◌, ◌++◌, none, some, Text,
  arith, ◌==◌, nat_eq, Bool-cases, Option-cases, map, inl, inr, eq_of_==,
}
use openlinker_python.Dict.{Dict, get}
use openlinker_python.Platform.{Platform}
use openlinker_python.Errors.{Result, ok, Result-cases}
use openlinker_python.Store.Records.{AssignmentRecord, EventRecord}
use openlinker_python.Store.Acks.{event_acked}
use openlinker_python.Store.Memory.{
  MemoryStore, events_of, sort_items, insert_item, unacked, range_events, ranges_events,
}
use openlinker_python.Store.Methods.{assignment_for_attempt, pending_events, events_in_ranges}
use openlinker_python.Store.Invariant.{IsConsistent, Unique, Numbered}
use openlinker_python.Store.Pending.{spool_keys}
use openlinker_python.Worker.Ranges.{event_ranges, merge_ranges, sorted_seqs, insert_seq}

-- Events of `d` in ascending order of their sequences, above a bound.
abbrev pub Chain : Dict ℕ EventRecord → ℕ → List EventRecord → Type 0
Chain d b [] = Unit
Chain d b (e ∷ es) =
    (b < e.client_event_seq) × (get d e.client_event_seq ≡ some e) × Chain d e.client_event_seq es

-- Items of `d` in ascending order of their keys, above a bound.
abbrev Items : Dict ℕ EventRecord → ℕ → Dict ℕ EventRecord → Type 0
Items d b [] = Unit
Items d b ((k, e) ∷ xs) = (b < k) × (get d k ≡ some e) × Items d k xs

insert_seq-Chain :
    (d : Dict ℕ EventRecord) (b : ℕ) (es : List EventRecord) (n : ℕ)
    → Chain d n es
    → insert_seq n (sorted_seqs es) ≡ n ∷ sorted_seqs es
unfolding insert_seq sorted_seqs
insert_seq-Chain d b [] n c = refl
insert_seq-Chain d b (e ∷ es) n c =
    rw (insert_seq-Chain d b es e.client_event_seq c.2) (ground arith)

range_events_step :
    (d : Dict ℕ EventRecord) (start n : ℕ) (e : EventRecord) (es : List EventRecord)
    → get d start ≡ some e
    → range_events d (start + 1) n ≡ ok es
    → range_events d start (suc n) ≡ ok (e ∷ es)
unfolding range_events
range_events_step d start n e es at h = ground arith

range_events_split :
    (d : Dict ℕ EventRecord) (start n : ℕ) (acc : List EventRecord)
    → range_events d start (suc n) ≡ ok acc
    → (e : EventRecord) × (es : List EventRecord) × (get d start ≡ some e)
      × (range_events d (start + 1) n ≡ ok es)
      × (acc ≡ e ∷ es)
unfolding range_events
range_events_split d start n acc h = elim (Option-cases (get d start)) [
  | inl g ↦ absurd (ground arith)
  | inr (e, g) ↦ elim (Result-cases (range_events d (start + 1) n)) [
    | inr (x, p) ↦ absurd (ground arith)
    | inl (es, p) ↦ (e, es, g, p, ground arith)
  ]
]

range_events_last :
    (d : Dict ℕ EventRecord) (start n : ℕ) (e : EventRecord) (acc : List EventRecord)
    → range_events d start n ≡ ok acc
    → get d (start + n) ≡ some e
    → range_events d start (suc n) ≡ ok (acc ++ e ∷ [])
range_events_last d start zero e acc h at =
    let none_yet : acc ≡ [] = unfold range_events in ground arith in
    rw none_yet (
      range_events_step d start 0 e [] (ap (get d) (omega arith) ∙ at)
        (unfold range_events in refl))
range_events_last d start (suc n) e acc h at =
    let (x, xs, g, p, same) = range_events_split d start n acc h in
    rw same (
      range_events_step d start (suc n) x (xs ++ e ∷ []) g
        (range_events_last d (start + 1) n e xs p (ap (get d) (omega arith) ∙ at)))

ranges_step :
    (d : Dict ℕ EventRecord) (b start end : ℕ) (rest : List (ℕ × ℕ)) (xs ys : List EventRecord)
    → b < start
    → start ≤ end
    → range_events d start (end + 1 - start) ≡ ok xs
    → ranges_events d end rest ≡ ok ys
    → ranges_events d b ((start, end) ∷ rest) ≡ ok (xs ++ ys)
unfolding ranges_events
ranges_step d b start end rest xs ys low order h more = ground arith

-- The loop with an open range, whose Events are `acc`.
merge_ranges-Chain :
    (d : Dict ℕ EventRecord) (b start end : ℕ) (acc es : List EventRecord)
    → b < start
    → start ≤ end
    → range_events d start (end + 1 - start) ≡ ok acc
    → Chain d end es
    → ranges_events d b (merge_ranges start end (map (λ e. e.client_event_seq) es)) ≡ ok (acc ++ es)
unfolding merge_ranges
merge_ranges-Chain d b start end acc [] low order h c =
    ranges_step d b start end [] acc [] low order h (unfold ranges_events in refl)
merge_ranges-Chain d b start end acc (e ∷ es) low order h c =
    let q = e.client_event_seq in
    elim (Bool-cases (q == end + 1)) [
      | inl p ↦
          let same = eq_of_== q (end + 1) p in
          let more =
            range_events_last d start (end + 1 - start) e acc h (ap (get d) (omega arith) ∙ c.1) in
          rw (p, merge_ranges)
            (merge_ranges-Chain d b start q (acc ++ e ∷ []) es low (omega arith)
                (ap (range_events d start) (omega arith) ∙ more) c.2
              ∙ ap ok (append_assoc acc (e ∷ []) es))
      | inr p ↦
          let one = range_events_step d q 0 e [] c.1 (unfold range_events in refl) in
          rw (p, merge_ranges)
            (ranges_step d b start end _ acc (e ∷ es) low order h (
              merge_ranges-Chain d end q q (e ∷ []) es c.0 (omega arith)
                (ap (range_events d q) (omega arith) ∙ one) c.2))
    ]

sorted_seqs-Chain :
    (d : Dict ℕ EventRecord) (b : ℕ) (es : List EventRecord)
    → Chain d b es
    → sorted_seqs es ≡ map (λ e. e.client_event_seq) es
unfolding sorted_seqs
sorted_seqs-Chain d b [] c = refl
sorted_seqs-Chain d b (e ∷ es) c =
    insert_seq-Chain d b es e.client_event_seq c.2
    ∙ ap (◌∷◌ e.client_event_seq) (sorted_seqs-Chain d e.client_event_seq es c.2)

ranges_events-Chain :
    (d : Dict ℕ EventRecord) (es : List EventRecord)
    → Chain d 0 es
    → ranges_events d 0 (event_ranges es) ≡ ok es
ranges_events-Chain d [] c = unfold event_ranges ranges_events in refl
ranges_events-Chain d (e ∷ es) c =
    let q = e.client_event_seq in
    let one = range_events_step d q 0 e [] c.1 (unfold range_events in refl) in
    unfold event_ranges in
    rw (insert_seq-Chain d 0 es q c.2, sorted_seqs-Chain d q es c.2)
      (merge_ranges-Chain d 0 q q (e ∷ []) es c.0 (omega arith)
        (ap (range_events d q) (omega arith) ∙ one) c.2)

Items-insert_item :
    (d : Dict ℕ EventRecord) (b k : ℕ) (e : EventRecord) (xs : Dict ℕ EventRecord)
    → b < k
    → get d k ≡ some e
    → get xs k ≡ none
    → Items d b xs
    → Items d b (insert_item k e xs)
unfolding insert_item get
Items-insert_item d b k e [] low at new i = (low, at, tt)
Items-insert_item d b k e ((j, w) ∷ xs) low at new i = ground (arith, Items-insert_item d j k e xs)

get-insert_item :
    (k q : ℕ) (e : EventRecord) (xs : Dict ℕ EventRecord)
    → k ≢ q
    → get xs q ≡ none
    → get (insert_item k e xs) q ≡ none
unfolding insert_item get
get-insert_item k q e [] ne h = ground arith
get-insert_item k q e ((j, w) ∷ xs) ne h = ground (arith, get-insert_item k q e xs ne)

get-sort_items : (q : ℕ) (d : Dict ℕ EventRecord) → get d q ≡ none → get (sort_items d) q ≡ none
unfolding sort_items get
get-sort_items q [] h = refl
get-sort_items q ((k, e) ∷ d) h =
    get-insert_item k q e (sort_items d) (ground arith) (get-sort_items q d (ground arith))

-- Every item of a dict without double keys is what `get` finds.
Items_weaken :
    (d : Dict ℕ EventRecord) (b k : ℕ) (e : EventRecord) (xs : Dict ℕ EventRecord)
    → get d k ≡ none
    → Items d b xs
    → Items ((k, e) ∷ d) b xs
unfolding get
Items_weaken d b k e [] new i = tt
Items_weaken d b k e ((j, w) ∷ xs) new i =
    (i.0, unfold get in ground (arith, nat_eq.same_iff k j), Items_weaken d j k e xs new i.2)

sort_items-Items :
    (d : Dict ℕ EventRecord)
    → Unique d
    → ((q : ℕ) (e : EventRecord) → get d q ≡ some e → 0 < q)
    → Items d 0 (sort_items d)
unfolding sort_items
sort_items-Items [] u low = tt
sort_items-Items ((k, e) ∷ d) u low =
    let here : get ((k, e) ∷ d) k ≡ some e = unfold get in ground arith in
    let tail_low = λ (q : ℕ) (x : EventRecord) (g : get d q ≡ some x).
      low q x (unfold get in ground (arith, nat_eq.same_iff k q)) in
    Items-insert_item ((k, e) ∷ d) 0 k e (sort_items d) (low k e here) here (get-sort_items k d u.0)
      (Items_weaken d 0 k e (sort_items d) u.0 (sort_items-Items d u.1 tail_low))

Chain-mono :
    (d : Dict ℕ EventRecord) {b c : ℕ} (es : List EventRecord) → b ≤ c → Chain d c es → Chain d b es
Chain-mono d [] h c = tt
Chain-mono d (e ∷ es) h c = (omega arith, c.1, c.2)

unacked-Chain :
    (d : Dict ℕ EventRecord) (b : ℕ) (r : AssignmentRecord) (xs : Dict ℕ EventRecord)
    → Items d b xs
    → Numbered xs
    → Chain d b (unacked r xs)
unfolding unacked
unacked-Chain d b r [] i n = tt
unacked-Chain d b r ((k, e) ∷ xs) i n = elim (Bool-cases (event_acked r k)) [
  | inl t ↦
      rw (t, unacked) (Chain-mono d (unacked r xs) (omega arith) (unacked-Chain d k r xs i.2 n.1))
  | inr f ↦
      rw (f, unacked) (rw n.0 i.0, ap (get d) n.0 ∙ i.1, rw n.0 (unacked-Chain d k r xs i.2 n.1))
]

module _ ⦃p : Platform⦄ (ready : MemoryStore → Result (Unit {0})) (s : MemoryStore)
    (v : IsConsistent s) where
  -- the pending Events are found in the spool under their sequences
  pub pending-Chain :
      (a : Text) (r : AssignmentRecord)
      → assignment_for_attempt ready a s ≡ ok r
      → Chain (events_of s a) 0 (unacked r (sort_items (events_of s a)))
  pending-Chain a r g =
      let d = events_of s a in
      let sound = spool_keys ready s v a r g in
      let items = sort_items-Items d sound.unique (λ q e at. (sound.within q e at).0) in
      unacked-Chain d 0 r (sort_items d) items (sort_items-Numbered d sound.numbered)

  -- A worker that resumes announces the ranges of its pending Events. When those ranges are asked for
  -- again, the store returns just the Events that were pending, in the same order.
  pub events_in_ranges-event_ranges :
      (a : Text) (pending : List EventRecord)
      → pending_events ready a s ≡ ok pending
      → events_in_ranges ready a (event_ranges pending) s ≡ ok pending
  unfolding pending_events events_in_ranges
  events_in_ranges-event_ranges a pending h =
      elim (Result-cases (assignment_for_attempt ready a s)) [
        | inr (e, g) ↦ absurd (ground arith)
        | inl (r, g) ↦
            let d = events_of s a in
            let same : unacked r (sort_items d) ≡ pending = ground arith in
            rw (g, events_in_ranges)
              (subst (λ es. ranges_events d 0 (event_ranges es) ≡ ok es) same
                (ranges_events-Chain d (unacked r (sort_items d)) (pending-Chain a r g)))
      ]
