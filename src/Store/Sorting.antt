-- ===== src/Store/Sorting.antt =====
-- `sorted(d.items())` of src/openlinker/runtime/store.py on a dict whose last key is the largest.
use openlinker_python.Prelude.{
  ℕ, ◌+◌, ◌≤◌, ◌≡◌, refl, false, List, [], ◌∷◌, ◌++◌, some, nat_eq, ◌==◌, arith, if◌then◌else◌,
  Bool-cases, inl, inr, ◌||◌,
}
use openlinker_python.Dict.{Dict, get, set_item}
use openlinker_python.Store.Records.{AssignmentRecord, EventRecord}
use openlinker_python.Store.Acks.{event_acked}
use openlinker_python.Store.Invariant.{Numbered}
use openlinker_python.Store.Memory.{sort_items, insert_item, unacked}

-- Every key is at most `n`.
abbrev pub KeysBelow : ℕ → Dict ℕ EventRecord → Type 0
KeysBelow n [] = Unit
KeysBelow n ((k, e) ∷ d) = (k ≤ n) × KeysBelow n d

pub keys_below :
    (n : ℕ) (d : Dict ℕ EventRecord)
    → ((q : ℕ) (e : EventRecord) → get d q ≡ some e → q ≤ n)
    → KeysBelow n d
unfolding get
keys_below n [] h = tt
keys_below n ((k, w) ∷ d) h = (
  h k w (ground arith),
  keys_below n d (λ q e g. elim (Bool-cases (k == q)) [
    | inl same ↦ h q w (ground arith)
    | inr other ↦ h q e (ground arith)
  ]),
)

set_item_last :
    (n : ℕ) (e : EventRecord) (d : Dict ℕ EventRecord)
    → KeysBelow n d
    → set_item d (n + 1) e ≡ d ++ (n + 1, e) ∷ []
unfolding set_item
set_item_last n e [] h = refl
set_item_last n e ((k, w) ∷ d) h = ground (arith, set_item_last n e d h.1)

insert_item_before :
    (k n : ℕ) (v e : EventRecord) (d : Dict ℕ EventRecord)
    → k ≤ n
    → insert_item k v (d ++ (n + 1, e) ∷ []) ≡ insert_item k v d ++ (n + 1, e) ∷ []
unfolding insert_item
insert_item_before k n v e [] h = ground arith
insert_item_before k n v e ((j, w) ∷ d) h = ground (arith, insert_item_before k n v e d h)

sort_items_last :
    (n : ℕ) (e : EventRecord) (d : Dict ℕ EventRecord)
    → KeysBelow n d
    → sort_items (d ++ (n + 1, e) ∷ []) ≡ sort_items d ++ (n + 1, e) ∷ []
unfolding sort_items
sort_items_last n e [] h = refl
sort_items_last n e ((k, v) ∷ d) h =
    rw (sort_items_last n e d h.1) (insert_item_before k n v e (sort_items d) h.0)

-- A new largest key is sorted to the end.
pub sort_items-set_item :
    (n : ℕ) (e : EventRecord) (d : Dict ℕ EventRecord)
    → KeysBelow n d
    → sort_items (set_item d (n + 1) e) ≡ sort_items d ++ (n + 1, e) ∷ []
sort_items-set_item n e d h = rw (set_item_last n e d h) (sort_items_last n e d h)

pub unacked_last :
    (r : AssignmentRecord) (n : ℕ) (e : EventRecord) (d : Dict ℕ EventRecord)
    → event_acked r n ≡ false
    → unacked r (d ++ (n, e) ∷ []) ≡ unacked r d ++ e ∷ []
unfolding unacked
unacked_last r n e [] h = ground arith
unacked_last r n e ((k, v) ∷ d) h = ground (arith, unacked_last r n e d h)

pub unacked_same :
    (r r' : AssignmentRecord) (d : Dict ℕ EventRecord)
    → ((q : ℕ) → event_acked r' q ≡ event_acked r q)
    → unacked r' d ≡ unacked r d
unfolding unacked
unacked_same r r' [] h = refl
unacked_same r r' ((k, e) ∷ d) h = ground (arith, h k, unacked_same r r' d h)

-- the Events with another sequence
unfoldable pub without_seq : ℕ → List EventRecord → List EventRecord
without_seq n [] = []
without_seq n (e ∷ es) =
    let rest = without_seq n es in if e.client_event_seq == n then rest else e ∷ rest

-- One more acknowledged sequence takes its Events out.
pub unacked_without :
    (r r' : AssignmentRecord) (n : ℕ) (d : Dict ℕ EventRecord)
    → Numbered d
    → ((q : ℕ) → event_acked r' q ≡ (event_acked r q || q == n))
    → unacked r' d ≡ without_seq n (unacked r d)
unfolding unacked without_seq
unacked_without r r' n [] v h = refl
unacked_without r r' n ((k, e) ∷ d) v h = ground (
  arith,
  h k,
  nat_eq.same_iff k n,
  nat_eq.same_iff e.client_event_seq n,
  unacked_without r r' n d v.1 h,
)

insert_item-Numbered :
    (k : ℕ) (e : EventRecord) (d : Dict ℕ EventRecord)
    → e.client_event_seq ≡ k
    → Numbered d
    → Numbered (insert_item k e d)
unfolding insert_item
insert_item-Numbered k e [] h v = (h, tt)
insert_item-Numbered k e ((j, w) ∷ d) h v = ground (arith, insert_item-Numbered k e d h v.1)

pub sort_items-Numbered : (d : Dict ℕ EventRecord) → Numbered d → Numbered (sort_items d)
unfolding sort_items
sort_items-Numbered [] v = tt
sort_items-Numbered ((k, e) ∷ d) v =
    insert_item-Numbered k e (sort_items d) v.0 (sort_items-Numbered d v.1)
