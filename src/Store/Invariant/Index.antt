-- ===== src/Store/Invariant/Index.antt =====
-- How `_assignments` and `_attempts` index one another.
use openlinker_python.Prelude.{
  ◌≡◌, none, some, Text, text_eq, ◌==◌, arith, Bool-cases, eq_of_==, inl, inr,
}
use openlinker_python.Dict.{Dict, get, set_item, pop, get-set_item, get-pop}
use openlinker_python.Platform.{Platform}
use openlinker_python.Errors.{ok}
use openlinker_python.Store.Records.{AssignmentRecord, attempt_id_of, message_id_of, check_identity}

module _ ⦃p : Platform⦄ where
  -- Each assignment stands under its message, its Attempt leads to it, and its identity is valid; each
  -- Attempt leads to an assignment of its own.
  pub record IsIndexed (rs : Dict Text AssignmentRecord) (ix : Dict Text Text) : Type 0 where
    pub filed : (m : Text) (r : AssignmentRecord) → get rs m ≡ some r → message_id_of r ≡ m
    pub indexed :
        (m : Text) (r : AssignmentRecord) → get rs m ≡ some r → get ix (attempt_id_of r) ≡ some m
    pub owned :
        (a m : Text)
        → get ix a ≡ some m
        → (r : AssignmentRecord) × (get rs m ≡ some r) × (attempt_id_of r ≡ a)
    pub valid :
        (m : Text) (r : AssignmentRecord) → get rs m ≡ some r → check_identity r.identity ≡ ok tt

  put-owned :
      {rs : Dict Text AssignmentRecord} {ix : Dict Text Text} (m : Text) (r r' : AssignmentRecord)
      → IsIndexed rs ix
      → get rs m ≡ some r
      → r'.identity ≡ r.identity
      → (a k : Text) → get ix a ≡ some k
      → (x : AssignmentRecord) × (get (set_item rs m r') k ≡ some x) × (attempt_id_of x ≡ a)
  put-owned {rs} m r r' v e same a k h =
      let (x, at, mine) = v.owned a k h in
      elim (Bool-cases (m == k)) [
        | inl p ↦ (r', rw (get-set_item rs m k r', p), ground (arith, eq_of_== m k p))
        | inr p ↦ (x, rw (get-set_item rs m k r', p) at, mine)
      ]

  -- A change of an assignment that keeps its identity keeps the index.
  pub put-IsIndexed :
      {rs : Dict Text AssignmentRecord} {ix : Dict Text Text} (m : Text) (r r' : AssignmentRecord)
      → IsIndexed rs ix
      → get rs m ≡ some r
      → r'.identity ≡ r.identity
      → IsIndexed (set_item rs m r') ix
  put-IsIndexed {rs} {ix} m r r' v e same = record {
    filed = λ k x h.
        ground (arith, get-set_item rs m k r', text_eq.same_iff m k, v.filed k x, v.filed m r);
    indexed = λ k x h.
        ground (arith, get-set_item rs m k r', text_eq.same_iff m k, v.indexed k x, v.indexed m r);
    owned = λ a k h. put-owned m r r' v e same a k h;
    valid = λ k x h.
        ground (arith, get-set_item rs m k r', text_eq.same_iff m k, v.valid k x, v.valid m r);
  }

  insert-owned :
      {rs : Dict Text AssignmentRecord} {ix : Dict Text Text} (r : AssignmentRecord)
      → IsIndexed rs ix
      → get rs (message_id_of r) ≡ none
      → get ix (attempt_id_of r) ≡ none
      → (b k : Text) → get (set_item ix (attempt_id_of r) (message_id_of r)) b ≡ some k
      → (x : AssignmentRecord) × (get (set_item rs (message_id_of r) r) k ≡ some x)
        × (attempt_id_of x ≡ b)
  insert-owned {rs} {ix} r v fresh free b k h =
      let m = message_id_of r in
      let a = attempt_id_of r in
      let at = get-set_item ix a b m in
      elim (Bool-cases (a == b)) [
        | inl q ↦ (r, ground (arith, get-set_item rs m k r, text_eq.same_iff m k), eq_of_== a b q)
        | inr q ↦
            let (x, there, mine) = v.owned b k (ground arith) in
            (x, ground (arith, get-set_item rs m k r, text_eq.same_iff m k), mine)
      ]

  delete-owned :
      {rs : Dict Text AssignmentRecord} {ix : Dict Text Text} (m : Text) (r : AssignmentRecord)
      → IsIndexed rs ix
      → get rs m ≡ some r
      → (b k : Text) → get (pop ix (attempt_id_of r)) b ≡ some k
      → (x : AssignmentRecord) × (get (pop rs m) k ≡ some x) × (attempt_id_of x ≡ b)
  delete-owned {rs} {ix} m r v e b k h =
      let a = attempt_id_of r in
      let at = get-pop ix a b in
      let (x, there, mine) = v.owned b k (ground arith) in
      (x, ground (arith, get-pop rs m k, text_eq.same_iff m k, text_eq.same_iff a b), mine)

  -- A new assignment, under a new message and for a new Attempt, keeps the index.
  pub insert-IsIndexed :
      {rs : Dict Text AssignmentRecord} {ix : Dict Text Text} (r : AssignmentRecord)
      → IsIndexed rs ix
      → get rs (message_id_of r) ≡ none
      → get ix (attempt_id_of r) ≡ none
      → check_identity r.identity ≡ ok tt
      → IsIndexed
          (set_item rs (message_id_of r) r)
          (set_item ix (attempt_id_of r) (message_id_of r))
  insert-IsIndexed {rs} {ix} r v fresh free good =
      let m = message_id_of r in
      let a = attempt_id_of r in
      record {
        filed = λ k x h. ground (arith, get-set_item rs m k r, text_eq.same_iff m k, v.filed k x);
        indexed = λ k x h. ground (
          arith,
          get-set_item rs m k r,
          get-set_item ix a (attempt_id_of x) m,
          text_eq.same_iff m k,
          text_eq.same_iff a (attempt_id_of x),
          v.indexed k x,
        );
        owned = insert-owned r v fresh free;
        valid = λ k x h. ground (arith, get-set_item rs m k r, text_eq.same_iff m k, v.valid k x);
      }

  -- Without an assignment and its Attempt the rest is still an index.
  pub delete-IsIndexed :
      {rs : Dict Text AssignmentRecord} {ix : Dict Text Text} (m : Text) (r : AssignmentRecord)
      → IsIndexed rs ix
      → get rs m ≡ some r
      → IsIndexed (pop rs m) (pop ix (attempt_id_of r))
  delete-IsIndexed {rs} {ix} m r v e =
      let a = attempt_id_of r in
      record {
        filed = λ k x h. ground (arith, get-pop rs m k, text_eq.same_iff m k, v.filed k x);
        indexed = λ k x h. ground (
          arith,
          get-pop rs m k,
          get-pop ix a (attempt_id_of x),
          text_eq.same_iff m k,
          text_eq.same_iff a (attempt_id_of x),
          v.indexed k x,
          v.indexed m r,
        );
        owned = delete-owned m r v e;
        valid = λ k x h. ground (arith, get-pop rs m k, text_eq.same_iff m k, v.valid k x);
      }
