-- ===== src/Store/File/Bounded.antt =====
-- No method of `FileRuntimeStore` (src/openlinker/runtime/store.py) passes the limits of the store.
use openlinker_python.Prelude.{
  ℕ, Text, text_eq, refl, inl, inr, Option-cases, Bool-cases, not, ◌||◌, ◌==◌, is_some,
}
use openlinker_python.Dict.{get}
use openlinker_python.Errors.{
  Result, ok, err, result_ack_mismatch, delete_non_terminal, delete_with_spool, events_need_started,
  clear_non_terminal, discard_non_terminal,
}
use openlinker_python.Exec.{Exec}
use openlinker_python.Json.{Fields}
use openlinker_python.Platform.{Platform}
use openlinker_python.Store.State.{State, started, result_acked, revoked, is_terminal, state_eq}
use openlinker_python.Store.Records.{AssignmentRecord, ResultRecord, attempt_id_of, object_beq}
use openlinker_python.Text.{is_empty}
use openlinker_python.Store.Memory.{events_of, full_payload}
use openlinker_python.Store.Methods as memory
use openlinker_python.Store.Reach.{
  Call, creates, advances, deletes, appends, acks, stores, settles, clears, discards, closes,
}
use openlinker_python.Store.File.{
  Device, FileStore, write_record, remove_record, remove_records, persist_assignment, poisoning,
  inherited,
}
use openlinker_python.Store.File.Keys.{path_eq}
use openlinker_python.Store.File.Methods.{
  find, find_attempt, store_new, settle, create_assignment, advance_assignment, delete_assignment,
  append_event, ack_event, store_result, ack_result, clear_terminal_events, discard_terminal_spool,
  close,
}
use openlinker_python.Store.File.Reach.{Reach, here, next, after}
use openlinker_python.Store.File.Ready.{after-not_ready}
use openlinker_python.Store.File.Mirrored.{not_ready}
use openlinker_python.Store.File.Capacity.{
  Fits, IsExact, IsStable, IsNoted, Ends, Leaves, IsExact-after, exact-IsStable, continue-Ends,
  pure-Ends, raise-Ends, read-Leaves, checked-Leaves, inherited-Ends, poisoning-Leaves,
  write_record-Leaves, remove_record-Leaves, remove_records-Leaves,
}

module _ ⦃p : Platform⦄ (device : Device) (bytes records : ℕ) where
  abbrev Stable : FileStore → Type 0
  Stable = IsStable device bytes records

  abbrev Within : FileStore → Type 0
  Within = Fits device bytes records

  abbrev stable : (s : FileStore) → IsExact device bytes records s → Stable s
  stable = exact-IsStable device bytes records

  abbrev fitting : (s : FileStore) → IsExact device bytes records s → Within s
  fitting s x = x.0

  abbrev Settles : {A : Type 0} → Exec FileStore A → Type 0
  Settles m = Leaves device bytes records Stable m

  abbrev Fitting : {A : Type 0} → Exec FileStore A → Type 0
  Fitting m = Leaves device bytes records Within m

  persist_assignment-Fitting : (r : AssignmentRecord) → Fitting (persist_assignment device r)
  unfolding persist_assignment
  persist_assignment-Fitting r = write_record-Leaves device bytes records _ _

  poisoned-Settles : {A : Type 0} (m : Exec FileStore A) → Fitting m → Settles (poisoning m)
  poisoned-Settles = poisoning-Leaves device bytes records

  create_assignment-Settles :
      (r : AssignmentRecord) (now : ℕ) → Settles (create_assignment device r now)
  unfolding create_assignment
  create_assignment-Settles r now s x =
      continue-Ends device bytes records Stable
        (inherited (λ ready. memory.create_assignment ready r now) s) _
        (inherited-Ends device bytes records Stable stable _ s x)
        λ a t y.
          continue-Ends device bytes records Stable (poisoning (persist_assignment device a) t) _
            (poisoned-Settles _ (persist_assignment-Fitting a) t y)
            λ b u z. pure-Ends device bytes records Stable a u z

  advance_assignment-Settles :
      (m : Text) (state : State) (now : ℕ) → Settles (advance_assignment device m state now)
  unfolding advance_assignment
  advance_assignment-Settles m state now s x =
      continue-Ends device bytes records Stable
        (inherited (λ ready. memory.advance_assignment ready m state now) s) _
        (inherited-Ends device bytes records Stable stable _ s x)
        λ a t y.
          continue-Ends device bytes records Stable (poisoning (persist_assignment device a) t) _
            (poisoned-Settles _ (persist_assignment-Fitting a) t y)
            λ b u z. pure-Ends device bytes records Stable a u z

  ack_event-Settles : (a id : Text) (seq now : ℕ) → Settles (ack_event device a id seq now)
  unfolding ack_event
  ack_event-Settles a id seq now s x =
      continue-Ends device bytes records Stable
        (inherited (λ ready. memory.ack_event ready a id seq now) s) _
        (inherited-Ends device bytes records Stable stable _ s x)
        λ b. poisoned-Settles _ (
          read-Leaves device bytes records Within fitting (find_attempt a) _
            persist_assignment-Fitting)

  delete_assignment-Settles : (m : Text) → Settles (delete_assignment device m)
  unfolding delete_assignment Ends
  delete_assignment-Settles m = read-Leaves device bytes records Stable stable (find m) _ λ r.
      checked-Leaves device bytes records Stable stable (λ s. is_terminal r.state)
        delete_non_terminal _
        (checked-Leaves device bytes records Stable stable
          (λ s. not (
            not (is_empty (events_of s.memory (attempt_id_of r)))
            || is_some (get s.memory.results (attempt_id_of r))))
          delete_with_spool _
          (poisoned-Settles _ λ t y.
            continue-Ends device bytes records Within (remove_record device _ t) _
              (remove_record-Leaves device bytes records _ t y)
              λ u v z. IsExact-after device bytes records v _ refl refl refl refl z))

  append_event-Settles :
      (a kind : Text) (payload : Fields) (id : Text) (t u : ℕ)
      → Settles (append_event device a kind payload id t u)
  unfolding append_event
  append_event-Settles a kind payload id t u =
      read-Leaves device bytes records Stable stable (find_attempt a) _ λ r.
        checked-Leaves device bytes records Stable stable (λ s. r.state == started)
          events_need_started _
          (poisoned-Settles _ λ v y.
            continue-Ends device bytes records Within (write_record device _ _ v) _
              (write_record-Leaves device bytes records _ _ v y)
              λ b w z.
                continue-Ends device bytes records Within (persist_assignment device _ _) _
                  (persist_assignment-Fitting _ _
                    (IsExact-after device bytes records w _ refl refl refl refl z))
                  λ c n k. pure-Ends device bytes records Within _ n k)

  store_new-Settles :
      (a : Text) (payload : Fields) (id : Text) (t u : ℕ)
      → Settles (store_new device a payload id t u)
  store_new-Settles a payload id t u =
      read-Leaves device bytes records Stable stable (find_attempt a) _ λ r.
        read-Leaves device bytes records Stable stable
          (λ s. memory.final_seq_for payload r.last_client_event_seq) _
          λ final. poisoned-Settles _ λ v y.
            continue-Ends device bytes records Within (write_record device _ _ v) _
              (write_record-Leaves device bytes records _ _ v y)
              λ b w z.
                continue-Ends device bytes records Within (persist_assignment device _ _) _
                  (persist_assignment-Fitting _ _
                    (IsExact-after device bytes records w _ refl refl refl refl z))
                  λ c n k. pure-Ends device bytes records Within _ n k

  store_result-Settles :
      (a : Text) (payload : Fields) (id : Text) (t u : ℕ)
      → Settles (store_result device a payload id t u)
  unfolding store_result Ends
  store_result-Settles a payload id t u s x = elim (Option-cases (get s.memory.results a)) [
    | inl g ↦ rw g (store_new-Settles a payload id t u s x)
    | inr (old, g) ↦
        elim (Bool-cases (
          object_beq old.payload payload
          || object_beq old.payload
              (full_payload payload old.result_id old.final_client_event_seq))) [
                | inl h ↦ rw (g, h) x
                | inr h ↦ rw (g, h) (stable s x)
              ]
  ]

  settle-Settles :
      (a id : Text) (now : ℕ) (old : ResultRecord) → Settles (settle device a id now old)
  unfolding Ends
  settle-Settles a id now old =
      checked-Leaves device bytes records Stable stable (λ s. old.result_id == id)
        result_ack_mismatch _
        (read-Leaves device bytes records Stable stable (find_attempt a) _ λ r s x.
          poisoned-Settles _
            (λ v y.
              continue-Ends device bytes records Within (persist_assignment device _ v) _
                (persist_assignment-Fitting _ v y)
                λ b w z.
                  continue-Ends device bytes records Within (remove_record device _ w) _
                    (remove_record-Leaves device bytes records _ w z)
                    λ c n k. IsExact-after device bytes records n _ refl refl refl refl k)
            _ (IsExact-after device bytes records s _ refl refl refl refl x))

  ack_result-Settles : (a id : Text) (now : ℕ) → Settles (ack_result device a id now)
  unfolding ack_result
  ack_result-Settles a id now s x = elim (Option-cases (get s.memory.results a)) [
    | inl g ↦ rw g (raise-Ends device bytes records Stable stable _ result_ack_mismatch s x)
    | inr (old, g) ↦ rw g (settle-Settles a id now old s x)
  ]

  clear_terminal_events-Settles : (a : Text) → Settles (clear_terminal_events device a)
  unfolding clear_terminal_events Ends
  clear_terminal_events-Settles a =
      read-Leaves device bytes records Stable stable (find_attempt a) _ λ r.
        checked-Leaves device bytes records Stable stable
          (λ s. r.state == result_acked || r.state == revoked) clear_non_terminal _
          (poisoned-Settles _ λ v y.
            continue-Ends device bytes records Within (remove_records device _ v) _
              (remove_records-Leaves device bytes records _ v y)
              λ c n k. IsExact-after device bytes records n _ refl refl refl refl k)

  discard_terminal_spool-Settles : (a : Text) → Settles (discard_terminal_spool device a)
  unfolding discard_terminal_spool Ends
  discard_terminal_spool-Settles a =
      read-Leaves device bytes records Stable stable (find_attempt a) _ λ r.
        checked-Leaves device bytes records Stable stable (λ s. is_terminal r.state)
          discard_non_terminal _
          (poisoned-Settles _ λ v y.
            continue-Ends device bytes records Within (remove_records device _ v) _
              (remove_records-Leaves device bytes records _ v y)
              λ b w z.
                continue-Ends device bytes records Within (remove_records device _ w) _
                  (remove_records-Leaves device bytes records _ w z)
                  λ c n k. IsExact-after device bytes records n _ refl refl refl refl k)

  Ends-Stable :
      {A : Type 0} (r : Result A × FileStore) → Ends device bytes records Stable r → Stable r.1
  unfolding Ends
  Ends-Stable (ok a, s) x = stable s x
  Ends-Stable (err e, s) x = x

  after-exact :
      (s : FileStore) (c : Call) → IsExact device bytes records s → Stable (after device s c)
  unfolding after close
  after-exact s (creates r now) x = Ends-Stable _ (create_assignment-Settles r now s x)
  after-exact s (advances m state now) x =
      Ends-Stable _ (advance_assignment-Settles m state now s x)
  after-exact s (deletes m) x = Ends-Stable _ (delete_assignment-Settles m s x)
  after-exact s (appends a kind payload id t u) x =
      Ends-Stable _ (append_event-Settles a kind payload id t u s x)
  after-exact s (acks a id seq now) x = Ends-Stable _ (ack_event-Settles a id seq now s x)
  after-exact s (stores a payload id t u) x =
      Ends-Stable _ (store_result-Settles a payload id t u s x)
  after-exact s (settles a id now) x = Ends-Stable _ (ack_result-Settles a id now s x)
  after-exact s (clears a) x = Ends-Stable _ (clear_terminal_events-Settles a s x)
  after-exact s (discards a) x = Ends-Stable _ (discard_terminal_spool-Settles a s x)
  after-exact s closes x = stable _ (IsExact-after device bytes records s _ refl refl refl refl x)

  closed-Stable : (s : FileStore) → Stable s → Stable (close s)
  unfolding close
  closed-Stable s (f, noted) = (
    record {
      same_bytes = f.same_bytes;
      same_records = f.same_records;
      bytes_fit = f.bytes_fit;
      records_fit = f.records_fit;
    },
    noted,
  )

  after-Stable : (s : FileStore) (c : Call) → Stable s → Stable (after device s c)
  unfolding after
  after-Stable s c (f, noted) = elim (Option-cases s.poisoned) [
    | inl live ↦ after-exact s c (f, noted live)
    | inr (e, bad) ↦
        let (d, stuck) = not_ready device e s bad in
        elim (after-not_ready s d stuck device c) [
          | inl same ↦ rw same (f, noted)
          | inr last ↦ rw last (closed-Stable s (f, noted))
        ]
  ]

  Reach-Stable : {s t : FileStore} → Reach device s t → Stable s → Stable t
  Reach-Stable here x = x
  Reach-Stable (next {t} r c) x = after-Stable t c (Reach-Stable r x)

module _ ⦃p : Platform⦄ (device : Device) where
  -- Whatever calls a store makes and whatever its disk does, the files on the disk stay within the
  -- limits on bytes and on records that the store was made with, if they are so at first and the
  -- sizes that the store notes are theirs.
  pub Reach-Fits :
      {s t : FileStore}
      → Reach device s t
      → Fits device s.max_bytes s.max_records s
      → IsNoted device s
      → Fits device s.max_bytes s.max_records t
  Reach-Fits {s} r f noted = (Reach-Stable device s.max_bytes s.max_records r (f, λ live. noted)).0
