-- ===== src/Store/File/Ready.antt =====
-- A `FileRuntimeStore` (src/openlinker/runtime/store.py) that is closed or poisoned.
use openlinker_python.Prelude.{◌≡◌, refl, ◌⊎◌, inl, inr, Text, text_eq, arith, Option-cases}
use openlinker_python.Dict.{get}
use openlinker_python.Platform.{Platform}
use openlinker_python.Errors.{Error, err, assignment_not_found}
use openlinker_python.Store.Methods as memory
use openlinker_python.Store.Reach.{
  Call, creates, advances, deletes, appends, acks, stores, settles, clears, discards, closes,
}
use openlinker_python.Store.File.{Device, FileStore, file_ready, inherited}
use openlinker_python.Store.File.Methods.{
  find, find_attempt, create_assignment, advance_assignment, delete_assignment, append_event,
  ack_event, store_result, ack_result, clear_terminal_events, discard_terminal_spool,
}
use openlinker_python.Store.File.Reach.{after}

module _ ⦃p : Platform⦄ (s : FileStore) (e : Error) (stuck : file_ready s ≡ err e) where
  find-stuck : (m : Text) → find m s ≡ err e
  unfolding find memory.assignment
  find-stuck m = ground arith

  find_attempt-stuck : (a : Text) → (d : Error) × (find_attempt a s ≡ err d)
  unfolding find_attempt memory.assignment_for_attempt memory.assignment
  find_attempt-stuck a = elim (Option-cases (get s.memory.attempts a)) [
    | inl g ↦ (assignment_not_found, ground arith)
    | inr (m, g) ↦ (e, ground arith)
  ]

  module _ (device : Device) where
    -- Once a store is closed or poisoned, no call of any of its methods but `close` changes anything:
    -- neither the records in memory nor the files.
    pub after-not_ready : (c : Call) → (after device s c ≡ s) ⊎ (c ≡ closes)
    unfolding after create_assignment advance_assignment delete_assignment append_event ack_event
        store_result ack_result clear_terminal_events discard_terminal_spool inherited
        memory.create_assignment memory.advance_assignment memory.ack_event memory.assignment
        memory.assignment_for_attempt
    after-not_ready (creates r now) = inl (ground arith)
    after-not_ready (advances m state now) = inl (ground arith)
    after-not_ready (deletes m) = inl (ground (arith, find-stuck m))
    after-not_ready (appends a kind payload id t u) = inl (ground (arith, find_attempt-stuck a))
    after-not_ready (acks a id seq now) = inl (ground arith)
    after-not_ready (stores a payload id t u) = inl (ground (arith, find_attempt-stuck a))
    after-not_ready (settles a id now) = inl (ground (arith, find_attempt-stuck a))
    after-not_ready (clears a) = inl (ground (arith, find_attempt-stuck a))
    after-not_ready (discards a) = inl (ground (arith, find_attempt-stuck a))
    after-not_ready closes = inr refl
