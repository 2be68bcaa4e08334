-- ===== src/Store/Reach.antt =====
-- The stores that calls of the methods of `MemoryRuntimeStore` (src/openlinker/runtime/store.py) reach from
-- an empty one, in any order. A method that raises is a step too.
use openlinker_python.Prelude.{ℕ, Text, List, [], ◌∷◌, All, arith, refl}
use openlinker_python.Dict.{get}
use openlinker_python.Json.{Fields}
use openlinker_python.Platform.{Platform}
use openlinker_python.Store.State.{State}
use openlinker_python.Store.Records.{AssignmentRecord}
use openlinker_python.Store.Memory.{MemoryStore, new, close, memory_ready, events_of}
use openlinker_python.Store.Methods.{
  create_assignment, advance_assignment, delete_assignment, append_event, ack_event, store_result,
  ack_result, clear_terminal_events, discard_terminal_spool,
}
use openlinker_python.Store.Invariant.{IsConsistent}
use openlinker_python.Store.Preserves.Spool.{IsFresh}
use openlinker_python.Store.Preserves.Assignments.{
  create_assignment-IsConsistent, advance_assignment-IsConsistent, delete_assignment-IsConsistent,
}
use openlinker_python.Store.Preserves.Events.{append_event-IsConsistent, ack_event-IsConsistent}
use openlinker_python.Store.Preserves.Results.{
  store_result-IsConsistent, ack_result-IsConsistent, clear_terminal_events-IsConsistent,
  discard_terminal_spool-IsConsistent,
}

pub data Call : Type 0 where
  creates : AssignmentRecord → ℕ → Call
  advances : Text → State → ℕ → Call
  deletes : Text → Call
  appends : Text → Text → Fields → Text → ℕ → ℕ → Call
  acks : Text → Text → ℕ → ℕ → Call
  stores : Text → Fields → Text → ℕ → ℕ → Call
  settles : Text → Text → ℕ → Call
  clears : Text → Call
  discards : Text → Call
  closes : Call

-- The assignment that a call creates counts no Event.
abbrev pub CreatesFresh : Call → Type 0
CreatesFresh (creates r now) = IsFresh r
CreatesFresh _ = Unit

module _ ⦃p : Platform⦄ where
  -- the store after a call, whether it returned or raised
  unfoldable pub after : MemoryStore → Call → MemoryStore
  after s (creates r now) = (create_assignment memory_ready r now s).1
  after s (advances m state now) = (advance_assignment memory_ready m state now s).1
  after s (deletes m) = (delete_assignment memory_ready m s).1
  after s (appends a kind payload id t u) = (append_event memory_ready a kind payload id t u s).1
  after s (acks a id seq now) = (ack_event memory_ready a id seq now s).1
  after s (stores a payload id t u) = (store_result memory_ready a payload id t u s).1
  after s (settles a id now) = (ack_result memory_ready a id now s).1
  after s (clears a) = (clear_terminal_events memory_ready a s).1
  after s (discards a) = (discard_terminal_spool memory_ready a s).1
  after s closes = close s

  -- the store after calls, one after the other
  abbrev pub after_calls : MemoryStore → List Call → MemoryStore
  after_calls s [] = s
  after_calls s (c ∷ cs) = after_calls (after s c) cs

  close-IsConsistent : (s : MemoryStore) → IsConsistent s → IsConsistent (close s)
  unfolding close events_of
  close-IsConsistent s v = record { index = v.index; sound = v.sound; no_orphan = v.no_orphan }

  pub after-IsConsistent :
      (s : MemoryStore) (c : Call) → CreatesFresh c → IsConsistent s → IsConsistent (after s c)
  unfolding after
  after-IsConsistent s (creates r now) fresh v =
      create_assignment-IsConsistent memory_ready s v r now fresh
  after-IsConsistent s (advances m state now) fresh v =
      advance_assignment-IsConsistent memory_ready s v m state now
  after-IsConsistent s (deletes m) fresh v = delete_assignment-IsConsistent memory_ready s v m
  after-IsConsistent s (appends a kind payload id t u) fresh v =
      append_event-IsConsistent memory_ready s v a kind payload id t u
  after-IsConsistent s (acks a id seq now) fresh v =
      ack_event-IsConsistent memory_ready s v a id seq now
  after-IsConsistent s (stores a payload id t u) fresh v =
      store_result-IsConsistent memory_ready s v a payload id t u
  after-IsConsistent s (settles a id now) fresh v =
      ack_result-IsConsistent memory_ready s v a id now
  after-IsConsistent s (clears a) fresh v = clear_terminal_events-IsConsistent memory_ready s v a
  after-IsConsistent s (discards a) fresh v = discard_terminal_spool-IsConsistent memory_ready s v a
  after-IsConsistent s closes fresh v = close-IsConsistent s v

  pub new-IsConsistent : (worker session : Text) → IsConsistent (new worker session)
  unfolding new get events_of
  new-IsConsistent worker session = record {
    index = record {
      filed = λ m r h. absurd (ground arith);
      indexed = λ m r h. absurd (ground arith);
      owned = λ a m h. absurd (ground arith);
      valid = λ m r h. absurd (ground arith);
    };
    sound = λ m r h. absurd (ground arith);
    no_orphan = λ a h. (refl, refl);
  }

  after_calls_from :
      (cs : List Call) (s : MemoryStore)
      → All CreatesFresh cs
      → IsConsistent s
      → IsConsistent (after_calls s cs)
  after_calls_from [] s fresh v = v
  after_calls_from (c ∷ cs) s fresh v =
      after_calls_from cs (after s c) fresh.1 (after-IsConsistent s c fresh.0 v)

  -- Where each assignment that is given to `create_assignment` counts no Event yet, neither sent nor
  -- acknowledged, the store after any calls on an empty one is consistent: the two dicts of assignments
  -- index one another, an assignment's Events are numbered from 1 up to its count, all of them while it
  -- is not terminal, what is acknowledged is counted, a spooled Result is the one that its assignment
  -- names, and nothing is spooled for an Attempt without an assignment.
  pub after_calls-IsConsistent :
      (worker session : Text) (cs : List Call)
      → All CreatesFresh cs
      → IsConsistent (after_calls (new worker session) cs)
  after_calls-IsConsistent worker session cs fresh =
      after_calls_from cs (new worker session) fresh (new-IsConsistent worker session)
