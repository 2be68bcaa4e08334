-- ===== src/Store/File/Reach.antt =====
-- The stores that the methods of `FileRuntimeStore` (src/openlinker/runtime/store.py) reach, whatever
-- the disk does. The methods come with the arguments that those of a memory store have.
use openlinker_python.Platform.{Platform}
use openlinker_python.Store.Reach.{
  Call, creates, advances, deletes, appends, acks, stores, settles, clears, discards, closes,
}
use openlinker_python.Store.File.{Device, FileStore}
use openlinker_python.Store.File.Methods.{
  create_assignment, advance_assignment, delete_assignment, append_event, ack_event, store_result,
  ack_result, clear_terminal_events, discard_terminal_spool, close,
}

module _ ⦃p : Platform⦄ (device : Device) where
  -- the store after a call, whether it returned or raised
  unfoldable pub after : FileStore → Call → FileStore
  after s (creates r now) = (create_assignment device r now s).1
  after s (advances m state now) = (advance_assignment device m state now s).1
  after s (deletes m) = (delete_assignment device m s).1
  after s (appends a kind payload id t u) = (append_event device a kind payload id t u s).1
  after s (acks a id seq now) = (ack_event device a id seq now s).1
  after s (stores a payload id t u) = (store_result device a payload id t u s).1
  after s (settles a id now) = (ack_result device a id now s).1
  after s (clears a) = (clear_terminal_events device a s).1
  after s (discards a) = (discard_terminal_spool device a s).1
  after s closes = close s

  pub data Reach (s : FileStore) : FileStore → Type 0 where
    here : Reach s s
    next : {t : FileStore} → Reach s t → (c : Call) → Reach s (after t c)
