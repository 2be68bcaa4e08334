-- ===== src/Worker/Flush.antt =====
-- The answers to Events in src/openlinker/runtime/worker.py: `_require_response_keys` and
-- `_validate_event_ack`. Beside them is what the loop on Events of `_flush_attempt_spool` does to the
-- store where nothing else runs during its waits; Worker/Deliver has the loop itself.
pub mod Safe
use openlinker_python.Prelude.{
  ℕ, Bool, true, false, ◌&&◌, List, [], ◌∷◌, Text, text, text_eq, Option, none, some, ◌||◌,
  contains, if◌then◌else◌, all_of, leb, ℤ, pos, negsuc, is_some,
}
use openlinker_python.Json.{Json, Fields, end, field, obj, str, int, bool, get_field, json_beq}
use openlinker_python.Platform.{Platform}
use openlinker_python.Errors.{
  Result, ok, err, unexpected_fields, bad_value, identity_mismatch, require, ◌>>◌ as then_ok,
  ◌>>=◌ as and_then,
}
use openlinker_python.Types.Checks.{has_keys}
use openlinker_python.Exec.{Exec, pure, read, ◌>>=◌}
use openlinker_python.Store.Records.{EventRecord}
use openlinker_python.Store.Memory.{MemoryStore, memory_ready}
use openlinker_python.Store.Methods.{ack_event, events_in_ranges, pending_events}

-- `_require_response_keys`
unfoldable pub require_response_keys : Json → List Text → List Text → Result Fields
unfolding has_keys
require_response_keys (obj fs) required optional =
    if has_keys required optional fs then ok fs else err unexpected_fields
require_response_keys _ required optional = err unexpected_fields

-- `isinstance(value, int) and not isinstance(value, bool) and value >= 1`
abbrev pub is_positive : Option Json → Bool
is_positive (some (int (pos n))) = leb 1 n
is_positive _ = false

abbrev pub is_bool : Option Json → Bool
is_bool (some (bool b)) = true
is_bool _ = false

abbrev pub is_value : Option Json → Json → Bool
is_value none v = false
is_value (some w) v = json_beq w v

-- `_validate_event_ack`
unfoldable pub validate_event_ack : Json → Text → ℕ → Result (Unit {0})
validate_event_ack value event_id event_seq =
    and_then
      (require_response_keys value
        (text "client_event_id" ∷ text "client_event_seq" ∷ text "sequence" ∷ text "replayed" ∷ [])
        [])
      (λ fs.
        then_ok
          (require
            (is_value (get_field fs (text "client_event_id")) (str event_id)
              && is_value (get_field fs (text "client_event_seq")) (int (pos event_seq)))
            identity_mismatch)
          (then_ok (require (is_positive (get_field fs (text "sequence"))) bad_value)
            (require (is_bool (get_field fs (text "replayed"))) bad_value)))

module _ ⦃p : Platform⦄ (send_event : EventRecord → Result Json) where
  -- one turn of the loop, where nothing else runs
  unfoldable pub send_one : Text → EventRecord → ℕ → Exec MemoryStore (Unit {0})
  send_one attempt_id e now = do
    ack ← read (λ s. send_event e)
    _ ← read (λ s. validate_event_ack ack e.client_event_id e.client_event_seq)
    ack_event memory_ready attempt_id e.client_event_id e.client_event_seq now

  unfoldable pub send_all : Text → List EventRecord → ℕ → Exec MemoryStore (Unit {0})
  send_all attempt_id [] now = pure tt
  send_all attempt_id (e ∷ es) now = do _ ← send_one attempt_id e now; send_all attempt_id es now

  -- the whole loop
  unfoldable pub flush_events : Text → ℕ → Exec MemoryStore (Unit {0})
  flush_events attempt_id now = do
    events ← read (pending_events memory_ready attempt_id)
    send_all attempt_id events now
